-- ===== src/Tests/Coder.antt =====
-- Readers and writers that undo one another, to build a concrete stand-in for the protobuf runtime.
use mathlib.Core.List.{append_assoc}
use nsb_beta.Base.{
  ℕ, zero, suc, ◌≡◌, refl, ap, ◌⊎◌, inl, inr, Bool, true, false, Option, none, some, [], ◌∷◌, ◌++◌,
  length, take, drop, Bytes, ℤ, pos, negsuc,
}

pub record Coder (A : Type 0) : Type 0 where
  pub write : A → Bytes
  pub read : Bytes → Option (A × Bytes)
  pub law : (a : A) (rest : Bytes) → read (write a ++ rest) ≡ some (a, rest)

infixl 5 ◌>>=◌
abbrev ◌>>=◌ {ℓ κ} : {A : Type ℓ} {B : Type κ} → Option A → (A → Option B) → Option B
none >>= f = none
some a >>= f = f a

abbrev pub number : Coder ℕ
number = record { write = λ n. n ∷ []; read = read_number; law = λ n rest. refl }
  where
    read_number : Bytes → Option (ℕ × Bytes)
    read_number [] = none
    read_number (n ∷ rest) = some (n, rest)

module _ {A B : Type 0} where
  abbrev read_pair : Coder A → Coder B → Bytes → Option ((A × B) × Bytes)
  read_pair x y bs = do (a, bs1) ← x.read bs; (b, bs2) ← y.read bs1; some ((a, b), bs2)

  pub pair_law :
      (x : Coder A) (y : Coder B) (p : A × B) (rest : Bytes)
      → read_pair x y ((x.write p.0 ++ y.write p.1) ++ rest) ≡ some (p, rest)
  pair_law x y (a, b) rest =
      rw (append_assoc (x.write a) (y.write b) rest)
        (rw (x.law a (y.write b ++ rest)) (rw (y.law b rest)))

  abbrev pub pair : Coder A → Coder B → Coder (A × B)
  pair x y = record {
    write = λ p. x.write p.0 ++ y.write p.1;
    read = read_pair x y;
    law = pair_law x y;
  }

  -- A type that another one encodes.
  abbrev read_via : (A → B) → Coder A → Bytes → Option (B × Bytes)
  read_via f x bs = do (a, rest) ← x.read bs; some (f a, rest)

  pub via_law :
      (f : A → B) (g : B → A) (h : (b : B) → f (g b) ≡ b) (x : Coder A) (b : B) (rest : Bytes)
      → read_via f x (x.write (g b) ++ rest) ≡ some (b, rest)
  via_law f g h x b rest = rw (x.law (g b) rest) (ap (λ c. some (c, rest)) (h b))

  abbrev pub via : (f : A → B) (g : B → A) → ((b : B) → f (g b) ≡ b) → Coder A → Coder B
  via f g h x = record { write = λ b. x.write (g b); read = read_via f x; law = via_law f g h x }

  abbrev write_either : Coder A → Coder B → A ⊎ B → Bytes
  write_either x y (inl a) = 0 ∷ x.write a
  write_either x y (inr b) = 1 ∷ y.write b

  abbrev read_either : Coder A → Coder B → Bytes → Option ((A ⊎ B) × Bytes)
  read_either x y [] = none
  read_either x y (zero ∷ bs) = do (a, rest) ← x.read bs; some (inl a, rest)
  read_either x y (suc n ∷ bs) = do (b, rest) ← y.read bs; some (inr b, rest)

  pub either_law :
      (x : Coder A) (y : Coder B) (c : A ⊎ B) (rest : Bytes)
      → read_either x y (write_either x y c ++ rest) ≡ some (c, rest)
  either_law x y (inl a) rest = rw (x.law a rest)
  either_law x y (inr b) rest = rw (y.law b rest)

  abbrev pub either : Coder A → Coder B → Coder (A ⊎ B)
  either x y = record { write = write_either x y; read = read_either x y; law = either_law x y }

module _ {A : Type 0} where
  abbrev of_either : ℕ ⊎ A → Option A
  of_either (inl n) = none
  of_either (inr a) = some a

  abbrev to_either : Option A → ℕ ⊎ A
  to_either none = inl 0
  to_either (some a) = inr a

  pub of_to_either : (o : Option A) → of_either (to_either o) ≡ o
  of_to_either none = refl
  of_to_either (some a) = refl

  abbrev pub optional : Coder A → Coder (Option A)
  optional x = via of_either to_either of_to_either (either number x)

-- A string with its length in front.
abbrev read_text : Bytes → Option (Bytes × Bytes)
read_text [] = none
read_text (n ∷ bs) = some (take n bs, drop n bs)

pub text_law : (s rest : Bytes) → read_text ((length s ∷ s) ++ rest) ≡ some (s, rest)
text_law s rest = λ i. some (taken s i, dropped s i)
  where
    taken : (s : Bytes) → take (length s) (s ++ rest) ≡ s
    taken [] = refl
    taken (x ∷ xs) = rw (taken xs)

    dropped : (s : Bytes) → drop (length s) (s ++ rest) ≡ rest
    dropped [] = refl
    dropped (x ∷ xs) = dropped xs

abbrev pub text : Coder Bytes
text = record { write = λ s. length s ∷ s; read = read_text; law = text_law }

abbrev of_signed : ℕ ⊎ ℕ → ℤ
of_signed (inl n) = pos n
of_signed (inr n) = negsuc n

abbrev to_signed : ℤ → ℕ ⊎ ℕ
to_signed (pos n) = inl n
to_signed (negsuc n) = inr n

pub of_to_signed : (i : ℤ) → of_signed (to_signed i) ≡ i
of_to_signed (pos n) = refl
of_to_signed (negsuc n) = refl

abbrev pub signed : Coder ℤ
signed = via of_signed to_signed of_to_signed (either number number)

abbrev of_bit : ℕ ⊎ ℕ → Bool
of_bit (inl n) = false
of_bit (inr n) = true

abbrev to_bit : Bool → ℕ ⊎ ℕ
to_bit false = inl 0
to_bit true = inr 0

pub of_to_bit : (b : Bool) → of_bit (to_bit b) ≡ b
of_to_bit false = refl
of_to_bit true = refl

abbrev pub bit : Coder Bool
bit = via of_bit to_bit of_to_bit (either number number)
