-- ===== src/Base/Decimal.antt =====
-- `std::to_string(int)`.
use Prim.Native.Nat.{ℕ, zero, suc, ◌+◌, ◌-◌, ◌*◌, ◌/◌, ◌%◌, ◌<◌, ◌≤◌, ◌^◌}
use mathlib.Core.Path.{◌≡◌, refl, sym, ap, ◌∙◌}
use mathlib.Core.Logic.{◌≢◌, inl, inr}
use mathlib.Core.List.{[], ◌∷◌, ◌++◌}
use native.Mathlib.Omega.{arith}
use mathlib.Core.Bool.{Bool, true, ◌&&◌}
use nsb_beta.Base.Tests.{ltb, leb, if◌then◌else◌, Bool-cases}
use nsb_beta.Base.Lists.{length, length-append}
use nsb_beta.Base.Strings.{Bytes, Lacks, Lacks-append}
use nsb_beta.Base.Int.{ℤ, pos, negsuc}

-- The digits of `n`, the highest first; `fuel` bounds how many are written.
decimal_loop : ℕ → ℕ → Bytes
decimal_loop zero n = []
decimal_loop (suc fuel) n =
    let rest = decimal_loop fuel (n / 10) in
    if ltb n 10 then (b'0' + n) ∷ [] else rest ++ (b'0' + n % 10) ∷ []

-- A number has fewer digits than its successor has units, so the fuel is enough.
unfoldable pub decimal : ℕ → Bytes
unfolding decimal_loop
decimal n = decimal_loop (suc n) n

unfoldable pub to_string : ℤ → Bytes
unfolding decimal
to_string (pos n) = decimal n
to_string (negsuc n) = b'-' ∷ decimal (suc n)

unfoldable pub read_digits : ℕ → Bytes → ℕ
read_digits acc [] = acc
read_digits acc (d ∷ ds) = read_digits (acc * 10 + (d - b'0')) ds

read_digits-snoc :
    (acc d : ℕ) (ds : Bytes) → read_digits acc (ds ++ d ∷ []) ≡ read_digits acc ds * 10 + (d - b'0')
unfolding read_digits
read_digits-snoc acc d [] = refl
read_digits-snoc acc d (x ∷ ds) = read_digits-snoc (acc * 10 + (x - b'0')) d ds

read_digits-decimal_loop : (fuel n : ℕ) → n < fuel → read_digits 0 (decimal_loop fuel n) ≡ n
unfolding decimal_loop
read_digits-decimal_loop zero n h = elim h [ ]
read_digits-decimal_loop (suc fuel) n h = elim (Bool-cases (ltb n 10)) [
  | inl small ↦ rw small (unfold read_digits in omega arith)
  | inr big ↦
      rw (big, read_digits-snoc 0 _ _, read_digits-decimal_loop fuel (n / 10) (ground arith))
        (omega arith)
]

pub read_digits-decimal : (n : ℕ) → read_digits 0 (decimal n) ≡ n
unfolding decimal
read_digits-decimal n = read_digits-decimal_loop (suc n) n (omega arith)

abbrev pub is_digit : ℕ → Bool
is_digit c = leb b'0' c && leb c b'9'

abbrev pub AllDigits : Bytes → Type 0
AllDigits [] = Unit {0}
AllDigits (d ∷ ds) = (is_digit d ≡ true) × AllDigits ds

AllDigits-snoc : (ds : Bytes) (d : ℕ) → AllDigits ds → is_digit d ≡ true → AllDigits (ds ++ d ∷ [])
AllDigits-snoc [] d h k = (k, tt)
AllDigits-snoc (x ∷ ds) d h k = (h.0, AllDigits-snoc ds d h.1 k)

AllDigits-decimal_loop : (fuel n : ℕ) → AllDigits (decimal_loop fuel n)
unfolding decimal_loop
AllDigits-decimal_loop zero n = tt
AllDigits-decimal_loop (suc fuel) n = elim (Bool-cases (ltb n 10)) [
  | inl small ↦ rw small (ground arith, tt)
  | inr big ↦ rw big (
      AllDigits-snoc (decimal_loop fuel (n / 10)) _ (AllDigits-decimal_loop fuel (n / 10))
        (ground arith))
]

pub AllDigits-decimal : (n : ℕ) → AllDigits (decimal n)
unfolding decimal
AllDigits-decimal n = AllDigits-decimal_loop (suc n) n

pub decimal-injective : (m n : ℕ) → decimal m ≡ decimal n → m ≡ n
unfolding decimal
decimal-injective m n e = sym (read_digits-decimal m) ∙ ap (read_digits 0) e ∙ read_digits-decimal n

-- No byte outside '0'..'9' is written.
Lacks-decimal_loop :
    (c fuel n : ℕ) → ((d : ℕ) → d < 10 → b'0' + d ≢ c) → Lacks c (decimal_loop fuel n)
unfolding decimal_loop
Lacks-decimal_loop c zero n h = tt
Lacks-decimal_loop c (suc fuel) n h = elim (Bool-cases (ltb n 10)) [
  | inl small ↦ rw small (h n (ground arith), tt)
  | inr big ↦ rw big (
      Lacks-append c (decimal_loop fuel (n / 10)) _ (Lacks-decimal_loop c fuel (n / 10) h)
        (h (n % 10) (omega arith), tt))
]

pub Lacks-decimal : (c n : ℕ) → ((d : ℕ) → d < 10 → b'0' + d ≢ c) → Lacks c (decimal n)
unfolding decimal
Lacks-decimal c n h = Lacks-decimal_loop c (suc n) n h

pub Lacks-to_string :
    (c : ℕ) (i : ℤ) → ((d : ℕ) → d < 10 → b'0' + d ≢ c) → b'-' ≢ c → Lacks c (to_string i)
unfolding to_string
Lacks-to_string c (pos n) h k = Lacks-decimal c n h
Lacks-to_string c (negsuc n) h k = (k, Lacks-decimal c (suc n) h)

snoc-ne-nil : (xs : Bytes) (x : ℕ) → xs ++ x ∷ [] ≢ []
snoc-ne-nil [] x e = cc
snoc-ne-nil (y ∷ ys) x e = cc

pub decimal-ne-nil : (n : ℕ) → decimal n ≢ []
unfolding decimal
decimal-ne-nil n = ground (arith, snoc-ne-nil (decimal_loop n (n / 10)) (b'0' + n % 10))

tenth : (v n : ℕ) → n < 10 ^ suc (suc v) → n / 10 < 10 ^ suc v
tenth v n h = omega arith

-- A number below 10^w has at most w digits, if w is not 0.
length-decimal_loop-le : (fuel w n : ℕ) → n < 10 ^ suc w → length (decimal_loop fuel n) ≤ suc w
unfolding decimal_loop
length-decimal_loop-le zero w n h = omega arith
length-decimal_loop-le (suc fuel) zero n h = elim (Bool-cases (ltb n 10)) [
  | inl small ↦ rw small (omega arith)
  | inr big ↦ absurd (ground arith)
]
length-decimal_loop-le (suc fuel) (suc v) n h = elim (Bool-cases (ltb n 10)) [
  | inl small ↦ rw small (omega arith)
  | inr big ↦
      let fewer = length-decimal_loop-le fuel v (n / 10) (tenth v n h) in
      rw (big, length-append (decimal_loop fuel (n / 10)) ((b'0' + n % 10) ∷ [])) (omega arith)
]

pub length-decimal-le : (w n : ℕ) → n < 10 ^ suc w → length (decimal n) ≤ suc w
unfolding decimal
length-decimal-le w n h = length-decimal_loop-le (suc n) w n h
