-- ===== src/Base/Strings.antt =====
-- `std::string` as the list of its bytes.
use Prim.Native.Nat.{ℕ}
use Prim.Native.Char.{code}
use Prim.Native.String.{String}
use mathlib.Core.Path.{◌≡◌, refl, subst}
use mathlib.Core.Logic.{◌↔◌, ◌≢◌}
use mathlib.Core.Bool.{Bool, true, false, ◌&&◌}
use mathlib.Core.List.{List, [], ◌∷◌, ◌++◌}
use native.Mathlib.Omega.{arith}
use nsb_beta.Base.Tests.{ltb, ◌==◌, if◌then◌else◌}

abbrev pub Bytes : Type 0
Bytes = List ℕ

-- A literal of the source: the bytes of an ASCII text.
abbrev pub codes : String → Bytes
codes String.[] = []
codes (String.◌∷◌ c s) = code c ∷ codes s

-- `operator==` and `operator<` of `std::string`.
unfoldable pub str_eq : Bytes → Bytes → Bool
str_eq [] [] = true
str_eq [] (y ∷ ys) = false
str_eq (x ∷ xs) [] = false
str_eq (x ∷ xs) (y ∷ ys) = x == y && str_eq xs ys

unfoldable pub str_lt : Bytes → Bytes → Bool
str_lt [] [] = false
str_lt [] (y ∷ ys) = true
str_lt (x ∷ xs) [] = false
str_lt (x ∷ xs) (y ∷ ys) = if x == y then str_lt xs ys else ltb x y

pub str_eq_refl : (s : Bytes) → str_eq s s ≡ true
unfolding str_eq
str_eq_refl [] = refl
str_eq_refl (x ∷ xs) = ground (arith, str_eq_refl xs)

str_eq_sound : (s t : Bytes) → str_eq s t ≡ true → s ≡ t
unfolding str_eq
str_eq_sound [] [] h = refl
str_eq_sound [] (y ∷ ys) h = cc
str_eq_sound (x ∷ xs) [] h = cc
str_eq_sound (x ∷ xs) (y ∷ ys) h = ground (arith, str_eq_sound xs ys)

pub str_eq_iff : (s t : Bytes) → (str_eq s t ≡ true) ↔ (s ≡ t)
str_eq_iff s t = (str_eq_sound s t, λ e. rw e (str_eq_refl t))

-- `s.c_str()` read as a C string: everything before the first NUL.
unfoldable pub c_str : Bytes → Bytes
c_str [] = []
c_str (x ∷ xs) = let rest = c_str xs in if x == 0 then [] else x ∷ rest

-- The byte `c` does not occur.
abbrev pub Lacks : ℕ → Bytes → Type 0
Lacks c [] = Unit {0}
Lacks c (x ∷ xs) = (x ≢ c) × Lacks c xs

pub c_str-Lacks : (s : Bytes) → Lacks 0 s → c_str s ≡ s
unfolding c_str
c_str-Lacks [] h = refl
c_str-Lacks (x ∷ xs) h = ground (arith, c_str-Lacks xs h.1)

pub Lacks-append : (c : ℕ) (xs ys : Bytes) → Lacks c xs → Lacks c ys → Lacks c (xs ++ ys)
Lacks-append c [] ys h k = k
Lacks-append c (x ∷ xs) ys h k = (h.0, Lacks-append c xs ys h.1 k)

-- What stands before the first separator, and after it.
pub split_first :
    (c : ℕ) (xs ys u v : Bytes)
    → Lacks c xs
    → Lacks c ys
    → xs ++ c ∷ u ≡ ys ++ c ∷ v
    → (xs ≡ ys) × (u ≡ v)
split_first c [] [] u v h k e = (refl, cc)
split_first c [] (y ∷ ys) u v h k e = absurd (k.0 (cc))
split_first c (x ∷ xs) [] u v h k e = absurd (h.0 (cc))
split_first c (x ∷ xs) (y ∷ ys) u v h k e =
    let (p, q) = split_first c xs ys u v h.1 k.1 (cc) in (cc p, q)

Lacks-tail : (c : ℕ) (xs ys : Bytes) → ¬ Lacks c (xs ++ c ∷ ys)
Lacks-tail c [] ys h = h.0 refl
Lacks-tail c (x ∷ xs) ys h = Lacks-tail c xs ys h.1

-- What stands before the last separator, and after it.
pub split_last :
    (c : ℕ) (xs ys u v : Bytes)
    → Lacks c u
    → Lacks c v
    → xs ++ c ∷ u ≡ ys ++ c ∷ v
    → (xs ≡ ys) × (u ≡ v)
split_last c [] [] u v h k e = (refl, cc)
split_last c [] (y ∷ ys) u v h k e =
    let e' : u ≡ ys ++ c ∷ v = cc in absurd (Lacks-tail c ys v (subst (Lacks c) e' h))
split_last c (x ∷ xs) [] u v h k e =
    let e' : v ≡ xs ++ c ∷ u = cc in absurd (Lacks-tail c xs u (subst (Lacks c) e' k))
split_last c (x ∷ xs) (y ∷ ys) u v h k e = let (p, q) = split_last c xs ys u v h k (cc) in (cc p, q)

pub c_str_idem : (s : Bytes) → c_str (c_str s) ≡ c_str s
unfolding c_str
c_str_idem [] = refl
c_str_idem (x ∷ xs) = ground (arith, c_str_idem xs)
