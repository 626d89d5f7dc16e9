-- ===== src/Hosts.antt =====
-- The names "host0", "host1", ... that the simulators of examples/ read: `std::stoi(name.substr(4))`.
use nsb_beta.Base.{
  ℕ, ◌+◌, ◌-◌, ◌*◌, ◌^◌, ◌<◌, ◌≡◌, refl, sym, ap, subst, ◌∙◌, ◌≢◌, inl, inr, Bool, true, false,
  ◌&&◌, ◌||◌, [], ◌∷◌, ◌++◌, arith, ltb, leb, ◌==◌, if◌then◌else◌, Bool-cases, length, drop, Bytes,
  codes, str_eq, str_eq_iff, Lacks, ℤ, pos, negsuc, decimal, to_string, decimal-injective,
  Lacks-decimal, decimal-ne-nil, read_digits, read_digits-decimal, is_digit, AllDigits,
  AllDigits-decimal,
}
use nsb_beta.Outcome.{Outcome, ok, fault, out_of_range, invalid_argument, ◌>>=◌}

abbrev is_space : ℕ → Bool
is_space c = (c == 32) || (leb 9 c && leb c 13)

skip_spaces : Bytes → Bytes
skip_spaces [] = []
skip_spaces (c ∷ s) = let rest = skip_spaces s in if is_space c then rest else c ∷ s

-- Whether there is a minus sign, and what is behind the sign.
sign_of : Bytes → Bool × Bytes
sign_of [] = (false, [])
sign_of (c ∷ s) = if c == b'-' then (true, s) else if c == b'+' then (false, s) else (false, c ∷ s)

-- The digits at the start, behind `acc`.
leading_number : ℕ → Bytes → ℕ
leading_number acc [] = acc
leading_number acc (c ∷ s) =
    let rest = leading_number (acc * 10 + (c - b'0')) s in if is_digit c then rest else acc

starts_with_digit : Bytes → Bool
starts_with_digit [] = false
starts_with_digit (c ∷ s) = is_digit c

to_int : Bool → ℕ → Outcome ℤ
to_int negative n =
    if negative
    then (if n == 0
        then ok (pos 0)
        else if leb n (2 ^ 31)
        then ok (negsuc (n - 1))
        else fault out_of_range)
    else if ltb n (2 ^ 31)
    then ok (pos n)
    else fault out_of_range

-- `std::stoi`: white space, a sign, and digits, of which there must be one.
unfoldable pub stoi : Bytes → Outcome ℤ
unfolding skip_spaces sign_of leading_number starts_with_digit to_int
stoi s =
    let (negative, rest) = sign_of (skip_spaces s) in
    if starts_with_digit rest
    then to_int negative (leading_number 0 rest)
    else fault invalid_argument

-- `name.substr(4)`, which throws if the name is shorter.
unfoldable pub after_four : Bytes → Outcome Bytes
after_four name = if leb 4 (length name) then ok (drop 4 name) else fault out_of_range

-- `std::stoi(name.substr(4))`
unfoldable pub host_index : Bytes → Outcome ℤ
unfolding after_four
host_index name = after_four name >>= stoi

-- `"host" + std::to_string(n)`
unfoldable pub host_name : ℤ → Bytes
host_name n = codes "host" ++ to_string n

leading_number-digits :
    (acc : ℕ) (s : Bytes) → AllDigits s → leading_number acc s ≡ read_digits acc s
unfolding leading_number read_digits
leading_number-digits acc [] h = refl
leading_number-digits acc (c ∷ s) h = rw h.0 (leading_number-digits (acc * 10 + (c - b'0')) s h.1)

-- Digits alone are read whole.
stoi-digits :
    (s : Bytes)
    → AllDigits s
    → s ≢ []
    → read_digits 0 s < 2 ^ 31
    → stoi s ≡ ok (pos (read_digits 0 s))
unfolding stoi
stoi-digits [] h n small = absurd (n refl)
stoi-digits (c ∷ s) h n small = ground (arith, h.0, leading_number-digits 0 (c ∷ s) h)

pub after_host : (s : Bytes) → after_four (codes "host" ++ s) ≡ ok s
unfolding after_four
after_host s = ground arith

pub stoi-decimal : (k : ℕ) → k < 2 ^ 31 → stoi (decimal k) ≡ ok (pos k)
stoi-decimal k h =
    stoi-digits (decimal k) (AllDigits-decimal k) (decimal-ne-nil k)
      (subst (λ n. n < 2 ^ 31) (sym (read_digits-decimal k)) h)
    ∙ ap (λ n. ok (pos n)) (read_digits-decimal k)

pub host_index-host_name : (k : ℕ) → k < 2 ^ 31 → host_index (host_name (pos k)) ≡ ok (pos k)
unfolding host_index host_name to_string
host_index-host_name k h = ap (λ m. m >>= stoi) (after_host (decimal k)) ∙ stoi-decimal k h

pub host_name-injective : (i k : ℕ) → host_name (pos i) ≡ host_name (pos k) → i ≡ k
unfolding host_name to_string
host_name-injective i k e = decimal-injective i k (ap (drop 4) e)

pub other_host_name : (i k : ℕ) → i ≢ k → str_eq (host_name (pos k)) (host_name (pos i)) ≡ false
other_host_name i k d = elim (Bool-cases (str_eq (host_name (pos k)) (host_name (pos i)))) [
  | inl same ↦ absurd (
      d (
        host_name-injective i k
          (sym ((str_eq_iff (host_name (pos k)) (host_name (pos i))).0 same))))
  | inr other ↦ other
]

-- A name has no byte 0.
pub Lacks-host_name : (k : ℕ) → Lacks 0 (host_name (pos k))
unfolding host_name to_string
Lacks-host_name k = ground (arith, Lacks-decimal 0 k (λ d h e. omega arith))
