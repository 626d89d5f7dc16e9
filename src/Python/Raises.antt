-- ===== src/Python/Raises.antt =====
-- A Python method that may raise: python/nsb_client.py.
use nsb_beta.Base.{Bool, if◌then◌else◌}

-- `connection_error` is redis-py's, `decode_error` protobuf's.
pub data Exception : Type 0 where
  runtime_error timeout_error type_error value_error os_error : Exception
  connection_error decode_error attribute_error : Exception

pub data Result {ℓ} (A : Type ℓ) : Type ℓ where
  returns : A → Result A
  raises : Exception → Result A

-- A method on a state: what it has changed stays changed when it raises.
abbrev pub Method : Type 0 → Type 0 → Type 0
Method S A = S → Result A × S

module _ {S : Type 0} where
  abbrev pub pure : {A : Type 0} → A → Method S A
  pure a s = (returns a, s)

  abbrev pub raise : {A : Type 0} → Exception → Method S A
  raise e s = (raises e, s)

  abbrev pub raise_if : Bool → Exception → Method S (Unit {0})
  raise_if b e s = (if b then raises e else returns tt, s)

infixl 5 ◌>>=◌ ◌>>◌
abbrev pub ◌>>=◌ : {S A B : Type 0} → Method S A → (A → Method S B) → Method S B
◌>>=◌ m f s = let (r, s') = m s in elim r [ returns a ↦ f a s' | raises e ↦ raise e s' ]

abbrev pub ◌>>◌ : {S B : Type 0} → Method S (Unit {0}) → Method S B → Method S B
m >> k = m >>= λ _. k
