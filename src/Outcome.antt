-- ===== src/Outcome.antt =====
-- The result of code that may fault: of a handler of cpp/src/nsb_daemon.cc and of a call of the
-- client library, and how a property of the result is proved along a chain of calls.
use nsb_beta.Base.{◌≡◌, refl, Bool, true, false}

-- What ends the process: a read of the first entry of an empty map, `std::out_of_range` from `at`,
-- `substr` or `stoi`, `FD_SET` on a descriptor that no set can hold, a read through a null pointer,
-- `std::exit(EXIT_FAILURE)`, `cRuntimeError`, with which OMNeT++ ends the simulation,
-- `std::invalid_argument`, and an exception of yaml-cpp.
pub data Fault : Type 0 where
  begin_of_empty out_of_range bad_fd_set null_pointer exits runtime_error invalid_argument
        yaml_exception :
      Fault

pub data Outcome {ℓ} (A : Type ℓ) : Type ℓ where
  ok : A → Outcome A
  fault : Fault → Outcome A

infixl 5 ◌>>=◌
abbrev pub ◌>>=◌ {ℓ κ} : {A : Type ℓ} {B : Type κ} → Outcome A → (A → Outcome B) → Outcome B
ok a >>= f = f a
fault e >>= f = fault e

-- What holds of the result, if there is one.
abbrev pub Ensures {ℓ κ} : {A : Type ℓ} → (A → Type κ) → Outcome A → Type κ
Ensures Q (ok a) = Q a
Ensures Q (fault e) = Unit

pub Ensures->>= {ℓ κ ι} :
    {A : Type ℓ} {B : Type κ} (Q : A → Type ι) (R : B → Type ι) (m : Outcome A) (f : A → Outcome B)
    → Ensures Q m
    → ((a : A) → Q a → Ensures R (f a))
    → Ensures R (m >>= f)
Ensures->>= Q R (ok a) f h k = k a h
Ensures->>= Q R (fault e) f h k = tt

pub Ensures-ok {ℓ κ} :
    {A : Type ℓ} (Q : A → Type κ) (m : Outcome A) {a : A} → Ensures Q m → m ≡ ok a → Q a
Ensures-ok Q m h e = rw e at h

pub Ensures-intro {ℓ κ} :
    {A : Type ℓ} (Q : A → Type κ) (m : Outcome A) → ((a : A) → m ≡ ok a → Q a) → Ensures Q m
Ensures-intro Q (ok a) h = h a refl
Ensures-intro Q (fault e) h = tt

pub Ensures-map {ℓ κ ι} :
    {A : Type ℓ} (Q : A → Type κ) (R : A → Type ι) (m : Outcome A)
    → ((a : A) → Q a → R a)
    → Ensures Q m
    → Ensures R m
Ensures-map Q R (ok a) f h = f a h
Ensures-map Q R (fault e) f h = tt

abbrev pub is_ok {ℓ} : {A : Type ℓ} → Outcome A → Bool
is_ok (ok a) = true
is_ok (fault e) = false

pub value_of_ok {ℓ} : {A : Type ℓ} (o : Outcome A) → is_ok o ≡ true → (a : A) × (o ≡ ok a)
value_of_ok (ok a) h = (a, refl)
value_of_ok (fault e) h = cc

-- The code returns, and this holds of the result.
abbrev pub Returns {ℓ} : {A : Type ℓ} → (A → Type 0) → Outcome A → Type 0
Returns Q (ok a) = Q a
Returns Q (fault e) = ⊥

pub Returns->>= {ℓ κ} :
    {A : Type ℓ} {B : Type κ} (Q : A → Type 0) (R : B → Type 0) (m : Outcome A) (f : A → Outcome B)
    → Returns Q m
    → ((a : A) → Q a → Returns R (f a))
    → Returns R (m >>= f)
Returns->>= Q R (ok a) f h k = k a h
Returns->>= Q R (fault e) f h k = elim h [ ]

pub Returns_eq {ℓ} :
    {A : Type ℓ} (Q : A → Type 0) (m : Outcome A) (a : A) → m ≡ ok a → Q a → Returns Q m
Returns_eq Q m a e h = rw e h

pub Returns_map {ℓ} :
    {A : Type ℓ} (Q R : A → Type 0) (m : Outcome A)
    → Returns Q m
    → ((a : A) → Q a → R a)
    → Returns R m
Returns_map Q R (ok a) h f = f a h
Returns_map Q R (fault e) h f = elim h [ ]

pub Returns_at {ℓ} :
    {A : Type ℓ} (Q : A → Type 0) (m : Outcome A) (a : A) → Returns Q m → m ≡ ok a → Q a
Returns_at Q m a h e = rw e at h
