-- ===== src/Inet/Timer.antt =====
-- What nsbBasicApp.cc and nsbAppSink.cc use of the simulation kernel: time, and the one message
-- that a module schedules to itself, with the errors that the kernel documents.
use nsb_beta.Base.{
  ℕ, Bool, true, false, ◌&&◌, ◌||◌, Option, none, some, ltb, int_eq, if◌then◌else◌, ℤ, pos, negsuc,
}
use nsb_beta.Outcome.{Outcome, ok, fault, runtime_error}

-- `operator<` on times. A time that is given as a parameter may be negative; the clock is not.
abbrev pub before : ℤ → ℤ → Bool
before (pos m) (pos n) = ltb m n
before (pos m) (negsuc n) = false
before (negsuc m) (pos n) = true
before (negsuc m) (negsuc n) = ltb n m

abbrev pub is_negative : ℤ → Bool
is_negative (pos n) = false
is_negative (negsuc n) = true

-- `std::max(startTime, getClockTime())`
abbrev pub later_of : ℤ → ℕ → ℕ
later_of (pos n) clock = if ltb n clock then clock else n
later_of (negsuc n) clock = clock

-- `selfMsg`: its kind, and when it is due, if it is scheduled.
pub record Timer (K : Type 0) : Type 0 where
  pub kind : K
  pub at : Option ℕ

module _ {K : Type 0} where
  -- `setKind` and `scheduleAt`: a message that is scheduled already, or a time that is over, is an
  -- error of the kernel.
  unfoldable pub schedule : ℕ → K → ℕ → Timer K → Outcome (Timer K)
  schedule clock k at t = elim t.at [
    | some due ↦ fault runtime_error
    | none ↦ if ltb at clock then fault runtime_error else ok (record { kind = k; at = some at })
  ]

  -- `cancelEvent`, and what the kernel does before it hands the message over.
  abbrev pub cancel : Timer K → Timer K
  cancel t = record t { at = none }

-- The kernel hands the message over at its time, if it is scheduled.
abbrev pub when_due {ℓ} : {R : Type ℓ} → Option ℕ → R → (ℕ → R) → R
when_due none r f = r
when_due (some clock) r f = f clock

-- Whether the application starts at all.
unfoldable pub may_start : ℤ → ℤ → ℕ → Bool
may_start start_time stop_time start =
    is_negative stop_time
    || (before (pos start) stop_time
        || (int_eq (pos start) stop_time && int_eq start_time stop_time))
