-- ===== src/Inet/Schedule.antt =====
-- When the timer of nsbBasicApp.cc may be due, and how often it can go off.
use nsb_beta.Inet.Timer.{Timer}
use nsb_beta.Inet.BasicApp.{
  binds, sets_time_to_live, sets_dscp, sets_tos, sets_interface, sets_broadcast, joins_groups,
  closes, destroys, delays_finish, finishes, Kind, unset, start, send, stop, Action, sends,
  next_timer,
}
use nsb_beta.Outcome.{ok}
use nsb_beta.Base.{
  ℕ, suc, ◌+◌, ◌-◌, ◌≤◌, ◌<◌, ◌≡◌, refl, ◌≢◌, Option, none, some, List, [], ◌∷◌, ◌++◌, arith, ltb,
  if◌then◌else◌, ℤ, pos, negsuc,
}

-- When each kind of timer may be due, for a stop time that is set and for none.
abbrev pub Timely : ℤ → Kind → Option ℕ → Type 0
Timely stop_time k none = Unit {0}
Timely (pos s) start (some t) = t ≤ s
Timely (pos s) send (some t) = t < s
Timely (pos s) stop (some t) = t ≡ s
Timely (pos s) unset (some t) = ⊥
Timely (negsuc n) start (some t) = Unit {0}
Timely (negsuc n) send (some t) = Unit {0}
Timely (negsuc n) stop (some t) = ⊥
Timely (negsuc n) unset (some t) = ⊥

-- How many times the timer goes off at most, if it stops at `s`.
abbrev pub turns : ℕ → Kind → Option ℕ → ℕ
turns s k none = 0
turns s start (some t) = s - t + 2
turns s send (some t) = s - t + 1
turns s stop (some t) = 1
turns s unset (some t) = 0

-- The packets among the actions.
abbrev pub packets : {Addr : Type 0} → List (Action Addr) → ℕ
packets [] = 0
packets (sends x port raw ∷ acts) = suc (packets acts)
packets (act ∷ acts) = packets acts

pub packets-append :
    {Addr : Type 0} (xs ys : List (Action Addr)) → packets (xs ++ ys) ≡ packets xs + packets ys
packets-append [] ys = omega arith
packets-append (sends x port raw ∷ xs) ys = omega (arith, packets-append xs ys)
packets-append (binds x port ∷ xs) ys = packets-append xs ys
packets-append (sets_time_to_live n ∷ xs) ys = packets-append xs ys
packets-append (sets_dscp n ∷ xs) ys = packets-append xs ys
packets-append (sets_tos n ∷ xs) ys = packets-append xs ys
packets-append (sets_interface n ∷ xs) ys = packets-append xs ys
packets-append (sets_broadcast ∷ xs) ys = packets-append xs ys
packets-append (joins_groups ∷ xs) ys = packets-append xs ys
packets-append (closes ∷ xs) ys = packets-append xs ys
packets-append (destroys ∷ xs) ys = packets-append xs ys
packets-append (delays_finish ∷ xs) ys = packets-append xs ys
packets-append (finishes ∷ xs) ys = packets-append xs ys

-- The timer that `processSend` leaves.
abbrev pub upcoming : ℤ → ℕ → ℕ → Timer Kind
upcoming (negsuc n) clock wait = record { kind = send; at = some (clock + wait) }
upcoming (pos s) clock wait =
    if ltb (clock + wait) s
    then record { kind = send; at = some (clock + wait) }
    else record { kind = stop; at = some s }

-- A clock that the timer of an application reads before its stop.
abbrev pub InTime : ℤ → ℕ → Type 0
InTime (pos s) clock = clock ≤ s
InTime (negsuc n) clock = Unit {0}

pub next_timer_lem :
    (stop_time : ℤ) (clock wait : ℕ) (t : Timer Kind)
    → t.at ≡ none
    → InTime stop_time clock
    → next_timer stop_time clock wait t ≡ ok (upcoming stop_time clock wait)
unfolding next_timer
next_timer_lem (pos s) clock wait t h k = ground arith
next_timer_lem (negsuc n) clock wait t h k = ground arith

pub upcoming-Timely :
    (stop_time : ℤ) (clock wait : ℕ)
    → let t = upcoming stop_time clock wait in Timely stop_time t.kind t.at
upcoming-Timely (pos s) clock wait = ground arith
upcoming-Timely (negsuc n) clock wait = tt

pub upcoming-ne-none : (stop_time : ℤ) (clock wait : ℕ) → (upcoming stop_time clock wait).at ≢ none
upcoming-ne-none (pos s) clock wait h = ground arith
upcoming-ne-none (negsuc n) clock wait h = cc

-- A turn at `clock` is followed by fewer, if the next is later.
pub upcoming-lt-turns :
    (s clock wait : ℕ) (k : Kind)
    → Timely (pos s) k (some clock)
    → k ≢ stop
    → 0 < wait
    → let t = upcoming (pos s) clock wait in turns s t.kind t.at < turns s k (some clock)
upcoming-lt-turns s clock wait start h n w = ground arith
upcoming-lt-turns s clock wait send h n w = ground arith
upcoming-lt-turns s clock wait stop h n w = absurd (n refl)
upcoming-lt-turns s clock wait unset h n w = elim h [ ]

pub Timely-InTime :
    (stop_time : ℤ) (k : Kind) (clock : ℕ)
    → Timely stop_time k (some clock)
    → InTime stop_time clock
Timely-InTime (pos s) start clock h = h
Timely-InTime (pos s) send clock h = omega arith
Timely-InTime (pos s) stop clock h = omega arith
Timely-InTime (pos s) unset clock h = elim h [ ]
Timely-InTime (negsuc n) k clock h = tt

pub turns-le : (s n : ℕ) (k : Kind) (o : Option ℕ) → s + 2 ≤ n → turns s k o ≤ n
turns-le s n k none h = omega arith
turns-le s n start (some t) h = omega arith
turns-le s n send (some t) h = omega arith
turns-le s n stop (some t) h = omega arith
turns-le s n unset (some t) h = omega arith
