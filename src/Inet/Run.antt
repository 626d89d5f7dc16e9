-- ===== src/Inet/Run.antt =====
-- What nsbBasicApp.cc schedules and sends from its start to its stop.
use nsb_beta.Inet.Schedule.{turns-le, Timely, turns, packets, packets-append}
use nsb_beta.Outcome.{Returns_map, Returns->>=, Returns_eq, Returns, ◌>>=◌, ok}
use nsb_beta.Inet.Timer.{later_of, schedule, may_start, cancel, when_due}
use nsb_beta.Inet.BasicApp.{
  run, handle_timer, Kind, unset, start, send, stop, BasicApp, Action, handle_start_operation,
}
use nsb_beta.Config.{MessageEntry}
use nsb_beta.Inet.Turn.{Turned, handle_timer-Turned}
use nsb_beta.Base.{
  ℕ, suc, ◌+◌, ◌≤◌, ◌<◌, ◌≡◌, refl, sym, subst, ◌∙◌, inl, inr, true, false, Option, none, some,
  List, [], ◌∷◌, ◌++◌, arith, Bool-cases, length, Bytes, ℤ, pos, negsuc,
}

start-Timely :
    (start_time stop_time : ℤ) (clock : ℕ)
    → may_start start_time stop_time clock ≡ true
    → Timely stop_time start (some clock)
unfolding may_start
start-Timely start_time (pos s) clock h = ground arith
start-Timely start_time (negsuc n) clock h = tt

-- The application as its start leaves it.
pub record Started (a b : BasicApp) : Type 0 where
  pub start_timely : Timely b.stop_time b.timer.kind b.timer.at
  pub start_stop : b.stop_time ≡ a.stop_time
  pub start_sent : b.num_sent ≡ a.num_sent
  pub start_open : b.is_open ≡ a.is_open

pub start-Started :
    (clock : ℕ) (a : BasicApp)
    → a.timer.at ≡ none
    → Returns (Started a) (handle_start_operation clock a)
unfolding handle_start_operation schedule
start-Started clock a h = elim (Bool-cases (may_start a.start_time a.stop_time at)) [
  | inl starts ↦
      Returns_eq (Started a) _ (record a { timer = record { kind = start; at = some at } })
        (ground arith)
        (record {
          start_timely = start-Timely a.start_time a.stop_time at starts;
          start_stop = refl;
          start_sent = refl;
          start_open = refl;
        })
  | inr waits ↦ Returns_eq (Started a) _ a (ground arith) (record {
    start_timely = subst (λ o. Timely a.stop_time a.timer.kind o) (sym h) tt;
    start_stop = refl;
    start_sent = refl;
    start_open = refl;
  })
]
  where
    at : ℕ
    at = later_of a.start_time clock

-- What holds after every run.
record Run {Addr : Type 0} (a : BasicApp) (r : BasicApp × List (Action Addr)) : Type 0 where
  run_stop : r.0.stop_time ≡ a.stop_time
  run_timely : Timely r.0.stop_time r.0.timer.kind r.0.timer.at
  run_counted : r.0.num_sent ≡ a.num_sent + packets r.1

-- Every wait is positive.
abbrev pub Waits : List (ℕ × MessageEntry) → Type 0
Waits [] = Unit {0}
Waits ((wait, e) ∷ rounds) = (0 < wait) × Waits rounds

abbrev pub Stopped : {Addr : Type 0} → BasicApp × List (Action Addr) → Type 0
Stopped r = (r.0.timer.at ≡ none) × (r.0.is_open ≡ false)

no_turn_left :
    (s : ℕ) (st : ℤ) (k : Kind) (o : Option ℕ)
    → st ≡ pos s
    → Timely st k o
    → turns s k o ≤ 0
    → o ≡ none
no_turn_left s st k none e h le = refl
no_turn_left s (pos n) start (some t) e h le = absurd (omega arith)
no_turn_left s (pos n) send (some t) e h le = absurd (omega arith)
no_turn_left s (pos n) stop (some t) e h le = absurd (omega arith)
no_turn_left s (pos n) unset (some t) e h le = elim h [ ]
no_turn_left s (negsuc n) k (some t) e h le = cc

module _ {Addr : Type 0} (resolve : Bytes → Option Addr) (find_interface : Bytes → Option ℕ) where
  module _ (resolves : (name : Bytes) → (x : Addr) × (resolve name ≡ some x))
      (finds : (name : Bytes) → (i : ℕ) × (find_interface name ≡ some i)) where
    run-Run :
        (rounds : List (ℕ × MessageEntry)) (a : BasicApp)
        → Timely a.stop_time a.timer.kind a.timer.at
        → Returns (Run a) (run resolve find_interface rounds a)
    unfolding run
    run-Run [] a timely = record { run_stop = refl; run_timely = timely; run_counted = omega arith }
    run-Run ((wait, e) ∷ rounds) a timely = at_turn a.timer.at timely (run-Run rounds)
      where
        at_turn :
            (o : Option ℕ)
            → Timely a.stop_time a.timer.kind o
            → ((b : BasicApp)
                → Timely b.stop_time b.timer.kind b.timer.at
                → Returns (Run b) (run resolve find_interface rounds b))
            → Returns (Run a) (
                when_due o (ok (a, [])) (λ clock.
                  handle_timer resolve find_interface a.timer.kind clock wait e
                    (record a { timer = cancel a.timer })
                  >>= λ (a', acts). run resolve find_interface rounds a' >>= λ (a'', more).
                      ok (a'', acts ++ more)))
        at_turn none h ih = record {
          run_stop = refl;
          run_timely = timely;
          run_counted = omega arith;
        }
        at_turn (some clock) h ih =
            Returns->>= (Turned a.timer.kind clock wait a.stop_time a.num_sent) _ _ _
              (handle_timer-Turned resolve find_interface resolves finds a.timer.kind clock wait e
                (record a { timer = cancel a.timer }) refl h)
              (λ (a', acts) t.
                Returns->>= (Run a') _ (run resolve find_interface rounds a') _ (ih a' t.timely)
                  (λ (a'', more) q. record {
                    run_stop = q.run_stop ∙ t.same_stop;
                    run_timely = q.run_timely;
                    run_counted = omega (arith, q.run_counted, t.counted, packets-append acts more);
                  }))

    run-Stopped :
        (s : ℕ) (rounds : List (ℕ × MessageEntry)) (a : BasicApp)
        → a.stop_time ≡ pos s
        → Timely a.stop_time a.timer.kind a.timer.at
        → Waits rounds
        → turns s a.timer.kind a.timer.at ≤ length rounds
        → (a.timer.at ≡ none → a.is_open ≡ false)
        → Returns Stopped (run resolve find_interface rounds a)
    unfolding run
    run-Stopped s [] a st timely w enough shut =
        let over = no_turn_left s a.stop_time a.timer.kind a.timer.at st timely enough in
        (over, shut over)
    run-Stopped s ((wait, e) ∷ rounds) a st timely w enough shut =
        at_turn a.timer.at refl timely enough shut (λ b. run-Stopped s rounds b)
      where
        at_turn :
            (o : Option ℕ)
            → a.timer.at ≡ o
            → Timely a.stop_time a.timer.kind o
            → turns s a.timer.kind o ≤ suc (length rounds)
            → (o ≡ none → a.is_open ≡ false)
            → ((b : BasicApp)
                → b.stop_time ≡ pos s
                → Timely b.stop_time b.timer.kind b.timer.at
                → Waits rounds
                → turns s b.timer.kind b.timer.at ≤ length rounds
                → (b.timer.at ≡ none → b.is_open ≡ false)
                → Returns Stopped (run resolve find_interface rounds b))
            → Returns Stopped (
                when_due o (ok (a, [])) (λ clock.
                  handle_timer resolve find_interface a.timer.kind clock wait e
                    (record a { timer = cancel a.timer })
                  >>= λ (a', acts). run resolve find_interface rounds a' >>= λ (a'', more).
                      ok (a'', acts ++ more)))
        at_turn none at h le shut ih = (at, shut refl)
        at_turn (some clock) at h le shut ih =
            Returns->>= (Turned a.timer.kind clock wait a.stop_time a.num_sent) _ _ _
              (handle_timer-Turned resolve find_interface resolves finds a.timer.kind clock wait e
                (record a { timer = cancel a.timer }) refl h)
              (λ (a', acts) t.
                Returns->>= Stopped Stopped (run resolve find_interface rounds a') _
                  (ih a' (t.same_stop ∙ st) t.timely w.1 (omega (arith, t.fewer s st w.0))
                    (t.closed s st))
                  (λ r q. q))

    -- If every name resolves and every interface is there, an application with no timer scheduled,
    -- whatever its times are, returns from its start and from every run after it, whatever it
    -- fetches: nothing is scheduled twice or for a time that is over. It then has sent as many
    -- packets as it has counted since its start, and the timer that is left, if there is one, is
    -- due in time: a START no later than the stop time, a SEND before it and a STOP at it, if a
    -- stop time is set.
    pub started_run_returns :
        (clock : ℕ) (rounds : List (ℕ × MessageEntry)) (a : BasicApp)
        → a.timer.at ≡ none
        → Returns
            (λ b.
              Returns
                (λ r.
                  (r.0.num_sent ≡ a.num_sent + packets r.1)
                  × Timely a.stop_time r.0.timer.kind r.0.timer.at)
                (run resolve find_interface rounds b))
            (handle_start_operation clock a)
    started_run_returns clock rounds a h =
        Returns_map _ _ (handle_start_operation clock a) (start-Started clock a h) (λ b s.
          Returns_map _ _ (run resolve find_interface rounds b) (run-Run rounds b s.start_timely)
            (λ r q. (
              omega (arith, q.run_counted, s.start_sent),
              subst (λ st. Timely st r.0.timer.kind r.0.timer.at) (q.run_stop ∙ s.start_stop)
                  q.run_timely,
            )))

    -- If every name resolves and every interface is there, an application with no timer scheduled,
    -- its socket closed and a stop time `s` has stopped after its start and a run with at least `s
    -- + 2` turns of its timer, if it waits at least a tick between two packets: its socket is
    -- closed and no timer is left.
    pub started_run_stops :
        (s clock : ℕ) (rounds : List (ℕ × MessageEntry)) (a : BasicApp)
        → a.timer.at ≡ none
        → a.is_open ≡ false
        → a.stop_time ≡ pos s
        → Waits rounds
        → s + 2 ≤ length rounds
        → Returns
            (λ b.
              Returns
                (λ r. (r.0.timer.at ≡ none) × (r.0.is_open ≡ false))
                (run resolve find_interface rounds b))
            (handle_start_operation clock a)
    started_run_stops s clock rounds a h shut st w enough =
        Returns_map _ _ (handle_start_operation clock a) (start-Started clock a h) (λ b q.
          run-Stopped s rounds b (q.start_stop ∙ st) q.start_timely w
            (turns-le s (length rounds) b.timer.kind b.timer.at enough)
            (λ left. q.start_open ∙ shut))
