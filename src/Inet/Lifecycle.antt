-- ===== src/Inet/Lifecycle.antt =====
-- nsbBasicApp.cc as a state machine: whatever its node does, from start to stop or crash and again.
use nsb_beta.Base.{ℕ, ◌+◌, ◌≡◌, refl, subst, Bool, true, false, Option, none, some, List, Bytes}
use nsb_beta.Config.{MessageEntry}
use nsb_beta.Outcome.{ok, Returns, Returns_map, Returns_at}
use nsb_beta.Inet.Timer.{cancel}
use nsb_beta.Inet.BasicApp.{
  BasicApp, Action, handle_timer, handle_start_operation, handle_stop_operation,
  handle_crash_operation, process_packet,
}
use nsb_beta.Inet.Schedule.{Timely, packets}
use nsb_beta.Inet.Turn.{Turned, handle_timer-Turned}
use nsb_beta.Inet.Run.{Started, start-Started}

-- `up`: the node is up, and the framework gives it its messages.
pub record Node : Type 0 where
  pub up : Bool
  pub app : BasicApp

module _ {Addr : Type 0} (resolve : Bytes → Option Addr) (find_interface : Bytes → Option ℕ) where
  -- What may happen: a start when the node is down; when it is up, the timer at its time with any
  -- waiting time and any fetched message, a packet that comes back, a stop and a crash.
  pub data Step : Node → Node → Type 0 where
    starts :
        (clock : ℕ) (a b : BasicApp)
        → handle_start_operation clock a ≡ ok b
        → Step (record { up = false; app = a }) (record { up = true; app = b })
    fires :
        (clock wait : ℕ) (e : MessageEntry) (a b : BasicApp) (acts : List (Action Addr))
        → a.timer.at ≡ some clock
        → handle_timer resolve find_interface a.timer.kind clock wait e
            (record a { timer = cancel a.timer })
          ≡ ok (b, acts)
        → Step (record { up = true; app = a }) (record { up = true; app = b })
    receives :
        (a : BasicApp)
        → Step (record { up = true; app = a }) (record { up = true; app = process_packet a })
    stops :
        (a : BasicApp)
        → Step
            (record { up = true; app = a })
            (record { up = false; app = (handle_stop_operation {Addr = Addr} a).0 })
    crashes :
        (a : BasicApp)
        → Step
            (record { up = true; app = a })
            (record { up = false; app = (handle_crash_operation {Addr = Addr} a).0 })

  pub data Reach (s : Node) : Node → Type 0 where
    here : Reach s s
    next : {t u : Node} → Reach s t → Step t u → Reach s u

  -- The timer of a node that is up is due in time, and a node that is down has none, and no socket.
  abbrev IsTimely : Bool → BasicApp → Type 0
  IsTimely true a = Timely a.stop_time a.timer.kind a.timer.at
  IsTimely false a = (a.timer.at ≡ none) × (a.is_open ≡ false)

  module _ (resolves : (name : Bytes) → (x : Addr) × (resolve name ≡ some x))
      (finds : (name : Bytes) → (i : ℕ) × (find_interface name ≡ some i)) where
    timer_turns :
        (a : BasicApp) (clock wait : ℕ) (e : MessageEntry)
        → a.timer.at ≡ some clock
        → Timely a.stop_time a.timer.kind a.timer.at
        → Returns (Turned a.timer.kind clock wait a.stop_time a.num_sent) (
            handle_timer resolve find_interface a.timer.kind clock wait e
              (record a { timer = cancel a.timer }))
    timer_turns a clock wait e at h =
        handle_timer-Turned resolve find_interface resolves finds a.timer.kind clock wait e
          (record a { timer = cancel a.timer }) refl
          (subst (λ o. Timely a.stop_time a.timer.kind o) at h)

    Step-IsTimely : {s t : Node} → Step s t → IsTimely s.up s.app → IsTimely t.up t.app
    unfolding process_packet handle_stop_operation handle_crash_operation
    Step-IsTimely (starts clock a b e) h =
        let s =
          Returns_at (Started a) (handle_start_operation clock a) b (start-Started clock a h.0) e in
        s.start_timely
    Step-IsTimely (fires clock wait e a b acts at done) h =
        let q =
          Returns_at (Turned a.timer.kind clock wait a.stop_time a.num_sent) _ (b, acts)
            (timer_turns a clock wait e at h) done in
        q.timely
    Step-IsTimely (receives a) h = h
    Step-IsTimely (stops a) h = (refl, refl)
    Step-IsTimely (crashes a) h = (refl, refl)

    Reach-IsTimely : {s t : Node} → IsTimely s.up s.app → Reach s t → IsTimely t.up t.app
    Reach-IsTimely h here = h
    Reach-IsTimely h (next r s) = Step-IsTimely s (Reach-IsTimely h r)

    -- If every name resolves and every interface is there, then whatever happens to a node that is
    -- down at first, with no timer scheduled and no socket (starts, stops, crashes, packets that
    -- come back, turns of the timer in any order): the next turn of its timer returns, and counts
    -- the packets that it sends; and the timer that it leaves, if it leaves one, is due in time: a
    -- START no later than the stop time, a SEND before it and a STOP at it, if a stop time is set.
    pub reachable_timer_returns :
        (a t : BasicApp) (clock wait : ℕ) (e : MessageEntry)
        → a.timer.at ≡ none
        → a.is_open ≡ false
        → Reach (record { up = false; app = a }) (record { up = true; app = t })
        → t.timer.at ≡ some clock
        → Returns
            (λ r.
              (r.0.num_sent ≡ t.num_sent + packets r.1)
              × Timely r.0.stop_time r.0.timer.kind r.0.timer.at)
            (handle_timer resolve find_interface t.timer.kind clock wait e
              (record t { timer = cancel t.timer }))
    reachable_timer_returns a t clock wait e idle shut r at =
        Returns_map (Turned t.timer.kind clock wait t.stop_time t.num_sent) _ _
          (timer_turns t clock wait e at (Reach-IsTimely (idle, shut) r))
          (λ r q. (q.counted, q.timely))
