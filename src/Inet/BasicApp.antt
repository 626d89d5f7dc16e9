-- ===== src/Inet/BasicApp.antt =====
-- nsbBasicApp.cc and nsbBasicApp.h: the application that fetches messages and sends them.
use nsb_beta.Inet.Timer.{
  when_due, Timer, schedule, cancel, before, is_negative, later_of, may_start,
}
use nsb_beta.Base.{
  ℕ, ◌+◌, Bool, true, false, not, ◌&&◌, Option, none, some, List, [], ◌∷◌, ◌++◌, ltb, if◌then◌else◌,
  is_empty, Bytes, ℤ, pos, negsuc, is_minus_one,
}
use nsb_beta.Config.{MessageEntry, exists}
use nsb_beta.Outcome.{Outcome, ok, fault, runtime_error, ◌>>=◌}
use nsb_beta.Inet.Packet.{encode_packet}

-- `SelfMsgKinds`, and the kind of a message for which none was set.
pub data Kind : Type 0 where
  unset start send stop : Kind

-- The parameters of the socket; -1 and an empty name set nothing.
pub record Options : Type 0 where
  pub time_to_live : ℤ
  pub dscp : ℤ
  pub tos : ℤ
  pub multicast_interface : Bytes
  pub receive_broadcast : Bool
  pub join_local_multicast_groups : Bool

pub record BasicApp : Type 0 where
  pub start_time : ℤ
  pub stop_time : ℤ
  pub local_address : Bytes
  pub local_port : ℤ
  pub dest_port : ℤ
  pub options : Options
  pub tokens : List Bytes
  pub dest_addresses : List Bytes
  pub num_sent : ℕ
  pub num_received : ℕ
  pub timer : Timer Kind
  pub is_open : Bool

-- What the application does to its socket and tells the framework.
pub data Action (Addr : Type 0) : Type 0 where
  binds : Option Addr → ℤ → Action Addr
  sets_time_to_live sets_dscp sets_tos : ℤ → Action Addr
  sets_interface : ℕ → Action Addr
  sets_broadcast joins_groups : Action Addr
  sends : Addr → ℤ → Bytes → Action Addr
  closes destroys delays_finish finishes : Action Addr

-- `initialize`: the check of the times. The parameters come in `a`.
unfoldable pub initialize : BasicApp → Outcome BasicApp
initialize a =
    if not (is_negative a.stop_time) && before a.stop_time a.start_time
    then fault runtime_error
    else ok (record a { num_sent = 0; timer = record { kind = unset; at = none } })

-- The end of `processSend`, for each sign of the stop time: `wait` is the value of
-- `par("sendInterval")`.
unfoldable pub next_timer : ℤ → ℕ → ℕ → Timer Kind → Outcome (Timer Kind)
unfolding schedule
next_timer (negsuc n) clock wait t = schedule clock send (clock + wait) t
next_timer (pos s) clock wait t =
    if ltb (clock + wait) s then schedule clock send (clock + wait) t else schedule clock stop s t

module _ {Addr : Type 0} where
  unfoldable pub process_stop : BasicApp → BasicApp × List (Action Addr)
  process_stop a = (record a { is_open = false }, closes ∷ [])

  -- `socketClosed`: `stopping` is `operationalState == STOPPING_OPERATION`.
  unfoldable pub socket_closed : Bool → List (Action Addr)
  socket_closed stopping = if stopping then finishes ∷ [] else []

  unfoldable pub handle_stop_operation : BasicApp → BasicApp × List (Action Addr)
  handle_stop_operation a =
      (record a { timer = cancel a.timer; is_open = false }, closes ∷ delays_finish ∷ [])

  unfoldable pub handle_crash_operation : BasicApp → BasicApp × List (Action Addr)
  handle_crash_operation a = (record a { timer = cancel a.timer; is_open = false }, destroys ∷ [])

-- `resolve` is `L3AddressResolver().resolve` of the C string, where nothing is an exception, and
-- `find_interface` is `findInterfaceByName` with the identifier of what it finds.
module _ {Addr : Type 0} (resolve : Bytes → Option Addr) (find_interface : Bytes → Option ℕ) where
  resolve_or_throw : Bytes → Outcome Addr
  resolve_or_throw name = elim (resolve name) [ none ↦ fault runtime_error | some x ↦ ok x ]

  set_if : Bool → Action Addr → List (Action Addr)
  set_if b x = if b then x ∷ [] else []

  interface_options : Bytes → Outcome (List (Action Addr))
  interface_options name = if is_empty name then ok [] else elim (find_interface name) [
    | none ↦ fault runtime_error
    | some i ↦ ok (sets_interface i ∷ [])
  ]

  unfoldable pub set_socket_options : Options → Outcome (List (Action Addr))
  unfolding set_if interface_options
  set_socket_options o = do
    on_interface ← interface_options o.multicast_interface
    ok (
        set_if (not (is_minus_one o.time_to_live)) (sets_time_to_live o.time_to_live)
        ++ (set_if (not (is_minus_one o.dscp)) (sets_dscp o.dscp)
            ++ (set_if (not (is_minus_one o.tos)) (sets_tos o.tos)
                ++ (on_interface
                    ++ (set_if o.receive_broadcast sets_broadcast
                        ++ set_if o.join_local_multicast_groups joins_groups)))))

  -- `e` is what `simClient->fetch()` returned.
  unfoldable pub send_packet : MessageEntry → BasicApp → Outcome (BasicApp × List (Action Addr))
  unfolding resolve_or_throw encode_packet exists
  send_packet e a =
      if exists e
      then (do
        x ← resolve_or_throw e.destination
        ok (
          record a { num_sent = a.num_sent + 1 },
          sends x a.dest_port (encode_packet e.source e.destination e.payload_obj) ∷ [],
        ))
      else ok (a, [])

  unfoldable pub process_send :
      ℕ → ℕ → MessageEntry → BasicApp → Outcome (BasicApp × List (Action Addr))
  unfolding send_packet next_timer
  process_send clock wait e a = do
    (a', acts) ← send_packet e a
    t ← next_timer a'.stop_time clock wait a'.timer
    ok (record a' { timer = t }, acts)

  unfoldable pub resolve_local : Bytes → Outcome (Option Addr)
  unfolding resolve_or_throw
  resolve_local name =
      if is_empty name then ok none else (resolve_or_throw name >>= λ x. ok (some x))

  -- `bind`, the options, and the names of `par("destAddresses")`, which are added to those that
  -- are there.
  unfoldable pub open_socket : BasicApp → Outcome (BasicApp × List (Action Addr))
  unfolding resolve_local set_socket_options
  open_socket a = do
    local ← resolve_local a.local_address
    acts ← set_socket_options a.options
    ok (
      record a { is_open = true; dest_addresses = a.dest_addresses ++ a.tokens },
      binds local a.local_port ∷ acts,
    )

  -- With no destination there is nothing to send, and only the stop is scheduled, if there is one.
  unfoldable pub start_sending :
      ℕ → ℕ → MessageEntry → BasicApp → Outcome (BasicApp × List (Action Addr))
  unfolding process_send schedule
  start_sending clock wait e a =
      if not (is_empty a.dest_addresses)
      then process_send clock wait e (record a { timer = record (a.timer) { kind = send } })
      else elim a.stop_time [
        | negsuc n ↦ ok (a, [])
        | pos s ↦ (schedule clock stop s a.timer >>= λ t. ok (record a { timer = t }, []))
      ]

  unfoldable pub process_start :
      ℕ → ℕ → MessageEntry → BasicApp → Outcome (BasicApp × List (Action Addr))
  unfolding open_socket start_sending
  process_start clock wait e a = do
    (a', acts) ← open_socket a
    (a'', more) ← start_sending clock wait e a'
    ok (a'', acts ++ more)

  -- `handleMessageWhenUp` on the message of the timer.
  unfoldable pub handle_timer :
      Kind → ℕ → ℕ → MessageEntry → BasicApp → Outcome (BasicApp × List (Action Addr))
  unfolding process_start process_send process_stop
  handle_timer start clock wait e a = process_start clock wait e a
  handle_timer send clock wait e a = process_send clock wait e a
  handle_timer stop clock wait e a = ok (process_stop a)
  handle_timer unset clock wait e a = fault runtime_error

  -- The kernel hands the timer's message over at its time, until none is scheduled. For each the
  -- environment gives a waiting time and a fetched message.
  unfoldable pub run : List (ℕ × MessageEntry) → BasicApp → Outcome (BasicApp × List (Action Addr))
  unfolding handle_timer
  run [] a = ok (a, [])
  run ((wait, e) ∷ rounds) a = when_due a.timer.at (ok (a, [])) (λ clock.
      handle_timer a.timer.kind clock wait e (record a { timer = cancel a.timer }) >>= λ (a', acts).
      run rounds a' >>= λ (a'', more). ok (a'', acts ++ more))

-- `processPacket`: what comes back is counted.
unfoldable pub process_packet : BasicApp → BasicApp
process_packet a = record a { num_received = a.num_received + 1 }

unfoldable pub handle_start_operation : ℕ → BasicApp → Outcome BasicApp
unfolding may_start schedule
handle_start_operation clock a =
    let at = later_of a.start_time clock in
    if may_start a.start_time a.stop_time at
    then (schedule clock start at a.timer >>= λ t. ok (record a { timer = t }))
    else ok a
