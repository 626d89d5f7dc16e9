-- ===== src/Inet/AppSink.antt =====
-- nsbAppSink.cc and nsbAppSink.h: the application that posts what arrives.
use nsb_beta.Base.{
  ℕ, ◌+◌, ◌^◌, ◌<◌, ◌≡◌, ap, Bool, not, ◌&&◌, Option, none, some, List, [], ◌∷◌, ◌++◌,
  if◌then◌else◌, length, Bytes, ℤ, pos, negsuc,
}
use nsb_beta.Outcome.{Outcome, ok, fault, runtime_error, ◌>>=◌}
use nsb_beta.Inet.Packet.{encode_packet, decode_packet, packet_roundtrip}
use nsb_beta.Inet.Timer.{Timer, schedule, cancel, before, is_negative, later_of, may_start}

-- `SelfMsgKinds`, and the kind of a message for which none was set.
pub data Kind : Type 0 where
  unset start stop : Kind

-- `group_name` is `par("multicastGroup")`.
pub record AppSink (Addr : Type 0) : Type 0 where
  pub start_time : ℤ
  pub stop_time : ℤ
  pub local_port : ℤ
  pub receive_broadcast : Bool
  pub group_name : Bytes
  pub multicast_group : Addr
  pub num_received : ℕ
  pub timer : Timer Kind

-- What the application does to its socket and tells the framework.
pub data Action (Addr : Type 0) : Type 0 where
  binds : ℤ → Action Addr
  sets_broadcast joins_local_groups : Action Addr
  joins leaves : Addr → Action Addr
  closes destroys delays_finish finishes : Action Addr

-- `resolve` is `L3AddressResolver().resolve`, where nothing is an exception; `is_unspecified` and
-- `is_multicast` are the methods of its addresses.
module _ {Addr : Type 0} (resolve : Bytes → Option Addr)
    (is_unspecified is_multicast : Addr → Bool) where
  -- `initialize`: the check of the times. The parameters come in `a`.
  unfoldable pub initialize : AppSink Addr → Outcome (AppSink Addr)
  initialize a =
      if not (is_negative a.stop_time) && before a.stop_time a.start_time
      then fault runtime_error
      else ok (record a { num_received = 0; timer = record { kind = unset; at = none } })

  resolve_or_throw : Bytes → Outcome Addr
  resolve_or_throw name = elim (resolve name) [ none ↦ fault runtime_error | some x ↦ ok x ]

  join_group : Addr → Outcome (List (Action Addr))
  join_group group =
      if is_unspecified group
      then ok []
      else if is_multicast group
      then ok (joins group ∷ [])
      else fault runtime_error

  leave_group : Addr → List (Action Addr)
  leave_group group = if is_unspecified group then [] else leaves group ∷ []

  unfoldable pub set_socket_options : AppSink Addr → Outcome (AppSink Addr × List (Action Addr))
  unfolding resolve_or_throw join_group
  set_socket_options a = do
    group ← resolve_or_throw a.group_name
    joined ← join_group group
    let broadcast : List (Action Addr) = if a.receive_broadcast then sets_broadcast ∷ [] else []
    ok (record a { multicast_group = group }, broadcast ++ joins_local_groups ∷ joined)

  schedule_stop : ℤ → ℕ → Timer Kind → Outcome (Timer Kind)
  unfolding schedule
  schedule_stop (negsuc n) clock t = ok t
  schedule_stop (pos s) clock t = schedule clock stop s t

  unfoldable pub process_start : ℕ → AppSink Addr → Outcome (AppSink Addr × List (Action Addr))
  unfolding set_socket_options schedule_stop
  process_start clock a = do
    (a', acts) ← set_socket_options a
    t ← schedule_stop a'.stop_time clock a'.timer
    ok (record a' { timer = t }, binds a.local_port ∷ acts)

  unfoldable pub process_stop : AppSink Addr → List (Action Addr)
  unfolding leave_group
  process_stop a = leave_group a.multicast_group ++ closes ∷ []

  -- `handleMessageWhenUp` on the message of the timer.
  unfoldable pub handle_timer :
      Kind → ℕ → AppSink Addr → Outcome (AppSink Addr × List (Action Addr))
  unfolding process_start process_stop
  handle_timer start clock a = process_start clock a
  handle_timer stop clock a = ok (a, process_stop a)
  handle_timer unset clock a = fault runtime_error

  unfoldable pub handle_start_operation : ℕ → AppSink Addr → Outcome (AppSink Addr)
  unfolding may_start schedule
  handle_start_operation clock a =
      let at = later_of a.start_time clock in
      if may_start a.start_time a.stop_time at
      then (schedule clock start at a.timer >>= λ t. ok (record a { timer = t }))
      else ok a

  unfoldable pub handle_stop_operation : AppSink Addr → AppSink Addr × List (Action Addr)
  unfolding leave_group
  handle_stop_operation a = (
    record a { timer = cancel a.timer },
    leave_group a.multicast_group ++ closes ∷ delays_finish ∷ [],
  )

  -- `node_crashed`: the operation is on the node that holds the application, which closes the
  -- socket itself.
  unfoldable pub handle_crash_operation : Bool → AppSink Addr → AppSink Addr × List (Action Addr)
  unfolding leave_group
  handle_crash_operation node_crashed a = (
    record a { timer = cancel a.timer },
    if node_crashed then [] else leave_group a.multicast_group ++ destroys ∷ [],
  )

  -- `socketClosed`: `stopping` is `operationalState == STOPPING_OPERATION`.
  unfoldable pub socket_closed : Bool → List (Action Addr)
  socket_closed stopping = if stopping then finishes ∷ [] else []

-- `post` is `simClient->post` on what the client and the daemon keep; `junk1` and `junk2` are what
-- the two lengths hold before they are read.
module _ {Addr W : Type 0} (post : Bytes → Bytes → Bytes → W → Outcome W) where
  unfoldable pub process_packet :
      ℕ × ℕ → ℕ × ℕ → Bytes → AppSink Addr → W → Outcome (AppSink Addr × W)
  unfolding decode_packet
  process_packet junk1 junk2 raw a w = do
    let (src, dest, payload) = decode_packet junk1 junk2 raw
    w' ← post src dest payload w
    ok (record a { num_received = a.num_received + 1 }, w')

  -- A packet with short identifiers is posted as it was written.
  pub process_packet-encode_packet :
      (junk1 junk2 : ℕ × ℕ) (src dest payload : Bytes) (a : AppSink Addr) (w : W)
      → length src < 2 ^ 16
      → length dest < 2 ^ 16
      → process_packet junk1 junk2 (encode_packet src dest payload) a w ≡ (
          post src dest payload w >>= λ w'. ok (record a { num_received = a.num_received + 1 }, w'))
  unfolding process_packet
  process_packet-encode_packet junk1 junk2 src dest payload a w h k =
      ap
        (λ (t : Bytes × Bytes × Bytes).
          post t.0 t.1 t.2 w >>= λ w'. ok (record a { num_received = a.num_received + 1 }, w'))
        (packet_roundtrip junk1 junk2 src dest payload h k)
