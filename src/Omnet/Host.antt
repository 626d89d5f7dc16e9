-- ===== src/Omnet/Host.antt =====
-- NSBHost.cc: one host. The client is what `fetch` gives and what `post` does.
use nsb_beta.Base.{
  ℕ, ◌+◌, Option, none, some, ltb, if◌then◌else◌, Bytes, str_eq, c_str, ℤ, pos, negsuc,
}
use nsb_beta.Config.{MessageEntry, exists}
use nsb_beta.Outcome.{Outcome, ok, fault, runtime_error, ◌>>=◌}
use nsb_beta.Hosts.{host_index}

-- The fields of NSBMessage.msg. They are set from C strings.
pub record NsbMessage : Type 0 where
  pub src_id : Bytes
  pub dest_id : Bytes
  pub payload : Bytes

-- `next_send` is the time for which `selfMsg` is scheduled, and `out_gates` the size of the vector
-- of gates `out`.
pub record Host : Type 0 where
  pub host_id : Bytes
  pub send_interval : ℕ
  pub out_gates : ℕ
  pub next_send : Option ℕ

-- `scheduleAt`, which takes no message that is scheduled already.
abbrev schedule_at : ℕ → Host → Outcome Host
schedule_at at h = elim h.next_send [
  | some due ↦ fault runtime_error
  | none ↦ ok (record h { next_send = some at })
]

unfoldable pub initialize : ℕ → Host → Outcome Host
initialize clock h = schedule_at (clock + h.send_interval) h

-- `send(msg, "out", i)`: the gate, if there is one of this index.
unfoldable pub out_gate : ℕ → ℤ → Outcome ℕ
out_gate gates (pos n) = if ltb n gates then ok n else fault runtime_error
out_gate gates (negsuc n) = fault runtime_error

abbrev message_of : MessageEntry → NsbMessage
message_of e = record {
  src_id = c_str e.source;
  dest_id = c_str e.destination;
  payload = c_str e.payload_obj;
}

-- `e` is what `fetch` returned; the result is what goes out at which gate.
unfoldable pub send_packet : MessageEntry → Host → Outcome (Option (ℕ × NsbMessage))
unfolding exists out_gate
send_packet e h =
    if exists e
    then (do
      i ← host_index (c_str e.destination)
      gate ← out_gate h.out_gates i
      ok (some (gate, message_of e)))
    else ok none

-- What becomes of a message that arrives.
pub data Arrived (W : Type 0) : Type 0 where
  posted : W → Arrived W
  forwarded : ℕ → NsbMessage → Arrived W

module _ {W : Type 0} (post : Bytes → Bytes → Bytes → W → Outcome W) where
  unfoldable pub process_packet : NsbMessage → Host → W → Outcome (Arrived W)
  unfolding out_gate
  process_packet msg h w = do
    i ← host_index msg.dest_id
    if str_eq msg.dest_id h.host_id
        then (post msg.src_id msg.dest_id msg.payload w >>= λ w'. ok (posted w'))
        else (out_gate h.out_gates i >>= λ gate. ok (forwarded gate msg))

-- `handleMessage` on `selfMsg`, which the kernel has taken out of its queue.
unfoldable pub handle_timer : ℕ → MessageEntry → Host → Outcome (Host × Option (ℕ × NsbMessage))
unfolding send_packet
handle_timer clock e h = do
  out ← send_packet e h
  h' ← schedule_at (clock + h.send_interval) (record h { next_send = none })
  ok (h', out)
