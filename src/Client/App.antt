-- ===== src/Client/App.antt =====
-- cpp/src/nsb_client.cc and cpp/include/nsb_client.h: `NSBAppClient`.
-- `answer` gives what `receiveMessage` returns on the RECV channel within a timeout, after the
-- request was sent, if there is one.
use nsb_beta.Base.{ℕ, Bool, true, false, Option, none, some, Bytes, ℤ, pos}
use nsb_beta.Wire.{
  Operation, Codec, Nsbm, Originator, app_client, success, blank, pull, push, other_system_mode,
  SystemMode, set_manifest, set_dest_id,
}
use nsb_beta.Config.{MessageEntry, blank_entry}
use nsb_beta.Outcome.{Outcome, ok, fault, null_pointer}
use nsb_beta.Client.Redis.{Redis}
use nsb_beta.Client.Base.{
  recv, Sent, Client, new_client, SockName, initialize, submit, open_response,
}

-- `NSBAppClient(identifier, ...)`
unfoldable pub new_app_client :
    Codec → (Sent → Bytes) → SockName → (Bytes → ℤ → Bool) → ℤ → ℤ → Bytes → Outcome Client
unfolding initialize
new_app_client codec answer names online junk_port junk_num id =
    initialize codec answer names online junk_port junk_num
      (record (new_client id) { origin = some app_client })

-- `*destId`, or the client's own identifier.
abbrev pub destination_or_self : Option Bytes → Client → Bytes
destination_or_self none c = c.client_id
destination_or_self (some d) c = d

unfoldable pub receive_request : Originator → Bytes → Nsbm
receive_request g dest = set_dest_id dest (set_manifest Operation.receive g success blank)

abbrev pub is_receivable : Operation → Bool
is_receivable Operation.receive = true
is_receivable Operation.forward = true
is_receivable _ = false

module _ (r : Redis) (codec : Codec) where
  -- `send`
  unfoldable pub app_send :
      ℕ → Bytes → Bytes → Client → r.State → Outcome (Bytes × Sent × Client × r.State)
  unfolding submit
  app_send now dest p c s = submit r codec Operation.send now c.client_id dest p c s

  -- `receive(destId, timeout)`
  receive_in :
      (Option Sent → ℤ → Bytes)
      → SystemMode
      → Option Bytes
      → ℤ
      → Client
      → r.State
      → Outcome (MessageEntry × r.State)
  unfolding receive_request open_response
  receive_in answer pull dest timeout c s = elim c.origin [
    | none ↦ fault null_pointer
    | some g ↦
        open_response r codec is_receivable
          (answer (some (recv, codec.serialize (receive_request g (destination_or_self dest c))))
            timeout)
          c s
  ]
  receive_in answer push dest timeout c s =
      open_response r codec is_receivable (answer none timeout) c s
  receive_in answer (other_system_mode n) dest timeout c s =
      open_response r codec is_receivable (answer none timeout) c s

  unfoldable pub app_receive :
      (Option Sent → ℤ → Bytes)
      → Option Bytes
      → ℤ
      → Client
      → r.State
      → Outcome (MessageEntry × r.State)
  unfolding receive_in
  app_receive answer dest timeout c s = receive_in answer c.cfg.system_mode dest timeout c s

  -- `receive(timeout)`
  receive_any_in :
      (Option Sent → ℤ → Bytes)
      → SystemMode
      → ℤ
      → Client
      → r.State
      → Outcome (MessageEntry × r.State)
  unfolding app_receive
  receive_any_in answer pull timeout c s = app_receive answer none timeout c s
  receive_any_in answer push timeout c s = app_receive answer none (pos 0) c s
  receive_any_in answer (other_system_mode n) timeout c s = ok (blank_entry, s)

  unfoldable pub app_receive_any :
      (Option Sent → ℤ → Bytes) → ℤ → Client → r.State → Outcome (MessageEntry × r.State)
  unfolding receive_any_in
  app_receive_any answer timeout c s = receive_any_in answer c.cfg.system_mode timeout c s
