-- ===== src/Client/Sim.antt =====
-- cpp/src/nsb_client.cc and cpp/include/nsb_client.h: `NSBSimClient`.
-- `answer` is as for the application's client.
use nsb_beta.Base.{ℕ, Bool, true, false, Option, none, some, Bytes, ℤ, pos}
use nsb_beta.Wire.{
  Operation, Codec, Nsbm, Originator, sim_client, success, blank, pull, push, other_system_mode,
  SystemMode, SimulatorMode, system_wide, per_node, other_simulator_mode, set_manifest, set_src_id,
}
use nsb_beta.Config.{MessageEntry, blank_entry}
use nsb_beta.Outcome.{Outcome, ok, fault, null_pointer}
use nsb_beta.Client.Redis.{Redis}
use nsb_beta.Client.Base.{
  recv, Sent, Client, new_client, SockName, initialize, submit, open_response,
}

-- `NSBSimClient(identifier, ...)`
unfoldable pub new_sim_client :
    Codec → (Sent → Bytes) → SockName → (Bytes → ℤ → Bool) → ℤ → ℤ → Bytes → Outcome Client
unfolding initialize
new_sim_client codec answer names online junk_port junk_num id =
    initialize codec answer names online junk_port junk_num
      (record (new_client id) { origin = some sim_client })

-- The source that a request names: one that is asked for in system-wide mode, and the client's own
-- identifier in per-node mode.
unfoldable pub set_fetch_source : SimulatorMode → Option Bytes → Bytes → Nsbm → Nsbm
set_fetch_source system_wide none id m = m
set_fetch_source system_wide (some src) id m = set_src_id src m
set_fetch_source per_node src id m = set_src_id id m
set_fetch_source (other_simulator_mode n) src id m = m

unfoldable pub fetch_request : Originator → SimulatorMode → Option Bytes → Bytes → Nsbm
unfolding set_fetch_source
fetch_request g mode src id =
    set_fetch_source mode src id (set_manifest Operation.fetch g success blank)

abbrev pub is_fetchable : Operation → Bool
is_fetchable Operation.fetch = true
is_fetchable Operation.forward = true
is_fetchable _ = false

module _ (r : Redis) (codec : Codec) where
  -- `fetch(srcId, timeout)`
  fetch_in :
      (Option Sent → ℤ → Bytes)
      → SystemMode
      → Option Bytes
      → ℤ
      → Client
      → r.State
      → Outcome (MessageEntry × r.State)
  unfolding fetch_request open_response
  fetch_in answer pull src timeout c s = elim c.origin [
    | none ↦ fault null_pointer
    | some g ↦
        open_response r codec is_fetchable
          (answer
            (some (recv, codec.serialize (fetch_request g c.cfg.simulator_mode src c.client_id)))
            timeout)
          c s
  ]
  fetch_in answer push src timeout c s =
      open_response r codec is_fetchable (answer none timeout) c s
  fetch_in answer (other_system_mode n) src timeout c s =
      open_response r codec is_fetchable (answer none timeout) c s

  unfoldable pub sim_fetch :
      (Option Sent → ℤ → Bytes)
      → Option Bytes
      → ℤ
      → Client
      → r.State
      → Outcome (MessageEntry × r.State)
  unfolding fetch_in
  sim_fetch answer src timeout c s = fetch_in answer c.cfg.system_mode src timeout c s

  -- `fetch(timeout)`
  fetch_any_in :
      (Option Sent → ℤ → Bytes)
      → SystemMode
      → ℤ
      → Client
      → r.State
      → Outcome (MessageEntry × r.State)
  unfolding sim_fetch
  fetch_any_in answer pull timeout c s = sim_fetch answer none timeout c s
  fetch_any_in answer push timeout c s = sim_fetch answer none (pos 0) c s
  fetch_any_in answer (other_system_mode n) timeout c s = ok (blank_entry, s)

  unfoldable pub sim_fetch_any :
      (Option Sent → ℤ → Bytes) → ℤ → Client → r.State → Outcome (MessageEntry × r.State)
  unfolding fetch_any_in
  sim_fetch_any answer timeout c s = fetch_any_in answer c.cfg.system_mode timeout c s

  -- `post`
  unfoldable pub sim_post :
      ℕ → Bytes → Bytes → Bytes → Client → r.State → Outcome (Bytes × Sent × Client × r.State)
  unfolding submit
  sim_post now src dest p c s = submit r codec Operation.post now src dest p c s
