-- ===== src/Python/Setup.antt =====
-- python/nsb_client.py: `NSBClient.initialize`, `ping` and `exit`, and the constructors of the two
-- clients. `answer` gives what `_recv_msg` returns on the CTRL channel after a request was sent.
use nsb_beta.Base.{Bool, true, false, Option, none, some, if◌then◌else◌, is_empty, Bytes, ℤ}
use nsb_beta.Wire.{
  Operation, Originator, Nsbm, ConfigParams, OpCode, app_client, sim_client, success, blank, intro,
  init, ping, exit, content_config, get_op, get_code, set_manifest,
}
use nsb_beta.Client.Redis.{Redis, new_connector}
use nsb_beta.Client.Base.{Channel, Sent, ctrl, send, recv, new_client}
use nsb_beta.Python.Raises.{
  Result, returns, raises, runtime_error, type_error, decode_error, Method, pure, raise, ◌>>=◌,
}
use nsb_beta.Python.Base.{Protobuf, config_from}
use nsb_beta.Python.Redis.{is_connected}
use nsb_beta.Python.Client.{State}

abbrev is_init : Operation → Bool
is_init init = true
is_init _ = false

abbrev is_ping : Operation → Bool
is_ping ping = true
is_ping _ = false

abbrev is_success : OpCode → Bool
is_success success = true
is_success _ = false

-- `getsockname()` of each channel: the address and the port.
unfoldable pub init_request : Originator → Bytes → (Channel → Bytes × ℤ) → Nsbm
init_request g id names = record (set_manifest init g success blank) {
  content = intro (record {
    identifier = some id;
    address = some (names ctrl).0;
    ch_ctrl = some (names ctrl).1;
    ch_send = some (names send).1;
    ch_recv = some (names recv).1;
  });
}

module _ (r : Redis) (pb : Protobuf) (answer : Sent → Option Bytes) where
  -- `len(response)` raises if there is none; bytes are parsed.
  abbrev parsed : Option Bytes → Method (State r pb) (Option Nsbm)
  parsed none = raise type_error
  parsed (some response) =
      if is_empty response
      then pure none
      else if pb.decodes response
      then pure (some (pb.codec.parse response))
      else raise decode_error

  -- A new connector, if the configuration asks for one, is tried with a PING.
  connect_db : Method (State r pb) (Unit {0})
  unfolding is_connected
  connect_db (c, s) =
      if c.cfg.use_db
      then (let (online, s') = is_connected r s in
          (
            if online then returns tt else raises runtime_error,
            (record c { db = some (new_connector c.client_id) }, s'),
          ))
      else (returns tt, (c, s))

  -- `Config(nsb_resp)`
  take_config : ConfigParams → Method (State r pb) (Unit {0})
  unfolding config_from connect_db
  take_config params (c, s) = elim (config_from params) [
    | raises e ↦ (raises e, (c, s))
    | returns cfg ↦ connect_db (record c { cfg = cfg }, s)
  ]

  -- What `initialize` makes of a response: all that is not a configuration raises.
  adopt : Option Nsbm → Method (State r pb) (Unit {0})
  unfolding take_config
  adopt none = raise runtime_error
  adopt (some m) =
      if is_init (get_op m)
      then if is_success (get_code m)
        then elim (content_config m.content) [
          | none ↦ raise runtime_error
          | some params ↦ take_config params
        ]
        else raise runtime_error
      else raise runtime_error

  unfoldable pub py_initialize : (Channel → Bytes × ℤ) → Originator → Method (State r pb) (Unit {0})
  unfolding adopt init_request
  py_initialize names g (c, s) =
      (parsed (answer (ctrl, pb.codec.serialize (init_request g c.client_id names))) >>= adopt)
        (c, s)

  -- `NSBAppClient(identifier, ...)` and `NSBSimClient(identifier, ...)`
  unfoldable pub py_app_client :
      (Channel → Bytes × ℤ) → Bytes → r.State → Result (Unit {0}) × State r pb
  unfolding py_initialize
  py_app_client names id s =
      py_initialize names app_client (record (new_client id) { origin = some app_client }, s)

  unfoldable pub py_sim_client :
      (Channel → Bytes × ℤ) → Bytes → r.State → Result (Unit {0}) × State r pb
  unfolding py_initialize
  py_sim_client names id s =
      py_initialize names sim_client (record (new_client id) { origin = some sim_client }, s)

  abbrev answered : Option Nsbm → Bool
  answered none = false
  answered (some m) = if is_ping (get_op m) then is_success (get_code m) else false

  unfoldable pub py_ping : Originator → Method (State r pb) Bool
  py_ping g =
      parsed (answer (ctrl, pb.codec.serialize (set_manifest ping g success blank))) >>= λ m.
      pure (answered m)

-- `exit`
unfoldable pub py_exit : Protobuf → Originator → Sent
py_exit pb g = (ctrl, pb.codec.serialize (set_manifest exit g success blank))
