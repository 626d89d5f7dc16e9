-- ===== src/Client/Base.antt =====
-- cpp/include/nsb_client.h and cpp/src/nsb_client.cc: `NSBClient`.
-- What travels over a channel is an argument: `answer` gives the bytes that `receiveMessage`
-- returns after `sendMessage` was called with the given bytes.
use nsb_beta.Base.{
  ℕ, Bool, true, false, Option, none, some, [], if◌then◌else◌, length, is_empty, Bytes, ℤ, to_int32,
}
use nsb_beta.Wire.{
  is_message, Operation, Originator, Nsbm, Codec, IntroDetails, OpCode, success, message, payload,
  msg_key, blank, ping, init, exit, intro, content_config, content_payload, content_msg_key, get_op,
  get_code, get_src_id, get_dest_id, get_payload_size, set_manifest, set_metadata,
}
use nsb_beta.Config.{Config, default_config, config_of_message, MessageEntry, blank_entry}
use nsb_beta.Outcome.{Outcome, ok, fault, null_pointer, exits, ◌>>=◌}
use nsb_beta.Client.Redis.{Redis, Connector, new_connector, store, check_out}

-- `Comms::Channel`
pub data Channel : Type 0 where
  ctrl send recv : Channel

-- A call of `sendMessage`.
abbrev pub Sent : Type 0
Sent = Channel × Bytes

-- `origin` and `db` are null pointers until they are set.
pub record Client : Type 0 where
  pub client_id : Bytes
  pub origin : Option Originator
  pub cfg : Config
  pub db : Option Connector

-- `NSBClient(identifier, ...)`, once the channels are connected.
abbrev pub new_client : Bytes → Client
new_client id = record { client_id = id; origin = none; cfg = default_config; db = none }

-- What `getsockname` says of a channel: the address and the port, or nothing if the call failed or
-- the address is not IPv4.
abbrev pub SockName : Type 0
SockName = Channel → Option (Bytes × ℤ)

abbrev port_of : Option (Bytes × ℤ) → Option ℤ
port_of none = none
port_of (some (a, p)) = some p

abbrev address_of : Option (Bytes × ℤ) → Option Bytes
address_of none = none
address_of (some (a, p)) = some a

unfoldable pub intro_details : Bytes → SockName → IntroDetails
intro_details id names = record {
  identifier = some id;
  address = address_of (names ctrl);
  ch_ctrl = port_of (names ctrl);
  ch_send = port_of (names send);
  ch_recv = port_of (names recv);
}

unfoldable pub init_request : Originator → Bytes → SockName → Nsbm
unfolding intro_details
init_request g id names = record (set_manifest init g success blank) {
  content = intro (intro_details id names);
}

abbrev pub is_init : Operation → Bool
is_init init = true
is_init _ = false

abbrev pub is_ping : Operation → Bool
is_ping ping = true
is_ping _ = false

abbrev pub is_success : OpCode → Bool
is_success success = true
is_success _ = false

-- `new RedisConnector(...)`: `online` says whether the server at the address answers. The connector
-- moves the address out of the configuration, which leaves an empty string there.
connect_db : (Bytes → ℤ → Bool) → Client → Outcome Client
connect_db online c =
    if c.cfg.use_db
    then (if online c.cfg.db_address c.cfg.db_port
        then ok (record c {
          cfg = record (c.cfg) { db_address = [] };
          db = some (new_connector c.client_id);
        })
        else fault exits)
    else ok c

-- What `initialize` makes of the response. The two numbers are what an unset field may hold.
unfoldable pub adopt : (Bytes → ℤ → Bool) → ℤ → ℤ → Nsbm → Client → Outcome Client
unfolding connect_db config_of_message
adopt online junk_port junk_num m c =
    if is_init (get_op m)
    then (if is_success (get_code m)
        then elim (content_config m.content) [
          | none ↦ ok c
          | some _ ↦ connect_db online (record c { cfg = config_of_message junk_port junk_num m })
        ]
        else fault exits)
    else ok c

module _ (codec : Codec) (answer : Sent → Bytes) where
  unfoldable pub initialize : SockName → (Bytes → ℤ → Bool) → ℤ → ℤ → Client → Outcome Client
  unfolding adopt init_request
  initialize names online junk_port junk_num c = elim c.origin [
    | none ↦ ok c
    | some g ↦
        let response = answer (ctrl, codec.serialize (init_request g c.client_id names)) in
        if is_empty response then ok c else adopt online junk_port junk_num (codec.parse response) c
  ]

  unfoldable pub ping_daemon : Client → Bool
  ping_daemon c = elim c.origin [
    | none ↦ false
    | some g ↦
        let response = answer (ctrl, codec.serialize (set_manifest ping g success blank)) in
        let m = codec.parse response in
        if is_empty response
        then false
        else if is_ping (get_op m)
        then is_success (get_code m)
        else false
  ]

-- `exit` does not test `originIndicator`.
unfoldable pub exit_daemon : Codec → Client → Outcome Sent
exit_daemon codec c = elim c.origin [
  | none ↦ fault null_pointer
  | some g ↦ ok (ctrl, codec.serialize (set_manifest exit g success blank))
]

-- The body that `NSBAppClient::send` and `NSBSimClient::post` share: the key of the payload, if
-- there is one, what goes to the SEND channel, and the connector and the database after it.
module _ (r : Redis) (codec : Codec) where
  unfoldable pub store_payload :
      ℕ → Bytes → Nsbm → Client → r.State → Outcome (Bytes × Nsbm × Client × r.State)
  store_payload now p m c s =
      if c.cfg.use_db
      then elim c.db [
        | none ↦ fault null_pointer
        | some db ↦
            let (key, db', s') = store r now p db s in
            ok (key, record m { content = msg_key key }, record c { db = some db' }, s')
      ]
      else ok ([], record m { content = payload p }, c, s)

  unfoldable pub submit :
      Operation
      → ℕ
      → Bytes
      → Bytes
      → Bytes
      → Client
      → r.State
      → Outcome (Bytes × Sent × Client × r.State)
  unfolding store_payload store
  submit op now src dest p c s = elim c.origin [
    | none ↦ fault null_pointer
    | some g ↦
        (store_payload now p
            (set_metadata src dest (to_int32 (length p)) (set_manifest op g message blank)) c s
          >>= λ (key, m, c', s'). ok (key, (send, codec.serialize m), c', s'))
  ]

  -- `cfg.USE_DB ? db->checkOut(msg_key) : payload`
  message_payload : Client → Nsbm → r.State → Outcome (Bytes × r.State)
  message_payload c m s =
      if c.cfg.use_db
      then elim c.db [
        | none ↦ fault null_pointer
        | some _ ↦ check_out r (content_msg_key m.content) s
      ]
      else ok (content_payload m.content, s)

  message_entry : Client → Nsbm → r.State → Outcome (MessageEntry × r.State)
  unfolding message_payload check_out
  message_entry c m s = do
    (p, s') ← message_payload c m s
    ok (
      record {
        source = get_src_id m;
        destination = get_dest_id m;
        payload_obj = p;
        payload_size = get_payload_size m;
      },
      s',
    )

  -- What `receive` and `fetch` make of a response, given the operations that they expect.
  unfoldable pub open_response :
      (Operation → Bool) → Bytes → Client → r.State → Outcome (MessageEntry × r.State)
  unfolding message_entry
  open_response expected response c s =
      if is_empty response
      then ok (blank_entry, s)
      else if expected (get_op (codec.parse response))
      then (if is_message (get_code (codec.parse response))
          then message_entry c (codec.parse response) s
          else ok (blank_entry, s))
      else ok (blank_entry, s)

-- `msgGetPayloadObj`
unfoldable pub payload_obj_of : Config → Nsbm → Bytes
payload_obj_of c m = if c.use_db then content_msg_key m.content else content_payload m.content

-- `msgSetPayloadObj` has the message by value: its own copy is set, and the caller's, which is the
-- second result, is as it was.
unfoldable pub set_own_payload_obj : Config → Bytes → Nsbm → Nsbm × Nsbm
set_own_payload_obj c p m = (record m { content = if c.use_db then msg_key p else payload p }, m)
