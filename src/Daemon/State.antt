-- ===== src/Daemon/State.antt =====
-- cpp/include/nsb_daemon.h: the daemon's variables, `ClientDetails`, the payload accessors; and
-- from cpp/src/nsb_daemon.cc the constructor, `stop` and `is_running`.
use nsb_beta.Base.{
  Bool, false, Option, none, some, List, [], ◌∷◌, ◌++◌, if◌then◌else◌, Bytes, ℤ, pos, minus_one,
  to_string, Map, find,
}
use nsb_beta.Wire.{
  Nsbm, IntroDetails, blank_intro, payload, msg_key, content_payload, content_msg_key,
  content_intro, default_to,
}
use nsb_beta.Config.{Config, default_config, Yaml, configure, MessageEntry}

-- A file descriptor is -1 where the connection is not known.
pub record ClientDetails : Type 0 where
  pub identifier : Bytes
  pub address : Bytes
  pub ch_ctrl_port : ℤ
  pub ch_ctrl_fd : ℤ
  pub ch_send_port : ℤ
  pub ch_send_fd : ℤ
  pub ch_recv_port : ℤ
  pub ch_recv_fd : ℤ

-- `address + ":" + std::to_string(port)`, the key of a connection.
unfoldable pub channel_key : Bytes → ℤ → Bytes
channel_key address port = address ++ b':' ∷ to_string port

unfoldable pub lookup_fd : Map ℤ → Bytes → ℤ
lookup_fd fd_lookup key = default_to minus_one (find key fd_lookup)

-- `incoming_msg->intro()`
abbrev pub get_intro : Nsbm → IntroDetails
get_intro m = default_to blank_intro (content_intro m.content)

abbrev pub get_identifier : Nsbm → Bytes
get_identifier m = default_to [] (get_intro m).identifier

-- `ClientDetails(nsb_msg, fd_lookup)`
unfoldable pub client_details : Nsbm → Map ℤ → ClientDetails
client_details m fd_lookup = record {
  identifier = get_identifier m;
  address = address;
  ch_ctrl_port = ctrl_port;
  ch_ctrl_fd = lookup_fd fd_lookup (channel_key address ctrl_port);
  ch_send_port = send_port;
  ch_send_fd = lookup_fd fd_lookup (channel_key address send_port);
  ch_recv_port = recv_port;
  ch_recv_fd = lookup_fd fd_lookup (channel_key address recv_port);
}
  where
    address : Bytes
    address = default_to [] (get_intro m).address

    ctrl_port : ℤ
    ctrl_port = default_to (pos 0) (get_intro m).ch_ctrl

    send_port : ℤ
    send_port = default_to (pos 0) (get_intro m).ch_send

    recv_port : ℤ
    recv_port = default_to (pos 0) (get_intro m).ch_recv

pub record Daemon : Type 0 where
  pub cfg : Config
  pub running : Bool
  pub server_port : ℤ
  pub sim_client_lookup : Map ClientDetails
  pub app_client_lookup : Map ClientDetails
  pub fd_lookup : Map ℤ
  pub tx_buffer : List MessageEntry
  pub rx_buffer : List MessageEntry

-- `NSBDaemon(s_port, filename)`, with the document that the file holds. `none` is an exception of
-- yaml-cpp.
unfoldable pub new_daemon : ℤ → Yaml → Option Daemon
new_daemon port y = elim (configure y default_config) [
  | none ↦ none
  | some c ↦ some (record {
    cfg = c;
    running = false;
    server_port = port;
    sim_client_lookup = [];
    app_client_lookup = [];
    fd_lookup = [];
    tx_buffer = [];
    rx_buffer = [];
  })
]

unfoldable pub stop : Daemon → Daemon
stop d = if d.running then record d { running = false } else d

-- `~NSBDaemon()`
unfoldable pub destroy : Daemon → Daemon
unfolding stop
destroy d = if d.running then stop d else d

abbrev pub is_running : Daemon → Bool
is_running d = d.running

-- `msg_get_payload_obj` and `msg_set_payload_obj`: with a database the message carries the key of
-- the payload, and otherwise the payload.
unfoldable pub msg_get_payload_obj : Config → Nsbm → Bytes
msg_get_payload_obj c m = if c.use_db then content_msg_key m.content else content_payload m.content

unfoldable pub msg_set_payload_obj : Config → Bytes → Nsbm → Nsbm
msg_set_payload_obj c p m = record m { content = if c.use_db then msg_key p else payload p }
