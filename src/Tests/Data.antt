-- ===== src/Tests/Data.antt =====
-- Concrete data for the runs: a database, two nodes, their clients and the daemon.
use nsb_beta.Base.{
  ◌≡◌, refl, Bool, true, false, Option, none, some, List, [], ◌∷◌, if◌then◌else◌, Bytes, codes,
  str_eq, ℤ, pos,
}
use nsb_beta.Wire.{
  Operation, Originator, app_client, sim_client, push, per_node, Nsbm, Metadata, IntroDetails,
  message, success, blank, set_manifest, set_metadata, payload, intro,
}
use nsb_beta.Config.{Config, MessageEntry, default_config}
use nsb_beta.Daemon.State.{Daemon, ClientDetails}
use nsb_beta.Daemon.Server.{Server}
use nsb_beta.Client.Redis.{Redis, IsLawful, Reply, nil, str, new_connector}
use nsb_beta.Client.Base.{Client}
use nsb_beta.System.{World}

-- A server whose connection never fails: a command with two arguments is SET, and one with one
-- argument is GETDEL or GET.
abbrev pub Store : Type 0
Store = Bytes → Option Bytes

abbrev lookup_reply : Option Bytes → Option Reply
lookup_reply o = some (elim o [ none ↦ nil | some v ↦ str v ])

abbrev run_command : Store → List Bytes → Store × Option Reply
run_command s (cmd ∷ k ∷ v ∷ []) =
    (λ j. if str_eq k j then some v else s j, some (str (codes "OK")))
run_command s (cmd ∷ k ∷ []) =
    if str_eq cmd (codes "GETDEL")
    then (λ j. if str_eq k j then none else s j, lookup_reply (s k))
    else (s, lookup_reply (s k))
run_command s _ = (s, none)

abbrev pub plain_redis : Redis
plain_redis = record { State = Store; connected = λ s. true; command = run_command }

pub plain_redis-IsLawful : IsLawful plain_redis
unfolding str_eq
plain_redis-IsLawful = record {
  stored = λ s. s;
  set_reply = λ s k v h. refl;
  set_connected = λ s k v h. refl;
  set_stored = λ s k v j h. refl;
  getdel_reply = λ s k h. refl;
  getdel_connected = λ s k h. refl;
  getdel_stored = λ s k j h. refl;
  get_reply = λ s k h. refl;
  get_stored = λ s k j h. refl;
}

abbrev pub empty_store : Store
empty_store j = none

pub stored_nothing : (key : Bytes) → plain_redis-IsLawful.stored empty_store key ≡ none
unfolding plain_redis-IsLawful
stored_nothing key = refl

abbrev pub always : ℤ → Bool
always fd = true

abbrev pub node_a : Bytes
node_a = codes "a"

abbrev pub node_b : Bytes
node_b = codes "b"

abbrev pub hello : Bytes
hello = codes "hello"

abbrev pub pull_config : Bool → Config
pull_config db = record default_config { simulator_mode = per_node; use_db = db }

abbrev pub push_config : Config
push_config = record default_config { system_mode = push; simulator_mode = per_node }

abbrev pub daemon_with : Config → Daemon
daemon_with c = record {
  cfg = c;
  running = true;
  server_port = pos 65432;
  sim_client_lookup = [];
  app_client_lookup = [];
  fd_lookup = [];
  tx_buffer = [];
  rx_buffer = [];
}

abbrev pub client_with : Bool → Originator → Bytes → Client
client_with db g id = record {
  client_id = id;
  origin = some g;
  cfg = pull_config db;
  db = if db then some (new_connector id) else none;
}

abbrev pub world : Bool → World Store
world db = record { daemon = daemon_with (pull_config db); db = empty_store }

abbrev pub fds : ℤ × ℤ × ℤ × ℤ
fds = (pos 4, pos 5, pos 6, pos 7)

abbrev pub entry_of : Bytes → MessageEntry
entry_of p = record { source = node_a; destination = node_b; payload_obj = p; payload_size = pos 5 }

abbrev pub two_entries : List MessageEntry
two_entries = entry_of hello ∷ entry_of node_b ∷ []

abbrev pub busy : Daemon
busy = record (daemon_with (pull_config false)) { tx_buffer = two_entries; rx_buffer = two_entries }

abbrev pub send_request : Operation → Nsbm
send_request op =
    record (set_metadata node_a node_b (pos 5) (set_manifest op app_client message blank)) {
      content = payload hello;
    }

-- The metadata of a request for what comes from the first node, or goes to the second.
abbrev pub asks_source : Metadata
asks_source = record { src_id = some node_a; dest_id = none; payload_size = none }

abbrev pub asks_destination : Metadata
asks_destination = record { src_id = none; dest_id = some node_b; payload_size = none }

abbrev pub asking : Operation → Metadata → Nsbm
asking op md = record (set_manifest op sim_client success blank) { metadata = some md }

abbrev pub details : ClientDetails
details = record {
  identifier = node_a;
  address = codes "10.0.0.1";
  ch_ctrl_port = pos 9000;
  ch_ctrl_fd = pos 4;
  ch_send_port = pos 9001;
  ch_send_fd = pos 5;
  ch_recv_port = pos 9002;
  ch_recv_fd = pos 6;
}

abbrev pub introduction : IntroDetails
introduction = record {
  identifier = some node_a;
  address = some (codes "10.0.0.1");
  ch_ctrl = some (pos 9000);
  ch_send = some (pos 9001);
  ch_recv = some (pos 9002);
}

abbrev pub init_message : Nsbm
init_message = record (set_manifest Operation.init app_client success blank) {
  content = intro introduction;
}

abbrev pub registered : Daemon
registered = record (daemon_with (pull_config true)) { app_client_lookup = (node_a, details) ∷ [] }

abbrev pub server : Server
server = record {
  daemon = daemon_with (pull_config false);
  server_fd = pos 3;
  channel_fds = pos 4 ∷ [];
}
