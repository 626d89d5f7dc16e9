-- ===== src/Tests/Whole.antt =====
-- A message on its way from one node to another, and the other results on clients with the daemon.
use nsb_beta.Base.{
  ◌≤◌, ◌≡◌, refl, ◌≢◌, Bool, true, false, ◌||◌, none, some, List, [], ◌∷◌, map, arith,
  if◌then◌else◌, length, is_empty, keep, Bytes, codes, str_eq, c_str, Lacks, ℤ, pos, int_eq,
}
use nsb_beta.Wire.{
  Operation, app_client, sim_client, system_wide, other_system_mode, other_simulator_mode,
  response_template, daemon, no_message, set_manifest, push,
}
use nsb_beta.Config.{default_config, configure, Yaml, Config}
use nsb_beta.Outcome.{ok}
use nsb_beta.Daemon.Handled.{handled, Sent}
use nsb_beta.Daemon.Init.{handle_init}
use nsb_beta.Daemon.Buffers.{handle_fetch}
use nsb_beta.Client.Redis.{new_connector}
use nsb_beta.Client.Base.{Client, adopt}
use nsb_beta.Client.Sim.{fetch_request}
use nsb_beta.Client.Starvation.{fetch_any_starves}
use nsb_beta.System.{relay}
use nsb_beta.System.BurstServed.{burst, carried, burst_arrives_in_order}
use nsb_beta.Daemon.Together.{written, held, serve_one-written}
use nsb_beta.Daemon.OneRequest.{serve_one}
use nsb_beta.Daemon.Dispatch.{handle_message}
use nsb_beta.Daemon.Server.{Server}
use nsb_beta.System.Served.{Running, back_with, relay_served}
use nsb_beta.System.ServedRelay.{relay_served_is_relay}
use nsb_beta.System.Steps.{entry}
use nsb_beta.System.Delivery.{IsReady}
use nsb_beta.System.DatabaseDelivery.{relay_delivers_by_key}
use nsb_beta.System.Registration.{adopt-handle_init}
use nsb_beta.Tests.Wire.{plain_codec, plain_codec-IsLawful}
use nsb_beta.Tests.Data.{
  Store, plain_redis, plain_redis-IsLawful, empty_store, always, node_a, node_b, hello, client_with,
  world, fds, busy, init_message, introduction, registered, send_request,
}

abbrev pub sender : Bool → Client
sender db = client_with db app_client node_a

abbrev pub simulator : Bool → Client
simulator db = client_with db sim_client node_a

abbrev pub receiver : Bool → Client
receiver db = client_with db app_client node_b

pub ready : (db : Bool) → IsReady db node_b (sender db) (simulator db) (receiver db) (world db)
unfolding keep
ready db = record {
  app1 = refl;
  sim2 = refl;
  app3 = refl;
  db1 = refl;
  db2 = refl;
  db3 = refl;
  db_daemon = refl;
  pull2 = refl;
  pull3 = refl;
  pull_daemon = refl;
  per_node2 = refl;
  same_node = refl;
  at_dest = refl;
  source_named = refl;
  dest_named = refl;
  tx_clear = refl;
  rx_clear = refl;
}

no_nul : Lacks 0 hello
no_nul = (omega arith, (omega arith, (omega arith, (omega arith, (omega arith, tt)))))

relay_delivers_by_key_example :
    (db : plain_redis.State) × (key1 : Bytes) × (key2 : Bytes) × (relay plain_redis plain_codec
        always fds 3 5 node_b hello
        (sender true)
        (simulator true)
        (receiver true)
        (world true)
      ≡ ok (entry node_a node_b hello hello, record (world true) { db = db }))
    × ((j : Bytes)
        → plain_redis-IsLawful.stored db j ≡ (
            if str_eq (c_str key1) j || str_eq (c_str key2) j
            then none
            else plain_redis-IsLawful.stored empty_store j))
relay_delivers_by_key_example =
    relay_delivers_by_key plain_redis plain_redis-IsLawful plain_codec plain_codec-IsLawful always
      fds 3 5 node_b hello (sender true) (simulator true) (receiver true) (new_connector node_a)
      (new_connector node_a) (new_connector node_b) (world true) (ready true) refl refl refl refl
      refl no_nul

fetch_any_starves_example :
    handle_fetch busy (fetch_request sim_client system_wide none node_a) response_template
    ≡ handled busy (set_manifest Operation.fetch daemon no_message response_template) true
fetch_any_starves_example = fetch_any_starves busy response_template sim_client node_a

abbrev online : Bytes → ℤ → Bool
online address port = true

abbrev newcomer : Client
newcomer = client_with false app_client node_b

adopt-handle_init_example :
    adopt online
      (pos 1)
      (pos 2)
      (handle_init registered init_message response_template).outgoing
      newcomer
    ≡ ok (record newcomer {
      cfg = record (registered.cfg) { db_address = [] };
      db = some (new_connector node_b);
    })
adopt-handle_init_example =
    adopt-handle_init online (pos 1) (pos 2) registered init_message introduction newcomer refl refl

-- A file that gives the database the number 7, which is not read.
abbrev file : Yaml
file = record {
  is_null = false;
  as_int = λ section key. some (pos 7);
  as_bool = λ section key. some true;
  as_string = λ section key. some node_a;
}

abbrev configured : Config
configured = record default_config {
  system_mode = other_system_mode (pos 7);
  simulator_mode = other_simulator_mode (pos 7);
  use_db = true;
  db_address = node_a;
  db_port = pos 7;
}

configure-file : configure file default_config ≡ some configured
unfolding configure
configure-file = refl

abbrev channels : List ℤ
channels = pos 4 ∷ pos 5 ∷ pos 6 ∷ pos 7 ∷ []

-- The server with the four channels, and with nothing buffered.
abbrev running : Running Store
running = record {
  server = record { daemon = (world false).daemon; server_fd = pos 3; channel_fds = channels };
  db = empty_store;
}

once :
    (keep (int_eq (pos 4)) channels ≡ pos 4 ∷ [])
    × (keep (int_eq (pos 5)) channels ≡ pos 5 ∷ [])
    × (keep (int_eq (pos 6)) channels ≡ pos 6 ∷ [])
    × (keep (int_eq (pos 7)) channels ≡ pos 7 ∷ [])
unfolding keep
once = (refl, refl, refl, refl)

relay_served_is_relay_example :
    relay_served plain_redis plain_codec always fds 3 5 node_b hello
      (sender false)
      (simulator false)
      (receiver false)
      running
    ≡ back_with running (
        relay plain_redis plain_codec always fds 3 5 node_b hello
          (sender false)
          (simulator false)
          (receiver false)
          (world false))
relay_served_is_relay_example =
    relay_served_is_relay plain_redis plain_codec plain_codec-IsLawful always (pos 4) (pos 5)
      (pos 6) (pos 7) 3 5 node_b hello (sender false) (simulator false) (receiver false) running
      once.0 once.1 once.2 once.3 refl refl refl refl

-- The same payload twice, and another between.
abbrev payloads : List Bytes
payloads = hello ∷ codes "again" ∷ hello ∷ []

burst_arrives_in_order_example :
    burst plain_redis plain_codec always fds 3 5 node_b payloads
      (sender false)
      (simulator false)
      (receiver false)
      running
    ≡ ok (map (carried node_a node_b) payloads, running)
burst_arrives_in_order_example =
    burst_arrives_in_order plain_redis plain_codec always plain_codec-IsLawful running fds 3 5
      node_b payloads (sender false) (simulator false) (receiver false) once.0 once.1 once.2 once.3
      (ready false) ((refl, omega arith), ((refl, omega arith), ((refl, omega arith), tt)))

-- Two SENDs that wait together.
abbrev together : List Bytes
together =
    plain_codec.serialize (send_request Operation.send)
    ∷ plain_codec.serialize (send_request Operation.send)
    ∷ []

some_wait : is_empty (written together) ≡ false
unfolding plain_codec
some_wait = refl

pulls : (world false).daemon.cfg.system_mode ≢ push
pulls h = cc

serve_one-written_example :
    (s' : Server) × (responses : List Sent) × (serve_one plain_codec always
        (pos 5)
        (written together)
        running.server
      ≡ ok (s', responses))
    × (handle_message plain_codec always running.server.daemon (pos 5) (written together)
        ≡ ok (s'.daemon, responses))
    × (s'.channel_fds ≡ channels)
    × (held s'.daemon ≤ 1)
    × (length responses ≤ 1)
serve_one-written_example =
    serve_one-written plain_codec always (pos 5) together running.server pulls once.1 some_wait
