-- ===== src/Tests/Inet.antt =====
-- The results on the INET applications at concrete data.
use nsb_beta.Base.{
  ℕ, ◌+◌, ◌≡◌, refl, true, false, Option, none, some, List, [], ◌∷◌, arith, Bytes, pos, negsuc,
}
use nsb_beta.Config.{MessageEntry, blank_entry}
use nsb_beta.Outcome.{Returns, ok}
use nsb_beta.Wire.{sim_client}
use nsb_beta.System.Steps.{entry}
use nsb_beta.Inet.Packet.{encode_packet, decode_packet, packet_roundtrip}
use nsb_beta.Inet.BasicApp.{
  start, BasicApp, unset, run, handle_start_operation, handle_timer, handle_stop_operation,
}
use nsb_beta.Inet.AppSink.{AppSink}
use nsb_beta.Inet.Schedule.{packets, Timely}
use nsb_beta.Inet.Timer.{cancel}
use nsb_beta.Inet.Lifecycle.{Reach, here, next, starts, stops, reachable_timer_returns}
use nsb_beta.Inet.Run.{started_run_returns, started_run_stops}
use nsb_beta.Inet.Network.{inet_relay, inet_relay_delivers}
use nsb_beta.Tests.Wire.{plain_codec, plain_codec-IsLawful}
use nsb_beta.Tests.Data.{plain_redis, always, node_a, node_b, hello, client_with, world, fds}
use nsb_beta.Tests.Whole.{sender, simulator, receiver, ready}
use nsb_beta.Inet.AppSink as AppSink

-- Every name has the address 7.
abbrev seven : Bytes → Option ℕ
seven name = some 7

abbrev seven_there : (name : Bytes) → (x : ℕ) × (seven name ≡ some x)
seven_there name = (7, refl)

abbrev app : BasicApp
app = record {
  start_time = pos 1;
  stop_time = pos 3;
  local_address = [];
  local_port = pos 5000;
  dest_port = pos 6000;
  options = record {
    time_to_live = pos 9;
    dscp = negsuc 0;
    tos = negsuc 0;
    multicast_interface = [];
    receive_broadcast = true;
    join_local_multicast_groups = false;
  };
  tokens = node_b ∷ [];
  dest_addresses = [];
  num_sent = 0;
  num_received = 0;
  timer = record { kind = unset; at = none };
  is_open = false;
}

-- A tick between two packets, and a message to fetch for the first.
abbrev rounds : List (ℕ × MessageEntry)
rounds =
    (1, entry node_a node_b hello hello)
    ∷ (1, blank_entry)
    ∷ (1, entry node_a node_b hello hello)
    ∷ (1, blank_entry)
    ∷ (1, blank_entry)
    ∷ []

started_run_returns_example :
    Returns
      (λ b.
        Returns
          (λ r. (r.0.num_sent ≡ 0 + packets r.1) × Timely (pos 3) r.0.timer.kind r.0.timer.at)
          (run seven seven rounds b))
      (handle_start_operation 0 app)
started_run_returns_example =
    started_run_returns seven seven seven_there seven_there 0 rounds app refl

started_run_stops_example :
    Returns
      (λ b. Returns (λ r. (r.0.timer.at ≡ none) × (r.0.is_open ≡ false)) (run seven seven rounds b))
      (handle_start_operation 0 app)
started_run_stops_example =
    started_run_stops seven seven seven_there seven_there 3 0 rounds app refl refl refl
      (omega arith, (omega arith, (omega arith, (omega arith, (omega arith, tt))))) (omega arith)

-- The application between its start and the first turn of its timer.
abbrev waiting_app : BasicApp
waiting_app = record app { timer = record { kind = start; at = some 1 } }

-- Once stopped, its timer is unscheduled but has its kind.
abbrev stopped_app : BasicApp
stopped_app = record app { timer = record { kind = start; at = none } }

first_start : handle_start_operation 0 app ≡ ok waiting_app
unfolding handle_start_operation
first_start = refl

second_start : handle_start_operation 0 stopped_app ≡ ok waiting_app
unfolding handle_start_operation
second_start = refl

-- It starts, is stopped and starts again.
restarted :
    Reach seven seven (record { up = false; app = app }) (record { up = true; app = waiting_app })
unfolding handle_stop_operation
restarted =
    next (next (next here (starts 0 app waiting_app first_start)) (stops waiting_app))
      (starts 0 stopped_app waiting_app second_start)

reachable_timer_returns_example :
    Returns
      (λ r. (r.0.num_sent ≡ 0 + packets r.1) × Timely r.0.stop_time r.0.timer.kind r.0.timer.at)
      (handle_timer seven seven start 1 1
        (entry node_a node_b hello hello)
        (record waiting_app { timer = cancel waiting_app.timer }))
reachable_timer_returns_example =
    reachable_timer_returns seven seven seven_there seven_there app waiting_app 1 1
      (entry node_a node_b hello hello) refl refl restarted refl

packet_roundtrip_example :
    decode_packet (1, 2) (3, 4) (encode_packet node_a node_b hello) ≡ (node_a, node_b, hello)
packet_roundtrip_example =
    packet_roundtrip (1, 2) (3, 4) node_a node_b hello (omega arith) (omega arith)

abbrev sink : AppSink ℕ
sink = record {
  start_time = pos 0;
  stop_time = negsuc 0;
  local_port = pos 6000;
  receive_broadcast = false;
  group_name = [];
  multicast_group = 0;
  num_received = 0;
  timer = record { kind = AppSink.unset; at = none };
}

inet_relay_delivers_example :
    inet_relay plain_redis plain_codec always seven seven fds 3 5
      (1, 2)
      (3, 4)
      node_b
      hello
      (sender false, simulator false, client_with false sim_client node_b, receiver false)
      app
      sink
      (world false)
    ≡ ok (
      entry node_a node_b hello hello,
      record app { num_sent = 1 },
      record sink { num_received = 1 },
      world false,
    )
inet_relay_delivers_example =
    inet_relay_delivers plain_redis plain_codec always seven seven plain_codec-IsLawful fds 3 5
      (1, 2) (3, 4) node_b hello (sender false) (simulator false)
      (client_with false sim_client node_b) (receiver false) app sink (world false) 7 (ready false)
      refl refl refl (omega arith) (omega arith) refl
