-- ===== src/Tests/Languages.antt =====
-- The results on python/nsb_client.py, alone and with the C++ clients, and on the log, at concrete
-- data.
use nsb_beta.Base.{◌≡◌, refl, true, false, none, some, arith, drop, keep, pos}
use nsb_beta.Log.{LogTime, warning, log_line, read_at, log_line_columns}
use nsb_beta.Outcome.{ok}
use nsb_beta.Client.Redis.{new_connector}
use nsb_beta.System.{World}
use nsb_beta.System.Steps.{entry}
use nsb_beta.Python.Raises.{raises, type_error}
use nsb_beta.Python.Base.{Protobuf, IsLawfulPb}
use nsb_beta.Python.Client.{py_receive}
use nsb_beta.Python.Socket.{recv_msg, chunks_of, recv_msg-chunks_of}
use nsb_beta.Python.Mixed.{python, cpp, mixed_relay, py_post_via, py_answer}
use nsb_beta.Python.Delivery.{mixed_relay_delivers}
use nsb_beta.Python.KeyedPost.{IsKeyed, keyed_post_raises}
use nsb_beta.Tests.Wire.{plain_codec, plain_codec-IsLawful}
use nsb_beta.Tests.Whole.{sender, simulator, receiver, ready}
use nsb_beta.Tests.Data.{
  Store, plain_redis, plain_redis-IsLawful, stored_nothing, always, node_a, node_b, hello, world,
  fds,
}

abbrev pb : Protobuf
pb = record { codec = plain_codec; decodes = λ s. true; is_utf8 = λ s. true }

abbrev pb-IsLawful : IsLawfulPb pb
pb-IsLawful = record { lawful = plain_codec-IsLawful; decodes-serialize = λ m. refl }

mixed_relay_delivers_example :
    mixed_relay plain_redis pb always
      (python, cpp, python)
      fds
      3
      5
      node_b
      hello
      (sender false)
      (simulator false)
      (receiver false)
      (world false)
    ≡ ok (entry node_a node_b hello hello, world false)
mixed_relay_delivers_example =
    mixed_relay_delivers plain_redis pb pb-IsLawful always (python, cpp, python) fds 3 5 node_b
      hello (sender false) (simulator false) (receiver false) (world false) (ready false) refl
      (omega arith)

keyed :
    IsKeyed plain_redis plain_redis-IsLawful pb pb-IsLawful always
      (pos 5)
      node_a
      hello
      (simulator true)
      (receiver true)
      (new_connector node_b)
      (world true)
unfolding keep
keyed = record {
  sim2 = refl;
  db2 = refl;
  app3 = refl;
  db3 = refl;
  pull3 = refl;
  connector3 = refl;
  db_daemon = refl;
  pull_daemon = refl;
  clear = refl;
  source_named = refl;
  dest_named = refl;
  full = refl;
  small = omega arith;
  text = refl;
  online = refl;
  no_key = stored_nothing hello;
}

keyed_post_raises_example :
    (w1 : World Store) × (py_post_via plain_redis pb always
        (pos 5)
        node_a
        node_b
        hello
        (simulator true)
        (world true)
      ≡ ok (simulator true, w1))
    × ((py_receive plain_redis pb
          (py_answer plain_redis pb always (pos 5) w1.daemon)
          none
          none
          (receiver true, w1.db)).0
        ≡ raises type_error)
keyed_post_raises_example =
    keyed_post_raises plain_redis plain_redis-IsLawful pb pb-IsLawful always (pos 5) node_a hello
      (simulator true) (receiver true) (new_connector node_b) (world true) keyed

recv_msg-chunks_of_example : recv_msg true (chunks_of 6 hello) ≡ some (some hello)
recv_msg-chunks_of_example = recv_msg-chunks_of 6 hello (omega arith)

abbrev noon : LogTime
noon = record { hour = 12; minute = 5; second = 9; micros = 42 }

log_line_columns_example :
    (drop 28 (log_line noon warning hello) ≡ hello)
    × (read_at 1 2 (log_line noon warning hello) ≡ 12)
    × (read_at 4 2 (log_line noon warning hello) ≡ 5)
    × (read_at 7 2 (log_line noon warning hello) ≡ 9)
    × (read_at 10 6 (log_line noon warning hello) ≡ 42)
log_line_columns_example = log_line_columns noon warning hello (record {
  hours = omega arith;
  minutes = omega arith;
  seconds = omega arith;
  microseconds = omega arith;
})
