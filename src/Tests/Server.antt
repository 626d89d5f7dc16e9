-- ===== src/Tests/Server.antt =====
-- The daemon's results at concrete data.
use nsb_beta.Base.{
  ℕ, ◌+◌, ◌≡◌, refl, ap, ◌≢◌, true, false, List, [], ◌∷◌, map, arith, length, keep, Bytes, str_eq,
  pos,
}
use nsb_beta.Daemon.Answers.{Answers, AllAnswer, entry_in}
use nsb_beta.Wire.{Operation, Nsbm, set_metadata, response_template}
use nsb_beta.Config.{MessageEntry}
use nsb_beta.Outcome.{ok}
use nsb_beta.Daemon.State.{Daemon}
use nsb_beta.Daemon.Handled.{Handled}
use nsb_beta.Daemon.Buffers.{handle_fetch, handle_receive, from_source}
use nsb_beta.Daemon.Dispatch.{dispatch}
use nsb_beta.Daemon.Queues.{tx_queue, rx_queue, fetch_serves_oldest}
use nsb_beta.Daemon.Fifo.{send_each, fetch_each, sent_by, fetch_each-send_each}
use nsb_beta.Daemon.RxQueues.{receive_serves_oldest}
use nsb_beta.Daemon.Traffic.{count, fetched_entries, received_entries, sent_entries, posted_entries}
use nsb_beta.Daemon.Conservation.{dispatch_conserves}
use nsb_beta.Tests.Wire.{plain_codec}
use nsb_beta.Tests.Data.{
  pull_config, daemon_with, always, node_a, node_b, hello, entry_of, two_entries, busy,
  send_request, asks_source, asks_destination, asking,
}

abbrev first : Bytes → ℕ
first [] = 0
first (x ∷ xs) = x

b_is_not_a : node_b ≢ node_a
b_is_not_a h = absurd (omega (arith, ap first h))

a_is_not_b : node_a ≢ node_b
a_is_not_b h = absurd (omega (arith, ap first h))

busy_tx : tx_queue node_a busy ≡ two_entries
unfolding keep str_eq
busy_tx = refl

busy_rx : rx_queue node_b busy ≡ two_entries
unfolding keep str_eq
busy_rx = refl

abbrev fetched : Handled
fetched = handle_fetch busy (asking Operation.fetch asks_source) response_template

fetch_serves_oldest_example :
    Answers Operation.fetch busy.cfg (entry_of hello) fetched.outgoing
    × (fetched.response_required ≡ true)
    × (tx_queue node_a fetched.daemon ≡ entry_of node_b ∷ [])
    × (tx_queue node_b fetched.daemon ≡ tx_queue node_b busy)
    × (fetched.daemon.rx_buffer ≡ two_entries)
fetch_serves_oldest_example =
    fetch_serves_oldest busy (asking Operation.fetch asks_source) response_template asks_source
      node_a (entry_of hello) (entry_of node_b ∷ []) node_b refl refl busy_tx b_is_not_a

abbrev received : Handled
received = handle_receive busy (asking Operation.receive asks_destination) response_template

receive_serves_oldest_example :
    Answers Operation.receive busy.cfg (entry_of hello) received.outgoing
    × (received.response_required ≡ true)
    × (rx_queue node_b received.daemon ≡ entry_of node_b ∷ [])
    × (rx_queue node_a received.daemon ≡ rx_queue node_a busy)
    × (received.daemon.tx_buffer ≡ two_entries)
receive_serves_oldest_example =
    receive_serves_oldest busy (asking Operation.receive asks_destination) response_template
      asks_destination node_b (entry_of hello) (entry_of node_b ∷ []) node_a refl refl busy_rx
      a_is_not_b

dispatch_conserves_example :
    (count (from_source node_a) fetched.daemon.tx_buffer
        + count
            (from_source node_a)
            (fetched_entries Operation.fetch busy (asking Operation.fetch asks_source))
      ≡ count (from_source node_a) two_entries
        + count (from_source node_a) (
            sent_entries busy.cfg.system_mode Operation.fetch busy
              (asking Operation.fetch asks_source)))
    × (count (from_source node_a) fetched.daemon.rx_buffer
          + count
              (from_source node_a)
              (received_entries Operation.fetch busy (asking Operation.fetch asks_source))
        ≡ count (from_source node_a) two_entries
          + count (from_source node_a) (
              posted_entries busy.cfg.system_mode Operation.fetch busy
                (asking Operation.fetch asks_source)))
unfolding dispatch
dispatch_conserves_example =
    dispatch_conserves (from_source node_a) plain_codec always Operation.fetch busy
      (asking Operation.fetch asks_source) fetched refl

abbrev idle : Daemon
idle = daemon_with (pull_config false)

-- Two messages of the first node with one of the second between them.
abbrev three : List Nsbm
three =
    send_request Operation.send
    ∷ set_metadata node_b node_a (pos 5) (send_request Operation.send)
    ∷ set_metadata node_a node_a (pos 5) (send_request Operation.send)
    ∷ []

abbrev waiting : List MessageEntry
waiting = map (entry_in idle.cfg) (sent_by node_a three)

idle_tx : tx_queue node_a idle ≡ []
unfolding keep
idle_tx = refl

fetch_each-send_each_example :
    (d' : Daemon) × (send_each plain_codec always three idle ≡ ok d')
    × AllAnswer Operation.fetch idle.cfg waiting
        (fetch_each (asking Operation.fetch asks_source) (length waiting) d').0
    × (tx_queue node_a (fetch_each (asking Operation.fetch asks_source) (length waiting) d').1 ≡ [])
fetch_each-send_each_example =
    fetch_each-send_each plain_codec always three idle (asking Operation.fetch asks_source)
      asks_source node_a refl idle_tx refl refl

two_of_three : length waiting ≡ 2
unfolding keep str_eq
two_of_three = refl
