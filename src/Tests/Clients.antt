-- ===== src/Tests/Clients.antt =====
-- The client library's results at concrete data, and runs of its loops.
use nsb_beta.Base.{
  ℕ, zero, suc, ◌+◌, ◌^◌, ◌≡◌, refl, true, false, none, some, List, [], ◌∷◌, ◌++◌, arith,
  if◌then◌else◌, length, Bytes, str_eq, c_str, pos, to_int32, to_string,
}
use nsb_beta.Client.Session
use nsb_beta.Client.Session.{test_socket_interface, session_ends}
use nsb_beta.Outcome.{ok}
use nsb_beta.Daemon.Recv.{recv_calls, recv_size}
use nsb_beta.Client.Base.{ctrl, send, recv, Channel}
use nsb_beta.Client.Redis.{new_connector, payload_id, store, check_out}
use nsb_beta.Client.Keys.{keys, AllFresh, keys-AllFresh}
use nsb_beta.Client.Database.{check_out-store}
use nsb_beta.Client.Socket.{
  insert, no_conns, Conns, Action, closes, ChannelRun, refused, connected, connect_to_server,
  SendResult, wrote, again, send_message, readable, receive_message,
}
use nsb_beta.Client.Transfer.{
  taken, none_fails, send_message_delivers, send_message_finishes, send_message_oversized,
}
use nsb_beta.Client.Connection.{
  Connected, closing, closed_by_peer, receive_message_reads, receive_message_spins,
}
use nsb_beta.Tests.Data.{plain_redis, plain_redis-IsLawful, always, node_a, hello, empty_store}

keys-AllFresh_example : AllFresh (keys (5 ∷ 5 ∷ 5 ∷ []) (new_connector node_a))
keys-AllFresh_example = keys-AllFresh (5 ∷ 5 ∷ 5 ∷ []) (new_connector node_a) (omega arith)

-- 2^32 steps of the clock later its low bits are the same.
clock_wraps : payload_id 5 node_a 1 ≡ payload_id (5 + 2 ^ 32) node_a 1
unfolding payload_id to_string to_int32
clock_wraps = refl

-- A payload of which only what stands before its NUL byte comes back.
abbrev with_nul : Bytes
with_nul = 104 ∷ 0 ∷ 105 ∷ []

check_out-store_example :
    (s' : plain_redis.State) × (check_out plain_redis
        (store plain_redis 5 with_nul (new_connector node_a) empty_store).0
        (store plain_redis 5 with_nul (new_connector node_a) empty_store).2
      ≡ ok (104 ∷ [], s'))
    × (plain_redis.connected s' ≡ true)
    × ((j : Bytes)
        → plain_redis-IsLawful.stored s' j ≡ (
            if str_eq (c_str (store plain_redis 5 with_nul (new_connector node_a) empty_store).0) j
            then none
            else plain_redis-IsLawful.stored empty_store j))
unfolding c_str
check_out-store_example =
    check_out-store plain_redis plain_redis-IsLawful 5 with_nul (new_connector node_a) empty_store
      refl

-- The socket takes two bytes, has to wait, and takes the rest.
abbrev in_parts : List SendResult
in_parts = wrote 2 ∷ again ∷ wrote 3 ∷ []

sent_in_parts : (send_message in_parts hello).status ≡ some (pos 0)
unfolding send_message to_int32
sent_in_parts = refl

send_message_delivers_example : (send_message in_parts hello).delivered ≡ hello
send_message_delivers_example = send_message_delivers in_parts hello (omega arith) sent_in_parts

parts_pass : none_fails in_parts ≡ true
unfolding none_fails
parts_pass = refl

parts_suffice : taken in_parts ≡ 5
unfolding taken
parts_suffice = refl

send_message_finishes_example :
    send_message in_parts hello ≡ record { delivered = hello; status = some (pos 0) }
send_message_finishes_example =
    send_message_finishes in_parts hello (omega arith) parts_pass (omega (arith, parts_suffice))

zeros : ℕ → Bytes
zeros zero = []
zeros (suc n) = 0 ∷ zeros n

length-zeros : (n : ℕ) → length (zeros n) ≡ n
unfolding zeros
length-zeros zero = refl
length-zeros (suc n) = rw (length-zeros n)

send_message_oversized_example :
    send_message in_parts (zeros (2 ^ 31)) ≡ record { delivered = []; status = some (pos 0) }
send_message_oversized_example =
    send_message_oversized in_parts (zeros (2 ^ 31)) (omega (arith, length-zeros (2 ^ 31)))
      (omega (arith, length-zeros (2 ^ 31)))

receive_message_reads_example :
    receive_message (readable (recv_calls 6 recv_size hello) ∷ []) ≡ some hello
receive_message_reads_example = receive_message_reads 6 hello [] (omega arith) refl

receive_message_spins_example : receive_message (closed_by_peer 3) ≡ none
receive_message_spins_example = receive_message_spins 3

-- Each channel connects at its second attempt.
abbrev runs : Channel → ChannelRun
runs ctrl = record { attempts = refused (pos 3) ∷ connected (pos 4) ∷ []; late = false }
runs send = record { attempts = refused (pos 5) ∷ connected (pos 5) ∷ []; late = false }
runs recv = record { attempts = refused (pos 6) ∷ connected (pos 6) ∷ []; late = false }

abbrev conns : Conns
conns = insert recv (pos 6) (insert send (pos 5) (insert ctrl (pos 4) no_conns))

abbrev connecting : List Action
connecting = closes (pos 3) ∷ closes (pos 5) ∷ closes (pos 6) ∷ []

connects : connect_to_server runs always ≡ ok (pos 0, conns, connecting)
unfolding connect_to_server
connects = refl

session_ends_example :
    (c : Connected conns) × (test_socket_interface runs always in_parts
        (readable (recv_calls 6 recv_size hello) ∷ [])
      ≡ ok (
          some (record {
            delivered = Session.hello;
            response = hello;
            actions = closing c ++ closing c;
          })))
session_ends_example =
    session_ends runs always conns connecting in_parts 6 hello [] connects parts_pass
      (omega (arith, parts_suffice)) (omega arith) refl
