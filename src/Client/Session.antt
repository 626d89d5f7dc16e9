-- ===== src/Client/Session.antt =====
-- cpp/nsb_test.cc, `testSocketInterface`: the life of a `SocketInterface` of cpp/src/nsb.cc, from
-- its constructor to its destructor.
use nsb_beta.Base.{
  ℕ, ◌≤◌, ◌<◌, ◌≡◌, ap, Bool, true, false, Option, none, some, List, ◌∷◌, ◌++◌, arith, length,
  is_empty, Bytes, codes, ℤ, pos,
}
use nsb_beta.Outcome.{Outcome, ok, ◌>>=◌}
use nsb_beta.Daemon.Recv.{recv_size, recv_calls}
use nsb_beta.Client.Base.{Channel}
use nsb_beta.Client.Socket.{
  Conns, Action, ChannelRun, SendResult, Wait, readable, connect_to_server, new_socket_interface,
  close_connection, send_message, listen_for_message,
}
use nsb_beta.Client.Transfer.{none_fails, taken, send_message_finishes}
use nsb_beta.Client.Connection.{Connected, closing, receive_message_reads, close_connection-connect}

-- `~SocketInterface()`
unfoldable pub destroy_interface : Conns → Outcome (List Action)
unfolding close_connection
destroy_interface conns = close_connection conns

-- What the daemon is given, what is received, and what happens to the sockets at the end.
pub record Session : Type 0 where
  pub delivered : Bytes
  pub response : Bytes
  pub actions : List Action

abbrev pub hello : Bytes
hello = codes "hello"

-- After the response: the connection is closed, and then the destructor runs.
leave : Conns → Bytes → Bytes → Outcome (Option Session)
unfolding destroy_interface
leave conns delivered response = do
  closed ← close_connection conns
  destroyed ← destroy_interface conns
  ok (some (record { delivered = delivered; response = response; actions = closed ++ destroyed }))

-- `testSocketInterface`: the result is not there while a loop still runs.
unfoldable pub test_socket_interface :
    (Channel → ChannelRun) → (ℤ → Bool) → List SendResult → List Wait → Outcome (Option Session)
unfolding new_socket_interface send_message listen_for_message leave
test_socket_interface runs nonblocking calls waits = do
  conns ← new_socket_interface runs nonblocking
  let sent = send_message calls hello
  elim (sent.status) [
    | none ↦ ok none
    | some n ↦ elim (listen_for_message waits) [
      | none ↦ ok none
      | some response ↦ leave conns sent.delivered response
    ]
  ]

-- When the connection succeeds, the calls of `send` together take the whole message and none fails,
-- and some bytes wait when `select` first finds the socket readable, then `testSocketInterface`
-- ends: the daemon has been given the message, every byte that waits has been received, and each
-- channel is shut and closed twice, once by `closeConnection` and once by the destructor.
pub session_ends :
    (runs : Channel → ChannelRun) (nonblocking : ℤ → Bool) (conns : Conns) (acts : List Action)
    (calls : List SendResult) (fuel : ℕ) (waiting : Bytes) (waits : List Wait)
    → connect_to_server runs nonblocking ≡ ok (pos 0, conns, acts)
    → none_fails calls ≡ true
    → length hello ≤ taken calls
    → length waiting < fuel
    → is_empty waiting ≡ false
    → (c : Connected conns) × (test_socket_interface runs nonblocking calls
          (readable (recv_calls fuel recv_size waiting) ∷ waits)
        ≡ ok (
            some
              (record { delivered = hello; response = waiting; actions = closing c ++ closing c })))
unfolding test_socket_interface new_socket_interface listen_for_message leave destroy_interface
session_ends runs nonblocking conns acts calls fuel waiting waits connects passes enough room full =
    let (c, closed) = close_connection-connect runs nonblocking conns acts connects in
    let finishes = send_message_finishes calls hello (omega arith) passes enough in
    let reads = receive_message_reads fuel waiting waits room full in
    let session : Bytes → Session =
      λ bytes. record { delivered = bytes; response = waiting; actions = closing c ++ closing c } in
    (c, rw (connects, finishes, reads, closed) (ap (λ d. ok (some (session d.delivered))) finishes))
