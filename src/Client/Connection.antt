-- ===== src/Client/Connection.antt =====
-- What `SocketInterface` of cpp/src/nsb.cc receives, connects and closes.
use nsb_beta.Base.{
  ℕ, zero, suc, ◌<◌, ◌≡◌, refl, inl, inr, Bool, true, false, none, some, List, [], ◌∷◌, ◌++◌, arith,
  if◌then◌else◌, Option-cases, length, is_empty, Bytes, ℤ, pos, minus_one,
}
use nsb_beta.Daemon.Recv.{recv_size, recv_calls, read_all-recv_calls}
use nsb_beta.Outcome.{Outcome, ok, fault, ◌>>=◌}
use nsb_beta.Client.Base.{Channel, ctrl, send, recv}
use nsb_beta.Client.Socket.{
  no_conns, Conns, Action, shuts, closes, ChannelRun, channels, connect_channels, set_nonblocking,
  connect_to_server, close_connection, destroy_client, Wait, readable, receive_message,
}

-- `receiveMessage` returns in one message every byte that waits when `select` first finds the
-- socket readable, if any does, when it may make one call of `recv` more than there are bytes.
pub receive_message_reads :
    (fuel : ℕ) (waiting : Bytes) (ws : List Wait)
    → length waiting < fuel
    → is_empty waiting ≡ false
    → receive_message (readable (recv_calls fuel recv_size waiting) ∷ ws) ≡ some waiting
unfolding receive_message
receive_message_reads fuel waiting ws h k =
    rw (read_all-recv_calls fuel recv_size waiting h (omega arith)) (rw k)

-- The passes of the loop once the peer has closed the connection: the socket is readable, and
-- `recv` returns 0.
pub closed_by_peer : ℕ → List Wait
closed_by_peer zero = []
closed_by_peer (suc n) = readable ([] ∷ []) ∷ closed_by_peer n

-- After the peer has closed the connection `receiveMessage` goes round without end: it has not
-- returned after any number of passes.
pub receive_message_spins : (n : ℕ) → receive_message (closed_by_peer n) ≡ none
unfolding receive_message closed_by_peer
receive_message_spins zero = refl
receive_message_spins (suc n) = receive_message_spins n

set_nonblocking_cons :
    (nonblocking : ℤ → Bool) (ch : Channel) (chs : List Channel) (conns : Conns)
    → set_nonblocking nonblocking (ch ∷ chs) conns ≡ ok (pos 0)
    → (fd : ℤ) × (conns ch ≡ some fd) × (set_nonblocking nonblocking chs conns ≡ ok (pos 0))
unfolding set_nonblocking
set_nonblocking_cons nonblocking ch chs conns h = elim (Option-cases (conns ch)) [
  | inl e ↦ ground arith
  | inr (fd, e) ↦ (fd, e, ground arith)
]

-- The descriptors of the three channels.
pub record Connected (conns : Conns) : Type 0 where
  pub ctrl_fd : ℤ
  pub send_fd : ℤ
  pub recv_fd : ℤ
  pub on_ctrl : conns ctrl ≡ some ctrl_fd
  pub on_send : conns send ≡ some send_fd
  pub on_recv : conns recv ≡ some recv_fd

-- What `closeConnection` does to them.
abbrev pub closing : {conns : Conns} → Connected conns → List Action
closing c =
    shuts c.ctrl_fd
    ∷ closes c.ctrl_fd
    ∷ shuts c.send_fd
    ∷ closes c.send_fd
    ∷ shuts c.recv_fd
    ∷ closes c.recv_fd
    ∷ []

-- What `connectToServer` returns.
abbrev Connects : Type 0
Connects = ℤ × Conns × List Action

nonblocking_of_success :
    (nonblocking : ℤ → Bool) (made conns : Conns) (before acts : List Action) (status : Outcome ℤ)
    → set_nonblocking nonblocking channels made ≡ status
    → ◌>>=◌ {B = Connects} status (λ n. ok (n, made, before)) ≡ ok (pos 0, conns, acts)
    → set_nonblocking nonblocking channels conns ≡ ok (pos 0)
nonblocking_of_success nonblocking made conns before acts (ok n) e h = cc
nonblocking_of_success nonblocking made conns before acts (fault f) e h = cc

success_of_connect :
    (done : Bool) (nonblocking : ℤ → Bool) (made conns : Conns) (before acts : List Action)
    → (if done
        then ◌>>=◌ {B = Connects}
            (set_nonblocking nonblocking channels made)
            (λ n. ok (n, made, before))
        else ok (minus_one, made, before))
      ≡ ok (pos 0, conns, acts)
    → set_nonblocking nonblocking channels conns ≡ ok (pos 0)
success_of_connect true nonblocking made conns before acts h =
    nonblocking_of_success nonblocking made conns before acts _ refl h
success_of_connect false nonblocking made conns before acts h = cc

-- When `connectToServer` returns 0 each of the three channels has a descriptor.
pub connect_to_server_connects :
    (runs : Channel → ChannelRun) (nonblocking : ℤ → Bool) (conns : Conns) (acts : List Action)
    → connect_to_server runs nonblocking ≡ ok (pos 0, conns, acts)
    → Connected conns
unfolding connect_to_server
connect_to_server_connects runs nonblocking conns acts h =
    let set =
      success_of_connect (connect_channels runs channels no_conns).0 nonblocking
        (connect_channels runs channels no_conns).1 conns
        (connect_channels runs channels no_conns).2 acts h in
    let (c, on_c, set') = set_nonblocking_cons nonblocking ctrl (send ∷ recv ∷ []) conns set in
    let (s, on_s, set'') = set_nonblocking_cons nonblocking send (recv ∷ []) conns set' in
    let (r, on_r, _) = set_nonblocking_cons nonblocking recv [] conns set'' in
    record { ctrl_fd = c; send_fd = s; recv_fd = r; on_ctrl = on_c; on_send = on_s; on_recv = on_r }

close_connection_lem :
    (conns : Conns) (c : Connected conns) → close_connection conns ≡ ok (closing c)
unfolding close_connection
close_connection_lem conns c = rw (c.on_ctrl, close_connection) (rw (c.on_send) (rw c.on_recv))

-- After a connection that succeeded, `closeConnection` shuts and closes each channel once, in the
-- order of the channels.
pub close_connection-connect :
    (runs : Channel → ChannelRun) (nonblocking : ℤ → Bool) (conns : Conns) (acts : List Action)
    → connect_to_server runs nonblocking ≡ ok (pos 0, conns, acts)
    → (c : Connected conns) × (close_connection conns ≡ ok (closing c))
close_connection-connect runs nonblocking conns acts h =
    let c = connect_to_server_connects runs nonblocking conns acts h in
    (c, close_connection_lem conns c)

-- The destructor of a client with three connected channels shuts and closes each of them twice.
destroy_client_closes_twice :
    (conns : Conns) (c : Connected conns) → destroy_client conns ≡ ok (closing c ++ closing c)
unfolding destroy_client
destroy_client_closes_twice conns c = let e = close_connection_lem conns c in rw (e, destroy_client)
