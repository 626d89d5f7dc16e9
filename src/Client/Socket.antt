-- ===== src/Client/Socket.antt =====
-- cpp/include/nsb.h and cpp/src/nsb.cc: `Comms` and `SocketInterface`.
-- The operating system's answers are lists, one entry for each pass of a loop; a loop that has used
-- its list up is still running.
use nsb_beta.Base.{
  ℕ, ◌+◌, Bool, true, false, Option, none, some, List, [], ◌∷◌, ◌++◌, ltb, ◌==◌, if◌then◌else◌,
  length, take, drop, Bytes, codes, ℤ, pos, negsuc, minus_one, to_int32,
}
use nsb_beta.Daemon.Recv.{read_all}
use nsb_beta.Outcome.{Outcome, ok, fault, out_of_range, exits, ◌>>=◌}
use nsb_beta.Client.Base.{Channel, ctrl, send, recv}

-- `conns`, a map from the channels to their descriptors.
abbrev pub Conns : Type 0
Conns = Channel → Option ℤ

abbrev pub no_conns : Conns
no_conns _ = none

abbrev pub same_channel : Channel → Channel → Bool
same_channel ctrl ctrl = true
same_channel send send = true
same_channel recv recv = true
same_channel _ _ = false

-- `conns.insert`: a channel that is there keeps its descriptor.
abbrev pub insert : Channel → ℤ → Conns → Conns
insert ch fd conns ch' = elim (conns ch') [
  | some old ↦ some old
  | none ↦ if same_channel ch ch' then some fd else none
]

-- `Channels`
abbrev pub channels : List Channel
channels = ctrl ∷ send ∷ recv ∷ []

pub data Action : Type 0 where
  shuts closes : ℤ → Action

-- A pass of the loop that connects a channel: `socket` fails, an option is refused, `connect`
-- fails or succeeds.
pub data Attempt : Type 0 where
  no_socket : Attempt
  no_option refused connected : ℤ → Attempt

-- The passes that start before the target time, and whether the clock is past it after the loop.
pub record ChannelRun : Type 0 where
  pub attempts : List Attempt
  pub late : Bool

-- How the loop of a channel ends: the call returns -1, the time is up, or there is a connection.
pub data Tried : Type 0 where
  gave_up out_of_time : Tried
  got : ℤ → Tried

unfoldable pub try_channel : List Attempt → Tried × List Action
try_channel [] = (out_of_time, [])
try_channel (no_socket ∷ tries) = (gave_up, [])
try_channel (no_option fd ∷ tries) = (gave_up, closes fd ∷ [])
try_channel (refused fd ∷ tries) = let (t, acts) = try_channel tries in (t, closes fd ∷ acts)
try_channel (connected fd ∷ tries) = (got fd, [])

-- The first loop of `connectToServer`: whether it went through every channel.
unfoldable pub connect_channels :
    (Channel → ChannelRun) → List Channel → Conns → Bool × Conns × List Action
unfolding try_channel
connect_channels runs [] conns = (true, conns, [])
connect_channels runs (ch ∷ chs) conns =
    let (tried, acts) = try_channel (runs ch).attempts in
    let conns' : Conns = elim tried [ got fd ↦ insert ch fd conns | _ ↦ conns ] in
    let (done, conns'', more) = connect_channels runs chs conns' in
    elim tried [
      | gave_up ↦ (false, conns, acts)
      | _ ↦ if (runs ch).late then (false, conns', acts) else (done, conns'', acts ++ more)
    ]

-- The second loop: `at` throws on a channel that is not there, and `nonblocking` says whether the
-- two calls of `fcntl` succeed.
unfoldable pub set_nonblocking : (ℤ → Bool) → List Channel → Conns → Outcome ℤ
set_nonblocking nonblocking [] conns = ok (pos 0)
set_nonblocking nonblocking (ch ∷ chs) conns = elim (conns ch) [
  | none ↦ fault out_of_range
  | some fd ↦ elim (nonblocking fd) [
    | true ↦ set_nonblocking nonblocking chs conns
    | false ↦ ok minus_one
  ]
]

-- `connectToServer`: the result, the connections and the actions.
unfoldable pub connect_to_server :
    (Channel → ChannelRun) → (ℤ → Bool) → Outcome (ℤ × Conns × List Action)
unfolding connect_channels set_nonblocking
connect_to_server runs nonblocking =
    let (done, conns, acts) = connect_channels runs channels no_conns in
    if done
    then (set_nonblocking nonblocking channels conns >>= λ status. ok (status, conns, acts))
    else ok (minus_one, conns, acts)

-- `SocketInterface(...)` exits unless `connectToServer` returns 0.
unfoldable pub new_socket_interface : (Channel → ChannelRun) → (ℤ → Bool) → Outcome Conns
unfolding connect_to_server
new_socket_interface runs nonblocking = connect_to_server runs nonblocking >>= λ (status, conns, _).
    elim status [ pos n ↦ if n == 0 then ok conns else fault exits | negsuc n ↦ fault exits ]

close_channels : List Channel → Conns → Outcome (List Action)
close_channels [] conns = ok []
close_channels (ch ∷ chs) conns = elim (conns ch) [
  | none ↦ fault out_of_range
  | some fd ↦ (close_channels chs conns >>= λ acts. ok (shuts fd ∷ closes fd ∷ acts))
]

unfoldable pub close_connection : Conns → Outcome (List Action)
unfolding close_channels
close_connection conns = close_channels channels conns

-- `~NSBClient()`: its body, and then the destructor of the member `comms`.
unfoldable pub destroy_client : Conns → Outcome (List Action)
unfolding close_connection
destroy_client conns = do
  first ← close_connection conns
  second ← close_connection conns
  ok (first ++ second)

-- A call of the system's `send`: how many bytes it took, or its error.
pub data SendResult : Type 0 where
  wrote : ℕ → SendResult
  again failed : SendResult

-- `total < totalSize`, where `totalSize` is an `int`.
abbrev pub more_to_send : ℕ → ℤ → Bool
more_to_send total (pos size) = ltb total size
more_to_send total (negsuc size) = false

-- What the peer gets, and the result, unless the loop still runs.
pub record Delivery : Type 0 where
  pub delivered : Bytes
  pub status : Option ℤ

unfoldable pub send_loop : List SendResult → Bytes → ℤ → ℕ → Delivery
send_loop [] m size total = record {
  delivered = [];
  status = if more_to_send total size then none else some (pos 0);
}
send_loop (c ∷ calls) m size total = elim (more_to_send total size) [
  | false ↦ record { delivered = []; status = some (pos 0) }
  | true ↦ elim c [
    | again ↦ send_loop calls m size total
    | failed ↦ record { delivered = []; status = some minus_one }
    | wrote n ↦
        let rest = send_loop calls m size (total + n) in
        record rest { delivered = take n (drop total m) ++ rest.delivered }
  ]
]

unfoldable pub send_message : List SendResult → Bytes → Delivery
unfolding send_loop to_int32
send_message calls m = send_loop calls m (to_int32 (length m)) 0

-- A pass of the loop of `receiveMessage`: the verdict of `select`, with the results of the calls of
-- `recv` that follow.
pub data Wait : Type 0 where
  select_error timed_out : Wait
  readable : List Bytes → Wait

-- `none` while the loop runs; no bytes on an error and on a timeout.
unfoldable pub receive_message : List Wait → Option Bytes
unfolding read_all
receive_message [] = none
receive_message (select_error ∷ ws) = some []
receive_message (timed_out ∷ ws) = some []
receive_message (readable calls ∷ ws) =
    let rest = receive_message ws in
    let (message_exists, m) = read_all calls in if message_exists then some m else rest

-- `listenForMessage`: what the future holds in the end, which a thread of its own sets to the
-- result of `receiveMessage`.
unfoldable pub listen_for_message : List Wait → Option Bytes
unfolding receive_message
listen_for_message ws = receive_message ws

-- `getChannelName`
unfoldable pub channel_name : Channel → Bytes
channel_name ctrl = codes "CTRL"
channel_name send = codes "SEND"
channel_name recv = codes "RECV"
