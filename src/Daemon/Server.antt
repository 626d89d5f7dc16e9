-- ===== src/Daemon/Server.antt =====
-- cpp/src/nsb_daemon.cc: `start`, `start_server` and what `main` does with them.
-- The environment is a list of rounds: what `select`, `recv` and `accept` answer in each pass of
-- the loop. What the server does to descriptors is recorded as a list of actions.
use nsb_beta.Base.{
  Bool, true, false, Option, none, some, List, [], ◌∷◌, ◌++◌, map, if◌then◌else◌, Bytes, ℤ, pos,
  emplace,
}
use nsb_beta.Wire.{Codec}
use nsb_beta.Config.{Yaml}
use nsb_beta.Daemon.State.{Daemon, channel_key, stop, new_daemon}
use nsb_beta.Outcome.{Outcome, ok, fault, yaml_exception, ◌>>=◌}
use nsb_beta.Daemon.Handled.{Sent}
use nsb_beta.Daemon.Dispatch.{handle_message}
use nsb_beta.Daemon.Recv.{read_all}

pub data Action : Type 0 where
  sends : Sent → Action
  accepts shuts closes : ℤ → Action

pub data Incoming : Type 0 where
  no_connection accept_failed : Incoming
  connection : Bytes → ℤ → ℤ → Incoming

-- Some descriptor is ready. `recvs` has the results of `recv` for each channel that is, and
-- `connection ip port fd` is what `accept` made.
pub record Activity : Type 0 where
  pub recvs : ℤ → Option (List Bytes)
  pub incoming : Incoming
  pub writable : ℤ → Bool

-- `excused` is an error that comes from non-blocking calls.
pub data Round : Type 0 where
  excused broken timed_out : Round
  active : Activity → Round

pub record Server : Type 0 where
  pub daemon : Daemon
  pub server_fd : ℤ
  pub channel_fds : List ℤ

abbrev pub sends_all : List Sent → List Action
sends_all = map sends

module _ (codec : Codec) (a : Activity) where
  -- A message is handled; where there is none, the peer has disconnected.
  unfoldable pub handle_read : ℤ → Bool → Bytes → Daemon → Outcome (Daemon × List ℤ × List Action)
  handle_read fd true bytes d = do
    (d', sent) ← handle_message codec a.writable d fd bytes
    ok (d', fd ∷ [], sends_all sent)
  handle_read fd false bytes d = ok (d, [], shuts fd ∷ closes fd ∷ [])

  unfoldable pub service_channel :
      ℤ → Option (List Bytes) → Daemon → Outcome (Daemon × List ℤ × List Action)
  unfolding handle_read read_all
  service_channel fd none d = ok (d, fd ∷ [], [])
  service_channel fd (some calls) d = handle_read fd (read_all calls).0 (read_all calls).1 d

  -- The pass over `channel_fds`: the daemon, the descriptors that stay, and the actions.
  unfoldable pub service : List ℤ → Daemon → Outcome (Daemon × List ℤ × List Action)
  unfolding service_channel handle_message
  service [] d = ok (d, [], [])
  service (fd ∷ fds) d = do
    (d', stay, acts) ← service_channel fd (a.recvs fd) d
    (d'', stay', acts') ← service fds d'
    ok (d'', stay ++ stay', acts ++ acts')

-- The new connection, if there is one: its key goes to `fd_lookup` unless it is there.
unfoldable pub admit : Incoming → Server → Server × List Action
admit no_connection s = (s, [])
admit accept_failed s = (s, [])
admit (connection ip port fd) s = (
  record s {
    daemon = record (s.daemon) { fd_lookup = emplace (channel_key ip port) fd s.daemon.fd_lookup };
    channel_fds = s.channel_fds ++ fd ∷ [];
  },
  accepts fd ∷ [],
)

-- After the loop every channel is closed, and then the server's own descriptor.
unfoldable pub close_all : Server → List Action
close_all s = map closes (s.channel_fds ++ s.server_fd ∷ [])

module _ (codec : Codec) where
  unfoldable pub active_round : Activity → Server → Outcome (Server × List Action)
  unfolding service admit
  active_round a s = do
    (d, stay, acts) ← service codec a s.channel_fds s.daemon
    let (s', more) = admit a.incoming (record s { daemon = d; channel_fds = stay })
    ok (s', acts ++ more)

  -- The body of the loop; `none` is the `break` on an error of `select`.
  unfoldable pub round : Round → Server → Outcome (Option (Server × List Action))
  unfolding active_round
  round excused s = ok (some (s, []))
  round timed_out s = ok (some (s, []))
  round broken s = ok none
  round (active a) s = active_round a s >>= λ r. ok (some r)

  -- The loop, from its test. The Boolean says whether the server has left it; if not, it waits for
  -- its next round.
  unfoldable pub serve_while : Bool → List Round → Server → Outcome (Server × List Action × Bool)
  unfolding round close_all
  serve_while false rs s = ok (s, close_all s, true)
  serve_while true [] s = ok (s, [], false)
  serve_while true (r ∷ rs) s = round r s >>= elim [
    | none ↦ ok (s, close_all s, true)
    | some (s', acts) ↦
        (serve_while s'.daemon.running rs s' >>= λ (s'', more, left). ok (s'', acts ++ more, left))
  ]

  unfoldable pub serve : List Round → Server → Outcome (Server × List Action × Bool)
  unfolding serve_while
  serve rs s = serve_while s.daemon.running rs s

-- The calls that set the server's socket up: where they fail, or the descriptor that listens.
pub data Setup : Type 0 where
  no_socket : Setup
  unset : ℤ → Setup
  listening : ℤ → Setup

-- `start_server`: on a failure the descriptor is closed, if there is one, and the call returns.
unfoldable pub start_server :
    Codec → Setup → List Round → Daemon → Outcome (Daemon × List Action × Bool)
unfolding serve
start_server codec no_socket rs d = ok (d, [], true)
start_server codec (unset fd) rs d = ok (d, closes fd ∷ [], true)
start_server codec (listening fd) rs d = do
  (s, acts, left) ← serve codec rs (record { daemon = d; server_fd = fd; channel_fds = [] })
  ok (s.daemon, acts, left)

unfoldable pub start : Codec → Setup → List Round → Daemon → Outcome (Daemon × List Action × Bool)
unfolding start_server
start codec setup rs d =
    if d.running
    then ok (d, [], true)
    else start_server codec setup rs (record d { running = true })

-- `main` after its checks of the arguments: `start`, and `stop` when that has returned.
unfoldable pub run_daemon :
    Codec → Setup → List Round → Daemon → Outcome (Daemon × List Action × Bool)
unfolding start stop
run_daemon codec setup rs d = do
  (d', acts, left) ← start codec setup rs d
  ok (if left then stop d' else d', acts, left)

-- `main` with the daemon that the file makes: the result is not there while the server runs.
unfoldable pub main_with :
    Codec → Setup → List Round → Option Daemon → Outcome (Option ℤ × List Action)
unfolding run_daemon
main_with codec setup rs none = fault yaml_exception
main_with codec setup rs (some d) = do
  (d', acts, left) ← run_daemon codec setup rs d
  ok (if left then some (pos 0) else none, acts)

-- `main`: `args` is `argv[1]` and what follows, and `file` gives the document that a file holds, if
-- there is such a file.
unfoldable pub main :
    Codec
    → (Bytes → Option Yaml)
    → Setup
    → List Round
    → List Bytes
    → Outcome (Option ℤ × List Action)
unfolding main_with new_daemon
main codec file setup rs (path ∷ []) = elim (file path) [
  | none ↦ ok (some (pos 1), [])
  | some y ↦ main_with codec setup rs (new_daemon (pos 65432) y)
]
main codec file setup rs args = ok (some (pos 1), [])
