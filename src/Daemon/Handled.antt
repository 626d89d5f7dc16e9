-- ===== src/Daemon/Handled.antt =====
-- What a handler of cpp/src/nsb_daemon.cc returns: the daemon, the outgoing message, whether a
-- response is required and what it sent to other clients; see `Outcome` for what ends the process.
use nsb_beta.Base.{ℕ, Bool, false, List, [], ltb, Bytes, ℤ, pos, negsuc}
use nsb_beta.Wire.{Nsbm}
use nsb_beta.Daemon.State.{Daemon}

-- One call of `send`.
pub record Sent : Type 0 where
  pub fd : ℤ
  pub bytes : Bytes

pub record Handled : Type 0 where
  pub daemon : Daemon
  pub outgoing : Nsbm
  pub response_required : Bool
  pub sent : List Sent

abbrev pub handled : Daemon → Nsbm → Bool → Handled
handled d m r = record { daemon = d; outgoing = m; response_required = r; sent = [] }

abbrev pub fd_setsize : ℕ
fd_setsize = 1024

abbrev pub valid_fd : ℤ → Bool
valid_fd (pos n) = ltb n fd_setsize
valid_fd (negsuc n) = false
