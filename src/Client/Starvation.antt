-- ===== src/Client/Starvation.antt =====
-- `NSBSimClient::fetch` of cpp/src/nsb_client.cc against `handle_fetch` of cpp/src/nsb_daemon.cc,
-- when no source is given.
use nsb_beta.Base.{◌≡◌, refl, true, none, Bytes}
use nsb_beta.Wire.{Operation, Originator, Nsbm, system_wide, set_manifest, no_message, daemon}
use nsb_beta.Config.{exists}
use nsb_beta.Daemon.State.{Daemon}
use nsb_beta.Daemon.Handled.{handled}
use nsb_beta.Daemon.Buffers.{handle_fetch}
use nsb_beta.Client.Sim.{fetch_request}

-- The request of a system-wide simulator that names no source has no metadata, and the daemon
-- answers NO_MESSAGE to it whatever waits in its buffer, and takes nothing out.
pub fetch_any_starves :
    (d : Daemon) (out : Nsbm) (g : Originator) (id : Bytes)
    → handle_fetch d (fetch_request g system_wide none id) out
      ≡ handled d (set_manifest Operation.fetch daemon no_message out) true
unfolding handle_fetch fetch_request exists
fetch_any_starves d out g id = refl
