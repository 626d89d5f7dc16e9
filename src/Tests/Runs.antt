-- ===== src/Tests/Runs.antt =====
-- A run of the server, and the daemon's results on registrations and connections.
use nsb_beta.Base.{
  ◌+◌, ◌≡◌, refl, true, false, Option, none, some, List, [], ◌∷◌, arith, Bytes, codes, ℤ, pos,
  emplace,
}
use nsb_beta.Wire.{Operation, app_client, success, blank, set_manifest}
use nsb_beta.Outcome.{ok}
use nsb_beta.Daemon.State.{channel_key}
use nsb_beta.Daemon.Dispatch.{dispatch}
use nsb_beta.Daemon.Server.{
  Action, accepts, closes, connection, no_connection, Round, active, Server, serve,
}
use nsb_beta.Daemon.Soundness.{Evolves, OneSimulator}
use nsb_beta.Daemon.Evolution.{serve-Evolves, serve-OneSimulator}
use nsb_beta.Daemon.Descriptors.{count, accepted, closed, serve_accounts}
use nsb_beta.Tests.Wire.{plain_codec}
use nsb_beta.Tests.Data.{always, server}

-- A connection arrives, and then both clients ask the server to stop.
abbrev exit_bytes : Bytes
exit_bytes = plain_codec.serialize (set_manifest Operation.exit app_client success blank)

abbrev quiet : ℤ → Option (List Bytes)
quiet fd = none

abbrev says_exit : ℤ → Option (List Bytes)
says_exit fd = some (exit_bytes ∷ [])

abbrev host : Bytes
host = codes "10.0.0.1"

abbrev run : List Round
run =
    active
      (record { recvs = quiet; incoming = connection host (pos 9000) (pos 8); writable = always })
    ∷ active (record { recvs = says_exit; incoming = no_connection; writable = always })
    ∷ []

abbrev stopped : Server
stopped = record {
  daemon = record (server.daemon) {
    running = false;
    fd_lookup = (channel_key host (pos 9000), pos 8) ∷ [];
  };
  server_fd = pos 3;
  channel_fds = pos 4 ∷ pos 8 ∷ [];
}

abbrev actions : List Action
actions = accepts (pos 8) ∷ closes (pos 4) ∷ closes (pos 8) ∷ closes (pos 3) ∷ []

serves : serve plain_codec run server ≡ ok (stopped, actions, true)
unfolding serve plain_codec emplace dispatch
serves = refl

serve-Evolves_example : Evolves server.daemon stopped.daemon
serve-Evolves_example = serve-Evolves plain_codec run server stopped actions true serves

serve-OneSimulator_example : OneSimulator stopped.daemon
serve-OneSimulator_example =
    serve-OneSimulator plain_codec run server stopped actions true (λ e. omega arith) serves

serve_accounts_example :
    closed always actions + 0
    ≡ count always (pos 4 ∷ []) + accepted always actions + count always (pos 3 ∷ [])
serve_accounts_example = serve_accounts always plain_codec run server stopped actions true serves
