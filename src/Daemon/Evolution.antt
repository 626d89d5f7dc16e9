-- ===== src/Daemon/Evolution.antt =====
-- What the daemon of cpp/src/nsb_daemon.cc keeps through every message and every run of the server.
use nsb_beta.Base.{◌≡◌, refl, Bool, List, Bytes, ℤ, emplace, find-emplace_keeps}
use nsb_beta.Wire.{Codec, get_op}
use nsb_beta.Daemon.State.{Daemon, channel_key}
use nsb_beta.Outcome.{ok, Ensures-ok, Ensures-map}
use nsb_beta.Daemon.Dispatch.{dispatch}
use nsb_beta.Daemon.Server.{Round, Server, Action, serve}
use nsb_beta.Daemon.Keeps.{serve_keeps}
use nsb_beta.Daemon.Soundness.{
  Evolves, Evolves-refl, Evolves-trans, OneSimulator, Sound, dispatch-Sound,
}

with_connection :
    (d : Daemon) (key : Bytes) (fd : ℤ)
    → Evolves d (record d { fd_lookup = emplace key fd d.fd_lookup })
with_connection d key fd = record {
  same_cfg = refl;
  same_port = refl;
  stays_stopped = λ h. h;
  keeps_apps = λ k c h. h;
  keeps_sims = λ k c h. h;
  keeps_fds = λ k old h. find-emplace_keeps key k fd old d.fd_lookup h;
}

module _ (codec : Codec) where
  -- Whatever a run of the server meets, if it does not end the process, the daemon evolves: its
  -- configuration stays, a stopped daemon stays stopped, and no registered client and no known
  -- connection changes its details.
  pub serve-Evolves :
      (rs : List Round) (s s' : Server) (acts : List Action) (left : Bool)
      → serve codec rs s ≡ ok (s', acts, left)
      → Evolves s.daemon s'.daemon
  serve-Evolves rs s s' acts left =
      Ensures-ok (λ (r : Server × List Action × Bool). Evolves s.daemon r.0.daemon)
        (serve codec rs s)
        (serve_keeps codec (Evolves s.daemon)
          (λ w d m v.
            Ensures-map (λ h. Sound d h.daemon) (λ h. Evolves s.daemon h.daemon)
              (dispatch codec w (get_op m) d m) (λ h sound. Evolves-trans v sound.0)
              (dispatch-Sound codec w (get_op m) d m))
          (λ d ip port fd v. Evolves-trans v (with_connection d (channel_key ip port) fd)) rs s
          (Evolves-refl s.daemon))

  -- A run of the server that starts with at most one simulator in system-wide mode, as a new daemon
  -- does, ends with at most one.
  pub serve-OneSimulator :
      (rs : List Round) (s s' : Server) (acts : List Action) (left : Bool)
      → OneSimulator s.daemon
      → serve codec rs s ≡ ok (s', acts, left)
      → OneSimulator s'.daemon
  serve-OneSimulator rs s s' acts left v =
      Ensures-ok (λ (r : Server × List Action × Bool). OneSimulator r.0.daemon) (serve codec rs s)
        (serve_keeps codec OneSimulator
          (λ w d m v.
            Ensures-map (λ h. Sound d h.daemon) (λ h. OneSimulator h.daemon)
              (dispatch codec w (get_op m) d m) (λ h sound. sound.1 v)
              (dispatch-Sound codec w (get_op m) d m))
          (λ d ip port fd v. v) rs s v)
