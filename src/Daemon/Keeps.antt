-- ===== src/Daemon/Keeps.antt =====
-- The rule by which an invariant of the handlers is one of the server's whole run
-- (cpp/src/nsb_daemon.cc, `start_server`).
use nsb_beta.Base.{
  ◌≡◌, refl, subst, Bool, true, false, Option, none, some, List, [], ◌∷◌, Bytes, ℤ, emplace,
}
use nsb_beta.Wire.{Nsbm, Codec, get_op}
use nsb_beta.Daemon.State.{Daemon, channel_key}
use nsb_beta.Outcome.{Ensures, Ensures->>=}
use nsb_beta.Daemon.Handled.{Handled, Sent}
use nsb_beta.Daemon.Dispatch.{dispatch, handle_message}
use nsb_beta.Daemon.Server.{
  Activity, Round, excused, broken, timed_out, active, Incoming, no_connection, accept_failed,
  connection, Server, Action, handle_read, service_channel, service, admit, active_round, round,
  serve_while, serve,
}

abbrev Run : Type 0
Run = Server × List Action × Bool

abbrev Pass : Type 0
Pass = Daemon × List ℤ × List Action

module _ {ℓ} (codec : Codec) (P : Daemon → Type ℓ)
    (by_message : (w : ℤ → Bool) (d : Daemon) (m : Nsbm)
      → P d
      → Ensures (λ h. P h.daemon) (dispatch codec w (get_op m) d m))
    (by_connection : (d : Daemon) (ip : Bytes) (port fd : ℤ)
      → P d
      → P (record d { fd_lookup = emplace (channel_key ip port) fd d.fd_lookup })) where
  pub handle_message_keeps :
      (w : ℤ → Bool) (d : Daemon) (fd : ℤ) (bytes : Bytes)
      → P d
      → Ensures (λ r. P r.0) (handle_message codec w d fd bytes)
  unfolding handle_message
  handle_message_keeps w d fd bytes v =
      Ensures->>= (λ (h : Handled). P h.daemon) _ _ _ (by_message w d (codec.parse bytes) v)
        (λ h k. k)

  handle_read_keeps :
      (a : Activity) (fd : ℤ) (message_exists : Bool) (bytes : Bytes) (d : Daemon)
      → P d
      → Ensures (λ r. P r.0) (handle_read codec a fd message_exists bytes d)
  unfolding handle_read
  handle_read_keeps a fd true bytes d v =
      Ensures->>= (λ (r : Daemon × List Sent). P r.0) (λ (r : Pass). P r.0) _ _
        (handle_message_keeps a.writable d fd bytes v) (λ r k. k)
  handle_read_keeps a fd false bytes d v = v

  service_channel_keeps :
      (a : Activity) (fd : ℤ) (calls : Option (List Bytes)) (d : Daemon)
      → P d
      → Ensures (λ r. P r.0) (service_channel codec a fd calls d)
  unfolding service_channel
  service_channel_keeps a fd none d v = v
  service_channel_keeps a fd (some calls) d v = handle_read_keeps a fd _ _ d v

  service_keeps :
      (a : Activity) (fds : List ℤ) (d : Daemon)
      → P d
      → Ensures (λ r. P r.0) (service codec a fds d)
  unfolding service
  service_keeps a [] d v = v
  service_keeps a (fd ∷ fds) d v =
      Ensures->>= (λ (r : Pass). P r.0) (λ (r : Pass). P r.0)
        (service_channel codec a fd (a.recvs fd) d) _ (service_channel_keeps a fd (a.recvs fd) d v)
        λ (d', stay, acts) k.
          Ensures->>= (λ (r : Pass). P r.0) (λ (r : Pass). P r.0) (service codec a fds d') _
            (service_keeps a fds d' k) (λ r k'. k')

  admit_keeps : (i : Incoming) (s : Server) → P s.daemon → P (admit i s).0.daemon
  unfolding admit
  admit_keeps no_connection s v = v
  admit_keeps accept_failed s v = v
  admit_keeps (connection ip port fd) s v = by_connection s.daemon ip port fd v

  active_round_keeps :
      (a : Activity) (s : Server)
      → P s.daemon
      → Ensures (λ r. P r.0.daemon) (active_round codec a s)
  unfolding active_round
  active_round_keeps a s v =
      Ensures->>= (λ (r : Pass). P r.0) (λ (r : Server × List Action). P r.0.daemon)
        (service codec a s.channel_fds s.daemon) _ (service_keeps a s.channel_fds s.daemon v)
        λ (d, stay, acts) k. admit_keeps a.incoming (record s { daemon = d; channel_fds = stay }) k

  abbrev daemon_after : Server → Option (Server × List Action) → Daemon
  daemon_after s none = s.daemon
  daemon_after s (some t) = t.0.daemon

  round_keeps :
      (r : Round) (s : Server)
      → P s.daemon
      → Ensures (λ o. (t : Server × List Action) → o ≡ some t → P t.0.daemon) (round codec r s)
  unfolding round
  round_keeps excused s v =
      λ t e. subst (λ (o : Option (Server × List Action)). P (daemon_after s o)) e v
  round_keeps timed_out s v =
      λ t e. subst (λ (o : Option (Server × List Action)). P (daemon_after s o)) e v
  round_keeps broken s v = λ t e. cc
  round_keeps (active a) s v =
      Ensures->>= (λ (r : Server × List Action). P r.0.daemon) _ (active_round codec a s) _
        (active_round_keeps a s v)
        (λ r k t e. subst (λ (o : Option (Server × List Action)). P (daemon_after s o)) e k)

  serve_while_keeps :
      (b : Bool) (rs : List Round) (s : Server)
      → P s.daemon
      → Ensures (λ r. P r.0.daemon) (serve_while codec b rs s)
  unfolding serve_while
  serve_while_keeps false rs s v = v
  serve_while_keeps true [] s v = v
  serve_while_keeps true (r ∷ rs) s v =
      Ensures->>= (λ o. (t : Server × List Action) → o ≡ some t → P t.0.daemon)
        (λ (r : Run). P r.0.daemon) (round codec r s) _ (round_keeps r s v)
        (elim [
          | none ↦ λ k. v
          | some (s', acts) ↦ λ k.
              Ensures->>= (λ (r : Run). P r.0.daemon) (λ (r : Run). P r.0.daemon)
                (serve_while codec s'.daemon.running rs s') _
                (serve_while_keeps s'.daemon.running rs s' (k (s', acts) refl)) (λ r k'. k')
        ])

  -- What every message and every connection keeps, a run of the server keeps.
  pub serve_keeps :
      (rs : List Round) (s : Server) → P s.daemon → Ensures (λ r. P r.0.daemon) (serve codec rs s)
  unfolding serve
  serve_keeps rs s v = serve_while_keeps s.daemon.running rs s v
