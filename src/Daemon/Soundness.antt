-- ===== src/Daemon/Soundness.antt =====
-- What each handler of cpp/src/nsb_daemon.cc keeps of the daemon, whatever the message.
use nsb_beta.Base.{
  ◌≤◌, ◌≡◌, refl, ◌∙◌, inl, inr, Bool, true, false, Option, none, some, List, [], ◌∷◌, ◌++◌, arith,
  if◌then◌else◌, Bool-cases, length, is_empty, Bytes, ℤ, is_minus_one, find, emplace,
  find-emplace_keeps, length-emplace-le,
}
use nsb_beta.Wire.{
  is_message, IntroDetails, set_op, get_code, Operation, Originator, Nsbm, Codec, SimulatorMode,
  system_wide, per_node, other_simulator_mode, SystemMode, pull, push, other_system_mode, daemon,
  app_client, sim_client, other_originator, content_intro, get_og, response_template,
}
use nsb_beta.Config.{MessageEntry}
use nsb_beta.Daemon.State.{Daemon, ClientDetails, stop}
use nsb_beta.Outcome.{Outcome, ok, fault, ◌>>=◌, Ensures}
use nsb_beta.Daemon.Handled.{Handled, Sent}
use nsb_beta.Daemon.Init.{register_sim, register, answer_init, init_with, handle_init}
use nsb_beta.Daemon.Buffers.{entry_of_message}
use nsb_beta.Daemon.Forward.{
  forward_to, handle_send, handle_post, send_target, send_to, send_in, post_in, post_to,
  post_target,
}
use nsb_beta.Daemon.Dispatch.{dispatch}

-- The configuration and the port stay, a daemon that has stopped does not start again, and each
-- client and each connection keeps the details under which it was first registered.
pub record Evolves (d d' : Daemon) : Type 0 where
  pub same_cfg : d'.cfg ≡ d.cfg
  pub same_port : d'.server_port ≡ d.server_port
  pub stays_stopped : d.running ≡ false → d'.running ≡ false
  pub keeps_apps :
      (k : Bytes) (c : ClientDetails)
      → find k d.app_client_lookup ≡ some c
      → find k d'.app_client_lookup ≡ some c
  pub keeps_sims :
      (k : Bytes) (c : ClientDetails)
      → find k d.sim_client_lookup ≡ some c
      → find k d'.sim_client_lookup ≡ some c
  pub keeps_fds :
      (k : Bytes) (fd : ℤ) → find k d.fd_lookup ≡ some fd → find k d'.fd_lookup ≡ some fd

pub Evolves-refl : (d : Daemon) → Evolves d d
Evolves-refl d = record {
  same_cfg = refl;
  same_port = refl;
  stays_stopped = λ h. h;
  keeps_apps = λ k c h. h;
  keeps_sims = λ k c h. h;
  keeps_fds = λ k fd h. h;
}

pub Evolves-trans : {d e f : Daemon} → Evolves d e → Evolves e f → Evolves d f
Evolves-trans v w = record {
  same_cfg = w.same_cfg ∙ v.same_cfg;
  same_port = w.same_port ∙ v.same_port;
  stays_stopped = λ h. w.stays_stopped (v.stays_stopped h);
  keeps_apps = λ k c h. w.keeps_apps k c (v.keeps_apps k c h);
  keeps_sims = λ k c h. w.keeps_sims k c (v.keeps_sims k c h);
  keeps_fds = λ k fd h. w.keeps_fds k fd (v.keeps_fds k fd h);
}

-- In system-wide mode there is at most one simulator.
abbrev pub OneSimulator : Daemon → Type 0
OneSimulator d = d.cfg.simulator_mode ≡ system_wide → length d.sim_client_lookup ≤ 1

-- Both, of the daemon that a handler returns.
abbrev pub Sound : Daemon → Daemon → Type 0
Sound d d' = Evolves d d' × (OneSimulator d → OneSimulator d')

Sound-same :
    (d : Daemon) (es fs : List MessageEntry) → Sound d (record d { tx_buffer = es; rx_buffer = fs })
Sound-same d es fs = (
  record {
    same_cfg = refl;
    same_port = refl;
    stays_stopped = λ h. h;
    keeps_apps = λ k c h. h;
    keeps_sims = λ k c h. h;
    keeps_fds = λ k fd h. h;
  },
  λ v. v,
)

with_sim :
    (d : Daemon) (j : Bytes) (v : ClientDetails)
    → Evolves d (record d { sim_client_lookup = emplace j v d.sim_client_lookup })
with_sim d j v = record {
  same_cfg = refl;
  same_port = refl;
  stays_stopped = λ h. h;
  keeps_apps = λ k c h. h;
  keeps_sims = λ k c h. find-emplace_keeps j k v c d.sim_client_lookup h;
  keeps_fds = λ k fd h. h;
}

with_app :
    (d : Daemon) (j : Bytes) (v : ClientDetails)
    → Evolves d (record d { app_client_lookup = emplace j v d.app_client_lookup })
with_app d j v = record {
  same_cfg = refl;
  same_port = refl;
  stays_stopped = λ h. h;
  keeps_apps = λ k c h. find-emplace_keeps j k v c d.app_client_lookup h;
  keeps_sims = λ k c h. h;
  keeps_fds = λ k fd h. h;
}

with_simulator-OneSimulator :
    (d : Daemon) (j : Bytes) (v : ClientDetails)
    → is_empty d.sim_client_lookup ≡ true
    → OneSimulator (record d { sim_client_lookup = emplace j v d.sim_client_lookup })
with_simulator-OneSimulator d j v e h = ground (arith, length-emplace-le j v d.sim_client_lookup)

register_sim-Sound :
    (mode : SimulatorMode) (d : Daemon) (m : Nsbm)
    → d.cfg.simulator_mode ≡ mode
    → Sound d (register_sim mode d m).0
unfolding register_sim
register_sim-Sound per_node d m e = (with_sim d _ _, λ v h. cc)
register_sim-Sound system_wide d m e = elim (Bool-cases (is_empty d.sim_client_lookup)) [
  | inl fresh ↦
      rw (fresh, register_sim) (with_sim d _ _, λ v. with_simulator-OneSimulator d _ _ fresh)
  | inr taken ↦ rw (taken, register_sim) (Evolves-refl d, λ v. v)
]
register_sim-Sound (other_simulator_mode n) d m e = (Evolves-refl d, λ v. v)

handle_init-Sound : (d : Daemon) (m out : Nsbm) → Sound d (handle_init d m out).daemon
unfolding handle_init
handle_init-Sound d m out = by_intro (content_intro m.content)
  where
    by_originator : (g : Originator) → Sound d (answer_init d out (register g d m)).daemon
    by_originator app_client = (with_app d _ _, λ v. v)
    by_originator sim_client = register_sim-Sound d.cfg.simulator_mode d m refl
    by_originator daemon = (Evolves-refl d, λ v. v)
    by_originator (other_originator n) = (Evolves-refl d, λ v. v)

    by_intro : (i : Option IntroDetails) → Sound d (init_with i d m out).daemon
    by_intro none = (Evolves-refl d, λ v. v)
    by_intro (some i) = by_originator (get_og m)

-- A message that is forwarded leaves the daemon as it is.
sent-Sound :
    (d : Daemon) (o : Outcome (List Sent)) (m : Nsbm)
    → Ensures
        (λ (h : Handled). Sound d h.daemon)
        (o >>= λ sent.
          ok (record { daemon = d; outgoing = m; response_required = false; sent = sent }))
sent-Sound d (ok sent) m = (Evolves-refl d, λ v. v)
sent-Sound d (fault e) m = tt

handle_send-Sound :
    (codec : Codec) (w : ℤ → Bool) (d : Daemon) (m : Nsbm)
    → Ensures (λ h. Sound d h.daemon) (handle_send codec w d m response_template)
unfolding handle_send
handle_send-Sound codec w d m = by_mode d.cfg.system_mode
  where
    to_target :
        (o : Outcome (Option ClientDetails))
        → Ensures
            (λ (h : Handled). Sound d h.daemon)
            (o >>= λ target. send_to codec w d (set_op Operation.forward m) target)
    to_target (fault e) = tt
    to_target (ok none) = (Evolves-refl d, λ v. v)
    to_target (ok (some c)) =
        sent-Sound d (forward_to codec w c.ch_recv_fd (set_op Operation.forward m))
          (set_op Operation.forward m)

    by_mode :
        (mode : SystemMode)
        → Ensures (λ (h : Handled). Sound d h.daemon) (send_in codec w mode d m response_template)
    by_mode pull = Sound-same d _ d.rx_buffer
    by_mode push = to_target (send_target d.cfg.simulator_mode d m)
    by_mode (other_system_mode n) = (Evolves-refl d, λ v. v)

handle_post-Sound :
    (codec : Codec) (w : ℤ → Bool) (d : Daemon) (m : Nsbm)
    → Ensures (λ h. Sound d h.daemon) (handle_post codec w d m response_template)
unfolding handle_post
handle_post-Sound codec w d m = by_mode d.cfg.system_mode
  where
    to_fd :
        (known : Bool) (fd : ℤ)
        → is_minus_one fd ≡ known
        → Ensures
            (λ (h : Handled). Sound d h.daemon)
            (post_to codec w d (set_op Operation.forward m) fd)
    to_fd true fd e = rw (e, post_to) (Evolves-refl d, λ v. v)
    to_fd false fd e =
        rw (e, post_to)
          (sent-Sound d (forward_to codec w fd (set_op Operation.forward m))
            (set_op Operation.forward m))

    kept :
        (b : Bool)
        → Sound d
            (if b then record d { rx_buffer = d.rx_buffer ++ entry_of_message d.cfg m ∷ [] } else d)
    kept true = Sound-same d d.tx_buffer _
    kept false = (Evolves-refl d, λ v. v)

    by_mode :
        (mode : SystemMode)
        → Ensures (λ (h : Handled). Sound d h.daemon) (post_in codec w mode d m response_template)
    by_mode pull = kept (is_message (get_code m))
    by_mode push = to_fd _ (post_target d m) refl
    by_mode (other_system_mode n) = (Evolves-refl d, λ v. v)

stop-Sound : (d : Daemon) → Sound d (stop d)
unfolding stop
stop-Sound d = by_running d.running
  where
    by_running : (b : Bool) → Sound d (if b then record d { running = false } else d)
    by_running true = (
      record {
        same_cfg = refl;
        same_port = refl;
        stays_stopped = λ h. refl;
        keeps_apps = λ k c h. h;
        keeps_sims = λ k c h. h;
        keeps_fds = λ k fd h. h;
      },
      λ v. v,
    )
    by_running false = (Evolves-refl d, λ v. v)

pub dispatch-Sound :
    (codec : Codec) (w : ℤ → Bool) (op : Operation) (d : Daemon) (m : Nsbm)
    → Ensures (λ h. Sound d h.daemon) (dispatch codec w op d m)
unfolding dispatch
dispatch-Sound codec w Operation.init d m = handle_init-Sound d m response_template
dispatch-Sound codec w Operation.ping d m = (Evolves-refl d, λ v. v)
dispatch-Sound codec w Operation.send d m = handle_send-Sound codec w d m
dispatch-Sound codec w Operation.fetch d m = Sound-same d _ d.rx_buffer
dispatch-Sound codec w Operation.post d m = handle_post-Sound codec w d m
dispatch-Sound codec w Operation.receive d m = Sound-same d d.tx_buffer _
dispatch-Sound codec w Operation.exit d m = stop-Sound d
dispatch-Sound codec w Operation.forward d m = (Evolves-refl d, λ v. v)
dispatch-Sound codec w (Operation.other_operation n) d m = (Evolves-refl d, λ v. v)
