-- ===== src/Daemon/Faults.antt =====
-- When a message ends the daemon (cpp/src/nsb_daemon.cc), and what a message is answered.
use nsb_beta.Base.{
  ℕ, ◌≡◌, refl, ◌≢◌, ◌⊎◌, inl, inr, Bool, true, false, none, some, [], ◌∷◌, ◌++◌, arith, Bytes, ℤ,
  pos, negsuc, find, emplace_present, find-emplace_keeps,
}
use nsb_beta.Outcome.{Outcome, ok, fault, begin_of_empty, out_of_range}
use nsb_beta.Daemon.Init.{handle_ping, handle_init}
use nsb_beta.Daemon.Buffers.{handle_receive, handle_fetch}
use nsb_beta.Wire.{
  Operation, Nsbm, Codec, IntroDetails, SystemMode, pull, push, other_system_mode, system_wide,
  per_node, app_client, content_intro, get_op, get_og, get_code, get_src_id, get_dest_id, set_op,
  success, response_template,
}
use nsb_beta.Daemon.State.{Daemon, ClientDetails, client_details, get_identifier, channel_key}
use nsb_beta.Daemon.Handled.{Handled, handled, valid_fd}
use nsb_beta.Daemon.Forward.{send_in, post_in, post_to, handle_send, handle_post}
use nsb_beta.Daemon.Dispatch.{dispatch, handle_message}
use nsb_beta.Daemon.Server.{Server, connection, admit}

-- A result that sends nothing to others.
abbrev pub IsQuiet : Outcome Handled → Type 0
IsQuiet m = (h : Handled) × (m ≡ ok h) × (h.sent ≡ [])

handle_send-IsQuiet :
    (codec : Codec) (w : ℤ → Bool) (d : Daemon) (m : Nsbm)
    → d.cfg.system_mode ≢ push
    → IsQuiet (handle_send codec w d m response_template)
unfolding handle_send
handle_send-IsQuiet codec w d m n = by_mode d.cfg.system_mode n
  where
    by_mode :
        (mode : SystemMode) → mode ≢ push → IsQuiet (send_in codec w mode d m response_template)
    by_mode pull n = (_, refl, refl)
    by_mode push n = absurd (n refl)
    by_mode (other_system_mode k) n = (_, refl, refl)

handle_post-IsQuiet :
    (codec : Codec) (w : ℤ → Bool) (d : Daemon) (m : Nsbm)
    → d.cfg.system_mode ≢ push
    → IsQuiet (handle_post codec w d m response_template)
unfolding handle_post
handle_post-IsQuiet codec w d m n = by_mode d.cfg.system_mode n
  where
    by_mode :
        (mode : SystemMode) → mode ≢ push → IsQuiet (post_in codec w mode d m response_template)
    by_mode pull n = (_, refl, refl)
    by_mode push n = absurd (n refl)
    by_mode (other_system_mode k) n = (_, refl, refl)

handle_init_quiet : (d : Daemon) (m out : Nsbm) → (handle_init d m out).sent ≡ []
unfolding handle_init
handle_init_quiet d m out = ground arith

post_to_valid :
    (codec : Codec) (w : ℤ → Bool) (d : Daemon) (m : Nsbm) (fd : ℤ)
    → valid_fd fd ≡ true
    → w fd ≡ true
    → post_to codec w d m fd
      ≡ ok (record {
        daemon = d;
        outgoing = m;
        response_required = false;
        sent = record { fd = fd; bytes = codec.serialize m } ∷ [];
      })
unfolding post_to
post_to_valid codec w d m (pos n) h k = ground arith
post_to_valid codec w d m (negsuc n) h k = cc

module _ (codec : Codec) (w : ℤ → Bool) where
  -- In a mode other than PUSH every message is handled, and nothing is sent to other clients.
  pub dispatch-IsQuiet :
      (op : Operation) (d : Daemon) (m : Nsbm)
      → d.cfg.system_mode ≢ push
      → IsQuiet (dispatch codec w op d m)
  unfolding dispatch handle_init handle_ping handle_fetch handle_receive
  dispatch-IsQuiet Operation.init d m n = (_, refl, handle_init_quiet d m response_template)
  dispatch-IsQuiet Operation.ping d m n = (_, refl, refl)
  dispatch-IsQuiet Operation.send d m n = handle_send-IsQuiet codec w d m n
  dispatch-IsQuiet Operation.fetch d m n = (_, refl, refl)
  dispatch-IsQuiet Operation.post d m n = handle_post-IsQuiet codec w d m n
  dispatch-IsQuiet Operation.receive d m n = (_, refl, refl)
  dispatch-IsQuiet Operation.exit d m n = (_, refl, refl)
  dispatch-IsQuiet Operation.forward d m n = (_, refl, refl)
  dispatch-IsQuiet (Operation.other_operation k) d m n = (_, refl, refl)

  -- In PUSH mode with per-node simulators a SEND ends the daemon when no simulator is registered
  -- under the source's name.
  pub send_without_simulator :
      (d : Daemon) (m out : Nsbm)
      → d.cfg.system_mode ≡ push
      → d.cfg.simulator_mode ≡ per_node
      → find (get_src_id m) d.sim_client_lookup ≡ none
      → handle_send codec w d m out ≡ fault out_of_range
  unfolding handle_send
  send_without_simulator d m out h k e = ground arith

  -- In PUSH mode with one simulator for the system a SEND ends the daemon when none is registered.
  pub send_without_any_simulator :
      (d : Daemon) (m out : Nsbm)
      → d.cfg.system_mode ≡ push
      → d.cfg.simulator_mode ≡ system_wide
      → d.sim_client_lookup ≡ []
      → handle_send codec w d m out ≡ fault begin_of_empty
  unfolding handle_send
  send_without_any_simulator d m out h k e = ground arith

  -- In PUSH mode with per-node simulators a SEND is forwarded at once, as it came but for the
  -- operation FORWARD, on the RECV channel of the source's own simulator, if that channel can be
  -- written; nothing is buffered, and the sender gets no response.
  pub send_forwards :
      (d : Daemon) (m out : Nsbm) (c : ClientDetails)
      → d.cfg.system_mode ≡ push
      → d.cfg.simulator_mode ≡ per_node
      → find (get_src_id m) d.sim_client_lookup ≡ some c
      → valid_fd c.ch_recv_fd ≡ true
      → w c.ch_recv_fd ≡ true
      → handle_send codec w d m out
        ≡ ok (record {
          daemon = d;
          outgoing = set_op Operation.forward m;
          response_required = false;
          sent =
              record { fd = c.ch_recv_fd; bytes = codec.serialize (set_op Operation.forward m) }
              ∷ [];
        })
  unfolding handle_send
  send_forwards d m out c h1 h2 h3 h4 h5 = ground arith

  -- In PUSH mode a POST is forwarded in the same way on the RECV channel of the application that is
  -- registered under its destination.
  pub post_forwards :
      (d : Daemon) (m out : Nsbm) (c : ClientDetails)
      → d.cfg.system_mode ≡ push
      → find (get_dest_id m) d.app_client_lookup ≡ some c
      → valid_fd c.ch_recv_fd ≡ true
      → w c.ch_recv_fd ≡ true
      → handle_post codec w d m out
        ≡ ok (record {
          daemon = d;
          outgoing = set_op Operation.forward m;
          response_required = false;
          sent =
              record { fd = c.ch_recv_fd; bytes = codec.serialize (set_op Operation.forward m) }
              ∷ [];
        })
  unfolding handle_post
  post_forwards d m out c h h1 h2 h3 =
      ground (arith, post_to_valid codec w d (set_op Operation.forward m) c.ch_recv_fd)

  -- In PUSH mode a POST to a destination under which no application is registered is dropped:
  -- nothing is sent and nothing changes.
  pub post_unregistered :
      (d : Daemon) (m out : Nsbm)
      → d.cfg.system_mode ≡ push
      → find (get_dest_id m) d.app_client_lookup ≡ none
      → handle_post codec w d m out ≡ ok (handled d (set_op Operation.forward m) false)
  unfolding handle_post
  post_unregistered d m out h e = ground arith

  -- A message with an operation that the daemon does not handle changes nothing and is not
  -- answered.
  pub unknown_operation :
      (d : Daemon) (fd : ℤ) (bytes : Bytes) (n : ℕ)
      → (get_op (codec.parse bytes) ≡ Operation.other_operation n)
        ⊎ (get_op (codec.parse bytes) ≡ Operation.forward)
      → handle_message codec w d fd bytes ≡ ok (d, [])
  unfolding handle_message dispatch
  unknown_operation d fd bytes n (inl e) = rw e
  unknown_operation d fd bytes n (inr e) = rw e

-- An INIT of an application under a name that is taken is answered by SUCCESS, and leaves the
-- daemon as it is: the channels of the first registration stay in use.
reinit_keeps_old :
    (d : Daemon) (m out : Nsbm) (i : IntroDetails) (old : ClientDetails)
    → content_intro m.content ≡ some i
    → get_og m ≡ app_client
    → find (get_identifier m) d.app_client_lookup ≡ some old
    → ((handle_init d m out).daemon ≡ d)
      × ((handle_init d m out).response_required ≡ true)
      × (get_code (handle_init d m out).outgoing ≡ success)
unfolding handle_init
reinit_keeps_old d m out i old h g e = ground (
  arith,
  emplace_present (get_identifier m) (client_details m d.fd_lookup) old d.app_client_lookup e,
)

-- A connection from an address and a port that were observed before gets its descriptor served, but the
-- table keeps the old descriptor for them.
reconnect_keeps_old :
    (s : Server) (ip : Bytes) (port old fd : ℤ)
    → find (channel_key ip port) s.daemon.fd_lookup ≡ some old
    → let s' = (admit (connection ip port fd) s).0 in
      (find (channel_key ip port) s'.daemon.fd_lookup ≡ some old)
      × (s'.channel_fds ≡ s.channel_fds ++ fd ∷ [])
unfolding admit
reconnect_keeps_old s ip port old fd e = (
  find-emplace_keeps (channel_key ip port) (channel_key ip port) fd old s.daemon.fd_lookup e,
  refl,
)
