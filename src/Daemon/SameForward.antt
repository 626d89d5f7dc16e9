-- ===== src/Daemon/SameForward.antt =====
-- The handlers of cpp/src/nsb_daemon.cc on two daemons that have the same queues: those of
-- SEND and POST, and `dispatch`.
use nsb_beta.Base.{
  ◌≡◌, refl, sym, ap, ◌∙◌, inl, inr, Bool, true, false, Option, none, some, List, [], ◌∷◌, ◌++◌,
  Bool-cases, keep, keep-append, Bytes, str_eq, ℤ, is_minus_one,
}
use nsb_beta.Wire.{
  Codec, set_op, Nsbm, Operation, SystemMode, SimulatorMode, pull, push, other_system_mode,
  system_wide, per_node, other_simulator_mode, is_message, get_code, content_intro,
  response_template,
}
use nsb_beta.Config.{MessageEntry}
use nsb_beta.Daemon.State.{Daemon, ClientDetails, stop}
use nsb_beta.Outcome.{Outcome, ok, fault, ◌>>=◌}
use nsb_beta.Daemon.Handled.{handled, Sent}
use nsb_beta.Daemon.Init.{handle_init, handle_ping}
use nsb_beta.Daemon.Buffers.{entry_of_message, from_source, for_destination}
use nsb_beta.Daemon.Forward.{
  send_target, send_to, send_in, handle_send, post_target, post_to, post_in, handle_post,
  forward_to,
}
use nsb_beta.Daemon.Dispatch.{dispatch}
use nsb_beta.Daemon.Queues.{tx_queue, rx_queue}
use nsb_beta.Daemon.SameQueues.{with_buffers, names_queue}
use nsb_beta.Daemon.SameHandled.{Both, SameHandled, quiet, init_same, fetch_same, receive_same}

-- A daemon with other buffers, of the same queues.
module _ (d : Daemon) (tx rx : List MessageEntry)
    (txs : (s : Bytes) → tx_queue s d ≡ keep (from_source s) tx)
    (rxs : (s : Bytes) → rx_queue s d ≡ keep (for_destination s) rx) where
  abbrev other : Daemon
  other = with_buffers d tx rx

  still : (out : Nsbm) (r : Bool) → SameHandled (handled d out r) (handled other out r)
  still = quiet d tx rx txs rxs

  -- SEND and POST
  module _ (codec : Codec) (w : ℤ → Bool) where
    forwarded_same :
        (out : Nsbm) (o : Outcome (List Sent))
        → Both SameHandled
            (o >>= λ sent.
              ok (record { daemon = d; outgoing = out; response_required = false; sent = sent }))
            (o >>= λ sent.
              ok
                (record { daemon = other; outgoing = out; response_required = false; sent = sent }))
    forwarded_same out (ok sent) = (refl, refl, refl, (refl, txs, rxs))
    forwarded_same out (fault e) = refl

    send_to_same :
        (o : Outcome (Option ClientDetails)) (out : Nsbm)
        → Both SameHandled
            (o >>= λ c. send_to codec w d out c)
            (o >>= λ c. send_to codec w other out c)
    unfolding send_to
    send_to_same (fault e) out = refl
    send_to_same (ok none) out = still out false
    send_to_same (ok (some c)) out = forwarded_same out (forward_to codec w c.ch_recv_fd out)

    target_same :
        (mode : SimulatorMode) (m : Nsbm) → send_target mode other m ≡ send_target mode d m
    unfolding send_target
    target_same system_wide m = refl
    target_same per_node m = refl
    target_same (other_simulator_mode n) m = refl

    added_same :
        (field : MessageEntry → Bytes) (es es' more : List MessageEntry)
        → ((s : Bytes) → keep (λ e. str_eq (field e) s) es ≡ keep (λ e. str_eq (field e) s) es')
        → (s : Bytes)
        → keep (λ e. str_eq (field e) s) (es ++ more) ≡ keep (λ e. str_eq (field e) s) (es' ++ more)
    added_same field es es' more same s =
        keep-append (λ e. str_eq (field e) s) es more
        ∙ ap (λ q. q ++ keep (λ e. str_eq (field e) s) more) (same s)
        ∙ sym (keep-append (λ e. str_eq (field e) s) es' more)

    send_same :
        (mode : SystemMode) (m out : Nsbm)
        → Both SameHandled (send_in codec w mode d m out) (send_in codec w mode other m out)
    unfolding send_in
    send_same pull m out = (
      refl,
      refl,
      refl,
      (refl, added_same (λ e. e.source) d.tx_buffer tx (entry_of_message d.cfg m ∷ []) txs, rxs),
    )
    send_same push m out =
        rw (target_same d.cfg.simulator_mode m)
          (send_to_same (send_target d.cfg.simulator_mode d m) (set_op Operation.forward m))
    send_same (other_system_mode n) m out = still out false

    post_to_same :
        (fd : ℤ) (out : Nsbm)
        → Both SameHandled (post_to codec w d out fd) (post_to codec w other out fd)
    unfolding post_to
    post_to_same fd out = elim (Bool-cases (is_minus_one fd)) [
      | inl unknown ↦ rw unknown (still out false)
      | inr known ↦ rw known (forwarded_same out (forward_to codec w fd out))
    ]

    post_same :
        (mode : SystemMode) (m out : Nsbm)
        → Both SameHandled (post_in codec w mode d m out) (post_in codec w mode other m out)
    unfolding post_in post_target
    post_same pull m out = elim (Bool-cases (is_message (get_code m))) [
      | inl carried ↦ rw carried (
        refl,
        refl,
        refl,
        (
          refl,
          txs,
          added_same (λ e. e.destination) d.rx_buffer rx (entry_of_message d.cfg m ∷ []) rxs,
        ),
      )
      | inr empty ↦ rw empty (still out false)
    ]
    post_same push m out = post_to_same (post_target d m) (set_op Operation.forward m)
    post_same (other_system_mode n) m out = still out false

    pub dispatch_same :
        (op : Operation) (m : Nsbm)
        → names_queue op m ≡ true
        → Both SameHandled (dispatch codec w op d m) (dispatch codec w op other m)
    unfolding dispatch handle_init handle_ping handle_send handle_post stop
    dispatch_same Operation.init m named =
        init_same d tx rx txs rxs (content_intro m.content) m response_template
    dispatch_same Operation.ping m named = still _ true
    dispatch_same Operation.send m named = send_same d.cfg.system_mode m response_template
    dispatch_same Operation.fetch m named = fetch_same d tx rx txs rxs m response_template named
    dispatch_same Operation.post m named = post_same d.cfg.system_mode m response_template
    dispatch_same Operation.receive m named = receive_same d tx rx txs rxs m response_template named
    dispatch_same Operation.exit m named = elim (Bool-cases d.running) [
      | inl runs ↦ rw runs (refl, refl, refl, (refl, txs, rxs))
      | inr stands ↦ rw stands (refl, refl, refl, (refl, txs, rxs))
    ]
    dispatch_same Operation.forward m named = still _ false
    dispatch_same (Operation.other_operation n) m named = still _ false
