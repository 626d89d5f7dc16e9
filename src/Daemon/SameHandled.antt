-- ===== src/Daemon/SameHandled.antt =====
-- The handlers of cpp/src/nsb_daemon.cc on two daemons that have the same queues: what is the
-- same of their results, and the handlers of INIT, FETCH and RECEIVE.
use nsb_beta.Base.{
  ◌≡◌, refl, ap, ◌∙◌, inl, inr, Bool, true, false, Option, none, some, List, arith, Bool-cases,
  Option-cases, is_empty, keep, Bytes,
}
use nsb_beta.Wire.{
  Nsbm, Operation, Originator, SimulatorMode, IntroDetails, system_wide, per_node,
  other_simulator_mode, app_client, sim_client, other_originator, daemon, get_og,
}
use nsb_beta.Config.{MessageEntry}
use nsb_beta.Daemon.State.{Daemon}
use nsb_beta.Outcome.{Outcome, ok, fault}
use nsb_beta.Daemon.Handled.{Handled, handled}
use nsb_beta.Daemon.Init.{register_sim, register, answer_init, init_with}
use nsb_beta.Daemon.Buffers.{
  from_source, for_destination, entry_response, fetch_from, receive_from, handle_fetch,
  handle_receive,
}
use nsb_beta.Daemon.Queues.{tx_queue, rx_queue}
use nsb_beta.Daemon.SameQueues.{with_buffers, SameQueues, names, take_first_same}

-- Both fault, and in the same way, or both return, with related results.
abbrev pub Both {ℓ} : {A : Type ℓ} → (A → A → Type 0) → Outcome A → Outcome A → Type 0
Both R (ok a) (ok b) = R a b
Both R (fault e) (fault f) = e ≡ f
Both R _ _ = ⊥

abbrev pub SameHandled : Handled → Handled → Type 0
SameHandled h h' =
    (h.outgoing ≡ h'.outgoing)
    × (h.response_required ≡ h'.response_required)
    × (h.sent ≡ h'.sent)
    × SameQueues h.daemon h'.daemon

-- A daemon with other buffers, of the same queues.
module _ (d : Daemon) (tx rx : List MessageEntry)
    (txs : (s : Bytes) → tx_queue s d ≡ keep (from_source s) tx)
    (rxs : (s : Bytes) → rx_queue s d ≡ keep (for_destination s) rx) where
  abbrev pub twin : Daemon
  twin = with_buffers d tx rx

  pub quiet : (out : Nsbm) (r : Bool) → SameHandled (handled d out r) (handled twin out r)
  quiet out r = (refl, refl, refl, (refl, txs, rxs))

  -- INIT
  answer_same :
      (d1 : Daemon) (done : Bool) (out : Nsbm)
      → d1.tx_buffer ≡ d.tx_buffer
      → d1.rx_buffer ≡ d.rx_buffer
      → SameHandled
          (answer_init d out (some (d1, done)))
          (answer_init twin out (some (with_buffers d1 tx rx, done)))
  unfolding answer_init
  answer_same d1 done out e f = (
    refl,
    refl,
    refl,
    (refl, λ s. ap (keep (from_source s)) e ∙ txs s, λ s. ap (keep (for_destination s)) f ∙ rxs s),
  )

  register_sim_same :
      (mode : SimulatorMode) (m out : Nsbm)
      → SameHandled
          (answer_init d out (some (register_sim mode d m)))
          (answer_init twin out (some (register_sim mode twin m)))
  unfolding register_sim
  register_sim_same system_wide m out = elim (Bool-cases (is_empty d.sim_client_lookup)) [
    | inl first ↦ rw first (answer_same _ true out refl refl)
    | inr later ↦ rw later (answer_same _ false out refl refl)
  ]
  register_sim_same per_node m out = answer_same _ true out refl refl
  register_sim_same (other_simulator_mode n) m out = answer_same _ false out refl refl

  register_same :
      (og : Originator) (m out : Nsbm)
      → SameHandled
          (answer_init d out (register og d m))
          (answer_init twin out (register og twin m))
  unfolding register answer_init
  register_same app_client m out = answer_same _ true out refl refl
  register_same sim_client m out = register_sim_same d.cfg.simulator_mode m out
  register_same daemon m out = quiet out false
  register_same (other_originator n) m out = quiet out false

  pub init_same :
      (i : Option IntroDetails) (m out : Nsbm)
      → SameHandled (init_with i d m out) (init_with i twin m out)
  unfolding init_with
  init_same none m out = quiet out false
  init_same (some i) m out = register_same (get_og m) m out

  -- FETCH and RECEIVE
  pub fetch_same :
      (m out : Nsbm)
      → names m.metadata (λ md. md.src_id) ≡ true
      → SameHandled (handle_fetch d m out) (handle_fetch twin m out)
  unfolding handle_fetch
  fetch_same m out named = elim (Option-cases m.metadata) [
    | inl e ↦ rw (e, fetch_from) (refl, refl, refl, (refl, txs, rxs))
    | inr (md, e) ↦ elim (Option-cases md.src_id) [
      | inl f ↦ absurd (ground (arith, e, f, named))
      | inr (s, f) ↦
          rw (e, fetch_from)
            (rw (f, fetch_from)
              (let (found, left) = take_first_same (λ x. x.source) s d.tx_buffer tx txs in
                (
                  ap (λ x. entry_response Operation.fetch d.cfg x out) found,
                  refl,
                  refl,
                  (refl, left, rxs),
                )))
    ]
  ]

  pub receive_same :
      (m out : Nsbm)
      → names m.metadata (λ md. md.dest_id) ≡ true
      → SameHandled (handle_receive d m out) (handle_receive twin m out)
  unfolding handle_receive
  receive_same m out named = elim (Option-cases m.metadata) [
    | inl e ↦ rw (e, receive_from) (refl, refl, refl, (refl, txs, rxs))
    | inr (md, e) ↦ elim (Option-cases md.dest_id) [
      | inl f ↦ absurd (ground (arith, e, f, named))
      | inr (s, f) ↦
          rw (e, receive_from)
            (rw (f, receive_from)
              (let (found, left) = take_first_same (λ x. x.destination) s d.rx_buffer rx rxs in
                (
                  ap (λ x. entry_response Operation.receive d.cfg x out) found,
                  refl,
                  refl,
                  (refl, txs, left),
                )))
    ]
  ]
