-- ===== src/Daemon/Conservation.antt =====
-- What each message puts into the buffers of cpp/src/nsb_daemon.cc and takes out of them.
use nsb_beta.Base.{
  ◌+◌, ◌≡◌, refl, sym, ap, subst, ◌≢◌, inl, inr, Bool, false, Option, none, some, List, [], ◌∷◌,
  arith, Bool-cases, keep, ℤ, is_minus_one,
}
use nsb_beta.Wire.{
  Operation, Nsbm, Codec, is_message, SystemMode, pull, push, other_system_mode, set_op, get_code,
  response_template,
}
use nsb_beta.Config.{MessageEntry}
use nsb_beta.Outcome.{Outcome, ok, fault, ◌>>=◌, Ensures, Ensures-ok, Ensures-map}
use nsb_beta.Daemon.State.{Daemon, ClientDetails, stop}
use nsb_beta.Daemon.Handled.{Handled, Sent}
use nsb_beta.Daemon.Init.{handle_init}
use nsb_beta.Daemon.Buffers.{entry_of_message, handle_fetch, handle_receive}
use nsb_beta.Daemon.Forward.{
  forward_to, send_target, send_to, send_in, handle_send, post_target, post_to, post_in,
  handle_post,
}
use nsb_beta.Daemon.Dispatch.{dispatch}
use nsb_beta.Daemon.Traffic.{
  sent_entries, posted_entries, fetched_entries, received_entries, nothing_sent, nothing_posted,
  count, count-append, count-fetch_from, count-receive_from,
}

sent_keeps :
    (d : Daemon) (m : Nsbm) (o : Outcome (List Sent))
    → Ensures
        (λ (h : Handled). h.daemon ≡ d)
        (o >>= λ sent.
          ok (record { daemon = d; outgoing = m; response_required = false; sent = sent }))
sent_keeps d m (ok sent) = refl
sent_keeps d m (fault e) = tt

buffers_of_init :
    (d : Daemon) (m out : Nsbm)
    → ((handle_init d m out).daemon.tx_buffer ≡ d.tx_buffer)
      × ((handle_init d m out).daemon.rx_buffer ≡ d.rx_buffer)
unfolding handle_init
buffers_of_init d m out = ground arith

module _ (q : MessageEntry → Bool) where
  -- What has come and what has gone, for each buffer.
  abbrev Conserves : SystemMode → Operation → Daemon → Nsbm → Daemon → Type 0
  Conserves mode op d m d' =
      (count q d'.tx_buffer + count q (fetched_entries op d m)
        ≡ count q d.tx_buffer + count q (sent_entries mode op d m))
      × (count q d'.rx_buffer + count q (received_entries op d m)
          ≡ count q d.rx_buffer + count q (posted_entries mode op d m))

  conserves :
      (mode : SystemMode) (op : Operation) (d : Daemon) (m : Nsbm) (d' : Daemon)
      (fetched received : List MessageEntry)
      → op ≢ Operation.send
      → op ≢ Operation.post
      → fetched_entries op d m ≡ fetched
      → received_entries op d m ≡ received
      → count q d'.tx_buffer + count q fetched ≡ count q d.tx_buffer
      → count q d'.rx_buffer + count q received ≡ count q d.rx_buffer
      → Conserves mode op d m d'
  unfolding keep
  conserves mode op d m d' fetched received n k hf hr ht hx = omega (
    arith,
    ap (count q) (nothing_sent mode op d m n),
    ap (count q) (nothing_posted mode op d m k),
    ap (count q) hf,
    ap (count q) hr,
  )

  kept-Conserves :
      (mode : SystemMode) (op : Operation) (d : Daemon) (m : Nsbm) (d' : Daemon)
      → op ≢ Operation.send
      → op ≢ Operation.post
      → fetched_entries op d m ≡ []
      → received_entries op d m ≡ []
      → (d'.tx_buffer ≡ d.tx_buffer) × (d'.rx_buffer ≡ d.rx_buffer)
      → Conserves mode op d m d'
  unfolding keep
  kept-Conserves mode op d m d' n k hf hr (ht, hx) =
      conserves mode op d m d' [] [] n k hf hr (omega (arith, ap (count q) ht))
        (omega (arith, ap (count q) hx))

  module _ (codec : Codec) (w : ℤ → Bool) where
    forward_keeps :
        (d : Daemon) (m : Nsbm) (o : Outcome (Option ClientDetails))
        → Ensures (λ (h : Handled). h.daemon ≡ d) (o >>= λ target. send_to codec w d m target)
    unfolding send_to
    forward_keeps d m (fault e) = tt
    forward_keeps d m (ok none) = refl
    forward_keeps d m (ok (some c)) = sent_keeps d m (forward_to codec w c.ch_recv_fd m)

    send_in-Conserves :
        (mode : SystemMode) (d : Daemon) (m : Nsbm)
        → Ensures
            (λ h. Conserves mode Operation.send d m h.daemon)
            (send_in codec w mode d m response_template)
    unfolding send_in keep
    send_in-Conserves pull d m =
        omega (arith, count-append q d.tx_buffer (entry_of_message d.cfg m ∷ []))
    send_in-Conserves push d m =
        Ensures-map (λ (h : Handled). h.daemon ≡ d)
          (λ h. Conserves push Operation.send d m h.daemon) _ (λ h same. rw same (omega arith))
          (forward_keeps d (set_op Operation.forward m) (send_target d.cfg.simulator_mode d m))
    send_in-Conserves (other_system_mode n) d m = omega arith

    post_to_keeps :
        (d : Daemon) (m : Nsbm) (fd : ℤ)
        → Ensures (λ (h : Handled). h.daemon ≡ d) (post_to codec w d m fd)
    unfolding post_to
    post_to_keeps d m fd = elim (Bool-cases (is_minus_one fd)) [
      | inl e ↦ rw (e, post_to) refl
      | inr e ↦ rw (e, post_to) (sent_keeps d m (forward_to codec w fd m))
    ]

    post_in-Conserves :
        (mode : SystemMode) (d : Daemon) (m : Nsbm)
        → Ensures
            (λ h. Conserves mode Operation.post d m h.daemon)
            (post_in codec w mode d m response_template)
    unfolding post_in keep
    post_in-Conserves pull d m = elim (Bool-cases (is_message (get_code m))) [
      | inl c ↦ rw c (omega (arith, count-append q d.rx_buffer (entry_of_message d.cfg m ∷ [])))
      | inr c ↦ rw c (omega arith)
    ]
    post_in-Conserves push d m =
        Ensures-map (λ (h : Handled). h.daemon ≡ d)
          (λ h. Conserves push Operation.post d m h.daemon) _ (λ h same. rw same (omega arith))
          (post_to_keeps d (set_op Operation.forward m) (post_target d m))
    post_in-Conserves (other_system_mode n) d m = omega arith

    dispatch-Ensures :
        (mode : SystemMode) (op : Operation) (d : Daemon) (m : Nsbm)
        → mode ≡ d.cfg.system_mode
        → Ensures (λ h. Conserves mode op d m h.daemon) (dispatch codec w op d m)
    unfolding dispatch keep
    dispatch-Ensures mode Operation.init d m e =
        kept-Conserves mode Operation.init d m (handle_init d m response_template).daemon (λ e. cc)
          (λ e. cc) refl refl (buffers_of_init d m response_template)
    dispatch-Ensures mode Operation.ping d m e =
        kept-Conserves mode Operation.ping d m d (λ e. cc) (λ e. cc) refl refl (refl, refl)
    dispatch-Ensures mode Operation.send d m e =
        subst
          (λ k.
            Ensures (λ h. Conserves k Operation.send d m h.daemon)
              (handle_send codec w d m response_template))
          (sym e) (send_in-Conserves d.cfg.system_mode d m)
    dispatch-Ensures mode Operation.fetch d m e =
        conserves mode Operation.fetch d m (handle_fetch d m response_template).daemon _ []
          (λ e. cc) (λ e. cc) refl refl (omega (arith, count-fetch_from q m.metadata d.tx_buffer))
          (omega arith)
    dispatch-Ensures mode Operation.post d m e =
        subst
          (λ k.
            Ensures (λ h. Conserves k Operation.post d m h.daemon)
              (handle_post codec w d m response_template))
          (sym e) (post_in-Conserves d.cfg.system_mode d m)
    dispatch-Ensures mode Operation.receive d m e =
        conserves mode Operation.receive d m (handle_receive d m response_template).daemon [] _
          (λ e. cc) (λ e. cc) refl refl (omega arith)
          (omega (arith, count-receive_from q m.metadata d.rx_buffer))
    dispatch-Ensures mode Operation.exit d m e =
        kept-Conserves mode Operation.exit d m (stop d) (λ e. cc) (λ e. cc) refl refl (ground arith)
    dispatch-Ensures mode Operation.forward d m e =
        kept-Conserves mode Operation.forward d m d (λ e. cc) (λ e. cc) refl refl (refl, refl)
    dispatch-Ensures mode (Operation.other_operation n) d m e =
        kept-Conserves mode (Operation.other_operation n) d m d (λ e. cc) (λ e. cc) refl refl
          (refl, refl)

    -- No message loses, invents or doubles a buffered entry: by any test of entries, what a buffer
    -- holds after a message that is handled, with the entries that a FETCH or a RECEIVE took out,
    -- is as many as what it held before, with the entry that a SEND or a POST brought in PULL
    -- mode.
    pub dispatch_conserves :
        (op : Operation) (d : Daemon) (m : Nsbm) (h : Handled)
        → dispatch codec w op d m ≡ ok h
        → (count q h.daemon.tx_buffer + count q (fetched_entries op d m)
            ≡ count q d.tx_buffer + count q (sent_entries d.cfg.system_mode op d m))
          × (count q h.daemon.rx_buffer + count q (received_entries op d m)
              ≡ count q d.rx_buffer + count q (posted_entries d.cfg.system_mode op d m))
    dispatch_conserves op d m h =
        Ensures-ok (λ (k : Handled). Conserves d.cfg.system_mode op d m k.daemon)
          (dispatch codec w op d m) (dispatch-Ensures d.cfg.system_mode op d m refl)
