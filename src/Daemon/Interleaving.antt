-- ===== src/Daemon/Interleaving.antt =====
-- SENDs and POSTs of several clients that reach the daemon of cpp/src/nsb_daemon.cc in one order
-- or in another, and a daemon up to the order of what its buffers hold of different clients.
use mathlib.Core.Quot
use mathlib.Core.Quot.{Quot, Quot-set}
use nsb_beta.Base.{
  ◌≡◌, refl, sym, ap, ◌∙◌, inl, inr, Bool, true, false, List, [], ◌∷◌, ◌++◌, if◌then◌else◌,
  Bool-cases, keep, keep-append, Bytes, ℤ,
}
use nsb_beta.Wire.{
  push, other_system_mode, get_code, is_message, Nsbm, Operation, Codec, get_op, SystemMode, pull,
  response_template,
}
use nsb_beta.Config.{Config, MessageEntry}
use nsb_beta.Daemon.State.{Daemon}
use nsb_beta.Outcome.{Outcome, ok, fault, ◌>>=◌}
use nsb_beta.Daemon.Handled.{Sent}
use nsb_beta.Daemon.Buffers.{entry_of_message, from_source, for_destination}
use nsb_beta.Daemon.InOrder.{handle_each, behind}
use nsb_beta.Daemon.Forward.{send_in, handle_send, post_in, handle_post}
use nsb_beta.Daemon.Dispatch.{dispatch, handle_message}
use mathlib.Core.List.{append_assoc, append-nil}
use nsb_beta.Daemon.SameQueues.{with_buffers, SameQueues}
use nsb_beta.Daemon.SameHandled.{Both}
use nsb_beta.Daemon.SameSent.{reply, AllNamed, SameSent, handle_each-SameQueues}

-- The daemon as clients see it that name the queue that they read.
abbrev pub Observable : Type 0
Observable = Quot SameQueues

abbrev pub observable : Daemon → Observable
observable = Quot.mk

-- The entries that a message brings to the buffers in PULL mode.
abbrev sent_entry : Operation → Config → Nsbm → List MessageEntry
sent_entry Operation.send c m = entry_of_message c m ∷ []
sent_entry _ c m = []

abbrev posted_entry : Operation → Config → Nsbm → List MessageEntry
posted_entry Operation.post c m = if is_message (get_code m) then entry_of_message c m ∷ [] else []
posted_entry _ c m = []

abbrev is_put : Operation → Bool
is_put Operation.send = true
is_put Operation.post = true
is_put _ = false

outcome_set : IsSet (Outcome (List Sent))
outcome_set = hlevel

module _ (codec : Codec) where
  -- Requests that are SENDs and POSTs only, and what they bring, in their order.
  abbrev pub AllPuts : List (ℤ × Bytes) → Type 0
  AllPuts [] = Unit
  AllPuts ((fd, bytes) ∷ rest) = (is_put (get_op (codec.parse bytes)) ≡ true) × AllPuts rest

  abbrev pub sent_entries : Config → List (ℤ × Bytes) → List MessageEntry
  sent_entries c [] = []
  sent_entries c ((fd, bytes) ∷ rest) =
      sent_entry (get_op (codec.parse bytes)) c (codec.parse bytes) ++ sent_entries c rest

  abbrev pub posted_entries : Config → List (ℤ × Bytes) → List MessageEntry
  posted_entries c [] = []
  posted_entries c ((fd, bytes) ∷ rest) =
      posted_entry (get_op (codec.parse bytes)) c (codec.parse bytes) ++ posted_entries c rest

  module _ (w : ℤ → Bool) where
    -- What is sent in answer to requests.
    abbrev pub answers : List (ℤ × Bytes) → Daemon → Outcome (List Sent)
    answers requests d = handle_each codec w requests d >>= λ (d', sent). ok sent

    answers_same :
        (o o' : Outcome (Daemon × List Sent))
        → Both (SameSent codec w) o o'
        → (o >>= λ (d, sent). ok sent) ≡ (o' >>= λ (d, sent). ok sent)
    answers_same (ok (d, sent)) (ok (d', sent')) (same, e) = ap ok e
    answers_same (ok r) (fault f) h = elim h [ ]
    answers_same (fault e) (ok r) h = elim h [ ]
    answers_same (fault e) (fault f) h = ap fault h

    -- The answers of an observable daemon.
    observable_answers :
        (requests : List (ℤ × Bytes)) → AllNamed codec requests → Observable → Outcome (List Sent)
    observable_answers requests named = Quot.lift outcome_set (answers requests) λ d d' same.
        answers_same (handle_each codec w requests d) (handle_each codec w requests d')
          (handle_each-SameQueues codec w requests d d' same named)

    -- What a daemon holds after a message, and that nothing is sent.
    abbrev holding : Daemon → List MessageEntry → List MessageEntry → Outcome (Daemon × List Sent)
    holding d sent posted = ok (with_buffers d (d.tx_buffer ++ sent) (d.rx_buffer ++ posted), [])

    after_send :
        (mode : SystemMode) (d : Daemon) (fd : ℤ) (m : Nsbm)
        → mode ≡ pull
        → (send_in codec w mode d m response_template >>= reply codec w fd)
          ≡ holding d (entry_of_message d.cfg m ∷ []) []
    unfolding send_in
    after_send pull d fd m h =
        ap (λ rx. ok (with_buffers d (d.tx_buffer ++ entry_of_message d.cfg m ∷ []) rx, []))
          (sym (append-nil d.rx_buffer))
    after_send push d fd m h = cc
    after_send (other_system_mode n) d fd m h = cc

    after_post :
        (mode : SystemMode) (d : Daemon) (fd : ℤ) (m : Nsbm)
        → mode ≡ pull
        → (post_in codec w mode d m response_template >>= reply codec w fd)
          ≡ holding d [] (posted_entry Operation.post d.cfg m)
    unfolding post_in
    after_post pull d fd m h = elim (Bool-cases (is_message (get_code m))) [
      | inl carried ↦ rw (carried, append-nil d.tx_buffer)
      | inr empty ↦ rw (empty, append-nil d.tx_buffer, append-nil d.rx_buffer)
    ]
    after_post push d fd m h = cc
    after_post (other_system_mode n) d fd m h = cc

    after_put :
        (op : Operation) (d : Daemon) (fd : ℤ) (m : Nsbm)
        → d.cfg.system_mode ≡ pull
        → is_put op ≡ true
        → (dispatch codec w op d m >>= reply codec w fd)
          ≡ holding d (sent_entry op d.cfg m) (posted_entry op d.cfg m)
    unfolding dispatch handle_send handle_post
    after_put Operation.send d fd m h put = after_send d.cfg.system_mode d fd m h
    after_put Operation.post d fd m h put = after_post d.cfg.system_mode d fd m h
    after_put Operation.init d fd m h put = cc
    after_put Operation.ping d fd m h put = cc
    after_put Operation.fetch d fd m h put = cc
    after_put Operation.receive d fd m h put = cc
    after_put Operation.forward d fd m h put = cc
    after_put Operation.exit d fd m h put = cc
    after_put (Operation.other_operation n) d fd m h put = cc

    handle_each_puts :
        (requests : List (ℤ × Bytes)) (d : Daemon)
        → d.cfg.system_mode ≡ pull
        → AllPuts requests
        → handle_each codec w requests d
          ≡ holding d (sent_entries d.cfg requests) (posted_entries d.cfg requests)
    unfolding handle_each handle_message
    handle_each_puts [] d h puts =
        sym (λ i. ok (with_buffers d (append-nil d.tx_buffer i) (append-nil d.rx_buffer i), []))
    handle_each_puts ((fd, bytes) ∷ rest) d h (put, puts) =
        let m = codec.parse bytes in
        let sent = sent_entry (get_op m) d.cfg m in
        let posted = posted_entry (get_op m) d.cfg m in
        let d1 = with_buffers d (d.tx_buffer ++ sent) (d.rx_buffer ++ posted) in
        ap (λ o. o >>= λ (x, s). behind s (handle_each codec w rest x))
          (after_put (get_op m) d fd m h put)
        ∙ ap (behind []) (handle_each_puts rest d1 h puts)
        ∙ λ i. ok (
          with_buffers d (append_assoc d.tx_buffer sent (sent_entries d.cfg rest) i)
              (append_assoc d.rx_buffer posted (posted_entries d.cfg rest) i),
          [],
        )

    added_same :
        (p : MessageEntry → Bool) (es more more' : List MessageEntry)
        → keep p more ≡ keep p more'
        → keep p (es ++ more) ≡ keep p (es ++ more')
    added_same p es more more' e =
        keep-append p es more ∙ ap (λ q. keep p es ++ q) e ∙ sym (keep-append p es more')

    -- SENDs and POSTs to a daemon in PULL mode may be interleaved in any way: two sequences of them
    -- that bring the same entries of each source, and the same for each destination, in the same
    -- order lead to the same observable daemon and send nothing, and requests that name the queue
    -- that they read get the same answers after both.
    pub interleavings_agree :
        (one other more : List (ℤ × Bytes)) (d : Daemon)
        → d.cfg.system_mode ≡ pull
        → AllPuts one
        → AllPuts other
        → AllNamed codec more
        → ((s : Bytes)
            → keep (from_source s) (sent_entries d.cfg one)
              ≡ keep (from_source s) (sent_entries d.cfg other))
        → ((s : Bytes)
            → keep (for_destination s) (posted_entries d.cfg one)
              ≡ keep (for_destination s) (posted_entries d.cfg other))
        → (d1 : Daemon) × (d2 : Daemon) × (handle_each codec w one d ≡ ok (d1, []))
          × (handle_each codec w other d ≡ ok (d2, []))
          × (observable d1 ≡ observable d2)
          × (answers more d1 ≡ answers more d2)
    unfolding handle_each observable_answers
    interleavings_agree one other more d h puts puts' named txs rxs =
        let sent = sent_entries d.cfg one in
        let sent' = sent_entries d.cfg other in
        let posted = posted_entries d.cfg one in
        let posted' = posted_entries d.cfg other in
        let same : observable (with_buffers d (d.tx_buffer ++ sent) (d.rx_buffer ++ posted))
            ≡ observable (with_buffers d (d.tx_buffer ++ sent') (d.rx_buffer ++ posted')) =
          Quot.sound (
            refl,
            λ s. added_same (from_source s) d.tx_buffer sent sent' (txs s),
            λ s. added_same (for_destination s) d.rx_buffer posted posted' (rxs s),
          ) in
        (
          _,
          _,
          handle_each_puts one d h puts,
          handle_each_puts other d h puts',
          same,
          ap (observable_answers more named) same,
        )
