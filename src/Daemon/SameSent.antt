-- ===== src/Daemon/SameSent.antt =====
-- Requests to two daemons of cpp/src/nsb_daemon.cc that have the same queues.
use nsb_beta.Base.{◌≡◌, refl, sym, subst, Bool, true, List, [], ◌∷◌, ◌++◌, if◌then◌else◌, Bytes, ℤ}
use nsb_beta.Wire.{Codec, get_op, Nsbm, Operation}
use nsb_beta.Daemon.State.{Daemon}
use nsb_beta.Outcome.{Outcome, ok, fault, ◌>>=◌}
use nsb_beta.Daemon.Handled.{Handled, Sent}
use nsb_beta.Daemon.Dispatch.{dispatch, handle_message}
use nsb_beta.Daemon.InOrder.{behind, handle_each}
use nsb_beta.Daemon.SameQueues.{SameQueues, names_queue}
use nsb_beta.Daemon.SameForward.{dispatch_same}
use nsb_beta.Daemon.SameHandled.{Both, SameHandled}

module _ (codec : Codec) where
  -- Requests that name what they ask for.
  abbrev pub AllNamed : List (ℤ × Bytes) → Type 0
  AllNamed [] = Unit
  AllNamed ((fd, bytes) ∷ rest) =
      (names_queue (get_op (codec.parse bytes)) (codec.parse bytes) ≡ true) × AllNamed rest

module _ (codec : Codec) (w : ℤ → Bool) where
  dispatch-SameQueues :
      (op : Operation) (m : Nsbm) (d d' : Daemon)
      → SameQueues d d'
      → names_queue op m ≡ true
      → Both SameHandled (dispatch codec w op d m) (dispatch codec w op d' m)
  dispatch-SameQueues op m d d' (e, txs, rxs) named =
      subst (λ x. Both SameHandled (dispatch codec w op d m) (dispatch codec w op x m)) (sym e)
        (dispatch_same d d'.tx_buffer d'.rx_buffer txs rxs codec w op m named)

  -- The daemons after some requests are related, and what was sent is equal.
  abbrev pub SameSent : Daemon × List Sent → Daemon × List Sent → Type 0
  SameSent (d, sent) (d', sent') = SameQueues d d' × (sent ≡ sent')

  -- What `handle_message` makes of the handler's result.
  abbrev pub reply : ℤ → Handled → Outcome (Daemon × List Sent)
  reply fd h = ok (
    h.daemon,
    h.sent
        ++ (if h.response_required
            then record { fd = fd; bytes = codec.serialize h.outgoing } ∷ []
            else []),
  )

  responded :
      (fd : ℤ) (o o' : Outcome Handled)
      → Both SameHandled o o'
      → Both SameSent (o >>= reply fd) (o' >>= reply fd)
  responded fd (ok h) (ok h') (out, required, sent, same) = (
    same,
    λ i.
        sent i
        ++ (if required i then record { fd = fd; bytes = codec.serialize (out i) } ∷ [] else []),
  )
  responded fd (ok h) (fault e) k = elim k [ ]
  responded fd (fault e) (ok h) k = elim k [ ]
  responded fd (fault e) (fault e') k = k

  in_turn :
      (o o' : Outcome (Daemon × List Sent)) (f : Daemon → Outcome (Daemon × List Sent))
      → Both SameSent o o'
      → ((d d' : Daemon) → SameQueues d d' → Both SameSent (f d) (f d'))
      → Both SameSent (o >>= λ (d, sent). behind sent (f d)) (o' >>= λ (d, sent). behind sent (f d))
  in_turn (ok (d, sent)) (ok (d', sent')) f (same, e) k = after (f d) (f d') (k d d' same)
    where
      after :
          (p p' : Outcome (Daemon × List Sent))
          → Both SameSent p p'
          → Both SameSent (behind sent p) (behind sent' p')
      after (ok (d1, more)) (ok (d1', more')) (same1, e1) = (same1, λ i. e i ++ e1 i)
      after (ok x) (fault y) h = elim h [ ]
      after (fault x) (ok y) h = elim h [ ]
      after (fault x) (fault y) h = h
  in_turn (ok x) (fault y) f h k = elim h [ ]
  in_turn (fault x) (ok y) f h k = elim h [ ]
  in_turn (fault x) (fault y) f h k = h

  -- Two daemons that differ only in the order of buffered entries of different sources, or of
  -- different destinations, answer requests that name the queue that they read alike: both end in
  -- the same fault, or the same messages are sent, in the same order, and the daemons again differ
  -- only so.
  pub handle_each-SameQueues :
      (requests : List (ℤ × Bytes)) (d d' : Daemon)
      → SameQueues d d'
      → AllNamed codec requests
      → Both SameSent (handle_each codec w requests d) (handle_each codec w requests d')
  unfolding handle_each handle_message
  handle_each-SameQueues [] d d' same named = (same, refl)
  handle_each-SameQueues ((fd, bytes) ∷ rest) d d' same (named, more) =
      let m = codec.parse bytes in
      in_turn (handle_message codec w d fd bytes) (handle_message codec w d' fd bytes)
        (handle_each codec w rest)
        (responded fd (dispatch codec w (get_op m) d m) (dispatch codec w (get_op m) d' m)
          (dispatch-SameQueues (get_op m) m d d' same named))
        (λ x x' s. handle_each-SameQueues rest x x' s more)
