-- ===== src/Daemon/Queues.antt =====
-- The buffers of cpp/src/nsb_daemon.cc as queues, one for each source or destination.
use nsb_beta.Base.{
  ◌≡◌, refl, sym, ap, subst, ◌≢◌, Bool, true, false, some, List, [], ◌∷◌, arith, length, keep,
  Bytes, str_eq, str_eq_iff,
}
use nsb_beta.Daemon.Answers.{Answers, entry_response-Answers}
use nsb_beta.Wire.{Nsbm, Metadata, Operation, no_message, set_manifest, daemon}
use nsb_beta.Config.{MessageEntry, blank_entry, exists}
use nsb_beta.Daemon.State.{Daemon}
use nsb_beta.Daemon.Handled.{handled}
use nsb_beta.Daemon.Buffers.{
  take_first, from_source, for_destination, entry_response, fetch_from, handle_fetch,
}

-- The abstract view: what waits for one source to be fetched, and for one destination to be
-- received, the oldest first.
abbrev pub tx_queue : Bytes → Daemon → List MessageEntry
tx_queue s d = keep (from_source s) d.tx_buffer

abbrev pub rx_queue : Bytes → Daemon → List MessageEntry
rx_queue s d = keep (for_destination s) d.rx_buffer

pub take_first_found :
    (p : MessageEntry → Bool) (es : List MessageEntry) (e : MessageEntry) (rest : List MessageEntry)
    → keep p es ≡ e ∷ rest
    → ((take_first p es).0 ≡ e) × (keep p (take_first p es).1 ≡ rest)
unfolding take_first keep
take_first_found p [] e rest h = cc
take_first_found p (x ∷ es) e rest h = ground (arith, take_first_found p es e rest)

pub take_first_missing :
    (p : MessageEntry → Bool) (es : List MessageEntry)
    → keep p es ≡ []
    → take_first p es ≡ (blank_entry, es)
unfolding take_first keep
take_first_missing p [] h = refl
take_first_missing p (x ∷ es) h = ground (arith, take_first_missing p es)

pub keep-take_first_other :
    (p q : MessageEntry → Bool)
    → ((e : MessageEntry) → p e ≡ true → q e ≡ false)
    → (es : List MessageEntry) → keep q (take_first p es).1 ≡ keep q es
unfolding take_first keep
keep-take_first_other p q apart [] = refl
keep-take_first_other p q apart (x ∷ es) =
    ground (arith, apart x, keep-take_first_other p q apart es)

-- An entry of one source is not of another.
pub sources_apart : (s t : Bytes) → t ≢ s → (x : Bytes) → str_eq x s ≡ true → str_eq x t ≡ false
sources_apart s t h x e = ground (arith, str_eq_iff x s, str_eq_iff x t)

-- What a FETCH that names a source does, with the response not read.
fetch_oldest :
    (d : Daemon) (m out : Nsbm) (md : Metadata) (s : Bytes) (e : MessageEntry)
    (rest : List MessageEntry) (t : Bytes)
    → m.metadata ≡ some md
    → md.src_id ≡ some s
    → tx_queue s d ≡ e ∷ rest
    → t ≢ s
    → let h = handle_fetch d m out in
      (h.outgoing ≡ entry_response Operation.fetch d.cfg e out)
      × (h.response_required ≡ true)
      × (tx_queue s h.daemon ≡ rest)
      × (tx_queue t h.daemon ≡ tx_queue t d)
      × (h.daemon.rx_buffer ≡ d.rx_buffer)
unfolding handle_fetch
fetch_oldest d m out md s e rest t hm hs hq ne =
    let (found, left) = take_first_found (from_source s) d.tx_buffer e rest hq in
    rw (hm, handle_fetch)
      (rw (hs, fetch_from)
        (
          rw found,
          refl,
          left,
          keep-take_first_other (from_source s) (from_source t) (λ x. sources_apart s t ne x.source)
              d.tx_buffer,
          refl,
        ))

-- A FETCH that names a source whose queue is not empty takes the oldest entry out of it, and changes
-- no other source's queue nor the reception buffer. The response is a FETCH of the daemon. If the
-- entry has a source, a destination and a payload (or, where a database is used, a key), the
-- response carries these and the size, with the code MESSAGE; if one of the three is empty, its code
-- is NO_MESSAGE and the entry is gone.
pub fetch_serves_oldest :
    (d : Daemon) (m out : Nsbm) (md : Metadata) (s : Bytes) (e : MessageEntry)
    (rest : List MessageEntry) (t : Bytes)
    → m.metadata ≡ some md
    → md.src_id ≡ some s
    → tx_queue s d ≡ e ∷ rest
    → t ≢ s
    → let h = handle_fetch d m out in
      Answers Operation.fetch d.cfg e h.outgoing
      × (h.response_required ≡ true)
      × (tx_queue s h.daemon ≡ rest)
      × (tx_queue t h.daemon ≡ tx_queue t d)
      × (h.daemon.rx_buffer ≡ d.rx_buffer)
fetch_serves_oldest d m out md s e rest t hm hs hq ne =
    let (answer, required, left, others, buffer) = fetch_oldest d m out md s e rest t hm hs hq ne in
    (
      subst (Answers Operation.fetch d.cfg e) (sym answer)
          (entry_response-Answers Operation.fetch d.cfg e out),
      required,
      left,
      others,
      buffer,
    )

-- A FETCH that names a source with an empty queue is answered by NO_MESSAGE and changes nothing.
pub fetch_finds_nothing :
    (d : Daemon) (m out : Nsbm) (md : Metadata) (s : Bytes)
    → m.metadata ≡ some md
    → md.src_id ≡ some s
    → tx_queue s d ≡ []
    → handle_fetch d m out ≡ handled d (set_manifest Operation.fetch daemon no_message out) true
unfolding handle_fetch exists
fetch_finds_nothing d m out md s hm hs hq =
    rw (hm, handle_fetch)
      (rw (hs, fetch_from) (rw (take_first_missing (from_source s) d.tx_buffer hq)))

-- An entry with an empty source, destination or payload is lost when its turn comes: a FETCH takes
-- it out of its queue, and answers NO_MESSAGE.
fetch_drops_incomplete :
    (d : Daemon) (m out : Nsbm) (md : Metadata) (s : Bytes) (e : MessageEntry)
    (rest : List MessageEntry)
    → m.metadata ≡ some md
    → md.src_id ≡ some s
    → tx_queue s d ≡ e ∷ rest
    → exists e ≡ false
    → ((handle_fetch d m out).outgoing ≡ set_manifest Operation.fetch daemon no_message out)
      × (tx_queue s (handle_fetch d m out).daemon ≡ rest)
unfolding entry_response
fetch_drops_incomplete d m out md s e rest hm hs hq gone =
    let (answer, _, left, _, _) = fetch_oldest d m out md s e rest (0 ∷ s) hm hs hq (longer s) in
    (rw (answer, entry_response) (rw gone), left)
  where
    longer : (s : Bytes) → 0 ∷ s ≢ s
    longer s h = absurd (omega (arith, ap length h))
