-- ===== src/Daemon/Traffic.antt =====
-- The entries that each message brings to the buffers of cpp/src/nsb_daemon.cc and takes out of
-- them, counted.
use nsb_beta.Base.{
  ℕ, ◌+◌, ◌≡◌, refl, ◌≢◌, inl, inr, Bool, Option, none, some, List, [], ◌∷◌, ◌++◌, arith,
  if◌then◌else◌, Option-cases, length, take, keep, length-append, keep-append, Bytes,
}
use nsb_beta.Wire.{Operation, Nsbm, Metadata, is_message, SystemMode, pull, get_code}
use nsb_beta.Config.{MessageEntry}
use nsb_beta.Daemon.State.{Daemon}
use nsb_beta.Daemon.Buffers.{
  entry_of_message, take_first, pop_front, from_source, for_destination, fetch_from, receive_from,
}

-- What a message adds to the transmission buffer, and what a FETCH takes from it: the first entry
-- that the request asks for, if there is one.
abbrev pub sent_entries : SystemMode → Operation → Daemon → Nsbm → List MessageEntry
sent_entries pull Operation.send d m = entry_of_message d.cfg m ∷ []
sent_entries _ _ d m = []

abbrev pub posted_entries : SystemMode → Operation → Daemon → Nsbm → List MessageEntry
posted_entries pull Operation.post d m =
    if is_message (get_code m) then entry_of_message d.cfg m ∷ [] else []
posted_entries _ _ d m = []

abbrev asked :
    (Metadata → Option Bytes)
    → (Bytes → MessageEntry → Bool)
    → Option Metadata
    → List MessageEntry
    → List MessageEntry
asked field test none es = []
asked field test (some md) es = elim (field md) [
  | none ↦ take 1 es
  | some s ↦ take 1 (keep (test s) es)
]

abbrev pub fetched_entries : Operation → Daemon → Nsbm → List MessageEntry
fetched_entries Operation.fetch d m = asked (λ md. md.src_id) from_source m.metadata d.tx_buffer
fetched_entries _ d m = []

abbrev pub received_entries : Operation → Daemon → Nsbm → List MessageEntry
received_entries Operation.receive d m =
    asked (λ md. md.dest_id) for_destination m.metadata d.rx_buffer
received_entries _ d m = []

pub nothing_sent :
    (mode : SystemMode) (op : Operation) (d : Daemon) (m : Nsbm)
    → op ≢ Operation.send
    → sent_entries mode op d m ≡ []
nothing_sent pull Operation.send d m n = absurd (n refl)
nothing_sent _ _ d m n = refl

pub nothing_posted :
    (mode : SystemMode) (op : Operation) (d : Daemon) (m : Nsbm)
    → op ≢ Operation.post
    → posted_entries mode op d m ≡ []
nothing_posted pull Operation.post d m n = absurd (n refl)
nothing_posted _ _ d m n = refl

-- Both buffers after a handler, against the entries that came and went.
module _ (q : MessageEntry → Bool) where
  abbrev pub count : List MessageEntry → ℕ
  count es = length (keep q es)

  pub count-append : (xs ys : List MessageEntry) → count (xs ++ ys) ≡ count xs + count ys
  count-append xs ys = rw (keep-append q xs ys) (length-append (keep q xs) (keep q ys))

  count-take_first :
      (p : MessageEntry → Bool) (es : List MessageEntry)
      → count (take 1 (keep p es)) + count (take_first p es).1 ≡ count es
  unfolding take_first keep
  count-take_first p [] = refl
  count-take_first p (e ∷ es) = ground (arith, count-take_first p es)

  count-pop_front : (es : List MessageEntry) → count (take 1 es) + count (pop_front es).1 ≡ count es
  unfolding pop_front keep
  count-pop_front [] = refl
  count-pop_front (e ∷ es) = ground arith

  pub count-fetch_from :
      (md : Option Metadata) (es : List MessageEntry)
      → count (asked (λ d. d.src_id) from_source md es) + count (fetch_from md es).1 ≡ count es
  unfolding fetch_from keep
  count-fetch_from none es = omega arith
  count-fetch_from (some d) es = elim (Option-cases d.src_id) [
    | inl e ↦ rw (e, fetch_from) (count-pop_front es)
    | inr (s, e) ↦ rw (e, fetch_from) (count-take_first (from_source s) es)
  ]

  pub count-receive_from :
      (md : Option Metadata) (es : List MessageEntry)
      → count (asked (λ d. d.dest_id) for_destination md es) + count (receive_from md es).1
        ≡ count es
  unfolding receive_from keep
  count-receive_from none es = omega arith
  count-receive_from (some d) es = elim (Option-cases d.dest_id) [
    | inl e ↦ rw (e, receive_from) (count-pop_front es)
    | inr (s, e) ↦ rw (e, receive_from) (count-take_first (for_destination s) es)
  ]
