-- ===== src/Tests/Interleavings.antt =====
-- Requests of two clients in both orders.
use nsb_beta.Daemon.Buffers.{entry_of_message, from_source, for_destination}
use nsb_beta.Base.{◌≡◌, refl, true, List, [], ◌∷◌, arith, keep, Bytes, str_eq, str_eq_iff, ℤ, pos}
use nsb_beta.Wire.{Operation, set_metadata, set_manifest, message, app_client, blank, payload}
use nsb_beta.Config.{MessageEntry}
use nsb_beta.Outcome.{ok}
use nsb_beta.Daemon.State.{Daemon}
use nsb_beta.Daemon.InOrder.{handle_each}
use nsb_beta.Daemon.SameHandled.{Both}
use nsb_beta.Daemon.SameSent.{SameSent, AllNamed, handle_each-SameQueues}
use nsb_beta.Daemon.Interleaving.{
  observable, AllPuts, sent_entries, posted_entries, answers, interleavings_agree,
}
use nsb_beta.Tests.Wire.{plain_codec}
use nsb_beta.Tests.Data.{
  always, busy, node_a, node_b, hello, entry_of, asking, asks_source, asks_destination,
  send_request,
}

abbrev from_a : ℤ × Bytes
from_a = (pos 5, plain_codec.serialize (send_request Operation.send))

abbrev from_b : ℤ × Bytes
from_b = (
  pos 6,
  plain_codec.serialize
      (record (set_metadata node_b node_a (pos 5)
        (set_manifest Operation.send app_client message blank)) { content = payload hello }),
)

abbrev posted : ℤ × Bytes
posted = (pos 7, plain_codec.serialize (send_request Operation.post))

-- What is asked for afterwards.
abbrev asked : List (ℤ × Bytes)
asked =
    (pos 7, plain_codec.serialize (asking Operation.fetch asks_source))
    ∷ (pos 5, plain_codec.serialize (asking Operation.receive asks_destination))
    ∷ []

asked-AllNamed : AllNamed plain_codec asked
unfolding plain_codec
asked-AllNamed = (refl, (refl, tt))

one-AllPuts : AllPuts plain_codec (from_a ∷ from_b ∷ posted ∷ [])
unfolding plain_codec
one-AllPuts = (refl, (refl, (refl, tt)))

other-AllPuts : AllPuts plain_codec (posted ∷ from_b ∷ from_a ∷ [])
unfolding plain_codec
other-AllPuts = (refl, (refl, (refl, tt)))

abbrev of_b : MessageEntry
of_b = record { source = node_b; destination = node_a; payload_obj = hello; payload_size = pos 5 }

not_both : (s : Bytes) → str_eq node_a s ≡ true → str_eq node_b s ≡ true → ⊥
unfolding str_eq
not_both s h k = absurd (cc (h, (str_eq_iff node_b s).0 k))

either_order :
    (s : Bytes)
    → keep (from_source s) (entry_of hello ∷ of_b ∷ [])
      ≡ keep (from_source s) (of_b ∷ entry_of hello ∷ [])
unfolding keep
either_order s = ground (arith, not_both s)

same_sources :
    (s : Bytes)
    → keep (from_source s) (sent_entries plain_codec busy.cfg (from_a ∷ from_b ∷ posted ∷ []))
      ≡ keep (from_source s) (sent_entries plain_codec busy.cfg (posted ∷ from_b ∷ from_a ∷ []))
unfolding plain_codec entry_of_message
same_sources s = either_order s

same_destinations :
    (s : Bytes)
    → keep (for_destination s) (posted_entries plain_codec busy.cfg (from_a ∷ from_b ∷ posted ∷ []))
      ≡ keep
          (for_destination s)
          (posted_entries plain_codec busy.cfg (posted ∷ from_b ∷ from_a ∷ []))
unfolding plain_codec entry_of_message
same_destinations s = refl

interleavings_agree_example :
    (d1 : Daemon) × (d2 : Daemon) × (handle_each plain_codec always
        (from_a ∷ from_b ∷ posted ∷ [])
        busy
      ≡ ok (d1, []))
    × (handle_each plain_codec always (posted ∷ from_b ∷ from_a ∷ []) busy ≡ ok (d2, []))
    × (observable d1 ≡ observable d2)
    × (answers plain_codec always asked d1 ≡ answers plain_codec always asked d2)
interleavings_agree_example =
    interleavings_agree plain_codec always (from_a ∷ from_b ∷ posted ∷ [])
      (posted ∷ from_b ∷ from_a ∷ []) asked busy refl one-AllPuts other-AllPuts asked-AllNamed
      same_sources same_destinations

abbrev holding_both : List MessageEntry → Daemon
holding_both es = record busy { tx_buffer = es }

handle_each-SameQueues_example :
    Both
      (SameSent plain_codec always)
      (handle_each plain_codec always asked (holding_both (entry_of hello ∷ of_b ∷ [])))
      (handle_each plain_codec always asked (holding_both (of_b ∷ entry_of hello ∷ [])))
handle_each-SameQueues_example =
    handle_each-SameQueues plain_codec always asked (holding_both (entry_of hello ∷ of_b ∷ []))
      (holding_both (of_b ∷ entry_of hello ∷ [])) (refl, either_order, λ s. refl) asked-AllNamed
