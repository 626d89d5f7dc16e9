-- ===== src/Python/Responses.antt =====
-- What a client of python/nsb_client.py makes of a response is what one of cpp/src/nsb_client.cc
-- makes of it, if it is an entry: without a database.
use nsb_beta.Outcome.{Outcome, ok, Returns, fault, ◌>>=◌}
use nsb_beta.Base.{
  ◌≡◌, refl, sym, inl, inr, Bool, true, false, some, List, [], ◌∷◌, Bool-cases, length, is_empty,
  Bytes, ℤ, pos,
}
use nsb_beta.Wire.{
  Operation, Nsbm, Originator, pull, is_message, get_op, get_code, get_src_id, get_dest_id,
  get_payload_size, content_payload,
}
use nsb_beta.Config.{MessageEntry, blank_entry, exists}
use nsb_beta.Client.Redis.{Redis}
use nsb_beta.Client.Base.{Client, open_response}
use nsb_beta.Daemon.State.{Daemon}
use nsb_beta.System.{reply, World, first_bytes}
use nsb_beta.Python.Mixed.{settle, used, as_message_entry, or_none}
use nsb_beta.Python.Raises.{returns}
use nsb_beta.Python.Base.{Protobuf, Entry, new_entry}
use nsb_beta.Daemon.Handled
use nsb_beta.Python.Client as Python

-- An entry that exists, with the size of its payload.
abbrev pub Sized : MessageEntry → Type 0
Sized e = (exists e ≡ true) × (e.payload_size ≡ pos (length e.payload_obj))

no_blank : Sized blank_entry → ⊥
unfolding exists
no_blank (there, size) = cc

-- A client that polls, without a database.
abbrev pub polling : Client → Originator → Client
polling c g = record c {
  origin = some g;
  cfg = record (c.cfg) { use_db = false; system_mode = pull };
}

pub is_polling :
    (c : Client) (g : Originator)
    → c.origin ≡ some g
    → c.cfg.use_db ≡ false
    → c.cfg.system_mode ≡ pull
    → polling c g ≡ c
is_polling c g h k l =
    sym (λ i. record c { origin = h i; cfg = record (c.cfg) { use_db = k i; system_mode = l i } })

module _ (r : Redis) (pb : Protobuf) (expected wider : Operation → Bool)
    (implies : (op : Operation) → expected op ≡ true → wider op ≡ true) where
  -- The same entry from the bytes of a response.
  abbrev SameEntry : Bytes → Client → r.State → Type 0
  SameEntry response c s =
      (e : Entry) × (Python.open_response r pb wider (or_none response) (c, s)
        ≡ (returns (some e), (c, s)))
      × (open_response r pb.codec expected response c s ≡ ok (as_message_entry e, s))

  opened :
      (response : Bytes) (c : Client) (g : Originator) (s : r.State)
      → (is_empty response ≡ false → pb.decodes response ≡ true)
      → Returns (λ t. Sized t.0) (open_response r pb.codec expected response (polling c g) s)
      → SameEntry response (polling c g) s
  unfolding open_response Python.open_response new_entry
  opened [] c g s d h = elim (no_blank h) [ ]
  opened (b ∷ bs) c g s d h =
      let m = pb.codec.parse (b ∷ bs) in
      elim (Bool-cases (expected (get_op m))) [
        | inr misfits ↦ elim (no_blank (rw misfits at h)) [ ]
        | inl fits ↦ elim (Bool-cases (is_message (get_code m))) [
          | inr other ↦ elim (no_blank (rw (fits, other) at h)) [ ]
          | inl carried ↦ carry fits carried (rw (fits, carried) at h)
        ]
      ]
    where
      m : Nsbm
      m = pb.codec.parse (b ∷ bs)

      carry :
          expected (get_op m) ≡ true
          → is_message (get_code m) ≡ true
          → Sized (record {
            source = get_src_id m;
            destination = get_dest_id m;
            payload_obj = content_payload m.content;
            payload_size = get_payload_size m;
          })
          → SameEntry (b ∷ bs) (polling c g) s
      carry fits carried (there, size) = (
        new_entry (get_src_id m) (get_dest_id m) (content_payload m.content),
        rw (d refl, implies (get_op m) fits, carried),
        rw (fits, carried, size),
      )

  module _ (writable : ℤ → Bool) (fd : ℤ) where
    -- What the steps make of the daemon's result.
    abbrev pub cpp_step :
        Client
        → r.State
        → Outcome (Daemon × List Handled.Sent)
        → Outcome (MessageEntry × World r.State)
    cpp_step c s o = o >>= λ (d', _).
        open_response r pb.codec expected (reply r pb.codec writable fd o) c s >>= λ (e, db').
        ok (e, record { daemon = d'; db = db' })

    abbrev pub py_step :
        Client
        → r.State
        → Outcome (Daemon × List Handled.Sent)
        → Outcome (MessageEntry × World r.State)
    py_step c s o = o >>= λ (d', _).
        let (result, (c', db')) =
          Python.open_response r pb wider (or_none (reply r pb.codec writable fd o)) (c, s) in
        settle result >>= used >>= λ e. ok (e, record { daemon = d'; db = db' })

    unbound :
        (d : Daemon) (m : Outcome (MessageEntry × r.State))
        → Returns
            (λ (t : MessageEntry × World r.State). Sized t.0)
            (m >>= λ (e, db'). ok (e, record { daemon = d; db = db' }))
        → Returns (λ t. Sized t.0) m
    unbound d (ok t) h = h
    unbound d (fault e) h = h

    pub step_same :
        (c : Client) (g : Originator) (s : r.State) (o : Outcome (Daemon × List Handled.Sent))
        → (is_empty (reply r pb.codec writable fd o) ≡ false
            → pb.decodes (reply r pb.codec writable fd o) ≡ true)
        → Returns (λ t. Sized t.0) (cpp_step (polling c g) s o)
        → py_step (polling c g) s o ≡ cpp_step (polling c g) s o
    unfolding reply
    step_same c g s (fault e) d h = refl
    step_same c g s (ok (d', sent)) d h =
        let (e, py, cpp) = opened (first_bytes sent) c g s d (unbound d' _ h) in rw cpp (rw py refl)
