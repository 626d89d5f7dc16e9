-- ===== src/Python/Same.antt =====
-- A step of a client of python/nsb_client.py is one of a client of cpp/src/nsb_client.cc: without a
-- database, for payloads whose size fits an `int`.
use nsb_beta.Base.{
  ℕ, ◌^◌, ◌<◌, ◌≡◌, sym, subst, Bool, false, none, some, arith, leb, length, Bytes, ℤ, pos,
  to_int32_small,
}
use nsb_beta.Wire.{Originator, Operation, set_manifest, blank, set_metadata, message, payload}
use nsb_beta.Client.Redis.{Redis}
use nsb_beta.Client.Base.{send, Client, submit, store_payload}
use nsb_beta.Client.App.{app_send}
use nsb_beta.Client.Sim.{sim_post}
use nsb_beta.System.{World, send_via, post_via}
use nsb_beta.Python.Raises.{returns}
use nsb_beta.Python.Base.{Protobuf}
use nsb_beta.Python.Client.{py_send, py_post, set_payload_obj}
use nsb_beta.Python.Mixed.{py_send_via, py_post_via}

has_room : (n : ℕ) → n < 2 ^ 31 → leb (2 ^ 31) n ≡ false
has_room n h = ground arith

-- A client with these values is the client that has them.
abbrev plain : Client → Originator → Client
plain c g = record c { origin = some g; cfg = record (c.cfg) { use_db = false } }

is_plain : (c : Client) (g : Originator) → c.origin ≡ some g → c.cfg.use_db ≡ false → plain c g ≡ c
is_plain c g h k = sym (λ i. record c { origin = h i; cfg = record (c.cfg) { use_db = k i } })

module _ (r : Redis) (pb : Protobuf) where
  -- The bytes of a SEND or of a POST.
  abbrev written : Operation → Originator → Bytes → Bytes → Bytes → Bytes
  written op g src dest p =
      pb.codec.serialize
        (record (set_metadata src dest (pos (length p)) (set_manifest op g message blank)) {
          content = payload p;
        })

  py_send-plain :
      (now : ℕ) (dest p : Bytes) (c : Client) (g : Originator) (s : r.State)
      → leb (2 ^ 31) (length p) ≡ false
      → py_send r pb now dest p (plain c g, s)
        ≡ (returns (none, (send, written Operation.send g c.client_id dest p)), (plain c g, s))
  unfolding py_send
  py_send-plain now dest p c g s l = rw l

  py_post-plain :
      (src dest p : Bytes) (c : Client) (g : Originator) (s : r.State)
      → leb (2 ^ 31) (length p) ≡ false
      → py_post r pb src dest p (plain c g, s)
        ≡ (returns (send, written Operation.post g src dest p), (plain c g, s))
  unfolding py_post set_payload_obj
  py_post-plain src dest p c g s l = rw l

  module _ (writable : ℤ → Bool) (fd : ℤ) where
    pub py_send_via_same :
        (now : ℕ) (dest p : Bytes) (c : Client) (g : Originator) (w : World r.State)
        → c.origin ≡ some g
        → c.cfg.use_db ≡ false
        → length p < 2 ^ 31
        → py_send_via r pb writable fd now dest p c w
          ≡ send_via r pb.codec writable fd now dest p c w
    unfolding py_send_via send_via app_send submit store_payload
    py_send_via_same now dest p c g w h k l =
        subst
          (λ (x : Client).
            py_send_via r pb writable fd now dest p x w
            ≡ send_via r pb.codec writable fd now dest p x w)
          (is_plain c g h k) at_plain
      where
        at_plain :
            py_send_via r pb writable fd now dest p (plain c g) w
            ≡ send_via r pb.codec writable fd now dest p (plain c g) w
        at_plain =
            rw (
              py_send-plain now dest p c g w.db (has_room (length p) l),
              to_int32_small (length p) l,
            )

    pub py_post_via_same :
        (now : ℕ) (src dest p : Bytes) (c : Client) (g : Originator) (w : World r.State)
        → c.origin ≡ some g
        → c.cfg.use_db ≡ false
        → length p < 2 ^ 31
        → py_post_via r pb writable fd src dest p c w
          ≡ post_via r pb.codec writable fd now src dest p c w
    unfolding py_post_via post_via sim_post submit store_payload
    py_post_via_same now src dest p c g w h k l =
        subst
          (λ (x : Client).
            py_post_via r pb writable fd src dest p x w
            ≡ post_via r pb.codec writable fd now src dest p x w)
          (is_plain c g h k) at_plain
      where
        at_plain :
            py_post_via r pb writable fd src dest p (plain c g) w
            ≡ post_via r pb.codec writable fd now src dest p (plain c g) w
        at_plain =
            rw (
              py_post-plain src dest p c g w.db (has_room (length p) l),
              to_int32_small (length p) l,
            )
