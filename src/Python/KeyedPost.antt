-- ===== src/Python/KeyedPost.antt =====
-- What `NSBSimClient.post` of python/nsb_client.py does where a database is used.
use nsb_beta.Base.{
  ◌^◌, ◌<◌, ◌≡◌, refl, sym, subst, Bool, true, false, none, some, List, [], ◌∷◌, ◌++◌, arith, leb,
  length, is_empty, keep, keep-append, Bytes, str_eq_refl, ℤ, pos, to_int32_small,
}
use nsb_beta.Wire.{
  app_client, sim_client, pull, blank, message, set_metadata, msg_key, Nsbm, Operation,
  set_manifest,
}
use nsb_beta.Daemon.Buffers.{for_destination}
use nsb_beta.System.Steps.{with_rx, entry}
use nsb_beta.System.Delivery.{exists_entry}
use nsb_beta.Python.Mixed.{py_post_via, py_answer}
use nsb_beta.Outcome.{ok}
use nsb_beta.Client.Base.{send, Client}
use nsb_beta.Daemon.Forward.{handle_post}
use nsb_beta.Python.Client.{py_post, set_payload_obj, py_receive}
use nsb_beta.Python.Raises.{returns, raises, type_error}
use nsb_beta.Client.Redis.{Connector, Redis, nil}
use nsb_beta.System.{World}
use nsb_beta.Config.{MessageEntry}
use nsb_beta.Daemon.State.{Daemon}
use nsb_beta.Daemon.Queues.{rx_queue}
use nsb_beta.Daemon.Dispatch.{dispatch, handle_message}
use nsb_beta.Python.Base.{Protobuf, IsLawfulPb}
use nsb_beta.Python.KeyedReceive.{keyed, keyed_entry_raises}
use nsb_beta.Client.Redis as Redis

module _ (r : Redis) (lr : Redis.IsLawful r) (pb : Protobuf) (l : IsLawfulPb pb)
    (writable : ℤ → Bool) (fd : ℤ) where
  abbrev posting : Client → Client
  posting c = record c { origin = some sim_client; cfg = record (c.cfg) { use_db = true } }

  -- The POST of a payload where a database is used.
  abbrev keyed_post : Bytes → Bytes → Bytes → Nsbm
  keyed_post src dest p =
      record (set_metadata src dest (pos (length p))
        (set_manifest Operation.post sim_client message blank)) { content = msg_key p }

  py_post-posting :
      (src dest p : Bytes) (c : Client) (s : r.State)
      → leb (2 ^ 31) (length p) ≡ false
      → pb.is_utf8 p ≡ true
      → py_post r pb src dest p (posting c, s)
        ≡ (returns (send, pb.codec.serialize (keyed_post src dest p)), (posting c, s))
  unfolding py_post set_payload_obj
  py_post-posting src dest p c s room text = ground (arith, room, text)

  handle_keyed_post :
      (src dest p : Bytes) (d : Daemon)
      → d.cfg.use_db ≡ true
      → d.cfg.system_mode ≡ pull
      → length p < 2 ^ 31
      → handle_message pb.codec writable d fd (pb.codec.serialize (keyed_post src dest p))
        ≡ ok (record d { rx_buffer = d.rx_buffer ++ entry src dest p p ∷ [] }, [])
  unfolding handle_message dispatch handle_post
  handle_keyed_post src dest p d db mode small =
      rw (l.lawful.parse-serialize (keyed_post src dest p), to_int32_small (length p) small)
        (rw mode (rw db refl))

  queue_of_one :
      (q : MessageEntry → Bool) (es : List MessageEntry) (e : MessageEntry)
      → keep q es ≡ []
      → q e ≡ true
      → keep q (es ++ e ∷ []) ≡ e ∷ []
  unfolding keep
  queue_of_one q es e h k = rw (keep-append q es (e ∷ []), h, k)

  -- A simulator's client posts for an application's client, both in Python, in PULL mode and with a
  -- database that works; nothing waits for the application, and the payload is not empty, is text,
  -- has less than 2^31 bytes and is not by chance a key.
  pub record IsKeyed (src p : Bytes) (c2 c3 : Client) (conn : Connector) (w : World r.State)
      : Type 0 where
    pub sim2 : c2.origin ≡ some sim_client
    pub db2 : c2.cfg.use_db ≡ true
    pub app3 : c3.origin ≡ some app_client
    pub db3 : c3.cfg.use_db ≡ true
    pub pull3 : c3.cfg.system_mode ≡ pull
    pub connector3 : c3.db ≡ some conn
    pub db_daemon : w.daemon.cfg.use_db ≡ true
    pub pull_daemon : w.daemon.cfg.system_mode ≡ pull
    pub clear : rx_queue c3.client_id w.daemon ≡ []
    pub source_named : is_empty src ≡ false
    pub dest_named : is_empty c3.client_id ≡ false
    pub full : is_empty p ≡ false
    pub small : length p < 2 ^ 31
    pub text : pb.is_utf8 p ≡ true
    pub online : r.connected w.db ≡ true
    pub no_key : lr.stored w.db p ≡ none

  post_via_posting :
      (src dest p : Bytes) (c : Client) (w : World r.State)
      → w.daemon.cfg.use_db ≡ true
      → w.daemon.cfg.system_mode ≡ pull
      → length p < 2 ^ 31
      → pb.is_utf8 p ≡ true
      → py_post_via r pb writable fd src dest p (posting c) w
        ≡ ok (posting c, with_rx (entry src dest p p) w)
  unfolding py_post_via
  post_via_posting src dest p c w db mode small text =
      rw (py_post-posting src dest p c w.db (ground (arith, small)) text)
        (rw (handle_keyed_post src dest p w.daemon db mode small))

  -- What a Python simulator posts where a database is used cannot be received (`IsKeyed`): the
  -- payload is not stored but sent as its own key, and the application's `receive` raises a
  -- `TypeError`.
  pub keyed_post_raises :
      (src p : Bytes) (c2 c3 : Client) (conn : Connector) (w : World r.State)
      → IsKeyed src p c2 c3 conn w
      → (w1 : World r.State) × (py_post_via r pb writable fd src c3.client_id p c2 w ≡ ok (c2, w1))
        × ((py_receive r pb (py_answer r pb writable fd w1.daemon) none none (c3, w1.db)).0
            ≡ raises type_error)
  keyed_post_raises src p c2 c3 conn w h =
      let e = entry src c3.client_id p p in
      let poster : posting c2 ≡ c2 =
        sym (λ i. record c2 { origin = h.sim2 i; cfg = record (c2.cfg) { use_db = h.db2 i } }) in
      let reader : keyed r lr pb l writable fd c3 app_client conn ≡ c3 = sym (λ i. record c3 {
        origin = h.app3 i;
        cfg = record (c3.cfg) { use_db = h.db3 i; system_mode = h.pull3 i };
        db = h.connector3 i;
      }) in
      (
        with_rx e w,
        subst
            (λ (c : Client).
              py_post_via r pb writable fd src c3.client_id p c w ≡ ok (c, with_rx e w))
            poster
            (post_via_posting src c3.client_id p c2 w h.db_daemon h.pull_daemon h.small h.text),
        subst
            (λ (c : Client).
              (py_receive r pb (py_answer r pb writable fd (with_rx e w).daemon) none none
                (c, w.db)).0
              ≡ raises type_error)
            reader
            (keyed_entry_raises r lr pb l writable fd c3 app_client conn (with_rx e w) e []
              h.db_daemon
              (queue_of_one (for_destination c3.client_id) w.daemon.rx_buffer e h.clear
                (str_eq_refl c3.client_id))
              (exists_entry src c3.client_id p p h.source_named h.dest_named h.full) h.online
              h.no_key),
      )
