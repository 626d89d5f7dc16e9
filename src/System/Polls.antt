-- ===== src/System/Polls.antt =====
-- A FETCH and a RECEIVE of a client against the daemon, in PULL mode, without a database (`_payload`)
-- and with one (`_key`).
use nsb_beta.Base.{◌≡◌, refl, Bool, true, false, Option, none, some, List, ◌∷◌, arith, Bytes, ℤ}
use nsb_beta.Wire.{
  Codec, IsLawful, serialize_nonempty, Originator, pull, per_node, set_manifest, set_metadata,
  set_src_id, set_dest_id, Operation, message, success, daemon, payload, msg_key, blank, Content,
  Nsbm,
}
use nsb_beta.Config.{MessageEntry, exists}
use nsb_beta.Outcome.{ok}
use nsb_beta.Daemon.Dispatch.{dispatch}
use nsb_beta.Daemon.Buffers.{take_first, from_source, for_destination}
use nsb_beta.Daemon.Queues.{tx_queue, rx_queue, take_first_found}
use nsb_beta.Client.Redis.{Redis, Connector, check_out}
use nsb_beta.Client.Base.{Client}
use nsb_beta.System.{World, fetch_via, receive_via}

-- What the daemon answers with an entry.
response : Operation → MessageEntry → Content → Nsbm
response op e content =
    record (set_metadata e.source e.destination e.payload_size
      (set_manifest op daemon message blank)) { content = content }

module _ (r : Redis) (codec : Codec) (l : IsLawful codec) (writable : ℤ → Bool) (fd : ℤ) where
  pub fetch_via_payload :
      (src : Option Bytes) (c : Client) (g : Originator) (w : World r.State) (e : MessageEntry)
      (rest : List MessageEntry)
      → c.origin ≡ some g
      → c.cfg.use_db ≡ false
      → c.cfg.system_mode ≡ pull
      → c.cfg.simulator_mode ≡ per_node
      → w.daemon.cfg.use_db ≡ false
      → tx_queue c.client_id w.daemon ≡ e ∷ rest
      → exists e ≡ true
      → fetch_via r codec writable fd g src c w
        ≡ ok (
          e,
          record {
            daemon = record (w.daemon) {
              tx_buffer = (take_first (from_source c.client_id) w.daemon.tx_buffer).1;
            };
            db = w.db;
          },
        )
  unfolding fetch_via dispatch response exists
  fetch_via_payload src c g w e rest h1 h2 h3 h4 h5 hq he =
      let found = take_first_found (from_source c.client_id) w.daemon.tx_buffer e rest hq in
      ground (
        arith,
        l.parse-serialize (set_src_id c.client_id (set_manifest Operation.fetch g success blank)),
        l.parse-serialize (response Operation.fetch e (payload e.payload_obj)),
        serialize_nonempty codec (response Operation.fetch e (payload e.payload_obj)) _ l refl,
        found.0,
      )

  pub fetch_via_key :
      (src : Option Bytes) (c : Client) (conn : Connector) (g : Originator) (w : World r.State)
      (e : MessageEntry) (rest : List MessageEntry) (p : Bytes) (db : r.State)
      → c.origin ≡ some g
      → c.cfg.use_db ≡ true
      → c.cfg.system_mode ≡ pull
      → c.cfg.simulator_mode ≡ per_node
      → w.daemon.cfg.use_db ≡ true
      → tx_queue c.client_id w.daemon ≡ e ∷ rest
      → exists e ≡ true
      → c.db ≡ some conn
      → check_out r e.payload_obj w.db ≡ ok (p, db)
      → fetch_via r codec writable fd g src c w
        ≡ ok (
          record e { payload_obj = p },
          record {
            daemon = record (w.daemon) {
              tx_buffer = (take_first (from_source c.client_id) w.daemon.tx_buffer).1;
            };
            db = db;
          },
        )
  unfolding fetch_via dispatch response exists
  fetch_via_key src c conn g w e rest p db h1 h2 h3 h4 h5 hq he hc hp =
      let found = take_first_found (from_source c.client_id) w.daemon.tx_buffer e rest hq in
      ground (
        arith,
        l.parse-serialize (set_src_id c.client_id (set_manifest Operation.fetch g success blank)),
        l.parse-serialize (response Operation.fetch e (msg_key e.payload_obj)),
        serialize_nonempty codec (response Operation.fetch e (msg_key e.payload_obj)) _ l refl,
        found.0,
      )

  pub receive_via_payload :
      (c : Client) (g : Originator) (w : World r.State) (e : MessageEntry)
      (rest : List MessageEntry)
      → c.origin ≡ some g
      → c.cfg.use_db ≡ false
      → c.cfg.system_mode ≡ pull
      → w.daemon.cfg.use_db ≡ false
      → rx_queue c.client_id w.daemon ≡ e ∷ rest
      → exists e ≡ true
      → receive_via r codec writable fd g none c w
        ≡ ok (
          e,
          record {
            daemon = record (w.daemon) {
              rx_buffer = (take_first (for_destination c.client_id) w.daemon.rx_buffer).1;
            };
            db = w.db;
          },
        )
  unfolding receive_via dispatch response exists
  receive_via_payload c g w e rest h1 h2 h3 h5 hq he =
      let found = take_first_found (for_destination c.client_id) w.daemon.rx_buffer e rest hq in
      ground (
        arith,
        l.parse-serialize
            (set_dest_id c.client_id (set_manifest Operation.receive g success blank)),
        l.parse-serialize (response Operation.receive e (payload e.payload_obj)),
        serialize_nonempty codec (response Operation.receive e (payload e.payload_obj)) _ l refl,
        found.0,
      )

  pub receive_via_key :
      (c : Client) (conn : Connector) (g : Originator) (w : World r.State) (e : MessageEntry)
      (rest : List MessageEntry) (p : Bytes) (db : r.State)
      → c.origin ≡ some g
      → c.cfg.use_db ≡ true
      → c.cfg.system_mode ≡ pull
      → w.daemon.cfg.use_db ≡ true
      → rx_queue c.client_id w.daemon ≡ e ∷ rest
      → exists e ≡ true
      → c.db ≡ some conn
      → check_out r e.payload_obj w.db ≡ ok (p, db)
      → receive_via r codec writable fd g none c w
        ≡ ok (
          record e { payload_obj = p },
          record {
            daemon = record (w.daemon) {
              rx_buffer = (take_first (for_destination c.client_id) w.daemon.rx_buffer).1;
            };
            db = db;
          },
        )
  unfolding receive_via dispatch response exists
  receive_via_key c conn g w e rest p db h1 h2 h3 h5 hq he hc hp =
      let found = take_first_found (for_destination c.client_id) w.daemon.rx_buffer e rest hq in
      ground (
        arith,
        l.parse-serialize
            (set_dest_id c.client_id (set_manifest Operation.receive g success blank)),
        l.parse-serialize (response Operation.receive e (msg_key e.payload_obj)),
        serialize_nonempty codec (response Operation.receive e (msg_key e.payload_obj)) _ l refl,
        found.0,
      )
