-- ===== src/System/Delivery.antt =====
-- When a message can go its whole way from `NSBAppClient::send` to `NSBAppClient::receive`
-- (cpp/src/nsb_client.cc), and what becomes of the last entry in the queue of the daemon's buffers
-- (cpp/src/nsb_daemon.cc).
use nsb_beta.Base.{
  ◌≡◌, ap, ◌∙◌, Bool, true, false, none, some, List, [], ◌∷◌, ◌++◌, arith, is_empty, keep,
  keep-append, Bytes, ℤ,
}
use nsb_beta.Wire.{Codec, IsLawful, Originator, app_client, sim_client, pull, per_node}
use nsb_beta.Config.{MessageEntry, exists}
use nsb_beta.Outcome.{ok}
use nsb_beta.Daemon.Buffers.{take_first, from_source, for_destination}
use nsb_beta.Daemon.Queues.{tx_queue, rx_queue}
use nsb_beta.Client.Redis.{Redis, Connector, check_out}
use nsb_beta.Client.Base.{Client}
use nsb_beta.System.{World, fetch_via, receive_via}
use nsb_beta.System.Steps.{entry, with_tx, with_rx}
use nsb_beta.System.Polls.{fetch_via_payload, receive_via_payload, fetch_via_key, receive_via_key}

-- An entry that is put behind others, none of which passes, is the one that is taken.
take_first_last :
    (p : MessageEntry → Bool) (es : List MessageEntry) (e : MessageEntry)
    → keep p es ≡ []
    → p e ≡ true
    → take_first p (es ++ e ∷ []) ≡ (e, es)
unfolding take_first keep
take_first_last p [] e h k = rw k
take_first_last p (x ∷ es) e h k = ground (arith, take_first_last p es e)

queue_last :
    (p : MessageEntry → Bool) (es : List MessageEntry) (e : MessageEntry)
    → keep p es ≡ []
    → p e ≡ true
    → keep p (es ++ e ∷ []) ≡ e ∷ []
unfolding keep
queue_last p es e h k = rw (keep-append p es (e ∷ []), h, k)

-- What the three clients and the daemon are when a message is sent on its way in PULL mode with
-- per-node simulators: all have the same answer to whether a database is used, the simulator's
-- client is that of the sending node, nothing waits at the source and at the destination, and
-- neither name is empty.
pub record IsReady {S : Type 0} (db : Bool) (dest : Bytes) (c1 c2 c3 : Client) (w : World S)
    : Type 0 where
  pub app1 : c1.origin ≡ some app_client
  pub sim2 : c2.origin ≡ some sim_client
  pub app3 : c3.origin ≡ some app_client
  pub db1 : c1.cfg.use_db ≡ db
  pub db2 : c2.cfg.use_db ≡ db
  pub db3 : c3.cfg.use_db ≡ db
  pub db_daemon : w.daemon.cfg.use_db ≡ db
  pub pull2 : c2.cfg.system_mode ≡ pull
  pub pull3 : c3.cfg.system_mode ≡ pull
  pub pull_daemon : w.daemon.cfg.system_mode ≡ pull
  pub per_node2 : c2.cfg.simulator_mode ≡ per_node
  pub same_node : c2.client_id ≡ c1.client_id
  pub at_dest : c3.client_id ≡ dest
  pub source_named : is_empty c1.client_id ≡ false
  pub dest_named : is_empty dest ≡ false
  pub tx_clear : tx_queue c1.client_id w.daemon ≡ []
  pub rx_clear : rx_queue dest w.daemon ≡ []

pub exists_entry :
    (src dest obj p : Bytes)
    → is_empty src ≡ false
    → is_empty dest ≡ false
    → is_empty obj ≡ false
    → exists (entry src dest obj p) ≡ true
unfolding exists
exists_entry src dest obj p h k n = rw (h, k, n)

module _ (r : Redis) (codec : Codec) (l : IsLawful codec) (writable : ℤ → Bool) where
  -- The only entry of its queue is handed out, and the buffer is as it was before.
  pub fetch_last_payload :
      (fd : ℤ) (c : Client) (g : Originator) (w : World r.State) (e : MessageEntry)
      → c.origin ≡ some g
      → c.cfg.use_db ≡ false
      → c.cfg.system_mode ≡ pull
      → c.cfg.simulator_mode ≡ per_node
      → w.daemon.cfg.use_db ≡ false
      → tx_queue c.client_id w.daemon ≡ []
      → from_source c.client_id e ≡ true
      → exists e ≡ true
      → fetch_via r codec writable fd g none c (with_tx e w) ≡ ok (e, w)
  fetch_last_payload fd c g w e h1 h2 h3 h4 h5 hq hs he =
      fetch_via_payload r codec l writable fd none c g (with_tx e w) e [] h1 h2 h3 h4 h5
        (queue_last (from_source c.client_id) w.daemon.tx_buffer e hq hs) he
      ∙ ap (λ t. ok (e, record (w) { daemon = record (w.daemon) { tx_buffer = t.1 } }))
          (take_first_last (from_source c.client_id) w.daemon.tx_buffer e hq hs)

  -- The only entry of its queue is handed out, and the buffer is as it was before.
  pub fetch_last_key :
      (fd : ℤ) (c : Client) (conn : Connector) (g : Originator) (w : World r.State)
      (e : MessageEntry) (p : Bytes) (db : r.State)
      → c.origin ≡ some g
      → c.cfg.use_db ≡ true
      → c.cfg.system_mode ≡ pull
      → c.cfg.simulator_mode ≡ per_node
      → w.daemon.cfg.use_db ≡ true
      → tx_queue c.client_id w.daemon ≡ []
      → from_source c.client_id e ≡ true
      → exists e ≡ true
      → c.db ≡ some conn
      → check_out r e.payload_obj w.db ≡ ok (p, db)
      → fetch_via r codec writable fd g none c (with_tx e w)
        ≡ ok (record e { payload_obj = p }, record w { db = db })
  fetch_last_key fd c conn g w e p db h1 h2 h3 h4 h5 hq hs he hc hp =
      fetch_via_key r codec l writable fd none c conn g (with_tx e w) e [] p db h1 h2 h3 h4 h5
        (queue_last (from_source c.client_id) w.daemon.tx_buffer e hq hs) he hc hp
      ∙ ap
          (λ t. ok (
            record e { payload_obj = p },
            record (record w { db = db }) { daemon = record (w.daemon) { tx_buffer = t.1 } },
          ))
          (take_first_last (from_source c.client_id) w.daemon.tx_buffer e hq hs)

  -- The only entry of its queue is handed out, and the buffer is as it was before.
  pub receive_last_payload :
      (fd : ℤ) (c : Client) (g : Originator) (w : World r.State) (e : MessageEntry)
      → c.origin ≡ some g
      → c.cfg.use_db ≡ false
      → c.cfg.system_mode ≡ pull
      → w.daemon.cfg.use_db ≡ false
      → rx_queue c.client_id w.daemon ≡ []
      → for_destination c.client_id e ≡ true
      → exists e ≡ true
      → receive_via r codec writable fd g none c (with_rx e w) ≡ ok (e, w)
  receive_last_payload fd c g w e h1 h2 h3 h5 hq hs he =
      receive_via_payload r codec l writable fd c g (with_rx e w) e [] h1 h2 h3 h5
        (queue_last (for_destination c.client_id) w.daemon.rx_buffer e hq hs) he
      ∙ ap (λ t. ok (e, record (w) { daemon = record (w.daemon) { rx_buffer = t.1 } }))
          (take_first_last (for_destination c.client_id) w.daemon.rx_buffer e hq hs)

  -- The only entry of its queue is handed out, and the buffer is as it was before.
  pub receive_last_key :
      (fd : ℤ) (c : Client) (conn : Connector) (g : Originator) (w : World r.State)
      (e : MessageEntry) (p : Bytes) (db : r.State)
      → c.origin ≡ some g
      → c.cfg.use_db ≡ true
      → c.cfg.system_mode ≡ pull
      → w.daemon.cfg.use_db ≡ true
      → rx_queue c.client_id w.daemon ≡ []
      → for_destination c.client_id e ≡ true
      → exists e ≡ true
      → c.db ≡ some conn
      → check_out r e.payload_obj w.db ≡ ok (p, db)
      → receive_via r codec writable fd g none c (with_rx e w)
        ≡ ok (record e { payload_obj = p }, record w { db = db })
  receive_last_key fd c conn g w e p db h1 h2 h3 h5 hq hs he hc hp =
      receive_via_key r codec l writable fd c conn g (with_rx e w) e [] p db h1 h2 h3 h5
        (queue_last (for_destination c.client_id) w.daemon.rx_buffer e hq hs) he hc hp
      ∙ ap
          (λ t. ok (
            record e { payload_obj = p },
            record (record w { db = db }) { daemon = record (w.daemon) { rx_buffer = t.1 } },
          ))
          (take_first_last (for_destination c.client_id) w.daemon.rx_buffer e hq hs)
