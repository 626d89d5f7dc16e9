-- ===== src/System/Steps.antt =====
-- A SEND and a POST of a client against the daemon, in PULL mode, without a database (`_payload`) and
-- with one (`_key`).
use nsb_beta.Base.{
  ℕ, ◌≡◌, Bool, true, false, some, [], ◌∷◌, ◌++◌, arith, length, Bytes, ℤ, to_int32,
}
use nsb_beta.Wire.{
  Codec, IsLawful, Originator, pull, set_manifest, set_metadata, Operation, message, payload,
  msg_key, blank, Content, Nsbm,
}
use nsb_beta.Config.{MessageEntry}
use nsb_beta.Outcome.{ok}
use nsb_beta.Daemon.Dispatch.{dispatch}
use nsb_beta.Client.Redis.{Redis, Connector, store}
use nsb_beta.Client.Base.{Client}
use nsb_beta.System.{World, send_via, post_via}

-- What the daemon stores for a message.
abbrev pub entry : Bytes → Bytes → Bytes → Bytes → MessageEntry
entry src dest obj p = record {
  source = src;
  destination = dest;
  payload_obj = obj;
  payload_size = to_int32 (length p);
}

-- The daemon with one more entry in a buffer.
abbrev pub with_tx : {S : Type 0} → MessageEntry → World S → World S
with_tx e w = record w { daemon = record (w.daemon) { tx_buffer = w.daemon.tx_buffer ++ e ∷ [] } }

abbrev pub with_rx : {S : Type 0} → MessageEntry → World S → World S
with_rx e w = record w { daemon = record (w.daemon) { rx_buffer = w.daemon.rx_buffer ++ e ∷ [] } }

-- A message of a client, with its content.
outgoing : Operation → Originator → Bytes → Bytes → Bytes → Content → Nsbm
outgoing op g src dest p content =
    record (set_metadata src dest (to_int32 (length p)) (set_manifest op g message blank)) {
      content = content;
    }

module _ (r : Redis) (codec : Codec) (l : IsLawful codec) (writable : ℤ → Bool) (fd : ℤ) where
  pub send_via_payload :
      (now : ℕ) (dest p : Bytes) (c : Client) (g : Originator) (w : World r.State)
      → c.origin ≡ some g
      → c.cfg.use_db ≡ false
      → w.daemon.cfg.use_db ≡ false
      → w.daemon.cfg.system_mode ≡ pull
      → send_via r codec writable fd now dest p c w ≡ ok (c, with_tx (entry c.client_id dest p p) w)
  unfolding send_via dispatch outgoing
  send_via_payload now dest p c g w h1 h2 h3 h4 =
      ground (arith, l.parse-serialize (outgoing Operation.send g c.client_id dest p (payload p)))

  pub send_via_key :
      (now : ℕ) (dest p : Bytes) (c : Client) (conn : Connector) (g : Originator)
      (w : World r.State)
      → c.origin ≡ some g
      → c.cfg.use_db ≡ true
      → c.db ≡ some conn
      → w.daemon.cfg.use_db ≡ true
      → w.daemon.cfg.system_mode ≡ pull
      → let (key, conn', db) = store r now p conn w.db in
        send_via r codec writable fd now dest p c w
        ≡ ok (
          record c { db = some conn' },
          with_tx (entry c.client_id dest key p) (record w { db = db }),
        )
  unfolding send_via dispatch outgoing
  send_via_key now dest p c conn g w h1 h2 hc h3 h4 = ground (
    arith,
    l.parse-serialize
        (outgoing Operation.send g c.client_id dest p (msg_key (store r now p conn w.db).0)),
  )

  pub post_via_payload :
      (now : ℕ) (src dest p : Bytes) (c : Client) (g : Originator) (w : World r.State)
      → c.origin ≡ some g
      → c.cfg.use_db ≡ false
      → w.daemon.cfg.use_db ≡ false
      → w.daemon.cfg.system_mode ≡ pull
      → post_via r codec writable fd now src dest p c w ≡ ok (c, with_rx (entry src dest p p) w)
  unfolding post_via dispatch outgoing
  post_via_payload now src dest p c g w h1 h2 h3 h4 =
      ground (arith, l.parse-serialize (outgoing Operation.post g src dest p (payload p)))

  pub post_via_key :
      (now : ℕ) (src dest p : Bytes) (c : Client) (conn : Connector) (g : Originator)
      (w : World r.State)
      → c.origin ≡ some g
      → c.cfg.use_db ≡ true
      → c.db ≡ some conn
      → w.daemon.cfg.use_db ≡ true
      → w.daemon.cfg.system_mode ≡ pull
      → let (key, conn', db) = store r now p conn w.db in
        post_via r codec writable fd now src dest p c w
        ≡ ok (record c { db = some conn' }, with_rx (entry src dest key p) (record w { db = db }))
  unfolding post_via dispatch outgoing
  post_via_key now src dest p c conn g w h1 h2 hc h3 h4 = ground (
    arith,
    l.parse-serialize (outgoing Operation.post g src dest p (msg_key (store r now p conn w.db).0)),
  )
