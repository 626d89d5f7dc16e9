-- ===== src/System/DatabaseDelivery.antt =====
-- The way of a message when payloads are kept in the database (cpp/src/nsb_client.cc,
-- cpp/src/nsb.cc): the daemon's buffers carry keys.
use nsb_beta.Base.{
  ℕ, ◌≡◌, Bool, true, false, ◌||◌, none, some, arith, if◌then◌else◌, is_empty, Bytes, str_eq,
  str_eq_refl, c_str, Lacks, ℤ,
}
use nsb_beta.Wire.{Codec, IsLawful, app_client, sim_client}
use nsb_beta.Config.{MessageEntry, exists}
use nsb_beta.Outcome.{ok}
use nsb_beta.Client.Redis.{Redis, Connector, store}
use nsb_beta.Client.Redis as Redis
use nsb_beta.Client.Base.{Client}
use nsb_beta.Client.Database.{store-Returned, store_key}
use nsb_beta.System.{World, relay}
use nsb_beta.System.Steps.{entry, send_via_key, post_via_key}
use nsb_beta.System.Delivery.{IsReady, exists_entry, fetch_last_key, receive_last_key}

module _ (r : Redis) (lr : Redis.IsLawful r) (codec : Codec) (l : IsLawful codec)
    (writable : ℤ → Bool) where
  -- In PULL mode with per-node simulators and with a database that works, when nothing waits at
  -- the source and at the destination (`IsReady`), a message that is not empty and has no NUL byte
  -- reaches its destination with its source, its destination, its payload and its size. The daemon
  -- is then as it was before, and at most two keys of the database have changed: they hold
  -- nothing.
  pub relay_delivers_by_key :
      (fds : ℤ × ℤ × ℤ × ℤ) (now later : ℕ) (dest p : Bytes) (c1 c2 c3 : Client)
      (conn1 conn2 conn3 : Connector) (w : World r.State)
      → IsReady true dest c1 c2 c3 w
      → c1.db ≡ some conn1
      → c2.db ≡ some conn2
      → c3.db ≡ some conn3
      → r.connected w.db ≡ true
      → is_empty p ≡ false
      → Lacks 0 p
      → (db : r.State) × (key1 : Bytes) × (key2 : Bytes) × (relay r codec writable fds now later
            dest p c1 c2 c3 w
          ≡ ok (entry c1.client_id dest p p, record w { db = db }))
        × ((j : Bytes)
            → lr.stored db j
              ≡ (if str_eq (c_str key1) j || str_eq (c_str key2) j then none else lr.stored w.db j))
  unfolding relay
  relay_delivers_by_key (fd1, fd2, fd3, fd4) now later dest p c1 c2 c3 conn1 conn2 conn3 w h n1 n2
        n3 online k clean =
      let back1 = store-Returned r lr now p conn1 w.db online clean in
      let back2 = store-Returned r lr later p conn2 back1.after back1.still_connected clean in
      let key1 : Bytes = (store r now p conn1 w.db).0 in
      let key2 : Bytes = (store r later p conn2 back1.after).0 in
      let w1 : World r.State = record w { db = (store r now p conn1 w.db).2 } in
      let w2 : World r.State = record w { db = back1.after } in
      let w3 : World r.State = record w { db = (store r later p conn2 back1.after).2 } in
      let e1 : MessageEntry = entry c1.client_id dest key1 p in
      let e2 : MessageEntry = entry c1.client_id dest key2 p in
      let there1 : exists e1 ≡ true =
        exists_entry c1.client_id dest key1 p h.source_named h.dest_named
          (store_key r lr now p conn1 w.db online) in
      let there2 : exists e2 ≡ true =
        exists_entry c1.client_id dest key2 p h.source_named h.dest_named
          (store_key r lr later p conn2 back1.after back1.still_connected) in
      (
        back2.after,
        key1,
        key2,
        rw
            (
              send_via_key r codec l writable fd1 now dest p c1 conn1 app_client w h.app1 h.db1 n1
                  h.db_daemon h.pull_daemon,
              relay,
            )
            (rw
              (fetch_last_key r codec l writable fd2 c2 conn2 sim_client w1 e1 p back1.after h.sim2
                h.db2 h.pull2 h.per_node2 h.db_daemon (rw h.same_node h.tx_clear)
                (rw h.same_node (str_eq_refl c1.client_id)) there1 n2 back1.checked_out)
              (rw
                (post_via_key r codec l writable fd3 later c1.client_id dest p c2 conn2 sim_client
                  w2 h.sim2 h.db2 n2 h.db_daemon h.pull_daemon)
                (receive_last_key r codec l writable fd4 c3 conn3 app_client w3 e2 p back2.after
                  h.app3 h.db3 h.pull3 h.db_daemon (rw h.at_dest h.rx_clear)
                  (rw h.at_dest (str_eq_refl dest)) there2 n3 back2.checked_out))),
        λ j. ground (arith, back1.others_kept j, back2.others_kept j),
      )
