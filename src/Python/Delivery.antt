-- ===== src/Python/Delivery.antt =====
-- A message on its way between clients of python/nsb_client.py and of cpp/src/nsb_client.cc.
use nsb_beta.Base.{
  ℕ, ◌^◌, ◌<◌, ◌≡◌, ◌∙◌, Bool, true, false, none, some, length, is_empty, Bytes, str_eq_refl, ℤ,
  to_int32_small,
}
use nsb_beta.Wire.{pull, per_node, app_client, sim_client}
use nsb_beta.Config.{MessageEntry, exists}
use nsb_beta.Outcome.{ok, Returns_eq}
use nsb_beta.Client.Redis.{Redis}
use nsb_beta.Client.Base.{Client}
use nsb_beta.System.{World, fetch_via, receive_via}
use nsb_beta.System.Steps.{entry, with_tx, with_rx, send_via_payload, post_via_payload}
use nsb_beta.System.Delivery.{IsReady, exists_entry, fetch_last_payload, receive_last_payload}
use nsb_beta.Python.Base.{Protobuf, IsLawfulPb}
use nsb_beta.Python.Mixed.{
  Language, cpp, python, mixed_relay, send_by, fetch_by, post_by, receive_by,
}
use nsb_beta.Python.Same.{py_send_via_same, py_post_via_same}
use nsb_beta.Python.Responses.{Sized}
use nsb_beta.Python.Polls.{py_receive_via_same, py_fetch_via_same}

module _ (r : Redis) (pb : Protobuf) (l : IsLawfulPb pb) (writable : ℤ → Bool) where
  send_by_payload :
      (language : Language) (fd : ℤ) (now : ℕ) (dest p : Bytes) (c : Client) (w : World r.State)
      → c.origin ≡ some app_client
      → c.cfg.use_db ≡ false
      → w.daemon.cfg.use_db ≡ false
      → w.daemon.cfg.system_mode ≡ pull
      → length p < 2 ^ 31
      → send_by r pb writable language fd now dest p c w
        ≡ ok (c, with_tx (entry c.client_id dest p p) w)
  unfolding send_by
  send_by_payload cpp fd now dest p c w h1 h2 h3 h4 small =
      send_via_payload r pb.codec l.lawful writable fd now dest p c app_client w h1 h2 h3 h4
  send_by_payload python fd now dest p c w h1 h2 h3 h4 small =
      py_send_via_same r pb writable fd now dest p c app_client w h1 h2 small
      ∙ send_via_payload r pb.codec l.lawful writable fd now dest p c app_client w h1 h2 h3 h4

  post_by_payload :
      (language : Language) (fd : ℤ) (now : ℕ) (src dest p : Bytes) (c : Client) (w : World r.State)
      → c.origin ≡ some sim_client
      → c.cfg.use_db ≡ false
      → w.daemon.cfg.use_db ≡ false
      → w.daemon.cfg.system_mode ≡ pull
      → length p < 2 ^ 31
      → post_by r pb writable language fd now src dest p c w
        ≡ ok (c, with_rx (entry src dest p p) w)
  unfolding post_by
  post_by_payload cpp fd now src dest p c w h1 h2 h3 h4 small =
      post_via_payload r pb.codec l.lawful writable fd now src dest p c sim_client w h1 h2 h3 h4
  post_by_payload python fd now src dest p c w h1 h2 h3 h4 small =
      py_post_via_same r pb writable fd now src dest p c sim_client w h1 h2 small
      ∙ post_via_payload r pb.codec l.lawful writable fd now src dest p c sim_client w h1 h2 h3 h4

  fetch_by_same :
      (language : Language) (fd : ℤ) (c : Client) (w w' : World r.State) (e : MessageEntry)
      → c.origin ≡ some sim_client
      → c.cfg.use_db ≡ false
      → c.cfg.system_mode ≡ pull
      → c.cfg.simulator_mode ≡ per_node
      → Sized e
      → fetch_via r pb.codec writable fd sim_client none c w ≡ ok (e, w')
      → fetch_by r pb writable language fd c w ≡ ok (e, w')
  unfolding fetch_by
  fetch_by_same cpp fd c w w' e h1 h2 h3 h4 sized q = q
  fetch_by_same python fd c w w' e h1 h2 h3 h4 sized q =
      py_fetch_via_same r pb l writable fd c sim_client w h1 h2 h3 h4
        (Returns_eq (λ t. Sized t.0) _ (e, w') q sized)
      ∙ q

  receive_by_same :
      (language : Language) (fd : ℤ) (c : Client) (w w' : World r.State) (e : MessageEntry)
      → c.origin ≡ some app_client
      → c.cfg.use_db ≡ false
      → c.cfg.system_mode ≡ pull
      → Sized e
      → receive_via r pb.codec writable fd app_client none c w ≡ ok (e, w')
      → receive_by r pb writable language fd c w ≡ ok (e, w')
  unfolding receive_by
  receive_by_same cpp fd c w w' e h1 h2 h3 sized q = q
  receive_by_same python fd c w w' e h1 h2 h3 sized q =
      py_receive_via_same r pb l writable fd c app_client w h1 h2 h3
        (Returns_eq (λ t. Sized t.0) _ (e, w') q sized)
      ∙ q

  -- In PULL mode with per-node simulators and without a database, when nothing waits at the source
  -- and at the destination (`IsReady`), a message that is not empty and has less than 2^31 bytes
  -- reaches its destination with its source, its destination, its payload and its size, whether
  -- the sender, the simulator and the receiver are clients in C++ or in Python; the daemon and the
  -- database are then as they were before.
  pub mixed_relay_delivers :
      (languages : Language × Language × Language) (fds : ℤ × ℤ × ℤ × ℤ) (now later : ℕ)
      (dest p : Bytes) (c1 c2 c3 : Client) (w : World r.State)
      → IsReady false dest c1 c2 c3 w
      → is_empty p ≡ false
      → length p < 2 ^ 31
      → mixed_relay r pb writable languages fds now later dest p c1 c2 c3 w
        ≡ ok (entry c1.client_id dest p p, w)
  unfolding mixed_relay
  mixed_relay_delivers (l1, l2, l3) (fd1, fd2, fd3, fd4) now later dest p c1 c2 c3 w h k small =
      let e : MessageEntry = entry c1.client_id dest p p in
      let there : exists e ≡ true =
        exists_entry c1.client_id dest p p h.source_named h.dest_named k in
      let sized : Sized e = (there, to_int32_small (length p) small) in
      rw (send_by_payload l1 fd1 now dest p c1 w h.app1 h.db1 h.db_daemon h.pull_daemon small) (
        rw
          (fetch_by_same l2 fd2 c2 (with_tx e w) w e h.sim2 h.db2 h.pull2 h.per_node2 sized (
            fetch_last_payload r pb.codec l.lawful writable fd2 c2 sim_client w e h.sim2 h.db2
              h.pull2 h.per_node2 h.db_daemon (rw h.same_node h.tx_clear)
              (rw h.same_node (str_eq_refl c1.client_id)) there))
          (rw
            (post_by_payload l2 fd3 later c1.client_id dest p c2 w h.sim2 h.db2 h.db_daemon
              h.pull_daemon small)
            (receive_by_same l3 fd4 c3 (with_rx e w) w e h.app3 h.db3 h.pull3 sized (
              receive_last_payload r pb.codec l.lawful writable fd4 c3 app_client w e h.app3 h.db3
                h.pull3 h.db_daemon (rw h.at_dest h.rx_clear) (rw h.at_dest (str_eq_refl dest))
                there))))
