-- ===== src/Inet/Network.antt =====
-- A message on its whole way with the simulator of examples/omnet/nsb_omnet_inet between the clients
-- (nsbBasicApp.cc, nsbAppSink.cc, cpp/src/nsb_client.cc): nsbBasicApp fetches it on the host of its
-- source, and nsbAppSink posts it on the host to which the network takes the packet, once and as it
-- was sent.
use nsb_beta.Base.{
  ℕ, ◌+◌, ◌^◌, ◌<◌, ◌≡◌, Bool, true, false, Option, none, some, List, [], ◌∷◌, arith, length,
  is_empty, Bytes, str_eq_refl, ℤ,
}
use nsb_beta.Outcome.{Outcome, ok, ◌>>=◌}
use nsb_beta.Wire.{Codec, IsLawful, app_client, sim_client}
use nsb_beta.Config.{MessageEntry, exists}
use nsb_beta.Client.Redis.{Redis}
use nsb_beta.Client.Base.{Client}
use nsb_beta.System.{World, send_via, fetch_via, post_via, receive_via}
use nsb_beta.System.Steps.{entry, with_rx, send_via_payload, post_via_payload}
use nsb_beta.System.Delivery.{IsReady, exists_entry, fetch_last_payload, receive_last_payload}
use nsb_beta.Inet.Packet.{encode_packet}
use nsb_beta.Inet.BasicApp.{BasicApp, Action, sends, send_packet}
use nsb_beta.Inet.AppSink.{AppSink, process_packet, process_packet-encode_packet}

-- What the network takes to the other side: the packets that were sent, in order.
abbrev arrivals : {Addr : Type 0} → List (Action Addr) → List Bytes
arrivals [] = []
arrivals (sends x port raw ∷ acts) = raw ∷ arrivals acts
arrivals (act ∷ acts) = arrivals acts

module _ (r : Redis) (codec : Codec) (writable : ℤ → Bool) {Addr : Type 0}
    (resolve : Bytes → Option Addr) (find_interface : Bytes → Option ℕ) where
  -- `post`, when the client is that of the sink.
  post_here :
      ℤ → ℕ → Bytes → Bytes → Bytes → Client × World r.State → Outcome (Client × World r.State)
  post_here fd now src dest p (c, w) = post_via r codec writable fd now src dest p c w

  sink_all :
      ℤ
      → ℕ
      → ℕ × ℕ
      → ℕ × ℕ
      → List Bytes
      → AppSink Addr × Client × World r.State
      → Outcome (AppSink Addr × Client × World r.State)
  unfolding post_here
  sink_all fd now junk1 junk2 [] s = ok s
  sink_all fd now junk1 junk2 (raw ∷ raws) (a, c, w) = do
    (a', (c', w')) ← process_packet (post_here fd now) junk1 junk2 raw a (c, w)
    sink_all fd now junk1 junk2 raws (a', c', w')

  -- `c1` sends, `c2` is the client of the sender's application, `c3` that of the sink, and `c4`
  -- receives. `fds` are the descriptors of the four channels.
  unfoldable pub inet_relay :
      ℤ × ℤ × ℤ × ℤ
      → ℕ
      → ℕ
      → ℕ × ℕ
      → ℕ × ℕ
      → Bytes
      → Bytes
      → Client × Client × Client × Client
      → BasicApp
      → AppSink Addr
      → World r.State
      → Outcome (MessageEntry × BasicApp × AppSink Addr × World r.State)
  unfolding sink_all
  inet_relay (fd1, fd2, fd3, fd4) now later junk1 junk2 dest p (c1, c2, c3, c4) app sink w = do
    (_, w1) ← send_via r codec writable fd1 now dest p c1 w
    (e, w2) ← fetch_via r codec writable fd2 sim_client none c2 w1
    (app', acts) ← send_packet resolve find_interface e app
    (sink', _, w3) ← sink_all fd3 later junk1 junk2 (arrivals acts) (sink, c3, w2)
    (got, w4) ← receive_via r codec writable fd4 app_client none c4 w3
    ok (got, app', sink', w4)

  fetched_sent :
      (e : MessageEntry) (app : BasicApp) (x : Addr)
      → exists e ≡ true
      → resolve e.destination ≡ some x
      → send_packet resolve find_interface e app
        ≡ ok (
          record app { num_sent = app.num_sent + 1 },
          sends x app.dest_port (encode_packet e.source e.destination e.payload_obj) ∷ [],
        )
  unfolding send_packet
  fetched_sent e app x h found = ground arith

  -- What was written is posted as it was given.
  packet_posted :
      (fd : ℤ) (now : ℕ) (junk1 junk2 : ℕ × ℕ) (src dest p : Bytes) (sink : AppSink Addr)
      (c : Client) (w w' : World r.State)
      → length src < 2 ^ 16
      → length dest < 2 ^ 16
      → post_via r codec writable fd now src dest p c w ≡ ok (c, w')
      → sink_all fd now junk1 junk2 (encode_packet src dest p ∷ []) (sink, c, w)
        ≡ ok (record sink { num_received = sink.num_received + 1 }, c, w')
  unfolding sink_all
  packet_posted fd now junk1 junk2 src dest p sink c w w' h k posted = rw (
    process_packet-encode_packet (post_here fd now) junk1 junk2 src dest p sink (c, w) h k,
    posted,
    sink_all,
  )

  module _ (l : IsLawful codec) where
    -- In PULL mode with per-node simulators and without a database, when nothing waits at the
    -- source and at the destination (`IsReady`), the sink's client is a simulator's that uses no
    -- database either, the destination resolves, and both identifiers have less than 2^16 bytes, a
    -- message that is not empty crosses the simulated network: it reaches its destination with its
    -- source, its destination, its payload and its size, one packet is counted on each side, and
    -- the daemon and the database are then as they were before.
    pub inet_relay_delivers :
        (fds : ℤ × ℤ × ℤ × ℤ) (now later : ℕ) (junk1 junk2 : ℕ × ℕ) (dest p : Bytes)
        (c1 c2 c3 c4 : Client) (app : BasicApp) (sink : AppSink Addr) (w : World r.State) (x : Addr)
        → IsReady false dest c1 c2 c4 w
        → c3.origin ≡ some sim_client
        → c3.cfg.use_db ≡ false
        → resolve dest ≡ some x
        → length c1.client_id < 2 ^ 16
        → length dest < 2 ^ 16
        → is_empty p ≡ false
        → inet_relay fds now later junk1 junk2 dest p (c1, c2, c3, c4) app sink w
          ≡ ok (
            entry c1.client_id dest p p,
            record app { num_sent = app.num_sent + 1 },
            record sink { num_received = sink.num_received + 1 },
            w,
          )
    unfolding inet_relay
    inet_relay_delivers (fd1, fd2, fd3, fd4) now later junk1 junk2 dest p c1 c2 c3 c4 app sink w x h
          o3 d3 found short1 short2 k =
        let e : MessageEntry = entry c1.client_id dest p p in
        let there : exists e ≡ true =
          exists_entry c1.client_id dest p p h.source_named h.dest_named k in
        rw
          (
            send_via_payload r codec l writable fd1 now dest p c1 app_client w h.app1 h.db1
                h.db_daemon h.pull_daemon,
            inet_relay,
          )
          (rw
            (fetch_last_payload r codec l writable fd2 c2 sim_client w e h.sim2 h.db2 h.pull2
              h.per_node2 h.db_daemon (rw h.same_node h.tx_clear)
              (rw h.same_node (str_eq_refl c1.client_id)) there)
            (rw (fetched_sent e app x there found) (
              rw
                (packet_posted fd3 later junk1 junk2 c1.client_id dest p sink c3 w (with_rx e w)
                  short1 short2
                  (post_via_payload r codec l writable fd3 later c1.client_id dest p c3 sim_client w
                    o3 d3 h.db_daemon h.pull_daemon))
                (rw (
                  receive_last_payload r codec l writable fd4 c4 app_client w e h.app3 h.db3 h.pull3
                    h.db_daemon (rw h.at_dest h.rx_clear) (rw h.at_dest (str_eq_refl dest))
                    there)))))
