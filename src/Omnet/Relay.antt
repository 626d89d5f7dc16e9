-- ===== src/Omnet/Relay.antt =====
-- A message on its whole way with the simulator of examples/omnet/nsb_omnet_basic between the
-- clients (NSBHost.cc, cpp/src/nsb_client.cc).
use nsb_beta.Base.{
  ℕ, ◌^◌, ◌<◌, ◌≡◌, refl, Bool, true, false, Option, none, some, [], ◌∷◌, arith, is_empty, Bytes,
  str_eq_refl, c_str, Lacks, c_str-Lacks, ℤ, pos,
}
use nsb_beta.Wire.{Codec, IsLawful, app_client, sim_client}
use nsb_beta.Config.{MessageEntry, exists}
use nsb_beta.Client.Redis.{Redis}
use nsb_beta.Client.Base.{Client}
use nsb_beta.System.{World, send_via, fetch_via, post_via, receive_via}
use nsb_beta.System.Steps.{entry, send_via_payload, post_via_payload}
use nsb_beta.System.Delivery.{IsReady, exists_entry, fetch_last_payload, receive_last_payload}
use nsb_beta.Omnet.Host.{send_packet, NsbMessage}
use nsb_beta.Outcome.{Outcome, ok, ◌>>=◌}
use nsb_beta.Hosts.{host_name, host_index-host_name, Lacks-host_name}
use nsb_beta.Omnet.Network.{host_of, carry, carry_posts}

c_str_full : (s : Bytes) → is_empty (c_str s) ≡ false → is_empty s ≡ false
unfolding c_str
c_str_full [] h = h
c_str_full (x ∷ s) h = refl

-- One message from `NSBAppClient::send` to `NSBAppClient::receive`: `c2` is the client of host `i`,
-- which fetches the message, `clients` are those that post, and `fds` are the descriptors of the
-- four channels. A client is not used again after it has posted.
module _ (r : Redis) (codec : Codec) (writable : ℤ → Bool) (n interval : ℕ) where
  post_on :
      ℤ → ℕ → (ℕ → Client) → ℕ → Bytes → Bytes → Bytes → World r.State → Outcome (World r.State)
  post_on fd now clients i src dest p w =
      post_via r codec writable fd now src dest p (clients i) w >>= λ (c, w'). ok w'

  leave :
      ℤ
      → ℕ
      → (ℕ → Client)
      → Option (ℕ × NsbMessage)
      → World r.State
      → Outcome (Option (World r.State))
  unfolding post_on
  leave fd now clients none w = ok (some w)
  leave fd now clients (some (gate, msg)) w = carry (post_on fd now clients) n interval 2 gate msg w

  receive_after :
      ℤ → Client → Option (World r.State) → Outcome (Option (MessageEntry × World r.State))
  receive_after fd c none = ok none
  receive_after fd c (some w) =
      receive_via r codec writable fd app_client none c w >>= λ t. ok (some t)

  unfoldable pub omnet_relay :
      ℤ × ℤ × ℤ × ℤ
      → ℕ
      → ℕ
      → ℕ
      → Bytes
      → Bytes
      → Client × Client × Client
      → (ℕ → Client)
      → World r.State
      → Outcome (Option (MessageEntry × World r.State))
  unfolding leave receive_after
  omnet_relay (fd1, fd2, fd3, fd4) now later i dest p (c1, c2, c4) clients w = do
    (_, w1) ← send_via r codec writable fd1 now dest p c1 w
    (e, w2) ← fetch_via r codec writable fd2 sim_client none c2 w1
    out ← send_packet e (host_of n interval i)
    arrived ← leave fd3 later clients out w2
    receive_after fd4 c4 arrived

  -- What host `i` sends, once it has fetched a message for host `k`.
  sent_to :
      (k i : ℕ) (p src : Bytes)
      → Lacks 0 src
      → k < n
      → k < 2 ^ 31
      → exists (entry src (host_name (pos k)) p p) ≡ true
      → send_packet (entry src (host_name (pos k)) p p) (host_of n interval i)
        ≡ ok (some (k, record { src_id = src; dest_id = host_name (pos k); payload = c_str p }))
  unfolding send_packet
  sent_to k i p src clean within small there = ground (
    arith,
    there,
    c_str-Lacks (host_name (pos k)) (Lacks-host_name k),
    c_str-Lacks src clean,
    host_index-host_name k small,
  )

  module _ (l : IsLawful codec) where
    -- In PULL mode with per-node simulators and without a database, when nothing waits at the
    -- source and at host `k` (`IsReady`), that host's client is a simulator's that uses no database
    -- either, `k` is less than 2^31 and than the number of hosts, and the source has no byte 0, a
    -- message for host `k` reaches it from whichever host fetches it: with its source and its
    -- destination, and of its payload what stands before the first byte 0, which must not be
    -- nothing. The daemon and the database are then as they were before.
    pub omnet_relay_delivers :
        (fds : ℤ × ℤ × ℤ × ℤ) (now later i k : ℕ) (p : Bytes) (c1 c2 c4 : Client)
        (clients : ℕ → Client) (w : World r.State)
        → IsReady false (host_name (pos k)) c1 c2 c4 w
        → (clients k).origin ≡ some sim_client
        → (clients k).cfg.use_db ≡ false
        → k < n
        → k < 2 ^ 31
        → Lacks 0 c1.client_id
        → is_empty (c_str p) ≡ false
        → omnet_relay fds now later i (host_name (pos k)) p (c1, c2, c4) clients w
          ≡ ok (some (entry c1.client_id (host_name (pos k)) (c_str p) (c_str p), w))
    unfolding omnet_relay
    omnet_relay_delivers (fd1, fd2, fd3, fd4) now later i k p c1 c2 c4 clients w h o3 d3 within
          small clean full =
        let dest : Bytes = host_name (pos k) in
        let e : MessageEntry = entry c1.client_id dest p p in
        let e' : MessageEntry = entry c1.client_id dest (c_str p) (c_str p) in
        let there : exists e ≡ true =
          exists_entry c1.client_id dest p p h.source_named h.dest_named (c_str_full p full) in
        let there' : exists e' ≡ true =
          exists_entry c1.client_id dest (c_str p) (c_str p) h.source_named h.dest_named full in
        rw
          (
            send_via_payload r codec l writable fd1 now dest p c1 app_client w h.app1 h.db1
                h.db_daemon h.pull_daemon,
            omnet_relay,
          )
          (rw
            (fetch_last_payload r codec l writable fd2 c2 sim_client w e h.sim2 h.db2 h.pull2
              h.per_node2 h.db_daemon (rw h.same_node h.tx_clear)
              (rw h.same_node (str_eq_refl c1.client_id)) there)
            (rw (sent_to k i p c1.client_id clean within small there) (
              rw
                (carry_posts (post_on fd3 later clients) n interval 0 k k c1.client_id (c_str p) w
                  small within)
                (rw
                  (post_via_payload r codec l writable fd3 later c1.client_id dest (c_str p)
                    (clients k) sim_client w o3 d3 h.db_daemon h.pull_daemon)
                  (rw (
                    receive_last_payload r codec l writable fd4 c4 app_client w e' h.app3 h.db3
                      h.pull3 h.db_daemon (rw h.at_dest h.rx_clear)
                      (rw h.at_dest (str_eq_refl dest)) there'))))))
