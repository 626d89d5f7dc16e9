-- ===== src/System/Burst.antt =====
-- Many messages in flight at once (cpp/src/nsb_client.cc, cpp/src/nsb_daemon.cc): all are sent before
-- the first is fetched, and all are posted before the first is received. Here with the handlers
-- alone, each request handed to them by itself; `BurstServed` has the passes in which the server
-- reads them.
use mathlib.Core.List.{append-nil, append_assoc}
use nsb_beta.Base.{
  ℕ, zero, suc, ◌≡◌, refl, sym, ap, ◌∙◌, Bool, true, false, none, List, [], ◌∷◌, ◌++◌, map, arith,
  length, is_empty, keep, keep-append, Bytes, str_eq_refl, ℤ,
}
use nsb_beta.Wire.{Codec, IsLawful, app_client, sim_client}
use nsb_beta.Config.{MessageEntry, exists}
use nsb_beta.Outcome.{Outcome, ok, ◌>>=◌}
use nsb_beta.Daemon.Buffers.{take_first, from_source, for_destination}
use nsb_beta.Client.Redis.{Redis}
use nsb_beta.Client.Base.{Client}
use nsb_beta.System.{World, send_via, fetch_via, post_via, receive_via}
use nsb_beta.System.Steps.{entry, with_tx, with_rx, send_via_payload, post_via_payload}
use nsb_beta.System.Polls.{fetch_via_payload, receive_via_payload}
use nsb_beta.System.Delivery.{IsReady, exists_entry}

-- The first that passes behind others that do not is the one that is taken.
take_first_behind :
    (p : MessageEntry → Bool) (old : List MessageEntry) (e : MessageEntry) (es : List MessageEntry)
    → keep p old ≡ []
    → p e ≡ true
    → take_first p (old ++ e ∷ es) ≡ (e, old ++ es)
unfolding take_first keep
take_first_behind p [] e es h k = rw k
take_first_behind p (x ∷ old) e es h k = ground (arith, take_first_behind p old e es)

keep_behind :
    (p : MessageEntry → Bool) (old : List MessageEntry) (e : MessageEntry) (es : List MessageEntry)
    → keep p old ≡ []
    → p e ≡ true
    → keep p (old ++ e ∷ es) ≡ e ∷ keep p es
unfolding keep
keep_behind p old e es h k = rw (keep-append p old (e ∷ es), h, k)

-- No payload is empty.
abbrev pub Full : List Bytes → Type 0
Full [] = Unit {0}
Full (p ∷ ps) = (is_empty p ≡ false) × Full ps

-- Entries behind those that are in the buffers.
abbrev waiting : {S : Type 0} → List MessageEntry → List MessageEntry → World S → World S
waiting txs rxs w = record w {
  daemon = record (w.daemon) {
    tx_buffer = w.daemon.tx_buffer ++ txs;
    rx_buffer = w.daemon.rx_buffer ++ rxs;
  };
}

tx_grows :
    {S : Type 0} (w : World S) (e : MessageEntry) (txs rxs : List MessageEntry)
    → with_tx e (waiting txs rxs w) ≡ waiting (txs ++ e ∷ []) rxs w
tx_grows w e txs rxs =
    ap
      (λ q. record (waiting txs rxs w) {
        daemon = record ((waiting txs rxs w).daemon) { tx_buffer = q };
      })
      (append_assoc w.daemon.tx_buffer txs (e ∷ []))

rx_grows :
    {S : Type 0} (w : World S) (e : MessageEntry) (txs rxs : List MessageEntry)
    → with_rx e (waiting txs rxs w) ≡ waiting txs (rxs ++ e ∷ []) w
rx_grows w e txs rxs =
    ap
      (λ q. record (waiting txs rxs w) {
        daemon = record ((waiting txs rxs w).daemon) { rx_buffer = q };
      })
      (append_assoc w.daemon.rx_buffer rxs (e ∷ []))

module _ (r : Redis) (codec : Codec) (writable : ℤ → Bool) where
  unfoldable pub send_all :
      ℤ → ℕ → Bytes → List Bytes → Client → World r.State → Outcome (Client × World r.State)
  send_all fd now dest [] c w = ok (c, w)
  send_all fd now dest (p ∷ ps) c w = do
    (c', w') ← send_via r codec writable fd now dest p c w
    send_all fd now dest ps c' w'

  -- The simulator fetches and posts `n` times.
  unfoldable pub carry_all :
      ℤ → ℤ → ℕ → ℕ → Client → World r.State → Outcome (Client × World r.State)
  carry_all fd1 fd2 later zero c w = ok (c, w)
  carry_all fd1 fd2 later (suc n) c w = do
    (e, w1) ← fetch_via r codec writable fd1 sim_client none c w
    (c', w2) ← post_via r codec writable fd2 later e.source e.destination e.payload_obj c w1
    carry_all fd1 fd2 later n c' w2

  unfoldable pub receive_all :
      ℤ → ℕ → Client → World r.State → Outcome (List MessageEntry × World r.State)
  receive_all fd zero c w = ok ([], w)
  receive_all fd (suc n) c w = do
    (e, w1) ← receive_via r codec writable fd app_client none c w
    (es, w2) ← receive_all fd n c w1
    ok (e ∷ es, w2)

  -- The whole burst: the descriptors are those of the four channels.
  unfoldable pub handled_burst :
      ℤ × ℤ × ℤ × ℤ
      → ℕ
      → ℕ
      → Bytes
      → List Bytes
      → Client
      → Client
      → Client
      → World r.State
      → Outcome (List MessageEntry × World r.State)
  handled_burst (fd1, fd2, fd3, fd4) now later dest ps c1 c2 c3 w = do
    (_, w1) ← send_all fd1 now dest ps c1 w
    (_, w2) ← carry_all fd2 fd3 later (length ps) c2 w1
    receive_all fd4 (length ps) c3 w2

  module _ (l : IsLawful codec) (dest : Bytes) (c1 c2 c3 : Client) (w : World r.State)
      (h : IsReady false dest c1 c2 c3 w) where
    -- The entry of a payload.
    abbrev sent : Bytes → MessageEntry
    sent p = entry c1.client_id dest p p

    all_sent :
        (fd : ℤ) (now : ℕ) (ps : List Bytes) (txs rxs : List MessageEntry)
        → send_all fd now dest ps c1 (waiting txs rxs w)
          ≡ ok (c1, waiting (txs ++ map sent ps) rxs w)
    unfolding send_all
    all_sent fd now [] txs rxs = ap (λ q. ok (c1, waiting q rxs w)) (sym (append-nil txs))
    all_sent fd now (p ∷ ps) txs rxs =
        rw
          (
            send_via_payload r codec l writable fd now dest p c1 app_client (waiting txs rxs w)
                h.app1 h.db1 h.db_daemon h.pull_daemon,
            send_all,
          )
          (rw (tx_grows w (sent p) txs rxs) (
            all_sent fd now ps (txs ++ sent p ∷ []) rxs
            ∙ ap (λ q. ok (c1, waiting q rxs w)) (append_assoc txs (sent p ∷ []) (map sent ps))))

    there : (p : Bytes) → is_empty p ≡ false → exists (sent p) ≡ true
    there p full = exists_entry c1.client_id dest p p h.source_named h.dest_named full

    next_fetched :
        (fd : ℤ) (p : Bytes) (txs rxs : List MessageEntry)
        → is_empty p ≡ false
        → fetch_via r codec writable fd sim_client none c2 (waiting (sent p ∷ txs) rxs w)
          ≡ ok (sent p, waiting txs rxs w)
    next_fetched fd p txs rxs full =
        let mine : from_source c2.client_id (sent p) ≡ true =
          rw h.same_node (str_eq_refl c1.client_id) in
        let clear : keep (from_source c2.client_id) w.daemon.tx_buffer ≡ [] =
          rw h.same_node h.tx_clear in
        fetch_via_payload r codec l writable fd none c2 sim_client (waiting (sent p ∷ txs) rxs w)
          (sent p) (keep (from_source c2.client_id) txs) h.sim2 h.db2 h.pull2 h.per_node2
          h.db_daemon
          (keep_behind (from_source c2.client_id) w.daemon.tx_buffer (sent p) txs clear mine)
          (there p full)
        ∙ ap
            (λ t. ok (
              sent p,
              record (waiting txs rxs w) {
                daemon = record ((waiting txs rxs w).daemon) { tx_buffer = t.1 };
              },
            ))
            (take_first_behind (from_source c2.client_id) w.daemon.tx_buffer (sent p) txs clear
              mine)

    next_received :
        (fd : ℤ) (p : Bytes) (rxs : List MessageEntry)
        → is_empty p ≡ false
        → receive_via r codec writable fd app_client none c3 (waiting [] (sent p ∷ rxs) w)
          ≡ ok (sent p, waiting [] rxs w)
    next_received fd p rxs full =
        let mine : for_destination c3.client_id (sent p) ≡ true = rw h.at_dest (str_eq_refl dest) in
        let clear : keep (for_destination c3.client_id) w.daemon.rx_buffer ≡ [] =
          rw h.at_dest h.rx_clear in
        receive_via_payload r codec l writable fd c3 app_client (waiting [] (sent p ∷ rxs) w)
          (sent p) (keep (for_destination c3.client_id) rxs) h.app3 h.db3 h.pull3 h.db_daemon
          (keep_behind (for_destination c3.client_id) w.daemon.rx_buffer (sent p) rxs clear mine)
          (there p full)
        ∙ ap
            (λ t. ok (
              sent p,
              record (waiting [] rxs w) {
                daemon = record ((waiting [] rxs w).daemon) { rx_buffer = t.1 };
              },
            ))
            (take_first_behind (for_destination c3.client_id) w.daemon.rx_buffer (sent p) rxs clear
              mine)

    all_carried :
        (fd1 fd2 : ℤ) (later : ℕ) (ps : List Bytes) (rxs : List MessageEntry)
        → Full ps
        → carry_all fd1 fd2 later (length ps) c2 (waiting (map sent ps) rxs w)
          ≡ ok (c2, waiting [] (rxs ++ map sent ps) w)
    unfolding carry_all
    all_carried fd1 fd2 later [] rxs full = ap (λ q. ok (c2, waiting [] q w)) (sym (append-nil rxs))
    all_carried fd1 fd2 later (p ∷ ps) rxs full =
        rw
          (
            next_fetched fd1 p (map sent ps) rxs full.0,
            post_via_payload r codec l writable fd2 later c1.client_id dest p c2 sim_client
                (waiting (map sent ps) rxs w) h.sim2 h.db2 h.db_daemon h.pull_daemon,
          )
          (rw (rx_grows w (sent p) (map sent ps) rxs) (
            all_carried fd1 fd2 later ps (rxs ++ sent p ∷ []) full.1
            ∙ ap (λ q. ok (c2, waiting [] q w)) (append_assoc rxs (sent p ∷ []) (map sent ps))))

    all_received :
        (fd : ℤ) (ps : List Bytes)
        → Full ps
        → receive_all fd (length ps) c3 (waiting [] (map sent ps) w)
          ≡ ok (map sent ps, waiting [] [] w)
    unfolding receive_all
    all_received fd [] full = refl
    all_received fd (p ∷ ps) full =
        rw (next_received fd p (map sent ps) full.0, all_received fd ps full.1)

    -- With the handlers alone every payload arrives, in order.
    pub handled_burst_lem :
        (fds : ℤ × ℤ × ℤ × ℤ) (now later : ℕ) (ps : List Bytes)
        → Full ps
        → handled_burst fds now later dest ps c1 c2 c3 w
          ≡ ok (map (λ p. entry c1.client_id dest p p) ps, w)
    unfolding handled_burst
    handled_burst_lem (fd1, fd2, fd3, fd4) now later ps full =
        ap
          (λ v. send_all fd1 now dest ps c1 v >>= λ (x, w1).
            carry_all fd2 fd3 later (length ps) c2 w1 >>= λ (y, w2).
            receive_all fd4 (length ps) c3 w2)
          (sym untouched)
        ∙ rw (all_sent fd1 now ps [] [], all_carried fd2 fd3 later ps [] full)
            (all_received fd4 ps full ∙ ap (λ v. ok (map sent ps, v)) untouched)
      where
        untouched : waiting [] [] w ≡ w
        untouched = λ i. record w {
          daemon = record (w.daemon) {
            tx_buffer = append-nil w.daemon.tx_buffer i;
            rx_buffer = append-nil w.daemon.rx_buffer i;
          };
        }
