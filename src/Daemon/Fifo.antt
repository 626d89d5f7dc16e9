-- ===== src/Daemon/Fifo.antt =====
-- Many SENDs and FETCHes in a row (cpp/src/nsb_daemon.cc).
use nsb_beta.Base.{
  ℕ, zero, suc, ◌≡◌, refl, sym, ap, ◌∙◌, ◌≢◌, Bool, some, List, [], ◌∷◌, ◌++◌, map, arith, length,
  keep, keep-append, Bytes, str_eq, ℤ,
}
use nsb_beta.Daemon.Answers.{AllAnswer, entry_in}
use nsb_beta.Config.{Config, MessageEntry}
use nsb_beta.Wire.{get_src_id, Operation, Nsbm, Metadata, Codec, pull, response_template}
use nsb_beta.Daemon.State.{msg_get_payload_obj, Daemon}
use mathlib.Core.List.{append_assoc, append-nil}
use nsb_beta.Outcome.{Outcome, ok, ◌>>=◌}
use nsb_beta.Daemon.Buffers.{entry_of_message, from_source, handle_fetch}
use nsb_beta.Daemon.Forward.{handle_send, send_in}
use nsb_beta.Daemon.Queues.{tx_queue, fetch_serves_oldest}

-- SENDs, one after another.
unfoldable pub send_each : Codec → (ℤ → Bool) → List Nsbm → Daemon → Outcome Daemon
unfolding handle_send
send_each codec w [] d = ok d
send_each codec w (m ∷ ms) d = do
  h ← handle_send codec w d m response_template
  send_each codec w ms h.daemon

-- The same FETCH so many times: the responses and the daemon.
unfoldable pub fetch_each : Nsbm → ℕ → Daemon → List Nsbm × Daemon
unfolding handle_fetch
fetch_each m zero d = ([], d)
fetch_each m (suc n) d =
    let h = handle_fetch d m response_template in
    let (responses, d') = fetch_each m n h.daemon in (h.outgoing ∷ responses, d')

abbrev with_entries : Daemon → List MessageEntry → Daemon
with_entries d es = record d { tx_buffer = es }

send_each_buffers :
    (codec : Codec) (w : ℤ → Bool) (ms : List Nsbm) (d : Daemon)
    → d.cfg.system_mode ≡ pull
    → send_each codec w ms d ≡ ok (with_entries d (d.tx_buffer ++ map (entry_of_message d.cfg) ms))
unfolding send_each
send_each_buffers codec w [] d h = ap (λ es. ok (with_entries d es)) (sym (append-nil d.tx_buffer))
send_each_buffers codec w (m ∷ ms) d h =
    let d' : Daemon = with_entries d (d.tx_buffer ++ entry_of_message d.cfg m ∷ []) in
    ap (λ mode. send_in codec w mode d m response_template >>= λ r. send_each codec w ms r.daemon) h
    ∙ send_each_buffers codec w ms d' h
    ∙ ap (λ es. ok (with_entries d es))
        (append_assoc d.tx_buffer (entry_of_message d.cfg m ∷ []) (map (entry_of_message d.cfg) ms))

longer : (s : Bytes) → 0 ∷ s ≢ s
longer s h = absurd (omega (arith, ap length h))

fetch_each_drains :
    (m : Nsbm) (md : Metadata) (s : Bytes) (es : List MessageEntry) (d : Daemon)
    → m.metadata ≡ some md
    → md.src_id ≡ some s
    → tx_queue s d ≡ es
    → AllAnswer Operation.fetch d.cfg es (fetch_each m (length es) d).0
      × (tx_queue s (fetch_each m (length es) d).1 ≡ [])
unfolding fetch_each
fetch_each_drains m md s [] d hm hs hq = (tt, hq)
fetch_each_drains m md s (e ∷ es) d hm hs hq =
    let (answer, _, left, _, _) =
      fetch_serves_oldest d m response_template md s e es (0 ∷ s) hm hs hq (longer s) in
    let (answers, drained) =
      fetch_each_drains m md s es (handle_fetch d m response_template).daemon hm hs left in
    ((answer, answers), drained)

-- The SENDs that name a source.
abbrev pub sent_by : Bytes → List Nsbm → List Nsbm
sent_by s ms = keep (λ m. str_eq (get_src_id m) s) ms

entries_sent_by :
    (c : Config) (s : Bytes) (ms : List Nsbm)
    → keep (from_source s) (map (entry_of_message c) ms) ≡ map (entry_in c) (sent_by s ms)
unfolding keep entry_of_message msg_get_payload_obj
entries_sent_by c s [] = refl
entries_sent_by c s (m ∷ ms) = ground (arith, entries_sent_by c s ms)

-- After any SENDs, each handled by itself, to a daemon in PULL mode that holds nothing of a source,
-- as many FETCHes for that source as it sent messages are answered by its messages in the order of their SENDs: each response
-- is a FETCH of the daemon that carries the source, the destination, the payload (or, where a
-- database is used, the key) and the size that its SEND carried, or has the code NO_MESSAGE where
-- one of the first three is empty. Then nothing of the source is left.
pub fetch_each-send_each :
    (codec : Codec) (w : ℤ → Bool) (ms : List Nsbm) (d : Daemon) (m : Nsbm) (md : Metadata)
    (s : Bytes)
    → d.cfg.system_mode ≡ pull
    → tx_queue s d ≡ []
    → m.metadata ≡ some md
    → md.src_id ≡ some s
    → let es = map (entry_in d.cfg) (sent_by s ms) in
      (d' : Daemon) × (send_each codec w ms d ≡ ok d')
      × AllAnswer Operation.fetch d.cfg es (fetch_each m (length es) d').0
      × (tx_queue s (fetch_each m (length es) d').1 ≡ [])
fetch_each-send_each codec w ms d m md s h hq hm hs =
    let stored : List MessageEntry = map (entry_of_message d.cfg) ms in
    let d' : Daemon = with_entries d (d.tx_buffer ++ stored) in
    let queued =
      keep-append (from_source s) d.tx_buffer stored
      ∙ ap (λ es. es ++ keep (from_source s) stored) hq
      ∙ entries_sent_by d.cfg s ms in
    let (answers, drained) =
      fetch_each_drains m md s (map (entry_in d.cfg) (sent_by s ms)) d' hm hs queued in
    (d', send_each_buffers codec w ms d h, answers, drained)
