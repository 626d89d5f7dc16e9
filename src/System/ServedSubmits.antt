-- ===== src/System/ServedSubmits.antt =====
-- A client that sends or posts over the server's loop does what it does with the handlers alone
-- (cpp/src/nsb_client.cc, cpp/src/nsb_daemon.cc).
use nsb_beta.System.{send_via, post_via, World, deliver_request}
use nsb_beta.Client.Base.{submit, store_payload, Client, Sent}
use nsb_beta.Base.{
  ℕ, ◌≡◌, refl, sym, ap, ◌∙◌, inl, inr, Bool, false, List, [], ◌∷◌, arith, Option-cases, length,
  is_empty, keep, Bytes, ℤ, to_int32, int_eq,
}
use nsb_beta.Client.App.{app_send}
use nsb_beta.Client.Sim.{sim_post}
use nsb_beta.System.Served.{Running, world_of, back_with, submit_served, send_served, post_served}
use nsb_beta.Wire.{
  set_metadata, set_manifest, message, blank, Operation, Nsbm, Codec, IsLawful, serialize_nonempty,
}
use nsb_beta.Outcome.{Ensures->>=, Outcome, ok, fault, ◌>>=◌, Ensures}
use nsb_beta.Daemon.State.{Daemon}
use nsb_beta.Daemon.Dispatch.{handle_message}
use nsb_beta.Daemon.OneRequest.{serve_one_lem, kept}
use nsb_beta.Client.Redis.{Redis}
use nsb_beta.Daemon.Handled

module _ (r : Redis) (codec : Codec) (writable : ℤ → Bool) (fd : ℤ) where
  abbrev client_got : Client → Running r.State → Outcome (Client × Running r.State)
  client_got c t = ok (c, t)

  client_regrouped :
      (t : Running r.State) (c : Client) (db : r.State) (n : Outcome (Daemon × List Handled.Sent))
      → (kept t.server t.server.channel_fds n >>= λ (s, sent).
          client_got c (record { server = s; db = db }))
        ≡ back_with t (n >>= λ (d, sent). ok (c, record { daemon = d; db = db }))
  client_regrouped t c db (ok (d, sent)) = refl
  client_regrouped t c db (fault e) = refl

  module _ (l : IsLawful codec) where
    -- Every request that a client submits has bytes.
    abbrev Full : Bytes × Sent × Client × r.State → Type 0
    Full (key, (channel, bytes), c, db) = is_empty bytes ≡ false

    store_payload_keeps :
        (now : ℕ) (p : Bytes) (m : Nsbm) (c : Client) (db : r.State)
        → Ensures
            (λ (key, m', c', db'). m'.manifest ≡ m.manifest)
            (store_payload r codec now p m c db)
    unfolding store_payload
    store_payload_keeps now p m c db = ground arith

    submit-Full :
        (op : Operation) (now : ℕ) (src dest p : Bytes) (c : Client) (db : r.State)
        → Ensures Full (submit r codec op now src dest p c db)
    unfolding submit
    submit-Full op now src dest p c db = elim (Option-cases c.origin) [
      | inl absent ↦ rw (absent, submit) tt
      | inr (g, there) ↦
          let m : Nsbm =
            set_metadata src dest (to_int32 (length p)) (set_manifest op g message blank) in
          rw (there, submit)
            (Ensures->>= (λ (key, m', c', db'). m'.manifest ≡ m.manifest) Full
              (store_payload r codec now p m c db) _ (store_payload_keeps now p m c db)
              (λ (key, m', c', db') k. serialize_nonempty codec m' _ l k))
    ]

    submitted :
        (t : Running r.State) (m : Outcome (Bytes × Sent × Client × r.State))
        → keep (int_eq fd) t.server.channel_fds ≡ fd ∷ []
        → Ensures Full m
        → (m >>= λ sent. submit_served r codec writable fd sent t.server)
          ≡ back_with t (m >>= λ sent. deliver_request r codec writable fd sent t.server.daemon)
    unfolding submit_served deliver_request
    submitted t (fault e) once h = refl
    submitted t (ok (key, (channel, bytes), c, db)) once h =
        ap (λ n. n >>= λ (s, sent). client_got c (record { server = s; db = db }))
          (serve_one_lem codec writable fd bytes h t.server once)
        ∙ client_regrouped t c db (handle_message codec writable t.server.daemon fd bytes)

    send_via_lem :
        (now : ℕ) (dest p : Bytes) (c : Client) (w : World r.State)
        → send_via r codec writable fd now dest p c w ≡ (
            submit r codec Operation.send now c.client_id dest p c w.db >>= λ sent.
            deliver_request r codec writable fd sent w.daemon)
    unfolding send_via
    send_via_lem now dest p c w = refl

    post_via_lem :
        (now : ℕ) (src dest p : Bytes) (c : Client) (w : World r.State)
        → post_via r codec writable fd now src dest p c w ≡ (
            submit r codec Operation.post now src dest p c w.db >>= λ sent.
            deliver_request r codec writable fd sent w.daemon)
    unfolding post_via
    post_via_lem now src dest p c w = refl

    pub sent :
        (now : ℕ) (dest p : Bytes) (c : Client) (t : Running r.State)
        → keep (int_eq fd) t.server.channel_fds ≡ fd ∷ []
        → send_served r codec writable fd now dest p c t
          ≡ back_with t (send_via r codec writable fd now dest p c (world_of t))
    unfolding send_served app_send
    sent now dest p c t once =
        submitted t (submit r codec Operation.send now c.client_id dest p c t.db) once
          (submit-Full Operation.send now c.client_id dest p c t.db)
        ∙ ap (back_with t) (sym (send_via_lem now dest p c (world_of t)))

    pub posted :
        (now : ℕ) (src dest p : Bytes) (c : Client) (t : Running r.State)
        → keep (int_eq fd) t.server.channel_fds ≡ fd ∷ []
        → post_served r codec writable fd now src dest p c t
          ≡ back_with t (post_via r codec writable fd now src dest p c (world_of t))
    unfolding post_served sim_post
    posted now src dest p c t once =
        submitted t (submit r codec Operation.post now src dest p c t.db) once
          (submit-Full Operation.post now src dest p c t.db)
        ∙ ap (back_with t) (sym (post_via_lem now src dest p c (world_of t)))
