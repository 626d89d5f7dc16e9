-- ===== src/System/BurstServed.antt =====
-- Many messages in flight at once over the server's loop (cpp/src/nsb_client.cc, `start_server` of
-- cpp/src/nsb_daemon.cc). Messages have no length in front, so that requests which wait together
-- are read as one (`Daemon.Together`); here each is read in a pass of its own, before the next is
-- written.
use nsb_beta.Base.{
  ℕ, zero, suc, ◌^◌, ◌<◌, ◌≡◌, refl, ap, ◌∙◌, Bool, false, none, some, List, [], ◌∷◌, map, length,
  is_empty, keep, Bytes, ℤ, pos, to_int32_small, int_eq,
}
use nsb_beta.Config.{Config, MessageEntry}
use nsb_beta.Client.Base.{Client}
use nsb_beta.System.{World, send_via, fetch_via, post_via, receive_via}
use nsb_beta.Wire.{Codec, IsLawful, app_client, sim_client, pull}
use nsb_beta.Outcome.{Outcome, ok, ◌>>=◌}
use nsb_beta.Client.Redis.{Redis}
use nsb_beta.System.Served.{
  Running, world_of, back, back_with, send_served, post_served, fetch_served, receive_served,
}
use nsb_beta.System.ServedSubmits.{sent, posted}
use nsb_beta.System.ServedAsks.{fetched, received}
use nsb_beta.System.ServedRelay.{back_bind}
use nsb_beta.System.Steps.{entry}
use nsb_beta.System.Delivery.{IsReady}
use nsb_beta.System.Burst.{send_all, carry_all, receive_all, handled_burst, Full, handled_burst_lem}
use nsb_beta.System.PostKeeps.{Same, post_keeps, back_bind_ensured}

-- The entry of a payload: its size is not cut to an `int`.
abbrev pub carried : Bytes → Bytes → Bytes → MessageEntry
carried src dest p = record {
  source = src;
  destination = dest;
  payload_obj = p;
  payload_size = pos (length p);
}

-- No payload is empty, and each has a size that fits an `int`.
abbrev pub AllFit : List Bytes → Type 0
AllFit [] = Unit {0}
AllFit (p ∷ ps) = ((is_empty p ≡ false) × (length p < 2 ^ 31)) × AllFit ps

AllFit-Full : (ps : List Bytes) → AllFit ps → Full ps
AllFit-Full [] all = tt
AllFit-Full (p ∷ ps) all = (all.0.0, AllFit-Full ps all.1)

entries_carried :
    (src dest : Bytes) (ps : List Bytes)
    → AllFit ps
    → map (λ p. entry src dest p p) ps ≡ map (carried src dest) ps
entries_carried src dest [] all = refl
entries_carried src dest (p ∷ ps) all =
    rw (to_int32_small (length p) all.0.1, entries_carried src dest ps all.1)

module _ (r : Redis) (codec : Codec) (writable : ℤ → Bool) where
  unfoldable pub send_each_served :
      ℤ → ℕ → Bytes → List Bytes → Client → Running r.State → Outcome (Client × Running r.State)
  send_each_served fd now dest [] c t = ok (c, t)
  send_each_served fd now dest (p ∷ ps) c t = do
    (c', t') ← send_served r codec writable fd now dest p c t
    send_each_served fd now dest ps c' t'

  -- The simulator fetches and posts `n` times.
  unfoldable pub carry_each_served :
      ℤ → ℤ → ℕ → ℕ → Client → Running r.State → Outcome (Client × Running r.State)
  carry_each_served fd1 fd2 later zero c t = ok (c, t)
  carry_each_served fd1 fd2 later (suc n) c t = do
    (e, t1) ← fetch_served r codec writable fd1 sim_client none c t
    (c', t2) ← post_served r codec writable fd2 later e.source e.destination e.payload_obj c t1
    carry_each_served fd1 fd2 later n c' t2

  unfoldable pub receive_each_served :
      ℤ → ℕ → Client → Running r.State → Outcome (List MessageEntry × Running r.State)
  receive_each_served fd zero c t = ok ([], t)
  receive_each_served fd (suc n) c t = do
    (e, t1) ← receive_served r codec writable fd app_client none c t
    (es, t2) ← receive_each_served fd n c t1
    ok (e ∷ es, t2)

  -- The whole burst: the descriptors are those of the four channels.
  unfoldable pub burst :
      ℤ × ℤ × ℤ × ℤ
      → ℕ
      → ℕ
      → Bytes
      → List Bytes
      → Client
      → Client
      → Client
      → Running r.State
      → Outcome (List MessageEntry × Running r.State)
  unfolding send_each_served carry_each_served receive_each_served
  burst (fd1, fd2, fd3, fd4) now later dest ps c1 c2 c3 t = do
    (_, t1) ← send_each_served fd1 now dest ps c1 t
    (_, t2) ← carry_each_served fd2 fd3 later (length ps) c2 t1
    receive_each_served fd4 (length ps) c3 t2

  -- A channel that the server has once.
  abbrev pub HasOnce : ℤ → Running r.State → Type 0
  HasOnce fd t = keep (int_eq fd) t.server.channel_fds ≡ fd ∷ []

  module _ (l : IsLawful codec) (t : Running r.State) where
    send_each_same :
        (fd : ℤ) (now : ℕ) (dest : Bytes) (ps : List Bytes) (c : Client) (w : World r.State)
        → HasOnce fd t
        → send_each_served fd now dest ps c (back t w)
          ≡ back_with t (send_all r codec writable fd now dest ps c w)
    unfolding send_each_served send_all
    send_each_same fd now dest [] c w h = refl
    send_each_same fd now dest (p ∷ ps) c w h =
        ap (λ m. m >>= λ (c', t'). send_each_served fd now dest ps c' t')
          (sent r codec writable fd l now dest p c (back t w) h)
        ∙ back_bind t (send_via r codec writable fd now dest p c w)
            (λ c' w'. send_all r codec writable fd now dest ps c' w')
            (λ c' t'. send_each_served fd now dest ps c' t')
            (λ c' w'. send_each_same fd now dest ps c' w' h)

    module _ (fd : ℤ) (c : Client) (once : HasOnce fd t) (mode : c.cfg.system_mode ≡ pull) where
      receive_each_same :
          (n : ℕ) (w : World r.State)
          → c.origin ≡ some app_client
          → receive_each_served fd n c (back t w)
            ≡ back_with t (receive_all r codec writable fd n c w)
      unfolding receive_each_served receive_all
      receive_each_same zero w g = refl
      receive_each_same (suc n) w g =
          ap (λ m. m >>= λ (e, t1). more e t1)
            (received r codec writable fd l app_client none c (back t w) once g mode)
          ∙ back_bind t (receive_via r codec writable fd app_client none c w)
              (λ e w1. receive_all r codec writable fd n c w1 >>= λ (es, w2). ok (e ∷ es, w2)) more
              (λ e w1.
                ap (λ m. m >>= λ (es, t2). ok (e ∷ es, t2)) (receive_each_same n w1 g)
                ∙ back_bind t (receive_all r codec writable fd n c w1) (λ es w2. ok (e ∷ es, w2))
                    (λ es t2. ok (e ∷ es, t2)) (λ es w2. refl))
        where
          more : MessageEntry → Running r.State → Outcome (List MessageEntry × Running r.State)
          more e t1 = receive_each_served fd n c t1 >>= λ (es, t2). ok (e ∷ es, t2)

    carry_each_same :
        (fd fd' : ℤ) (later n : ℕ) (c : Client) (w : World r.State)
        → HasOnce fd t
        → HasOnce fd' t
        → c.origin ≡ some sim_client
        → c.cfg.system_mode ≡ pull
        → carry_each_served fd fd' later n c (back t w)
          ≡ back_with t (carry_all r codec writable fd fd' later n c w)
    unfolding carry_each_served carry_all
    carry_each_same fd fd' later zero c w once h g mode = refl
    carry_each_same fd fd' later (suc n) c w once h g mode =
        ap (λ m. m >>= λ (e, t1). more e t1)
          (fetched r codec writable fd l sim_client none c (back t w) once g mode)
        ∙ back_bind t (fetch_via r codec writable fd sim_client none c w) more_via more (λ e w1.
          ap (λ m. m >>= λ (c', t2). carry_each_served fd fd' later n c' t2)
            (posted r codec writable fd' l later e.source e.destination e.payload_obj c (back t w1)
              h)
          ∙ back_bind_ensured (λ (c', w2). Same c c') t
              (post_via r codec writable fd' later e.source e.destination e.payload_obj c w1)
              (λ c' w2. carry_all r codec writable fd fd' later n c' w2)
              (λ c' t2. carry_each_served fd fd' later n c' t2)
              (post_keeps r codec writable fd' later e.source e.destination e.payload_obj c w1)
              (λ c' w2 same.
                carry_each_same fd fd' later n c' w2 once h (same.0 ∙ g)
                  (ap (λ (k : Config). k.system_mode) same.1 ∙ mode)))
      where
        more : MessageEntry → Running r.State → Outcome (Client × Running r.State)
        more e t1 =
            post_served r codec writable fd' later e.source e.destination e.payload_obj c t1
            >>= λ (c', t2). carry_each_served fd fd' later n c' t2

        more_via : MessageEntry → World r.State → Outcome (Client × World r.State)
        more_via e w1 =
            post_via r codec writable fd' later e.source e.destination e.payload_obj c w1
            >>= λ (c', w2). carry_all r codec writable fd fd' later n c' w2

    burst_same :
        (fd1 fd2 fd3 fd4 : ℤ) (now later : ℕ) (dest : Bytes) (ps : List Bytes) (c1 c2 c3 : Client)
        → HasOnce fd1 t
        → HasOnce fd2 t
        → HasOnce fd3 t
        → HasOnce fd4 t
        → c2.origin ≡ some sim_client
        → c3.origin ≡ some app_client
        → c2.cfg.system_mode ≡ pull
        → c3.cfg.system_mode ≡ pull
        → burst (fd1, fd2, fd3, fd4) now later dest ps c1 c2 c3 t
          ≡ back_with t (
              handled_burst r codec writable
                (fd1, fd2, fd3, fd4)
                now
                later
                dest
                ps
                c1
                c2
                c3
                (world_of t))
    unfolding burst handled_burst
    burst_same fd1 fd2 fd3 fd4 now later dest ps c1 c2 c3 h1 h2 h3 h4 o2 o3 m2 m3 =
        ap (λ m. m >>= λ (x, t1). carrying t1) (send_each_same fd1 now dest ps c1 (world_of t) h1)
        ∙ back_bind t (send_all r codec writable fd1 now dest ps c1 (world_of t))
            (λ x w1. carrying_via w1) (λ x t1. carrying t1)
            (λ x w1.
              ap (λ m. m >>= λ (y, t2). receive_each_served fd4 (length ps) c3 t2)
                (carry_each_same fd2 fd3 later (length ps) c2 w1 h2 h3 o2 m2)
              ∙ back_bind t (carry_all r codec writable fd2 fd3 later (length ps) c2 w1)
                  (λ y w2. receive_all r codec writable fd4 (length ps) c3 w2)
                  (λ y t2. receive_each_served fd4 (length ps) c3 t2)
                  (λ y w2. receive_each_same fd4 c3 h4 m3 (length ps) w2 o3))
      where
        carrying : Running r.State → Outcome (List MessageEntry × Running r.State)
        carrying t1 = carry_each_served fd2 fd3 later (length ps) c2 t1 >>= λ (y, t2).
            receive_each_served fd4 (length ps) c3 t2

        carrying_via : World r.State → Outcome (List MessageEntry × World r.State)
        carrying_via w1 = carry_all r codec writable fd2 fd3 later (length ps) c2 w1 >>= λ (y, w2).
            receive_all r codec writable fd4 (length ps) c3 w2

    -- In PULL mode with per-node simulators and without a database, when nothing waits at the source
    -- and at the destination (`IsReady`), over the server's loop with channels that it has once
    -- each: if every request is read in a pass of its own, before the next one is written, then
    -- messages that are not empty, have less than 2^31 bytes, and are all sent before the first is
    -- fetched, and all posted before the first is received, arrive in the order in which they were
    -- sent, each with its source, its destination, its payload and its size. The server and the
    -- database are then as they were before.
    pub burst_arrives_in_order :
        (fds : ℤ × ℤ × ℤ × ℤ) (now later : ℕ) (dest : Bytes) (ps : List Bytes) (c1 c2 c3 : Client)
        → HasOnce fds.0 t
        → HasOnce fds.1 t
        → HasOnce fds.2 t
        → HasOnce fds.3 t
        → IsReady false dest c1 c2 c3 (world_of t)
        → AllFit ps
        → burst fds now later dest ps c1 c2 c3 t ≡ ok (map (carried c1.client_id dest) ps, t)
    burst_arrives_in_order (fd1, fd2, fd3, fd4) now later dest ps c1 c2 c3 h1 h2 h3 h4 ready all =
        burst_same fd1 fd2 fd3 fd4 now later dest ps c1 c2 c3 h1 h2 h3 h4 ready.sim2 ready.app3
          ready.pull2 ready.pull3
        ∙ ap (back_with t) (
            handled_burst_lem r codec writable l dest c1 c2 c3 (world_of t) ready
              (fd1, fd2, fd3, fd4) now later ps (AllFit-Full ps all))
        ∙ ap (λ es. ok (es, t)) (entries_carried c1.client_id dest ps all)
