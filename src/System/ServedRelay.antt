-- ===== src/System/ServedRelay.antt =====
-- A message on its whole way with every request in a pass of the server's loop (cpp/src/nsb_client.cc,
-- `start_server` of cpp/src/nsb_daemon.cc).
use nsb_beta.Base.{ℕ, ◌≡◌, refl, ap, ◌∙◌, Bool, none, some, [], ◌∷◌, keep, Bytes, ℤ, int_eq}
use nsb_beta.Wire.{Codec, IsLawful, app_client, sim_client, pull}
use nsb_beta.Config.{MessageEntry}
use nsb_beta.Outcome.{Outcome, ok, fault, ◌>>=◌}
use nsb_beta.Client.Redis.{Redis}
use nsb_beta.Client.Base.{Client}
use nsb_beta.System.{World, relay, send_via, fetch_via, post_via, receive_via}
use nsb_beta.System.Served.{
  Running, world_of, back, back_with, post_served, fetch_served, receive_served, relay_served,
}
use nsb_beta.System.ServedSubmits.{sent, posted}
use nsb_beta.System.ServedAsks.{fetched, received}

pub back_bind :
    {A B S : Type 0} (t : Running S) (m : Outcome (A × World S))
    (f : A → World S → Outcome (B × World S)) (g : A → Running S → Outcome (B × Running S))
    → ((x : A) (w : World S) → g x (back t w) ≡ back_with t (f x w))
    → (back_with t m >>= λ (x, t'). g x t') ≡ back_with t (m >>= λ (x, w). f x w)
back_bind t (ok (x, w)) f g h = h x w
back_bind t (fault e) f g h = refl

module _ (r : Redis) (codec : Codec) (l : IsLawful codec) (writable : ℤ → Bool) where
  -- In PULL mode, with channels that the server has once each, a simulator's client that fetches
  -- and posts and an application's that receives, the way of a message over the server's loop, each
  -- request in a pass of its own, is `relay`, which calls the handlers alone: the same message or
  -- fault at the end, the same daemon and database, and the channels stay.
  pub relay_served_is_relay :
      (fd1 fd2 fd3 fd4 : ℤ) (now later : ℕ) (dest p : Bytes) (c1 c2 c3 : Client)
      (t : Running r.State)
      → keep (int_eq fd1) t.server.channel_fds ≡ fd1 ∷ []
      → keep (int_eq fd2) t.server.channel_fds ≡ fd2 ∷ []
      → keep (int_eq fd3) t.server.channel_fds ≡ fd3 ∷ []
      → keep (int_eq fd4) t.server.channel_fds ≡ fd4 ∷ []
      → c2.origin ≡ some sim_client
      → c3.origin ≡ some app_client
      → c2.cfg.system_mode ≡ pull
      → c3.cfg.system_mode ≡ pull
      → relay_served r codec writable (fd1, fd2, fd3, fd4) now later dest p c1 c2 c3 t
        ≡ back_with t
            (relay r codec writable (fd1, fd2, fd3, fd4) now later dest p c1 c2 c3 (world_of t))
  unfolding relay_served relay
  relay_served_is_relay fd1 fd2 fd3 fd4 now later dest p c1 c2 c3 t h1 h2 h3 h4 o2 o3 m2 m3 =
      ap (λ n. n >>= λ (x, t1). fetching t1) (sent r codec writable fd1 l now dest p c1 t h1)
      ∙ back_bind t (send_via r codec writable fd1 now dest p c1 (world_of t))
          (λ x w. fetching_via w) (λ x t1. fetching t1) (λ x w. after_send w)
    where
      receiving : Running r.State → Outcome (MessageEntry × Running r.State)
      receiving t3 = receive_served r codec writable fd4 app_client none c3 t3

      receiving_via : World r.State → Outcome (MessageEntry × World r.State)
      receiving_via w3 = receive_via r codec writable fd4 app_client none c3 w3

      posting : MessageEntry → Running r.State → Outcome (MessageEntry × Running r.State)
      posting e t2 =
          post_served r codec writable fd3 later e.source e.destination e.payload_obj c2 t2
          >>= λ (x, t3). receiving t3

      posting_via : MessageEntry → World r.State → Outcome (MessageEntry × World r.State)
      posting_via e w2 =
          post_via r codec writable fd3 later e.source e.destination e.payload_obj c2 w2
          >>= λ (x, w3). receiving_via w3

      fetching : Running r.State → Outcome (MessageEntry × Running r.State)
      fetching t1 =
          fetch_served r codec writable fd2 sim_client none c2 t1 >>= λ (e, t2). posting e t2

      fetching_via : World r.State → Outcome (MessageEntry × World r.State)
      fetching_via w1 =
          fetch_via r codec writable fd2 sim_client none c2 w1 >>= λ (e, w2). posting_via e w2

      after_post : (w : World r.State) → receiving (back t w) ≡ back_with t (receiving_via w)
      after_post w = received r codec writable fd4 l app_client none c3 (back t w) h4 o3 m3

      after_fetch :
          (e : MessageEntry) (w : World r.State)
          → posting e (back t w) ≡ back_with t (posting_via e w)
      after_fetch e w =
          ap (λ n. n >>= λ (x, t3). receiving t3)
            (posted r codec writable fd3 l later e.source e.destination e.payload_obj c2 (back t w)
              h3)
          ∙ back_bind t
              (post_via r codec writable fd3 later e.source e.destination e.payload_obj c2 w)
              (λ x w3. receiving_via w3) (λ x t3. receiving t3) (λ x w3. after_post w3)

      after_send : (w : World r.State) → fetching (back t w) ≡ back_with t (fetching_via w)
      after_send w =
          ap (λ n. n >>= λ (e, t2). posting e t2)
            (fetched r codec writable fd2 l sim_client none c2 (back t w) h2 o2 m2)
          ∙ back_bind t (fetch_via r codec writable fd2 sim_client none c2 w) posting_via posting
              after_fetch
