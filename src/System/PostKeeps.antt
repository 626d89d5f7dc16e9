-- ===== src/System/PostKeeps.antt =====
-- What a client (cpp/src/nsb_client.cc) keeps of itself when it posts.
use nsb_beta.Base.{ℕ, ◌≡◌, refl, Bool, List, arith, Bytes, ℤ}
use nsb_beta.Daemon.State.{Daemon}
use nsb_beta.Daemon.Handled.{Sent}
use nsb_beta.Daemon.Dispatch.{handle_message}
use nsb_beta.Client.Base.{submit, store_payload, Client}
use nsb_beta.System.{deliver_request, World, post_via}
use nsb_beta.Wire.{Operation, Codec}
use nsb_beta.Outcome.{fault, Ensures, Ensures->>=, Outcome, ok, ◌>>=◌}
use nsb_beta.Client.Redis.{Redis}
use nsb_beta.System.Served.{Running, back, back_with}
use nsb_beta.System.ServedSubmits.{sent}

-- A client keeps its kind and its configuration when it submits.
abbrev pub Same : Client → Client → Type 0
Same c c' = (c'.origin ≡ c.origin) × (c'.cfg ≡ c.cfg)

module _ (r : Redis) (codec : Codec) where
  submit_keeps :
      (op : Operation) (now : ℕ) (src dest p : Bytes) (c : Client) (db : r.State)
      → Ensures (λ (key, sent, c', db'). Same c c') (submit r codec op now src dest p c db)
  unfolding submit store_payload
  submit_keeps op now src dest p c db = ground arith

  delivered_keeps :
      (c c' : Client) (db : r.State) (m : Outcome (Daemon × List Sent))
      → Same c c'
      → Ensures {A = Client × World r.State}
          (λ (c'', w). Same c c'')
          (m >>= λ (d, x). ok (c', record { daemon = d; db = db }))
  delivered_keeps c c' db (ok d) h = h
  delivered_keeps c c' db (fault e) h = tt

  pub post_keeps :
      (writable : ℤ → Bool) (fd : ℤ) (now : ℕ) (src dest p : Bytes) (c : Client) (w : World r.State)
      → Ensures (λ (c', w'). Same c c') (post_via r codec writable fd now src dest p c w)
  unfolding post_via deliver_request
  post_keeps writable fd now src dest p c w =
      Ensures->>= (λ (key, sent, c', db'). Same c c') (λ (c', w'). Same c c')
        (submit r codec Operation.post now src dest p c w.db)
        (λ sent. deliver_request r codec writable fd sent w.daemon)
        (submit_keeps Operation.post now src dest p c w.db)
        (λ (key, (channel, bytes), c', db') h.
          delivered_keeps c c' db' (handle_message codec writable w.daemon fd bytes) h)

-- `back_bind` where the first part ensures something of its result.
pub back_bind_ensured :
    {A B S : Type 0} (Q : A × World S → Type 0) (t : Running S) (m : Outcome (A × World S))
    (f : A → World S → Outcome (B × World S)) (g : A → Running S → Outcome (B × Running S))
    → Ensures Q m
    → ((x : A) (w : World S) → Q (x, w) → g x (back t w) ≡ back_with t (f x w))
    → (back_with t m >>= λ (x, t'). g x t') ≡ back_with t (m >>= λ (x, w). f x w)
back_bind_ensured Q t (ok (x, w)) f g q h = h x w q
back_bind_ensured Q t (fault e) f g q h = refl
