-- ===== src/System/Served.antt =====
-- The clients over the server's loop (cpp/src/nsb_client.cc, `start_server` of
-- cpp/src/nsb_daemon.cc): each request is handled in a pass of the loop.
use nsb_beta.System.{app_client, sim_client, World, first_bytes}
use nsb_beta.Base.{ℕ, Bool, Option, none, Bytes, ℤ, pos}
use nsb_beta.Wire.{Codec, Originator}
use nsb_beta.Config.{MessageEntry}
use nsb_beta.Outcome.{Outcome, ok, ◌>>=◌}
use nsb_beta.Daemon.Server.{Server}
use nsb_beta.Daemon.OneRequest.{serve_one}
use nsb_beta.Client.Redis.{Redis}
use nsb_beta.Client.Base.{Client, Sent}
use nsb_beta.Client.App.{app_send, app_receive, receive_request, destination_or_self}
use nsb_beta.Client.Sim.{sim_fetch, sim_post, fetch_request}

-- The server and the database.
pub record Running (S : Type 0) : Type 0 where
  pub server : Server
  pub db : S

-- What `System` sees of it, and the server with the daemon that is then there.
abbrev pub world_of : {S : Type 0} → Running S → World S
world_of t = record { daemon = t.server.daemon; db = t.db }

abbrev pub back : {S : Type 0} → Running S → World S → Running S
back t w = record { server = record (t.server) { daemon = w.daemon }; db = w.db }

abbrev pub back_with : {A S : Type 0} → Running S → Outcome (A × World S) → Outcome (A × Running S)
back_with t m = m >>= λ (x, w). ok (x, back t w)

module _ (r : Redis) (codec : Codec) (writable : ℤ → Bool) (fd : ℤ) where
  unfoldable pub submit_served :
      Bytes × Sent × Client × r.State → Server → Outcome (Client × Running r.State)
  submit_served (key, (channel, bytes), c, db) s = do
    (s', sent) ← serve_one codec writable fd bytes s
    ok (c, record { server = s'; db = db })

  unfoldable pub send_served :
      ℕ → Bytes → Bytes → Client → Running r.State → Outcome (Client × Running r.State)
  unfolding submit_served
  send_served now dest p c t =
      app_send r codec now dest p c t.db >>= λ sent. submit_served sent t.server

  unfoldable pub post_served :
      ℕ → Bytes → Bytes → Bytes → Client → Running r.State → Outcome (Client × Running r.State)
  unfolding submit_served
  post_served now src dest p c t =
      sim_post r codec now src dest p c t.db >>= λ sent. submit_served sent t.server

  -- What a client reads is the first message that the pass sent.
  unfoldable pub ask_served :
      Bytes
      → ((Option Sent → ℤ → Bytes) → Outcome (MessageEntry × r.State))
      → Server
      → Outcome (MessageEntry × Running r.State)
  ask_served request read s = do
    (s', sent) ← serve_one codec writable fd request s
    (e, db) ← read (λ asked timeout. first_bytes sent)
    ok (e, record { server = s'; db = db })

  abbrev pub fetch_bytes : Originator → Option Bytes → Client → Bytes
  fetch_bytes g src c = codec.serialize (fetch_request g c.cfg.simulator_mode src c.client_id)

  abbrev pub receive_bytes : Originator → Option Bytes → Client → Bytes
  receive_bytes g dest c = codec.serialize (receive_request g (destination_or_self dest c))

  unfoldable pub fetch_served :
      Originator
      → Option Bytes
      → Client
      → Running r.State
      → Outcome (MessageEntry × Running r.State)
  unfolding ask_served
  fetch_served g src c t =
      ask_served (fetch_bytes g src c) (λ f. sim_fetch r codec f src (pos 30) c t.db) t.server

  unfoldable pub receive_served :
      Originator
      → Option Bytes
      → Client
      → Running r.State
      → Outcome (MessageEntry × Running r.State)
  unfolding ask_served
  receive_served g dest c t =
      ask_served (receive_bytes g dest c) (λ f. app_receive r codec f dest (pos 30) c t.db) t.server

-- `relay` with every request in a pass of the loop.
module _ (r : Redis) (codec : Codec) (writable : ℤ → Bool) where
  unfoldable pub relay_served :
      ℤ × ℤ × ℤ × ℤ
      → ℕ
      → ℕ
      → Bytes
      → Bytes
      → Client
      → Client
      → Client
      → Running r.State
      → Outcome (MessageEntry × Running r.State)
  relay_served (fd1, fd2, fd3, fd4) now later dest p c1 c2 c3 t = do
    (_, t1) ← send_served r codec writable fd1 now dest p c1 t
    (e, t2) ← fetch_served r codec writable fd2 sim_client none c2 t1
    (_, t3) ← post_served r codec writable fd3 later e.source e.destination e.payload_obj c2 t2
    receive_served r codec writable fd4 app_client none c3 t3
