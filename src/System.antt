-- ===== src/System.antt =====
-- The clients and the daemon together (cpp/src/nsb_client.cc, cpp/src/nsb_daemon.cc): a client's
-- request reaches `handle_message` as it was sent, and the client reads what the daemon sends back.
-- So they run when each request is read by itself and no call of the operating system fails, as in
-- cpp/nsb_test.cc; `Served` puts each request in a pass of the server's loop. `Daemon.Server` and
-- `Client.Socket` have the loops below.
pub mod Steps
pub mod Polls
pub mod Delivery
pub mod Registration
pub mod DatabaseDelivery
pub mod PushDelivery
pub mod Served
pub mod ServedSubmits
pub mod ServedAsks
pub mod ServedRelay
pub mod PostKeeps
pub mod BurstServed
pub mod Burst
use nsb_beta.Base.{
  ℕ, zero, suc, ◌+◌, ◌-◌, ◌*◌, ◌/◌, ◌%◌, ◌^◌, ◌≤◌, ◌<◌, String, ◌≡◌, refl, sym, ap, subst, ◌∙◌, ◌≢◌,
  ◌↔◌, ◌⊎◌, inl, inr, Bool, true, false, not, ◌&&◌, ◌||◌, Option, none, some, get_or, List, [], ◌∷◌,
  ◌++◌, map, Perm, arith, ltb, leb, ◌==◌, if◌then◌else◌, ==_iff, Bool-cases, Option-cases, length,
  is_empty, take, drop, keep, length-append, take-append-drop, length-drop-le, keep-append, Bytes,
  codes, str_eq, str_lt, str_eq_refl, str_eq_iff, c_str, Lacks, c_str-Lacks, Lacks-append,
  split_first, split_last, ℤ, pos, negsuc, minus_one, is_minus_one, to_int32, to_int32_small,
  decimal, to_string, decimal-injective, Lacks-decimal, Lacks-to_string, Map, find, contains, begin,
  emplace, emplace_present, find-emplace_fresh, find-emplace_other, find-emplace_keeps,
  length-emplace-le, decimal-ne-nil, to_int32_negative, c_str_idem,
}
use nsb_beta.Wire.{sim_client, app_client, Codec, Originator, get_op}
use nsb_beta.Config.{MessageEntry, exists}
use nsb_beta.Outcome.{Outcome, ok, fault, ◌>>=◌}
use nsb_beta.Daemon.State.{Daemon}
use nsb_beta.Daemon.Handled
use nsb_beta.Daemon.Dispatch.{handle_message}
use nsb_beta.Client.Redis.{Redis}
use nsb_beta.Client.Base.{Client, Sent}
use nsb_beta.Client.App.{app_send, app_receive, receive_request, destination_or_self}
use nsb_beta.Client.Sim.{sim_fetch, sim_post, fetch_request}

-- The daemon and the database.
pub record World (S : Type 0) : Type 0 where
  pub daemon : Daemon
  pub db : S

-- What the daemon sent first.
abbrev pub first_bytes : List Handled.Sent → Bytes
first_bytes [] = []
first_bytes (s ∷ rest) = s.bytes

-- `fd` is the descriptor on which the daemon has the client's channel.
module _ (r : Redis) (codec : Codec) (writable : ℤ → Bool) (fd : ℤ) where
  unfoldable pub reply : Outcome (Daemon × List Handled.Sent) → Bytes
  reply (fault e) = []
  reply (ok (d, sent)) = first_bytes sent

  -- What a client receives after its request, if it makes one.
  unfoldable pub answer : Daemon → Option Sent → ℤ → Bytes
  answer d none timeout = []
  answer d (some (channel, bytes)) timeout = reply (handle_message codec writable d fd bytes)

  unfoldable pub deliver_request :
      Bytes × Sent × Client × r.State → Daemon → Outcome (Client × World r.State)
  deliver_request (key, (channel, bytes), c, db) d = do
    (d', sent) ← handle_message codec writable d fd bytes
    ok (c, record { daemon = d'; db = db })

  unfoldable pub send_via :
      ℕ → Bytes → Bytes → Client → World r.State → Outcome (Client × World r.State)
  unfolding deliver_request handle_message app_send
  send_via now dest p c w =
      app_send r codec now dest p c w.db >>= λ sent. deliver_request sent w.daemon

  unfoldable pub post_via :
      ℕ → Bytes → Bytes → Bytes → Client → World r.State → Outcome (Client × World r.State)
  unfolding deliver_request handle_message sim_post
  post_via now src dest p c w =
      sim_post r codec now src dest p c w.db >>= λ sent. deliver_request sent w.daemon

  -- `g` is the client's originator, which stands in its requests.
  unfoldable pub fetch_via :
      Originator → Option Bytes → Client → World r.State → Outcome (MessageEntry × World r.State)
  unfolding answer reply handle_message sim_fetch fetch_request
  fetch_via g src c w = do
    (d', _) ←
        handle_message codec writable w.daemon fd
          (codec.serialize (fetch_request g c.cfg.simulator_mode src c.client_id))
    (e, db') ← sim_fetch r codec (answer w.daemon) src (pos 30) c w.db
    ok (e, record { daemon = d'; db = db' })

  unfoldable pub receive_via :
      Originator → Option Bytes → Client → World r.State → Outcome (MessageEntry × World r.State)
  unfolding answer reply handle_message app_receive receive_request
  receive_via g dest c w = do
    (d', _) ←
        handle_message codec writable w.daemon fd
          (codec.serialize (receive_request g (destination_or_self dest c)))
    (e, db') ← app_receive r codec (answer w.daemon) dest (pos 30) c w.db
    ok (e, record { daemon = d'; db = db' })

-- A message on its whole way, as cpp/nsb_test.cc sends it: `c1` sends, the simulator's client
-- fetches for its own node and posts what it got, `c3` receives. `fds` are the descriptors of the
-- four channels.
module _ (r : Redis) (codec : Codec) (writable : ℤ → Bool) where
  unfoldable pub relay :
      ℤ × ℤ × ℤ × ℤ
      → ℕ
      → ℕ
      → Bytes
      → Bytes
      → Client
      → Client
      → Client
      → World r.State
      → Outcome (MessageEntry × World r.State)
  relay (fd1, fd2, fd3, fd4) now later dest p c1 c2 c3 w = do
    (_, w1) ← send_via r codec writable fd1 now dest p c1 w
    (e, w2) ← fetch_via r codec writable fd2 sim_client none c2 w1
    (_, w3) ← post_via r codec writable fd3 later e.source e.destination e.payload_obj c2 w2
    receive_via r codec writable fd4 app_client none c3 w3
