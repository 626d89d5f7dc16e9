-- ===== src/Python/Mixed.antt =====
-- Clients of python/nsb_client.py and of cpp/src/nsb_client.cc with the same daemon: the steps of
-- `System` for a Python client, and a message on its way between clients of either language.
use nsb_beta.Base.{ℕ, Bool, Option, none, some, [], ◌∷◌, Bytes, ℤ, pos}
use nsb_beta.Wire.{Originator, app_client, sim_client}
use nsb_beta.Config.{MessageEntry}
use nsb_beta.Outcome.{Outcome, ok, fault, exits, ◌>>=◌}
use nsb_beta.Daemon.State.{Daemon}
use nsb_beta.Daemon.Dispatch.{handle_message}
use nsb_beta.Client.Redis.{Redis}
use nsb_beta.Client.Base.{Client, Sent}
use nsb_beta.System.{World, answer, deliver_request, send_via, fetch_via, post_via, receive_via}
use nsb_beta.Python.Raises.{Result, returns, raises}
use nsb_beta.Python.Base.{Protobuf, Entry}
use nsb_beta.Python.Client.{py_send, py_post, py_receive, py_fetch, receive_request, fetch_request}

-- An exception that a script does not catch ends it, and so does the use of `None` as an entry.
abbrev pub settle {ℓ} : {A : Type ℓ} → Result A → Outcome A
settle (returns a) = ok a
settle (raises e) = fault exits

abbrev pub as_message_entry : Entry → MessageEntry
as_message_entry e = record {
  source = e.src_id;
  destination = e.dest_id;
  payload_obj = e.payload;
  payload_size = pos e.payload_size;
}

abbrev pub used : Option Entry → Outcome MessageEntry
used none = fault exits
used (some e) = ok (as_message_entry e)

-- `_recv_msg` returns `None` where there are no bytes.
abbrev pub or_none : Bytes → Option Bytes
or_none [] = none
or_none (b ∷ bs) = some (b ∷ bs)

module _ (r : Redis) (pb : Protobuf) (writable : ℤ → Bool) (fd : ℤ) where
  abbrev pub py_answer : Daemon → Option Sent → Option ℕ → Option Bytes
  py_answer d request timeout = or_none (answer r pb.codec writable fd d request (pos 0))

  unfoldable pub py_send_via :
      ℕ → Bytes → Bytes → Client → World r.State → Outcome (Client × World r.State)
  unfolding py_send deliver_request
  py_send_via now dest p c w =
      let (result, (c', db')) = py_send r pb now dest p (c, w.db) in
      settle result >>= λ (key, sent).
      deliver_request r pb.codec writable fd ([], sent, c', db') w.daemon

  unfoldable pub py_post_via :
      Bytes → Bytes → Bytes → Client → World r.State → Outcome (Client × World r.State)
  unfolding py_post deliver_request
  py_post_via src dest p c w =
      let (result, (c', db')) = py_post r pb src dest p (c, w.db) in
      settle result >>= λ sent. deliver_request r pb.codec writable fd ([], sent, c', db') w.daemon

  unfoldable pub py_fetch_via :
      Originator → Option Bytes → Client → World r.State → Outcome (MessageEntry × World r.State)
  unfolding py_fetch fetch_request answer handle_message
  py_fetch_via g src c w =
      handle_message pb.codec writable w.daemon fd
        (pb.codec.serialize (fetch_request g c.cfg.simulator_mode c.client_id src))
      >>= λ (d', _).
          let (result, (c', db')) = py_fetch r pb (py_answer w.daemon) src none (c, w.db) in
          settle result >>= used >>= λ e. ok (e, record { daemon = d'; db = db' })

  unfoldable pub py_receive_via :
      Originator → Option Bytes → Client → World r.State → Outcome (MessageEntry × World r.State)
  unfolding py_receive receive_request answer handle_message
  py_receive_via g dest c w =
      handle_message pb.codec writable w.daemon fd
        (pb.codec.serialize (receive_request g c.client_id dest))
      >>= λ (d', _).
          let (result, (c', db')) = py_receive r pb (py_answer w.daemon) dest none (c, w.db) in
          settle result >>= used >>= λ e. ok (e, record { daemon = d'; db = db' })

pub data Language : Type 0 where
  cpp python : Language

-- Each step by a client of either language.
module _ (r : Redis) (pb : Protobuf) (writable : ℤ → Bool) where
  unfoldable pub send_by :
      Language → ℤ → ℕ → Bytes → Bytes → Client → World r.State → Outcome (Client × World r.State)
  unfolding py_send_via send_via
  send_by cpp fd = send_via r pb.codec writable fd
  send_by python fd = py_send_via r pb writable fd

  unfoldable pub fetch_by :
      Language → ℤ → Client → World r.State → Outcome (MessageEntry × World r.State)
  unfolding py_fetch_via fetch_via
  fetch_by cpp fd = fetch_via r pb.codec writable fd sim_client none
  fetch_by python fd = py_fetch_via r pb writable fd sim_client none

  unfoldable pub post_by :
      Language
      → ℤ
      → ℕ
      → Bytes
      → Bytes
      → Bytes
      → Client
      → World r.State
      → Outcome (Client × World r.State)
  unfolding py_post_via post_via
  post_by cpp fd now = post_via r pb.codec writable fd now
  post_by python fd now = py_post_via r pb writable fd

  unfoldable pub receive_by :
      Language → ℤ → Client → World r.State → Outcome (MessageEntry × World r.State)
  unfolding py_receive_via receive_via
  receive_by cpp fd = receive_via r pb.codec writable fd app_client none
  receive_by python fd = py_receive_via r pb writable fd app_client none

  -- `c1` sends, the simulator's client `c2` fetches and posts, and `c3` receives.
  unfoldable pub mixed_relay :
      Language × Language × Language
      → ℤ × ℤ × ℤ × ℤ
      → ℕ
      → ℕ
      → Bytes
      → Bytes
      → Client
      → Client
      → Client
      → World r.State
      → Outcome (MessageEntry × World r.State)
  unfolding send_by fetch_by post_by receive_by
  mixed_relay (l1, l2, l3) (fd1, fd2, fd3, fd4) now later dest p c1 c2 c3 w = do
    (_, w1) ← send_by l1 fd1 now dest p c1 w
    (e, w2) ← fetch_by l2 fd2 c2 w1
    (_, w3) ← post_by l2 fd3 later e.source e.destination e.payload_obj c2 w2
    receive_by l3 fd4 c3 w3
