-- ===== src/Python/KeyedReceive.antt =====
-- What `NSBAppClient.receive` of python/nsb_client.py does with an entry whose key is not in the
-- database.
use nsb_beta.Base.{
  ◌≡◌, refl, ap, ◌∙◌, ◌≢◌, Bool, true, false, none, some, List, [], ◌∷◌, arith, length, is_empty,
  Bytes, ℤ,
}
use nsb_beta.Wire.{
  pull, blank, serialize_nonempty, daemon, message, set_metadata, msg_key, is_message, get_code,
  content_msg_key, Nsbm, Operation, Originator, success, response_template, set_manifest,
  set_dest_id,
}
use nsb_beta.Daemon.State.{msg_set_payload_obj, Daemon}
use nsb_beta.Python.Raises.{Method, Exception, returns, ◌>>=◌, raises, type_error}
use nsb_beta.Python.Redis.{check_out}
use nsb_beta.Python.Client.{
  response_payload, check_out_own, none_raises, entry_with, py_receive, open_response,
  receive_request, is_anything,
}
use nsb_beta.Config.{exists, MessageEntry}
use nsb_beta.Client.Redis.{Connector, Redis, nil}
use nsb_beta.Client.Base.{Client}
use nsb_beta.System.{World, answer, reply}
use nsb_beta.Python.Mixed.{py_answer, or_none}
use nsb_beta.Daemon.Buffers.{entry_response}
use nsb_beta.Daemon.Queues.{rx_queue}
use nsb_beta.Daemon.RxQueues.{receive_oldest}
use nsb_beta.Daemon.Dispatch.{dispatch, handle_message}
use nsb_beta.Python.Base.{Protobuf, IsLawfulPb}
use nsb_beta.Client.Redis as Redis

longer : (s : Bytes) → 0 ∷ s ≢ s
longer s h = absurd (omega (arith, ap length h))

module _ (r : Redis) (lr : Redis.IsLawful r) (pb : Protobuf) (l : IsLawfulPb pb)
    (writable : ℤ → Bool) (fd : ℤ) where
  abbrev request : Originator → Bytes → Nsbm
  request g s = set_dest_id s (set_manifest Operation.receive g success blank)

  -- The daemon's answer to a request for what goes to `s`.
  daemon_answers :
      (d : Daemon) (g : Originator) (s : Bytes) (e : MessageEntry) (rest : List MessageEntry)
      → rx_queue s d ≡ e ∷ rest
      → reply r pb.codec writable fd
          (handle_message pb.codec writable d fd (pb.codec.serialize (request g s)))
        ≡ pb.codec.serialize (entry_response Operation.receive d.cfg e response_template)
  unfolding handle_message dispatch reply
  daemon_answers d g s e rest h = rw (l.lawful.parse-serialize (request g s)) (
      ap pb.codec.serialize
        (receive_oldest d (request g s) response_template _ s e rest (0 ∷ s) refl refl h
          (longer s)).0)

  -- A client with a database that polls.
  abbrev pub keyed : Client → Originator → Connector → Client
  keyed c g conn = record c {
    origin = some g;
    cfg = record (c.cfg) { use_db = true; system_mode = pull };
    db = some conn;
  }

  -- A key under which nothing is stored.
  check_out_nothing :
      (key : Bytes) (s : r.State)
      → r.connected s ≡ true
      → lr.stored s key ≡ none
      → (check_out r key s).0 ≡ returns none
  unfolding check_out
  check_out_nothing key s online e = rw (lr.getdel_reply s key online) (rw e)

  bind_raises :
      {S A B : Type 0} (m : Method S A) (f : A → Method S B) (s : S) (x : Exception)
      → (m s).0 ≡ raises x
      → ((m >>= f) s).0 ≡ raises x
  bind_raises m f s x h = rw (h, ◌>>=◌)

  bind_returns :
      {S A B : Type 0} (m : Method S A) (f : A → Method S B) (s : S) (a : A)
      → (m s).0 ≡ returns a
      → ((m >>= f) s).0 ≡ (f a (m s).1).0
  bind_returns m f s a h = rw (h, ◌>>=◌)

  payload_raises :
      (m : Nsbm) (c : Client) (g : Originator) (conn : Connector) (s : r.State)
      → r.connected s ≡ true
      → lr.stored s (content_msg_key m.content) ≡ none
      → (response_payload r pb m (keyed c g conn, s)).0 ≡ raises type_error
  unfolding response_payload check_out_own
  payload_raises m c g conn s online nothing =
      bind_returns (check_out_own r pb (content_msg_key m.content)) (none_raises r pb)
        (keyed c g conn, s) none (check_out_nothing (content_msg_key m.content) s online nothing)

  opened_raises :
      (response : Bytes) (m : Nsbm) (c : Client) (g : Originator) (conn : Connector) (s : r.State)
      → is_empty response ≡ false
      → pb.decodes response ≡ true
      → pb.codec.parse response ≡ m
      → is_message (get_code m) ≡ true
      → r.connected s ≡ true
      → lr.stored s (content_msg_key m.content) ≡ none
      → (open_response r pb is_anything (or_none response) (keyed c g conn, s)).0
        ≡ raises type_error
  unfolding open_response
  opened_raises [] m c g conn s full d e carried online nothing = cc
  opened_raises (b ∷ bs) m c g conn s full d e carried online nothing =
      rw (d, e, carried)
        (bind_raises (response_payload r pb m) (entry_with r pb m) (keyed c g conn, s) type_error
          (payload_raises m c g conn s online nothing))

  -- The answer that carries an entry and its key.
  abbrev keyed_answer : MessageEntry → Nsbm
  keyed_answer e =
      record (set_metadata e.source e.destination e.payload_size
        (set_manifest Operation.receive daemon message response_template)) {
          content = msg_key e.payload_obj;
        }

  entry_response_keyed :
      (d : Daemon) (e : MessageEntry)
      → d.cfg.use_db ≡ true
      → exists e ≡ true
      → entry_response Operation.receive d.cfg e response_template ≡ keyed_answer e
  unfolding entry_response msg_set_payload_obj
  entry_response_keyed d e db there = rw (there, db)

  -- An entry whose payload stands where its key belongs, in a request's answer.
  pub keyed_entry_raises :
      (c : Client) (g : Originator) (conn : Connector) (w : World r.State) (e : MessageEntry)
      (rest : List MessageEntry)
      → w.daemon.cfg.use_db ≡ true
      → rx_queue c.client_id w.daemon ≡ e ∷ rest
      → exists e ≡ true
      → r.connected w.db ≡ true
      → lr.stored w.db e.payload_obj ≡ none
      → (py_receive r pb (py_answer r pb writable fd w.daemon) none none (keyed c g conn, w.db)).0
        ≡ raises type_error
  unfolding py_receive receive_request answer
  keyed_entry_raises c g conn w e rest db hq there online nothing =
      let answered =
        daemon_answers w.daemon g c.client_id e rest hq
        ∙ ap pb.codec.serialize (entry_response_keyed w.daemon e db there) in
      ap (λ bs. (open_response r pb is_anything (or_none bs) (keyed c g conn, w.db)).0) answered
      ∙ opened_raises (pb.codec.serialize (keyed_answer e)) (keyed_answer e) c g conn w.db
          (serialize_nonempty pb.codec (keyed_answer e) _ l.lawful refl)
          (l.decodes-serialize (keyed_answer e)) (l.lawful.parse-serialize (keyed_answer e)) refl
          online nothing
