-- ===== src/Python/Client.antt =====
-- python/nsb_client.py: the requests of `NSBAppClient` and `NSBSimClient`, and what they make of a
-- response. `answer` gives what `_recv_msg` returns on the RECV channel within a timeout, or for
-- ever, after a request was sent, if one was.
use nsb_beta.Base.{
  ℕ, ◌^◌, Bool, true, not, ◌&&◌, Option, none, some, [], ◌∷◌, leb, if◌then◌else◌, length, is_empty,
  Bytes, pos,
}
use nsb_beta.Wire.{
  Operation, Originator, Nsbm, SystemMode, SimulatorMode, pull, push, other_system_mode,
  system_wide, per_node, other_simulator_mode, message, success, blank, payload, msg_key, get_op,
  get_code, get_src_id, get_dest_id, content_payload, content_msg_key, set_manifest, set_metadata,
  set_src_id, set_dest_id, is_message,
}
use nsb_beta.Client.Redis.{Redis}
use nsb_beta.Client.Base.{Client, Sent, send, recv}
use nsb_beta.Client.Sim.{is_fetchable}
use nsb_beta.Python.Raises.{
  returns, raises, type_error, value_error, decode_error, attribute_error, Method, pure, raise,
  raise_if, ◌>>=◌, ◌>>◌,
}
use nsb_beta.Python.Base.{Protobuf, Entry, new_entry}
use nsb_beta.Python.Redis.{store, check_out}

-- `if dest_id:` is also false for the empty string.
abbrev given_or : Bytes → Option Bytes → Bytes
given_or own none = own
given_or own (some []) = own
given_or own (some (c ∷ s)) = c ∷ s

unfoldable pub receive_request : Originator → Bytes → Option Bytes → Nsbm
receive_request g own dest =
    set_dest_id (given_or own dest) (set_manifest Operation.receive g success blank)

abbrev set_source : SimulatorMode → Bytes → Option Bytes → Nsbm → Nsbm
set_source system_wide own none m = m
set_source system_wide own (some []) m = m
set_source system_wide own (some (c ∷ s)) m = set_src_id (c ∷ s) m
set_source per_node own src m = set_src_id own m
set_source (other_simulator_mode n) own src m = m

unfoldable pub fetch_request : Originator → SimulatorMode → Bytes → Option Bytes → Nsbm
fetch_request g mode own src =
    set_source mode own src (set_manifest Operation.fetch g success blank)

-- `op == RECEIVE or FORWARD` has a constant behind the `or`, which counts as true.
abbrev pub is_anything : Operation → Bool
is_anything op = true

-- The head of a message, before its content; a field of 32 bits raises where the size has no room.
abbrev head : Operation → Originator → Bytes → Bytes → Bytes → Nsbm
head op g src dest p = set_metadata src dest (pos (length p)) (set_manifest op g message blank)

module _ (r : Redis) (pb : Protobuf) where
  -- The client and the database.
  abbrev pub State : Type 0
  State = Client × r.State

  -- The attribute `og_indicator`, which the constructors set.
  abbrev origin_of : Method State Originator
  origin_of (c, s) = (elim c.origin [ none ↦ raises type_error | some g ↦ returns g ], (c, s))

  -- `self.db.store(payload)`
  store_own : ℕ → Bytes → Method State Bytes
  unfolding store
  store_own now p (c, s) = elim c.db [
    | none ↦ (raises attribute_error, (c, s))
    | some db ↦
        let (key, (db', s')) = store r now p (db, s) in (key, (record c { db = some db' }, s'))
  ]

  -- `self.db.check_out(key)`
  unfoldable pub check_out_own : Bytes → Method State (Option Bytes)
  unfolding check_out
  check_out_own key (c, s) = elim c.db [
    | none ↦ (raises attribute_error, (c, s))
    | some db ↦ let (p, s') = check_out r key s in (p, (c, s'))
  ]

  -- The key and the message with its content.
  attach : ℕ → Bytes → Nsbm → Method State (Option Bytes × Nsbm)
  unfolding store_own
  attach now p m (c, s) =
      (if c.cfg.use_db
          then (store_own now p >>= λ key. pure (some key, record m { content = msg_key key }))
          else pure (none, record m { content = payload p }))
        (c, s)

  -- `NSBAppClient.send`: the key, if there is a database, and what is sent.
  unfoldable pub py_send : ℕ → Bytes → Bytes → Method State (Option Bytes × Sent)
  unfolding attach
  py_send now dest p (c, s) =
      (origin_of >>= λ g. raise_if (leb (2 ^ 31) (length p)) value_error >>= λ _.
      attach now p (head Operation.send g c.client_id dest p) >>= λ (key, m).
      pure (key, (send, pb.codec.serialize m)))
        (c, s)

  -- `msg_set_payload_obj` of what `post` is given: with a database the payload itself stands where
  -- the key belongs, and it has to be text.
  unfoldable pub set_payload_obj : Bytes → Nsbm → Method State Nsbm
  set_payload_obj p m (c, s) =
      (if c.cfg.use_db
          then (raise_if (not (pb.is_utf8 p)) value_error
              >> pure (record m { content = msg_key p }))
          else pure (record m { content = payload p }))
        (c, s)

  -- `NSBSimClient.post`
  unfoldable pub py_post : Bytes → Bytes → Bytes → Method State Sent
  unfolding set_payload_obj
  py_post src dest p = origin_of >>= λ g. raise_if (leb (2 ^ 31) (length p)) value_error >>= λ _.
      set_payload_obj p (head Operation.post g src dest p) >>= λ m.
      pure (send, pb.codec.serialize m)

  -- `len(payload)` raises on `None`.
  abbrev pub none_raises : Option Bytes → Method State Bytes
  none_raises none = raise type_error
  none_raises (some p) = pure p

  -- The payload of a response.
  unfoldable pub response_payload : Nsbm → Method State Bytes
  unfolding check_out_own
  response_payload m (c, s) =
      (if c.cfg.use_db
          then (check_out_own (content_msg_key m.content) >>= none_raises)
          else pure (content_payload m.content))
        (c, s)

  abbrev pub entry_with : Nsbm → Bytes → Method State (Option Entry)
  entry_with m p = pure (some (new_entry (get_src_id m) (get_dest_id m) p))

  -- What `receive`, `fetch` and the two `listen` make of a response.
  unfoldable pub open_response : (Operation → Bool) → Option Bytes → Method State (Option Entry)
  unfolding response_payload new_entry
  open_response expected none = pure none
  open_response expected (some response) =
      if is_empty response
      then pure none
      else if not (pb.decodes response)
      then raise decode_error
      else let m = pb.codec.parse response in
        if expected (get_op m) && is_message (get_code m)
        then (response_payload m >>= entry_with m)
        else pure none

  -- What `_recv_msg` returns: after a request that goes out, or of what comes by itself, within a
  -- number of seconds or without an end.
  abbrev pub Answer : Type 0
  Answer = Option Sent → Option ℕ → Option Bytes

  receive_in : Answer → SystemMode → Option Bytes → Option ℕ → Method State (Option Entry)
  unfolding receive_request open_response
  receive_in answer pull dest timeout (c, s) =
      (origin_of >>= λ g.
      open_response is_anything
        (answer (some (recv, pb.codec.serialize (receive_request g c.client_id dest))) timeout))
        (c, s)
  receive_in answer push dest timeout t = open_response is_anything (answer none (some 0)) t
  receive_in answer (other_system_mode n) dest timeout t =
      open_response is_anything (answer none timeout) t

  -- `NSBAppClient.receive`
  unfoldable pub py_receive : Answer → Option Bytes → Option ℕ → Method State (Option Entry)
  unfolding receive_in
  py_receive answer dest timeout (c, s) = receive_in answer c.cfg.system_mode dest timeout (c, s)

  fetch_in : Answer → SystemMode → Option Bytes → Option ℕ → Method State (Option Entry)
  unfolding fetch_request open_response
  fetch_in answer pull src timeout (c, s) =
      (origin_of >>= λ g. open_response is_fetchable (
          answer
            (some (recv, pb.codec.serialize (fetch_request g c.cfg.simulator_mode c.client_id src)))
            timeout))
        (c, s)
  fetch_in answer push src timeout t = open_response is_fetchable (answer none (some 0)) t
  fetch_in answer (other_system_mode n) src timeout t =
      open_response is_fetchable (answer none timeout) t

  -- `NSBSimClient.fetch`
  unfoldable pub py_fetch : Answer → Option Bytes → Option ℕ → Method State (Option Entry)
  unfolding fetch_in
  py_fetch answer src timeout (c, s) = fetch_in answer c.cfg.system_mode src timeout (c, s)

  -- `NSBAppClient.listen` and `NSBSimClient.listen`, with what `_listen_msg` returns.
  unfoldable pub app_listen : Option Bytes → Method State (Option Entry)
  unfolding open_response
  app_listen response = open_response is_anything response

  unfoldable pub sim_listen : Option Bytes → Method State (Option Entry)
  unfolding open_response
  sim_listen response = open_response is_fetchable response
