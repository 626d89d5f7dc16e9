-- ===== src/Daemon/Answers.antt =====
-- What stands in a message of cpp/src/nsb_daemon.cc, read field by field, and what the responses of
-- `handle_fetch` and `handle_receive` offer to who reads them so.
use nsb_beta.Base.{◌≡◌, ◌||◌, Option, none, some, List, [], ◌∷◌, arith, if◌then◌else◌, is_empty}
use nsb_beta.Wire.{
  Nsbm, Operation, daemon, get_op, get_og, get_code, is_message, get_src_id, get_dest_id, message,
  no_message, get_payload_size, content_payload, content_msg_key,
}
use nsb_beta.Config.{Config, MessageEntry, exists}
use nsb_beta.Daemon.State.{msg_set_payload_obj}
use nsb_beta.Daemon.Buffers.{entry_response}

-- The four things that a message says of an entry: where a database is used its key stands for the
-- payload.
abbrev pub entry_in : Config → Nsbm → MessageEntry
entry_in c m = record {
  source = get_src_id m;
  destination = get_dest_id m;
  payload_obj = if c.use_db then content_msg_key m.content else content_payload m.content;
  payload_size = get_payload_size m;
}

-- The entry that a response offers, if its code is MESSAGE.
abbrev pub offered : Config → Nsbm → Option MessageEntry
offered c m = if is_message (get_code m) then some (entry_in c m) else none

-- An entry, if its source, its destination and its payload or key are all there.
abbrev pub if_complete : MessageEntry → Option MessageEntry
if_complete e =
    if is_empty e.source || is_empty e.destination || is_empty e.payload_obj then none else some e

-- A response of the daemon to a request for `op` that offers `e`, or has the code NO_MESSAGE if `e`
-- is not complete.
pub record Answers (op : Operation) (c : Config) (e : MessageEntry) (m : Nsbm) : Type 0 where
  pub to_request : get_op m ≡ op
  pub from_daemon : get_og m ≡ daemon
  pub coded : get_code m ≡ elim (if_complete e) [ none ↦ no_message | some _ ↦ message ]
  pub offers : offered c m ≡ if_complete e

-- Responses to requests for `op`, one for each of the entries, in their order.
abbrev pub AllAnswer : Operation → Config → List MessageEntry → List Nsbm → Type 0
AllAnswer op c [] [] = Unit {0}
AllAnswer op c (e ∷ es) (m ∷ ms) = Answers op c e m × AllAnswer op c es ms
AllAnswer op c _ _ = ⊥

pub entry_response-Answers :
    (op : Operation) (c : Config) (e : MessageEntry) (out : Nsbm)
    → Answers op c e (entry_response op c e out)
unfolding entry_response exists msg_set_payload_obj
entry_response-Answers op c e out = record {
  to_request = ground arith;
  from_daemon = ground arith;
  coded = ground arith;
  offers = ground arith;
}
