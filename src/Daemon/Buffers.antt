-- ===== src/Daemon/Buffers.antt =====
-- cpp/src/nsb_daemon.cc: what goes into the buffers, `handle_fetch` and `handle_receive`.
use nsb_beta.Base.{Bool, true, Option, none, some, List, [], ◌∷◌, if◌then◌else◌, Bytes, str_eq}
use nsb_beta.Wire.{
  Operation, Nsbm, daemon, message, no_message, Metadata, get_src_id, get_dest_id, get_payload_size,
  set_manifest, set_metadata,
}
use nsb_beta.Config.{Config, MessageEntry, blank_entry, exists}
use nsb_beta.Daemon.State.{Daemon, msg_get_payload_obj, msg_set_payload_obj}
use nsb_beta.Daemon.Handled.{Handled, handled}

unfoldable pub entry_of_message : Config → Nsbm → MessageEntry
unfolding msg_get_payload_obj
entry_of_message c m = record {
  source = get_src_id m;
  destination = get_dest_id m;
  payload_obj = msg_get_payload_obj c m;
  payload_size = get_payload_size m;
}

-- `std::find_if` and `erase`: the first entry that passes, or a blank one, and the rest.
unfoldable pub take_first :
    (MessageEntry → Bool) → List MessageEntry → MessageEntry × List MessageEntry
take_first p [] = (blank_entry, [])
take_first p (e ∷ es) =
    let (found, rest) = take_first p es in if p e then (e, es) else (found, e ∷ rest)

-- `front` and `pop_front`, on a buffer that may be empty.
unfoldable pub pop_front : List MessageEntry → MessageEntry × List MessageEntry
pop_front [] = (blank_entry, [])
pop_front (e ∷ es) = (e, es)

abbrev pub from_source : Bytes → MessageEntry → Bool
from_source s e = str_eq e.source s

abbrev pub for_destination : Bytes → MessageEntry → Bool
for_destination s e = str_eq e.destination s

-- A request without metadata takes nothing; one without the identifier takes the oldest entry.
unfoldable pub fetch_from : Option Metadata → List MessageEntry → MessageEntry × List MessageEntry
unfolding take_first pop_front
fetch_from none es = (blank_entry, es)
fetch_from (some d) es = elim d.src_id [
  | none ↦ pop_front es
  | some s ↦ take_first (from_source s) es
]

unfoldable pub receive_from : Option Metadata → List MessageEntry → MessageEntry × List MessageEntry
unfolding take_first pop_front
receive_from none es = (blank_entry, es)
receive_from (some d) es = elim d.dest_id [
  | none ↦ pop_front es
  | some s ↦ take_first (for_destination s) es
]

-- The response that carries an entry, or says that there is none.
unfoldable pub entry_response : Operation → Config → MessageEntry → Nsbm → Nsbm
unfolding exists msg_set_payload_obj
entry_response op c e out =
    if exists e
    then msg_set_payload_obj c e.payload_obj
        (set_metadata e.source e.destination e.payload_size (set_manifest op daemon message out))
    else set_manifest op daemon no_message out

unfoldable pub handle_fetch : Daemon → Nsbm → Nsbm → Handled
unfolding fetch_from entry_response
handle_fetch d m out =
    let (e, rest) = fetch_from m.metadata d.tx_buffer in
    handled (record d { tx_buffer = rest }) (entry_response Operation.fetch d.cfg e out) true

unfoldable pub handle_receive : Daemon → Nsbm → Nsbm → Handled
unfolding receive_from entry_response
handle_receive d m out =
    let (e, rest) = receive_from m.metadata d.rx_buffer in
    handled (record d { rx_buffer = rest }) (entry_response Operation.receive d.cfg e out) true
