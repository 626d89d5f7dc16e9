-- ===== src/Wire.antt =====
-- proto/nsb.proto: the message `nsbm` with its parts, and the accessors that the C++ code calls on
-- it. Every field has presence (edition 2023): a getter on an absent field gives the default, and
-- `mutable_x()` makes the field present. An enum is open: a number with no name is kept.
-- Serialization is the protobuf runtime's, so it is a parameter (`Codec`).
use nsb_beta.Base.{
  ℕ, ◌≡◌, refl, ap, Bool, true, false, Option, none, some, [], ◌∷◌, is_empty, Bytes, ℤ, pos,
}

pub data Operation : Type 0 where
  ping init send fetch post receive forward exit : Operation
  other_operation : ℕ → Operation

pub data Originator : Type 0 where
  daemon app_client sim_client : Originator
  other_originator : ℕ → Originator

pub data OpCode : Type 0 where
  success failure client_request daemon_response : OpCode
  implicit_target explicit_target message no_message : OpCode
  other_code : ℕ → OpCode

pub record Manifest : Type 0 where
  pub op : Option Operation
  pub og : Option Originator
  pub code : Option OpCode

pub record Metadata : Type 0 where
  pub src_id : Option Bytes
  pub dest_id : Option Bytes
  pub payload_size : Option ℤ

-- `ConfigParams::SystemMode` and `Config::SystemMode`, which are cast to one another.
pub data SystemMode : Type 0 where
  pull push : SystemMode
  other_system_mode : ℤ → SystemMode

pub data SimulatorMode : Type 0 where
  system_wide per_node : SimulatorMode
  other_simulator_mode : ℤ → SimulatorMode

pub record ConfigParams : Type 0 where
  pub sys_mode : Option SystemMode
  pub sim_mode : Option SimulatorMode
  pub use_db : Option Bool
  pub db_address : Option Bytes
  pub db_port : Option ℤ
  pub db_num : Option ℤ

pub record IntroDetails : Type 0 where
  pub identifier : Option Bytes
  pub address : Option Bytes
  pub ch_ctrl : Option ℤ
  pub ch_send : Option ℤ
  pub ch_recv : Option ℤ

-- The `oneof message`.
pub data Content : Type 0 where
  not_set : Content
  payload : Bytes → Content
  msg_key : Bytes → Content
  intro : IntroDetails → Content
  config : ConfigParams → Content

pub record Nsbm : Type 0 where
  pub manifest : Option Manifest
  pub metadata : Option Metadata
  pub content : Content

abbrev pub blank_manifest : Manifest
blank_manifest = record { op = none; og = none; code = none }

abbrev pub blank_metadata : Metadata
blank_metadata = record { src_id = none; dest_id = none; payload_size = none }

abbrev pub blank_intro : IntroDetails
blank_intro = record {
  identifier = none;
  address = none;
  ch_ctrl = none;
  ch_send = none;
  ch_recv = none;
}

abbrev pub blank_params : ConfigParams
blank_params = record {
  sys_mode = none;
  sim_mode = none;
  use_db = none;
  db_address = none;
  db_port = none;
  db_num = none;
}

-- `nsb::nsbm()`
abbrev pub blank : Nsbm
blank = record { manifest = none; metadata = none; content = not_set }

-- `nsb::nsbm()` after `mutable_manifest()`
abbrev pub response_template : Nsbm
response_template = record blank { manifest = some blank_manifest }

-- An optional field, or the default of its type.
abbrev pub default_to {ℓ} : {A : Type ℓ} → A → Option A → A
default_to d none = d
default_to d (some a) = a

abbrev pub mutable_manifest : Nsbm → Manifest
mutable_manifest m = default_to blank_manifest m.manifest

abbrev pub get_op : Nsbm → Operation
get_op m = default_to ping (mutable_manifest m).op

abbrev pub get_og : Nsbm → Originator
get_og m = default_to daemon (mutable_manifest m).og

abbrev pub get_code : Nsbm → OpCode
get_code m = default_to success (mutable_manifest m).code

abbrev pub is_message : OpCode → Bool
is_message message = true
is_message _ = false

abbrev pub set_op : Operation → Nsbm → Nsbm
set_op o m = record m { manifest = some (record (mutable_manifest m) { op = some o }) }

abbrev pub set_og : Originator → Nsbm → Nsbm
set_og o m = record m { manifest = some (record (mutable_manifest m) { og = some o }) }

abbrev pub set_code : OpCode → Nsbm → Nsbm
set_code c m = record m { manifest = some (record (mutable_manifest m) { code = some c }) }

-- The three setters in the order in which every caller makes them.
abbrev pub set_manifest : Operation → Originator → OpCode → Nsbm → Nsbm
set_manifest o g c m = set_code c (set_og g (set_op o m))

abbrev pub has_metadata : Nsbm → Bool
has_metadata m = elim m.metadata [ none ↦ false | some d ↦ true ]

abbrev pub mutable_metadata : Nsbm → Metadata
mutable_metadata m = default_to blank_metadata m.metadata

abbrev pub get_src_id : Nsbm → Bytes
get_src_id m = default_to [] (mutable_metadata m).src_id

abbrev pub get_dest_id : Nsbm → Bytes
get_dest_id m = default_to [] (mutable_metadata m).dest_id

abbrev pub get_payload_size : Nsbm → ℤ
get_payload_size m = default_to (pos 0) (mutable_metadata m).payload_size

abbrev pub set_src_id : Bytes → Nsbm → Nsbm
set_src_id s m = record m { metadata = some (record (mutable_metadata m) { src_id = some s }) }

abbrev pub set_dest_id : Bytes → Nsbm → Nsbm
set_dest_id s m = record m { metadata = some (record (mutable_metadata m) { dest_id = some s }) }

abbrev pub set_payload_size : ℤ → Nsbm → Nsbm
set_payload_size n m = record m {
  metadata = some (record (mutable_metadata m) { payload_size = some n });
}

abbrev pub set_metadata : Bytes → Bytes → ℤ → Nsbm → Nsbm
set_metadata s d n m = set_payload_size n (set_dest_id d (set_src_id s m))

abbrev pub content_payload : Content → Bytes
content_payload (payload p) = p
content_payload _ = []

abbrev pub content_msg_key : Content → Bytes
content_msg_key (msg_key k) = k
content_msg_key _ = []

abbrev pub content_intro : Content → Option IntroDetails
content_intro (intro i) = some i
content_intro _ = none

abbrev pub content_config : Content → Option ConfigParams
content_config (config c) = some c
content_config _ = none

-- What the code relies on in protobuf: a written message is read back, and no bytes are the
-- message with no field.
pub record Codec : Type 0 where
  pub serialize : Nsbm → Bytes
  pub parse : Bytes → Nsbm

pub record IsLawful (c : Codec) : Type 0 where
  pub parse-serialize : (m : Nsbm) → c.parse (c.serialize m) ≡ m
  pub parse_nothing : c.parse [] ≡ blank

-- A message with a manifest is not written as no bytes, which the clients take for a timeout.
pub serialize_nonempty :
    (c : Codec) (m : Nsbm) (x : Manifest)
    → IsLawful c
    → m.manifest ≡ some x
    → is_empty (c.serialize m) ≡ false
serialize_nonempty c m x l h = go (c.serialize m) refl
  where
    go : (bs : Bytes) → c.serialize m ≡ bs → is_empty bs ≡ false
    go [] e = cc (
      h,
      ap (λ (n : Nsbm). n.manifest) (l.parse-serialize m),
      ap (λ (n : Nsbm). n.manifest) l.parse_nothing,
      ap (λ bs. (c.parse bs).manifest) e,
    )
    go (b ∷ bs) e = refl
