-- ===== src/Tests/Wire.antt =====
-- A concrete codec for the messages: it meets what `Wire` asks of protobuf.
use nsb_beta.Base.{◌≡◌, refl, ap, ◌⊎◌, inl, inr, Bool, Option, none, some, [], ◌++◌, Bytes, ℤ}
use nsb_beta.Wire.{
  Operation, Originator, OpCode, SystemMode, SimulatorMode, Manifest, Metadata, ConfigParams,
  IntroDetails, Content, not_set, payload, msg_key, intro, config, Nsbm, blank, Codec, IsLawful,
}
use nsb_beta.Tests.Coder.{Coder, pair, via, either, optional, text, signed, bit}
use nsb_beta.Tests.Enums.{
  operation_coder, originator_coder, op_code_coder, system_mode_coder, simulator_mode_coder,
}

abbrev of_manifest : Option Operation × (Option Originator × Option OpCode) → Manifest
of_manifest (x0, (x1, x2)) = record { op = x0; og = x1; code = x2 }

abbrev to_manifest : Manifest → Option Operation × (Option Originator × Option OpCode)
to_manifest x = (x.op, (x.og, x.code))

pub of_to_manifest : (x : Manifest) → of_manifest (to_manifest x) ≡ x
of_to_manifest x = refl

abbrev manifest_coder : Coder Manifest
manifest_coder =
    via of_manifest to_manifest of_to_manifest
      (pair (optional operation_coder) (pair (optional originator_coder) (optional op_code_coder)))

abbrev of_metadata : Option Bytes × (Option Bytes × Option ℤ) → Metadata
of_metadata (x0, (x1, x2)) = record { src_id = x0; dest_id = x1; payload_size = x2 }

abbrev to_metadata : Metadata → Option Bytes × (Option Bytes × Option ℤ)
to_metadata x = (x.src_id, (x.dest_id, x.payload_size))

pub of_to_metadata : (x : Metadata) → of_metadata (to_metadata x) ≡ x
of_to_metadata x = refl

abbrev metadata_coder : Coder Metadata
metadata_coder =
    via of_metadata to_metadata of_to_metadata
      (pair (optional text) (pair (optional text) (optional signed)))

abbrev of_config_params :
    Option SystemMode
      × (Option SimulatorMode × (Option Bool × (Option Bytes × (Option ℤ × Option ℤ))))
    → ConfigParams
of_config_params (x0, (x1, (x2, (x3, (x4, x5))))) = record {
  sys_mode = x0;
  sim_mode = x1;
  use_db = x2;
  db_address = x3;
  db_port = x4;
  db_num = x5;
}

abbrev to_config_params :
    ConfigParams
    → Option SystemMode
      × (Option SimulatorMode × (Option Bool × (Option Bytes × (Option ℤ × Option ℤ))))
to_config_params x = (x.sys_mode, (x.sim_mode, (x.use_db, (x.db_address, (x.db_port, x.db_num)))))

pub of_to_config_params : (x : ConfigParams) → of_config_params (to_config_params x) ≡ x
of_to_config_params x = refl

abbrev config_params_coder : Coder ConfigParams
config_params_coder = via of_config_params to_config_params of_to_config_params (
    pair (optional system_mode_coder) (
      pair (optional simulator_mode_coder)
        (pair (optional bit) (pair (optional text) (pair (optional signed) (optional signed))))))

abbrev of_intro_details :
    Option Bytes × (Option Bytes × (Option ℤ × (Option ℤ × Option ℤ))) → IntroDetails
of_intro_details (x0, (x1, (x2, (x3, x4)))) = record {
  identifier = x0;
  address = x1;
  ch_ctrl = x2;
  ch_send = x3;
  ch_recv = x4;
}

abbrev to_intro_details :
    IntroDetails → Option Bytes × (Option Bytes × (Option ℤ × (Option ℤ × Option ℤ)))
to_intro_details x = (x.identifier, (x.address, (x.ch_ctrl, (x.ch_send, x.ch_recv))))

pub of_to_intro_details : (x : IntroDetails) → of_intro_details (to_intro_details x) ≡ x
of_to_intro_details x = refl

abbrev intro_details_coder : Coder IntroDetails
intro_details_coder = via of_intro_details to_intro_details of_to_intro_details (
    pair (optional text)
      (pair (optional text) (pair (optional signed) (pair (optional signed) (optional signed)))))

abbrev of_content : Option ((Bytes ⊎ Bytes) ⊎ (IntroDetails ⊎ ConfigParams)) → Content
of_content none = not_set
of_content (some (inl (inl p))) = payload p
of_content (some (inl (inr k))) = msg_key k
of_content (some (inr (inl i))) = intro i
of_content (some (inr (inr c))) = config c

abbrev to_content : Content → Option ((Bytes ⊎ Bytes) ⊎ (IntroDetails ⊎ ConfigParams))
to_content not_set = none
to_content (payload p) = some (inl (inl p))
to_content (msg_key k) = some (inl (inr k))
to_content (intro i) = some (inr (inl i))
to_content (config c) = some (inr (inr c))

pub of_to_content : (x : Content) → of_content (to_content x) ≡ x
of_to_content not_set = refl
of_to_content (payload p) = refl
of_to_content (msg_key k) = refl
of_to_content (intro i) = refl
of_to_content (config c) = refl

abbrev content_coder : Coder Content
content_coder =
    via of_content to_content of_to_content
      (optional (either (either text text) (either intro_details_coder config_params_coder)))

abbrev of_nsbm : Option Manifest × (Option Metadata × Content) → Nsbm
of_nsbm (x0, (x1, x2)) = record { manifest = x0; metadata = x1; content = x2 }

abbrev to_nsbm : Nsbm → Option Manifest × (Option Metadata × Content)
to_nsbm x = (x.manifest, (x.metadata, x.content))

pub of_to_nsbm : (x : Nsbm) → of_nsbm (to_nsbm x) ≡ x
of_to_nsbm x = refl

abbrev nsbm_coder : Coder Nsbm
nsbm_coder =
    via of_nsbm to_nsbm of_to_nsbm
      (pair (optional manifest_coder) (pair (optional metadata_coder) content_coder))

read_or_blank : Option (Nsbm × Bytes) → Nsbm
read_or_blank none = blank
read_or_blank (some (m, rest)) = m

unfoldable pub plain_codec : Codec
unfolding read_or_blank
plain_codec = record {
  serialize = λ m. nsbm_coder.write m ++ [];
  parse = λ bs. read_or_blank (nsbm_coder.read bs);
}

pub plain_codec-IsLawful : IsLawful plain_codec
unfolding plain_codec
plain_codec-IsLawful = record {
  parse-serialize = λ m. ap read_or_blank (nsbm_coder.law m []);
  parse_nothing = refl;
}
