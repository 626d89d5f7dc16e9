-- ===== src/Python/Base.antt =====
-- python/nsb_client.py: `Config`, `MessageEntry`, and what it uses of protobuf.
use nsb_beta.Base.{ℕ, ◌≡◌, Bool, true, false, ◌&&◌, [], if◌then◌else◌, length, Bytes, pos}
use nsb_beta.Wire.{
  Nsbm, ConfigParams, SystemMode, pull, push, other_system_mode, SimulatorMode, system_wide,
  per_node, other_simulator_mode, Codec, IsLawful, default_to,
}
use nsb_beta.Config.{Config}
use nsb_beta.Python.Raises.{Result, returns, raises, value_error}

-- protobuf for Python: whether `ParseFromString` takes the bytes, and whether bytes that are set as
-- a `string` field are UTF-8.
pub record Protobuf : Type 0 where
  pub codec : Codec
  pub decodes : Bytes → Bool
  pub is_utf8 : Bytes → Bool

-- What is documented of it: a written message is read back.
pub record IsLawfulPb (pb : Protobuf) : Type 0 where
  pub lawful : IsLawful pb.codec
  pub decodes-serialize : (m : Nsbm) → pb.decodes (pb.codec.serialize m) ≡ true

-- `Config.SystemMode(n)` and `Config.SimulatorMode(n)` raise on a number without a name.
abbrev is_known_system : SystemMode → Bool
is_known_system pull = true
is_known_system push = true
is_known_system (other_system_mode n) = false

abbrev is_known_simulator : SimulatorMode → Bool
is_known_simulator system_wide = true
is_known_simulator per_node = true
is_known_simulator (other_simulator_mode n) = false

-- `Config(nsb_msg)`. Without a database the three attributes of the database are not set, and
-- nothing reads them; here they hold what a C++ `Config` has.
unfoldable pub config_from : ConfigParams → Result Config
config_from c =
    let system = default_to pull c.sys_mode in
    let simulator = default_to system_wide c.sim_mode in
    let db = default_to false c.use_db in
    if is_known_system system && is_known_simulator simulator
    then returns (record {
      system_mode = system;
      simulator_mode = simulator;
      use_db = db;
      db_address = if db then default_to [] c.db_address else [];
      db_port = if db then default_to (pos 0) c.db_port else pos 0;
      db_num = if db then default_to (pos 0) c.db_num else pos 0;
    })
    else raises value_error

-- `MessageEntry`: the size is that of the payload, not the one in the message.
pub record Entry : Type 0 where
  pub src_id : Bytes
  pub dest_id : Bytes
  pub payload : Bytes
  pub payload_size : ℕ

unfoldable pub new_entry : Bytes → Bytes → Bytes → Entry
new_entry src dest p = record { src_id = src; dest_id = dest; payload = p; payload_size = length p }
