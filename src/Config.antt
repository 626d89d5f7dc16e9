-- ===== src/Config.antt =====
-- cpp/include/nsb.h, `Config` and `MessageEntry`; cpp/src/nsb_daemon.cc, `configure`.
-- The YAML file is read by yaml-cpp: a document is what its typed lookups give.
use nsb_beta.Base.{
  zero, suc, Bool, false, not, ◌&&◌, Option, none, some, [], if◌then◌else◌, is_empty, Bytes, codes,
  ℤ, pos,
}
use nsb_beta.Wire.{
  Nsbm, SystemMode, pull, push, other_system_mode, SimulatorMode, system_wide, per_node,
  other_simulator_mode, blank_params, content_config, default_to,
}

-- `DB_*` are the connection details of the database.
pub record Config : Type 0 where
  pub system_mode : SystemMode
  pub simulator_mode : SimulatorMode
  pub use_db : Bool
  pub db_address : Bytes
  pub db_port : ℤ
  pub db_num : ℤ

-- `Config()`
abbrev pub default_config : Config
default_config = record {
  system_mode = pull;
  simulator_mode = system_wide;
  use_db = false;
  db_address = [];
  db_port = pos 0;
  db_num = pos 0;
}

-- `Config(nsbm)`. Without a database the constructor leaves `DB_PORT` and `DB_NUM` as the memory
-- was: `junk_port` and `junk_num`.
unfoldable pub config_of_message : ℤ → ℤ → Nsbm → Config
config_of_message junk_port junk_num m =
    let c = default_to blank_params (content_config m.content) in
    let db = default_to false c.use_db in
    record {
      system_mode = default_to pull c.sys_mode;
      simulator_mode = default_to system_wide c.sim_mode;
      use_db = db;
      db_address = if db then default_to [] c.db_address else [];
      db_port = if db then default_to (pos 0) c.db_port else junk_port;
      db_num = if db then default_to (pos 0) c.db_num else junk_num;
    }

-- `static_cast<Config::SystemMode>(n)`
pub system_mode_of_int : ℤ → SystemMode
system_mode_of_int (pos zero) = pull
system_mode_of_int (pos (suc zero)) = push
system_mode_of_int n = other_system_mode n

pub simulator_mode_of_int : ℤ → SimulatorMode
simulator_mode_of_int (pos zero) = system_wide
simulator_mode_of_int (pos (suc zero)) = per_node
simulator_mode_of_int n = other_simulator_mode n

-- A document of yaml-cpp: `config[section][key].as<T>()`, with `none` where it throws.
pub record Yaml : Type 0 where
  pub is_null : Bool
  pub as_int : Bytes → Bytes → Option ℤ
  pub as_bool : Bytes → Bytes → Option Bool
  pub as_string : Bytes → Bytes → Option Bytes

infixl 5 ◌>>=◌
abbrev ◌>>=◌ {ℓ κ} : {A : Type ℓ} {B : Type κ} → Option A → (A → Option B) → Option B
none >>= f = none
some a >>= f = f a

configure_db : Yaml → Config → Option Config
configure_db y c = do
  address ← y.as_string (codes "database") (codes "db_address")
  port ← y.as_int (codes "database") (codes "db_port")
  some (record c { db_address = address; db_port = port })

configure_modes : Yaml → Config → Option Config
unfolding configure_db system_mode_of_int simulator_mode_of_int
configure_modes y c = do
  sys_mode ← y.as_int (codes "system") (codes "mode")
  sim_mode ← y.as_int (codes "system") (codes "simulator_mode")
  use_db ← y.as_bool (codes "database") (codes "use_db")
  let c' = record c {
    system_mode = system_mode_of_int sys_mode;
    simulator_mode = simulator_mode_of_int sim_mode;
    use_db = use_db;
  }
  if use_db then configure_db y c' else some c'

-- `configure`: `none` is an exception, which leaves the constructor of the daemon. An empty file
-- changes nothing.
unfoldable pub configure : Yaml → Config → Option Config
unfolding configure_modes
configure y c = if y.is_null then some c else configure_modes y c

-- A message in a buffer of the daemon, or as a client hands it to its caller.
pub record MessageEntry : Type 0 where
  pub source : Bytes
  pub destination : Bytes
  pub payload_obj : Bytes
  pub payload_size : ℤ

-- `MessageEntry()`
abbrev pub blank_entry : MessageEntry
blank_entry = record { source = []; destination = []; payload_obj = []; payload_size = pos 0 }

unfoldable pub exists : MessageEntry → Bool
exists e = not (is_empty e.source) && (not (is_empty e.destination) && not (is_empty e.payload_obj))
