-- ===== src/Daemon/Init.antt =====
-- cpp/src/nsb_daemon.cc: `handle_init` and `handle_ping`.
use nsb_beta.Base.{Bool, true, false, Option, none, some, if◌then◌else◌, is_empty, codes, emplace}
use nsb_beta.Wire.{
  IntroDetails, Originator, Nsbm, SimulatorMode, ConfigParams, daemon, app_client, sim_client,
  other_originator, success, failure, init, ping, config, content_intro, system_wide, per_node,
  other_simulator_mode, get_og, set_manifest,
}
use nsb_beta.Config.{Config}
use nsb_beta.Daemon.State.{Daemon, client_details, get_identifier}
use nsb_beta.Daemon.Handled.{Handled, handled}

-- The details that a client reads back.
unfoldable pub config_params : Config → ConfigParams
config_params c = record {
  sys_mode = some c.system_mode;
  sim_mode = some c.simulator_mode;
  use_db = some c.use_db;
  db_address = if c.use_db then some c.db_address else none;
  db_port = if c.use_db then some c.db_port else none;
  db_num = if c.use_db then some c.db_num else none;
}

unfoldable pub register_sim : SimulatorMode → Daemon → Nsbm → Daemon × Bool
register_sim per_node d m = (
  record d {
    sim_client_lookup =
        emplace (get_identifier m) (client_details m d.fd_lookup) d.sim_client_lookup;
  },
  true,
)
register_sim system_wide d m =
    if is_empty d.sim_client_lookup
    then (
      record d {
        sim_client_lookup =
            emplace (codes "simulator") (client_details m d.fd_lookup) d.sim_client_lookup;
      },
      true,
    )
    else (d, false)
register_sim (other_simulator_mode n) d m = (d, false)

-- The registration by originator; `none` is the early return on an unexpected one.
unfoldable pub register : Originator → Daemon → Nsbm → Option (Daemon × Bool)
unfolding register_sim
register app_client d m = some (
  record d {
    app_client_lookup =
        emplace (get_identifier m) (client_details m d.fd_lookup) d.app_client_lookup;
  },
  true,
)
register sim_client d m = some (register_sim d.cfg.simulator_mode d m)
register daemon d m = none
register (other_originator n) d m = none

-- The response, unless there was an early return.
unfoldable pub answer_init : Daemon → Nsbm → Option (Daemon × Bool) → Handled
unfolding config_params
answer_init d out none = handled d out false
answer_init d out (some (d', done)) =
    handled d'
      (record (set_manifest init daemon (if done then success else failure) out) {
        content = config (config_params d'.cfg);
      })
      true

unfoldable pub init_with : Option IntroDetails → Daemon → Nsbm → Nsbm → Handled
unfolding register answer_init
init_with none d m out = handled d out false
init_with (some _) d m out = answer_init d out (register (get_og m) d m)

unfoldable pub handle_init : Daemon → Nsbm → Nsbm → Handled
unfolding init_with
handle_init d m out = init_with (content_intro m.content) d m out

unfoldable pub handle_ping : Daemon → Nsbm → Nsbm → Handled
handle_ping d m out = handled d (set_manifest ping daemon success out) true
