-- ===== src/System/Registration.antt =====
-- A client's `initialize` (cpp/src/nsb_client.cc) and the daemon's `handle_init`
-- (cpp/src/nsb_daemon.cc): the configuration that the client adopts.
use nsb_beta.Base.{◌≡◌, Bool, some, [], arith, if◌then◌else◌, Bytes, ℤ}
use nsb_beta.Wire.{Nsbm, IntroDetails, app_client, content_intro, get_og, response_template}
use nsb_beta.Config.{Config, config_of_message}
use nsb_beta.Outcome.{ok, fault, exits}
use nsb_beta.Daemon.State.{Daemon}
use nsb_beta.Daemon.Init.{handle_init}
use nsb_beta.Client.Redis.{new_connector}
use nsb_beta.Client.Base.{Client, adopt}

-- What a client reads of the daemon's configuration: all of it if there is a database, and the
-- modes if not, when the two numbers are whatever the fields held.
abbrev pub adopted : ℤ → ℤ → Config → Config
adopted junk_port junk_num c =
    if c.use_db then c else record c { db_address = []; db_port = junk_port; db_num = junk_num }

config_of_response :
    (junk_port junk_num : ℤ) (d : Daemon) (m : Nsbm) (i : IntroDetails)
    → content_intro m.content ≡ some i
    → get_og m ≡ app_client
    → config_of_message junk_port junk_num (handle_init d m response_template).outgoing
      ≡ adopted junk_port junk_num d.cfg
unfolding handle_init config_of_message
config_of_response junk_port junk_num d m i h g = ground arith

-- A client that reads the response to an INIT of an application takes over the daemon's modes. If
-- a database is used and can be reached, the client also takes over its port and number, and has a
-- new connector, which has moved the address out of the client's configuration; if the database
-- cannot be reached, the client exits. If none is used, the client has no new connector, an empty
-- address, and a port and a number that are not set.
pub adopt-handle_init :
    (online : Bytes → ℤ → Bool) (junk_port junk_num : ℤ) (d : Daemon) (m : Nsbm) (i : IntroDetails)
    (c : Client)
    → content_intro m.content ≡ some i
    → get_og m ≡ app_client
    → adopt online junk_port junk_num (handle_init d m response_template).outgoing c ≡ (
        if d.cfg.use_db
        then (if online d.cfg.db_address d.cfg.db_port
            then ok (record c {
              cfg = record (d.cfg) { db_address = [] };
              db = some (new_connector c.client_id);
            })
            else fault exits)
        else ok (record c { cfg = adopted junk_port junk_num d.cfg }))
unfolding handle_init adopt
adopt-handle_init online junk_port junk_num d m i c h g = ground arith
