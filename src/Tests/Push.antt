-- ===== src/Tests/Push.antt =====
-- The way of a message in PUSH mode, at concrete data.
use nsb_beta.Base.{◌≡◌, refl, false, none, some, [], ◌∷◌, Bytes, str_eq, pos, find}
use nsb_beta.Wire.{Originator, app_client, sim_client}
use nsb_beta.Outcome.{ok}
use nsb_beta.Daemon.State.{Daemon}
use nsb_beta.Daemon.Dispatch.{handle_message}
use nsb_beta.Client.Base.{Client, send}
use nsb_beta.Client.App.{app_send, app_receive}
use nsb_beta.Client.Sim.{sim_fetch, sim_post}
use nsb_beta.System.Steps.{entry}
use nsb_beta.System.PushDelivery.{push_send_delivers, push_post_delivers}
use nsb_beta.Tests.Wire.{plain_codec, plain_codec-IsLawful}
use nsb_beta.Tests.Data.{
  plain_redis, always, node_a, node_b, hello, push_config, daemon_with, client_with, details,
  empty_store,
}

abbrev pushing : Originator → Bytes → Client
pushing g id = record (client_with false g id) { cfg = push_config }

abbrev joined : Daemon
joined = record (daemon_with push_config) {
  sim_client_lookup = (node_a, details) ∷ [];
  app_client_lookup = (node_b, details) ∷ [];
}

simulator_of_a : find node_a joined.sim_client_lookup ≡ some details
unfolding find str_eq
simulator_of_a = refl

application_of_b : find node_b joined.app_client_lookup ≡ some details
unfolding find str_eq
application_of_b = refl

push_send_delivers_example :
    (request : Bytes) × (forwarded : Bytes) × (app_send plain_redis plain_codec 3 node_b hello
        (pushing app_client node_a)
        empty_store
      ≡ ok ([], (send, request), pushing app_client node_a, empty_store))
    × (handle_message plain_codec always joined (pos 5) request
        ≡ ok (joined, record { fd = pos 6; bytes = forwarded } ∷ []))
    × (sim_fetch plain_redis plain_codec
          (λ asked time. forwarded)
          none
          (pos 0)
          (pushing sim_client node_a)
          empty_store
        ≡ ok (entry node_a node_b hello hello, empty_store))
push_send_delivers_example =
    push_send_delivers plain_redis plain_codec plain_codec-IsLawful always 3 (pos 5) (pos 0) none
      node_b hello app_client (pushing app_client node_a) (pushing sim_client node_a) details joined
      empty_store refl refl refl refl refl refl simulator_of_a refl refl

push_post_delivers_example :
    (request : Bytes) × (forwarded : Bytes) × (sim_post plain_redis plain_codec 3 node_a node_b
        hello
        (pushing sim_client node_a)
        empty_store
      ≡ ok ([], (send, request), pushing sim_client node_a, empty_store))
    × (handle_message plain_codec always joined (pos 5) request
        ≡ ok (joined, record { fd = pos 6; bytes = forwarded } ∷ []))
    × (app_receive plain_redis plain_codec
          (λ asked time. forwarded)
          none
          (pos 0)
          (pushing app_client node_b)
          empty_store
        ≡ ok (entry node_a node_b hello hello, empty_store))
push_post_delivers_example =
    push_post_delivers plain_redis plain_codec plain_codec-IsLawful always 3 (pos 5) (pos 0) none
      node_a node_b hello sim_client (pushing sim_client node_a) (pushing app_client node_b) details
      joined empty_store refl refl refl refl refl application_of_b refl refl
