-- ===== src/Tests/Nodes.antt =====
-- The results on the simulators of examples/omnet/nsb_omnet_basic and examples/ns3 at concrete data.
use nsb_beta.Base.{
  ◌≡◌, refl, true, false, some, List, [], ◌∷◌, arith, is_empty, keep, Bytes, codes, c_str, Lacks,
  pos,
}
use nsb_beta.Config.{MessageEntry, exists}
use nsb_beta.Outcome.{Outcome, ok}
use nsb_beta.Wire.{app_client, sim_client}
use nsb_beta.System.Steps.{entry}
use nsb_beta.System.Delivery.{IsReady}
use nsb_beta.Hosts.{host_name}
use nsb_beta.Omnet.Network.{carry, carry_posts}
use nsb_beta.Omnet.Relay.{omnet_relay, omnet_relay_delivers}
use nsb_beta.Ns3.Topology.{Addresses, IsFaithful, generate_traffic, node_mappings}
use nsb_beta.Ns3.Network.{bridge}
use nsb_beta.Ns3.Traffic.{AllReach, hops, generate_traffic-AllReach}
use nsb_beta.Ns3.Delivery.{bridge_posts_for_predecessor}
use nsb_beta.Tests.Wire.{plain_codec, plain_codec-IsLawful}
use nsb_beta.Tests.Data.{plain_redis, always, node_a, hello, client_with, world, fds}

-- What was posted, the last first.
abbrev Posts : Type 0
Posts = List (Bytes × Bytes × Bytes)

abbrev post : Bytes → Bytes → Bytes → Posts → Outcome Posts
post src dest p posts = ok ((src, dest, p) ∷ posts)

carry_posts_example :
    carry
      (λ i. post)
      10
      2
      2
      7
      (record { src_id = node_a; dest_id = host_name (pos 3); payload = hello })
      []
    ≡ ok (some ((node_a, host_name (pos 3), hello) ∷ []))
carry_posts_example = carry_posts (λ i. post) 10 2 0 7 3 node_a hello [] (omega arith) (omega arith)

-- Host 0 sends to host 1.
abbrev here : Bytes
here = codes "host0"

ready :
    IsReady false
      (host_name (pos 1))
      (client_with false app_client here)
      (client_with false sim_client here)
      (client_with false app_client (host_name (pos 1)))
      (world false)
unfolding keep host_name
ready = record {
  app1 = refl;
  sim2 = refl;
  app3 = refl;
  db1 = refl;
  db2 = refl;
  db3 = refl;
  db_daemon = refl;
  pull2 = refl;
  pull3 = refl;
  pull_daemon = refl;
  per_node2 = refl;
  same_node = refl;
  at_dest = refl;
  source_named = refl;
  dest_named = refl;
  tx_clear = refl;
  rx_clear = refl;
}

here_clean : Lacks 0 here
here_clean = (omega arith, (omega arith, (omega arith, (omega arith, (omega arith, tt)))))

hello_full : is_empty (c_str hello) ≡ false
unfolding c_str
hello_full = refl

omnet_relay_delivers_example :
    omnet_relay plain_redis plain_codec always 10 2 fds 3 5 0
      (host_name (pos 1))
      hello
      (
        client_with false app_client here,
        client_with false sim_client here,
        client_with false app_client (host_name (pos 1)),
      )
      (λ i. client_with false sim_client (host_name (pos i)))
      (world false)
    ≡ ok (some (entry here (host_name (pos 1)) (c_str hello) (c_str hello), world false))
omnet_relay_delivers_example =
    omnet_relay_delivers plain_redis plain_codec always 10 2 plain_codec-IsLawful fds 3 5 0 1 hello
      (client_with false app_client here) (client_with false sim_client here)
      (client_with false app_client (host_name (pos 1)))
      (λ i. client_with false sim_client (host_name (pos i))) (world false) ready refl refl
      (omega arith) (omega arith) here_clean hello_full

-- Addresses that are kept as text.
abbrev texts : Addresses
texts = record { Addr = Bytes; parse = λ s. s; print = λ s. s }

texts-IsFaithful : IsFaithful texts
texts-IsFaithful n h = refl

abbrev fetched : MessageEntry
fetched = entry (host_name (pos 0)) (host_name (pos 2)) hello hello

fetched_exists : exists fetched ≡ true
unfolding exists host_name
fetched_exists = refl

bridge_posts_for_predecessor_example :
    bridge texts post 5 1 fetched [] ≡ ok (2, (host_name (pos 0), host_name (pos 1), hello) ∷ [])
bridge_posts_for_predecessor_example =
    bridge_posts_for_predecessor texts texts-IsFaithful post 5 0 1 1 fetched [] (omega arith)
      (omega arith) (omega arith) fetched_exists refl refl

generate_traffic-AllReach_example :
    AllReach texts 5 (generate_traffic texts 0 (node_mappings texts 0 5))
    × (hops texts 5 (generate_traffic texts 0 (node_mappings texts 0 5))
        ≡ (0, some 1) ∷ (1, some 0) ∷ (2, some 3) ∷ (3, some 2) ∷ [])
generate_traffic-AllReach_example = generate_traffic-AllReach texts texts-IsFaithful 5 (omega arith)
