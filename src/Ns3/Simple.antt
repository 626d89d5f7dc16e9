-- ===== src/Ns3/Simple.antt =====
-- ns3Simple-testing.cc: the same network without the daemon. Its functions are those of
-- nsb-testing.cc word for word, but for `ReceivePacket`, which only prints.
use nsb_beta.Base.{ℕ, Bool, Option, none, some, List, ◌++◌, length, Bytes, codes, ℤ, decimal}
use nsb_beta.Ns3.Topology.{
  Addresses, Sending, Topology, NodeMapping, Plan, build_network_topology,
  setup_udp_receive_sockets, send_generated_message, generate_traffic, simple_main,
}
use nsb_beta.Ns3.Radio.{Radio, radio, Mkdir, create_log_directory, num_hosts_of}

unfoldable pub simple_create_log_directory : Bytes → Bool → Bytes → Mkdir → Bytes
unfolding create_log_directory
simple_create_log_directory path has_log seconds result =
    create_log_directory path has_log seconds result

-- `ReceivePacket`: the line that it prints of a packet.
unfoldable pub simple_receive_packet : Bytes → Bytes
simple_receive_packet packet =
    codes "Received packet of size: " ++ (decimal (length packet) ++ codes " bytes\n")

module _ (net : Addresses) where
  -- `BuildNetworkTopology`: the network with the settings of its radio.
  unfoldable pub simple_network : List (NodeMapping net) → Option (Topology net.Addr × Radio)
  unfolding build_network_topology radio
  simple_network ms = elim (build_network_topology net ms) [
    | none ↦ none
    | some topology ↦ some (topology, radio)
  ]

  unfoldable pub simple_sockets : List (NodeMapping net) → List (ℕ × ℕ)
  unfolding setup_udp_receive_sockets
  simple_sockets ms = setup_udp_receive_sockets net 0 ms

  unfoldable pub simple_send : ℕ → NodeMapping net → NodeMapping net → Bytes → Sending net.Addr
  simple_send time from to message = send_generated_message net time from to message

  unfoldable pub simple_traffic : List (NodeMapping net) → List (Sending net.Addr)
  unfolding generate_traffic
  simple_traffic ms = generate_traffic net 0 ms

  -- `main`, from its command line: its log may not open.
  unfoldable pub simple_run : Bool → Option ℤ → Option (Plan net)
  unfolding simple_main num_hosts_of
  simple_run log_opens num_hosts = simple_main net log_opens (num_hosts_of num_hosts)
