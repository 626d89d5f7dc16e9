-- ===== src/Ns3/Topology.antt =====
-- nsb-testing.cc: the nodes, their addresses and places, the sockets that receive, and the generated
-- traffic.
use nsb_beta.Base.{
  ℕ, zero, suc, ◌+◌, ◌*◌, ◌/◌, ◌%◌, ◌<◌, ◌≡◌, Bool, Option, none, some, List, [], ◌∷◌, ◌++◌,
  if◌then◌else◌, is_empty, Bytes, codes, ℤ, pos, negsuc, decimal,
}

-- `Ipv4Address(text.c_str())`, and the text that is written for an address.
pub record Addresses : Type 1 where
  pub Addr : Type 0
  pub parse : Bytes → Addr
  pub print : Addr → Bytes

-- `"10.1.1."` and a number
abbrev pub ip_of : ℕ → Bytes
ip_of n = codes "10.1.1." ++ decimal n

-- An address of the subnet is written as it was given.
abbrev pub IsFaithful : Addresses → Type 0
IsFaithful net = (n : ℕ) → n < 256 → net.print (net.parse (ip_of n)) ≡ ip_of n

-- A datagram for port 5000 of an address, which a node sends at a time in seconds.
pub record Sending (Addr : Type 0) : Type 0 where
  pub time : ℕ
  pub sender : ℕ
  pub address : Addr
  pub port : ℕ
  pub message : Bytes

-- What `BuildNetworkTopology` makes: where each node stands, in metres, and the address of each
-- node's interface.
pub record Topology (Addr : Type 0) : Type 0 where
  pub positions : List (ℕ × ℕ)
  pub interfaces : List (ℕ × Addr)

-- Ten nodes in a row, 50 metres apart.
abbrev pub position : ℕ → ℕ × ℕ
position i = (i % 10 * 50, i / 10 * 50)

module _ (net : Addresses) where
  -- `nodePtr` is the node's number; it and `wifiDeviceIndex` are set once the nodes are there.
  pub record NodeMapping : Type 0 where
    pub ip_string : Bytes
    pub node_id_string : Bytes
    pub ipv4_addr : net.Addr
    pub node : ℕ
    pub wifi_device_index : ℕ

  mapping : ℕ → NodeMapping
  mapping i = record {
    ip_string = ip_of (i + 1);
    node_id_string = codes "node" ++ decimal i;
    ipv4_addr = net.parse (ip_of (i + 1));
    node = i;
    wifi_device_index = i;
  }

  -- The mappings of `count` nodes from node `i` on.
  unfoldable pub node_mappings : ℕ → ℕ → List NodeMapping
  unfolding mapping
  node_mappings i zero = []
  node_mappings i (suc count) = mapping i ∷ node_mappings (suc i) count

  positions_from : ℕ → List NodeMapping → List (ℕ × ℕ)
  positions_from i [] = []
  positions_from i (m ∷ ms) = position i ∷ positions_from (suc i) ms

  unfoldable pub interfaces_from : ℕ → List NodeMapping → List (ℕ × net.Addr)
  interfaces_from i [] = []
  interfaces_from i (m ∷ ms) = (i, m.ipv4_addr) ∷ interfaces_from (suc i) ms

  -- `none` is `false`: there are no nodes.
  unfoldable pub build_network_topology : List NodeMapping → Option (Topology net.Addr)
  unfolding positions_from interfaces_from
  build_network_topology ms =
      if is_empty ms
      then none
      else some (record { positions = positions_from 0 ms; interfaces = interfaces_from 0 ms })

  -- The nodes with a socket on port 5000 that calls `ReceivePacket`.
  unfoldable pub setup_udp_receive_sockets : ℕ → List NodeMapping → List (ℕ × ℕ)
  setup_udp_receive_sockets i [] = []
  setup_udp_receive_sockets i (m ∷ ms) = (i, 5000) ∷ setup_udp_receive_sockets (suc i) ms

  -- `SendGeneratedMessage` at its time.
  abbrev pub send_generated_message : ℕ → NodeMapping → NodeMapping → Bytes → Sending net.Addr
  send_generated_message time from to message = record {
    time = time;
    sender = from.node;
    address = to.ipv4_addr;
    port = 5000;
    message = message;
  }

  -- `GenerateTraffic` from the pair of nodes at `i` on: what it schedules.
  unfoldable pub generate_traffic : ℕ → List NodeMapping → List (Sending net.Addr)
  generate_traffic i (a ∷ b ∷ ms) =
      send_generated_message (2 + i) a b (codes "Hello from " ++ a.node_id_string)
      ∷ send_generated_message (3 + i) b a (codes "Reply from " ++ b.node_id_string)
      ∷ generate_traffic (suc (suc i)) ms
  generate_traffic i _ = []

  -- What `main` sets up before the simulation runs, and when it fetches first; with a stop time in
  -- ns3Simple-testing.cc.
  pub record Plan : Type 0 where
    pub topology : Topology net.Addr
    pub sockets : List (ℕ × ℕ)
    pub traffic : List (Sending net.Addr)
    pub first_poll : Option ℕ
    pub stops_at : Option ℕ

  -- The loop `for (int i = 0; i < numHosts; ++i)`
  abbrev hosts : ℤ → List NodeMapping
  hosts (pos n) = node_mappings 0 n
  hosts (negsuc n) = []

  plan : Option ℕ → Option ℕ → List NodeMapping → Option Plan
  plan first_poll stops_at ms = elim (build_network_topology ms) [
    | none ↦ none
    | some topology ↦ some (record {
      topology = topology;
      sockets = setup_udp_receive_sockets 0 ms;
      traffic = generate_traffic 0 ms;
      first_poll = first_poll;
      stops_at = stops_at;
    })
  ]

  -- `main` of nsb-testing.cc. `none`: it returns 1, since its log does not open or there is no node.
  unfoldable pub nsb_main : Bool → ℤ → Option Plan
  unfolding plan
  nsb_main log_opens num_hosts = if log_opens then plan (some 1) none (hosts num_hosts) else none

  -- `main` of ns3Simple-testing.cc, which has no client.
  unfoldable pub simple_main : Bool → ℤ → Option Plan
  unfolding plan
  simple_main log_opens num_hosts =
      if log_opens then plan none (some 20) (hosts num_hosts) else none
