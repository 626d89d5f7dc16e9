-- ===== src/Ns3/Radio.antt =====
-- nsb-testing.cc, `BuildNetworkTopology`: the settings of the radio, and which nodes are in its
-- range; `CreateLogDirectory`; and what `main` does before it builds the network.
use nsb_beta.Base.{
  suc, ℕ, ◌+◌, ◌-◌, ◌%◌, ◌^◌, ◌≤◌, ◌≡◌, inl, inr, Bool, true, false, Option, none, some, [], ◌++◌,
  arith, ◌==◌, Bool-cases, Bytes, codes, ℤ, pos,
}
use nsb_beta.Wire.{Codec}
use nsb_beta.Outcome.{Outcome}
use nsb_beta.Client.Base.{Client, Sent, SockName}
use nsb_beta.Client.Sim.{new_sim_client}
use nsb_beta.Ns3.Topology.{position}

-- The names that are given to ns-3, and the range in metres.
pub record Radio : Type 0 where
  pub delay_model : Bytes
  pub loss_model : Bytes
  pub max_range : ℕ
  pub mac : Bytes
  pub standard : Bytes
  pub station_manager : Bytes
  pub data_mode : Bytes
  pub control_mode : Bytes
  pub mobility_model : Bytes
  pub routing : Bytes

unfoldable pub radio : Radio
radio = record {
  delay_model = codes "ns3::ConstantSpeedPropagationDelayModel";
  loss_model = codes "ns3::RangePropagationLossModel";
  max_range = 500;
  mac = codes "ns3::AdhocWifiMac";
  standard = codes "WIFI_STANDARD_80211b";
  station_manager = codes "ns3::ConstantRateWifiManager";
  data_mode = codes "DsssRate1Mbps";
  control_mode = codes "DsssRate1Mbps";
  mobility_model = codes "ns3::ConstantPositionMobilityModel";
  routing = codes "AodvHelper";
}

-- The difference of two coordinates, and the square of the distance of two places.
abbrev pub apart : ℕ → ℕ → ℕ
apart a b = (a - b) + (b - a)

abbrev pub distance_squared : ℕ × ℕ → ℕ × ℕ → ℕ
distance_squared p q = apart p.0 q.0 ^ 2 + apart p.1 q.1 ^ 2

abbrev pub InRange : ℕ → ℕ → Type 0
InRange i j = distance_squared (position i) (position j) ≤ radio.max_range ^ 2

pub in_range :
    (i j dx dy : ℕ)
    → apart (position i).0 (position j).0 ≡ dx
    → apart (position i).1 (position j).1 ≡ dy
    → dx ^ 2 + dy ^ 2 ≤ 500 ^ 2
    → InRange i j
unfolding radio
in_range i j dx dy h k close = rw (h, k) close

-- Every node is in the range of the next, also where a row ends, so the network is connected.
pub next-InRange : (i : ℕ) → InRange i (suc i)
next-InRange i = elim (Bool-cases (i % 10 == 9)) [
  | inl last ↦ in_range i (suc i) 450 50 (ground arith) (ground arith) (omega arith)
  | inr inner ↦ in_range i (suc i) 50 0 (ground arith) (ground arith) (omega arith)
]

-- What `mkdir` says, and the line that is logged, if there is a log: at a time in seconds.
pub data Mkdir : Type 0 where
  created : Mkdir
  fails : Bool → Bytes → Mkdir

unfoldable pub create_log_directory : Bytes → Bool → Bytes → Mkdir → Bytes
create_log_directory path false seconds result = []
create_log_directory path true seconds created =
    seconds ++ (codes "s [INFO] Created log directory '" ++ (path ++ codes "'.\n"))
create_log_directory path true seconds (fails true error) =
    seconds ++ (codes "s [INFO] Log directory '" ++ (path ++ codes "' already exists.\n"))
create_log_directory path true seconds (fails false error) =
    seconds ++ (codes "s [WARN] Error creating log directory: " ++ (error ++ codes "\n"))

-- `numHosts` is 10 unless the command line has it.
unfoldable pub num_hosts_of : Option ℤ → ℤ
num_hosts_of none = pos 10
num_hosts_of (some n) = n

-- The client of the simulation, which is made before the log is looked at.
unfoldable pub main_client :
    Codec → (Sent → Bytes) → SockName → (Bytes → ℤ → Bool) → ℤ → ℤ → Outcome Client
unfolding new_sim_client
main_client codec answer names online junk_port junk_num =
    new_sim_client codec answer names online junk_port junk_num (codes "simulator")
