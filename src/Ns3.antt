-- ===== src/Ns3.antt =====
-- The simulators examples/ns3/nsb-testing.cc and ns3Simple-testing.cc: nodes of ns-3 with the
-- addresses 10.1.1.1, 10.1.1.2, ... , between which messages from the daemon go as UDP packets. ns-3
-- is a parameter: its addresses and their text, its list of nodes and its scheduler.
pub mod Topology
pub mod Bridge
pub mod Network
pub mod Delivery
pub mod Radio
pub mod Traffic
pub mod Simple
