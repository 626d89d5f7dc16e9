-- ===== src/Omnet.antt =====
-- The simulator examples/omnet/nsb_omnet_basic: hosts that are wired to each other fetch messages
-- from the daemon, send them through their gates, and post what arrives. The kernel of OMNeT++ is
-- what calls the functions here; NSBMessage is the class that it generates from NSBMessage.msg.
pub mod Host
pub mod Network
pub mod Relay
