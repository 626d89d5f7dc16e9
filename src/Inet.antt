-- ===== src/Inet.antt =====
-- The applications for the INET framework of OMNeT++ (examples/omnet/nsb_omnet_inet/INETAppFiles):
-- on each simulated host nsbBasicApp fetches messages from the daemon and sends them as UDP packets,
-- and nsbAppSink posts what arrives. The frameworks are parameters: what `par` gives, how addresses
-- resolve, and which events come.
pub mod Packet
pub mod Timer
pub mod BasicApp
pub mod Schedule
pub mod Turn
pub mod Run
pub mod AppSink
pub mod Network
pub mod Lifecycle
pub mod Report
