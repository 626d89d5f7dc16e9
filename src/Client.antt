-- ===== src/Client.antt =====
-- The client library, cpp/include/nsb.h, cpp/src/nsb.cc, cpp/include/nsb_client.h and
-- cpp/src/nsb_client.cc: the socket interface, the database connector and the two clients.
pub mod Redis
pub mod Context
pub mod Socket
pub mod Base
pub mod App
pub mod Sim
pub mod Keys
pub mod Database
pub mod Transfer
pub mod Connection
pub mod Session
pub mod Starvation
