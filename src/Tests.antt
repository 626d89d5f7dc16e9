-- ===== src/Tests.antt =====
-- Runs of the model, and each result at concrete data.
mod Coder
mod Enums
mod Wire
mod Data
mod Clients
mod Server
mod Whole
mod Runs
mod Interleavings
mod Push
mod Inet
mod Nodes
mod Languages
mod Pass
