-- ===== src/Daemon.antt =====
-- The daemon, cpp/include/nsb_daemon.h and cpp/src/nsb_daemon.cc: its state, the handlers of the
-- messages, the server loop, and what holds of them.
pub mod State
pub mod Handled
pub mod Init
pub mod Buffers
pub mod Answers
pub mod Forward
pub mod Dispatch
pub mod Recv
pub mod Server
pub mod InOrder
pub mod OneRequest
pub mod Queues
pub mod RxQueues
pub mod SameQueues
pub mod SameHandled
pub mod SameForward
pub mod SameSent
pub mod Interleaving
pub mod Fifo
pub mod Keeps
pub mod Soundness
pub mod Evolution
pub mod Faults
pub mod Descriptors
pub mod Traffic
pub mod Conservation
pub mod Together
