-- ===== src/Python.antt =====
-- The client library for Python, python/nsb_client.py. It talks to the same daemon with the same
-- messages, so it has the types of the C++ library's model for messages, clients and connectors.
-- protobuf, redis-py, sockets and the clock are parameters.
pub mod Raises
pub mod Base
pub mod Redis
pub mod Client
pub mod Setup
pub mod Socket
pub mod Mixed
pub mod Same
pub mod Responses
pub mod Polls
pub mod Delivery
pub mod KeyedReceive
pub mod KeyedPost
