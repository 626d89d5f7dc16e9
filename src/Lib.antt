-- ===== src/Lib.antt =====
-- The Network Simulation Bridge: a daemon (cpp/src/nsb_daemon.cc, cpp/include/nsb_daemon.h) through
-- which applications and network simulators exchange messages, and the client library that both
-- link (cpp/src/nsb_client.cc, cpp/src/nsb.cc, cpp/include/nsb_client.h, cpp/include/nsb.h). An
-- application SENDs, the simulator of its node FETCHes, simulates and POSTs, and the application at
-- the destination RECEIVEs. The simulators are examples: two for OMNeT++ (examples/omnet) and one for
-- ns-3 (examples/ns3). In PULL mode the daemon keeps the messages in two buffers; in PUSH mode
-- it forwards them at once. Payloads travel in the messages or, with a database, in Redis under
-- generated keys.
--
-- The files:
--   Base       Booleans, byte strings, signed integers, decimal numerals and `std::map`
--   Wire       proto/nsb.proto: the message `nsbm` and its accessors
--   Config     `Config`, `MessageEntry` and `configure`
--   Outcome    results of code that may end the process, and why it may
--   Daemon     State: the variables of `NSBDaemon` and `ClientDetails`; Init: `handle_init` and
--              `handle_ping`; Buffers: `handle_fetch`, `handle_receive`; Forward: `handle_send`,
--              `handle_post`; Dispatch: `handle_message`; Recv: the loop that reads a socket;
--              Server: `start`, `start_server` and the end of `main`. Answers reads the
--              messages field by field; Queues and RxQueues see the buffers as one queue for each
--              source and each destination, and Fifo puts many messages in a row; Traffic and Conservation count what enters and leaves the buffers; Keeps,
--              Soundness and Evolution are about all that a run keeps, Descriptors about what it
--              opens and closes, Faults about errors, InOrder and OneRequest about a pass of the
--              server over its channels, Together about requests that wait together. Daemons that differ only in the order of entries of
--              different queues are the same for every request: SameQueues, SameHandled,
--              SameForward and SameSent prove it, and Interleaving takes the quotient
--   Client     Redis: `DBConnector`, `RedisConnector`; Context: the life of a connector; Socket:
--              `SocketInterface`; Base, App, Sim: `NSBClient`, `NSBAppClient`, `NSBSimClient`; Keys and Database are about the
--              generated keys and the stored payloads, Transfer and Connection about the sockets,
--              Session about the whole life of a socket interface, Starvation about a request
--              without a source
--   System     clients and daemon together: Steps and Polls have one request each, Delivery is
--              about the last entry of a queue, DatabaseDelivery about a message on its whole way as
--              in cpp/nsb_test.cc (without a database it is in Python.Delivery, for clients of
--              both languages), PushDelivery each half of it in PUSH mode, Registration a client's INIT;
--              Served, ServedSubmits, ServedAsks and ServedRelay join clients with the server's
--              loop. Many messages at once are in Burst, with the handlers alone, and in PostKeeps
--              and BurstServed, with the server's loop
--   Log        `NsbLogSink` of cpp/include/nsb.h: the form of a line of the log
--   Python     python/nsb_client.py, the same client in Python: Raises has its exceptions, Base,
--              Redis, Client, Setup and Socket its classes, and Mixed clients of both languages
--              with one daemon. Same, Responses and Polls compare them request by request,
--              Delivery puts the requests together, KeyedReceive and KeyedPost are about `post`
--              where a database is used
--   Hosts      the names "host0", "host1", ... that the examples read with `std::stoi`
--   Inet       examples/omnet/nsb_omnet_inet/INETAppFiles: Packet has the format of its packets, Timer
--              the message that a module schedules to itself, BasicApp and AppSink the two
--              applications. Schedule, Turn and Run are about one turn of the timer and all of
--              them, Lifecycle about starts, stops and crashes of the node between them, Network
--              about a message on its whole way through the simulated network; Report is what
--              `finish` and `refreshDisplay` write
--   Omnet      examples/omnet/nsb_omnet_basic: Host is NSBHost.cc, Network the hosts wired to each
--              other, Relay a message on its whole way
--   Ns3        examples/ns3: Topology has the nodes and the generated traffic, Bridge `PollToFetch` and
--              `ReceivePacket`, Network the way of a datagram, Delivery for whom it is posted;
--              Radio has the settings of the radio, Traffic which nodes the traffic is for, and
--              Simple is ns3Simple-testing.cc
--   Tests      a concrete codec, database and environment, and each result at concrete data
--
-- State and operations. A handler takes the daemon and a message and returns the daemon, the
-- response, whether it is to be sent, and what it sent to others (`Handled`). A read that ends the
-- process is a `Fault`. Strings are lists of bytes, `int` is the library's ℤ with the wrap-around
-- of a cast written out (`to_int32`), and a `std::map` is a list in the order of its keys. A name of
-- the source stands in snake_case: `checkOut` is `check_out`, `ping` of a client `ping_daemon`,
-- `exit` `exit_daemon`.
--
-- Parameters. The protobuf runtime is a `Codec`: what is written is read back. hiredis with its
-- server is a `Redis`, with the documented effect of SET, GET and GETDEL while the connection is
-- good; `redisConnect` is what it makes of an address. For Python the runtime also says which
-- bytes it takes as a message and as text (`Protobuf`), and redis-py raises where a command has no
-- reply. A time that is logged is given in the fields of the local time. yaml-cpp is what its
-- typed lookups give (`Yaml`). The operating system is a list of answers: a pass of a loop takes
-- one, and a loop whose list is used up is still running, so a list bounds a run and nothing else.
-- `Recv.recv_calls` and, for Python, `Socket.chunks_of` have fuel for the calls of `recv` on a
-- stream, and one more than the bytes that wait is enough. The clock is a number.
-- The kernels of OMNeT++ and ns-3 are what calls the functions of the examples: a run of
-- `Inet.BasicApp` is a list of waiting times and fetched messages, one for each time that its
-- timer goes off, and the networks take a packet to the other side as it was sent.
-- `Omnet.Network.carry` has fuel for the hosts that a message passes, and two are enough. An
-- address of INET is anything that names resolve to, and one of ns-3 has a text, which is the one
-- that it was made of for the addresses of the subnet. The hosts are little-endian.
--
-- Messages on a socket have no length in front, and the daemon parses what it reads in one pass as one
-- message. `System`, `Inet`, `Omnet`, `Ns3` and `Python` hand it each request by itself, as when the
-- daemon reads every request before the next one is written on its channel; what happens otherwise is
-- in `Daemon.Together`.
--
-- Not modelled: which lines the code logs; the thread of `listenForMessage` and the event loop of
-- Python's `listen`; the leaks of messages and buffers. In `start_server` the `erase` within the
-- loop is taken to go on with the next descriptor, and the sockets of `accept` to be non-blocking.
-- A descriptor above the size of an `fd_set` is an error where a handler sets it, and not where
-- the loop does. Of the examples: `chooseDestAddr`, which nothing calls, the name and the
-- fragmentation tag of a packet, and NSBMessage_m.cc, which is generated.
pub mod Base
pub mod Wire
pub mod Config
pub mod Outcome
pub mod Log
pub mod Daemon
pub mod Client
pub mod Hosts
pub mod Inet
pub mod Omnet
pub mod Ns3
pub mod Python
pub mod System
pub mod Tests
