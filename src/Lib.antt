-- ===== src/Lib.antt =====
-- sockcan: CAN frames over sockets, and the server that shares one CAN bus among many consumers.
--
-- The program has a protocol layer, src/sockcan/_protocol.py, which turns messages into frames of 16
-- bytes and moves them over datagram and stream sockets, and a server, src/sockcan/daemon/_server.py,
-- which holds a consumer per socket. The RX thread of the server takes the frames of the bus to the
-- consumers; a frame that a socket does not take at once waits in the backlog of the consumer. The TX
-- thread waits on a selector: it takes the frames of a consumer to the bus and to the other
-- consumers, and drains a backlog as soon as the socket takes frames again. Consumers choose frames
-- by filters, and the union of all filters is set on the bus. A daemon has a server for each
-- channel and an HTTP server, by which clients subscribe, src/sockcan/daemon/_client.py. In
-- src/sockcan/interop.py a bus class for python-can uses a server of its own process or a daemon.
-- Beside these, the transcoders turn the signals of a message into its data bytes and back.
--
-- Files, with the code they model, in paths below src/sockcan/:
--   Prelude    shared names, Boolean tests, lists, exceptions and results; no code of the program
--   Bits       bit operations on naturals by division and remainder
--   Bytes      the machine words of Python's struct module, in both byte orders
--   Wire       _protocol.py: CanMessage, build_tx_header, and the decoding of a frame
--   Stream     _protocol.py: _socketcan_recv, _socketcan_recv_stream, _complete_frame, the four
--              senders, _complete_send, build_recv_func and build_send_func
--   Filters    daemon/_server.py: _normalize_filters, _frame_matches, _aggregate_filters; interop.py:
--              _matches_filters
--   Backlog    daemon/_server.py: _ConsumerIO, _note_dropped_frame
--   Server     daemon/_server.py: the state of SocketcanServer, listen_to, subscribe, start, stop,
--              join, factory and _queue_frame
--   Receive    daemon/_server.py: _run_rx, with the exceptions that run_rx catches
--   Transmit   daemon/_server.py: _run_tx, with its events, its loop and its pacing
--   Threads    the handlers of both threads in any order, from a fresh server
--   Race       the single accesses of the two threads to the backlog of one consumer
--   Transcode  transcoders/_common.py, _encoders.py, _decoders.py: encode, decode and their builders
--   Daemon     daemon/_server.py: do_GET of the HTTP request handler, and the life of
--              SocketcanDaemon, with start_daemon_globally
--   Client     daemon/_client.py: ping_daemon and connect_socketcan_client
--   Interop    interop.py: UserspaceSocketcanBus, FastSocketcanBus, the activation, and the
--              override of python-can
--   Hub        the server as a list of frames for each consumer, which it implements
--   Candump    daemon/_server.py: _CandumpWriter, _candump_recv and _candump_send
--   Busload    daemon/__main__.py: busload and _frame_bit_count
--   Sockets    daemon/_server.py: _inet_socket_pair and _set_send_timeout; _protocol.py:
--              disable_nagle and connect_to_socketcan
--   Session    daemon/_client.py and daemon/_server.py: a client that subscribes at a daemon, and the
--              first frame of the bus that follows
--   Dump       daemon/__main__.py: the commands client, candump, ping and run_daemon; _protocol.py:
--              CanMessage.__str__
--
-- How the state corresponds. A socket is its file descriptor, a number, and what the sockets do is a
-- parameter: a call such as `send : ℕ → Frame → W → Result Unit × W` acts on a world W of its
-- own. Theorems about well-behaved sockets say so in a hypothesis on the call. In the record
-- Server, `known` and `io` are the dictionary _consumer_io, `selector` says which sockets are
-- watched and for what, and `world` is all the rest. An exception is a constructor of Exception with
-- the class tests of the `except` clauses; messages and logging are left out. Times are whole
-- nanoseconds, where the code has floats of seconds.
--
-- Fuel. _complete_frame reads at least one byte a round, so the number of missing bytes is enough.
-- _complete_send may fail to write for a bounded number of rounds in a row, and each byte written
-- gives all of them back: the bytes left times (the attempts and one), and the attempts, is enough.
-- The bits of a mask are counted with the mask itself as fuel, which is at least the number of its
-- digits. The other loops go over a list.
--
-- UserspaceSocketcanBus._recv reads again for each frame that its filters drop, so one more read than
-- frames wait is enough. The digits of a number are printed with the number as fuel. The commands
-- client and candump take one round for each message and one for the end of the connection.
--
-- Threads takes a handler as one step, which the code does not promise; Race takes each access as a
-- step, for one consumer of a stream server whose connection stays up.
--
-- Session takes a client's request and the handler of the daemon as one exchange: the reply of the
-- handler is what the client receives first.
--
-- The set-up of a consumer's socket, its socket pair, the opening of the candump file at a start and
-- the `set_filters` of the bus are results, in
-- `Surroundings`, that may change at any time. A backlog is drained as one step, without an eviction by
-- the RX thread between a peek and a pop (Race has the finer grain, for another race), and a socket is
-- registered once, so that one `_ConsumerIO` belongs to it.
--
-- Not modelled: logging and messages of exceptions, the values of the socket options of a consumer
-- beside its send timeout, a list of filters in JSON with an entry that is no filter, what the
-- closing of the candump file raises, an HTTP reply that cannot be written, the options of the command line, fixtures and
-- benchmarks.
pub mod Prelude
pub mod Bits
pub mod Bytes
pub mod Wire
pub mod Stream
pub mod Filters
pub mod Backlog
pub mod Server
pub mod Receive
pub mod Transmit
pub mod Threads
pub mod Client
pub mod Interop
pub mod Busload
pub mod Candump
pub mod Sockets
pub mod Session
pub mod Dump
pub mod Race
pub mod Hub
pub mod Transcode
pub mod Daemon
