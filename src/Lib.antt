-- ===== src/Lib.antt =====
-- The asyncio event loop of tokioloop (rloop): the Rust crate under src/ of the repository.
--
-- The crate has two event loops for Python. `EventLoop` polls the system through mio, keeps the
-- watched file descriptors, the ready callbacks and the timers, and hands events to TCP and UDP
-- transports. The transports and servers call it back to change what is watched. `TEventLoop` runs on
-- the tokio runtime: what is scheduled goes through a channel to one task, which selects between that
-- channel, its timers, the signals and the handles that are ready; each of its TCP transports has a
-- task of its own, which selects between reading, writing and a sleep.
--
-- Which file models which code:
--   Base, Base/Tests, Base/Lists      shared names, the Boolean tests on ℕ, lists over ℕ
--   Deps, Deps/Papaya, Mio, Rustls    the crates that the code calls, as parameters: concurrent maps
--                                     with their documented laws, the interests and the calls of the
--                                     poll's registry, a TLS connection of which nothing is assumed
--   Handle                            src/handles.rs, src/time.rs: what the ready queue holds
--   World                             the state of src/event_loop.rs, src/tcp.rs and src/udp.rs
--   EventLoop/Watch, Streams, Sockets, Readers, Listeners
--                                     src/event_loop.rs: tcp_stream_add, tcp_stream_rem,
--                                     udp_socket_add, udp_socket_rem, add_reader, remove_reader,
--                                     add_writer, remove_writer, tcp_listener_add, tcp_listener_rem,
--                                     _ssock_set, _ssock_del
--   EventLoop/Schedule, Timers        src/event_loop.rs: schedule0 to schedule_handle, call_soon,
--                                     call_soon_threadsafe, _call_later, the timer part of step
--   EventLoop/Signals                 src/event_loop.rs: read_from_sock, handle_io_signals, sig_handle
--   EventLoop/Step                    src/event_loop.rs: step and _run
--   EventLoop/Wakeup                  src/event_loop.rs: the counter, the idle flag and the waker of step
--                                     and call_soon_threadsafe as steps of two threads
--   Tcp/New, Close, Write, WriteHandle, ReadHandle, Reading, Accessors
--                                     src/tcp.rs: TCPTransport, TCPWriteHandle and TCPReadHandle
--   Udp/Transport, Handles, Accessors src/udp.rs
--   Server                            src/server.rs (Server), src/tcp.rs (TCPServer)
--   Deps/Channel                      the unbounded channels of async_channel and of tokio
--   Tokio/Handle                      src/tokio_handles.rs, the timers of src/tokio_event_loop.rs
--   Tokio/Loop, Watch, Signals        src/tokio_event_loop.rs: schedule0 to schedule_handle, call_soon,
--                                     call_soon_threadsafe, _call_later, _stop; add_reader, add_writer,
--                                     remove_reader, remove_writer, _tcp_stream_bound; _ssock_set,
--                                     _ssock_del
--   Tokio/Run                         src/tokio_event_loop.rs: the task of _run
--   Tokio/Transport, Io               src/tokio_tcp.rs: TokioTCPTransport and io_processing_loop
--   Tokio/Server                      src/tokio_tcp.rs (TokioTCPServer), src/server.rs (TokioServer),
--                                     src/tokio_event_loop.rs: _tcp_server, _tcp_conn
--   Examples                          each theorem at a concrete state
--
-- The model. A world is a record of the loop's fields. A transport is a shared object in the code, so a
-- map holds its reference and a heap holds its state; a change through any reference is seen by all.
-- A callback into Python, a byte given to a socket and the like are entries of the list `trace`, the
-- newest first. A `RefCell` has a flag for a mutable borrow that spans a call; a second borrow panics.
-- A run is `ok`, `panic` or `starved`: the code returned, it panicked, or the answers of the system
-- that were given as input ran out. Python callbacks are a function on worlds, `run`, that a theorem
-- takes as a parameter. Whether a protocol factory raises an exception, and which methods its protocol
-- has, are inputs: the code unwraps both, so a stream that gets no protocol is a panic. A file
-- descriptor, a Python object and an address are numbers. `usize` is
-- 64 bits wide: the counter of the ready queue wraps at 2 ^ 64. The clock is a number of microseconds.
--
-- The theorems on transports read a callback of a protocol as an entry of the trace: what the protocol
-- calls from it is not modelled, but for the data it is given, where `react` is what it does.
--
-- No loop has a bound of its own. A loop over a buffer or over a socket takes the list of the answers
-- that the system gives, one for each call, and is recursive on it; a theorem that needs the loop to
-- end says how the list ends. The loop `_run` takes one input for each iteration, and the loop that empties the TLS reader
-- the number of its reads.
--
-- The tokio loop. Its record has the channels with what they hold. Which branch of a `select!` completes
-- is an input, and so is what the branches that are dropped had done by then: the theorems are on all of
-- them. What a callback into Python does to the loop is a list of operations that a theorem takes as a
-- function of the call and the state; other threads do such operations between the turns of the task.
-- The setter of `_stopping` is one of these operations; that a callback does not clear the flag is
-- a hypothesis where it matters. What the protocol of a transport calls on it is
-- a list of operations, too. A turn of the task of _run and a round of io_processing_loop are functions;
-- the loops are relations on states or recursive on the list of what completes. The tasks of a server's
-- listener are program points, and what happens to a server is a list of moves.
--
-- Not modelled: the UDP transport of the tokio loop, of which nothing is implemented (src/tokio_udp.rs),
-- and the operations of that loop that only log (_udp_conn, _tcp_server_ssl, _signals_clear,
-- _sig_clear); the making of TLS configurations from files (src/ssl.rs); logging, the module
-- tables and the address parsing (src/log.rs, src/lib.rs, src/py.rs, src/sock.rs, src/io.rs,
-- src/utils.rs), which are calls of Python or of the system; the Python package under rloop/.
mod Base
pub mod Deps
pub mod Handle
pub mod World
pub mod EventLoop
pub mod Server
pub mod Tcp
pub mod Udp
pub mod Tokio
pub mod Examples
