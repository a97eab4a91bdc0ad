-- ===== src/Lib.antt =====
-- A verification library for reactor, a header-only C++ library of event loops over Asio: TCP and
-- UDP servers whose work runs on a fixed set of single-threaded loops, with bounded admission, a
-- probe of the loops' lateness, and TLS set-up.
--
-- The parts and their files:
-- - Admission models connection_admission.h, `ConnectionAdmission` and its `Lease`. `Move` is one
--   atomic access of `try_enter` or of a release; any number of tasks interleave (Prelude/Threads).
--   Admission/Solo has `try_enter` and the release as functions, Admission/Leases lease variables that
--   are assigned and moved over several admissions.
-- - Gate models `AdmissionGate` of reactor.h in the same way: Gate for the accesses, Gate/Single for the
--   functions, on the 32-bit pattern of an `int`; Gate/Leases has its lease variables.
-- - Lag models reactor_lag.h: the buckets in Lag, `LagSnapshot` in Lag/Snapshot and Lag/Quantile, and
--   `LagProbe` with its timer and `SlotAllocator` in Lag/Probe; Lag/Reading has `LagProbe::snapshot`
--   while the loop stores to the counters.
-- - Accept models the accept loops of reactor.h: the judgement of errors and the back-off in Accept,
--   what an accept task leaves for those who wait for it in Accept/Startup, and `accept_loop` and
--   `shared_accept_loop` in Accept/Loop. A turn of a loop takes what the system, the timer and other
--   threads answer as input. The loops take a lease of an admission for each connection, and give it to
--   the session they launch. Accept/Stop has the end of an accept task beside `TcpServer::stop` and
--   `stop_on_owner`, as steps of the two.
-- - AbortList models `Abortable` and `AbortList` of reactor.h on an explicit heap of hooks, and
--   AbortList/Nested a walk of a list inside another walk of it.
-- - Tls models reactor_tls.h: `configure` as the list of calls on the OpenSSL context, and
--   `bind_hostname` in Tls/Hostname.
-- - Udp models reactor_udp.h: the calls of `start` on the socket in Udp, `receive_loop` in Udp/Receive,
--   the thread in Udp/Thread, and `start`, `stop`, `close` and `destroy_roots` in Udp/Phases.
-- - Events models reactor_events.h: `Signal` as senders and a loop that interleave in Events/Signal, and
--   `PeriodicTimer` as the handlers that its loop runs in Events/Timer.
-- - RunScope models `RunScope` and `inside_run` of reactor.h, on one thread.
-- - Sync models `Reactor::on_loop_sync` of reactor.h with the claims on a loop, as callers and threads
--   of the loop that interleave at each section under a mutex.
-- - Shutdown models `Reactor::track`, `abort_all` and `force_all` over the list of AbortList. A hook
--   returns; it may track and untrack any nodes, also when `track` itself calls it, and call an
--   `abort_all` that has begun. Teardown joins it to Sync: the walks run in
--   `on_loop_sync`, called from any thread, between handlers that track and untrack.
-- - Sessions models a session from its accept to its end (`SessionTicket`, `launch_session`,
--   `run_session`, the session count), as connections that interleave over one reactor's count and an
--   admission of Admission/Solo.
-- - SessionControl models `shutdown_connection` and `SessionControl::force`, as `Reactor::force_all` calls
--   it. The system's calls are parameters with what is documented of them as hypotheses.
-- - TcpServer models the class of that name: its settings and the phases of its teardown in TcpServer,
--   `start` with its rollback in TcpServer/Start, sequences of phases in TcpServer/Phases. What the
--   server asks of its reactors, accept tasks and threads is a list of effects, and which steps of
--   `start` throw is an input.
-- - Reactors models `TcpServer::stop` with `sessions_end_within` beside the accept tasks and the
--   connections of all reactors, where each reactor has an accept task or one accepts for all, and an
--   admission is shared. The stopping thread, the accept tasks and the connections take turns in any
--   order; a grace may end at any time, and so may an accept task.
-- - Echo models examples/echo_server.cc: the session in Echo, and `main` in Echo/Run.
-- - Prelude has what they share, and Examples applies the theorems at concrete inputs.
--
-- Machine integers are natural numbers with their wrap-around written out: 64 bits for `uint64_t`
-- and `size_t`, 32 for `unsigned` and for the patterns of `int`. The fuel of `AbortList::each` is
-- one more than the length of the list, which its theorem shows to be enough, and the walks of
-- Shutdown end with the same fuel; the buffer sizes of `UdpServer` are tried in 64 rounds, one for
-- each bit of a `size_t`. `on_loop_sync` is taken to be called fewer than 2^64 times, so that no
-- call's number comes again. Relaxed atomic accesses are steps on one memory: the code keeps each
-- of these counters by itself and orders nothing else by them.
--
-- Parameters: the system's error numbers and the endpoints of sockets, Asio's sockets and timers,
-- OpenSSL, `atoi`, arithmetic on `double` and the steady clock. A post to a loop is taken not to throw, but
-- for the launch of a session.
--
-- Not modelled: a hook of shutdown that walks the list anew or does not return (AbortList/Nested has
-- walks inside walks); the order of the members of `Reactor`, which `ReactorLayout` pins; the sends
-- of `UdpServer`, which pass on to Asio; reactor_trace.h, whose macros are logging; the tests and the
-- benchmark. Condition variables appear as the conditions that their waits wait for.
pub mod Prelude
pub mod Admission
pub mod Lag
pub mod Accept
pub mod AbortList
pub mod Teardown
pub mod Tls
pub mod Gate
pub mod Udp
pub mod Echo
pub mod Events
pub mod RunScope
pub mod Sync
pub mod Shutdown
pub mod Sessions
pub mod SessionControl
pub mod Reactors
pub mod TcpServer
pub mod Examples
