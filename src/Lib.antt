-- ===== src/Lib.antt =====
-- Civitas, the production runtime for Python agents (civitas/ of the repository): agents with a
-- mailbox each run under supervisors, find each other in a registry, stream to each other, and sign
-- what they send to other processes. A gateway routes HTTP requests to them.
--
-- How the parts interact. A supervisor (civitas/supervisor.py) rules on a crash of a child with its
-- restart engine (civitas/supervision/engine.py), and a restart makes a fresh incarnation of the agent
-- (civitas/process.py) which takes over the mailbox of the old one and restores its state, with a
-- durable suspension if there is one. Every change of an agent's status sets its flag in the registry
-- (civitas/registry.py), which also holds the names that other nodes announce with an epoch. A consumer
-- of a stream holds a sink (civitas/streaming.py) into which the frames of a producer go. A dynamic
-- supervisor (civitas/supervisor.py too) starts with no children, admits them on request under limits,
-- registers their names and announces them to other nodes. The bus (civitas/bus.py) sends a message to the
-- address that the registry has for its recipient, and answers what waits in the mailbox of an agent that
-- is torn down. An EvalAgent (civitas/evalloop.py) and a gateway's rate limiter keep sliding windows.
-- A GenServer (civitas/genserver.py) is an agent that serves calls, casts and timers; `civitas topology validate`
-- (civitas/cli/topology.py) checks the file that a tree of supervisors is built from.
--
-- Which file models what:
--   Base                  tests on numbers and strings, lists, Python's dict as an association list
--   Message               civitas/messages.py: Message, its payload as JSON, the reserved types
--   Mailbox               civitas/process.py Mailbox (put, put_nowait, get, get_priority, peek, drain)
--                         and civitas/supervisor.py _transfer_mailbox
--   Engine                civitas/supervision/engine.py RestartEngine (record_crash, exempt_verdict,
--                         compute_backoff, reset)
--   Streaming             civitas/streaming.py StreamSink (push, end as end_stream, fail, drain as
--                         drain_wait, receive and timeout_reason)
--   Registry              civitas/registry.py LocalRegistry (every method; lookup as lookup_entry) and
--                         reregister_preserving
--   Registry/Remote       register_remote and deregister_remote
--   Router                civitas/gateway/router.py (_parse_pattern, _match_segments, RouteTable.match)
--   Agent                 civitas/process.py AgentProcess: the state, _set_status and the user's hooks
--   Agent/Suspension      suspend, suspend_for_approval, resume, _enter_suspended,
--                         _update_suspend_reason, suspend_category, _clear_suspend_marker, checkpoint
--   Agent/Dispatch        _dispatch and _apply_error_action
--   Agent/Loop            _message_loop by turns (turn), its finally (leave_loop), and _run up to the
--                         loop (reach_loop)
--   Signing               civitas/security/signing.py NonceCache, MessageSigner and what
--                         SigningSerializer.deserialize lets through (let_through)
--   Supervisor            civitas/supervisor.py the restart strategies on the children
--   Supervisor/Crashes    _handle_crash, _escalate, _escalate_to_parent, _process_crash_event
--   Supervisor/Heartbeats add_remote_child, _group_by_health_channel, _probe_health_channel and a turn of
--                         _heartbeat_loop
--   Spawning              civitas/supervisor.py DynamicSupervisor: its state and _handle_spawn
--   Spawning/Exits        _handle_despawn, _handle_stop, _handle_child_exit, _terminal_cleanup, the
--                         announcements and the continuation of a spawn that waits
--   Spawning/Steps        these, whole and cut at their awaits, as steps in any order; Spawning/Moves,
--                         Spawning/Endings and Spawning/Handlers say what a step does to the table,
--                         Spawning/Abstract what a client sees of it
--   Bus                   civitas/bus.py MessageBus (setup_agent, route, request, teardown_agent)
--   Frames                civitas/process.py the two ends of a stream: emit, end_stream, stream_reply, stream,
--                         _emit_stream, _consume_stream_frame, _raise_if_stream_stopped,
--                         _fail_local_streams, _interrupt_out_streams
--   Spans                 civitas/observability/span_queue.py and span_store.py InMemorySpanStore
--   Topology              civitas/cli/topology.py _validate_topology, on a file with a supervision section
--   Evaluation            civitas/evalloop.py EvalAgent
--   GenServer             civitas/genserver.py GenServer, and cast, send and ask of civitas/process.py
--   Gateway               civitas/gateway/ratelimit.py RateLimiter and rate_limit
--   Base/Windows          sliding windows under keys, for Evaluation and Gateway
--   Examples              the theorems at concrete inputs
-- The other files under a part's name hold the theorems about it.
--
-- How state and effects are modelled. A method is a function from the state to its result and the new
-- state; a raised exception is a result, and awaiting without end is none. What a method does to the
-- outside (hooks called, messages routed, audit events) is a log in the state. Asynchronous tasks
-- interleave by sequences of events or stimuli, one call or one turn of the loop each; a turn itself is
-- not interrupted, except that a call of the user's code may report a status that another task has set.
-- The handlers of a dynamic supervisor are steps too, in any order, and so are the continuations that
-- they start. A handler that awaits in the middle is also cut there into two steps, between which any
-- others may come (exit_begins and exit_ends, cleanup_begins and cleanup_ends and the like); the part
-- after an await carries the record that the handler holds. The publication of an announcement and its
-- note in the child's record are two steps.
--
-- Numbers. Times, delays and priorities are natural numbers of ticks, where the program has floats;
-- jitter is a number of millionths. No width of a machine integer matters: Python's are unbounded.
--
-- Fuel. Only the retry loop has fuel, two more than the retries left: each round raises the attempt
-- number, above whose bound the loop ends. The user's code may set that number too, and if it lowers
-- it the loop may not end. Every other loop is structural on the list that it consumes.
--
-- Not modelled: entropy and clocks are arguments; msgpack, Ed25519 and fnmatch are parameters, and so
-- is what the stop and the start of a child leave; the store of an agent holds the value that was last
-- set for its name. The class that a spawn imports, the governance hook, the making and the start of a
-- fresh incarnation, the delivery of a message and the verdict on an event are parameters. A call of
-- the user's code is one that comes to an end: there is no model of a handler that hangs. Metrics and
-- logging only observe, and the sums of costs, which are floats, are left out. The transports, the
-- gateway's servers and dispatch, the runtime's wiring, the drawing and comparison of topologies, the
-- other commands and the dashboards have no model here.
pub mod Base
pub mod Engine
pub mod Message
pub mod Mailbox
pub mod Streaming
pub mod Registry
pub mod Router
pub mod Agent
pub mod Signing
pub mod Supervisor
pub mod Spawning
pub mod Bus
pub mod Frames
pub mod Spans
pub mod Topology
pub mod Evaluation
pub mod Gateway
pub mod GenServer
pub mod Examples
