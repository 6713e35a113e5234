-- ===== src/Lib.antt =====
-- femc-driver: a library for single-threaded servers, and what is proved of its parts.
--
-- The program. Every function that can fail reports to one global stack of contexts and errors
-- (error_stack.c). The dispatcher runs timers and handlers of file descriptors (dispatcher.c), on
-- top of `select` (dispatcher_select.c) or ZeroMQ. Services are built on it: a queue of tasks with
-- pauses between them (task_queue.c), buffered I/O, signals and connections (utils.c), an HTTP
-- parser (http.c). Integers, byte regions and CAN frames are serialized to buffers (s11n.c, can.c).
--
-- The files.
--   ErrorStack: error_stack.c. The 64 slots and `top` are two lists, of the slots below `top` and
--     from it on. `fde_` is left out of the names. The shift of 1 by the type of a node, undefined
--     from 31 on, counts modulo 32.
--   Memory: the memory that the serializers and the buffers run on, a byte for each address. `memcpy`
--     is `memmove` there; what is said of it is said of regions that do not overlap.
--   S11n: s11n.c, on a state of memory, byte order and error stack. A pointer is a number, null is
--     none. `fdu_s11n_` is left out of the names.
--   Can: can.c on top of S11n.
--   Timers: the times and the list of timers of dispatcher.c. A list in the order of the links, and
--     the number of free nodes. The clock is an argument: a reading or an errno.
--   Backend: dispatcher_api.h, with the contract of a backend: a registry of services.
--   Select: dispatcher_select.c. Handlers are names, `select` and the handlers are arguments, and a
--     handler may change the state.
--   Zmq: dispatcher_zmq.c. An entry is at an address, and the lists are those of the addresses. The
--     functions of ZeroMQ are arguments.
--   Dispatcher: the main loop of dispatcher.c on top of Timers. The n-th reading of the clock, the
--     callbacks and the poll of the backend are arguments. A turn of the loop is a function.
--   TaskQueue: task_queue.c on top of Timers. The handlers are an argument, too.
--   Bufio: the buffered I/O services of utils.c, on top of any backend that fills the contract, and of
--     Memory. `fdu_bufio_` is left out of the names; `read`, `write` and the callbacks are arguments.
--   Safe: `fdu_safe_read`, `fdu_safe_write` and `fdu_safe_close` of utils.c. The outcome of the n-th
--     system call is given, and the loops have fuel.
--   Connect: the pending connect of utils.c, on top of any backend that fills the contract.
--   Dns: the DNS queries of utils.c, on top of any backend. The list from `head` to `tail` is a list,
--     and the callbacks, the system calls and `fdu_dns_service_start` are arguments.
--   Listen: `fdu_listen_inet4` and `fdu_listen_unix` of utils.c. The outcomes of the system calls are
--     arguments, and the calls that are made are a list.
--   Http: http.c. The bytes from `*start` to `*end` are a list; the parser is a chain of steps that may
--     stop. Text has the functions on bytes, Header one header, Request the whole of a request, and
--     Response the head of an error response. The callbacks and the time are arguments.
--   Prelude: tests on numbers, lists, and the laws of `|` and `&` on bit fields.
-- A file's children hold its theorems, and the Tests the runs on concrete data. Zmq/Services, Zmq/Poll,
-- Bufio/Moving, Bufio/Create, Bufio/Transfer and Dispatcher/Rounds hold operations, and
-- ErrorStack/Codes the constants of error_stack.fwd.h.
--
-- Every operation takes the state and returns the new one. The outcomes of `malloc` and of the clock
-- are arguments. Builds without FD_DEBUG and FD_TRACE are modelled, for 64-bit longs.
--
-- Fuel. The walk of `fde_pop_context` visits each slot at most once, and has one round more than
-- there are slots. The carry of nanoseconds takes two rounds. The doubling of the block of handlers has
-- 32, enough to get from any size above any descriptor. The loops of `SELECT_poll` have one more than
-- FD_SETSIZE, as no descriptor of a set is higher; a loop that is cut off says so in its result.
--
-- The loop over the headers of a request has one round more than the buffer has bytes; each round goes
-- on behind a newline.
--
-- The merging of a recurring timer and the main loop have fuel, too: a clock that runs on as fast as
-- the merging adds intervals keeps it going, and the loop runs for as long as there are services. Both
-- say so where the fuel is spent.
--
-- Not modelled: the log file; of utils.c the start of the DNS helper, auto accept, signals, the
-- lazy connect, moving descriptors and the pid file, which are system calls for the most part;
-- the applications and the demos; what is printed; the wrap-around of the task ids after
-- 2 ^ 31 tasks. CAN frames have no reader of the text form. A round of `ZMQ_poll` that ends early leaves its removed entries for the next one.
pub mod Prelude
pub mod ErrorStack
pub mod Memory
pub mod S11n
pub mod Can
pub mod Timers
pub mod Backend
pub mod Select
pub mod Zmq
pub mod TaskQueue
pub mod Bufio
pub mod Safe
pub mod Connect
pub mod Dispatcher
pub mod Http
pub mod Dns
pub mod Listen
