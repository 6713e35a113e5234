-- ===== src/ErrorStack/Codes.antt =====
-- error_stack.fwd.h: the bits of node types, the contexts, and the ids of failures.
use Prim.Native.Nat.{ℕ}

abbrev pub context_b : ℕ
context_b = 1

abbrev pub consistency_failure_b : ℕ
consistency_failure_b = 4

abbrev pub resource_failure_b : ℕ
resource_failure_b = 16

abbrev pub http_error_b : ℕ
http_error_b = 128

-- The contexts of error_stack.fwd.h that the modelled components push.
abbrev pub fdd_context_main : ℕ
fdd_context_main = 1

abbrev pub fdd_context_select : ℕ
fdd_context_select = 2

abbrev pub fdd_context_zmq : ℕ
fdd_context_zmq = 3

abbrev pub fdu_context_bufio : ℕ
fdu_context_bufio = 5

abbrev pub fdu_context_can : ℕ
fdu_context_can = 6

abbrev pub fdu_context_connect : ℕ
fdu_context_connect = 7

abbrev pub fdu_context_dnsserv : ℕ
fdu_context_dnsserv = 8

abbrev pub fdu_context_http : ℕ
fdu_context_http = 9

abbrev pub fdu_context_listen : ℕ
fdu_context_listen = 10

abbrev pub fdu_context_s11n : ℕ
fdu_context_s11n = 12

abbrev pub fdu_context_safe : ℕ
fdu_context_safe = 13

abbrev pub fdu_context_task_queue : ℕ
fdu_context_task_queue = 15

-- The ids of consistency and resource failures.
abbrev pub invalid_arguments : ℕ
invalid_arguments = 1

abbrev pub io_handler_corrupted : ℕ
io_handler_corrupted = 2

abbrev pub kill_recurring_timer : ℕ
kill_recurring_timer = 3

abbrev pub task_queue_corrupted : ℕ
task_queue_corrupted = 4

abbrev pub memory_allocation : ℕ
memory_allocation = 1

abbrev pub buffer_overflow : ℕ
buffer_overflow = 2

abbrev pub buffer_underflow : ℕ
buffer_underflow = 3
