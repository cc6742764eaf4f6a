-- ===== src/StreamQueue/History/Tests.antt =====
-- A sequence of operations on a queue of bytes (shared/StreamQueue.hpp).
use socket_lib_linux.Prelude.{◌≡◌, refl, List, [], ◌∷◌, some, arith}
use socket_lib_linux.Message.{Message, to_span}
use socket_lib_linux.StreamQueue.{dequeue, peek, queue_size, enqueue, enqueue_message}
use socket_lib_linux.StreamQueue.History.{
  Op, Same, spec, feed, feed_message, fetch, look, count, Out, nothing, bytes, number, exec,
  History, runs, runs_refines,
}

-- A message of one byte comes before what waits.
abbrev urgent : Message
urgent = record { len = 1; buf = some (9 ∷ []) }

abbrev ops : List Op
ops = feed (2 ∷ 3 ∷ []) ∷ look 9 ∷ fetch 2 ∷ count ∷ feed_message urgent ∷ fetch 5 ∷ []

-- One byte was taken before, and one is there.
abbrev start : History
start = record { all = 7 ∷ 1 ∷ []; taken = 1 }

abbrev answers : List Out
answers =
    nothing
    ∷ bytes (1 ∷ 2 ∷ 3 ∷ [])
    ∷ bytes (1 ∷ 2 ∷ [])
    ∷ number 1
    ∷ nothing
    ∷ bytes (9 ∷ 3 ∷ [])
    ∷ []

ops_run : runs exec ops (1 ∷ []) ≡ some (answers, [])
unfolding dequeue peek queue_size enqueue enqueue_message to_span
ops_run = refl

runs_refines_example : Same (runs exec ops (1 ∷ [])) (runs spec ops start)
runs_refines_example = runs_refines ops start (omega arith)
