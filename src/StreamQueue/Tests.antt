-- ===== src/StreamQueue/Tests.antt =====
-- Tests and concrete instances for shared/StreamQueue.hpp.
use socket_lib_linux.Prelude.{◌≡◌, refl, inl, List, [], ◌∷◌, ◌++◌, some, ◌>>=◌, arith, replicate}
use socket_lib_linux.Message.{of_bytes}
use socket_lib_linux.StreamQueue.{
  dequeue, dequeue_as_vec, dequeue_as_message, peek, enqueue, enqueue_message,
}
use socket_lib_linux.StreamQueue.Vector.{Ran, dequeue_as_vec-Ran, dequeue_as_vec-dequeue}
use socket_lib_linux.StreamQueue.Stream.{Op, feed, fetch, run, run-fed, enqueue_overtakes}

message_out :
    dequeue_as_message 2 (4 ∷ 5 ∷ 6 ∷ [])
    ≡ some (record { len = 2; buf = some (4 ∷ 5 ∷ []) }, 6 ∷ [])
unfolding dequeue_as_message of_bytes
message_out = refl

peek_two : peek 2 (4 ∷ 5 ∷ 6 ∷ []) ≡ 4 ∷ 5 ∷ []
unfolding peek
peek_two = refl

-- 300 bytes, of which 260 are asked for: the queue is emptied, and the byte at the front of the vector
-- is the 257th. Its last four bytes were never written.
wraps :
    dequeue_as_vec 260 (replicate 256 1 ++ 2 ∷ replicate 43 1)
    ≡ some ((2 ∷ replicate 255 1) ++ replicate 4 0, [])
unfolding dequeue_as_vec
wraps = refl

abbrev ops : List Op
ops = feed (1 ∷ 2 ∷ []) ∷ fetch 1 ∷ feed (3 ∷ []) ∷ fetch 5 ∷ []

run-fed_test : (run ops (9 ∷ [])).0 ++ (run ops (9 ∷ [])).1 ≡ 9 ∷ 1 ∷ 2 ∷ 3 ∷ []
run-fed_test = run-fed ops (9 ∷ [])

dequeue_as_vec-dequeue_test : dequeue_as_vec 2 (4 ∷ 5 ∷ 6 ∷ []) ≡ some (dequeue 2 (4 ∷ 5 ∷ 6 ∷ []))
dequeue_as_vec-dequeue_test = dequeue_as_vec-dequeue 2 (4 ∷ 5 ∷ 6 ∷ []) (inl (omega arith))

dequeue_as_vec-Ran_example : Ran 260 3 (dequeue_as_vec 260 (4 ∷ 5 ∷ 6 ∷ []))
dequeue_as_vec-Ran_example = dequeue_as_vec-Ran 260 (4 ∷ 5 ∷ 6 ∷ [])

enqueue_overtakes_test :
    (dequeue 2 (enqueue (3 ∷ []) (1 ∷ 2 ∷ [])) ≡ (1 ∷ 2 ∷ [], 3 ∷ []))
    × ((enqueue_message (of_bytes (3 ∷ [])) (1 ∷ 2 ∷ []) >>= λ q. some (dequeue 1 q))
        ≡ some (3 ∷ [], 1 ∷ 2 ∷ []))
enqueue_overtakes_test = enqueue_overtakes (3 ∷ []) (1 ∷ 2 ∷ [])
