-- ===== src/Message/Heap/Tests.antt =====
-- A small program of messages.
use socket_lib_linux.Prelude.{◌≡◌, refl, List, [], ◌∷◌, none, some, arith}
use socket_lib_linux.Message.{Message, copy, of_bytes}
use socket_lib_linux.Message.Heap.{Memory, put, construct, destroy}
use socket_lib_linux.Message.Heap.Owned.{IsOwned}
use socket_lib_linux.Message.Heap.View.{Values, view}
use socket_lib_linux.Message.Heap.Runs.{
  Op, new_message, new_copy, copy_to, move_to, end_message, exec, run, replay, value, run_refines,
}

abbrev no_messages : Memory
no_messages = record { objects = λ i. none; blocks = λ p. none; next = 1 }

no_messages-IsOwned : IsOwned no_messages
no_messages-IsOwned = record {
  positive = omega arith;
  null = refl;
  fresh = λ p h. refl;
  owns = λ i o e. cc;
  apart = λ i j a o e f g. cc;
  no_leak = λ p b e. absurd (cc);
}

-- A message, a copy of it, an empty one that takes the buffer of the first, and the end of the copy.
abbrev program : List Op
program =
    new_message 1 (7 ∷ 8 ∷ [])
    ∷ new_copy 2 1
    ∷ new_message 3 []
    ∷ move_to 3 1
    ∷ copy_to 1 2
    ∷ end_message 2
    ∷ []

abbrev two : Message
two = record { len = 2; buf = some (7 ∷ 8 ∷ []) }

abbrev final : Values
final =
    put
      (put
        (put
          (put
            (put (put (put (λ i. none) 1 (some two)) 2 (some two)) 3
              (some (record { len = 0; buf = none })))
            3 (some two))
          1 (some (record { len = 2; buf = none })))
        1 (some two))
      2 none

run_refines_example :
    (t : Memory) × (run program no_messages ≡ some t) × IsOwned t × (view t ≡ final)
run_refines_example =
    run_refines program no_messages final no_messages-IsOwned
      (unfold replay value copy of_bytes in refl)

-- A message that ends twice is a mistake of the caller.
twice_test : run (new_message 1 (7 ∷ []) ∷ end_message 1 ∷ end_message 1 ∷ []) no_messages ≡ none
unfolding run exec construct destroy
twice_test = refl
