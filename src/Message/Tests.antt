-- ===== src/Message/Tests.antt =====
-- Tests and concrete instances for shared/Message.hpp.
use socket_lib_linux.Prelude.{◌≡◌, refl, [], ◌∷◌, none, some, arith, ◌==◌, if◌then◌else◌}
use socket_lib_linux.Message.{
  Message, empty, init, init_len, of_bytes, copy, Store, assign, move, move_construct, to_span,
}
use socket_lib_linux.Message.Laws.{assign_lem, move_lem, to_span-moved_from, to_span-of_bytes}

abbrev hi : Message
hi = record { len = 2; buf = some (104 ∷ 105 ∷ []) }

-- `hi` at address 0, empty messages elsewhere.
abbrev objects : Store
objects i = if i == 0 then hi else empty

init_cuts : init (some (1 ∷ 2 ∷ 3 ∷ [])) 2 ≡ record { len = 2; buf = some (1 ∷ 2 ∷ []) }
unfolding init
init_cuts = refl

init_len_fresh : init_len (λ n. 7 ∷ 7 ∷ []) 2 ≡ record { len = 2; buf = some (7 ∷ 7 ∷ []) }
unfolding init_len
init_len_fresh = refl

moved_in : move_construct 5 0 objects 5 ≡ hi
unfolding move_construct
moved_in = refl

to_span-of_bytes_test : to_span (of_bytes (1 ∷ 2 ∷ [])) ≡ some (1 ∷ 2 ∷ [])
to_span-of_bytes_test = to_span-of_bytes (1 ∷ 2 ∷ [])

assign_lem_test :
    (assign 1 0 objects 1 ≡ hi) × (assign 1 0 objects 0 ≡ hi) × (assign 1 0 objects 2 ≡ empty)
assign_lem_test = assign_lem 1 0 2 objects (omega arith) (omega arith)

move_lem_test :
    (move 1 0 objects 1 ≡ hi)
    × (move 1 0 objects 0 ≡ record { len = 2; buf = none })
    × (move 1 0 objects 2 ≡ empty)
move_lem_test = move_lem 1 0 2 objects (omega arith) (omega arith) (omega arith)

to_span-moved_from_test :
    (to_span (move 1 0 objects 0) ≡ none) × (copy (move 1 0 objects 0) ≡ empty)
to_span-moved_from_test = to_span-moved_from 1 0 objects (omega arith) (omega arith)
