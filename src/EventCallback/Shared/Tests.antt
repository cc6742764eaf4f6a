-- ===== src/EventCallback/Shared/Tests.antt =====
-- Concrete runs of `invoke` beside changes of the set (shared/utils/EventCallback.hpp).
use socket_lib_linux.Prelude.{arith, ℕ, ◌≡◌, refl, true, [], ◌∷◌, none}
use socket_lib_linux.EventCallback.{Callback, add, remove_function, change, value, remove_member}
use socket_lib_linux.EventCallback.Container.{IsSorted, has_ptr}
use socket_lib_linux.EventCallback.Registry.{changes, changes_refines}
use socket_lib_linux.EventCallback.Shared.{
  Invocation, Event, Reach, here, later, begin, call, finish, update, AllWhole, Reach-AllWhole,
}

abbrev at_ptr : ℕ → Callback ℕ
at_ptr p = record { inst = 0; ptr = p; held = value }

abbrev quiet : Event ℕ
quiet = record { callbacks = at_ptr 1 ∷ at_ptr 2 ∷ []; running = λ i. none; over = [] }

abbrev both : Invocation ℕ
both = record { position = 2; found = at_ptr 1 ∷ at_ptr 2 ∷ []; called = at_ptr 1 ∷ at_ptr 2 ∷ [] }

-- A thread invokes, a second one begins as well and finds the same set, and a change comes when both
-- are over.
abbrev Ran : Type 0
Ran = (t : Event ℕ) × Reach quiet t × (t.over ≡ both ∷ both ∷ []) × (t.callbacks ≡ at_ptr 2 ∷ [])

two_invocations : Ran
unfolding change remove_member
two_invocations = (
  _,
  later
      (later
        (later
          (later
            (later
              (later
                (later (later (later here (begin 1 refl)) (begin 2 refl))
                  (call 1 _ (at_ptr 1) refl refl))
                (call 2 _ (at_ptr 1) refl refl))
              (call 2 _ (at_ptr 2) refl refl))
            (call 1 _ (at_ptr 2) refl refl))
          (finish 1 _ refl refl))
        (finish 2 _ refl refl))
      (update (remove_function 1) (λ i. ground arith)),
  refl,
  refl,
)

Reach-AllWhole_example : AllWhole two_invocations.0.over
Reach-AllWhole_example = Reach-AllWhole quiet two_invocations.0 (λ i. refl) refl two_invocations.1

changes_refines_example :
    (has_ptr 2 (changes (add (at_ptr 2) ∷ remove_function 1 ∷ []) (at_ptr 1 ∷ [])) ≡ true)
    × IsSorted (changes (add (at_ptr 2) ∷ remove_function 1 ∷ []) (at_ptr 1 ∷ []))
changes_refines_example =
    changes_refines (add (at_ptr 2) ∷ remove_function 1 ∷ []) (at_ptr 1 ∷ []) 2 (tt, tt)
