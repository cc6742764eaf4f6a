-- ===== src/EventCallback/Registry.antt =====
-- The operations of `BasicEventCallback` and `ThreadSafeEventCallback` over the ordered set
-- (shared/utils/EventCallback.hpp), against the set of pointers that a caller has in mind.
use socket_lib_linux.Prelude.{
  ℕ, ◌≡◌, refl, ◌∙◌, ap, Bool, false, ◌||◌, List, [], ◌∷◌, arith, ◌==◌, if◌then◌else◌,
}
use socket_lib_linux.EventCallback.{
  Callback, emplace, erase, Change, add, remove, remove_function, clear, change,
}
use socket_lib_linux.EventCallback.Container.{
  IsSorted, Above-mono, has_ptr, has_ptr-Above, has_ptr-remove_member, container-IsSorted,
}

module _ {S : Type 0} where
  has_ptr-emplace :
      (c : Callback S) (q : ℕ) (cs : List (Callback S))
      → has_ptr q (emplace c cs) ≡ (c.ptr == q || has_ptr q cs)
  unfolding emplace
  has_ptr-emplace c q [] = refl
  has_ptr-emplace c q (d ∷ ds) = ground (arith, has_ptr-emplace c q ds)

  has_ptr-erase :
      (c : Callback S) (q : ℕ) (cs : List (Callback S))
      → IsSorted cs
      → has_ptr q (erase c cs) ≡ (if c.ptr == q then false else has_ptr q cs)
  unfolding erase
  has_ptr-erase c q [] s = ground arith
  has_ptr-erase c q (d ∷ ds) s =
      ground (arith, has_ptr-erase c q ds s.1, has_ptr-Above q ds, Above-mono q d.ptr ds)

  -- The set of pointers after a change
  abbrev pub noted : Change S → (ℕ → Bool) → ℕ → Bool
  noted (add c) has q = c.ptr == q || has q
  noted (remove c) has q = if c.ptr == q then false else has q
  noted (remove_function p) has q = if p == q then false else has q
  noted clear has q = false

  abbrev pub changes : List (Change S) → List (Callback S) → List (Callback S)
  changes [] cs = cs
  changes (x ∷ xs) cs = changes xs (change x cs)

  abbrev pub all_noted : List (Change S) → (ℕ → Bool) → ℕ → Bool
  all_noted [] has q = has q
  all_noted (x ∷ xs) has q = all_noted xs (noted x has) q

  change-IsSorted : (x : Change S) (cs : List (Callback S)) → IsSorted cs → IsSorted (change x cs)
  unfolding change
  change-IsSorted (add c) cs s = (container-IsSorted c 0 cs s).0
  change-IsSorted (remove c) cs s = (container-IsSorted c 0 cs s).1
  change-IsSorted (remove_function p) [] s = tt
  change-IsSorted (remove_function p) (c ∷ cs) s = (container-IsSorted c p (c ∷ cs) s).2
  change-IsSorted clear cs s = tt

  change-noted :
      (x : Change S) (cs : List (Callback S)) (q : ℕ)
      → IsSorted cs
      → has_ptr q (change x cs) ≡ noted x (λ p. has_ptr p cs) q
  unfolding change
  change-noted (add c) cs q s = has_ptr-emplace c q cs
  change-noted (remove c) cs q s = has_ptr-erase c q cs s
  change-noted (remove_function p) cs q s = has_ptr-remove_member p q cs
  change-noted clear cs q s = refl

  -- Any sequence of additions, removals, removals of a member function and `clear` on an ordered set
  -- does to the pointers in it what the same sequence does to a plain set of pointers: which function
  -- objects and instances came with the pointers does not matter. The set stays ordered, with each
  -- pointer once.
  pub changes_refines :
      (xs : List (Change S)) (cs : List (Callback S)) (q : ℕ)
      → IsSorted cs
      → (has_ptr q (changes xs cs) ≡ all_noted xs (λ p. has_ptr p cs) q) × IsSorted (changes xs cs)
  changes_refines [] cs q s = (refl, s)
  changes_refines (x ∷ xs) cs q s =
      let rest = changes_refines xs (change x cs) q (change-IsSorted x cs s) in
      let same : ◌≡◌ {A = ℕ → Bool} (λ p. has_ptr p (change x cs)) (noted x (λ p. has_ptr p cs)) =
        λ i p. change-noted x cs p s i in
      (rest.0 ∙ ap (λ has. all_noted xs has q) same, rest.1)
