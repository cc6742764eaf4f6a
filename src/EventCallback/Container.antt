-- ===== src/EventCallback/Container.antt =====
-- What the set of callbacks holds after an insertion or a removal
-- (shared/utils/EventCallback.hpp).
use socket_lib_linux.Prelude.{
  ℕ, ◌<◌, ◌≡◌, refl, Bool, true, false, ◌||◌, List, [], ◌∷◌, arith, ◌==◌, if◌then◌else◌,
}
use socket_lib_linux.EventCallback.{Callback, emplace, erase, remove_member}

module _ {S : Type 0} where
  -- Every callback has a pointer above `n`.
  abbrev pub Above : ℕ → List (Callback S) → Type 0
  Above n [] = Unit {0}
  Above n (c ∷ cs) = (n < c.ptr) × Above n cs

  -- The pointers rise strictly, as `std::set` keeps them.
  abbrev pub IsSorted : List (Callback S) → Type 0
  IsSorted [] = Unit {0}
  IsSorted (c ∷ cs) = Above c.ptr cs × IsSorted cs

  abbrev pub has_ptr : ℕ → List (Callback S) → Bool
  has_ptr p [] = false
  has_ptr p (c ∷ cs) = c.ptr == p || has_ptr p cs

  pub Above-mono : (m n : ℕ) (cs : List (Callback S)) → m < n → Above n cs → Above m cs
  Above-mono m n [] h a = tt
  Above-mono m n (c ∷ cs) h a = (omega arith, Above-mono m n cs h a.1)

  emplace-Above :
      (n : ℕ) (c : Callback S) (cs : List (Callback S))
      → n < c.ptr
      → Above n cs
      → Above n (emplace c cs)
  unfolding emplace
  emplace-Above n c [] h a = (h, tt)
  emplace-Above n c (d ∷ ds) h a = ground (arith, emplace-Above n c ds h a.1)

  erase-Above :
      (n : ℕ) (c : Callback S) (cs : List (Callback S)) → Above n cs → Above n (erase c cs)
  unfolding erase
  erase-Above n c [] a = tt
  erase-Above n c (d ∷ ds) a = ground (arith, erase-Above n c ds a.1)

  remove_member-Above :
      (n p : ℕ) (cs : List (Callback S)) → Above n cs → Above n (remove_member p cs)
  unfolding remove_member
  remove_member-Above n p [] a = tt
  remove_member-Above n p (d ∷ ds) a = ground (arith, remove_member-Above n p ds a.1)

  emplace-IsSorted :
      (c : Callback S) (cs : List (Callback S)) → IsSorted cs → IsSorted (emplace c cs)
  unfolding emplace
  emplace-IsSorted c [] s = (tt, tt)
  emplace-IsSorted c (d ∷ ds) s =
      ground (arith, emplace-IsSorted c ds s.1, emplace-Above d.ptr c ds, Above-mono c.ptr d.ptr ds)

  erase-IsSorted : (c : Callback S) (cs : List (Callback S)) → IsSorted cs → IsSorted (erase c cs)
  unfolding erase
  erase-IsSorted c [] s = tt
  erase-IsSorted c (d ∷ ds) s = ground (arith, erase-IsSorted c ds s.1, erase-Above d.ptr c ds s.0)

  remove_member-IsSorted :
      (p : ℕ) (cs : List (Callback S)) → IsSorted cs → IsSorted (remove_member p cs)
  unfolding remove_member
  remove_member-IsSorted p [] s = tt
  remove_member-IsSorted p (d ∷ ds) s =
      ground (arith, remove_member-IsSorted p ds s.1, remove_member-Above d.ptr p ds s.0)

  -- The ordered set stays ordered by pointer, with each pointer once, when a callback is added, when
  -- one is removed, and when a member function is removed.
  pub container-IsSorted :
      (c : Callback S) (p : ℕ) (cs : List (Callback S))
      → IsSorted cs
      → IsSorted (emplace c cs) × IsSorted (erase c cs) × IsSorted (remove_member p cs)
  container-IsSorted c p cs s =
      (emplace-IsSorted c cs s, erase-IsSorted c cs s, remove_member-IsSorted p cs s)

  pub has_ptr-Above : (n : ℕ) (cs : List (Callback S)) → Above n cs → has_ptr n cs ≡ false
  has_ptr-Above n [] a = refl
  has_ptr-Above n (c ∷ cs) a = ground (arith, has_ptr-Above n cs a.1)

  -- A callback whose pointer is in the ordered set is not added, whatever its instance and function.
  pub emplace-taken :
      (c : Callback S) (cs : List (Callback S))
      → IsSorted cs
      → has_ptr c.ptr cs ≡ true
      → emplace c cs ≡ cs
  unfolding emplace
  emplace-taken c [] s e = absurd (cc)
  emplace-taken c (d ∷ ds) s e =
      ground (arith, has_ptr-Above c.ptr ds, Above-mono c.ptr d.ptr ds, emplace-taken c ds s.1)

  -- A callback whose pointer is not in the ordered set is in it after `emplace`, and `erase` then
  -- restores the set.
  pub erase-emplace :
      (c : Callback S) (cs : List (Callback S))
      → IsSorted cs
      → has_ptr c.ptr cs ≡ false
      → (has_ptr c.ptr (emplace c cs) ≡ true) × (erase c (emplace c cs) ≡ cs)
  unfolding emplace erase
  erase-emplace c [] s e = ground arith
  erase-emplace c (d ∷ ds) s e = ground (arith, erase-emplace c ds s.1)

  -- Removing a member function takes out the callbacks with its pointer, of every instance, and no
  -- others.
  pub has_ptr-remove_member :
      (p q : ℕ) (cs : List (Callback S))
      → has_ptr q (remove_member p cs) ≡ (if p == q then false else has_ptr q cs)
  unfolding remove_member
  has_ptr-remove_member p q [] = ground arith
  has_ptr-remove_member p q (c ∷ cs) = ground (arith, has_ptr-remove_member p q cs)
