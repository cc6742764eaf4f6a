-- ===== src/UnorderedMap.antt =====
-- `std::unordered_map` with numbers as keys, as the list of its entries in the order in which it is
-- traversed.
use socket_lib_linux.Prelude.{
  ℕ, ◌+◌, ◌<◌, ◌≡◌, ◌≢◌, length, refl, List, [], ◌∷◌, ◌++◌, Option, none, some, arith, ◌==◌,
  if◌then◌else◌,
}

module _ {V : Type 0} where
  -- `find`
  unfoldable pub find : ℕ → List (ℕ × V) → Option (V)
  find fd [] = none
  find fd ((k, c) ∷ cs) = if k == fd then some c else find fd cs

  -- `emplace`: an entry that is there stays.
  unfoldable pub emplace : ℕ → V → List (ℕ × V) → List (ℕ × V)
  emplace fd c [] = (fd, c) ∷ []
  emplace fd c ((k, d) ∷ cs) = if k == fd then (k, d) ∷ cs else (k, d) ∷ emplace fd c cs

  unfoldable pub erase : ℕ → List (ℕ × V) → List (ℕ × V)
  erase fd [] = []
  erase fd ((k, c) ∷ cs) = if k == fd then cs else (k, c) ∷ erase fd cs

  -- The value behind a key, changed in place.
  unfoldable pub adjust : ℕ → V → List (ℕ × V) → List (ℕ × V)
  adjust fd d [] = []
  adjust fd d ((k, c) ∷ cs) = if k == fd then (k, d) ∷ cs else (k, c) ∷ adjust fd d cs

  pub find-append_of_none :
      (k : ℕ) (xs ys : List (ℕ × V)) → find k xs ≡ none → find k (xs ++ ys) ≡ find k ys
  unfolding find
  find-append_of_none k [] ys h = refl
  find-append_of_none k ((j, c) ∷ xs) ys h = ground (arith, find-append_of_none k xs ys)

  pub find-append_none :
      (k : ℕ) (xs ys : List (ℕ × V))
      → find k (xs ++ ys) ≡ none
      → (find k xs ≡ none) × (find k ys ≡ none)
  unfolding find
  find-append_none k [] ys h = (refl, h)
  find-append_none k ((j, c) ∷ xs) ys h = ground (arith, find-append_none k xs ys)

  pub erase-append_of_none :
      (k : ℕ) (xs ys : List (ℕ × V)) → find k xs ≡ none → erase k (xs ++ ys) ≡ xs ++ erase k ys
  unfolding find erase
  erase-append_of_none k [] ys h = refl
  erase-append_of_none k ((j, c) ∷ xs) ys h = ground (arith, erase-append_of_none k xs ys)

  pub find-erase-none :
      (j fd : ℕ) (cs : List (ℕ × V)) → find j cs ≡ none → find j (erase fd cs) ≡ none
  unfolding find erase
  find-erase-none j fd [] h = refl
  find-erase-none j fd ((k, c) ∷ cs) h = ground (arith, find-erase-none j fd cs)

  pub find-emplace_ne :
      (j fd : ℕ) (d : V) (cs : List (ℕ × V))
      → j ≢ fd
      → find j cs ≡ none
      → find j (emplace fd d cs) ≡ none
  unfolding find emplace
  find-emplace_ne j fd d [] n h = ground arith
  find-emplace_ne j fd d ((k, c) ∷ cs) n h = ground (arith, find-emplace_ne j fd d cs n)

  pub find-adjust-none :
      (j fd : ℕ) (d : V) (cs : List (ℕ × V)) → find j cs ≡ none → find j (adjust fd d cs) ≡ none
  unfolding find adjust
  find-adjust-none j fd d [] h = refl
  find-adjust-none j fd d ((k, c) ∷ cs) h = ground (arith, find-adjust-none j fd d cs)

  pub find-emplace :
      (fd : ℕ) (d : V) (cs : List (ℕ × V))
      → find fd cs ≡ none
      → (find fd (emplace fd d cs) ≡ some d) × (erase fd (emplace fd d cs) ≡ cs)
  unfolding find emplace erase
  find-emplace fd d [] h = ground arith
  find-emplace fd d ((k, c) ∷ cs) h = ground (arith, find-emplace fd d cs)

  pub find-adjust :
      (fd : ℕ) (c d : V) (cs : List (ℕ × V))
      → find fd cs ≡ some c
      → find fd (adjust fd d cs) ≡ some d
  unfolding find adjust
  find-adjust fd c d [] h = absurd (cc)
  find-adjust fd c d ((k, e) ∷ cs) h = ground (arith, find-adjust fd c d cs)

  pub find-adjust_ne :
      (j k : ℕ) (d : V) (cs : List (ℕ × V)) → j ≢ k → find j (adjust k d cs) ≡ find j cs
  unfolding find adjust
  find-adjust_ne j k d [] n = refl
  find-adjust_ne j k d ((i, e) ∷ cs) n = ground (arith, find-adjust_ne j k d cs n)

  pub length-adjust : (k : ℕ) (d : V) (cs : List (ℕ × V)) → length (adjust k d cs) ≡ length cs
  unfolding adjust
  length-adjust k d [] = refl
  length-adjust k d ((i, e) ∷ cs) = ground (arith, length-adjust k d cs)

  -- Each key stands once.
  abbrev pub HasKeys : List (ℕ × V) → Type 0
  HasKeys [] = Unit {0}
  HasKeys ((k, e) ∷ es) = (find k es ≡ none) × HasKeys es

  pub find-erase_self : (k : ℕ) (es : List (ℕ × V)) → HasKeys es → find k (erase k es) ≡ none
  unfolding find erase
  find-erase_self k [] h = refl
  find-erase_self k ((j, e) ∷ es) h = ground (arith, find-erase_self k es h.1)

  pub find-erase_ne : (j k : ℕ) (es : List (ℕ × V)) → j ≢ k → find j (erase k es) ≡ find j es
  unfolding find erase
  find-erase_ne j k [] n = refl
  find-erase_ne j k ((i, e) ∷ es) n = ground (arith, find-erase_ne j k es n)

  -- Every key is below `n`.
  abbrev pub Below : ℕ → List (ℕ × V) → Type 0
  Below n [] = Unit {0}
  Below n ((k, e) ∷ es) = (k < n) × Below n es

  pub Below-find : (n : ℕ) (es : List (ℕ × V)) → Below n es → find n es ≡ none
  unfolding find
  Below-find n [] h = refl
  Below-find n ((k, e) ∷ es) h = ground (arith, Below-find n es h.1)

  pub Below-emplace :
      (n : ℕ) (d : V) (es : List (ℕ × V)) → Below n es → Below (n + 1) (emplace n d es)
  unfolding emplace
  Below-emplace n d [] h = (omega arith, tt)
  Below-emplace n d ((k, e) ∷ es) h = ground (arith, Below-emplace n d es h.1)

  pub find-emplace_cases :
      (j k : ℕ) (d : V) (es : List (ℕ × V))
      → find k es ≡ none
      → find j (emplace k d es) ≡ (if k == j then some d else find j es)
  unfolding find emplace
  find-emplace_cases j k d [] h = ground arith
  find-emplace_cases j k d ((i, e) ∷ es) h = ground (arith, find-emplace_cases j k d es)

  pub find-emplace-some :
      (j k : ℕ) (d c : V) (es : List (ℕ × V))
      → find j es ≡ some c
      → find j (emplace k d es) ≡ some c
  unfolding find emplace
  find-emplace-some j k d c [] h = absurd (cc)
  find-emplace-some j k d c ((i, e) ∷ es) h = ground (arith, find-emplace-some j k d c es)

  pub length-emplace :
      (k : ℕ) (d : V) (es : List (ℕ × V))
      → find k es ≡ none
      → length (emplace k d es) ≡ length es + 1
  unfolding find emplace
  length-emplace k d [] h = omega arith
  length-emplace k d ((i, e) ∷ es) h = ground (arith, length-emplace k d es)

  pub emplace-taken :
      (k : ℕ) (d e : V) (es : List (ℕ × V)) → find k es ≡ some e → emplace k d es ≡ es
  unfolding find emplace
  emplace-taken k d e [] h = absurd (cc)
  emplace-taken k d e ((i, f) ∷ es) h = ground (arith, emplace-taken k d e es)
