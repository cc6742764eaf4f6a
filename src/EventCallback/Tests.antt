-- ===== src/EventCallback/Tests.antt =====
-- Callbacks on a log of numbers.
use socket_lib_linux.Prelude.{ℕ, ◌≡◌, refl, Bool, true, List, [], ◌∷◌, ◌++◌, arith}
use socket_lib_linux.EventCallback.{
  Result, value, raised, ended, Callback, of_function, of_member, emplace, erase, emplace_unordered,
  remove_member, invoke, invoke_error,
}
use socket_lib_linux.EventCallback.Container.{
  IsSorted, container-IsSorted, emplace-taken, erase-emplace,
}
use socket_lib_linux.EventCallback.Invoke.{invoke_error-ends}

-- A callback that writes a number down, and one that does so and throws.
abbrev writes : ℕ → List ℕ → Result (List ℕ)
writes n s = value (s ++ n ∷ [])

abbrev throws : List ℕ → Result (List ℕ)
throws s = raised (s ++ 0 ∷ [])

abbrev one : Callback (List ℕ)
one = of_function 10 (writes 1)

abbrev two : Callback (List ℕ)
two = of_function 20 (writes 2)

abbrev thrower : Callback (List ℕ)
thrower = of_function 30 throws

abbrev pair : List (Callback (List ℕ))
pair = one ∷ two ∷ []

-- One member function of two objects.
abbrev of_object : ℕ → Callback (List ℕ)
of_object object = of_member 40 object (writes object)

order_test : emplace one (emplace two []) ≡ pair
unfolding emplace
order_test = refl

both_objects_test :
    emplace_unordered (of_object 6) (of_object 5 ∷ []) ≡ of_object 5 ∷ of_object 6 ∷ []
unfolding emplace_unordered
both_objects_test = refl

invoke_test : invoke pair [] ≡ value (1 ∷ 2 ∷ [])
unfolding invoke
invoke_test = refl

container-IsSorted_test :
    IsSorted (emplace thrower pair)
    × IsSorted (erase thrower pair)
    × IsSorted (remove_member 10 pair)
container-IsSorted_test = container-IsSorted thrower 10 pair ((omega arith, tt), (tt, tt))

-- The set that holds the member function of object 5 does not take that of object 6.
emplace-taken_test : emplace (of_object 6) (of_object 5 ∷ []) ≡ of_object 5 ∷ []
emplace-taken_test = emplace-taken (of_object 6) (of_object 5 ∷ []) (tt, tt) refl

erase-emplace_test :
    (◌≡◌ {A = Bool} true true) × (erase two (emplace two (one ∷ thrower ∷ [])) ≡ one ∷ thrower ∷ [])
unfolding emplace
erase-emplace_test = erase-emplace two (one ∷ thrower ∷ []) ((omega arith, tt), (tt, tt)) refl

invoke_error-ends_example :
    invoke_error (λ s. s ++ 99 ∷ []) (one ∷ thrower ∷ two ∷ []) [] ≡ ended (1 ∷ 0 ∷ [])
invoke_error-ends_example =
    invoke_error-ends (λ s. s ++ 99 ∷ []) (one ∷ []) (two ∷ []) thrower [] (1 ∷ []) (1 ∷ 0 ∷ [])
      invoke_one refl
  where
    invoke_one : invoke (one ∷ []) [] ≡ value (1 ∷ [])
    invoke_one = unfold invoke in refl
