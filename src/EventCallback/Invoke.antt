-- ===== src/EventCallback/Invoke.antt =====
-- Invocation of the callbacks (shared/utils/EventCallback.hpp).
use socket_lib_linux.Prelude.{◌≡◌, refl, ◌∙◌, List, [], ◌∷◌, ◌++◌, arith}
use socket_lib_linux.EventCallback.{
  Result, value, raised, ended, Callback, call, no_except, and_then, catch, invoke, invoke_error,
}

module _ {S : Type 0} where
  catch-no_except :
      (handler : S → S) (r : Result S) (k k' : S → Result S)
      → ((s : S) → k s ≡ k' s)
      → and_then (catch handler (no_except r)) k ≡ and_then (no_except r) k'
  catch-no_except handler (value s) k k' e = e s
  catch-no_except handler (raised s) k k' e = refl
  catch-no_except handler (ended s) k k' e = refl

  -- The exception handler of `invokeError` is never called: whatever it is, `invokeError` does what
  -- `invoke` does.
  pub invoke_error-invoke :
      (handler : S → S) (cs : List (Callback S)) (s : S) → invoke_error handler cs s ≡ invoke cs s
  unfolding invoke_error invoke
  invoke_error-invoke handler [] s = refl
  invoke_error-invoke handler (c ∷ cs) s =
      catch-no_except handler (c.held s) (invoke_error handler cs) (invoke cs)
        (invoke_error-invoke handler cs)

  and_then-eq-value :
      (r : Result S) (k : S → Result S) (t : S)
      → and_then r k ≡ value t
      → (u : S) × (r ≡ value u) × (k u ≡ value t)
  and_then-eq-value (value u) k t h = (u, refl, h)
  and_then-eq-value (raised u) k t h = absurd (cc)
  and_then-eq-value (ended u) k t h = absurd (cc)

  -- Callbacks that return run in order, each once, on what the one before left.
  pub invoke-append :
      (before after : List (Callback S)) (s t : S)
      → invoke before s ≡ value t
      → invoke (before ++ after) s ≡ invoke after t
  unfolding invoke
  invoke-append [] after s t h = ground arith
  invoke-append (c ∷ before) after s t h =
      let (u, returns, rest) = and_then-eq-value (call c s) (invoke before) t h in
      rw returns (invoke-append before after u t rest)

  -- The first callback that throws, behind callbacks that return, ends the program with the state
  -- that it left; those before it ran in order, and those behind it do not run, also under
  -- `invokeError`.
  pub invoke_error-ends :
      (handler : S → S) (before after : List (Callback S)) (c : Callback S) (s t u : S)
      → invoke before s ≡ value t
      → c.held t ≡ raised u
      → invoke_error handler (before ++ c ∷ after) s ≡ ended u
  unfolding invoke
  invoke_error-ends handler before after c s t u h throws =
      invoke_error-invoke handler (before ++ c ∷ after) s
      ∙ invoke-append before (c ∷ after) s t h
      ∙ rw throws refl
