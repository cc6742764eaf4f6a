-- ===== src/EventCallback/Shared.antt =====
-- `ThreadSafeEventCallback` under any number of threads (shared/utils/EventCallback.hpp): those that
-- invoke hold its mutex shared, those that change the set hold it alone.
mod Tests
use socket_lib_linux.Prelude.{
  ℕ, zero, suc, ◌+◌, ◌≡◌, ◌≢◌, refl, ◌∙◌, sym, ap, subst, Bool, true, false, inl, inr, List, [],
  ◌∷◌, ◌++◌, Option, none, some, arith, length, take, at_thread, at_thread_elim, Bool-cases,
  Option-cases,
}
use socket_lib_linux.EventCallback.{Callback, Change, change}

module _ {S : Type 0} where
  abbrev pub nth : ℕ → List (Callback S) → Option (Callback S)
  nth n [] = none
  nth zero (c ∷ cs) = some c
  nth (suc n) (c ∷ cs) = nth n cs

-- One call of `invoke` or `invokeError` that holds the lock: where its iterator stands. Two members
-- record what happened: the set when it took the lock, and the callbacks that it called, in order.
pub record Invocation (S : Type 0) : Type 0 where
  pub position : ℕ
  pub found : List (Callback S)
  pub called : List (Callback S)

-- `callbacks`, the calls under way by thread, and a record of those that are over.
pub record Event (S : Type 0) : Type 0 where
  pub callbacks : List (Callback S)
  pub running : ℕ → Option (Invocation S)
  pub over : List (Invocation S)

module _ {S : Type 0} where
  -- One step of one thread. The callbacks return, and do not use the event themselves: one that changed
  -- the set would wait for its own thread. `invoke` has read `empty()` before it takes the lock, so
  -- that the set may have become empty since. The standard library's mutex lets a change in when no one
  -- holds it shared.
  pub data Step (s : Event S) : Event S → Type 0 where
    begin :
        (i : ℕ)
        → s.running i ≡ none
        → Step s (record s {
          running =
              at_thread i
                (some (record { position = 0; found = s.callbacks; called = [] }))
                s.running;
        })
    call :
        (i : ℕ) (v : Invocation S) (c : Callback S)
        → s.running i ≡ some v
        → nth v.position s.callbacks ≡ some c
        → Step s (record s {
          running =
              at_thread i
                (some (record v { position = suc v.position; called = v.called ++ c ∷ [] }))
                s.running;
        })
    finish :
        (i : ℕ) (v : Invocation S)
        → s.running i ≡ some v
        → nth v.position s.callbacks ≡ none
        → Step s (record s { running = at_thread i none s.running; over = s.over ++ v ∷ [] })
    update :
        (x : Change S)
        → ((i : ℕ) → s.running i ≡ none)
        → Step s (record s { callbacks = change x s.callbacks })

  pub data Reach (s : Event S) : Event S → Type 0 where
    here : Reach s s
    later : {t u : Event S} → Reach s t → Step t u → Reach s u

  take-nth-some :
      (n : ℕ) (cs : List (Callback S)) (c : Callback S)
      → nth n cs ≡ some c
      → take (suc n) cs ≡ take n cs ++ c ∷ []
  take-nth-some n [] c e = absurd (cc)
  take-nth-some zero (d ∷ cs) c e = cc
  take-nth-some (suc n) (d ∷ cs) c e = ap (◌∷◌ d) (take-nth-some n cs c e)

  take-nth-none : (n : ℕ) (cs : List (Callback S)) → nth n cs ≡ none → take n cs ≡ cs
  take-nth-none zero [] e = refl
  take-nth-none (suc n) [] e = refl
  take-nth-none zero (c ∷ cs) e = absurd (cc)
  take-nth-none (suc n) (c ∷ cs) e = ap (◌∷◌ c) (take-nth-none n cs e)

  -- An invocation under way has called the callbacks before its iterator, and the set is the one that
  -- it found.
  abbrev IsUnderway : List (Callback S) → Option (Invocation S) → Type 0
  IsUnderway cs none = Unit {0}
  IsUnderway cs (some v) = (v.found ≡ cs) × (v.called ≡ take v.position cs)

  -- Every one that is over has called each callback that it found once, in order.
  abbrev pub AllWhole : List (Invocation S) → Type 0
  AllWhole [] = Unit {0}
  AllWhole (v ∷ vs) = (v.called ≡ v.found) × AllWhole vs

  AllWhole-append :
      (vs : List (Invocation S)) (v : Invocation S)
      → AllWhole vs
      → v.called ≡ v.found
      → AllWhole (vs ++ v ∷ [])
  AllWhole-append [] v a e = (e, tt)
  AllWhole-append (w ∷ vs) v a e = (a.0, AllWhole-append vs v a.1 e)

  record IsSound (s : Event S) : Type 0 where
    underway : (i : ℕ) → IsUnderway s.callbacks (s.running i)
    whole : AllWhole s.over

  Step-IsSound : (s t : Event S) → IsSound s → Step s t → IsSound t
  Step-IsSound s _ o (begin i free) = record {
    underway = λ j.
        at_thread_elim (λ _ v. IsUnderway s.callbacks v) i j
          (some (record { position = 0; found = s.callbacks; called = [] })) s.running (refl, refl)
          (o.underway j);
    whole = o.whole;
  }
  Step-IsSound s _ o (call i v c e f) =
      let u : IsUnderway s.callbacks (some v) = subst (IsUnderway s.callbacks) e (o.underway i) in
      record {
        underway = λ j.
            at_thread_elim (λ _ v. IsUnderway s.callbacks v) i j
              (some (record v { position = suc v.position; called = v.called ++ c ∷ [] })) s.running
              (u.0, rw u.1 (sym (take-nth-some v.position s.callbacks c f))) (o.underway j);
        whole = o.whole;
      }
  Step-IsSound s _ o (finish i v e f) =
      let u : IsUnderway s.callbacks (some v) = subst (IsUnderway s.callbacks) e (o.underway i) in
      record {
        underway = λ j.
            at_thread_elim (λ _ v. IsUnderway s.callbacks v) i j none s.running tt (o.underway j);
        whole =
            AllWhole-append s.over v o.whole
              (u.1 ∙ take-nth-none v.position s.callbacks f ∙ sym u.0);
      }
  Step-IsSound s _ o (update x free) = record {
    underway = λ j. subst (IsUnderway (change x s.callbacks)) (sym (free j)) tt;
    whole = o.whole;
  }

  Reach-IsSound : (s t : Event S) → IsSound s → Reach s t → IsSound t
  Reach-IsSound s _ o here = o
  Reach-IsSound s _ o (later {t = t} {u} r e) = Step-IsSound t u (Reach-IsSound s t o r) e

  -- From a state in which no thread is in `invoke`, in every order of the steps of any number of
  -- threads that invoke and change the set: each `invoke` that is over has called exactly the callbacks
  -- that were there when it took the lock, each once and in the order of the set.
  pub Reach-AllWhole :
      (s t : Event S) → ((i : ℕ) → s.running i ≡ none) → s.over ≡ [] → Reach s t → AllWhole t.over
  Reach-AllWhole s t idle fresh r =
      (Reach-IsSound s t
        (record {
          underway = λ j. subst (IsUnderway s.callbacks) (sym (idle j)) tt;
          whole = subst AllWhole (sym fresh) tt;
        })
        r).whole
