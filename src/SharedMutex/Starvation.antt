-- ===== src/SharedMutex/Starvation.antt =====
-- What a writer that waits does to the readers of an `ExclusivePrioritySharedMutex`.
use socket_lib_linux.Prelude.{
  ℕ, ◌<◌, ◌≡◌, ◌≢◌, ◌∙◌, refl, ap, Bool, false, List, some, arith, get_elem?, set, get_elem?-set_ne,
  get_elem?-set_self,
}
use native.Mathlib.Decide.{ℕ_discrete}
use socket_lib_linux.SharedMutex.Counts.{asks, sum-get}
use socket_lib_linux.SharedMutex.Invariant.{Inv, Reach-Inv, Step-Inv}
use socket_lib_linux.SharedMutex.Faults.{Step-asleep}
use socket_lib_linux.SharedMutex.{
  Lock, Pc, idle, fast, slow_count, slow_enter, slow_leave, shared, exclusive_asleep, Call,
  lock_shared, lock, leave, next, System, Cv, shared_cv, exclusive_cv, Step, act, notify,
  notify_none, wake_up, init, Reach, here, later,
}

-- The threads that hold the lock shared, or that have read in `lock_shared` that no writer asks for it.
abbrev pub admitted : Pc → ℕ
admitted fast = 1
admitted slow_count = 1
admitted slow_enter = 1
admitted slow_leave = 1
admitted shared = 1
admitted _ = 0

abbrev pub Outside : List Pc → ℕ → Type 0
Outside ps i = (p : Pc) × (get_elem? ps i ≡ some p) × (admitted p ≡ 0)

-- While a writer asks for the lock, no access admits a thread.
next-outside :
    (c : Call) (l l' : Lock) (p p' : Pc)
    → 0 < l.exclusive_requests
    → admitted p ≡ 0
    → next c l p ≡ some (l', p')
    → admitted p' ≡ 0
unfolding next
next-outside lock_shared l l' idle p' asked out e = ground arith
next-outside lock l l' idle p' asked out e = ground arith
next-outside c l l' _ p' asked out e = ground arith

set-Outside :
    (ps : List Pc) (i k : ℕ) (q : Pc) → admitted q ≡ 0 → Outside ps i → Outside (set ps k q) i
set-Outside ps i k q out (p, h, o) = elim (ℕ_discrete k i) [
  | yes same ↦ (q, ap (λ k. get_elem? (set ps k q) i) same ∙ get_elem?-set_self ps i q p h, out)
  | no apart ↦ (p, get_elem?-set_ne ps k i q apart ∙ h, o)
]

woken-outside : {p asleep woken : Pc} → Cv p asleep woken → admitted woken ≡ 0
woken-outside shared_cv = refl
woken-outside exclusive_cv = refl

Step-Outside :
    {b : Bool} {s t : System} (i : ℕ)
    → 0 < s.lock.exclusive_requests
    → Step b s t
    → Outside s.pcs i
    → Outside t.pcs i
Step-Outside {s = s} i asked (act k c p p' l h e) (q, g, o) = elim (ℕ_discrete k i) [
  | yes same ↦ (
    p',
    ap (λ k. get_elem? (set s.pcs k p') i) same ∙ get_elem?-set_self s.pcs i p' q g,
    next-outside c s.lock l p p' asked (ground arith) e,
  )
  | no apart ↦ (q, get_elem?-set_ne s.pcs k i p' apart ∙ g, o)
]
Step-Outside {s = s} i asked (notify k j p asleep woken cv h g) o =
    set-Outside (set s.pcs k leave) i j woken (woken-outside cv)
      (set-Outside s.pcs i k leave refl o)
Step-Outside {s = s} i asked (notify_none k p asleep woken cv h none_asleep) o =
    set-Outside s.pcs i k leave refl o
Step-Outside {s = s} i asked (wake_up j p asleep woken e cv g) o =
    set-Outside s.pcs i j woken (woken-outside cv) o

asked_for :
    (s : System) (j : ℕ)
    → Inv s
    → get_elem? s.pcs j ≡ some exclusive_asleep
    → 0 < s.lock.exclusive_requests
asked_for s j v h = omega (arith, sum-get asks s.pcs j exclusive_asleep h, v.requests)

-- Once a thread waits on exclusiveCv_ in a reachable state, and spurious wake-ups left out, a thread
-- that is not in the lock then, nor past the test of exclusiveRequests_ in `lock_shared`, never holds
-- the lock shared in any later state: no later call of `lock_shared` returns.
pub readers_shut_out :
    (n : ℕ) {s t : System} (i j : ℕ)
    → Reach false (init n) s
    → get_elem? s.pcs j ≡ some exclusive_asleep
    → Outside s.pcs i
    → Reach false s t
    → get_elem? t.pcs i ≢ some shared
readers_shut_out n {s} {t} i j reached asleep out later_states e =
    ground (arith, (go later_states).2)
  where
    go :
        {u : System}
        → Reach false s u
        → Inv u × (get_elem? u.pcs j ≡ some exclusive_asleep) × Outside u.pcs i
    go here = (Reach-Inv n reached, asleep, out)
    go (later {t = u} r step) =
        let (v, h, o) = go r in
        (Step-Inv step v, Step-asleep j v step h, Step-Outside i (asked_for u j v h) step o)
