-- ===== src/SharedMutex/Counts.antt =====
-- Counting the threads that stand at certain places.
use socket_lib_linux.Prelude.{
  ℕ, zero, suc, ◌+◌, ◌≤◌, ◌≡◌, refl, ap, ◌⊎◌, inl, inr, List, [], ◌∷◌, some, arith, get_elem?, set,
  replicate,
}
use socket_lib_linux.SharedMutex.{
  Pc, idle, slow_requests, slow_count, slow_enter, slow_leave, shared, want, want_shared,
  want_count, exclusive_asleep, want_drop, want_enter, want_leave, exclusive, drop_count, choose,
  notify_exclusive, notify_shared, leave,
}

-- Threads that hold `mutex_`.
abbrev pub in_mutex : Pc → ℕ
in_mutex slow_requests = 1
in_mutex slow_count = 1
in_mutex slow_enter = 1
in_mutex slow_leave = 1
in_mutex want_shared = 1
in_mutex want_count = 1
in_mutex want_drop = 1
in_mutex want_enter = 1
in_mutex want_leave = 1
in_mutex drop_count = 1
in_mutex choose = 1
in_mutex notify_exclusive = 1
in_mutex notify_shared = 1
in_mutex leave = 1
in_mutex _ = 0

-- Threads counted in `exclusiveCount_`.
abbrev pub writes : Pc → ℕ
writes want_leave = 1
writes exclusive = 1
writes drop_count = 1
writes _ = 0

-- Threads counted in `sharedCount_`.
abbrev pub reads : Pc → ℕ
reads slow_leave = 1
reads shared = 1
reads _ = 0

-- Threads counted in `exclusiveRequests_`.
abbrev pub asks : Pc → ℕ
asks want = 1
asks want_shared = 1
asks want_count = 1
asks exclusive_asleep = 1
asks want_drop = 1
asks _ = 0

-- Threads that found both counts at 0 and are about to enter.
abbrev pub enters : Pc → ℕ
enters want_drop = 1
enters want_enter = 1
enters _ = 0

-- Threads about to notify exclusiveCv_.
abbrev pub signals : Pc → ℕ
signals notify_exclusive = 1
signals _ = 0

pub sum : (Pc → ℕ) → List Pc → ℕ
sum w [] = 0
sum w (p ∷ ps) = w p + sum w ps

pub sum-set :
    (w : Pc → ℕ) (ps : List Pc) (i : ℕ) (p p' : Pc)
    → get_elem? ps i ≡ some p
    → sum w (set ps i p') + w p ≡ sum w ps + w p'
unfolding sum
sum-set w [] i p p' h = absurd (cc)
sum-set w (q ∷ ps) zero p p' h = ground arith
sum-set w (q ∷ ps) (suc i) p p' h = omega (arith, sum-set w ps i p p' h)

pub sum-get :
    (w : Pc → ℕ) (ps : List Pc) (i : ℕ) (p : Pc) → get_elem? ps i ≡ some p → w p ≤ sum w ps
unfolding sum
sum-get w [] i p h = absurd (cc)
sum-get w (q ∷ ps) zero p h = ground arith
sum-get w (q ∷ ps) (suc i) p h = omega (arith, sum-get w ps i p h)

-- Two threads at such places count twice.
pub sum-get_two :
    (w : Pc → ℕ) (ps : List Pc) (i j : ℕ) (p q : Pc)
    → get_elem? ps i ≡ some p
    → get_elem? ps j ≡ some q
    → (i ≡ j) ⊎ (w p + w q ≤ sum w ps)
unfolding sum
sum-get_two w [] i j p q h k = absurd (cc)
sum-get_two w (r ∷ ps) zero zero p q h k = inl refl
sum-get_two w (r ∷ ps) zero (suc j) p q h k = inr (ground (arith, sum-get w ps j q k))
sum-get_two w (r ∷ ps) (suc i) zero p q h k = inr (ground (arith, sum-get w ps i p h))
sum-get_two w (r ∷ ps) (suc i) (suc j) p q h k = elim (sum-get_two w ps i j p q h k) [
  | inl e ↦ inl (ap suc e)
  | inr le ↦ inr (omega arith)
]

pub enters-le : (p : Pc) → enters p ≤ in_mutex p
enters-le want_drop = omega arith
enters-le _ = omega arith

pub enters_small : (p : Pc) → enters p ≤ 1
enters_small want_drop = omega arith
enters_small _ = omega arith

sum-enters-le : (ps : List Pc) → sum enters ps ≤ sum in_mutex ps
unfolding sum
sum-enters-le [] = omega arith
sum-enters-le (p ∷ ps) = omega (arith, enters-le p, sum-enters-le ps)

-- No thread is about to enter while another, which is not, holds `mutex_`.
pub sum-enters :
    (ps : List Pc) (i : ℕ) (p : Pc)
    → get_elem? ps i ≡ some p
    → sum enters ps + in_mutex p ≤ sum in_mutex ps + enters p
unfolding sum
sum-enters [] i p h = absurd (cc)
sum-enters (q ∷ ps) zero p h = ground (arith, sum-enters-le ps)
sum-enters (q ∷ ps) (suc i) p h = omega (arith, sum-enters ps i p h, enters-le q)

pub sum-idle : (w : Pc → ℕ) (n : ℕ) → w idle ≡ 0 → sum w (replicate n idle) ≡ 0
unfolding sum
sum-idle w zero h = refl
sum-idle w (suc n) h = omega (arith, sum-idle w n h)
