-- ===== src/SharedMutex/Invariant.antt =====
-- What holds in every reachable state of `ExclusivePrioritySharedMutex`.
use socket_lib_linux.Prelude.{
  ℕ, ◌+◌, ◌≤◌, ◌≡◌, ◌≢◌, refl, ◌∙◌, ◌⊎◌, Bool, true, false, some, arith, get_elem?,
  get_elem?-set_ne, set,
}
use socket_lib_linux.SharedMutex.Counts.{
  in_mutex, writes, reads, asks, enters, signals, sum, sum-set, sum-get, sum-get_two, sum-enters,
  enters_small, sum-idle,
}
use socket_lib_linux.SharedMutex.{
  Lock, Pc, idle, exclusive, leave, Call, lock_shared, lock, next, System, Cv, shared_cv,
  exclusive_cv, Step, act, notify, notify_none, wake_up, init, Reach, here, later,
}

abbrev flag : Bool → ℕ
flag true = 1
flag false = 0

flag_small : (b : Bool) → flag b ≤ 1
flag_small true = omega arith
flag_small false = omega arith

-- The counters count, at most one thread holds `mutex_`, no thread is counted as waiting or about to
-- notify `exclusiveCv_`, and at most one thread holds the lock alone or is about to.
pub record Inv (s : System) : Type 0 where
  pub mutexes : sum in_mutex s.pcs ≡ flag s.lock.mutex
  pub writers : sum writes s.pcs ≡ s.lock.exclusive_count
  pub readers : sum reads s.pcs ≡ s.lock.shared_count
  pub requests : sum asks s.pcs ≡ s.lock.exclusive_requests
  pub waiting : s.lock.exclusive_waiting ≡ 0
  pub alone : s.lock.exclusive_count + sum enters s.pcs ≤ 1
  pub silent : sum signals s.pcs ≡ 0

-- What one access changes, at the thread that makes it.
record Local (l : Lock) (p : Pc) (l' : Lock) (p' : Pc) : Type 0 where
  mutexes : flag l'.mutex + in_mutex p ≡ flag l.mutex + in_mutex p'
  writers : l'.exclusive_count + writes p ≡ l.exclusive_count + writes p'
  readers : l'.shared_count + reads p ≡ l.shared_count + reads p'
  requests : l'.exclusive_requests + asks p ≡ l.exclusive_requests + asks p'
  waiting : l'.exclusive_waiting ≡ l.exclusive_waiting
  alone :
      (l'.exclusive_count + enters p' ≤ l.exclusive_count + enters p)
      ⊎ ((l.exclusive_count ≡ 0) × (l'.exclusive_count ≡ 0) × (in_mutex p ≡ 1) × (enters p ≡ 0))
  silent : l.exclusive_waiting ≡ 0 → signals p' ≤ signals p

-- The thread is counted wherever it stands.
record Counted (l : Lock) (p : Pc) : Type 0 where
  mutexes : in_mutex p ≤ flag l.mutex
  writers : writes p ≤ l.exclusive_count
  readers : reads p ≤ l.shared_count
  requests : asks p ≤ l.exclusive_requests

next-Local :
    (c : Call) (l l' : Lock) (p p' : Pc)
    → Counted l p
    → next c l p ≡ some (l', p')
    → Local l p l' p'
unfolding next
next-Local lock_shared l l' idle p' k h = ground arith
next-Local lock l l' idle p' k h = ground arith
next-Local c l l' _ p' k h = ground arith

counted : {s : System} (i : ℕ) (p : Pc) → Inv s → get_elem? s.pcs i ≡ some p → Counted s.lock p
counted {s} i p v h = omega (
  arith,
  sum-get in_mutex s.pcs i p h,
  sum-get writes s.pcs i p h,
  sum-get reads s.pcs i p h,
  sum-get asks s.pcs i p h,
)

act-Inv :
    (s : System) (i : ℕ) (p p' : Pc) (l : Lock)
    → Inv s
    → get_elem? s.pcs i ≡ some p
    → Local s.lock p l p'
    → Inv (record { lock = l; pcs = set s.pcs i p' })
act-Inv s i p p' l v h d = omega (
  arith,
  sum-set in_mutex s.pcs i p p' h,
  sum-set writes s.pcs i p p' h,
  sum-set reads s.pcs i p p' h,
  sum-set asks s.pcs i p p' h,
  sum-set enters s.pcs i p p' h,
  sum-set signals s.pcs i p p' h,
  sum-enters s.pcs i p h,
  enters_small p',
  flag_small s.lock.mutex,
)

-- A wake-up or a notification moves threads between places that count alike.
same-Inv :
    (s : System) (i : ℕ) (p p' : Pc)
    → Inv s
    → get_elem? s.pcs i ≡ some p
    → (in_mutex p ≡ in_mutex p')
      × (writes p ≡ writes p')
      × (reads p ≡ reads p')
      × (asks p ≡ asks p')
      × (enters p ≡ enters p')
      × (signals p' ≤ signals p)
    → Inv (record { lock = s.lock; pcs = set s.pcs i p' })
same-Inv s i p p' v h e = omega (
  arith,
  sum-set in_mutex s.pcs i p p' h,
  sum-set writes s.pcs i p p' h,
  sum-set reads s.pcs i p p' h,
  sum-set asks s.pcs i p p' h,
  sum-set enters s.pcs i p p' h,
  sum-set signals s.pcs i p p' h,
)

woken-Inv :
    {p asleep woken : Pc} (s : System) (j : ℕ)
    → Cv p asleep woken
    → Inv s
    → get_elem? s.pcs j ≡ some asleep
    → Inv (record { lock = s.lock; pcs = set s.pcs j woken })
woken-Inv s j shared_cv v h = same-Inv s j _ _ v h (refl, refl, refl, refl, refl, omega arith)
woken-Inv s j exclusive_cv v h = same-Inv s j _ _ v h (refl, refl, refl, refl, refl, omega arith)

notified-Inv :
    {p asleep woken : Pc} (s : System) (i : ℕ)
    → Cv p asleep woken
    → Inv s
    → get_elem? s.pcs i ≡ some p
    → Inv (record { lock = s.lock; pcs = set s.pcs i leave })
notified-Inv s i shared_cv v h = same-Inv s i _ _ v h (refl, refl, refl, refl, refl, omega arith)
notified-Inv s i exclusive_cv v h = same-Inv s i _ _ v h (refl, refl, refl, refl, refl, omega arith)

Cv-ne : {p asleep woken : Pc} → Cv p asleep woken → p ≢ asleep
Cv-ne shared_cv = λ e. cc
Cv-ne exclusive_cv = λ e. cc

-- Every step keeps the invariant, also one that is a spurious wake-up.
pub Step-Inv : {b : Bool} {s t : System} → Step b s t → Inv s → Inv t
Step-Inv {s = s} (act i c p p' l h e) v =
    act-Inv s i p p' l v h (next-Local c s.lock l p p' (counted i p v h) e)
Step-Inv {s = s} (notify i j p asleep woken cv h k) v =
    woken-Inv (record { lock = s.lock; pcs = set s.pcs i leave }) j cv (notified-Inv s i cv v h)
      (get_elem?-set_ne s.pcs i j leave (λ e. Cv-ne cv (ground arith)) ∙ k)
Step-Inv {s = s} (notify_none i p asleep woken cv h k) v = notified-Inv s i cv v h
Step-Inv {s = s} (wake_up j p asleep woken e cv k) v = woken-Inv s j cv v k

init-Inv : (n : ℕ) → Inv (init n)
init-Inv n = omega (
  arith,
  sum-idle in_mutex n refl,
  sum-idle writes n refl,
  sum-idle reads n refl,
  sum-idle asks n refl,
  sum-idle enters n refl,
  sum-idle signals n refl,
)

-- Every reachable state satisfies the invariant, from any number of idle threads on.
pub Reach-Inv : {b : Bool} (n : ℕ) {s : System} → Reach b (init n) s → Inv s
Reach-Inv n here = init-Inv n
Reach-Inv n (later r st) = Step-Inv st (Reach-Inv n r)

-- In no reachable state of any number of threads do two of them hold the lock alone, whatever threads
-- wake up.
pub writers_exclude :
    {b : Bool} (n : ℕ) {s : System}
    → Reach b (init n) s
    → (i j : ℕ) → get_elem? s.pcs i ≡ some exclusive
    → get_elem? s.pcs j ≡ some exclusive
    → i ≡ j
writers_exclude n {s = s} r i j h k =
    ground (arith, sum-get_two writes s.pcs i j exclusive exclusive h k, Reach-Inv n r)
