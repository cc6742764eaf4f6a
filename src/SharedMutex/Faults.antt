-- ===== src/SharedMutex/Faults.antt =====
-- What `ExclusivePrioritySharedMutex` does not give: a reader is let in beside a writer, and a writer
-- that waits is not woken.
use socket_lib_linux.Prelude.{
  ℕ, ◌+◌, ◌≡◌, ◌≢◌, refl, ◌∙◌, Bool, false, some, arith, get_elem?, set, get_elem?-set_ne,
  get_elem?-set_self,
}
use socket_lib_linux.SharedMutex.Counts.{signals, sum-get}
use socket_lib_linux.SharedMutex.Invariant.{Inv, Step-Inv, Reach-Inv}
use socket_lib_linux.SharedMutex.{
  Pc, idle, fast, slow, shared, exclusive, exclusive_asleep, notify_exclusive, leave, lock_shared,
  next, System, Cv, shared_cv, exclusive_cv, Step, act, notify, notify_none, wake_up, init, Reach,
  here, later,
}

-- While a thread holds the lock alone and no other thread asks for that, a call of `lock_shared` by
-- an idle thread can get the lock shared with no help from the others, and both hold it.
pub reader_joins_writer :
    (b : Bool) (s : System) (i j : ℕ)
    → get_elem? s.pcs i ≡ some exclusive
    → get_elem? s.pcs j ≡ some idle
    → s.lock.exclusive_requests ≡ 0
    → (t : System) × Reach b s t
      × (get_elem? t.pcs i ≡ some exclusive)
      × (get_elem? t.pcs j ≡ some shared)
unfolding next
reader_joins_writer b s i j h k r = (
  record {
    lock = record s.lock { shared_count = s.lock.shared_count + 1 };
    pcs = set (set s.pcs j fast) j shared;
  },
  later (later here (act j lock_shared idle fast s.lock k (ground arith))) (
      act j lock_shared fast shared (record s.lock { shared_count = s.lock.shared_count + 1 })
        (get_elem?-set_self s.pcs j fast idle k) refl),
  get_elem?-set_ne (set s.pcs j fast) j i shared apart ∙ get_elem?-set_ne s.pcs j i fast apart ∙ h,
  get_elem?-set_self (set s.pcs j fast) j shared fast (get_elem?-set_self s.pcs j fast idle k),
)
  where
    apart : j ≢ i
    apart e = ground arith

caller-ne : {p asleep woken : Pc} → Cv p asleep woken → p ≢ exclusive_asleep
caller-ne shared_cv = λ e. cc
caller-ne exclusive_cv = λ e. cc

notify-asleep :
    {p asleep woken : Pc} (s : System) (i k j : ℕ)
    → Cv p asleep woken
    → Inv s
    → get_elem? s.pcs i ≡ some p
    → get_elem? s.pcs k ≡ some asleep
    → get_elem? s.pcs j ≡ some exclusive_asleep
    → get_elem? (set (set s.pcs i leave) k woken) j ≡ some exclusive_asleep
notify-asleep s i k j shared_cv v h g a =
    get_elem?-set_ne (set s.pcs i leave) k j slow (λ e. ground arith)
    ∙ get_elem?-set_ne s.pcs i j leave (λ e. ground arith)
    ∙ a
notify-asleep s i k j exclusive_cv v h g a =
    absurd (omega (arith, sum-get signals s.pcs i notify_exclusive h))

-- Without a spurious wake-up, a thread that waits to hold the lock alone waits on, whatever the other
-- threads do.
pub Step-asleep :
    {s t : System} (j : ℕ)
    → Inv s
    → Step false s t
    → get_elem? s.pcs j ≡ some exclusive_asleep
    → get_elem? t.pcs j ≡ some exclusive_asleep
unfolding next
Step-asleep {s} j v (act i c p p' l h e) a = get_elem?-set_ne s.pcs i j p' (λ e'. ground arith) ∙ a
Step-asleep {s} j v (notify i k p asleep woken cv h g) a = notify-asleep s i k j cv v h g a
Step-asleep {s} j v (notify_none i p asleep woken cv h none_asleep) a =
    get_elem?-set_ne s.pcs i j leave (λ e'. caller-ne cv (ground arith)) ∙ a
Step-asleep {s} j v (wake_up k p asleep woken e cv g) a = absurd (cc)

-- A thread that waits on exclusiveCv_ in a reachable state waits there in every later state: no
-- unlock, by a writer or by the last reader, ever wakes it. (Spurious wake-ups are left out.)
pub writer_sleeps_on :
    (n : ℕ) {s t : System} (j : ℕ)
    → Reach false (init n) s
    → get_elem? s.pcs j ≡ some exclusive_asleep
    → Reach false s t
    → get_elem? t.pcs j ≡ some exclusive_asleep
writer_sleeps_on n {s} j r a later_states = (go later_states).1
  where
    go : {u : System} → Reach false s u → Inv u × (get_elem? u.pcs j ≡ some exclusive_asleep)
    go here = (Reach-Inv n r, a)
    go (later q st) = let (v, h) = go q in (Step-Inv st v, Step-asleep j v st h)
