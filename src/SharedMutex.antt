-- ===== src/SharedMutex.antt =====
-- shared/ExclusiveSharedMutex.h: `ExclusivePrioritySharedMutex`, any number of threads interleaved
-- between any two accesses to its atomics.
pub mod Counts
pub mod Invariant
pub mod Faults
pub mod Progress
pub mod Starvation
mod Tests
use socket_lib_linux.Prelude.{
  ℕ, ◌+◌, ◌-◌, ◌≡◌, ◌≢◌, Bool, true, false, List, Option, none, some, get_elem?, set, replicate,
  ltb, ◌==◌, if◌then◌else◌,
}

-- The four counters, and whether `mutex_` is held. A counter is lowered only by a thread that raised
-- it before, so it is never negative; that the reachable states satisfy this is part of their
-- invariant.
pub record Lock : Type 0 where
  pub shared_count : ℕ
  pub exclusive_requests : ℕ
  pub exclusive_waiting : ℕ
  pub exclusive_count : ℕ
  pub mutex : Bool

-- Where a thread stands.
pub data Pc : Type 0 where
  idle : Pc  -- holds nothing
  fast : Pc  -- lock_shared, exclusiveRequests_ was 0: before sharedCount_.fetch_add
  slow : Pc  -- lock_shared, before mutex_ is taken, also after a wake-up
  slow_requests : Pc  -- in the predicate of sharedCv_.wait, before the first load
  slow_count : Pc  -- before the second load
  shared_asleep : Pc  -- waits on sharedCv_
  slow_enter : Pc  -- before sharedCount_.fetch_add
  slow_leave : Pc  -- before mutex_ is given back
  shared : Pc  -- holds the lock shared
  last_out : Pc  -- unlock_shared, the previous count was 1: before mutex_ is taken
  want : Pc  -- lock, exclusiveRequests_ raised: before mutex_ is taken, also after a wake-up
  want_shared : Pc  -- in the predicate of exclusiveCv_.wait, before the first load
  want_count : Pc  -- before the second load
  exclusive_asleep : Pc  -- waits on exclusiveCv_
  want_drop : Pc  -- before exclusiveRequests_.fetch_sub
  want_enter : Pc  -- before exclusiveCount_.fetch_add
  want_leave : Pc  -- before mutex_ is given back
  exclusive : Pc  -- holds the lock alone
  drop_count : Pc  -- unlock, with mutex_: before exclusiveCount_.fetch_sub
  choose : Pc  -- before the load of exclusiveWaiting_
  notify_exclusive : Pc  -- before exclusiveCv_.notify_one
  notify_shared : Pc  -- before sharedCv_.notify_one
  leave : Pc  -- before mutex_ is given back

-- What an idle thread calls.
pub data Call : Type 0 where
  lock_shared lock : Call

-- `mutex_` taken, by a thread that goes on at `p`; `none` while another thread holds it.
abbrev pub take_mutex : Lock → Pc → Option (Lock × Pc)
take_mutex l p = if l.mutex then none else some (record l { mutex = true }, p)

abbrev pub release : Lock → Lock
release l = record l { mutex = false }

-- One access to the shared state. `none`: the thread is blocked, or its next step also moves another
-- thread. The test `fetch_add(1) >= 0` of the fast path always passes.
unfoldable pub next : Call → Lock → Pc → Option (Lock × Pc)
next lock_shared l idle = some (l, if l.exclusive_requests == 0 then fast else slow)
next lock l idle = some (record l { exclusive_requests = l.exclusive_requests + 1 }, want)
next c l fast = some (record l { shared_count = l.shared_count + 1 }, shared)
next c l slow = take_mutex l slow_requests
next c l slow_requests =
    some (if l.exclusive_requests == 0 then (l, slow_count) else (release l, shared_asleep))
next c l slow_count =
    some (if l.exclusive_count == 0 then (l, slow_enter) else (release l, shared_asleep))
next c l slow_enter = some (record l { shared_count = l.shared_count + 1 }, slow_leave)
next c l slow_leave = some (release l, shared)
next c l shared =
    some (
      record l { shared_count = l.shared_count - 1 },
      if l.shared_count == 1 then last_out else idle,
    )
next c l last_out = take_mutex l choose
next c l want = take_mutex l want_shared
next c l want_shared =
    some (if l.shared_count == 0 then (l, want_count) else (release l, exclusive_asleep))
next c l want_count =
    some (if l.exclusive_count == 0 then (l, want_drop) else (release l, exclusive_asleep))
next c l want_drop = some (record l { exclusive_requests = l.exclusive_requests - 1 }, want_enter)
next c l want_enter = some (record l { exclusive_count = l.exclusive_count + 1 }, want_leave)
next c l want_leave = some (release l, exclusive)
next c l exclusive = take_mutex l drop_count
next c l drop_count = some (record l { exclusive_count = l.exclusive_count - 1 }, choose)
next c l choose = some (l, if ltb 0 l.exclusive_waiting then notify_exclusive else notify_shared)
next c l leave = some (release l, idle)
next c l shared_asleep = none
next c l exclusive_asleep = none
next c l notify_exclusive = none
next c l notify_shared = none

pub record System : Type 0 where
  pub lock : Lock
  pub pcs : List Pc

-- The condition variable on which a thread waits, as the threads that call `notify_one` on it, and
-- where a thread goes on that is woken.
pub data Cv : Pc → Pc → Pc → Type 0 where
  shared_cv : Cv notify_shared shared_asleep slow
  exclusive_cv : Cv notify_exclusive exclusive_asleep want

-- One step of one thread. `notify_one` wakes one waiting thread, if there is one. A spurious wake-up
-- may happen only if `spurious` is set.
pub data Step (spurious : Bool) (s : System) : System → Type 0 where
  act :
      (i : ℕ) (c : Call) (p p' : Pc) (l : Lock)
      → get_elem? s.pcs i ≡ some p
      → next c s.lock p ≡ some (l, p')
      → Step spurious s (record { lock = l; pcs = set s.pcs i p' })
  notify :
      (i j : ℕ) (p asleep woken : Pc)
      → Cv p asleep woken
      → get_elem? s.pcs i ≡ some p
      → get_elem? s.pcs j ≡ some asleep
      → Step spurious s (record { lock = s.lock; pcs = set (set s.pcs i leave) j woken })
  notify_none :
      (i : ℕ) (p asleep woken : Pc)
      → Cv p asleep woken
      → get_elem? s.pcs i ≡ some p
      → ((j : ℕ) → get_elem? s.pcs j ≢ some asleep)
      → Step spurious s (record { lock = s.lock; pcs = set s.pcs i leave })
  wake_up :
      (j : ℕ) (p asleep woken : Pc)
      → spurious ≡ true
      → Cv p asleep woken
      → get_elem? s.pcs j ≡ some asleep
      → Step spurious s (record { lock = s.lock; pcs = set s.pcs j woken })

-- `n` threads that hold nothing.
abbrev pub init : ℕ → System
init n = record {
  lock = record {
    shared_count = 0;
    exclusive_requests = 0;
    exclusive_waiting = 0;
    exclusive_count = 0;
    mutex = false;
  };
  pcs = replicate n idle;
}

pub data Reach (spurious : Bool) (s : System) : System → Type 0 where
  here : Reach spurious s s
  later : {t u : System} → Reach spurious s t → Step spurious t u → Reach spurious s u
