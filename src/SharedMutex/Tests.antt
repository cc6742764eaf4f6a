-- ===== src/SharedMutex/Tests.antt =====
-- Reachable states of `ExclusivePrioritySharedMutex`, by evaluation of single accesses.
use socket_lib_linux.Prelude.{
  ℕ, ◌≡◌, ◌≢◌, refl, false, List, [], ◌∷◌, Option, none, some, get_elem?, set,
}
use socket_lib_linux.SharedMutex.{
  Lock, Pc, idle, shared, exclusive, exclusive_asleep, notify_shared, shared_asleep, Call,
  lock_shared, lock, next, System, act, init, Reach, here, later,
}
use socket_lib_linux.SharedMutex.Invariant.{Inv, Reach-Inv, writers_exclude}
use socket_lib_linux.SharedMutex.Progress.{Alone, OneWoken, lock_free, unlock_wakes}
use socket_lib_linux.SharedMutex.Starvation.{readers_shut_out}
use socket_lib_linux.SharedMutex.Faults.{reader_joins_writer, writer_sleeps_on}

-- A run of accesses, each by the thread at an index, from a state.
abbrev Run : System → Type 0
Run start = (s : System) × Reach false start s

abbrev begin : (start : System) → Run start
begin start = (start, here)

-- One access by thread `i`, which stands at `p`; the state is left alone if it is blocked.
access : {start : System} → ℕ → Call → Run start → Run start
unfolding next
access {start} i c (s, r) = go (get_elem? s.pcs i) refl
  where
    move :
        (p : Pc) (x : Option (Lock × Pc))
        → get_elem? s.pcs i ≡ some p
        → next c s.lock p ≡ x
        → Run start
    move p none h e = (s, r)
    move p (some (l, p')) h e =
        (record { lock = l; pcs = set s.pcs i p' }, later r (act i c p p' l h e))

    go : (o : Option Pc) → get_elem? s.pcs i ≡ o → Run start
    go none h = (s, r)
    go (some p) h = move p (next c s.lock p) h refl

accesses : {start : System} → List (ℕ × Call) → Run start → Run start
unfolding access
accesses [] r = r
accesses ((i, c) ∷ cs) r = accesses cs (access i c r)

abbrev writer_in : Run (init 2)
writer_in =
    accesses
      ((0, lock) ∷ (0, lock) ∷ (0, lock) ∷ (0, lock) ∷ (0, lock) ∷ (0, lock) ∷ (0, lock) ∷ [])
      (begin (init 2))

-- Thread 1 reads; thread 0 waits for it.
abbrev writer_waits : Run (init 2)
writer_waits =
    accesses ((1, lock_shared) ∷ (1, lock_shared) ∷ (0, lock) ∷ (0, lock) ∷ (0, lock) ∷ [])
      (begin (init 2))

-- The reader leaves: it finds that it was the last, takes the mutex and is about to wake a reader.
abbrev reader_left : Run writer_waits.0
reader_left =
    accesses ((1, lock_shared) ∷ (1, lock_shared) ∷ (1, lock_shared) ∷ []) (begin writer_waits.0)

Reach-Inv_test : Inv writer_in.0
Reach-Inv_test = Reach-Inv 2 writer_in.1

writers_exclude_example : ◌≡◌ {A = ℕ} 0 0
unfolding accesses
writers_exclude_example = writers_exclude 2 writer_in.1 0 0 refl refl

reader_joins_writer_example :
    (t : System) × Reach false writer_in.0 t
    × (get_elem? t.pcs 0 ≡ some exclusive)
    × (get_elem? t.pcs 1 ≡ some shared)
unfolding accesses
reader_joins_writer_example = reader_joins_writer false writer_in.0 0 1 refl refl refl

writer_sleeps_on_example : get_elem? reader_left.0.pcs 0 ≡ some exclusive_asleep
unfolding accesses
writer_sleeps_on_example = writer_sleeps_on 2 0 writer_waits.1 refl reader_left.1

reader_left_test : reader_left.0.pcs ≡ exclusive_asleep ∷ notify_shared ∷ []
unfolding accesses
reader_left_test = refl

lock_free_example : Alone false (init 2) 0 (record (init 2).lock { exclusive_count = 1 }) exclusive
lock_free_example = lock_free false (init 2) 0 refl refl refl refl

-- Thread 0 holds the lock alone; thread 1 waits to read.
abbrev reader_waits : Run (init 2)
reader_waits =
    accesses
      ((0, lock)
        ∷ (1, lock_shared)
        ∷ (0, lock)
        ∷ (0, lock)
        ∷ (0, lock)
        ∷ (0, lock)
        ∷ (0, lock)
        ∷ (0, lock)
        ∷ (1, lock)
        ∷ (1, lock)
        ∷ (1, lock)
        ∷ [])
      (begin (init 2))

reader_waits_test : reader_waits.0.pcs ≡ exclusive ∷ shared_asleep ∷ []
unfolding accesses
reader_waits_test = refl

unlock_wakes_example :
    (u : System) × Reach false reader_waits.0 u
    × (u.lock ≡ record reader_waits.0.lock { exclusive_count = 0 })
    × (get_elem? u.pcs 0 ≡ some idle)
    × OneWoken 0 reader_waits.0.pcs u.pcs
unfolding accesses
unlock_wakes_example = unlock_wakes 2 0 reader_waits.1 refl refl

-- Thread 1 reads and thread 0 waits for it, when thread 2 calls `lock_shared`.
abbrev one_waits : Run (init 3)
one_waits =
    accesses ((1, lock_shared) ∷ (1, lock_shared) ∷ (0, lock) ∷ (0, lock) ∷ (0, lock) ∷ [])
      (begin (init 3))

abbrev tried : Run one_waits.0
tried = accesses ((2, lock_shared) ∷ (2, lock_shared) ∷ (2, lock_shared) ∷ []) (begin one_waits.0)

readers_shut_out_example : get_elem? tried.0.pcs 2 ≢ some shared
unfolding accesses
readers_shut_out_example = readers_shut_out 3 2 0 one_waits.1 refl (idle, refl, refl) tried.1

tried_test : tried.0.pcs ≡ exclusive_asleep ∷ shared ∷ shared_asleep ∷ []
unfolding accesses
tried_test = refl
