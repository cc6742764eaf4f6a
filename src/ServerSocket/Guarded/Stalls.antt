-- ===== src/ServerSocket/Guarded/Stalls.antt =====
-- A thread that accepts a client or closes one while another reads (src/ServerSocket.cpp,
-- shared/ExclusiveSharedMutex.h).
use socket_lib_linux.Prelude.{
  ℕ, suc, ◌≡◌, ◌≢◌, refl, sym, subst, ap, Bool, true, false, none, some, get_elem?,
}
use socket_lib_linux.SharedMutex.{
  System, Lock, idle, fast, shared, want, want_shared, exclusive_asleep, lock_shared, lock, init,
  next, act,
}
use socket_lib_linux.SharedMutex
use socket_lib_linux.SharedMutex.Faults.{writer_sleeps_on}
use socket_lib_linux.SharedMutex.Starvation.{Outside, readers_shut_out}
use socket_lib_linux.ServerSocket.Clients.{keys}
use socket_lib_linux.ServerSocket.Guarded.{
  walk, with_walk, Guarded, mutex, start_pass, Reach, here, later, set_active, start_thread_loop,
  start_write, advance, call_over, finish, connect, close, touch,
}
use socket_lib_linux.ServerSocket.Guarded.Dangles.{priority_mutex, Reach-append, lift}

module _ {Q : Type 0} (b : Bool) (n : ℕ) (empty : Q) where
  -- The steps of the mutex in a run of the server.
  mutex_run :
      (s : Guarded (priority_mutex b n) Q) {t : Guarded (priority_mutex b n) Q}
      → Reach empty s t
      → SharedMutex.Reach b s.lock.0 t.lock.0
  mutex_run s here = SharedMutex.here
  mutex_run s (later r (mutex l moved kept)) = SharedMutex.later (mutex_run s r) moved
  mutex_run s (later r (start_pass i free has)) = mutex_run s r
  mutex_run s (later r (start_thread_loop i free)) = mutex_run s r
  mutex_run s (later r (start_write i fd c free has e)) = mutex_run s r
  mutex_run s (later r (advance i k v c e at free found)) = mutex_run s r
  mutex_run s (later r (call_over i k v e at)) = mutex_run s r
  mutex_run s (later r (finish i v e at free)) = mutex_run s r
  mutex_run s (later r (connect i fd rehash alone)) = mutex_run s r
  mutex_run s (later r (close i fd c alone found)) = mutex_run s r
  mutex_run s (later r (touch k c c' found same)) = mutex_run s r
  mutex_run s (later r (set_active b')) = mutex_run s r

-- One thread reads, and another that calls `lock` waits on exclusiveCv_.
abbrev Waits : System → Type 0
Waits s =
    (u : System) × SharedMutex.Reach false s u
    × (get_elem? u.pcs 0 ≡ some exclusive_asleep)
    × (get_elem? u.pcs 1 ≡ some shared)

waits : (n : ℕ) → Waits (init (suc (suc n)))
unfolding next
waits n =
    let l0 : Lock = (init (suc (suc n))).lock in
    let l1 : Lock = record l0 { shared_count = 1 } in
    let l2 : Lock = record l1 { exclusive_requests = 1 } in
    let l3 : Lock = record l2 { mutex = true } in
    (
      _,
      SharedMutex.later
          (SharedMutex.later
            (SharedMutex.later
              (SharedMutex.later
                (SharedMutex.later SharedMutex.here (act 1 lock_shared idle fast l0 refl refl))
                (act 1 lock_shared fast shared l1 refl refl))
              (act 0 lock idle want l2 refl refl))
            (act 0 lock want want_shared l3 refl refl))
          (act 0 lock want_shared exclusive_asleep l2 refl refl),
      refl,
      refl,
    )

module _ {Q : Type 0} (n : ℕ) (empty : Q) where
  -- Of any number of threads, two at least: from the start on, with one thread in a pass, a thread that
  -- accepts or closes a client can come to wait for the mutex in such a way that, spurious wake-ups left
  -- out, the server stands still. In every later state that thread still waits, so that its client is
  -- never added, or never removed; and a thread that is then not in the mutex, nor past its first test
  -- in `lock_shared`, never has it shared again, so that it starts no pass and writes to no client.
  pub exclusive_stalls :
      (s : Guarded (priority_mutex false (suc (suc n))) Q)
      → s.lock ≡ (init (suc (suc n)), SharedMutex.here)
      → ((i : ℕ) → s.walks i ≡ none)
      → (t : Guarded (priority_mutex false (suc (suc n))) Q) × Reach empty s t
        × (t.walks 1 ≡ some (walk true (keys s.clients)))
        × ((u : Guarded (priority_mutex false (suc (suc n))) Q)
            → Reach empty t u
            → (get_elem? u.lock.0.pcs 0 ≡ some exclusive_asleep)
              × ((i : ℕ) (v : Guarded (priority_mutex false (suc (suc n))) Q)
                  → Outside u.lock.0.pcs i
                  → Reach empty u v
                  → get_elem? v.lock.0.pcs i ≢ some shared))
  exclusive_stalls s start quiet =
      let (u, q, asleep, reading) : Waits s.lock.0 =
        subst Waits (sym (ap (λ l. l.0) start)) (waits n) in
      let r : SharedMutex.Reach false (init (suc (suc n))) u = Reach-append s.lock.1 q in
      (
        _,
        later (lift false (suc (suc n)) empty s quiet q) (start_pass 1 (quiet 1) reading),
        refl,
        λ v q'.
            let run : SharedMutex.Reach false u v.lock.0 =
              mutex_run false (suc (suc n)) empty
                (with_walk 1 (some (walk true (keys s.clients))) (record s { lock = (u, r) })) q' in
            let still : get_elem? v.lock.0.pcs 0 ≡ some exclusive_asleep =
              writer_sleeps_on (suc (suc n)) 0 r asleep run in
            (
              still,
              λ i w out q''.
                  readers_shut_out (suc (suc n)) i 0 (Reach-append r run) still out
                    (mutex_run false (suc (suc n)) empty v q''),
            ),
      )
