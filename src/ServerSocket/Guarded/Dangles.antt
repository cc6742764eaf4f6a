-- ===== src/ServerSocket/Guarded/Dangles.antt =====
-- The map of clients under its own mutex, `ExclusivePrioritySharedMutex` (src/ServerSocket.cpp,
-- shared/ExclusiveSharedMutex.h).
use socket_lib_linux.Prelude.{
  ℕ, suc, ◌≡◌, refl, ap, subst, sym, ◌∙◌, Bool, true, List, ◌∷◌, none, some, get_elem?, ==-refl,
  arith,
}
use socket_lib_linux.SharedMutex.{System, idle, shared, exclusive, init}
use socket_lib_linux.SharedMutex
use socket_lib_linux.SharedMutex.Progress.{lock_free}
use socket_lib_linux.SharedMutex.Faults.{reader_joins_writer}
use socket_lib_linux.UnorderedMap.{find}
use socket_lib_linux.Channel.{Channel}
use socket_lib_linux.ServerSocket.Clients.{keys}
use socket_lib_linux.ServerSocket.Guarded.{
  Mutex, dangling, Walk, first, erased, Keeps, Guarded, mutex, start_pass, close, Reach, here,
  later,
}

-- `ExclusivePrioritySharedMutex`, used by `n` threads from its construction on.
abbrev pub priority_mutex : Bool → ℕ → Mutex
priority_mutex spurious n = record {
  State = (s : System) × SharedMutex.Reach spurious (init n) s;
  Moves = λ l l'. SharedMutex.Step spurious l.0 l'.0;
  HoldsShared = λ l i. get_elem? l.0.pcs i ≡ some shared;
  HoldsAlone = λ l i. get_elem? l.0.pcs i ≡ some exclusive;
}

abbrev pub Reach-append :
    {b : Bool} {s t u : System}
    → SharedMutex.Reach b s t
    → SharedMutex.Reach b t u
    → SharedMutex.Reach b s u
Reach-append r SharedMutex.here = r
Reach-append r (SharedMutex.later q e) = SharedMutex.later (Reach-append r q) e

module _ {Q : Type 0} (b : Bool) (n : ℕ) (empty : Q) where
  -- A run of the mutex, while no loop is under way.
  pub lift :
      (s : Guarded (priority_mutex b n) Q) {u : System}
      → ((i : ℕ) → s.walks i ≡ none)
      → (q : SharedMutex.Reach b s.lock.0 u)
      → Reach empty s (record s { lock = (u, Reach-append s.lock.1 q) })
  lift s quiet SharedMutex.here = here
  lift s {u} quiet (SharedMutex.later q e) = later (lift s quiet q) (
      mutex (u, Reach-append s.lock.1 (SharedMutex.later q e)) e
        (λ i.
          subst (Keeps (priority_mutex b n) (u, Reach-append s.lock.1 (SharedMutex.later q e)) i)
            (sym (quiet i)) tt))

module _ {Q : Type 0} (b : Bool) (n : ℕ) (empty : Q) where
  -- Of any number of threads, two at least: from the start on, with any clients, one thread can take
  -- the mutex for `closeClient` while another begins a pass beside it, and the iterator of that pass
  -- dangles when the entry is erased.
  pub priority_mutex-dangling :
      (s : Guarded (priority_mutex b (suc (suc n))) Q) (fd : ℕ) (c : Channel Q)
      (cs : List (ℕ × Channel Q))
      → s.lock ≡ (init (suc (suc n)), SharedMutex.here)
      → ((i : ℕ) → s.walks i ≡ none)
      → s.clients ≡ (fd, c) ∷ cs
      → (t : Guarded (priority_mutex b (suc (suc n))) Q) × Reach empty s t
        × (v : Walk) × (t.walks 1 ≡ some v)
        × (v.locked ≡ true)
        × (v.it ≡ dangling)
  unfolding find
  priority_mutex-dangling s fd c cs start quiet clients =
      let own : get_elem? s.lock.0.pcs 0 ≡ some idle = ap (λ l. get_elem? l.0.pcs 0) start in
      let (w, r, held, alone, others) =
        lock_free b s.lock.0 0 own (ap (λ l. l.0.lock.mutex) start)
          (ap (λ l. l.0.lock.shared_count) start) (ap (λ l. l.0.lock.exclusive_count) start) in
      let other : get_elem? w.pcs 1 ≡ some idle =
        others 1 (λ e. omega (arith, e)) ∙ ap (λ l. get_elem? l.0.pcs 1) start in
      let (u, q, still, joined) =
        reader_joins_writer b w 0 1 alone other
          (ap (λ l. l.exclusive_requests) held ∙ ap (λ l. l.0.lock.exclusive_requests) start) in
      let t : Guarded (priority_mutex b (suc (suc n))) Q = record s {
        lock = (u, Reach-append s.lock.1 (Reach-append r q));
      } in
      (
        _,
        later
            (later (lift b (suc (suc n)) empty s quiet (Reach-append r q))
              (start_pass 1 (quiet 1) joined))
            (close 0 fd c still (ap (find fd) clients ∙ rw (==-refl fd) refl)),
        _,
        refl,
        refl,
        ap (λ cs. erased fd (first (keys cs))) clients ∙ rw (==-refl fd) refl,
      )
