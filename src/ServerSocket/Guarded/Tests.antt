-- ===== src/ServerSocket/Guarded/Tests.antt =====
-- Concrete runs of the threads of a server over its map of clients (src/ServerSocket.cpp).
use socket_lib_linux.Prelude.{
  ℕ, zero, suc, ◌≡◌, ◌≢◌, refl, true, false, List, [], ◌∷◌, none, some, get_elem?, arith,
}
use socket_lib_linux.Message.{Message}
use socket_lib_linux.UnorderedMap.{find, emplace}
use socket_lib_linux.SharedMutex.{
  System, Pc, Step, init, act, notify_none, shared_cv, lock, lock_shared, next, idle, want,
  want_shared, want_count, want_drop, want_enter, want_leave, exclusive, drop_count, choose,
  notify_shared, shared_asleep, slow, leave, fast, shared, exclusive_asleep,
}
use socket_lib_linux.SharedMutex.Starvation.{Outside}
use socket_lib_linux.SharedMutex
use socket_lib_linux.Channel.{Channel, create, is_active}
use socket_lib_linux.ServerSocket.Clients.{IsKeyed}
use socket_lib_linux.ServerSocket.Guarded.{
  Mutex, StayApart, Keeps, past_end, dangling, Walk, walk, Guarded, mutex, start_pass, advance,
  call_over, finish, connect, Reach, here, later,
}
use socket_lib_linux.ServerSocket.Guarded.Order.{AllVisit, NoneDangles, Reach-AllVisit}
use socket_lib_linux.ServerSocket.Guarded.Dangles.{
  Reach-append, priority_mutex, priority_mutex-dangling,
}
use socket_lib_linux.ServerSocket.Guarded.Stalls.{exclusive_stalls}

abbrev Queue : Type 0
Queue = List Message

abbrev channel : ℕ → Channel (List Message)
channel fd = record {
  client_descriptor = fd;
  active = true;
  write_thread = 0;
  incoming = [];
  write_queue = [];
  wire = [];
}

abbrev starting : Guarded (priority_mutex false 2) (List Message)
starting = record {
  lock = (init 2, SharedMutex.here);
  active = true;
  clients = (4, channel 4) ∷ [];
  walks = λ i. none;
  over = [];
}

-- A client is there. Thread 0 takes the mutex, adds a second client and gives the mutex back; then
-- thread 1 makes a pass over both.
abbrev Priority : Mutex
Priority = priority_mutex false 2

abbrev append : {s t u : Guarded Priority Queue} → Reach [] s t → Reach [] t u → Reach [] s u
append r here = r
append r (later q e) = later (append r q) e

abbrev during :
    (s : Guarded Priority Queue) {u : System}
    → ((i : ℕ) (l : Priority.State) → Keeps Priority l i (s.walks i))
    → (q : SharedMutex.Reach false s.lock.0 u)
    → Reach [] s (record s { lock = (u, Reach-append s.lock.1 q) })
during s quiet SharedMutex.here = here
during s {u} quiet (SharedMutex.later q e) =
    let l : Priority.State = (u, Reach-append s.lock.1 (SharedMutex.later q e)) in
    later (during s quiet q) (mutex l e (λ i. quiet i l))

-- `lock` by thread 0
abbrev Taken : Type 0
Taken = (u : System) × SharedMutex.Reach false (init 2) u

taken : Taken
unfolding next
taken = (
  _,
  SharedMutex.later
      (SharedMutex.later
        (SharedMutex.later
          (SharedMutex.later
            (SharedMutex.later
              (SharedMutex.later
                (SharedMutex.later SharedMutex.here (act 0 lock idle want _ refl refl))
                (act 0 lock want want_shared _ refl refl))
              (act 0 lock want_shared want_count _ refl refl))
            (act 0 lock want_count want_drop _ refl refl))
          (act 0 lock want_drop want_enter _ refl refl))
        (act 0 lock want_enter want_leave _ refl refl))
      (act 0 lock want_leave exclusive _ refl refl),
)

not_asleep : (j : ℕ) → get_elem? (notify_shared ∷ idle ∷ []) j ≢ some shared_asleep
not_asleep zero e = cc
not_asleep (suc zero) e = cc
not_asleep (suc (suc j)) e = cc

-- `unlock` by thread 0, and `lock_shared` by thread 1
given_back : (u : System) × SharedMutex.Reach false taken.0 u
unfolding next taken
given_back = (
  _,
  SharedMutex.later
      (SharedMutex.later
        (SharedMutex.later
          (SharedMutex.later
            (SharedMutex.later
              (SharedMutex.later
                (SharedMutex.later SharedMutex.here (act 0 lock exclusive drop_count _ refl refl))
                (act 0 lock drop_count choose _ refl refl))
              (act 0 lock choose notify_shared _ refl refl))
            (notify_none 0 notify_shared shared_asleep slow shared_cv refl not_asleep))
          (act 0 lock leave idle _ refl refl))
        (act 1 lock_shared idle fast _ refl refl))
      (act 1 lock_shared fast shared _ refl refl),
)

abbrev Ran : Type 0
Ran =
    (t : Guarded Priority Queue) × (r : Reach [] starting t) × (t.over
      ≡ record (walk true (4 ∷ 9 ∷ [])) { it = past_end; visited = (4, true) ∷ (9, true) ∷ [] }
        ∷ [])

writer_then_pass : Ran
unfolding find emplace create is_active next taken given_back
writer_then_pass =
    let added : Reach [] starting _ =
      later (during starting (λ i l. tt) taken.1) (connect 0 9 false refl) in
    (
      _,
      later
          (later
            (later
              (later
                (later
                  (later (append added (during _ (λ i l. tt) given_back.1))
                    (start_pass 1 refl refl))
                  (advance 1 4 _ (channel 4) refl refl refl refl))
                (call_over 1 4 _ refl refl))
              (advance 1 9 _ (channel 9) refl refl refl refl))
            (call_over 1 9 _ refl refl))
          (finish 1 _ refl refl refl),
      refl,
    )

no_reader :
    (p : Pc)
    → p ≢ shared
    → (i j : ℕ) → get_elem? (p ∷ idle ∷ []) i ≡ some exclusive
    → get_elem? (p ∷ idle ∷ []) j ≡ some shared
    → ⊥
no_reader p apart i zero w h = apart (ground arith)
no_reader p apart i (suc zero) w h = cc
no_reader p apart i (suc (suc j)) w h = cc

no_writer :
    (p : Pc)
    → p ≢ exclusive
    → (i j : ℕ) → get_elem? (idle ∷ p ∷ []) i ≡ some exclusive
    → get_elem? (idle ∷ p ∷ []) j ≡ some shared
    → ⊥
no_writer p apart zero j w h = cc
no_writer p apart (suc zero) j w h = apart (ground arith)
no_writer p apart (suc (suc i)) j w h = cc

always_apart : StayApart writer_then_pass.1
unfolding writer_then_pass taken given_back
always_apart = (
  (
    (
      (
        (
          (
            (
              (
                (
                  (
                    (
                      (
                        (
                          (
                            (
                              (
                                (
                                  (
                                    (
                                      ((tt, no_reader idle (λ e. cc)), no_reader want (λ e. cc)),
                                      no_reader want_shared (λ e. cc),
                                    ),
                                    no_reader want_count (λ e. cc),
                                  ),
                                  no_reader want_drop (λ e. cc),
                                ),
                                no_reader want_enter (λ e. cc),
                              ),
                              no_reader want_leave (λ e. cc),
                            ),
                            no_reader exclusive (λ e. cc),
                          ),
                          no_reader exclusive (λ e. cc),
                        ),
                        no_reader drop_count (λ e. cc),
                      ),
                      no_reader choose (λ e. cc),
                    ),
                    no_reader notify_shared (λ e. cc),
                  ),
                  no_reader leave (λ e. cc),
                ),
                no_reader idle (λ e. cc),
              ),
              no_writer fast (λ e. cc),
            ),
            no_writer shared (λ e. cc),
          ),
          no_writer shared (λ e. cc),
        ),
        no_writer shared (λ e. cc),
      ),
      no_writer shared (λ e. cc),
    ),
    no_writer shared (λ e. cc),
  ),
  no_writer shared (λ e. cc),
)

Reach-AllVisit_example :
    AllVisit writer_then_pass.0.over
    × NoneDangles writer_then_pass.0
    × IsKeyed writer_then_pass.0.clients
unfolding writer_then_pass find
Reach-AllVisit_example =
    Reach-AllVisit [] starting writer_then_pass.0 (refl, refl, tt) (λ i. refl) refl
      writer_then_pass.1 always_apart

priority_mutex-dangling_example :
    (t : Guarded (priority_mutex false 2) (List Message)) × Reach [] starting t
    × (v : Walk) × (t.walks 1 ≡ some v)
    × (v.locked ≡ true)
    × (v.it ≡ dangling)
priority_mutex-dangling_example =
    priority_mutex-dangling false 0 [] starting 4 (channel 4) [] refl (λ i. refl) refl

exclusive_stalls_example :
    (t : Guarded (priority_mutex false 2) (List Message)) × Reach [] starting t
    × (t.walks 1 ≡ some (walk true (4 ∷ [])))
    × ((u : Guarded (priority_mutex false 2) (List Message))
        → Reach [] t u
        → (get_elem? u.lock.0.pcs 0 ≡ some exclusive_asleep)
          × ((i : ℕ) (v : Guarded (priority_mutex false 2) (List Message))
              → Outside u.lock.0.pcs i
              → Reach [] u v
              → get_elem? v.lock.0.pcs i ≢ some shared))
exclusive_stalls_example = exclusive_stalls 0 [] starting refl (λ i. refl)
