-- ===== src/SharedMutex/Progress.antt =====
-- An `ExclusivePrioritySharedMutex` that no one holds is taken at once, and given back.
use socket_lib_linux.Prelude.{
  ℕ, zero, suc, ◌+◌, ◌-◌, ◌≡◌, ◌≢◌, refl, ap, ◌∙◌, sym, ◌⊎◌, inl, inr, Bool, true, false, List, [],
  ◌∷◌, some, arith, get_elem?, set, get_elem?-set_ne, get_elem?-set_self,
}
use native.Mathlib.Decide.{ℕ_discrete}
use socket_lib_linux.SharedMutex.Invariant.{Reach-Inv}
use socket_lib_linux.SharedMutex.{
  Lock, Pc, idle, want, want_shared, want_count, want_drop, want_enter, want_leave, exclusive,
  drop_count, choose, notify_shared, leave, slow, shared_asleep, shared_cv, Call, lock, next,
  System, act, notify, notify_none, init, Reach, here, later,
}

-- The thread `i` alone has moved on from `s`, to `p`, with the lock at `l`.
abbrev pub Alone : Bool → System → ℕ → Lock → Pc → Type 0
Alone b s i l p =
    (t : System) × Reach b s t
    × (t.lock ≡ l)
    × (get_elem? t.pcs i ≡ some p)
    × ((j : ℕ) → i ≢ j → get_elem? t.pcs j ≡ get_elem? s.pcs j)

begin : (b : Bool) (s : System) (i : ℕ) (p : Pc) → get_elem? s.pcs i ≡ some p → Alone b s i s.lock p
begin b s i p h = (s, here, refl, h, λ j n. refl)

go_on :
    (b : Bool) (s : System) (i : ℕ) (c : Call) (l l' : Lock) (p p' : Pc)
    → next c l p ≡ some (l', p')
    → Alone b s i l p
    → Alone b s i l' p'
go_on b s i c l l' p p' e (t, r, same, h, others) = (
  record { lock = l'; pcs = set t.pcs i p' },
  later r (act i c p p' l' h (ap (λ k. next c k p) same ∙ e)),
  refl,
  get_elem?-set_self t.pcs i p' p h,
  λ j n. get_elem?-set_ne t.pcs i j p' n ∙ others j n,
)

-- While `mutex_` is free and no thread is counted as holding the lock, shared or alone, an idle
-- thread that calls `lock` can come to hold it alone with no help from the others, whose state does
-- not change; of the counters only exclusiveCount_ is changed then, and is 1.
pub lock_free :
    (b : Bool) (s : System) (i : ℕ)
    → get_elem? s.pcs i ≡ some idle
    → s.lock.mutex ≡ false
    → s.lock.shared_count ≡ 0
    → s.lock.exclusive_count ≡ 0
    → Alone b s i (record s.lock { exclusive_count = 1 }) exclusive
unfolding next
lock_free b s i h free readers writers =
    let l1 : Lock = record s.lock { exclusive_requests = s.lock.exclusive_requests + 1 } in
    let l2 : Lock = record l1 { mutex = true } in
    let l5 : Lock = record s.lock { mutex = true } in
    let l6 : Lock = record l5 { exclusive_count = 1 } in
    go_on b s i lock l6 (record s.lock { exclusive_count = 1 }) want_leave exclusive (ground arith)
      (go_on b s i lock l5 l6 want_enter want_leave (ground arith) (
        go_on b s i lock l2 l5 want_drop want_enter (ground arith) (
          go_on b s i lock l2 l2 want_count want_drop (ground arith) (
            go_on b s i lock l2 l2 want_shared want_count (ground arith) (
              go_on b s i lock l1 l2 want want_shared (ground arith)
                (go_on b s i lock s.lock l1 idle want (ground arith) (begin b s i idle h)))))))

asleep_cases : (p : Pc) → (p ≡ shared_asleep) ⊎ (p ≢ shared_asleep)
asleep_cases shared_asleep = inl refl
asleep_cases p = inr (λ e. cc)

no_sleeper :
    (p : Pc) (ps : List Pc)
    → p ≢ shared_asleep
    → ((j : ℕ) → get_elem? ps j ≢ some shared_asleep)
    → (j : ℕ) → get_elem? (p ∷ ps) j ≢ some shared_asleep
no_sleeper p ps n h zero e = ground arith
no_sleeper p ps n h (suc j) e = h j e

sleeper :
    (ps : List Pc)
    → ((j : ℕ) × (get_elem? ps j ≡ some shared_asleep))
      ⊎ ((j : ℕ) → get_elem? ps j ≢ some shared_asleep)
sleeper [] = inr (λ j e. cc)
sleeper (p ∷ ps) = elim (asleep_cases p) [
  | inl e ↦ inl (0, ap some e)
  | inr n ↦ elim (sleeper ps) [
    | inl (j, h) ↦ inl (suc j, h)
    | inr none_asleep ↦ inr (no_sleeper p ps n none_asleep)
  ]
]

-- How the others stand after `unlock`: as before, where no reader waits on sharedCv_, and otherwise
-- with one such reader woken.
abbrev pub OneWoken : ℕ → List Pc → List Pc → Type 0
OneWoken i before after =
    (((j : ℕ) → get_elem? before j ≢ some shared_asleep)
      × ((j : ℕ) → i ≢ j → get_elem? after j ≡ get_elem? before j))
    ⊎ ((k : ℕ) × (get_elem? before k ≡ some shared_asleep)
        × (get_elem? after k ≡ some slow)
        × ((j : ℕ) → i ≢ j → k ≢ j → get_elem? after j ≡ get_elem? before j))

-- `unlock` up to the call of notify_one.
to_notify :
    (b : Bool) (s : System) (i : ℕ)
    → get_elem? s.pcs i ≡ some exclusive
    → s.lock.mutex ≡ false
    → s.lock.exclusive_waiting ≡ 0
    → Alone b s i
        (record s.lock { exclusive_count = s.lock.exclusive_count - 1; mutex = true })
        notify_shared
unfolding next
to_notify b s i h free none_counted =
    let l1 : Lock = record s.lock { mutex = true } in
    let l2 : Lock = record l1 { exclusive_count = s.lock.exclusive_count - 1 } in
    go_on b s i lock l2 l2 choose notify_shared (ground arith) (
      go_on b s i lock l1 l2 drop_count choose (ground arith)
        (go_on b s i lock s.lock l1 exclusive drop_count (ground arith) (begin b s i exclusive h)))

-- The call of notify_one in `unlock`.
notified :
    (b : Bool) (s : System) (i : ℕ) (l : Lock)
    → get_elem? s.pcs i ≡ some exclusive
    → Alone b s i l notify_shared
    → (u : System) × Reach b s u
      × (u.lock ≡ l)
      × (get_elem? u.pcs i ≡ some leave)
      × OneWoken i s.pcs u.pcs
notified b s i l own (t, r, same, h, others) = elim (sleeper t.pcs) [
  | inl (k, asleep) ↦
      (let apart : i ≢ k = λ e. ground arith in
        (
          record { lock = t.lock; pcs = set (set t.pcs i leave) k slow },
          later r (notify i k notify_shared shared_asleep slow shared_cv h asleep),
          same,
          get_elem?-set_ne (set t.pcs i leave) k i slow (λ e. apart (sym e))
              ∙ get_elem?-set_self t.pcs i leave notify_shared h,
          inr (
            k,
            sym (others k apart) ∙ asleep,
            get_elem?-set_self (set t.pcs i leave) k slow shared_asleep
                (get_elem?-set_ne t.pcs i k leave apart ∙ asleep),
            λ j n m.
                get_elem?-set_ne (set t.pcs i leave) k j slow m
                ∙ get_elem?-set_ne t.pcs i j leave n
                ∙ others j n,
          ),
        ))
  | inr none_asleep ↦ (
    record { lock = t.lock; pcs = set t.pcs i leave },
    later r (notify_none i notify_shared shared_asleep slow shared_cv h none_asleep),
    same,
    get_elem?-set_self t.pcs i leave notify_shared h,
    inl (
      λ j e. elim (ℕ_discrete i j) [
        | yes own_index ↦ ground arith
        | no n ↦ none_asleep j (others j n ∙ e)
      ],
      λ j n. get_elem?-set_ne t.pcs i j leave n ∙ others j n,
    ),
  )
]

OneWoken-set :
    (i : ℕ) (before after : List Pc)
    → get_elem? before i ≡ some exclusive
    → OneWoken i before after
    → OneWoken i before (set after i idle)
OneWoken-set i before after own (inl (quiet, same)) =
    inl (quiet, λ j n. get_elem?-set_ne after i j idle n ∙ same j n)
OneWoken-set i before after own (inr (k, asleep, woken, same)) =
    let apart : i ≢ k = λ e. ground arith in
    inr (
      k,
      asleep,
      get_elem?-set_ne after i k idle apart ∙ woken,
      λ j n m. get_elem?-set_ne after i j idle n ∙ same j n m,
    )

-- In a reachable state, a thread that holds the lock alone and calls `unlock` while `mutex_` is free can
-- give it back with no help from the others: it is idle then, exclusiveCount_ is one less, and one
-- reader that waits on sharedCv_ is woken, if there is one.
pub unlock_wakes :
    {b : Bool} (n : ℕ) {s : System} (i : ℕ)
    → Reach b (init n) s
    → get_elem? s.pcs i ≡ some exclusive
    → s.lock.mutex ≡ false
    → (u : System) × Reach b s u
      × (u.lock ≡ record s.lock { exclusive_count = s.lock.exclusive_count - 1 })
      × (get_elem? u.pcs i ≡ some idle)
      × OneWoken i s.pcs u.pcs
unfolding next
unlock_wakes {b} n {s} i reached own free =
    let l : Lock = record s.lock { exclusive_count = s.lock.exclusive_count - 1; mutex = true } in
    let (u, r, same, h, woken) =
      notified b s i l own (to_notify b s i own free (Reach-Inv n reached).waiting) in
    let l' : Lock = record s.lock { exclusive_count = s.lock.exclusive_count - 1 } in
    (
      record { lock = l'; pcs = set u.pcs i idle },
      later r (act i lock leave idle l' h (ap (λ k. next lock k leave) same ∙ ground arith)),
      refl,
      get_elem?-set_self u.pcs i idle leave h,
      OneWoken-set i s.pcs u.pcs own woken,
    )
