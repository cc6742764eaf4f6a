-- ===== src/Message/Heap/Refines.antt =====
-- The operations on memory do what they say on values (shared/Message.hpp).
use socket_lib_linux.Prelude.{
  ℕ, ◌≡◌, ◌≢◌, refl, ap, ◌∙◌, sym, inl, inr, List, [], ◌∷◌, Option, none, some, arith, length, take,
  take-eq_of_le,
}
use socket_lib_linux.Message.{copy, of_bytes}
use socket_lib_linux.Message.Heap.{
  Object, Memory, empty, put, init, set_object, allocate, construct, copy_construct, assign, move,
  destroy,
}
use socket_lib_linux.Message.Heap.Owned.{
  IsOwned, put-put, empty-IsOwned, allocate-IsOwned, freed, free_lem, ptr_ne, release-IsOwned,
  transfer-IsOwned,
}
use socket_lib_linux.Message.Heap.View.{
  Values, view, view-empty, view-allocate, view-release, view-transfer, init-set_object,
}

-- An operation on memory that has the same result as one on values, and keeps the ownership.
abbrev pub Agrees : Memory → Option Memory → Values → Type 0
Agrees s r m = (t : Memory) × (r ≡ some t) × IsOwned t × (view t ≡ m)

-- `init` from the pointer of an object that is there, at a free address, makes a copy.
init-Agrees :
    (s : Memory) (this other : ℕ) (o : Object)
    → s.objects this ≡ none
    → s.objects other ≡ some o
    → IsOwned s
    → Agrees s
        (init this o.ptr o.len s)
        (put (view s) this (some (copy (record { len = o.len; buf = s.blocks o.ptr }))))
unfolding init copy
init-Agrees s this other o free_here there v = elim (v.owns other o there) [
  | inl z ↦ (
    set_object this (some empty) s,
    ground arith,
    empty-IsOwned s this 0 free_here v,
    view-empty s this 0 v ∙ ap (λ m. put (view s) this (some m)) (ground (arith, v.null)),
  )
  | inr (b, h, l, pos) ↦
      (let whole : take o.len b ≡ b = take-eq_of_le o.len b (omega arith) in
        (
          allocate this b s,
          ground (arith, v.null, whole),
          allocate-IsOwned s this b free_here (omega arith) v,
          view-allocate s this b free_here v
              ∙ ap (λ m. put (view s) this (some m)) (ground (arith, whole)),
        ))
]

pub construct-Agrees :
    (s : Memory) (this : ℕ) (bytes : List ℕ)
    → s.objects this ≡ none
    → IsOwned s
    → Agrees s (construct this bytes s) (put (view s) this (some (of_bytes bytes)))
unfolding construct of_bytes
construct-Agrees s this [] free_here v = (
  set_object this (some empty) s,
  ground arith,
  empty-IsOwned s this 0 free_here v,
  view-empty s this 0 v,
)
construct-Agrees s this (b ∷ bytes) free_here v = (
  allocate this (b ∷ bytes) s,
  ground arith,
  allocate-IsOwned s this (b ∷ bytes) free_here (omega arith) v,
  view-allocate s this (b ∷ bytes) free_here v
      ∙ ap (λ m. put (view s) this (some m))
          (ground (arith, take-eq_of_le (length (b ∷ bytes)) (b ∷ bytes))),
)

pub copy_construct-Agrees :
    (s : Memory) (this other : ℕ) (o : Object)
    → s.objects this ≡ none
    → s.objects other ≡ some o
    → IsOwned s
    → Agrees s
        (copy_construct this other s)
        (put (view s) this (some (copy (record { len = o.len; buf = s.blocks o.ptr }))))
unfolding copy_construct
copy_construct-Agrees s this other o free_here there v =
    rw (free_here, there, copy_construct) (init-Agrees s this other o free_here there v)

pub destroy-Agrees :
    (s : Memory) (this : ℕ) (a : Object)
    → s.objects this ≡ some a
    → IsOwned s
    → Agrees s (destroy this s) (put (view s) this none)
unfolding destroy
destroy-Agrees s this a here v = (
  set_object this none (freed a.ptr s),
  rw (here, free_lem s this a v here, destroy) refl,
  release-IsOwned s this a here v,
  view-release s this a here v,
)

-- The block of another object outlives a release.
kept_block :
    (s : Memory) (i j : ℕ) (a o : Object)
    → IsOwned s
    → s.objects i ≡ some a
    → s.objects j ≡ some o
    → i ≢ j
    → (freed a.ptr s).blocks o.ptr ≡ s.blocks o.ptr
kept_block s i j a o v here there n = ground (arith, ptr_ne s i j a o v here there)

objects-freed : (p : ℕ) (s : Memory) → (freed p s).objects ≡ s.objects
objects-freed p s = ground arith

assign_lem :
    (s : Memory) (this other : ℕ) (a o : Object)
    → s.objects this ≡ some a
    → s.objects other ≡ some o
    → other ≢ this
    → IsOwned s
    → assign this other s ≡ init this o.ptr o.len (freed a.ptr s)
unfolding assign
assign_lem s this other a o here there n v = ground (arith, free_lem s this a v here)

move_lem :
    (s : Memory) (this other : ℕ) (a o : Object)
    → s.objects this ≡ some a
    → s.objects other ≡ some o
    → other ≢ this
    → IsOwned s
    → move this other s
      ≡ some (
          set_object other (some (record o { ptr = 0 })) (set_object this (some o) (freed a.ptr s)))
unfolding move
move_lem s this other a o here there n v = ground (arith, free_lem s this a v here)

pub assign-Agrees :
    (s : Memory) (this other : ℕ) (a o : Object)
    → s.objects this ≡ some a
    → s.objects other ≡ some o
    → other ≢ this
    → IsOwned s
    → Agrees s
        (assign this other s)
        (put (view s) this (some (copy (record { len = o.len; buf = s.blocks o.ptr }))))
assign-Agrees s this other a o here there n v =
    let s' : Memory = set_object this none (freed a.ptr s) in
    let v' : IsOwned s' = release-IsOwned s this a here v in
    let there' : s'.objects other ≡ some o = ground (arith, objects-freed a.ptr s) in
    let same : s'.blocks o.ptr ≡ s.blocks o.ptr =
      kept_block s this other a o v here there (λ e. n (sym e)) in
    let (t, r, w, e) = init-Agrees s' this other o (ground arith) there' v' in
    (
      t,
      assign_lem s this other a o here there n v
          ∙ sym (init-set_object this o.ptr o.len none (freed a.ptr s))
          ∙ r,
      w,
      e
          ∙ ap (λ f. put f this (some (copy (record { len = o.len; buf = s'.blocks o.ptr }))))
              (view-release s this a here v)
          ∙ put-put (view s) this none _
          ∙ ap (λ b. put (view s) this (some (copy (record { len = o.len; buf = b })))) same,
    )

pub move-Agrees :
    (s : Memory) (this other : ℕ) (a o : Object)
    → s.objects this ≡ some a
    → s.objects other ≡ some o
    → other ≢ this
    → IsOwned s
    → Agrees s (move this other s) (
        put
          (put (view s) this (some (record { len = o.len; buf = s.blocks o.ptr })))
          other
          (some (record { len = o.len; buf = none })))
move-Agrees s this other a o here there n v =
    let s' : Memory = set_object this none (freed a.ptr s) in
    let v' : IsOwned s' = release-IsOwned s this a here v in
    let there' : s'.objects other ≡ some o = ground (arith, objects-freed a.ptr s) in
    let same : s'.blocks o.ptr ≡ s.blocks o.ptr =
      kept_block s this other a o v here there (λ e. n (sym e)) in
    (
      set_object other (some (record o { ptr = 0 })) (set_object this (some o) s'),
      move_lem s this other a o here there n v
          ∙ ap
              (λ f.
                some (set_object other (some (record o { ptr = 0 })) (record s' { objects = f })))
              (sym (put-put (freed a.ptr s).objects this none (some o))),
      transfer-IsOwned s' this other o (ground arith) there' v',
      view-transfer s' this other o there' v'
          ∙ ap
              (λ f.
                put (put f this (some (record { len = o.len; buf = s'.blocks o.ptr }))) other
                  (some (record { len = o.len; buf = none })))
              (view-release s this a here v)
          ∙ ap (λ f. put f other (some (record { len = o.len; buf = none })))
              (put-put (view s) this none _)
          ∙ ap
              (λ b.
                put (put (view s) this (some (record { len = o.len; buf = b }))) other
                  (some (record { len = o.len; buf = none })))
              same,
    )
