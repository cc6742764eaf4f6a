-- ===== src/Message/Heap/View.antt =====
-- The values that a memory holds, and what changes of the memory do to them (shared/Message.hpp).
use mathlib.Core.Path.{fun_ext}
use socket_lib_linux.Prelude.{
  ℕ, ◌≡◌, inl, inr, List, Option, none, some, arith, Bool-cases, Option-cases, length, ◌==◌,
}
use socket_lib_linux.Message.{Message}
use socket_lib_linux.Message.Heap.{Object, Memory, empty, put, init, set_object, allocate}
use socket_lib_linux.Message.Heap.Owned.{IsOwned, put-put, freed, ptr_ne, ptr_below}

-- The message at each address, with the content of its block for the pointer.
abbrev pub Values : Type 0
Values = ℕ → Option Message

abbrev pub shown : (ℕ → Option (List ℕ)) → Option Object → Option Message
shown blocks none = none
shown blocks (some o) = some (record { len = o.len; buf = blocks o.ptr })

abbrev pub view : Memory → Values
view s i = shown s.blocks (s.objects i)

pub view-empty :
    (s : Memory) (i n : ℕ)
    → IsOwned s
    → view (set_object i (some (record { len = n; ptr = 0 })) s)
      ≡ put (view s) i (some (record { len = n; buf = none }))
view-empty s i n v = fun_ext (λ j. ground (arith, v.null))

pub view-allocate :
    (s : Memory) (i : ℕ) (bytes : List ℕ)
    → s.objects i ≡ none
    → IsOwned s
    → view (allocate i bytes s)
      ≡ put (view s) i (some (record { len = length bytes; buf = some bytes }))
view-allocate s i bytes free_here v = fun_ext (λ j. elim (Bool-cases (i == j)) [
  | inl same ↦ ground arith
  | inr n ↦ elim (Option-cases (s.objects j)) [
    | inl e ↦ ground arith
    | inr (o, e) ↦ ground (arith, ptr_below j o v e)
  ]
])

pub view-release :
    (s : Memory) (i : ℕ) (a : Object)
    → s.objects i ≡ some a
    → IsOwned s
    → view (set_object i none (freed a.ptr s)) ≡ put (view s) i none
view-release s i a here v = fun_ext (λ j. elim (Bool-cases (i == j)) [
  | inl same ↦ ground arith
  | inr n ↦ elim (Option-cases (s.objects j)) [
    | inl e ↦ ground arith
    | inr (o, e) ↦ ground (arith, ptr_ne s i j a o v here e)
  ]
])

pub view-transfer :
    (s : Memory) (i j : ℕ) (o : Object)
    → s.objects j ≡ some o
    → IsOwned s
    → view (set_object j (some (record o { ptr = 0 })) (set_object i (some o) s))
      ≡ put
          (put (view s) i (some (record { len = o.len; buf = s.blocks o.ptr })))
          j
          (some (record { len = o.len; buf = none }))
view-transfer s i j o there v = fun_ext (λ k. ground (arith, v.null))

pub init-set_object :
    (this p n : ℕ) (x : Option Object) (s : Memory)
    → init this p n (set_object this x s) ≡ init this p n s
unfolding init
init-set_object this p n x s = ground (arith, put-put s.objects this x (some empty))
