-- ===== src/Message/Heap/Runs.antt =====
-- Whole programs of messages: on memory, and on values alone (shared/Message.hpp).
use socket_lib_linux.Prelude.{
  ℕ, ◌≡◌, refl, ap, ◌∙◌, subst, inl, inr, List, [], ◌∷◌, Option, none, some, ◌>>=◌, arith,
  Bool-cases, Option-cases, ◌==◌, if◌then◌else◌,
}
use socket_lib_linux.Message.{copy, of_bytes}
use socket_lib_linux.Message.Heap.{Memory, put, construct, copy_construct, assign, move, destroy}
use socket_lib_linux.Message.Heap.Owned.{IsOwned}
use socket_lib_linux.Message.Heap.View.{Values, view}
use socket_lib_linux.Message.Heap.Refines.{
  Agrees, construct-Agrees, copy_construct-Agrees, assign-Agrees, move-Agrees, destroy-Agrees,
}

-- What a program does with its messages, by the addresses of the objects.
pub data Op : Type 0 where
  new_message : ℕ → List ℕ → Op
  new_copy copy_to move_to : ℕ → ℕ → Op
  end_message : ℕ → Op

unfoldable pub exec : Op → Memory → Option Memory
exec (new_message this bytes) s = construct this bytes s
exec (new_copy this other) s = copy_construct this other s
exec (copy_to this other) s = assign this other s
exec (move_to this other) s = move this other s
exec (end_message this) s = destroy this s

-- The same on values. `none`: an address is used where there is no message, or taken where there is.
unfoldable pub value : Op → Values → Option Values
value (new_message this bytes) m = elim (m this) [
  | none ↦ some (put m this (some (of_bytes bytes)))
  | some _ ↦ none
]
value (new_copy this other) m = elim (m this) [
  | none ↦ m other >>= λ o. some (put m this (some (copy o)))
  | some _ ↦ none
]
value (copy_to this other) m =
    m this >>= λ _. m other >>= λ o. some (if other == this then m else put m this (some (copy o)))
value (move_to this other) m = m this >>= λ _. m other >>= λ o.
    some (
      if other == this then m else put (put m this (some o)) other (some (record o { buf = none })))
value (end_message this) m = m this >>= λ _. some (put m this none)

unfoldable pub run : List Op → Memory → Option Memory
run [] s = some s
run (op ∷ ops) s = exec op s >>= run ops

unfoldable pub replay : List Op → Values → Option Values
replay [] m = some m
replay (op ∷ ops) m = value op m >>= replay ops

exec-Agrees :
    (op : Op) (s : Memory) (m : Values)
    → IsOwned s
    → value op (view s) ≡ some m
    → Agrees s (exec op s) m
unfolding exec value assign move
exec-Agrees (new_message this bytes) s m v e = elim (Option-cases (s.objects this)) [
  | inl free_here ↦ subst (Agrees s _) (ground arith) (construct-Agrees s this bytes free_here v)
  | inr (a, here) ↦ absurd (ground arith)
]
exec-Agrees (new_copy this other) s m v e = elim (Option-cases (s.objects this)) [
  | inl free_here ↦ elim (Option-cases (s.objects other)) [
    | inl missing ↦ absurd (ground arith)
    | inr (o, there) ↦
        subst (Agrees s _) (ground arith) (copy_construct-Agrees s this other o free_here there v)
  ]
  | inr (a, here) ↦ absurd (ground arith)
]
exec-Agrees (copy_to this other) s m v e = elim (Option-cases (s.objects this)) [
  | inl missing ↦ absurd (ground arith)
  | inr (a, here) ↦ elim (Option-cases (s.objects other)) [
    | inl missing ↦ absurd (ground arith)
    | inr (o, there) ↦ elim (Bool-cases (other == this)) [
      | inl same ↦ (s, ground arith, v, ground arith)
      | inr n ↦
          subst (Agrees s _) (ground arith)
            (assign-Agrees s this other a o here there (ground arith) v)
    ]
  ]
]
exec-Agrees (move_to this other) s m v e = elim (Option-cases (s.objects this)) [
  | inl missing ↦ absurd (ground arith)
  | inr (a, here) ↦ elim (Option-cases (s.objects other)) [
    | inl missing ↦ absurd (ground arith)
    | inr (o, there) ↦ elim (Bool-cases (other == this)) [
      | inl same ↦ (s, ground arith, v, ground arith)
      | inr n ↦
          subst (Agrees s _) (ground arith)
            (move-Agrees s this other a o here there (ground arith) v)
    ]
  ]
]
exec-Agrees (end_message this) s m v e = elim (Option-cases (s.objects this)) [
  | inl missing ↦ absurd (ground arith)
  | inr (a, here) ↦ subst (Agrees s _) (ground arith) (destroy-Agrees s this a here v)
]

-- A program that never uses an address without a message, nor takes one that is in use, runs on memory
-- with no fault: it never frees a block twice, never reads a block that is gone, and ends with each
-- block owned by one message; and its messages are those that the values alone give.
pub run_refines :
    (ops : List Op) (s : Memory) (m : Values)
    → IsOwned s
    → replay ops (view s) ≡ some m
    → (t : Memory) × (run ops s ≡ some t) × IsOwned t × (view t ≡ m)
unfolding run replay
run_refines [] s m v e = (s, refl, v, ground arith)
run_refines (op ∷ ops) s m v e = elim (Option-cases (value op (view s))) [
  | inl fault ↦ absurd (ground arith)
  | inr (n, step) ↦
      (let (u, done, owned, same) = exec-Agrees op s n v step in
        let (t, rest, owned', same') =
          run_refines ops u m owned (ap (replay ops) same ∙ ground arith) in
        (t, rw done rest, owned', same'))
]

-- When the last message ends, every block is given back.
pub no_blocks_left :
    (s : Memory) → IsOwned s → ((i : ℕ) → s.objects i ≡ none) → (p : ℕ) → s.blocks p ≡ none
no_blocks_left s v ended p = elim (Option-cases (s.blocks p)) [
  | inl gone ↦ gone
  | inr (b, e) ↦ (let (i, o, f, g) = v.no_leak p b e in absurd (ground (arith, ended i)))
]
