-- ===== src/Message/Laws.antt =====
-- Copies, moves and the bytes that a message shows (shared/Message.hpp).
use socket_lib_linux.Prelude.{
  ℕ, ◌≤◌, ◌<◌, ◌≡◌, refl, ◌≢◌, List, [], ◌∷◌, Option, none, some, arith, length, length-take,
  take-eq_of_le,
}
use socket_lib_linux.Message.{Message, empty, init, of_bytes, copy, Store, assign, move, to_span}

-- No buffer and no length, or a buffer of exactly that length, which is not 0.
abbrev pub IsValidBuf : ℕ → Option (List ℕ) → Type 0
IsValidBuf n none = n ≡ 0
IsValidBuf n (some b) = (length b ≡ n) × (0 < n)

abbrev pub IsValid : Message → Type 0
IsValid m = IsValidBuf m.len m.buf

pub init-IsValid : (src : List ℕ) (n : ℕ) → n ≤ length src → IsValid (init (some src) n)
unfolding init
init-IsValid src n h = ground (arith, length-take n src)

pub of_bytes-IsValid : (xs : List ℕ) → IsValid (of_bytes xs)
unfolding of_bytes
of_bytes-IsValid xs = init-IsValid xs (length xs) (omega arith)

-- A message made of bytes shows exactly those bytes.
pub to_span-of_bytes : (xs : List ℕ) → to_span (of_bytes xs) ≡ some xs
unfolding to_span of_bytes
to_span-of_bytes [] = refl
to_span-of_bytes (x ∷ xs) = ground (arith, take-eq_of_le (length xs) xs)

copy_buf : (n : ℕ) (o : Option (List ℕ)) → IsValidBuf n o → init o n ≡ record { len = n; buf = o }
unfolding init
copy_buf n none v = ground arith
copy_buf n (some b) v = ground (arith, take-eq_of_le n b)

-- A copy of a valid message is that message.
pub copy_valid : (m : Message) → IsValid m → copy m ≡ m
unfolding copy
copy_valid m v = copy_buf m.len m.buf v

-- A valid message can be read.
pub to_span-valid : (m : Message) → IsValid m → to_span m ≢ none
unfolding to_span
to_span-valid m v = ground arith

-- Copy assignment makes `this` equal to a valid `other` and touches no third object `j`; it leaves
-- `other` as it is, also if the two are one object.
pub assign_lem :
    (this other j : ℕ) (s : Store)
    → IsValid (s other)
    → j ≢ this
    → (assign this other s this ≡ s other)
      × (assign this other s other ≡ s other)
      × (assign this other s j ≡ s j)
unfolding assign
assign_lem this other j s v d = (
  ground (arith, copy_buf (s other).len (s other).buf v),
  ground (arith, copy_buf (s other).len (s other).buf v),
  ground arith,
)

-- A move hands the buffer over: `this` has the message that `other` had, `other` has no buffer and
-- still its length, and no third object `j` changes.
pub move_lem :
    (this other j : ℕ) (s : Store)
    → this ≢ other
    → j ≢ this
    → j ≢ other
    → (move this other s this ≡ s other)
      × (move this other s other ≡ record { len = (s other).len; buf = none })
      × (move this other s j ≡ s j)
unfolding move
move_lem this other j s d p q = (ground arith, ground arith, ground arith)

-- A move onto itself changes nothing.
pub move_self : (this : ℕ) (s : Store) → move this this s ≡ s
unfolding move
move_self this s = ground arith

-- After a move from a message that is not empty, the span of the source has a length and no memory,
-- while its copies are empty messages.
pub to_span-moved_from :
    (this other : ℕ) (s : Store)
    → this ≢ other
    → 0 < (s other).len
    → (to_span (move this other s other) ≡ none) × (copy (move this other s other) ≡ empty)
unfolding move to_span copy
to_span-moved_from this other s d p = ground arith
