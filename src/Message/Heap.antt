-- ===== src/Message/Heap.antt =====
-- shared/Message.hpp with its memory: objects that hold a length and a pointer, and the blocks that
-- `new byte[len]` and `delete[]` take and give back.
pub mod Owned
pub mod View
pub mod Refines
pub mod Runs
mod Tests
use socket_lib_linux.Prelude.{
  ℕ, ◌+◌, Bool, ◌||◌, List, [], ◌∷◌, Option, none, some, ◌>>=◌, length, take, leb, ◌==◌,
  if◌then◌else◌,
}

-- `_len` and `_data`, with 0 for `nullptr`
pub record Object : Type 0 where
  pub len : ℕ
  pub ptr : ℕ

abbrev pub empty : Object
empty = record { len = 0; ptr = 0 }

-- The objects by address, the blocks by pointer, and the next pointer that `new` returns.
pub record Memory : Type 0 where
  pub objects : ℕ → Option Object
  pub blocks : ℕ → Option (List ℕ)
  pub next : ℕ

abbrev pub put : {A : Type 0} → (ℕ → A) → ℕ → A → ℕ → A
put f i a j = if i == j then a else f j

-- `delete[] p`; `none` is a pointer that `new` did not give or that is given back already.
unfoldable pub free : ℕ → Memory → Option Memory
free p s = if p == 0 then some s else elim (s.blocks p) [
  | none ↦ none
  | some _ ↦ some (record s { blocks = put s.blocks p none })
]

-- `memcpy(…, p, n)`; `none` where not all of it is there.
unfoldable pub read : ℕ → ℕ → Memory → Option (List ℕ)
read p n s = elim (s.blocks p) [
  | none ↦ none
  | some b ↦ if leb n (length b) then some (take n b) else none
]

abbrev pub set_object : ℕ → Option Object → Memory → Memory
set_object this o s = record s { objects = put s.objects this o }

-- `_len = len; _data = new byte[len]; memcpy(_data, data, len)`
abbrev pub allocate : ℕ → List ℕ → Memory → Memory
allocate this bytes s = record {
  objects = put s.objects this (some (record { len = length bytes; ptr = s.next }));
  blocks = put s.blocks s.next (some bytes);
  next = s.next + 1;
}

-- `init(const byte*, size_t)`, of a pointer
unfoldable pub init : ℕ → ℕ → ℕ → Memory → Option Memory
unfolding read
init this p n s =
    if p == 0 || n == 0
    then some (set_object this (some empty) s)
    else do bytes ← read p n s; some (allocate this bytes s)

-- The same of bytes that no message owns.
abbrev pub init_bytes : ℕ → List ℕ → Memory → Memory
init_bytes this [] s = set_object this (some empty) s
init_bytes this (b ∷ bytes) s = allocate this (b ∷ bytes) s

-- `Message(std::span<byte>)` and the like, of a new object at `this`. An address that is in use is a
-- mistake of the caller, here and below.
unfoldable pub construct : ℕ → List ℕ → Memory → Option Memory
construct this bytes s = elim (s.objects this) [
  | none ↦ some (init_bytes this bytes s)
  | some _ ↦ none
]

-- `Message(const Message&)`
unfoldable pub copy_construct : ℕ → ℕ → Memory → Option Memory
unfolding init
copy_construct this other s = elim (s.objects this) [
  | none ↦ do o ← s.objects other; init this o.ptr o.len s
  | some _ ↦ none
]

-- `operator=(const Message&)`
unfoldable pub assign : ℕ → ℕ → Memory → Option Memory
unfolding init free
assign this other s = do
  a ← s.objects this
  o ← s.objects other
  if other == this then some s else do s' ← free a.ptr s; init this o.ptr o.len s'

-- `move(Message&)`
unfoldable pub move : ℕ → ℕ → Memory → Option Memory
unfolding free
move this other s = do
  a ← s.objects this
  o ← s.objects other
  if other == this
      then some s
      else free a.ptr s >>= λ s'.
          some (set_object other (some (record o { ptr = 0 })) (set_object this (some o) s'))

-- `~Message`
unfoldable pub destroy : ℕ → Memory → Option Memory
unfolding free
destroy this s = do a ← s.objects this; s' ← free a.ptr s; some (set_object this none s')
