-- ===== src/Message.antt =====
-- shared/Message.hpp: a byte message that owns its buffer.
pub mod Laws
pub mod Heap
mod Tests
use socket_lib_linux.Prelude.{
  ℕ, List, [], Option, none, some, Bool, true, false, length, take, ◌==◌, if◌then◌else◌,
}

-- `_len` and `_data`. The buffer that `_data` owns stands for the pointer; `none` is `nullptr`.
pub record Message : Type 0 where
  pub len : ℕ
  pub buf : Option (List ℕ)

-- `Message() = default`
abbrev pub empty : Message
empty = record { len = 0; buf = none }

-- `init(size_t)`: `fresh n` is the unspecified content of `new byte[n]`.
unfoldable pub init_len : (ℕ → List ℕ) → ℕ → Message
init_len fresh n = if n == 0 then empty else record { len = n; buf = some (fresh n) }

-- `init(const byte*, size_t)`: the pointer is null, or the memory that begins where it points.
unfoldable pub init : Option (List ℕ) → ℕ → Message
init none n = empty
init (some src) n = if n == 0 then empty else record { len = n; buf = some (take n src) }

-- `Message(std::span<byte>)`, `Message(std::vector<byte>)` and `Message(std::string_view)` differ
-- only in where the bytes come from.
unfoldable pub of_bytes : List ℕ → Message
unfolding init
of_bytes xs = init (some xs) (length xs)

-- `Message(const Message&)`
unfoldable pub copy : Message → Message
unfolding init
copy m = init m.buf m.len

-- The live objects by address, for the operations that compare `&other` with `this`.
abbrev pub Store : Type 0
Store = ℕ → Message

abbrev pub update : Store → ℕ → Message → Store
update s i m j = if i == j then m else s j

-- `operator=(const Message&)`
unfoldable pub assign : ℕ → ℕ → Store → Store
unfolding init
assign this other s = if other == this then s else update s this (init (s other).buf (s other).len)

-- `move(Message&)`, which `operator=(Message&&)` returns. `_len` of the source is not reset.
unfoldable pub move : ℕ → ℕ → Store → Store
move this other s =
    if other == this
    then s
    else update (update s this (record { len = (s other).len; buf = (s other).buf })) other
        (record (s other) { buf = none })

-- `Message(Message&&)`: a new object at `this`, then `move`.
unfoldable pub move_construct : ℕ → ℕ → Store → Store
unfolding move
move_construct this other s = move this other (update s this empty)

-- A pointer and a length: `none` is a length with no memory, or with another amount of it, which
-- no caller may read.
abbrev span : ℕ → Option (List ℕ) → Option (List ℕ)
span n none = if n == 0 then some [] else none
span n (some b) = if n == length b then some b else none

-- `toSpan()`, and `toStringView()` over the same two members.
unfoldable pub to_span : Message → Option (List ℕ)
to_span m = span m.len m.buf
