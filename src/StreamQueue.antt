-- ===== src/StreamQueue.antt =====
-- shared/StreamQueue.hpp: the queue of received bytes, oldest first.
pub mod Vector
pub mod Stream
pub mod History
mod Tests
use socket_lib_linux.Prelude.{
  ℕ, ◌+◌, ◌%◌, List, [], ◌∷◌, ◌++◌, Option, none, some, ◌>>=◌, length, take, drop, set, replicate,
  min, ltb, if◌then◌else◌,
}
use socket_lib_linux.Message.{Message, to_span, of_bytes}

-- `std::numeric_limits<std::size_t>::max() + 1`
abbrev pub size_mod : ℕ
size_mod = 18446744073709551616

-- `dequeue(maxCount)`: what is taken, and what stays in `bytes`.
unfoldable pub dequeue : ℕ → List ℕ → List ℕ × List ℕ
dequeue max_count bytes =
    let count = min max_count (length bytes) in (take count bytes, drop count bytes)

-- `newQueue[i] = b`; an index out of range is a fault, `none`.
abbrev pub store : List ℕ → ℕ → ℕ → Option (List ℕ)
store v i b = if ltb i (length v) then some (set v i b) else none

-- The loop of `dequeueAsVec`. Its index is a `uint8_t`, so `++i` is modulo 256.
unfoldable pub vec_loop : ℕ → List ℕ → ℕ → List ℕ → Option (List ℕ × List ℕ)
vec_loop max_count [] i v = some (v, [])
vec_loop max_count (b ∷ bytes) i v =
    if ltb i max_count
    then store v i b >>= vec_loop max_count bytes ((i + 1) % 256)
    else some (v, b ∷ bytes)

-- `dequeueAsVec(maxCount)`
unfoldable pub dequeue_as_vec : ℕ → List ℕ → Option (List ℕ × List ℕ)
unfolding vec_loop
dequeue_as_vec max_count bytes =
    vec_loop max_count bytes 0 (replicate (min max_count (length bytes)) 0)

-- `dequeAsMessage(maxCount)`
unfoldable pub dequeue_as_message : ℕ → List ℕ → Option (Message × List ℕ)
unfolding dequeue_as_vec
dequeue_as_message max_count bytes = do
  (v, rest) ← dequeue_as_vec max_count bytes
  some (of_bytes v, rest)

-- `peek(maxCount)`
unfoldable pub peek : ℕ → List ℕ → List ℕ
peek max_count bytes = take (min max_count (length bytes)) bytes

-- `queueSize()`
unfoldable pub queue_size : List ℕ → ℕ
queue_size bytes = length bytes

-- `enqueue(span)`, `enqueueMove(span)` and `enqueue(vector&&)`: at the end. The comment in the last one
-- says that it inserts at the beginning; the code does not.
unfoldable pub enqueue : List ℕ → List ℕ → List ℕ
enqueue new_bytes bytes = bytes ++ new_bytes

-- `enqueue(Message&&)`: at the beginning. `none` for a message whose span no one may read.
unfoldable pub enqueue_message : Message → List ℕ → Option (List ℕ)
enqueue_message m bytes = do new_bytes ← to_span m; some (new_bytes ++ bytes)
