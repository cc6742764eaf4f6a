-- ===== src/ServerSocketTest/Text.antt =====
-- The text that the test programs read from their queue of bytes (test/src/ServerSocketTest.cpp).
use socket_lib_linux.Prelude.{
  ℕ, ◌-◌, ◌≤◌, ◌<◌, ◌≡◌, refl, inr, List, [], some, arith, length, take-min, drop-min,
  take-eq_of_le, drop-eq_nil_of_le,
}
use socket_lib_linux.Message.{of_bytes}
use socket_lib_linux.Message.Laws.{of_bytes-IsValid, to_span-of_bytes}
use socket_lib_linux.StreamQueue.{size_mod, dequeue, dequeue_as_message}
use socket_lib_linux.StreamQueue.Vector.{dequeue_as_vec-dequeue}
use socket_lib_linux.Channel.Write.{IsSendable}
use socket_lib_linux.ServerSocketTest.{read_text}

dequeue-all :
    (bytes : List ℕ) → length bytes ≤ size_mod - 1 → dequeue (size_mod - 1) bytes ≡ (bytes, [])
unfolding dequeue
dequeue-all bytes h =
    rw
      (
        take-min (size_mod - 1) bytes,
        drop-min (size_mod - 1) bytes,
        take-eq_of_le (size_mod - 1) bytes h,
        drop-eq_nil_of_le (size_mod - 1) bytes h,
      )
      refl

-- At most 256 bytes are read as they were received.
pub read_text-lem : (bytes : List ℕ) → length bytes ≤ 256 → read_text bytes ≡ some (bytes, [])
unfolding read_text dequeue_as_message
read_text-lem bytes h =
    let all : dequeue (size_mod - 1) bytes ≡ (bytes, []) = dequeue-all bytes (omega (arith, h)) in
    rw (dequeue_as_vec-dequeue (size_mod - 1) bytes (inr h), all, to_span-of_bytes bytes) refl

pub of_bytes-IsSendable : (bytes : List ℕ) → 0 < length bytes → IsSendable (of_bytes bytes)
unfolding of_bytes
of_bytes-IsSendable bytes h = (of_bytes-IsValid bytes, ground arith)
