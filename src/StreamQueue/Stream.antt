-- ===== src/StreamQueue/Stream.antt =====
-- The order in which bytes leave the queue (shared/StreamQueue.hpp).
use socket_lib_linux.Prelude.{
  ℕ, ◌≡◌, refl, ap, sym, ◌∙◌, List, [], ◌∷◌, ◌++◌, append_assoc, append-nil, some, ◌>>=◌, arith,
  length, length-append, take, drop, min, take-append-drop, take-append, drop-append,
}
use socket_lib_linux.Message.{of_bytes}
use socket_lib_linux.Message.Laws.{to_span-of_bytes}
use socket_lib_linux.StreamQueue.{dequeue, enqueue, enqueue_message}

pub data Op : Type 0 where
  feed : List ℕ → Op
  fetch : ℕ → Op

-- What the calls of `dequeue` return in turn, and the bytes that are left.
pub run : List Op → List ℕ → List ℕ × List ℕ
run [] bytes = ([], bytes)
run (feed xs ∷ ops) bytes = run ops (enqueue xs bytes)
run (fetch n ∷ ops) bytes =
    let (xs, left) = dequeue n bytes in let (out, rest) = run ops left in (xs ++ out, rest)

abbrev pub fed : List Op → List ℕ
fed [] = []
fed (feed xs ∷ ops) = xs ++ fed ops
fed (fetch n ∷ ops) = fed ops

-- Whatever calls of `enqueue` and `dequeue` are made, the bytes that came out followed by those that
-- are left are the bytes that were there followed by those that went in: none is lost, made up or
-- moved past another.
pub run-fed :
    (ops : List Op) (bytes : List ℕ) → (run ops bytes).0 ++ (run ops bytes).1 ≡ bytes ++ fed ops
unfolding run dequeue enqueue
run-fed [] bytes = rw append-nil refl
run-fed (feed xs ∷ ops) bytes = run-fed ops (bytes ++ xs) ∙ append_assoc bytes xs (fed ops)
run-fed (fetch n ∷ ops) bytes =
    let count = min n (length bytes) in
    append_assoc (take count bytes) _ _
    ∙ ap (◌++◌ (take count bytes)) (run-fed ops (drop count bytes))
    ∙ sym (append_assoc (take count bytes) (drop count bytes) (fed ops))
    ∙ ap (λ xs. xs ++ fed ops) (take-append-drop count bytes)

-- `enqueue` puts bytes behind those that wait, and `enqueue(Message&&)` in front of them: the next
-- `dequeue` of as many bytes returns the message whole and leaves the older bytes.
pub enqueue_overtakes :
    (xs bytes : List ℕ)
    → (dequeue (length bytes) (enqueue xs bytes) ≡ (bytes, xs))
      × ((enqueue_message (of_bytes xs) bytes >>= λ q. some (dequeue (length xs) q))
          ≡ some (xs, bytes))
unfolding dequeue enqueue enqueue_message
enqueue_overtakes xs bytes = (front bytes xs, rw to_span-of_bytes (ap some (front xs bytes)))
  where
    front : (a b : List ℕ) → ◌≡◌ {A = List ℕ × List ℕ} (dequeue (length a) (a ++ b)) (a, b)
    front a b =
        let e : min (length a) (length (a ++ b)) ≡ length a = omega (arith, length-append a b) in
        rw (e, take-append a b, drop-append a b) refl
