-- ===== src/BulkQueue.antt =====
-- What the code uses of the multi-producer queue under shared/queue, which is a copy of another
-- project's library: an interface, and what its documentation says of it.
use socket_lib_linux.Prelude.{
  ℕ, ◌≤◌, ◌≡◌, refl, ap, ◌∙◌, sym, ◌==◌, if◌then◌else◌, List, [], ◌∷◌, ◌++◌, arith, length, take,
  drop, length-take, take-append-drop,
}

-- `enqueue`, `size_approx` and `wait_dequeue_bulk_timed` with its limit, at states `Q`. A time-out
-- is a `dequeue_bulk` that returns nothing.
pub record BulkQueue (Q A : Type 0) : Type 0 where
  pub enqueue : A → Q → Q
  pub size_approx : Q → ℕ
  pub dequeue_bulk : ℕ → Q → List A × Q

-- One producer sees a queue, oldest first: a new entry goes to the end, and a bulk dequeue takes at
-- most `n` entries off the front.
pub record IsFifo {Q A : Type 0} (q : BulkQueue Q A) (contents : Q → List A) : Type 0 where
  pub contents-enqueue : (a : A) (s : Q) → contents (q.enqueue a s) ≡ contents s ++ a ∷ []
  pub contents-dequeue_bulk :
      (n : ℕ) (s : Q) → contents s ≡ (q.dequeue_bulk n s).0 ++ contents (q.dequeue_bulk n s).1
  pub dequeue_bulk-le : (n : ℕ) (s : Q) → length (q.dequeue_bulk n s).0 ≤ n

-- The entries of a thread, where each entry stands beside the thread that queued it.
abbrev pub by : {A : Type 0} → ℕ → List (ℕ × A) → List A
by i [] = []
by i ((j, a) ∷ xs) = if j == i then a ∷ by i xs else by i xs

pub by-append : {A : Type 0} (i : ℕ) (xs ys : List (ℕ × A)) → by i (xs ++ ys) ≡ by i xs ++ by i ys
by-append i [] ys = refl
by-append i ((j, a) ∷ xs) ys = ground (arith, by-append i xs ys)

-- Many producers see a queue: it keeps the entries of each thread in the order in which that thread
-- queued them, `of`, and says nothing of the order between threads. A bulk dequeue takes some first
-- entries of each, at most `n` together, and loses none.
pub record IsPerProducer {Q A : Type 0} (q : BulkQueue Q (ℕ × A)) (of : ℕ → Q → List A)
    : Type 0 where
  pub of-enqueue :
      (i j : ℕ) (a : A) (s : Q) → of i (q.enqueue (j, a) s) ≡ of i s ++ by i ((j, a) ∷ [])
  pub of-dequeue_bulk :
      (i n : ℕ) (s : Q) → of i s ≡ by i (q.dequeue_bulk n s).0 ++ of i (q.dequeue_bulk n s).1
  pub dequeue_bulk-le : (n : ℕ) (s : Q) → length (q.dequeue_bulk n s).0 ≤ n

-- A queue that is a list, and never times out while it holds something.
abbrev pub list_queue : (A : Type 0) → BulkQueue (List A) A
list_queue A = record {
  enqueue = λ a s. s ++ a ∷ [];
  size_approx = length;
  dequeue_bulk = λ n s. (take n s, drop n s);
}

pub list_queue-IsFifo : (A : Type 0) → IsFifo (list_queue A) (λ s. s)
list_queue-IsFifo A = record {
  contents-enqueue = λ a s. refl;
  contents-dequeue_bulk = λ n s. sym (take-append-drop n s);
  dequeue_bulk-le = λ n s. omega (arith, length-take n s);
}

pub list_queue-IsPerProducer : (A : Type 0) → IsPerProducer (list_queue (ℕ × A)) by
list_queue-IsPerProducer A = record {
  of-enqueue = λ i j a s. by-append i s ((j, a) ∷ []);
  of-dequeue_bulk =
      λ i n s. ap (by i) (sym (take-append-drop n s)) ∙ by-append i (take n s) (drop n s);
  dequeue_bulk-le = λ n s. omega (arith, length-take n s);
}
