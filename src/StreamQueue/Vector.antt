-- ===== src/StreamQueue/Vector.antt =====
-- When `dequeueAsVec`, whose loop index has 8 bits, does what `dequeue` does
-- (shared/StreamQueue.hpp).
use socket_lib_linux.Prelude.{
  ℕ, zero, suc, ◌+◌, ◌-◌, ◌%◌, ◌≤◌, ◌<◌, ◌≡◌, refl, ap, inl, inr, ◌⊎◌, List, [], ◌∷◌, ◌++◌, Option,
  none, some, arith, length, take, drop, set, replicate, min, lt→ltb, le→ltb, length-set,
  length-append, length-replicate, append_assoc, ◌∙◌, take-min, drop-min, take-eq_of_le,
  drop-eq_nil_of_le,
}
use socket_lib_linux.StreamQueue.{dequeue, vec_loop, dequeue_as_vec}
use native.Mathlib.Decide.{dec_lt}

vec_loop-more :
    (max_count i b : ℕ) (bytes v : List ℕ)
    → i < max_count
    → i < length v
    → vec_loop max_count (b ∷ bytes) i v ≡ vec_loop max_count bytes ((i + 1) % 256) (set v i b)
unfolding vec_loop
vec_loop-more max_count i b bytes v h k = rw (lt→ltb i max_count h, lt→ltb i (length v) k) refl

vec_loop-full :
    (max_count i b : ℕ) (bytes v : List ℕ)
    → max_count ≤ i
    → vec_loop max_count (b ∷ bytes) i v ≡ some (v, b ∷ bytes)
unfolding vec_loop
vec_loop-full max_count i b bytes v h = rw (le→ltb i max_count h) refl

-- The loop ends with a vector of `n` bytes, and from 256 on it takes every byte there is.
abbrev pub Ran : ℕ → ℕ → Option (List ℕ × List ℕ) → Type 0
Ran max_count n none = ⊥
Ran max_count n (some (w, rest)) = (length w ≡ n) × ((max_count ≤ 255) ⊎ (rest ≡ []))

-- The index stays inside the vector: either the vector has 256 entries, or what is still to come
-- fits behind the index.
vec_loop-Ran :
    (max_count : ℕ) (bytes : List ℕ) (i : ℕ) (v : List ℕ)
    → i < 256
    → (256 ≤ length v) ⊎ (min max_count (i + length bytes) ≤ length v)
    → Ran max_count (length v) (vec_loop max_count bytes i v)
unfolding vec_loop
vec_loop-Ran max_count [] i v h k = (refl, inr refl)
vec_loop-Ran max_count (b ∷ bytes) i v h k = elim (dec_lt i max_count) [
  | yes more ↦
      let ih : Ran max_count (length (set v i b))
          (vec_loop max_count bytes ((i + 1) % 256) (set v i b)) =
        vec_loop-Ran max_count bytes ((i + 1) % 256) (set v i b) (omega arith)
          (omega (arith, length-set v i b)) in
      rw (vec_loop-more max_count i b bytes v more (omega arith)) (rw length-set at ih)
  | no full ↦ rw (vec_loop-full max_count i b bytes v (omega arith)) (refl, inl (omega arith))
]

-- Writing behind the filled part of a vector.
set-append : (done pad : List ℕ) (b p : ℕ) → set (done ++ p ∷ pad) (length done) b ≡ done ++ b ∷ pad
set-append [] pad b p = refl
set-append (x ∷ done) pad b p = ap (◌∷◌ x) (set-append done pad b p)

vec_loop-fills :
    (max_count : ℕ) (bytes done pad : List ℕ) (i : ℕ)
    → (0 < length bytes → i ≡ length done)
    → length pad ≡ min (max_count - length done) (length bytes)
    → (max_count ≤ 255) ⊎ (length done + length bytes ≤ 256)
    → vec_loop max_count bytes i (done ++ pad)
      ≡ some (done ++ take (max_count - length done) bytes, drop (max_count - length done) bytes)
unfolding vec_loop
vec_loop-fills max_count [] done [] i ix h k =
    let short : length {A = ℕ} [] ≤ max_count - length done = omega arith in
    rw
      (
        take-eq_of_le (max_count - length done) [] short,
        drop-eq_nil_of_le (max_count - length done) [] short,
      )
      refl
vec_loop-fills max_count [] done (p ∷ pad) i ix h k = absurd (omega arith)
vec_loop-fills max_count (b ∷ bytes) done [] i ix h k =
    let e : max_count - length done ≡ 0 = omega arith in
    let at : i ≡ length done = ix (omega arith) in
    rw (vec_loop-full max_count i b bytes (done ++ []) (omega arith), e) refl
vec_loop-fills max_count (b ∷ bytes) done (p ∷ pad) i ix h k =
    let at : i ≡ length done = ix (omega arith) in
    let len : length (done ++ b ∷ []) ≡ length done + 1 =
      omega (arith, length-append done (b ∷ [])) in
    let e : max_count - length done ≡ suc (max_count - length (done ++ b ∷ [])) = omega arith in
    let filled : set (done ++ p ∷ pad) i b ≡ (done ++ b ∷ []) ++ pad =
      rw (at, set-append done pad b p, append_assoc) refl in
    rw
      (
        vec_loop-more max_count i b bytes (done ++ p ∷ pad) (omega arith)
            (omega (arith, length-append done (p ∷ pad))),
        filled,
        e,
      )
      (vec_loop-fills max_count bytes (done ++ b ∷ []) pad ((i + 1) % 256) (λ q. omega arith)
          (omega arith) (omega arith)
        ∙ rw append_assoc refl)

-- `dequeueAsVec` ends without a write out of range, its vector has min(maxCount, size) bytes, and
-- from maxCount = 256 on the queue is left empty, also where the vector is shorter than it was.
pub dequeue_as_vec-Ran :
    (max_count : ℕ) (bytes : List ℕ)
    → Ran max_count (min max_count (length bytes)) (dequeue_as_vec max_count bytes)
unfolding dequeue_as_vec
dequeue_as_vec-Ran max_count bytes = rw length-replicate at (
    vec_loop-Ran max_count bytes 0 (replicate (min max_count (length bytes)) 0) (omega arith)
      (inr (omega (arith, length-replicate (min max_count (length bytes)) zero))))

-- While at most 255 bytes are asked for, or at most 256 are there, `dequeueAsVec` is `dequeue`.
pub dequeue_as_vec-dequeue :
    (max_count : ℕ) (bytes : List ℕ)
    → (max_count ≤ 255) ⊎ (length bytes ≤ 256)
    → dequeue_as_vec max_count bytes ≡ some (dequeue max_count bytes)
unfolding dequeue_as_vec dequeue
dequeue_as_vec-dequeue max_count bytes k =
    vec_loop-fills max_count bytes [] (replicate (min max_count (length bytes)) 0) 0 (λ q. refl)
      (omega (arith, length-replicate (min max_count (length bytes)) zero)) (omega arith)
    ∙ rw (take-min max_count bytes, drop-min max_count bytes)
        (ap (λ k. some (take k bytes, drop k bytes)) (omega arith))
