-- ===== src/StreamQueue/History.antt =====
-- The queue of bytes as a stream with a reading position (shared/StreamQueue.hpp).
mod Tests
use socket_lib_linux.Prelude.{
  ℕ, zero, suc, ◌+◌, ◌-◌, ◌≤◌, ◌≡◌, refl, ap, ◌∙◌, sym, List, [], ◌∷◌, ◌++◌, Option, none, some,
  ◌>>=◌, subst, length-take, arith, length, length-append, length-drop, take, drop, take-min,
  drop-min, drop-eq_nil_of_le, min,
}
use socket_lib_linux.Message.{Message, to_span}
use socket_lib_linux.StreamQueue.{dequeue, peek, queue_size, enqueue, enqueue_message}

pub data Op : Type 0 where
  feed : List ℕ → Op
  feed_message : Message → Op
  fetch look : ℕ → Op
  count : Op

-- What an operation returns.
pub data Out : Type 0 where
  nothing : Out
  bytes : List ℕ → Out
  number : ℕ → Out

-- `enqueue(span)`, with `enqueueMove(span)` and `enqueue(vector&&)`; `enqueue(Message&&)`; `dequeue`,
-- `peek` and `queueSize`. An operation is undefined, `none`, where it reads what no one may read.
abbrev pub exec : Op → List ℕ → Option (Out × List ℕ)
exec (feed xs) q = some (nothing, enqueue xs q)
exec (feed_message m) q = do q' ← enqueue_message m q; some (nothing, q')
exec (fetch n) q = some (bytes (dequeue n q).0, (dequeue n q).1)
exec (look n) q = some (bytes (peek n q), q)
exec count q = some (number (queue_size q), q)

-- All bytes that ever came in, and how many of them were taken out.
pub record History : Type 0 where
  pub all : List ℕ
  pub taken : ℕ

-- The same on a history, which forgets nothing. A message goes in at the reading position, before what
-- waits there; other bytes come in at the end.
abbrev pub spec : Op → History → Option (Out × History)
spec (feed xs) h = some (nothing, record h { all = h.all ++ xs })
spec (feed_message m) h = do
  xs ← to_span m
  some (nothing, record h { all = take h.taken h.all ++ (xs ++ drop h.taken h.all) })
spec (fetch n) h =
    some
      (bytes (take n (drop h.taken h.all)), record h { taken = min (h.taken + n) (length h.all) })
spec (look n) h = some (bytes (take n (drop h.taken h.all)), h)
spec count h = some (number (length h.all - h.taken), h)

abbrev pub view : History → List ℕ
view h = drop h.taken h.all

-- What the operations return in turn, and the state behind them.
abbrev pub runs : {S : Type 0} → (Op → S → Option (Out × S)) → List Op → S → Option (List Out × S)
runs step [] s = some ([], s)
runs step (op ∷ ops) s = do
  (out, s') ← step op s
  (outs, t) ← runs step ops s'
  some (out ∷ outs, t)

-- Both are undefined, or both return the same and the queue holds what was not read of the history,
-- whose reading position is in it.
abbrev pub Same : {X : Type 0} → Option (X × List ℕ) → Option (X × History) → Type 0
Same none none = Unit {0}
Same none (some r) = ⊥
Same (some r) none = ⊥
Same (some (x, q)) (some (y, h)) = (x ≡ y) × (q ≡ view h) × (h.taken ≤ length h.all)

drop-drop : (a b : ℕ) (xs : List ℕ) → drop a (drop b xs) ≡ drop (b + a) xs
drop-drop a zero xs = let e : 0 + a ≡ a = omega arith in rw e refl
drop-drop a (suc b) [] =
    drop-eq_nil_of_le a [] (omega arith) ∙ sym (drop-eq_nil_of_le (suc b + a) [] (omega arith))
drop-drop a (suc b) (x ∷ xs) =
    let e : suc b + a ≡ suc (b + a) = omega arith in rw e (drop-drop a b xs)

drop-append_of_le : (n : ℕ) (xs ys : List ℕ) → n ≤ length xs → drop n (xs ++ ys) ≡ drop n xs ++ ys
drop-append_of_le zero xs ys h = refl
drop-append_of_le (suc n) [] ys h = absurd (omega arith)
drop-append_of_le (suc n) (x ∷ xs) ys h = drop-append_of_le n xs ys (omega arith)

drop-length-take : (n : ℕ) (xs ys : List ℕ) → n ≤ length xs → drop n (take n xs ++ ys) ≡ ys
drop-length-take zero xs ys le = refl
drop-length-take (suc n) [] ys le = absurd (omega arith)
drop-length-take (suc n) (x ∷ xs) ys le = drop-length-take n xs ys (omega arith)

feed_message-Same :
    (b : Option (List ℕ)) (h : History)
    → h.taken ≤ length h.all
    → Same (b >>= (λ xs. some (xs ++ view h)) >>= λ q. some (nothing, q)) (
        b >>= λ xs.
        some (nothing, record h { all = take h.taken h.all ++ (xs ++ drop h.taken h.all) }))
feed_message-Same none h le = tt
feed_message-Same (some xs) h le = (
  refl,
  sym (drop-length-take h.taken h.all (xs ++ view h) le),
  omega (
    arith,
    le,
    length-append (take h.taken h.all) (xs ++ view h),
    length-append xs (view h),
    length-drop h.taken h.all,
    length-take h.taken h.all,
  ),
)

-- One operation on the queue and on the history.
step-Same : (op : Op) (h : History) → h.taken ≤ length h.all → Same (exec op (view h)) (spec op h)
unfolding dequeue peek queue_size enqueue enqueue_message
step-Same (feed xs) h le =
    (refl, sym (drop-append_of_le h.taken h.all xs le), omega (arith, le, length-append h.all xs))
step-Same (feed_message m) h le = feed_message-Same (to_span m) h le
step-Same (fetch n) h le = (
  ap bytes (take-min n (view h)),
  drop-min n (view h) ∙ drop-drop n h.taken h.all ∙ sym (drop-min (h.taken + n) h.all),
  omega arith,
)
step-Same (look n) h le = (ap bytes (take-min n (view h)), refl, le)
step-Same count h le = (ap number (length-drop h.taken h.all), refl, le)

then-Same :
    (out out' : Out) (a : Option (List Out × List ℕ)) (b : Option (List Out × History))
    → out ≡ out'
    → Same a b
    → Same (a >>= λ r. some (out ∷ r.0, r.1)) (b >>= λ r. some (out' ∷ r.0, r.1))
then-Same out out' none none e s = tt
then-Same out out' none (some r) e s = s
then-Same out out' (some r) none e s = s
then-Same out out' (some r) (some t) e s = (rw (e, s.0) refl, s.1, s.2)

bind-Same :
    (ops : List Op) (a : Option (Out × List ℕ)) (b : Option (Out × History))
    → Same a b
    → ((h : History) → h.taken ≤ length h.all → Same (runs exec ops (view h)) (runs spec ops h))
    → Same
        (a >>= λ r. runs exec ops r.1 >>= λ t. some (r.0 ∷ t.0, t.1))
        (b >>= λ r. runs spec ops r.1 >>= λ t. some (r.0 ∷ t.0, t.1))
bind-Same ops none none s k = tt
bind-Same ops none (some r) s k = absurd s
bind-Same ops (some r) none s k = absurd s
bind-Same ops (some (x, q)) (some (y, h)) (e, same, le) k =
    subst
      (λ q.
        Same (runs exec ops q >>= λ t. some (x ∷ t.0, t.1))
          (runs spec ops h >>= λ t. some (y ∷ t.0, t.1)))
      (sym same) (then-Same x y (runs exec ops (view h)) (runs spec ops h) e (k h le))

-- Whatever sequence of `enqueue`, in each of its overloads, `dequeue`, `peek` and `queueSize` is run on
-- the queue, it does what the same sequence does on the list of all bytes that ever came in, of which a
-- first part was taken out: a dequeue takes the next bytes of that list, at most as many as there
-- are, a peek shows them, and the size is how many are left. A span or a vector comes in at the end;
-- the bytes of a message come in at the reading position, before those that wait, and where no one may
-- read them both are undefined. The bytes that stay in the queue are those that were not taken.
pub runs_refines :
    (ops : List Op) (h : History)
    → h.taken ≤ length h.all
    → Same (runs exec ops (view h)) (runs spec ops h)
runs_refines [] h le = (refl, refl, le)
runs_refines (op ∷ ops) h le =
    bind-Same ops (exec op (view h)) (spec op h) (step-Same op h le) (runs_refines ops)
