-- ===== src/Channel/Workers/Order.antt =====
-- What the system takes from a channel that many threads use (src/Socket.cpp).
use socket_lib_linux.Prelude.{
  ℕ, ◌<◌, ◌≡◌, refl, ap, ◌∙◌, sym, subst, inl, inr, List, [], ◌∷◌, ◌++◌, append_assoc, append-nil,
  Option, none, some, arith, Bool-cases, length, take, drop, take-append-drop, ◌==◌,
}
use socket_lib_linux.Message.{Message, to_span}
use socket_lib_linux.Channel.{SendResult, sent, send_failed, ewouldblock}
use socket_lib_linux.Channel.Write.{payload}
use socket_lib_linux.Channel.Workers.{
  At, holding, between, sending, calling, Shared, messages, answered, dequeued,
}

-- The bytes are a first part of each message, one after the other.
abbrev pub Parts : List ℕ → List Message → Type 0
Parts w [] = w ≡ []
Parts w (m ∷ ms) = (x rest w' : List ℕ) × (payload m ≡ x ++ rest) × (w ≡ x ++ w') × Parts w' ms

pub Parts-append :
    (w v : List ℕ) (ms ns : List Message) → Parts w ms → Parts v ns → Parts (w ++ v) (ms ++ ns)
Parts-append w v [] ns e p = subst (λ u. Parts u ns) (rw e refl) p
Parts-append w v (m ∷ ms) ns (x, rest, w', cut, e, p) q =
    (x, rest, w' ++ v, cut, rw e (append_assoc x w' v), Parts-append w' v ms ns p q)

-- Nothing of the messages was sent.
pub Parts-none : (ms : List Message) → Parts [] ms
Parts-none [] = refl
Parts-none (m ∷ ms) = ([], payload m, [], refl, refl, Parts-none ms)

pub to_span-payload : (m : Message) (bytes : List ℕ) → to_span m ≡ some bytes → payload m ≡ bytes
unfolding to_span
to_span-payload m bytes e = ground arith

-- The messages up to one, and what the system took of that one.
abbrev pub UpTo : List ℕ → List Message → List Message → List ℕ → Type 0
UpTo w t ms rest =
    (done : List Message) × (m : Message) × (v x : List ℕ) × (t ≡ done ++ m ∷ ms)
    × Parts v done
    × (w ≡ v ++ x)
    × (payload m ≡ x ++ rest)

-- What is sent and what is to come, by where the holder of the lock is.
abbrev pub Where : List ℕ → List Message → Option At → Type 0
Where w t none = Parts w t
Where w t (some holding) = Parts w t
Where w t (some (between ms)) = (done : List Message) × (t ≡ done ++ ms) × Parts w done
Where w t (some (sending ms last bytes)) =
    (rest : List ℕ) × (last < length bytes → rest ≡ bytes) × UpTo w t ms rest
Where w t (some (calling ms bytes)) = UpTo w t ms bytes

UpTo-Parts : (w : List ℕ) (t ms : List Message) (rest : List ℕ) → UpTo w t ms rest → Parts w t
UpTo-Parts w t ms rest (done, m, v, x, e, p, f, cut) =
    rw (e, f)
      (Parts-append v x done (m ∷ ms) p (x, rest, [], cut, sym (append-nil x), Parts-none ms))

-- The message is done with.
pub UpTo-between :
    (w : List ℕ) (t ms : List Message) (rest : List ℕ)
    → UpTo w t ms rest
    → Where w t (some (between ms))
UpTo-between w t ms rest (done, m, v, x, e, p, f, cut) = (
  done ++ m ∷ [],
  e ∙ sym (append_assoc done (m ∷ []) ms),
  rw f (Parts-append v x done (m ∷ []) p (x, rest, [], cut, sym (append-nil x), refl)),
)

-- The system takes some more bytes of it.
UpTo-sent :
    (w : List ℕ) (t ms : List Message) (n : ℕ) (bytes : List ℕ)
    → UpTo w t ms bytes
    → UpTo (w ++ take n bytes) t ms (drop n bytes)
UpTo-sent w t ms n bytes (done, m, v, x, e, p, f, cut) = (
  done,
  m,
  v,
  x ++ take n bytes,
  e,
  p,
  rw f (append_assoc v x (take n bytes)),
  cut
      ∙ ap (λ b. x ++ b) (sym (take-append-drop n bytes))
      ∙ sym (append_assoc x (take n bytes) (drop n bytes)),
)

pub Where-Parts : (w : List ℕ) (t : List Message) (h : Option At) → Where w t h → Parts w t
Where-Parts w t none p = p
Where-Parts w t (some holding) p = p
Where-Parts w t (some (between ms)) (done, e, p) =
    rw (e, ← append-nil w) (Parts-append w [] done ms p (Parts-none ms))
Where-Parts w t (some (sending ms last bytes)) (rest, k, u) = UpTo-Parts w t ms rest u
Where-Parts w t (some (calling ms bytes)) u = UpTo-Parts w t ms bytes u

messages-append : (xs ys : List (ℕ × Message)) → messages (xs ++ ys) ≡ messages xs ++ messages ys
messages-append [] ys = refl
messages-append (x ∷ xs) ys = ap (◌∷◌ x.1) (messages-append xs ys)

module _ {Q : Type 0} where
  abbrev pub WhereIn : Shared Q → Type 0
  WhereIn s = Where s.wire (messages s.taken) s.holder

  pub answered-Where :
      (r : SendResult) (ms : List Message) (bytes : List ℕ) (s : Shared Q)
      → UpTo s.wire (messages s.taken) ms bytes
      → WhereIn (answered r ms bytes s)
  unfolding answered
  answered-Where (sent n) ms bytes s u =
      (drop n bytes, λ h. ground arith, UpTo-sent s.wire (messages s.taken) ms n bytes u)
  answered-Where (send_failed e) ms bytes s u = elim (Bool-cases (e == ewouldblock)) [
    | inl again ↦ rw again (bytes, λ h. refl, u)
    | inr fatal ↦ elim (Bool-cases (e == 0)) [
      | inl zero_error ↦ rw (fatal, zero_error) (UpTo-between s.wire (messages s.taken) ms bytes u)
      | inr throws ↦ rw (fatal, throws) (UpTo-Parts s.wire (messages s.taken) ms bytes u)
    ]
  ]

  pub dequeued-Where :
      (b : List (ℕ × Message) × Q) (s : Shared Q)
      → Parts s.wire (messages s.taken)
      → WhereIn (dequeued b s)
  unfolding dequeued
  dequeued-Where ([], rest) s p = p
  dequeued-Where (m ∷ ms, rest) s p = (messages s.taken, messages-append s.taken (m ∷ ms), p)
