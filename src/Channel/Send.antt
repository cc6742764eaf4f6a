-- ===== src/Channel/Send.antt =====
-- `Channel::sendBytes` (src/Socket.cpp): what reaches the peer, and when the loop ends.
use socket_lib_linux.Prelude.{
  ℕ, suc, ◌+◌, ◌-◌, ◌≤◌, ◌<◌, ◌≡◌, ◌≢◌, refl, ap, sym, subst, ◌∙◌, inl, inr, ◌⊎◌, true, false, ◌&&◌,
  List, [], ◌∷◌, ◌++◌, append_assoc, append-nil, arith, length, take, drop, length-drop,
  length-take, take-append-drop, take-eq_of_le, ltb, lt→ltb, le→ltb, Bool-cases, ◌==◌,
}
use socket_lib_linux.StreamQueue.{size_mod}
use native.Mathlib.Decide.{dec_lt}
use socket_lib_linux.Channel.{
  SendResult, sent, send_failed, Round, returned, waiting, Sending, stop, after_send, send_loop,
  ewouldblock,
}

loop-step :
    (r : Round) (rounds : List Round) (last : ℕ) (bytes : List ℕ)
    → last < length bytes
    → r.is_active ≡ true
    → send_loop (r ∷ rounds) last bytes ≡ after_send r.result bytes (send_loop rounds)
unfolding send_loop
loop-step r rounds last bytes h a = rw (lt→ltb last (length bytes) h, a) refl

-- The loop is left once the last result is not below the length.
loop-stop :
    (rounds : List Round) (last : ℕ) (bytes : List ℕ)
    → length bytes ≤ last
    → send_loop rounds last bytes ≡ stop
unfolding send_loop
loop-stop [] last bytes h = rw (le→ltb last (length bytes) h) refl
loop-stop (r ∷ rounds) last bytes h = rw (le→ltb last (length bytes) h) refl

loop-inactive :
    (r : Round) (rounds : List Round) (last : ℕ) (bytes : List ℕ)
    → r.is_active ≡ false
    → send_loop (r ∷ rounds) last bytes ≡ stop
unfolding send_loop
loop-inactive r rounds last bytes a = ground arith

-- A partial send goes on behind what was taken; one that took all there was ends the loop.
sent-part :
    (rounds : List Round) (n : ℕ) (bytes : List ℕ)
    → n < length bytes
    → after_send (sent n) bytes (send_loop rounds) ≡ (
        let rest = send_loop rounds n (drop n bytes) in
        record rest { wire = take n bytes ++ rest.wire })
sent-part rounds n bytes h = rw (lt→ltb n (length bytes) h) refl

sent_all :
    (rounds : List Round) (n : ℕ) (bytes : List ℕ)
    → length bytes ≤ n
    → after_send (sent n) bytes (send_loop rounds)
      ≡ record { wire = bytes; shut = false; ending = returned }
sent_all rounds n bytes h =
    rw (le→ltb n (length bytes) h, loop-stop rounds n bytes h, append-nil, take-eq_of_le n bytes h)
      refl

-- What was taken and what was not, of the bytes at hand.
abbrev IsSplit : List ℕ → Sending → Type 0
IsSplit bytes s = (rest : List ℕ) × (bytes ≡ s.wire ++ rest)

stop-IsSplit : (bytes : List ℕ) → IsSplit bytes stop
stop-IsSplit bytes = (bytes, refl)

part-IsSplit :
    (n : ℕ) (bytes : List ℕ) (s : Sending)
    → IsSplit (drop n bytes) s
    → IsSplit bytes (record s { wire = take n bytes ++ s.wire })
part-IsSplit n bytes s (rest, e) = (
  rest,
  sym (take-append-drop n bytes)
      ∙ ap (◌++◌ (take n bytes)) e
      ∙ sym (append_assoc (take n bytes) s.wire rest),
)

after_send-IsSplit :
    (x : SendResult) (rounds : List Round) (bytes : List ℕ)
    → ((last : ℕ) (bs : List ℕ) → IsSplit bs (send_loop rounds last bs))
    → IsSplit bytes (after_send x bytes (send_loop rounds))
after_send-IsSplit (sent n) rounds bytes ih = elim (dec_lt n (length bytes)) [
  | yes h ↦
      subst (IsSplit bytes) (sym (sent-part rounds n bytes h))
        (part-IsSplit n bytes (send_loop rounds n (drop n bytes)) (ih n (drop n bytes)))
  | no h ↦
      subst (IsSplit bytes) (sym (sent_all rounds n bytes (omega arith)))
        ([], sym (append-nil bytes))
]
after_send-IsSplit (send_failed e) rounds bytes ih = elim (Bool-cases (e == ewouldblock)) [
  | inl again ↦ rw again (ih (size_mod - 1) bytes)
  | inr fatal ↦ rw fatal (bytes, refl)
]

-- What the system took is a prefix of the message: no byte is repeated, skipped or out of order,
-- whatever the system answers and whatever the other threads do.
pub send_loop-prefix :
    (rounds : List Round) (last : ℕ) (bytes : List ℕ)
    → (rest : List ℕ) × (bytes ≡ (send_loop rounds last bytes).wire ++ rest)
unfolding send_loop
send_loop-prefix [] last bytes = elim (Bool-cases (ltb last (length bytes))) [
  | inl more ↦ rw more (bytes, refl)
  | inr done ↦ rw done (bytes, refl)
]
send_loop-prefix (r ∷ rounds) last bytes =
    elim (Bool-cases (ltb last (length bytes) && r.is_active)) [
      | inl go ↦ rw go (after_send-IsSplit r.result rounds bytes (send_loop-prefix rounds))
      | inr done ↦ rw done (bytes, refl)
    ]

abbrev TakesAll : SendResult → List ℕ → (List ℕ → Type 0) → Type 0
TakesAll (send_failed e) bytes later = ⊥
TakesAll (sent n) bytes later = (length bytes ≤ n) ⊎ ((n + n < length bytes) × later (drop n bytes))

-- The passes that send all of `bytes`: the socket stays active, and each takes less than it leaves,
-- but for one that takes what is left.
abbrev pub Drains : List Round → List ℕ → Type 0
Drains [] bytes = ⊥
Drains (r ∷ rounds) bytes = (r.is_active ≡ true) × TakesAll r.result bytes (Drains rounds)

-- `bytes` sent in full, with no error.
abbrev pub delivered : List ℕ → Sending
delivered bytes = record { wire = bytes; shut = false; ending = returned }

after_send-delivered :
    (x : SendResult) (rounds : List Round) (bytes : List ℕ)
    → ((last : ℕ) (bs : List ℕ)
        → last < length bs
        → Drains rounds bs
        → send_loop rounds last bs ≡ delivered bs)
    → TakesAll x bytes (Drains rounds)
    → after_send x bytes (send_loop rounds) ≡ delivered bytes
after_send-delivered (send_failed e) rounds bytes ih d = absurd d
after_send-delivered (sent n) rounds bytes ih (inl all) = sent_all rounds n bytes all
after_send-delivered (sent n) rounds bytes ih (inr (less, later)) =
    sent-part rounds n bytes (omega arith)
    ∙ rw (ih n (drop n bytes) (omega (arith, length-drop n bytes)) later, take-append-drop n bytes)
        refl

-- Where each send takes less than it leaves, until one takes what is left, the whole message is
-- sent, in order, with no error.
pub send_loop-delivered :
    (rounds : List Round) (last : ℕ) (bytes : List ℕ)
    → last < length bytes
    → Drains rounds bytes
    → send_loop rounds last bytes ≡ delivered bytes
send_loop-delivered [] last bytes h d = absurd d
send_loop-delivered (r ∷ rounds) last bytes h d =
    loop-step r rounds last bytes h d.0
    ∙ after_send-delivered r.result rounds bytes (send_loop-delivered rounds) d.1

-- What one `send` took.
abbrev pub taken : SendResult → List ℕ → List ℕ
taken (sent n) bytes = take n bytes
taken (send_failed e) bytes = []

-- The answer is EWOULDBLOCK, or takes at least half of the bytes and not all.
abbrev pub Loses : SendResult → List ℕ → Type 0
Loses (sent n) bytes = (n < length bytes) × (length bytes ≤ n + n)
Loses (send_failed e) bytes = e ≡ ewouldblock

after_send-Loses :
    (x : SendResult) (rounds : List Round) (bytes : List ℕ)
    → length bytes < size_mod
    → Loses x bytes
    → after_send x bytes (send_loop rounds) ≡ record stop { wire = taken x bytes }
after_send-Loses (sent n) rounds bytes small h =
    sent-part rounds n bytes h.0
    ∙ rw (loop-stop rounds n (drop n bytes) (omega (arith, length-drop n bytes)), append-nil) refl
after_send-Loses (send_failed e) rounds bytes small h =
    ground (arith, loop-stop rounds (size_mod - 1) bytes)

taken-short :
    (x : SendResult) (bytes : List ℕ)
    → Loses x bytes
    → 0 < length bytes
    → length (taken x bytes) < length bytes
taken-short (sent n) bytes h p = omega (arith, length-take n bytes)
taken-short (send_failed e) bytes h p = p

-- On an active channel, a would-block answer, and a send that takes at least half of what is left but
-- not all, end the loop as if it had succeeded: less than the bytes at hand is sent, no error is
-- reported and the channel stays open.
pub send_loop-Loses :
    (r : Round) (rounds : List Round) (last : ℕ) (bytes : List ℕ)
    → last < length bytes
    → length bytes < size_mod
    → r.is_active ≡ true
    → Loses r.result bytes
    → (send_loop (r ∷ rounds) last bytes ≡ record stop { wire = taken r.result bytes })
      × (length (taken r.result bytes) < length bytes)
send_loop-Loses r rounds last bytes h small a l = (
  loop-step r rounds last bytes h a ∙ after_send-Loses r.result rounds bytes small l,
  taken-short r.result bytes l (omega arith),
)

-- Every answer takes at least one byte, or is an error.
abbrev pub Progresses : List Round → Type 0
Progresses [] = Unit {0}
Progresses (r ∷ rounds) = (r.result ≢ sent 0) × Progresses rounds

after_send-ends :
    (x : SendResult) (rounds : List Round) (bytes : List ℕ)
    → x ≢ sent 0
    → length bytes < size_mod
    → length bytes ≤ suc (length rounds)
    → ((last : ℕ) (bs : List ℕ)
        → length bs < size_mod
        → length bs ≤ length rounds
        → (send_loop rounds last bs).ending ≢ waiting)
    → (after_send x bytes (send_loop rounds)).ending ≢ waiting
after_send-ends (sent n) rounds bytes p small h ih = elim (dec_lt n (length bytes)) [
  | yes part ↦
      let pos : 0 < n = ground arith in
      subst (λ s. s.ending ≢ waiting) (sym (sent-part rounds n bytes part))
        (ih n (drop n bytes) (omega (arith, length-drop n bytes))
          (omega (arith, length-drop n bytes)))
  | no all ↦ subst (λ s. s.ending ≢ waiting) (sym (sent_all rounds n bytes (omega arith))) (λ e. cc)
]
after_send-ends (send_failed e) rounds bytes p small h ih =
    ground (arith, loop-stop rounds (size_mod - 1) bytes)

-- The loop ends: where the system takes a byte or answers with an error each time, as many passes as
-- there are bytes are enough.
pub send_loop-ends :
    (rounds : List Round) (last : ℕ) (bytes : List ℕ)
    → length bytes < size_mod
    → length bytes ≤ length rounds
    → Progresses rounds
    → (send_loop rounds last bytes).ending ≢ waiting
unfolding send_loop
send_loop-ends [] last bytes small h p = ground (arith, le→ltb last (length bytes))
send_loop-ends (r ∷ rounds) last bytes small h p =
    elim (Bool-cases (ltb last (length bytes) && r.is_active)) [
      | inl go ↦ rw go (
          after_send-ends r.result rounds bytes p.0 small h
            (λ l bs small' h'. send_loop-ends rounds l bs small' h' p.1))
      | inr done ↦ rw done (λ e. cc)
    ]
