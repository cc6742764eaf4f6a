-- ===== src/Channel/Workers/Shutdown.antt =====
-- What `awaitShutdown` waits for: the thread that holds `writeLock` once the channel is not active
-- (src/Socket.cpp).
use socket_lib_linux.Prelude.{
  ℕ, ◌+◌, ◌≤◌, ◌<◌, ◌≡◌, refl, sym, subst, ◌⊎◌, inl, inr, Bool, true, false, ◌&&◌, List, [], ◌∷◌,
  Option, none, some, arith, Bool-cases, length, ltb, ◌==◌, if◌then◌else◌,
}
use socket_lib_linux.Message.{Message, to_span}
use socket_lib_linux.BulkQueue.{BulkQueue}
use socket_lib_linux.Channel.{SendResult, sent, send_failed, ewouldblock}
use socket_lib_linux.Channel.Workers.{
  At, holding, between, sending, calling, Shared, messages, go_to, answered, dequeued, Step,
  queue_write, lock, dequeue, send_message, test, send, finish, shutdown,
}

-- How many steps the holder of the lock has left at most.
abbrev pub work : Option At → ℕ
work none = 0
work (some holding) = 12
work (some (between ms)) = length ms + 1
work (some (sending ms last bytes)) = length ms + 2
work (some (calling ms bytes)) = length ms + 3

-- The messages at hand can be read.
abbrev pub AllSpan : List Message → Type 0
AllSpan [] = Unit {0}
AllSpan (m ∷ ms) = ((bytes : List ℕ) × (to_span m ≡ some bytes)) × AllSpan ms

abbrev pub Readable : Option At → Type 0
Readable (some (between ms)) = AllSpan ms
Readable h = Unit {0}

length-messages : (ms : List (ℕ × Message)) → length (messages ms) ≡ length ms
length-messages [] = refl
length-messages (m ∷ ms) = omega (arith, length-messages ms)

module _ {Q : Type 0} (queue : BulkQueue Q (ℕ × Message)) where
  -- Whose step it is: the holder's, that of a thread that queues a message or shuts the channel down,
  -- or that of one that takes the lock.
  pub data Whose : Type 0 where
    holders others takers : Whose

  abbrev pub whose : (s t : Shared Q) → Step queue s t → Whose
  whose s _ (queue_write i m d l) = others
  whose s _ (lock free) = takers
  whose s _ (dequeue e) = holders
  whose s _ (send_message still m ms bytes e f) = holders
  whose s _ (test still ms last bytes e) = holders
  whose s _ (send r ms bytes e) = holders
  whose s _ (finish e) = holders
  whose s _ shutdown = others

  -- The holder takes `n` steps, the threads that do not want the lock any number.
  pub data Held (s : Shared Q) : ℕ → Shared Q → Type 0 where
    here : Held s 0 s
    mine :
        {n : ℕ} {t u : Shared Q}
        → Held s n t
        → (e : Step queue t u) → whose t u e ≡ holders
        → Held s (n + 1) u
    aside :
        {n : ℕ} {t u : Shared Q}
        → Held s n t
        → (e : Step queue t u) → whose t u e ≡ others
        → Held s n u

  -- The channel is not active, and one step of the holder less is left.
  abbrev Less : ℕ → Shared Q → Type 0
  Less w t = (t.active ≡ false) × (work t.holder < w)

  answered-Less :
      (r : SendResult) (ms : List Message) (bytes : List ℕ) (s : Shared Q)
      → s.active ≡ false
      → Less (length ms + 3) (answered r ms bytes s)
  unfolding answered
  answered-Less (sent n) ms bytes s off = (off, omega arith)
  answered-Less (send_failed k) ms bytes s off = elim (Bool-cases (k == ewouldblock)) [
    | inl again ↦ rw again (off, omega arith)
    | inr fatal ↦ elim (Bool-cases (k == 0)) [
      | inl zero_error ↦ rw (fatal, zero_error) (refl, omega arith)
      | inr throws ↦ rw (fatal, throws) (refl, omega arith)
    ]
  ]

  dequeued-Less :
      (b : List (ℕ × Message) × Q) (s : Shared Q)
      → s.active ≡ false
      → length b.0 ≤ 10
      → Less 12 (dequeued b s)
  unfolding dequeued
  dequeued-Less ([], rest) s off short = (off, omega arith)
  dequeued-Less ((i, m) ∷ ms, rest) s off short = (off, omega (arith, short, length-messages ms))

  begun-Less :
      (still : Bool) (m : Message) (ms : List Message) (bytes : List ℕ) (s : Shared Q)
      → s.active ≡ false
      → Less
          (length (m ∷ ms) + 1)
          (go_to (if s.active && still then sending ms 0 bytes else between ms) s)
  begun-Less still m ms bytes s off = (off, rw off (omega arith))

  tested-Less :
      (still : Bool) (ms : List Message) (last : ℕ) (bytes : List ℕ) (s : Shared Q)
      → s.active ≡ false
      → Less (length ms + 2) (
          go_to
            (if ltb last (length bytes) && (s.active && still)
              then calling ms bytes
              else between ms)
            s)
  tested-Less still ms last bytes s off = elim (Bool-cases (ltb last (length bytes))) [
    | inl more ↦ (off, rw (more, off) (omega arith))
    | inr enough ↦ (off, rw enough (omega arith))
  ]

  from : (s t : Shared Q) (h : Option At) → s.holder ≡ h → Less (work h) t → Less (work s.holder) t
  from s t h e l = subst (λ k. Less (work k) t) (sym e) l

  module _ (keeps_to : (n : ℕ) (q : Q) → length (queue.dequeue_bulk n q).0 ≤ n) where
    holders-Less :
        (s t : Shared Q) (e : Step queue s t)
        → s.active ≡ false
        → whose s t e ≡ holders
        → Less (work s.holder) t
    holders-Less s t (dequeue e) off h =
        from s t (some holding) e
          (dequeued-Less (queue.dequeue_bulk 10 s.write_queue) s off (keeps_to 10 s.write_queue))
    holders-Less s t (send_message still m ms bytes e f) off h =
        from s t (some (between (m ∷ ms))) e (begun-Less still m ms bytes s off)
    holders-Less s t (test still ms last bytes e) off h =
        from s t (some (sending ms last bytes)) e (tested-Less still ms last bytes s off)
    holders-Less s t (send r ms bytes e) off h =
        from s t (some (calling ms bytes)) e (answered-Less r ms bytes s off)
    holders-Less s t (finish e) off h = from s t (some (between [])) e (off, omega arith)
    holders-Less s t (queue_write i m d l) off h = absurd (cc)
    holders-Less s t (lock free) off h = absurd (cc)
    holders-Less s t shutdown off h = absurd (cc)

    -- The steps of the others keep the work, and the channel inactive.
    others_keep :
        (s t : Shared Q) (e : Step queue s t)
        → s.active ≡ false
        → whose s t e ≡ others
        → (t.active ≡ false) × (t.holder ≡ s.holder)
    others_keep s _ (queue_write i m d l) off h = (off, refl)
    others_keep s _ shutdown off h = (refl, refl)
    others_keep s _ (dequeue e) off h = absurd (cc)
    others_keep s _ (send_message still m ms bytes e f) off h = absurd (cc)
    others_keep s _ (test still ms last bytes e) off h = absurd (cc)
    others_keep s _ (send r ms bytes e) off h = absurd (cc)
    others_keep s _ (finish e) off h = absurd (cc)
    others_keep s _ (lock free) off h = absurd (cc)

    -- The holder can go on.
    goes_on :
        (s : Shared Q) (h : Option At)
        → s.holder ≡ h
        → Readable h
        → (h ≡ none) ⊎ ((t : Shared Q) × (e : Step queue s t) × (whose s t e ≡ holders))
    goes_on s none e r = inl refl
    goes_on s (some holding) e r = inr (_, dequeue e, refl)
    goes_on s (some (between [])) e r = inr (_, finish e, refl)
    goes_on s (some (between (m ∷ ms))) e ((bytes, f), r) =
        inr (_, send_message true m ms bytes e f, refl)
    goes_on s (some (sending ms last bytes)) e r = inr (_, test true ms last bytes e, refl)
    goes_on s (some (calling ms bytes)) e r = inr (_, send (sent 0) ms bytes e, refl)

    Held-work :
        (s t : Shared Q) (n : ℕ)
        → s.active ≡ false
        → Held s n t
        → (t.active ≡ false) × (n + work t.holder ≤ work s.holder)
    Held-work s _ _ off here = (off, omega arith)
    Held-work s _ _ off (mine {n = n} {t} {u} r e h) =
        let (on_way, less) = Held-work s t n off r in
        let (still, one) = holders-Less t u e on_way h in (still, omega (arith, less, one))
    Held-work s _ _ off (aside {n = n} {t} {u} r e h) =
        let (on_way, less) = Held-work s t n off r in
        let (still, same) = others_keep t u e on_way h in (still, rw same less)

    -- Once a channel is not active, over a queue whose bulk dequeue keeps to its limit, whatever
    -- the system answers and whatever the threads that do not want the lock do meanwhile: the
    -- thread that holds the write lock takes at most `work` steps until it gives the lock back, 12
    -- before its dequeue and otherwise at most three more than there are messages to come; and
    -- until then it can always take a step, where the message that it is at can be read.
    pub shutdown_releases :
        (s t : Shared Q) (n : ℕ)
        → s.active ≡ false
        → Held s n t
        → (n + work t.holder ≤ work s.holder)
          × (Readable t.holder
              → (t.holder ≡ none)
                ⊎ ((u : Shared Q) × (e : Step queue t u) × (whose t u e ≡ holders)))
    shutdown_releases s t n off r = ((Held-work s t n off r).1, goes_on t t.holder refl)
