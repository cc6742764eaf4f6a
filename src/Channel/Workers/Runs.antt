-- ===== src/Channel/Workers/Runs.antt =====
-- Every order of the steps of the threads that use one channel (src/Socket.cpp).
use socket_lib_linux.Prelude.{
  ℕ, ◌<◌, ◌≡◌, refl, ap, ◌∙◌, sym, subst, inl, inr, Bool, true, false, ◌&&◌, List, [], ◌∷◌, ◌++◌,
  append_assoc, append-nil, Option, none, some, arith, Bool-cases, length, ltb, if◌then◌else◌,
}
use socket_lib_linux.Message.{Message, copy, to_span}
use socket_lib_linux.BulkQueue.{BulkQueue, IsPerProducer, by, by-append}
use socket_lib_linux.Channel.{SendResult, sent, send_failed}
use socket_lib_linux.Channel.Workers.{
  At, holding, between, sending, calling, Shared, messages, go_to, answered, dequeued, Step,
  queue_write, lock, dequeue, send_message, test, send, finish, shutdown, Reach, here, later,
}
use socket_lib_linux.Channel.Workers.Order.{
  Parts, Parts-none, Parts-append, to_span-payload, UpTo, UpTo-between, Where, Where-Parts, WhereIn,
  answered-Where, dequeued-Where,
}

module _ {Q : Type 0} where
  -- A message to send, or to skip where the channel or the socket is no longer active.
  begun-Where :
      (b : Bool) (m : Message) (ms : List Message) (bytes : List ℕ) (s : Shared Q)
      → to_span m ≡ some bytes
      → Where s.wire (messages s.taken) (some (between (m ∷ ms)))
      → WhereIn (go_to (if b then sending ms 0 bytes else between ms) s)
  begun-Where true m ms bytes s e (done, f, p) = (
    bytes,
    λ h. refl,
    (done, m, s.wire, [], f, p, sym (append-nil s.wire), to_span-payload m bytes e),
  )
  begun-Where false m ms bytes s e (done, f, p) = (
    done ++ m ∷ [],
    f ∙ sym (append_assoc done (m ∷ []) ms),
    subst (λ w. Parts w (done ++ m ∷ [])) (append-nil s.wire)
        (Parts-append s.wire [] done (m ∷ []) p (Parts-none (m ∷ []))),
  )

  tested-Where :
      (b : Bool) (ms : List Message) (last : ℕ) (bytes : List ℕ) (s : Shared Q)
      → Where s.wire (messages s.taken) (some (sending ms last bytes))
      → WhereIn (go_to (if ltb last (length bytes) && b then calling ms bytes else between ms) s)
  tested-Where b ms last bytes s (rest, same, u) =
      elim (Bool-cases (ltb last (length bytes) && b)) [
        | inl goes_on ↦
            let below : last < length bytes = ground arith in
            rw goes_on (subst (UpTo s.wire (messages s.taken) ms) (same below) u)
        | inr ends ↦ rw ends (UpTo-between s.wire (messages s.taken) ms rest u)
      ]

module _ {Q : Type 0} (queue : BulkQueue Q (ℕ × Message)) (of : ℕ → Q → List Message)
    (kept : IsPerProducer queue of) where
  -- Of the messages of each thread, in the order in which it queued them, the first ones are taken and
  -- the others are in the queue.
  abbrev pub AllKept : Shared Q → Type 0
  AllKept s = (i : ℕ) → by i s.queued ≡ by i s.taken ++ of i s.write_queue

  -- Nothing is lost between the queue and the thread that sends, and what that thread sends is in order.
  pub record IsOrdered (s : Shared Q) : Type 0 where
    pub queued_eq : AllKept s
    pub sending_eq : WhereIn s

  at_holder :
      (s : Shared Q) (h : Option At)
      → s.holder ≡ h
      → IsOrdered s
      → Where s.wire (messages s.taken) h
  at_holder s h e o = subst (Where s.wire (messages s.taken)) e o.sending_eq

  dequeued-queued :
      (b : List (ℕ × Message) × Q) (s : Shared Q)
      → AllKept s
      → ((i : ℕ) → of i s.write_queue ≡ by i b.0 ++ of i b.1)
      → AllKept (dequeued b s)
  unfolding dequeued
  dequeued-queued ([], rest) s e f = λ i. e i ∙ ap (λ q. by i s.taken ++ q) (f i)
  dequeued-queued (m ∷ ms, rest) s e f = λ i.
      e i
      ∙ ap (λ q. by i s.taken ++ q) (f i)
      ∙ sym (append_assoc (by i s.taken) (by i (m ∷ ms)) (of i rest))
      ∙ ap (λ q. q ++ of i rest) (sym (by-append i s.taken (m ∷ ms)))

  answered-queued :
      (r : SendResult) (ms : List Message) (bytes : List ℕ) (s : Shared Q)
      → AllKept s
      → AllKept (answered r ms bytes s)
  unfolding answered
  answered-queued (sent n) ms bytes s e = e
  answered-queued (send_failed k) ms bytes s e = λ i. ground (arith, e i)

  pub Step-IsOrdered : (s t : Shared Q) → IsOrdered s → Step queue s t → IsOrdered t
  Step-IsOrdered s _ o (queue_write j m d l) = record {
    queued_eq = λ i.
        by-append i s.queued ((j, copy m) ∷ [])
        ∙ ap (λ q. q ++ by i ((j, copy m) ∷ [])) (o.queued_eq i)
        ∙ append_assoc (by i s.taken) (of i s.write_queue) (by i ((j, copy m) ∷ []))
        ∙ ap (λ q. by i s.taken ++ q) (sym (kept.of-enqueue i j (copy m) s.write_queue));
    sending_eq = o.sending_eq;
  }
  Step-IsOrdered s _ o (lock free) = record {
    queued_eq = o.queued_eq;
    sending_eq = at_holder s none free o;
  }
  Step-IsOrdered s _ o (dequeue e) =
      let b = queue.dequeue_bulk 10 s.write_queue in
      record {
        queued_eq = dequeued-queued b s o.queued_eq (λ i. kept.of-dequeue_bulk i 10 s.write_queue);
        sending_eq = dequeued-Where b s (at_holder s (some holding) e o);
      }
  Step-IsOrdered s _ o (send_message still m ms bytes e shown) = record {
    queued_eq = o.queued_eq;
    sending_eq =
        begun-Where (s.active && still) m ms bytes s shown
          (at_holder s (some (between (m ∷ ms))) e o);
  }
  Step-IsOrdered s _ o (test still ms last bytes e) = record {
    queued_eq = o.queued_eq;
    sending_eq =
        tested-Where (s.active && still) ms last bytes s
          (at_holder s (some (sending ms last bytes)) e o);
  }
  Step-IsOrdered s _ o (send r ms bytes e) = record {
    queued_eq = answered-queued r ms bytes s o.queued_eq;
    sending_eq = answered-Where r ms bytes s (at_holder s (some (calling ms bytes)) e o);
  }
  Step-IsOrdered s _ o (finish e) = record {
    queued_eq = o.queued_eq;
    sending_eq =
        Where-Parts s.wire (messages s.taken) (some (between []))
          (at_holder s (some (between [])) e o);
  }
  Step-IsOrdered s _ o shutdown = record { queued_eq = o.queued_eq; sending_eq = o.sending_eq }

  Reach-IsOrdered : (s t : Shared Q) → IsOrdered s → Reach queue s t → IsOrdered t
  Reach-IsOrdered s _ o here = o
  Reach-IsOrdered s _ o (later {t = t} {u} r step) =
      Step-IsOrdered t u (Reach-IsOrdered s t o r) step

  -- Over a queue that keeps the order of each producer, from a state in which no thread holds the write
  -- lock, nothing was sent and nothing was taken, in every order of the steps of any number of threads:
  -- of the messages of each thread, in the order in which it queued them, the first ones were taken
  -- out of the queue and the others are still in it, and the bytes on the wire are a first part of
  -- each message taken, one after the other in the order in which they were taken, so that the bytes of
  -- two messages are never mixed.
  pub Reach-Parts :
      (s t : Shared Q)
      → s.holder ≡ none
      → s.wire ≡ []
      → s.taken ≡ []
      → ((i : ℕ) → by i s.queued ≡ of i s.write_queue)
      → Reach queue s t
      → AllKept t × Parts t.wire (messages t.taken)
  Reach-Parts s t free dry none_taken q r =
      let start : IsOrdered s = record {
        queued_eq = λ i. rw none_taken (q i);
        sending_eq = rw (free, dry, none_taken) refl;
      } in
      let end = Reach-IsOrdered s t start r in
      (end.queued_eq, Where-Parts t.wire (messages t.taken) t.holder end.sending_eq)
