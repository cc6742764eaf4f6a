-- ===== src/Connection/Delivery.antt =====
-- What arrives at one end of a connection of what was queued at the other (src/Socket.cpp).
use socket_lib_linux.Prelude.{
  ℕ, ◌≡◌, refl, ap, ◌∙◌, sym, subst, Bool, false, List, [], ◌∷◌, ◌++◌, append_assoc, append-nil,
  none, arith, take,
}
use socket_lib_linux.Message.{Message}
use socket_lib_linux.BulkQueue.{BulkQueue, IsPerProducer, by}
use socket_lib_linux.Channel.{SendResult, sent, send_failed}
use socket_lib_linux.Channel.Workers
use socket_lib_linux.Channel.Workers.Order.{Parts, Where-Parts}
use socket_lib_linux.Channel.Workers.Runs.{AllKept, IsOrdered, Step-IsOrdered}
use socket_lib_linux.Channel.Readers
use socket_lib_linux.Channel.Readers.Order.{in_hand, IsWhole, Step-IsWhole}
use socket_lib_linux.Connection.{
  Endpoint, Connection, FirstPart, Step, near_writes, near_reads, far_writes, far_reads, Reach,
  here, later,
}

FirstPart-append : (xs ys zs : List ℕ) → FirstPart xs ys → FirstPart xs (ys ++ zs)
FirstPart-append xs ys zs (rest, e) = (rest ++ zs, ap (λ ys. ys ++ zs) e ∙ append_assoc xs rest zs)

module _ {Q : Type 0} (queue : BulkQueue Q (ℕ × Message)) where
  answered-wire :
      (r : SendResult) (ms : List Message) (bytes : List ℕ) (s : Workers.Shared Q)
      → FirstPart s.wire (Workers.answered r ms bytes s).wire
  unfolding Workers.answered
  answered-wire (sent n) ms bytes s = (take n bytes, refl)
  answered-wire (send_failed e) ms bytes s = ([], ground (arith, append-nil s.wire))

  dequeued-wire :
      (b : List (ℕ × Message) × Q) (s : Workers.Shared Q)
      → FirstPart s.wire (Workers.dequeued b s).wire
  unfolding Workers.dequeued
  dequeued-wire ([], rest) s = ([], sym (append-nil s.wire))
  dequeued-wire (m ∷ ms, rest) s = ([], sym (append-nil s.wire))

  -- What the system took stays taken.
  Step-wire : (s t : Workers.Shared Q) → Workers.Step queue s t → FirstPart s.wire t.wire
  Step-wire s _ (Workers.send r ms bytes e) = answered-wire r ms bytes s
  Step-wire s _ (Workers.dequeue e) = dequeued-wire (queue.dequeue_bulk 10 s.write_queue) s
  Step-wire s _ (Workers.queue_write i m shown long) = ([], sym (append-nil s.wire))
  Step-wire s _ (Workers.lock free) = ([], sym (append-nil s.wire))
  Step-wire s _ (Workers.send_message still m ms bytes e shown) = ([], sym (append-nil s.wire))
  Step-wire s _ (Workers.test still ms last bytes e) = ([], sym (append-nil s.wire))
  Step-wire s _ (Workers.finish e) = ([], sym (append-nil s.wire))
  Step-wire s _ Workers.shutdown = ([], sym (append-nil s.wire))

module _ {Q : Type 0} (queue : BulkQueue Q (ℕ × Message)) (of : ℕ → Q → List Message)
    (kept : IsPerProducer queue of) where
  -- One direction: what one end sends, and what the other one receives.
  record IsLinked (w : Workers.Shared Q) (r : Readers.Shared) : Type 0 where
    ordered : IsOrdered queue of kept w
    whole : IsWhole r
    carried : FirstPart r.stream w.wire

  -- A channel that is shut down, from either side
  switched :
      (a b : Bool) (w : Workers.Shared Q) (r : Readers.Shared)
      → IsLinked w r
      → IsLinked (record w { active = a }) (record r { active = b })
  switched a b w r o = record {
    ordered = record { queued_eq = o.ordered.queued_eq; sending_eq = o.ordered.sending_eq };
    whole = o.whole;
    carried = o.carried;
  }

  writes-IsLinked :
      (w v : Workers.Shared Q) (r : Readers.Shared)
      → Workers.Step queue w v
      → IsLinked w r
      → IsLinked v r
  writes-IsLinked w v r e o =
      let (rest, cut) = o.carried in
      let (more, grown) = Step-wire queue w v e in
      record {
        ordered = Step-IsOrdered queue of kept w v o.ordered e;
        whole = o.whole;
        carried = (rest ++ more, grown ∙ ap (λ x. x ++ more) cut ∙ append_assoc r.stream rest more);
      }

  reads-IsLinked :
      (w : Workers.Shared Q) (r q : Readers.Shared)
      → Readers.Step r q
      → FirstPart q.stream w.wire
      → IsLinked w r
      → IsLinked w q
  reads-IsLinked w r q e carries o = record {
    ordered = o.ordered;
    whole = Step-IsWhole r q o.whole e;
    carried = carries;
  }

  abbrev BothLinked : Connection Q → Type 0
  BothLinked s = IsLinked s.near.writer s.far.reader × IsLinked s.far.writer s.near.reader

  Step-BothLinked : (s t : Connection Q) → Step queue s t → BothLinked s → BothLinked t
  Step-BothLinked s _ (near_writes w e) (out, back) = (
    writes-IsLinked s.near.writer w s.far.reader e out,
    switched s.far.writer.active w.active s.far.writer s.near.reader back,
  )
  Step-BothLinked s _ (near_reads r e carries) (out, back) = (
    switched r.active s.far.reader.active s.near.writer s.far.reader out,
    reads-IsLinked s.far.writer s.near.reader r e carries back,
  )
  Step-BothLinked s _ (far_writes w e) (out, back) = (
    switched s.near.writer.active w.active s.near.writer s.far.reader out,
    writes-IsLinked s.far.writer w s.near.reader e back,
  )
  Step-BothLinked s _ (far_reads r e carries) (out, back) = (
    reads-IsLinked s.near.writer s.far.reader r e carries out,
    switched r.active s.near.reader.active s.far.writer s.near.reader back,
  )

  Reach-BothLinked : (s t : Connection Q) → Reach queue s t → BothLinked s → BothLinked t
  Reach-BothLinked s _ here o = o
  Reach-BothLinked s _ (later {t = t} {u} r e) o = Step-BothLinked t u e (Reach-BothLinked s t r o)

  -- The messages of each thread are those taken out of the queue and those still in it, in order; and
  -- what listeners took at the other end is a first part of bytes that are a first part of each
  -- message taken, one after the other.
  abbrev pub Delivers : Endpoint Q → Endpoint Q → Type 0
  Delivers from to =
      AllKept queue of kept from.writer
      × (to.reader.lost ≡ false
          → (rest : List ℕ) × Parts (to.reader.heard ++ rest) (Workers.messages from.writer.taken))

  IsLinked-Delivers : (from to : Endpoint Q) → IsLinked from.writer to.reader → Delivers from to
  IsLinked-Delivers from to o =
      let w = from.writer in
      let r = to.reader in
      let (rest, cut) = o.carried in
      let hand : List ℕ = in_hand r.holder in
      (
        o.ordered.queued_eq,
        λ whole.
            let all : w.wire ≡ r.heard ++ (r.incoming ++ (hand ++ rest)) =
              cut
              ∙ ap (λ x. x ++ rest) (sym (o.whole whole))
              ∙ append_assoc (r.heard ++ r.incoming) hand rest
              ∙ append_assoc r.heard r.incoming (hand ++ rest) in
            (
              r.incoming ++ (hand ++ rest),
              subst (λ x. Parts x (Workers.messages w.taken)) all
                  (Where-Parts w.wire (Workers.messages w.taken) w.holder o.ordered.sending_eq),
            ),
      )

  -- No thread is in the channel, and nothing was sent or received.
  pub record IsFresh (e : Endpoint Q) : Type 0 where
    pub no_writer : e.writer.holder ≡ none
    pub no_reader : e.reader.holder ≡ none
    pub dry : e.writer.wire ≡ []
    pub none_taken : e.writer.taken ≡ []
    pub all_wait : (i : ℕ) → by i e.writer.queued ≡ of i e.writer.write_queue
    pub none_received : e.reader.stream ≡ []
    pub unheard : e.reader.heard ≡ []
    pub empty : e.reader.incoming ≡ []

  fresh-IsLinked :
      (from to : Endpoint Q) → IsFresh from → IsFresh to → IsLinked from.writer to.reader
  fresh-IsLinked from to f g = record {
    ordered = record {
      queued_eq = λ i. rw f.none_taken (f.all_wait i);
      sending_eq = rw (f.no_writer, f.dry, f.none_taken) refl;
    };
    whole = λ w. rw (g.no_reader, g.none_received, g.unheard, g.empty) refl;
    carried = ([], rw (f.dry, g.none_received) refl);
  }

  -- Over queues that keep the order of each producer, on a connection at whose ends nothing was sent or received
  -- yet, in every order of the steps of any number of threads at both ends, in both directions at
  -- once: of the messages that each thread queued at one end, in its order, the first ones were taken
  -- out of the queue and the others are still in it; and as long as no test of `isActive()` behind a `recv` that brought bytes was false at the
  -- other end, the bytes that listeners took there are the beginning of a first part of each message
  -- taken, one after the other in the order in which they were taken, never two messages mixed.
  pub Reach-Delivers :
      (s t : Connection Q)
      → IsFresh s.near
      → IsFresh s.far
      → Reach queue s t
      → Delivers t.near t.far × Delivers t.far t.near
  Reach-Delivers s t f g r =
      let (out, back) =
        Reach-BothLinked s t r (fresh-IsLinked s.near s.far f g, fresh-IsLinked s.far s.near g f) in
      (IsLinked-Delivers t.near t.far out, IsLinked-Delivers t.far t.near back)
