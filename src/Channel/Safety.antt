-- ===== src/Channel/Safety.antt =====
-- What the write side of a channel never does, and what a closed channel does (src/Socket.cpp).
use socket_lib_linux.Prelude.{
  ℕ, ◌-◌, ◌≡◌, ◌≢◌, sym, subst, inl, inr, ◌⊎◌, Bool, false, ◌&&◌, List, [], ◌∷◌, ◌++◌, arith,
  length, ltb, Bool-cases,
}
use native.Mathlib.Decide.{dec_lt}
use socket_lib_linux.Message.{Message}
use socket_lib_linux.Message.Laws.{IsValid}
use socket_lib_linux.BulkQueue.{BulkQueue, IsFifo}
use socket_lib_linux.Channel.Write.{
  IsSendable, AllSendable, payload, to_span-sendable, queue_write-ignores, queue_write-enqueue,
}
use socket_lib_linux.StreamQueue.{size_mod}
use socket_lib_linux.Channel.{
  SendResult, sent, send_failed, Round, RecvResult, Ending, returned, after_send, SendEnv, Channel,
  Listener, Reply, replied, send_loop, send_bytes, send_message, send_all, write_batch,
  handle_write_queue, queue_write, read_data,
}

after_send-defined :
    (x : SendResult) (rounds : List Round) (bytes : List ℕ)
    → ((last : ℕ) (bs : List ℕ) → (send_loop rounds last bs).ending ≢ Ending.undefined)
    → (after_send x bytes (send_loop rounds)).ending ≢ Ending.undefined
after_send-defined (sent n) rounds bytes ih = ih n _
after_send-defined (send_failed e) rounds bytes ih = ground (arith, ih (size_mod - 1) bytes)

send_loop-defined :
    (rounds : List Round) (last : ℕ) (bytes : List ℕ)
    → (send_loop rounds last bytes).ending ≢ Ending.undefined
unfolding send_loop
send_loop-defined [] last bytes = ground arith
send_loop-defined (r ∷ rounds) last bytes =
    elim (Bool-cases (ltb last (length bytes) && r.is_active)) [
      | inl go ↦ rw go (after_send-defined r.result rounds bytes (send_loop-defined rounds))
      | inr done ↦ rw done (λ e. cc)
    ]

module _ {Q : Type 0} where
  -- A message with bytes is read only inside its buffer, and sending it leaves the queue alone.
  send_message-defined :
      (env : SendEnv) (m : Message) (c : Channel Q)
      → IsSendable m
      → ((send_message env m c).1 ≢ Ending.undefined)
        × ((send_message env m c).0.write_queue ≡ c.write_queue)
  unfolding send_message send_bytes
  send_message-defined env m c s =
      ground (arith, to_span-sendable m s, send_loop-defined env.rounds 0 (payload m))

  send_all-defined :
      (envs : List SendEnv) (ms : List Message) (c : Channel Q)
      → AllSendable ms
      → ((send_all envs ms c).1 ≢ Ending.undefined)
        × ((send_all envs ms c).0.write_queue ≡ c.write_queue)
  unfolding send_all
  send_all-defined envs [] c s = ground arith
  send_all-defined [] (m ∷ ms) c s = ground arith
  send_all-defined (env ∷ envs) (m ∷ ms) c s = ground (
    arith,
    send_message-defined env m c s.0,
    send_all-defined envs ms (send_message env m c).0 s.1,
  )

  write_batch-defined :
      (envs : List SendEnv) (ms : List Message) (rest : Q) (c : Channel Q)
      → AllSendable ms
      → ((write_batch envs (ms, rest) c).1 ≢ Reply.undefined)
        × ((write_batch envs (ms, rest) c).0.write_queue ≡ rest)
  unfolding write_batch
  write_batch-defined envs [] rest c s = ground arith
  write_batch-defined envs (m ∷ ms) rest c s =
      ground (arith, send_all-defined envs (m ∷ ms) (record c { write_queue = rest }) s)

append-AllSendable :
    (xs ys : List Message) → AllSendable (xs ++ ys) → AllSendable xs × AllSendable ys
append-AllSendable [] ys s = (tt, s)
append-AllSendable (m ∷ xs) ys s = let (a, b) = append-AllSendable xs ys s.1 in ((s.0, a), b)

snoc-AllSendable :
    (xs : List Message) (m : Message) → AllSendable xs → IsSendable m → AllSendable (xs ++ m ∷ [])
snoc-AllSendable [] m s t = (t, tt)
snoc-AllSendable (x ∷ xs) m s t = (s.0, snoc-AllSendable xs m s.1 t)

module _ {Q : Type 0} (queue : BulkQueue Q Message) (contents : Q → List Message)
    (fifo : IsFifo queue contents) where
  open fifo use {contents-enqueue, contents-dequeue_bulk}

  -- A channel whose queued messages all have bytes.
  abbrev pub IsChannel : Channel Q → Type 0
  IsChannel c = AllSendable (contents c.write_queue)

  -- Every `queueWrite` of a valid message, empty ones included, by a thread that is not the write
  -- thread, keeps the queue to messages with bytes.
  pub queue_write-IsChannel :
      (this_thread : ℕ) (env : SendEnv) (m : Message) (c : Channel Q)
      → this_thread ≢ c.write_thread
      → IsValid m
      → IsChannel c
      → IsChannel (queue_write queue this_thread env m c).0
  queue_write-IsChannel this_thread env m c other v s = elim (Bool-cases c.active) [
    | inl a ↦ elim (dec_lt 0 m.len) [
      | yes p ↦
          rw
            (
              queue_write-enqueue queue this_thread env m c other v a p,
              contents-enqueue m c.write_queue,
            )
            (snoc-AllSendable (contents c.write_queue) m s (v, p))
      | no p ↦ ignored (inr (omega arith))
    ]
    | inr a ↦ ignored (inl a)
  ]
    where
      ignored :
          (c.active ≡ false) ⊎ (m.len ≡ 0) → IsChannel (queue_write queue this_thread env m c).0
      ignored h =
          subst (λ (r : Channel Q × Ending). IsChannel r.0)
            (sym (queue_write-ignores queue this_thread env m c h)) s

  -- A pass over a queue in which every message has bytes never reads memory that is not there,
  -- whatever the system and the other threads do, and leaves such a queue.
  pub handle_write_queue-defined :
      (locked : Bool) (envs : List SendEnv) (c : Channel Q)
      → IsChannel c
      → ((handle_write_queue queue locked envs c).1 ≢ Reply.undefined)
        × IsChannel (handle_write_queue queue locked envs c).0
  unfolding handle_write_queue
  handle_write_queue-defined locked envs c s =
      ground (arith, write_batch-defined envs taken.0 taken.1 c parts.0, parts.1, s)
    where
      taken : List Message × Q
      taken = queue.dequeue_bulk 10 c.write_queue

      parts : AllSendable taken.0 × AllSendable (contents taken.1)
      parts =
          append-AllSendable taken.0 (contents taken.1)
            (subst AllSendable (contents-dequeue_bulk 10 c.write_queue) s)

module _ {Q : Type 0} (queue : BulkQueue Q Message) where
  -- A closed channel is left as it is by every operation: it reads, queues and sends nothing.
  pub inactive_frozen :
      (this_thread : ℕ) (locked still : Bool) (env : SendEnv) (envs : List SendEnv) (m : Message)
      (bytes : List ℕ) (r : RecvResult) (ls : List (Listener Q)) (c : Channel Q)
      → c.active ≡ false
      → (queue_write queue this_thread env m c ≡ (c, returned))
        × (handle_write_queue queue locked envs c ≡ (c, replied false))
        × (read_data locked still r ls c ≡ (c, replied false))
        × (send_bytes env bytes c ≡ (c, returned))
  unfolding queue_write handle_write_queue read_data send_bytes
  inactive_frozen this_thread locked still env envs m bytes r ls c a =
      (ground arith, ground arith, ground arith, ground arith)
