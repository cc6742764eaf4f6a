-- ===== src/Channel/Write.antt =====
-- `Channel::queueWrite` and `Channel::handleWriteQueue` (src/Socket.cpp): from a queued message to
-- the bytes that the system takes.
use socket_lib_linux.Prelude.{
  ℕ, ◌≤◌, ◌<◌, ◌≡◌, ◌≢◌, refl, ◌∙◌, inl, inr, ◌⊎◌, true, false, ◌&&◌, ltb, List, [], ◌∷◌, ◌++◌,
  append_assoc, append-nil, Option, none, some, arith, length, Bool-cases, if◌then◌else◌,
}
use socket_lib_linux.Message.{Message, to_span}
use socket_lib_linux.Message.Laws.{IsValid, copy_valid}
use socket_lib_linux.BulkQueue.{BulkQueue, IsFifo}
use socket_lib_linux.Channel.Send.{Drains, send_loop-delivered}
use socket_lib_linux.Channel.{
  returned, SendEnv, Channel, replied, send_bytes, send_message, send_all, write_batch,
  handle_write_queue, queue_write,
}

-- A message that has bytes to send.
abbrev pub IsSendable : Message → Type 0
IsSendable m = IsValid m × (0 < m.len)

abbrev pub AllSendable : List Message → Type 0
AllSendable [] = Unit {0}
AllSendable (m ∷ ms) = IsSendable m × AllSendable ms

abbrev bytes_of : Option (List ℕ) → List ℕ
bytes_of none = []
bytes_of (some b) = b

abbrev pub payload : Message → List ℕ
payload m = bytes_of m.buf

abbrev pub payloads : List Message → List ℕ
payloads [] = []
payloads (m ∷ ms) = payload m ++ payloads ms

-- The system takes the whole of every message.
abbrev pub AllDrain : List SendEnv → List Message → Type 0
AllDrain envs [] = Unit {0}
AllDrain [] (m ∷ ms) = ⊥
AllDrain (env ∷ envs) (m ∷ ms) =
    (env.socket_active ≡ true) × Drains env.rounds (payload m) × AllDrain envs ms

pub to_span-sendable :
    (m : Message) → IsSendable m → (to_span m ≡ some (payload m)) × (0 < length (payload m))
unfolding to_span
to_span-sendable m s = ground arith

module _ {Q : Type 0} where
  send_message-delivered :
      (env : SendEnv) (m : Message) (c : Channel Q)
      → c.active ≡ true
      → env.socket_active ≡ true
      → IsSendable m
      → Drains env.rounds (payload m)
      → send_message env m c ≡ (record c { wire = c.wire ++ payload m }, returned)
  unfolding send_message send_bytes
  send_message-delivered env m c a sa s d =
      let shown : to_span m ≡ some (payload m) = (to_span-sendable m s).0 in
      rw (shown, send_message)
        (ground (arith, send_loop-delivered env.rounds 0 (payload m) (to_span-sendable m s).1 d))

  send_all-delivered :
      (envs : List SendEnv) (ms : List Message) (c : Channel Q)
      → c.active ≡ true
      → AllSendable ms
      → AllDrain envs ms
      → send_all envs ms c ≡ (record c { wire = c.wire ++ payloads ms }, returned)
  unfolding send_all
  send_all-delivered envs [] c a s d = rw append-nil refl
  send_all-delivered [] (m ∷ ms) c a s d = absurd d
  send_all-delivered (env ∷ envs) (m ∷ ms) c a s d =
      rw (send_message-delivered env m c a d.0 s.0 d.1, send_all)
        (send_all-delivered envs ms (record c { wire = c.wire ++ payload m }) a s.1 d.2
          ∙ rw append_assoc refl)

  write_batch-delivered :
      (envs : List SendEnv) (ms : List Message) (rest : Q) (c : Channel Q)
      → c.active ≡ true
      → ms ≢ []
      → AllSendable ms
      → AllDrain envs ms
      → write_batch envs (ms, rest) c
        ≡ (record c { write_queue = rest; wire = c.wire ++ payloads ms }, replied true)
  unfolding write_batch
  write_batch-delivered envs [] rest c a ne s d = absurd (ne refl)
  write_batch-delivered envs (m ∷ ms) rest c a ne s d =
      rw (send_all-delivered envs (m ∷ ms) (record c { write_queue = rest }) a s d, write_batch)
        refl

module _ {Q : Type 0} (queue : BulkQueue Q Message) where
  pub queue_write-enqueue :
      (this_thread : ℕ) (env : SendEnv) (m : Message) (c : Channel Q)
      → this_thread ≢ c.write_thread
      → IsValid m
      → c.active ≡ true
      → 0 < m.len
      → queue_write queue this_thread env m c
        ≡ (record c { write_queue = queue.enqueue m c.write_queue }, returned)
  unfolding queue_write
  queue_write-enqueue this_thread env m c other v a p = ground (arith, copy_valid m v)

  pub queue_write-ignores :
      (this_thread : ℕ) (env : SendEnv) (m : Message) (c : Channel Q)
      → (c.active ≡ false) ⊎ (m.len ≡ 0)
      → queue_write queue this_thread env m c ≡ (c, returned)
  unfolding queue_write
  queue_write-ignores this_thread env m c h = ground arith

  handle-batch :
      (envs : List SendEnv) (c : Channel Q)
      → c.active ≡ true
      → queue.size_approx c.write_queue ≢ 0
      → handle_write_queue queue true envs c
        ≡ write_batch envs (queue.dequeue_bulk 10 c.write_queue) c
  unfolding handle_write_queue
  handle-batch envs c a size = ground arith

module _ {Q : Type 0} (queue : BulkQueue Q Message) (contents : Q → List Message)
    (fifo : IsFifo queue contents) where
  open fifo use {contents-enqueue, contents-dequeue_bulk, dequeue_bulk-le}

  -- `queueWrite`, called by any thread but the write thread: a valid message with bytes goes to the end
  -- of the queue of an active channel, any other is ignored. Nothing is sent at once, nothing is
  -- thrown, and no other member changes.
  pub queue_write-queues :
      (this_thread : ℕ) (env : SendEnv) (m : Message) (c : Channel Q)
      → this_thread ≢ c.write_thread
      → IsValid m
      → let q = (queue_write queue this_thread env m c).0.write_queue in
        (queue_write queue this_thread env m c ≡ (record c { write_queue = q }, returned))
        × (contents q ≡ contents c.write_queue ++ (if c.active && ltb 0 m.len then m ∷ [] else []))
  queue_write-queues this_thread env m c other v = elim (Bool-cases (c.active && ltb 0 m.len)) [
    | inl taken ↦
        rw
          (
            queue_write-enqueue queue this_thread env m c other v (ground arith) (ground arith),
            taken,
          )
          (refl, contents-enqueue m c.write_queue)
    | inr not_taken ↦
        rw (queue_write-ignores queue this_thread env m c (ground arith), not_taken)
          (refl, rw append-nil refl)
  ]

  -- One pass over the queue of an active channel that takes the write lock and finds messages, at
  -- most ten, at the front of the queue: if each has bytes and the system takes every message whole,
  -- their bytes are sent in the order in which they were queued, and the pass says that it wrote.
  pub handle_write_queue-delivered :
      (envs : List SendEnv) (c : Channel Q)
      → let ms = (queue.dequeue_bulk 10 c.write_queue).0 in
        c.active ≡ true
        → queue.size_approx c.write_queue ≢ 0
        → ms ≢ []
        → AllSendable ms
        → AllDrain envs ms
        → (handle_write_queue queue true envs c ≡ (
          record c {
            write_queue = (queue.dequeue_bulk 10 c.write_queue).1;
            wire = c.wire ++ payloads ms;
          },
          replied true,
        ))
          × (contents c.write_queue ≡ ms ++ contents (queue.dequeue_bulk 10 c.write_queue).1)
          × (length ms ≤ 10)
  handle_write_queue-delivered envs c a size nonempty s d = (
    handle-batch queue envs c a size
        ∙ write_batch-delivered envs (queue.dequeue_bulk 10 c.write_queue).0
            (queue.dequeue_bulk 10 c.write_queue).1 c a nonempty s d,
    contents-dequeue_bulk 10 c.write_queue,
    dequeue_bulk-le 10 c.write_queue,
  )
