-- ===== src/ClientSocket/Loops.antt =====
-- What the passes of the loops of a client would do with its channel (src/ClientSocket.cpp).
use socket_lib_linux.Prelude.{ℕ, ◌≡◌, ◌≢◌, refl, ap, ◌∙◌, Bool, true, List, [], ◌∷◌, ◌++◌, some}
use socket_lib_linux.Message.{Message}
use socket_lib_linux.BulkQueue.{BulkQueue, IsFifo}
use socket_lib_linux.Channel.{Channel, SendEnv, replied, handle_write_queue}
use socket_lib_linux.Channel.Write.{IsSendable, AllDrain, payload, queue_write-enqueue}
use socket_lib_linux.ServerSocket.Loops.Delivery.{queued-sent}
use socket_lib_linux.ClientSocket.{Client, returned, write, write_pass}

module _ {Q : Type 0} (queue : BulkQueue Q Message) where
  write-queued :
      (this_thread : ℕ) (env : SendEnv) (m : Message) (s : Client Q) (c : Channel Q)
      → s.channel ≡ some c
      → c.active ≡ true
      → this_thread ≢ c.write_thread
      → IsSendable m
      → write queue this_thread env m s
        ≡ returned
            (record s { channel = some (record c { write_queue = queue.enqueue m c.write_queue }) })
  unfolding write
  write-queued this_thread env m s c e a other ok =
      rw (e, queue_write-enqueue queue this_thread env m c other ok.0 a ok.1, write) refl

  write_pass-lem :
      (locked : Bool) (envs : List SendEnv) (s : Client Q) (c : Channel Q)
      → s.active ≡ true
      → s.channel ≡ some c
      → let (c', r) = handle_write_queue queue locked envs c in
        write_pass queue locked envs s ≡ (record s { channel = some c' }, r)
  unfolding write_pass
  write_pass-lem locked envs s c a e = rw (a, e, write_pass) refl

module _ {Q : Type 0} (queue : BulkQueue Q Message) (contents : Q → List Message)
    (fifo : IsFifo queue contents) where
  -- `write` on an active client whose queue is empty only queues the message; one pass of its write
  -- loop that gets the lock, where the dequeue does not miss the message and the system takes all of
  -- it, then sends its bytes.
  pub write_then_pass :
      (this_thread : ℕ) (env : SendEnv) (envs : List SendEnv) (m : Message) (s : Client Q)
      (c : Channel Q)
      → let q = queue.enqueue m c.write_queue in
        let queued : Client Q = record s { channel = some (record c { write_queue = q }) } in
        s.active ≡ true
        → s.channel ≡ some c
        → c.active ≡ true
        → contents c.write_queue ≡ []
        → this_thread ≢ c.write_thread
        → IsSendable m
        → queue.size_approx q ≢ 0
        → (queue.dequeue_bulk 10 q).0 ≢ []
        → AllDrain envs (m ∷ [])
        → (write queue this_thread env m s ≡ returned queued)
          × ((c' : Channel Q) × (write_pass queue true envs queued
                ≡ (record s { channel = some c' }, replied true))
              × (c'.wire ≡ c.wire ++ payload m)
              × (contents c'.write_queue ≡ []))
  write_then_pass this_thread env envs m s c a e on none_waits other ok size taken d =
      let d' : Channel Q = record c { write_queue = queue.enqueue m c.write_queue } in
      let queued : Client Q = record s { channel = some d' } in
      let sent = queued-sent queue contents fifo envs m c on none_waits size taken ok d in
      (
        write-queued queue this_thread env m s c e on other ok,
        (
          (handle_write_queue queue true envs d').0,
          write_pass-lem queue true envs queued d' a refl
              ∙ ap (λ r. (record s { channel = some (handle_write_queue queue true envs d').0 }, r))
                  sent.2,
          sent.0,
          sent.1,
        ),
      )
