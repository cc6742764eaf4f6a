-- ===== src/ServerSocket/Loops/Delivery.antt =====
-- From `ServerSocket::write` to the wire of the client (src/ServerSocket.cpp, src/Socket.cpp).
use socket_lib_linux.Prelude.{
  ℕ, ◌≡◌, ◌≢◌, refl, ap, ◌∙◌, sym, subst, Bool, true, List, [], ◌∷◌, ◌++◌, append-nil, some, arith,
}
use socket_lib_linux.Message.{Message}
use socket_lib_linux.BulkQueue.{BulkQueue, IsFifo}
use socket_lib_linux.Channel.{Channel, SendEnv, Reply, replied, is_active, handle_write_queue}
use socket_lib_linux.Channel.Write.{
  IsSendable, AllSendable, AllDrain, payload, payloads, queue_write-enqueue,
  handle_write_queue-delivered,
}
use socket_lib_linux.UnorderedMap.{find, adjust, find-adjust}
use socket_lib_linux.ServerSocket.{Server, Outcome, returned, left, write}
use socket_lib_linux.ServerSocket.Loops.{WriteTurn, write_pass}
use socket_lib_linux.ServerSocket.Loops.Sweep.{
  AllReply, handled, any_found, sweep-lem, find-handled, any_found-find,
}

is_singleton :
    {A : Type 0} (a : A) (ts ys : List A) → a ∷ [] ≡ ts ++ ys → ts ≢ [] → (ts ≡ a ∷ []) × (ys ≡ [])
is_singleton a [] ys e ne = absurd (ne refl)
is_singleton a (t ∷ []) ys e ne = (cc, cc)
is_singleton a (t ∷ u ∷ ts) ys e ne = absurd (cc)

module _ {Q : Type 0} (queue : BulkQueue Q Message) where
  abbrev pub turn_active : (ℕ → WriteTurn) → ℕ → Bool
  turn_active turn k = (turn k).socket_active

  abbrev pub turn_call : (ℕ → WriteTurn) → ℕ → Channel Q → Channel Q × Reply
  turn_call turn k c = handle_write_queue queue (turn k).locked (turn k).envs c

  pub write_pass-lem :
      (turn : ℕ → WriteTurn) (s : Server Q)
      → s.active ≡ true
      → AllReply (turn_active turn) (turn_call turn) s.clients
      → write_pass queue turn s ≡ (
        record s { clients = handled (turn_active turn) (turn_call turn) s.clients },
        replied (any_found (turn_active turn) (turn_call turn) s.clients),
      )
  unfolding write_pass
  write_pass-lem turn s a h = rw (a, sweep-lem (turn_active turn) (turn_call turn) s.clients h) refl

  write-queued :
      (this_thread : ℕ) (env : SendEnv) (fd : ℕ) (m : Message) (s : Server Q) (c : Channel Q)
      → find fd s.clients ≡ some c
      → c.active ≡ true
      → this_thread ≢ c.write_thread
      → IsSendable m
      → write queue this_thread env fd m s
        ≡ returned (record s {
          clients = adjust fd (record c { write_queue = queue.enqueue m c.write_queue }) s.clients;
        })
  unfolding write
  write-queued this_thread env fd m s c e a other ok =
      rw (e, queue_write-enqueue queue this_thread env m c other ok.0 a ok.1, write) refl

module _ {Q : Type 0} (queue : BulkQueue Q Message) (contents : Q → List Message)
    (fifo : IsFifo queue contents) where
  open fifo use {contents-enqueue}

  -- `queueWrite` of a message to an active channel whose queue is empty, and then one pass over the
  -- queue, where the dequeue does not come back without the message.
  pub queued-sent :
      (envs : List SendEnv) (m : Message) (c : Channel Q)
      → let q = queue.enqueue m c.write_queue in
        c.active ≡ true
        → contents c.write_queue ≡ []
        → queue.size_approx q ≢ 0
        → (queue.dequeue_bulk 10 q).0 ≢ []
        → IsSendable m
        → AllDrain envs (m ∷ [])
        → let (c', r) = handle_write_queue queue true envs (record c { write_queue = q }) in
          (c'.wire ≡ c.wire ++ payload m) × (contents c'.write_queue ≡ []) × (r ≡ replied true)
  queued-sent envs m c a none_waits size taken ok d =
      let q : Q = queue.enqueue m c.write_queue in
      let (ms, rest) = queue.dequeue_bulk 10 q in
      let one : contents q ≡ m ∷ [] =
        contents-enqueue m c.write_queue ∙ ap (λ xs. xs ++ m ∷ []) none_waits in
      let split : contents q ≡ ms ++ contents rest = fifo.contents-dequeue_bulk 10 q in
      let (only, empty) = is_singleton m ms (contents rest) (sym one ∙ split) taken in
      let done =
        handle_write_queue-delivered queue contents fifo envs (record c { write_queue = q }) a size
          taken (subst AllSendable (sym only) (ok, tt)) (subst (AllDrain envs) (sym only) d) in
      let bytes : payloads ms ≡ payload m = ap payloads only ∙ append-nil (payload m) in
      rw done.0 (ap (λ xs. c.wire ++ xs) bytes, empty, refl)

  -- `write` to a client of a server, where the client is active and nothing waits in its queue, by a
  -- thread that is not its write thread; then one pass of a write thread that gets the lock of that
  -- client. If the calls of the pass return, the dequeue does not miss the message, and the system
  -- takes all of it, then the bytes of the message are behind those that the client was sent before,
  -- its queue is empty again, and the pass says that it found work.
  pub write-write_pass :
      (this_thread : ℕ) (env : SendEnv) (fd : ℕ) (m : Message) (s : Server Q) (c : Channel Q)
      (turn : ℕ → WriteTurn)
      → let q = queue.enqueue m c.write_queue in
        let s' = left (write queue this_thread env fd m s) in
        s.active ≡ true
        → find fd s.clients ≡ some c
        → c.active ≡ true
        → contents c.write_queue ≡ []
        → this_thread ≢ c.write_thread
        → IsSendable m
        → (turn fd).socket_active ≡ true
        → (turn fd).locked ≡ true
        → queue.size_approx q ≢ 0
        → (queue.dequeue_bulk 10 q).0 ≢ []
        → AllDrain (turn fd).envs (m ∷ [])
        → AllReply (turn_active queue turn) (turn_call queue turn) s'.clients
        → let (t, r) = write_pass queue turn s' in
          (r ≡ replied true)
          × ((c' : Channel Q) × (find fd t.clients ≡ some c')
              × (c'.wire ≡ c.wire ++ payload m)
              × (contents c'.write_queue ≡ []))
  write-write_pass this_thread env fd m s c turn a e on none_waits other ok still free size taken d
        all =
      let d' : Channel Q = record c { write_queue = queue.enqueue m c.write_queue } in
      let cs : List (ℕ × Channel Q) = adjust fd d' s.clients in
      let queued = write-queued queue this_thread env fd m s c e on other ok in
      let there : find fd cs ≡ some d' = find-adjust fd c d' s.clients e in
      let all' : AllReply (turn_active queue turn) (turn_call queue turn) cs =
        subst
          (λ (o : Outcome (Server Q)).
            AllReply (turn_active queue turn) (turn_call queue turn) (left o).clients)
          queued all in
      let active_at : is_active (turn fd).socket_active d' ≡ true =
        unfold is_active in ground arith in
      let call_at : turn_call queue turn fd d' ≡ handle_write_queue queue true (turn fd).envs d' =
        ap (λ b. handle_write_queue queue b (turn fd).envs d') free in
      let sent = queued-sent (turn fd).envs m c on none_waits size taken ok d in
      rw (queued, write_pass-lem queue turn (record s { clients = cs }) a all')
        (
          ap replied (
              any_found-find (turn_active queue turn) (turn_call queue turn) fd cs d' there
                active_at (ap (λ (x : Channel Q × Reply). x.1) call_at ∙ sent.2)),
          (
            (turn_call queue turn fd d').0,
            find-handled (turn_active queue turn) (turn_call queue turn) fd cs d' there active_at,
            ap (λ (x : Channel Q × Reply). x.0.wire) call_at ∙ sent.0,
            ap (λ (x : Channel Q × Reply). contents x.0.write_queue) call_at ∙ sent.1,
          ),
        )
