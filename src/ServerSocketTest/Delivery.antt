-- ===== src/ServerSocketTest/Delivery.antt =====
-- From a message of one client to the wire of another (test/src/ServerSocketTest.cpp,
-- src/ServerSocket.cpp, src/Socket.cpp).
use socket_lib_linux.Prelude.{
  ℕ, ◌≤◌, ◌<◌, ◌≡◌, ◌≢◌, refl, ap, ◌∙◌, sym, true, false, List, [], ◌∷◌, ◌++◌, Option, none, some,
  arith, length,
}
use socket_lib_linux.Message.{Message, of_bytes}
use socket_lib_linux.Message.Laws.{to_span-of_bytes}
use socket_lib_linux.BulkQueue.{BulkQueue, IsFifo}
use socket_lib_linux.UnorderedMap.{find}
use socket_lib_linux.Channel.{Channel, SendEnv, Reply, is_active, handle_write_queue}
use socket_lib_linux.Channel.Write.{AllDrain}
use socket_lib_linux.Channel.Workers.Order.{to_span-payload}
use socket_lib_linux.ServerSocket.{Server, Outcome, left}
use socket_lib_linux.ServerSocket.Clients.{IsKeyed}
use socket_lib_linux.ServerSocket.Loops.{WriteTurn, write_pass}
use socket_lib_linux.ServerSocket.Loops.Sweep.{AllReply, find-handled}
use socket_lib_linux.ServerSocket.Loops.Delivery.{
  turn_active, turn_call, write_pass-lem, queued-sent,
}
use socket_lib_linux.ServerSocketTest.{stop_word, contains, listen_on_events}
use socket_lib_linux.ServerSocketTest.Text.{of_bytes-IsSendable}
use socket_lib_linux.ServerSocketTest.Forward.{AllOther, listen_on_events-forwards}

-- The state that a call leaves, if it is defined.
abbrev state_of : {S : Type 0} → S → Option (Outcome S) → S
state_of s none = s
state_of s (some o) = left o

module _ {Q : Type 0} (queue : BulkQueue Q Message) (contents : Q → List Message)
    (fifo : IsFifo queue contents) (format : ℕ → List ℕ → List ℕ)
    (longer : (fd : ℕ) (text : List ℕ) → 0 < length (format fd text)) where
  -- A message of at most 256 bytes without "stop" that a client sent to an active server whose map
  -- has the descriptors of the channels as keys, and another client that is active and has an empty
  -- write queue, where no client is written to from its own write thread and `fmt::format` gives a
  -- text that is not empty: after the listener and one pass of a write thread whose calls return,
  -- which gets the lock of that other client and whose dequeue does not miss the message, and in
  -- which the system takes all of it, the text that `fmt::format` makes of the sender's descriptor
  -- and the message is on the wire of the other client behind what it was sent before, and its
  -- queue is empty again. Of the sender the listener has changed nothing but the queue of received
  -- bytes, which is empty.
  pub listen_on_events-write_pass :
      (this_thread : ℕ) (envs : ℕ → SendEnv) (turn : ℕ → WriteTurn) (id k : ℕ) (s t : Server Q)
      (c d : Channel Q)
      → let m = of_bytes (format id c.incoming) in
        let q = queue.enqueue m d.write_queue in
        s.active ≡ true
        → IsKeyed s.clients
        → AllOther this_thread s.clients
        → find id s.clients ≡ some c
        → find k s.clients ≡ some d
        → k ≢ id
        → d.active ≡ true
        → contents d.write_queue ≡ []
        → length c.incoming ≤ 256
        → contains stop_word c.incoming ≡ false
        → listen_on_events queue format this_thread envs id s ≡ some (Outcome.returned t)
        → (turn k).socket_active ≡ true
        → (turn k).locked ≡ true
        → queue.size_approx q ≢ 0
        → (queue.dequeue_bulk 10 q).0 ≢ []
        → AllDrain (turn k).envs (m ∷ [])
        → AllReply (turn_active queue turn) (turn_call queue turn) t.clients
        → (find id t.clients ≡ some (record c { incoming = [] }))
          × ((d' : Channel Q) × (find k (write_pass queue turn t).0.clients ≡ some d')
              × (d'.wire ≡ d.wire ++ format id c.incoming)
              × (contents d'.write_queue ≡ []))
  listen_on_events-write_pass this_thread envs turn id k s t c d a keyed o e f n on none_waits short
        plain returns still free size taken drains all =
      let m : Message = of_bytes (format id c.incoming) in
      let q : Q = queue.enqueue m d.write_queue in
      let d₁ : Channel Q = record d { write_queue = q } in
      let (cs, ends, own, others) =
        listen_on_events-forwards queue format longer this_thread envs id s c keyed o e short
          plain in
      let same : record s { clients = cs } ≡ t = ap (state_of s) (sym ends ∙ returns) in
      let there : find k t.clients ≡ some d₁ =
        ap (λ (u : Server Q). find k u.clients) (sym same) ∙ others k d f n ∙ rw on refl in
      let active_t : t.active ≡ true = ap (λ (u : Server Q). u.active) (sym same) ∙ a in
      let active_at : is_active (turn k).socket_active d₁ ≡ true =
        unfold is_active in ground arith in
      let call_at : turn_call queue turn k d₁ ≡ handle_write_queue queue true (turn k).envs d₁ =
        ap (λ b. handle_write_queue queue b (turn k).envs d₁) free in
      let sent =
        queued-sent queue contents fifo (turn k).envs m d on none_waits size taken
          (of_bytes-IsSendable (format id c.incoming) (longer id c.incoming)) drains in
      (
        ap (λ (u : Server Q). find id u.clients) (sym same) ∙ own,
        rw (write_pass-lem queue turn t active_t all) (
          (turn_call queue turn k d₁).0,
          find-handled (turn_active queue turn) (turn_call queue turn) k t.clients d₁ there
              active_at,
          ap (λ (x : Channel Q × Reply). x.0.wire) call_at
              ∙ sent.0
              ∙ ap (λ xs. d.wire ++ xs)
                  (to_span-payload m (format id c.incoming)
                    (to_span-of_bytes (format id c.incoming))),
          ap (λ (x : Channel Q × Reply). contents x.0.write_queue) call_at ∙ sent.1,
        ),
      )
