-- ===== src/ServerSocket/Loops/Keep.antt =====
-- The passes of the read and the write thread keep the map of clients (src/ServerSocket.cpp).
use socket_lib_linux.Prelude.{
  ℕ, ◌≡◌, refl, ap, ◌∙◌, inl, inr, Bool, true, false, List, [], ◌∷◌, none, some, arith, Bool-cases,
  Option-cases,
}
use socket_lib_linux.Message.{Message}
use socket_lib_linux.BulkQueue.{BulkQueue}
use socket_lib_linux.Channel.{
  Channel, Ending, SendEnv, RecvResult, received, recv_failed, Listener, Reply, replied, is_active,
  send_message, send_all, and_then, write_reply, write_batch, handle_write_queue, listen,
  handle_received, read_data,
}
use socket_lib_linux.UnorderedMap.{find}
use socket_lib_linux.ServerSocket.{Server}
use socket_lib_linux.ServerSocket.Clients.{IsKeyed, keys}
use socket_lib_linux.ServerSocket.Loops.{visited, sweep, WriteTurn, ReadTurn, write_pass, read_pass}

module _ {Q : Type 0} where
  client_descriptor-send_message :
      (env : SendEnv) (m : Message) (c : Channel Q)
      → (send_message env m c).0.client_descriptor ≡ c.client_descriptor
  unfolding send_message
  client_descriptor-send_message env m c = ground arith

  client_descriptor-and_then :
      (r : Channel Q × Ending) (k : Channel Q → Channel Q × Ending)
      → ((c : Channel Q) → (k c).0.client_descriptor ≡ c.client_descriptor)
      → (and_then r k).0.client_descriptor ≡ r.0.client_descriptor
  client_descriptor-and_then (c, Ending.returned) k h = h c
  client_descriptor-and_then (c, Ending.threw) k h = refl
  client_descriptor-and_then (c, Ending.waiting) k h = refl
  client_descriptor-and_then (c, Ending.undefined) k h = refl

  client_descriptor-send_all :
      (envs : List SendEnv) (ms : List Message) (c : Channel Q)
      → (send_all envs ms c).0.client_descriptor ≡ c.client_descriptor
  unfolding send_all
  client_descriptor-send_all envs [] c = refl
  client_descriptor-send_all [] (m ∷ ms) c = refl
  client_descriptor-send_all (env ∷ envs) (m ∷ ms) c =
      client_descriptor-and_then (send_message env m c) (send_all envs ms)
        (client_descriptor-send_all envs ms)
      ∙ client_descriptor-send_message env m c

  client_descriptor-write_reply :
      (r : Channel Q × Ending) → (write_reply r).0.client_descriptor ≡ r.0.client_descriptor
  client_descriptor-write_reply (c, Ending.returned) = refl
  client_descriptor-write_reply (c, Ending.threw) = refl
  client_descriptor-write_reply (c, Ending.waiting) = refl
  client_descriptor-write_reply (c, Ending.undefined) = refl

  client_descriptor-write_batch :
      (envs : List SendEnv) (b : List Message × Q) (c : Channel Q)
      → (write_batch envs b c).0.client_descriptor ≡ c.client_descriptor
  unfolding write_batch
  client_descriptor-write_batch envs ([], rest) c = refl
  client_descriptor-write_batch envs (m ∷ ms, rest) c =
      client_descriptor-write_reply (send_all envs (m ∷ ms) (record c { write_queue = rest }))
      ∙ client_descriptor-send_all envs (m ∷ ms) (record c { write_queue = rest })

  -- The descriptor of a channel is a constant, also for the listeners.
  abbrev pub KeepDescriptor : List (Listener Q) → Type 0
  KeepDescriptor [] = Unit {0}
  KeepDescriptor (l ∷ ls) =
      ((c c' : Channel Q) → l c ≡ some c' → c'.client_descriptor ≡ c.client_descriptor)
      × KeepDescriptor ls

  client_descriptor-listen :
      (ls : List (Listener Q)) (c : Channel Q)
      → KeepDescriptor ls
      → (listen ls c).0.client_descriptor ≡ c.client_descriptor
  unfolding listen
  client_descriptor-listen [] c h = refl
  client_descriptor-listen (l ∷ ls) c h = elim (Option-cases (l c)) [
    | inl e ↦ rw (e, listen) refl
    | inr (c', e) ↦ rw (e, listen) (client_descriptor-listen ls c' h.1 ∙ h.0 c c' e)
  ]

  client_descriptor-handle_received :
      (still : Bool) (r : RecvResult) (ls : List (Listener Q)) (c : Channel Q)
      → KeepDescriptor ls
      → (handle_received still r ls c).0.client_descriptor ≡ c.client_descriptor
  unfolding handle_received
  client_descriptor-handle_received false r ls c h = refl
  client_descriptor-handle_received true (received []) ls c h = refl
  client_descriptor-handle_received true (received (b ∷ bs)) ls c h =
      client_descriptor-listen ls _ h
  client_descriptor-handle_received true (recv_failed e) ls c h = ground arith

  pub client_descriptor-read_data :
      (locked still : Bool) (r : RecvResult) (ls : List (Listener Q)) (c : Channel Q)
      → KeepDescriptor ls
      → (read_data locked still r ls c).0.client_descriptor ≡ c.client_descriptor
  unfolding read_data
  client_descriptor-read_data locked still r ls c h =
      ground (arith, client_descriptor-handle_received still r ls c h)

module _ {Q : Type 0} (queue : BulkQueue Q Message) where
  pub client_descriptor-handle_write_queue :
      (locked : Bool) (envs : List SendEnv) (c : Channel Q)
      → (handle_write_queue queue locked envs c).0.client_descriptor ≡ c.client_descriptor
  unfolding handle_write_queue
  client_descriptor-handle_write_queue locked envs c =
      ground (arith, client_descriptor-write_batch envs (queue.dequeue_bulk 10 c.write_queue) c)

module _ {Q : Type 0} (socket_active : ℕ → Bool) (call : ℕ → Channel Q → Channel Q × Reply) where
  keys-visited :
      (k : ℕ) (r : Channel Q × Reply) (cs : List (ℕ × Channel Q))
      (ds : List (ℕ × Channel Q) × Reply)
      → keys ds.0 ≡ keys cs
      → keys (visited k r cs ds).0 ≡ k ∷ keys cs
  keys-visited k (c, replied b) cs (ds, r) h = ap (◌∷◌ k) h
  keys-visited k (c, Reply.in_progress) cs ds h = refl
  keys-visited k (c, Reply.undefined) cs ds h = refl
  keys-visited k (c, Reply.terminated) cs ds h = refl

  pub keys-sweep : (cs : List (ℕ × Channel Q)) → keys (sweep socket_active call cs).0 ≡ keys cs
  unfolding sweep
  keys-sweep [] = refl
  keys-sweep ((k, c) ∷ cs) = ground (
    arith,
    keys-sweep cs,
    keys-visited k (call k c) cs (sweep socket_active call cs) (keys-sweep cs),
  )

  visited-IsKeyed :
      (k : ℕ) (r : Channel Q × Reply) (cs : List (ℕ × Channel Q))
      (ds : List (ℕ × Channel Q) × Reply)
      → r.0.client_descriptor ≡ k
      → find k cs ≡ none
      → find k ds.0 ≡ none
      → IsKeyed cs
      → IsKeyed ds.0
      → IsKeyed (visited k r cs ds).0
  visited-IsKeyed k (c, replied b) cs (ds, r) e n n' h h' = (e, n', h')
  visited-IsKeyed k (c, Reply.in_progress) cs ds e n n' h h' = (e, n, h)
  visited-IsKeyed k (c, Reply.undefined) cs ds e n n' h h' = (e, n, h)
  visited-IsKeyed k (c, Reply.terminated) cs ds e n n' h h' = (e, n, h)

  find-of_keys :
      (k : ℕ) (cs ds : List (ℕ × Channel Q))
      → keys ds ≡ keys cs
      → find k cs ≡ none
      → find k ds ≡ none
  unfolding find
  find-of_keys k [] [] e h = refl
  find-of_keys k [] (d ∷ ds) e h = absurd (cc)
  find-of_keys k (c ∷ cs) [] e h = refl
  find-of_keys k ((i, c) ∷ cs) ((j, d) ∷ ds) e h = ground (arith, find-of_keys k cs ds)

  pub sweep-IsKeyed :
      ((k : ℕ) (c : Channel Q) → (call k c).0.client_descriptor ≡ c.client_descriptor)
      → (cs : List (ℕ × Channel Q)) → IsKeyed cs
      → IsKeyed (sweep socket_active call cs).0
  unfolding sweep
  sweep-IsKeyed keep [] h = tt
  sweep-IsKeyed keep ((k, c) ∷ cs) h =
      let later = sweep-IsKeyed keep cs h.2 in
      let free = find-of_keys k cs (sweep socket_active call cs).0 (keys-sweep cs) h.1 in
      elim (Bool-cases (is_active (socket_active k) c)) [
        | inl on ↦ rw on (
            visited-IsKeyed k (call k c) cs (sweep socket_active call cs) (keep k c ∙ h.0) h.1 free
              h.2 later)
        | inr off ↦ rw off (h.0, free, later)
      ]

module _ {Q : Type 0} (queue : BulkQueue Q Message) where
  -- One pass of a write thread, and one of a read thread over listeners that leave the descriptor alone,
  -- keep each client under its own descriptor and the keys in their order.
  pub write_pass-IsKeyed :
      (turn : ℕ → WriteTurn) (s : Server Q)
      → IsKeyed s.clients
      → IsKeyed (write_pass queue turn s).0.clients
        × (keys (write_pass queue turn s).0.clients ≡ keys s.clients)
  unfolding write_pass
  write_pass-IsKeyed turn s h = elim (Bool-cases s.active) [
    | inl on ↦ rw on (
      sweep-IsKeyed (λ k. (turn k).socket_active)
          (λ k c. handle_write_queue queue (turn k).locked (turn k).envs c)
          (λ k c. client_descriptor-handle_write_queue queue (turn k).locked (turn k).envs c)
          s.clients h,
      keys-sweep (λ k. (turn k).socket_active)
          (λ k c. handle_write_queue queue (turn k).locked (turn k).envs c) s.clients,
    )
    | inr off ↦ rw off (h, refl)
  ]

module _ {Q : Type 0} where
  pub read_pass-IsKeyed :
      (turn : ℕ → ReadTurn) (ls : List (Listener Q)) (s : Server Q)
      → KeepDescriptor ls
      → IsKeyed s.clients
      → IsKeyed (read_pass turn ls s).0.clients
        × (keys (read_pass turn ls s).0.clients ≡ keys s.clients)
  unfolding read_pass
  read_pass-IsKeyed turn ls s keep h = elim (Bool-cases s.active) [
    | inl on ↦ rw on (
      sweep-IsKeyed (λ k. (turn k).socket_active)
          (λ k c. read_data (turn k).locked (turn k).still (turn k).answer ls c)
          (λ k c.
            client_descriptor-read_data (turn k).locked (turn k).still (turn k).answer ls c keep)
          s.clients h,
      keys-sweep (λ k. (turn k).socket_active)
          (λ k c. read_data (turn k).locked (turn k).still (turn k).answer ls c) s.clients,
    )
    | inr off ↦ rw off (h, refl)
  ]
