-- ===== src/ServerSocket/Keys.antt =====
-- Every operation on the clients keeps each one under its own descriptor (src/ServerSocket.cpp).
use socket_lib_linux.Prelude.{
  ℕ, ◌≡◌, refl, ◌∙◌, sym, subst, inl, inr, Bool, true, false, List, [], ◌∷◌, none, some, arith,
  Bool-cases, Option-cases,
}
use socket_lib_linux.Message.{Message}
use socket_lib_linux.BulkQueue.{BulkQueue}
use socket_lib_linux.Channel.{Channel, SendEnv, is_active, create, queue_write}
use socket_lib_linux.Channel
use socket_lib_linux.UnorderedMap.{
  find, emplace, erase, adjust, find-erase-none, find-emplace_ne, find-adjust-none, find-emplace,
}
use socket_lib_linux.ServerSocket.Clients.{IsKeyed, live, thread_loop-lem, without, dead}
use socket_lib_linux.ServerSocket.{
  Server, Outcome, returned, threw, left, on_connected_client, close_client, AcceptResult, accepted,
  accept_failed, connection_listen, admit, write, ended_with,
}

module _ {Q : Type 0} where
  pub erase-IsKeyed : (fd : ℕ) (cs : List (ℕ × Channel Q)) → IsKeyed cs → IsKeyed (erase fd cs)
  unfolding erase
  erase-IsKeyed fd [] h = tt
  erase-IsKeyed fd ((k, c) ∷ cs) h =
      ground (arith, erase-IsKeyed fd cs h.2, find-erase-none k fd cs h.1)

  pub emplace-IsKeyed :
      (fd : ℕ) (d : Channel Q) (cs : List (ℕ × Channel Q))
      → d.client_descriptor ≡ fd
      → IsKeyed cs
      → IsKeyed (emplace fd d cs)
  unfolding emplace find
  emplace-IsKeyed fd d [] e h = (e, refl, tt)
  emplace-IsKeyed fd d ((k, c) ∷ cs) e h =
      ground (arith, emplace-IsKeyed fd d cs e h.2, find-emplace_ne k fd d cs)

  pub adjust-IsKeyed :
      (fd : ℕ) (d : Channel Q) (cs : List (ℕ × Channel Q))
      → d.client_descriptor ≡ fd
      → IsKeyed cs
      → IsKeyed (adjust fd d cs)
  unfolding adjust
  adjust-IsKeyed fd d [] e h = tt
  adjust-IsKeyed fd d ((k, c) ∷ cs) e h =
      ground (arith, adjust-IsKeyed fd d cs e h.2, find-adjust-none k fd d cs h.1)

module _ {Q : Type 0} (queue : BulkQueue Q Message) where
  client_descriptor-queue_write :
      (this_thread : ℕ) (env : SendEnv) (m : Message) (c : Channel Q)
      → (queue_write queue this_thread env m c).0.client_descriptor ≡ c.client_descriptor
  unfolding queue_write
  client_descriptor-queue_write this_thread env m c = ground arith

module _ {Q : Type 0} where
  pub find-descriptor :
      (fd : ℕ) (cs : List (ℕ × Channel Q)) (c : Channel Q)
      → IsKeyed cs
      → find fd cs ≡ some c
      → c.client_descriptor ≡ fd
  unfolding find
  find-descriptor fd [] c h e = absurd (cc)
  find-descriptor fd ((k, d) ∷ cs) c h e = ground (arith, find-descriptor fd cs c h.2)

  pub left-ended_with : (e : Channel.Ending) (s : Server Q) → left (ended_with e s) ≡ s
  left-ended_with Channel.returned s = refl
  left-ended_with e s = refl

  pub close_client-IsKeyed :
      (fd : ℕ) (s : Server Q) → IsKeyed s.clients → IsKeyed (left (close_client fd s)).clients
  unfolding close_client
  close_client-IsKeyed fd s h = ground (arith, erase-IsKeyed fd s.clients h)

  pub on_connected_client-IsKeyed :
      (queue : Q) (fd : ℕ) (s : Server Q)
      → IsKeyed s.clients
      → IsKeyed (on_connected_client queue fd s).clients
  unfolding on_connected_client
  on_connected_client-IsKeyed queue fd s h =
      ground (arith, emplace-IsKeyed fd (create fd queue) s.clients refl h)

  admit-IsKeyed :
      (queue : Q) (still : Bool) (r : AcceptResult) (s : Server Q)
      → IsKeyed s.clients
      → IsKeyed (admit queue still r s).clients
  admit-IsKeyed queue still (accept_failed e) s h = h
  admit-IsKeyed queue still (accepted fd) s h =
      ground (arith, on_connected_client-IsKeyed queue fd s h)

  find-live-none :
      (j : ℕ) (active : Bool) (cs : List (ℕ × Channel Q))
      → find j cs ≡ none
      → find j (live active cs) ≡ none
  unfolding find
  find-live-none j active [] h = refl
  find-live-none j active ((k, c) ∷ cs) h = ground (arith, find-live-none j active cs)

  live-IsKeyed : (active : Bool) (cs : List (ℕ × Channel Q)) → IsKeyed cs → IsKeyed (live active cs)
  live-IsKeyed active [] h = tt
  live-IsKeyed active ((k, c) ∷ cs) h =
      ground (arith, live-IsKeyed active cs h.2, find-live-none k active cs h.1)

  -- One pass of the listening thread over a server that is active: it closes the inactive clients,
  -- then adds the one that it accepted.
  pub connection_listen-lem :
      (queue : Q) (still : Bool) (r : AcceptResult) (s : Server Q)
      → IsKeyed s.clients
      → s.active ≡ true
      → connection_listen queue still r s
        ≡ returned
            (admit queue still r (without s (live s.active s.clients) (dead s.active s.clients)))
  unfolding connection_listen
  connection_listen-lem queue still r s h on = ground (arith, thread_loop-lem s h)

  connection_listen-IsKeyed :
      (queue : Q) (still : Bool) (r : AcceptResult) (s : Server Q)
      → IsKeyed s.clients
      → IsKeyed (left (connection_listen queue still r s)).clients
  connection_listen-IsKeyed queue still r s h = elim (Bool-cases s.active) [
    | inl on ↦
        subst (λ (o : Outcome (Server Q)). IsKeyed (left o).clients)
          (sym (connection_listen-lem queue still r s h on))
          (admit-IsKeyed queue still r
            (without s (live s.active s.clients) (dead s.active s.clients))
            (live-IsKeyed s.active s.clients h))
    | inr off ↦ subst (λ (o : Outcome (Server Q)). IsKeyed (left o).clients) (sym (idle off)) h
  ]
    where
      idle : s.active ≡ false → connection_listen queue still r s ≡ returned s
      idle off = unfold connection_listen in ground arith

module _ {Q : Type 0} (queue : BulkQueue Q Message) where
  pub write-IsKeyed :
      (this_thread : ℕ) (env : SendEnv) (fd : ℕ) (m : Message) (s : Server Q)
      → IsKeyed s.clients
      → IsKeyed (left (write queue this_thread env fd m s)).clients
  unfolding write
  write-IsKeyed this_thread env fd m s h = elim (Option-cases (find fd s.clients)) [
    | inl e ↦ rw (e, write) h
    | inr (c, e) ↦
        let c' : Channel Q = (queue_write queue this_thread env m c).0 in
        let own : c'.client_descriptor ≡ fd =
          client_descriptor-queue_write queue this_thread env m c
          ∙ find-descriptor fd s.clients c h e in
        rw (e, write)
          (subst (λ (t : Server Q). IsKeyed t.clients)
            (sym (
              left-ended_with (queue_write queue this_thread env m c).1
                (record s { clients = adjust fd c' s.clients })))
            (adjust-IsKeyed fd c' s.clients own h))
  ]

  -- `onConnectedClient`, `closeClient`, `write` and a pass of `connectionListenLoop`, whether they
  -- return or throw, keep each client in the map once and under its own descriptor.
  pub clients-IsKeyed :
      (this_thread fd : ℕ) (env : SendEnv) (m : Message) (empty : Q) (still : Bool)
      (r : AcceptResult) (s : Server Q)
      → IsKeyed s.clients
      → IsKeyed (on_connected_client empty fd s).clients
        × IsKeyed (left (close_client fd s)).clients
        × IsKeyed (left (write queue this_thread env fd m s)).clients
        × IsKeyed (left (connection_listen empty still r s)).clients
  clients-IsKeyed this_thread fd env m empty still r s h = (
    on_connected_client-IsKeyed empty fd s h,
    close_client-IsKeyed fd s h,
    write-IsKeyed this_thread env fd m s h,
    connection_listen-IsKeyed empty still r s h,
  )

module _ {Q : Type 0} where
  -- In a map whose keys are the descriptors of the channels, a connection under a descriptor that is
  -- not in it, accepted and closed again, leaves the map as it was, and closing it a second time throws
  -- and changes nothing.
  pub close_client-on_connected_client :
      (queue : Q) (fd : ℕ) (s : Server Q)
      → IsKeyed s.clients
      → find fd s.clients ≡ none
      → let closed = close_client fd (on_connected_client queue fd s) in
        ((left closed).clients ≡ s.clients) × (close_client fd (left closed) ≡ threw (left closed))
  unfolding close_client on_connected_client
  close_client-on_connected_client queue fd s h free =
      ground (arith, find-emplace fd (create fd queue) s.clients free)
