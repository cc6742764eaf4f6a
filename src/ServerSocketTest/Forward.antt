-- ===== src/ServerSocketTest/Forward.antt =====
-- Where a message goes that one client sends (test/src/ServerSocketTest.cpp).
use socket_lib_linux.Prelude.{
  ℕ, ◌≤◌, ◌<◌, ◌≡◌, ◌≢◌, refl, ap, ◌∙◌, sym, subst, ◌⊎◌, inl, inr, false, List, [], ◌∷◌, some,
  arith, Bool-cases, length, ==-refl, ltb, ◌==◌, if◌then◌else◌,
}
use socket_lib_linux.Message.{Message, of_bytes}
use socket_lib_linux.BulkQueue.{BulkQueue}
use socket_lib_linux.UnorderedMap.{find, adjust, find-adjust, find-adjust_ne, length-adjust}
use socket_lib_linux.Channel.{Channel, Ending, SendEnv}
use socket_lib_linux.Channel.Write.{IsSendable, queue_write-enqueue, queue_write-ignores}
use socket_lib_linux.ServerSocket.{Server, Outcome}
use socket_lib_linux.ServerSocket.Clients.{IsKeyed}
use socket_lib_linux.ServerSocket.Keys.{find-descriptor}
use socket_lib_linux.ServerSocketTest.{stop_word, contains, forward, on_text, listen_on_events}
use socket_lib_linux.ServerSocketTest.Text.{read_text-lem, of_bytes-IsSendable}

module _ {Q : Type 0} where
  -- No client is written to from its own write thread.
  abbrev pub AllOther : ℕ → List (ℕ × Channel Q) → Type 0
  AllOther this_thread [] = Unit {0}
  AllOther this_thread ((id, c) ∷ cs) = (this_thread ≢ c.write_thread) × AllOther this_thread cs

module _ {Q : Type 0} (queue : BulkQueue Q Message) where
  -- A client as the others' messages find it.
  abbrev heard : ℕ → Message → Channel Q → Channel Q
  heard fd m c =
      if fd == c.client_descriptor
      then c
      else if c.active
      then record c { write_queue = queue.enqueue m c.write_queue }
      else c

  told : ℕ → Message → List (ℕ × Channel Q) → List (ℕ × Channel Q)
  told fd m [] = []
  told fd m ((id, c) ∷ cs) = (id, heard fd m c) ∷ told fd m cs

  find-told :
      (k fd : ℕ) (m : Message) (c : Channel Q) (cs : List (ℕ × Channel Q))
      → find k cs ≡ some c
      → find k (told fd m cs) ≡ some (heard fd m c)
  unfolding find told
  find-told k fd m c [] h = absurd (cc)
  find-told k fd m c ((id, d) ∷ cs) h = ground (arith, find-told k fd m c cs)

  forward-told :
      (this_thread : ℕ) (envs : ℕ → SendEnv) (fd : ℕ) (m : Message) (cs : List (ℕ × Channel Q))
      → AllOther this_thread cs
      → IsSendable m
      → forward queue this_thread envs fd m cs ≡ (told fd m cs, Ending.returned)
  unfolding forward told
  forward-told this_thread envs fd m [] o ok = refl
  forward-told this_thread envs fd m ((id, c) ∷ cs) o ok =
      rw (forward-told this_thread envs fd m cs o.1 ok)
        (elim (Bool-cases (fd == c.client_descriptor)) [
          | inl own ↦ rw own refl
          | inr other ↦ elim (Bool-cases c.active) [
            | inl on ↦
                rw (other, queue_write-enqueue queue this_thread (envs id) m c o.0 ok.0 on ok.1, on)
                  refl
            | inr off ↦
                rw (other, queue_write-ignores queue this_thread (envs id) m c (inl off), off) refl
          ]
        ])

  -- A client that is there, another one, and so more than one
  two_clients :
      (j k : ℕ) (c d : Channel Q) (cs : List (ℕ × Channel Q))
      → find j cs ≡ some c
      → find k cs ≡ some d
      → j ≢ k
      → 1 < length cs
  unfolding find
  two_clients j k c d [] e f n = absurd (cc)
  two_clients j k c d ((i, b) ∷ []) e f n = ground arith
  two_clients j k c d ((i, b) ∷ (h, a) ∷ cs) e f n = omega arith

  AllOther-adjust :
      (this_thread k : ℕ) (c : Channel Q) (cs : List (ℕ × Channel Q))
      → this_thread ≢ c.write_thread
      → AllOther this_thread cs
      → AllOther this_thread (adjust k c cs)
  unfolding adjust
  AllOther-adjust this_thread k c [] n o = tt
  AllOther-adjust this_thread k c ((i, d) ∷ cs) n o =
      ground (arith, AllOther-adjust this_thread k c cs n o.1)

  AllOther-find :
      (this_thread k : ℕ) (c : Channel Q) (cs : List (ℕ × Channel Q))
      → AllOther this_thread cs
      → find k cs ≡ some c
      → this_thread ≢ c.write_thread
  unfolding find
  AllOther-find this_thread k c [] o e = absurd (cc)
  AllOther-find this_thread k c ((i, d) ∷ cs) o e =
      ground (arith, AllOther-find this_thread k c cs o.1, o.0)

  module _ (format : ℕ → List ℕ → List ℕ)
      (longer : (fd : ℕ) (text : List ℕ) → 0 < length (format fd text)) where
    -- What a message leaves of the clients.
    abbrev passed_on : ℕ → List ℕ → List (ℕ × Channel Q) → List (ℕ × Channel Q)
    passed_on fd text cs = if ltb 1 (length cs) then told fd (of_bytes (format fd text)) cs else cs

    on_text-told :
        (this_thread : ℕ) (envs : ℕ → SendEnv) (fd : ℕ) (text : List ℕ) (s : Server Q)
        → AllOther this_thread s.clients
        → contains stop_word text ≡ false
        → on_text queue format this_thread envs fd text s
          ≡ Outcome.returned (record s { clients = passed_on fd text s.clients })
    unfolding on_text
    on_text-told this_thread envs fd text s o plain =
        let told_all =
          forward-told this_thread envs fd (of_bytes (format fd text)) s.clients o
            (of_bytes-IsSendable (format fd text) (longer fd text)) in
        rw (plain, told_all)
          (elim (Bool-cases (ltb 1 (length s.clients))) [
            | inl several ↦ rw several refl
            | inr alone ↦ rw alone refl
          ])

    abbrev heard_from : ℕ → Channel Q → List (ℕ × Channel Q) → List (ℕ × Channel Q)
    heard_from id c cs =
        passed_on c.client_descriptor c.incoming (adjust id (record c { incoming = [] }) cs)

    listen-passed_on :
        (this_thread : ℕ) (envs : ℕ → SendEnv) (id : ℕ) (s : Server Q) (c : Channel Q)
        → AllOther this_thread s.clients
        → find id s.clients ≡ some c
        → length c.incoming ≤ 256
        → contains stop_word c.incoming ≡ false
        → listen_on_events queue format this_thread envs id s
          ≡ some (Outcome.returned (record s { clients = heard_from id c s.clients }))
    unfolding listen_on_events
    listen-passed_on this_thread envs id s c o e short plain =
        let c' : Channel Q = record c { incoming = [] } in
        let others =
          AllOther-adjust this_thread id c' s.clients (AllOther-find this_thread id c s.clients o e)
            o in
        rw (e, read_text-lem c.incoming short)
          (ap some (
            on_text-told this_thread envs c.client_descriptor c.incoming
              (record s { clients = adjust id c' s.clients }) others plain))

    -- A client that is there is left as it hears the message, or alone and left as it is.
    find-passed_on :
        (k fd : ℕ) (text : List ℕ) (d : Channel Q) (cs : List (ℕ × Channel Q))
        → find k cs ≡ some d
        → (fd ≡ d.client_descriptor) ⊎ (1 < length cs)
        → find k (passed_on fd text cs) ≡ some (heard fd (of_bytes (format fd text)) d)
    find-passed_on k fd text d cs e h = elim (Bool-cases (ltb 1 (length cs))) [
      | inl several ↦ rw several (find-told k fd (of_bytes (format fd text)) d cs e)
      | inr alone ↦
          let own : fd ≡ d.client_descriptor = ground arith in
          rw (alone, own, ==-refl d.client_descriptor) e
    ]

    -- A message of at most 256 bytes that a client sent to the server and that does not contain
    -- "stop", where the map has the descriptors of the channels as keys, no client is written to
    -- from its own write thread and `fmt::format` gives a text that is not empty: the listener
    -- returns, the bytes leave the incoming queue of that client and nothing else of it changes,
    -- every other client that is active gets one new message at the end of its write queue, with
    -- the descriptor of the sender and the text in it, and every other one that is not active stays
    -- as it is. Nothing but the clients changes.
    pub listen_on_events-forwards :
        (this_thread : ℕ) (envs : ℕ → SendEnv) (id : ℕ) (s : Server Q) (c : Channel Q)
        → IsKeyed s.clients
        → AllOther this_thread s.clients
        → find id s.clients ≡ some c
        → length c.incoming ≤ 256
        → contains stop_word c.incoming ≡ false
        → (cs : List (ℕ × Channel Q)) × (listen_on_events queue format this_thread envs id s
            ≡ some (Outcome.returned (record s { clients = cs })))
          × (find id cs ≡ some (record c { incoming = [] }))
          × ((k : ℕ) (d : Channel Q)
              → find k s.clients ≡ some d
              → k ≢ id
              → find k cs
                ≡ some (
                    if d.active
                    then record d {
                      write_queue = queue.enqueue (of_bytes (format id c.incoming)) d.write_queue;
                    }
                    else d))
    listen_on_events-forwards this_thread envs id s c keyed o e short plain =
        let c' : Channel Q = record c { incoming = [] } in
        let cs : List (ℕ × Channel Q) = adjust id c' s.clients in
        let own : c.client_descriptor ≡ id = find-descriptor id s.clients c keyed e in
        (
          heard_from id c s.clients,
          listen-passed_on this_thread envs id s c o e short plain,
          find-passed_on id c.client_descriptor c.incoming c' cs (find-adjust id c c' s.clients e)
                (inl refl)
              ∙ rw (==-refl c.client_descriptor) refl,
          λ k d f n.
              let there : find k cs ≡ some d = find-adjust_ne k id c' s.clients n ∙ f in
              let several : 1 < length cs = omega (
                arith,
                length-adjust id c' s.clients,
                two_clients id k c d s.clients e f (λ q. n (sym q)),
              ) in
              let other : (id == d.client_descriptor) ≡ false =
                ground (arith, find-descriptor k s.clients d keyed f) in
              subst
                (λ j.
                  find k (passed_on c.client_descriptor c.incoming cs)
                  ≡ some (heard j (of_bytes (format j c.incoming)) d))
                own (find-passed_on k c.client_descriptor c.incoming d cs there (inr several))
              ∙ rw other refl,
        )
