-- ===== src/ServerSocketTest/Stop.antt =====
-- The word that stops either program (test/src/ServerSocketTest.cpp, test/src/ClientSocketTest.cpp).
use socket_lib_linux.Prelude.{
  ℕ, ◌≤◌, ◌<◌, ◌≡◌, ◌≢◌, refl, sym, subst, inl, inr, true, false, List, [], ◌∷◌, ◌++◌, some,
  Bool-cases, length, ==-refl,
}
use socket_lib_linux.Message.{Message, of_bytes}
use socket_lib_linux.BulkQueue.{BulkQueue}
use socket_lib_linux.UnorderedMap.{find, adjust}
use socket_lib_linux.Channel.{Channel, SendEnv}
use socket_lib_linux.Channel.Write.{queue_write-enqueue}
use socket_lib_linux.ServerSocket.{Server, Outcome, notify_stop}
use socket_lib_linux.ClientSocket.{Client}
use socket_lib_linux.ClientSocket
use socket_lib_linux.ServerSocketTest.{
  stop_word, starts_with, contains, on_text, listen_on_events, answer,
}
use socket_lib_linux.ServerSocketTest.Text.{read_text-lem, of_bytes-IsSendable}

starts_with-append : (word text : List ℕ) → starts_with word (word ++ text) ≡ true
starts_with-append [] text = refl
starts_with-append (b ∷ word) text = rw (==-refl b) (starts_with-append word text)

contains-append : (a word b : List ℕ) → contains word (a ++ (word ++ b)) ≡ true
unfolding contains
contains-append [] [] [] = refl
contains-append [] [] (c ∷ b) = refl
contains-append [] (w ∷ word) b = rw (==-refl w, starts_with-append word b) refl
contains-append (c ∷ a) word b =
    rw (contains-append a word b) (elim (Bool-cases (starts_with word (c ∷ (a ++ (word ++ b))))) [
      | inl e ↦ rw e refl
      | inr e ↦ rw e refl
    ])

module _ {Q : Type 0} (queue : BulkQueue Q Message) (format : ℕ → List ℕ → List ℕ) where
  -- A message of at most 256 bytes with "stop" anywhere in it: the server is no longer active, the
  -- bytes leave the incoming queue of the client that sent them, and nothing is written to anyone. A
  -- client program that reads such a message is no longer active either and answers nothing.
  pub listen_on_events-stops :
      (this_thread : ℕ) (envs : ℕ → SendEnv) (id : ℕ) (s : Server Q) (t : Client Q) (c : Channel Q)
      (a b : List ℕ)
      → c.incoming ≡ a ++ (stop_word ++ b)
      → length c.incoming ≤ 256
      → find id s.clients ≡ some c
      → t.channel ≡ some c
      → (listen_on_events queue format this_thread envs id s
          ≡ some (
              Outcome.returned (record s {
                active = false;
                clients = adjust id (record c { incoming = [] }) s.clients;
              })))
        × (answer queue format this_thread (envs id) t
            ≡ some (
                ClientSocket.Outcome.returned
                  (record t { active = false; channel = some (record c { incoming = [] }) })))
  unfolding listen_on_events on_text answer notify_stop
  listen_on_events-stops this_thread envs id s t c a b e short there own =
      let found : contains stop_word c.incoming ≡ true =
        subst (λ xs. contains stop_word xs ≡ true) (sym e) (contains-append a stop_word b) in
      (
        rw (there, read_text-lem c.incoming short, found) refl,
        rw (own, read_text-lem c.incoming short, found) refl,
      )

  -- Any other message of at most 256 bytes, read on a channel that is active by a thread that is not
  -- its write thread, where `fmt::format` gives a text that is not empty: the client program puts one
  -- message with the descriptor and the text at the end of the write queue and goes on.
  pub answer-lem :
      (this_thread : ℕ) (env : SendEnv) (t : Client Q) (c : Channel Q)
      → t.channel ≡ some c
      → c.active ≡ true
      → this_thread ≢ c.write_thread
      → length c.incoming ≤ 256
      → contains stop_word c.incoming ≡ false
      → 0 < length (format c.client_descriptor c.incoming)
      → answer queue format this_thread env t
        ≡ some (
            ClientSocket.Outcome.returned (record t {
              channel = some (record c {
                incoming = [];
                write_queue =
                    queue.enqueue (of_bytes (format c.client_descriptor c.incoming)) c.write_queue;
              });
            }))
  unfolding answer ClientSocket.write
  answer-lem this_thread env t c own on other short plain longer =
      let m : Message = of_bytes (format c.client_descriptor c.incoming) in
      let ok = of_bytes-IsSendable (format c.client_descriptor c.incoming) longer in
      rw
        (
          own,
          read_text-lem c.incoming short,
          plain,
          queue_write-enqueue queue this_thread env m (record c { incoming = [] }) other ok.0 on
              ok.1,
        )
        refl
