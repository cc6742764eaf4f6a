-- ===== src/ServerSocketTest.antt =====
-- test/src/ServerSocketTest.cpp and test/src/ClientSocketTest.cpp: the two programs that use the
-- library, a server that passes each message on to its other clients and a client that answers.
pub mod Text
pub mod Forward
pub mod Stop
pub mod End
pub mod Delivery
mod Tests
use socket_lib_linux.Prelude.{
  ℕ, ◌-◌, Bool, true, false, List, [], ◌∷◌, ◌++◌, Option, none, some, ◌>>=◌, length, ltb, ◌==◌,
  if◌then◌else◌, ◌&&◌, ◌||◌,
}
use socket_lib_linux.Message.{Message, of_bytes, to_span}
use socket_lib_linux.StreamQueue.{size_mod, dequeue_as_message}
use socket_lib_linux.BulkQueue.{BulkQueue}
use socket_lib_linux.UnorderedMap.{find, adjust}
use socket_lib_linux.Channel.{Channel, Ending, SendEnv, queue_write}
use socket_lib_linux.ServerSocket.{Server, Outcome, notify_stop, ended_with}
use socket_lib_linux.ClientSocket.{Client}
use socket_lib_linux.ClientSocket

-- "hi!\n" and "stop"
abbrev pub hi : List ℕ
hi = 104 ∷ 105 ∷ 33 ∷ 10 ∷ []

abbrev pub stop_word : List ℕ
stop_word = 115 ∷ 116 ∷ 111 ∷ 112 ∷ []

abbrev pub starts_with : List ℕ → List ℕ → Bool
starts_with [] text = true
starts_with (b ∷ word) [] = false
starts_with (b ∷ word) (c ∷ text) = b == c && starts_with word text

-- `text.find(word) != std::string::npos`
unfoldable pub contains : List ℕ → List ℕ → Bool
contains word [] = starts_with word []
contains word (c ∷ text) = starts_with word (c ∷ text) || contains word text

-- `incomingQueue.dequeAsMessage().toString()`, and what stays in the queue
unfoldable pub read_text : List ℕ → Option (List ℕ × List ℕ)
unfolding dequeue_as_message to_span
read_text incoming = do
  (m, rest) ← dequeue_as_message (size_mod - 1) incoming
  text ← to_span m
  some (text, rest)

module _ {Q : Type 0} (queue : BulkQueue Q Message) where
  -- `connectEvent`, the same in both programs
  unfoldable pub connect_event : ℕ → SendEnv → Bool → Channel Q → Channel Q × Ending
  unfolding queue_write of_bytes
  connect_event this_thread env connected c =
      if connected then queue_write queue this_thread env (of_bytes hi) c else (c, Ending.returned)

  -- A call that does not return ends the `for`.
  abbrev and_on :
      ℕ
      → Channel Q × Ending
      → List (ℕ × Channel Q)
      → List (ℕ × Channel Q) × Ending
      → List (ℕ × Channel Q) × Ending
  and_on id (c, Ending.returned) cs (ds, e) = ((id, c) ∷ ds, e)
  and_on id (c, e) cs rest = ((id, c) ∷ cs, e)

  -- The `for` of `ServerSocketTest::listenOnEvents`, of a message from the client at `fd`; `envs` is
  -- what happens during each `queueWrite`.
  unfoldable pub forward :
      ℕ → (ℕ → SendEnv) → ℕ → Message → List (ℕ × Channel Q) → List (ℕ × Channel Q) × Ending
  unfolding queue_write
  forward this_thread envs fd m [] = ([], Ending.returned)
  forward this_thread envs fd m ((id, c) ∷ cs) =
      let (ds, e) = forward this_thread envs fd m cs in
      if fd == c.client_descriptor
      then ((id, c) ∷ ds, e)
      else and_on id (queue_write queue this_thread (envs id) m c) cs (ds, e)

-- `format fd text` is `fmt::format("Client {}: {}", fd, text)`, of a library that is not here.
module _ {Q : Type 0} (queue : BulkQueue Q Message) (format : ℕ → List ℕ → List ℕ) where
  -- `ServerSocketTest::listenOnEvents`, behind the call of `dequeAsMessage`
  unfoldable pub on_text : ℕ → (ℕ → SendEnv) → ℕ → List ℕ → Server Q → Outcome (Server Q)
  unfolding contains notify_stop forward of_bytes
  on_text this_thread envs fd text s =
      if contains stop_word text
      then Outcome.returned (notify_stop s)
      else (if ltb 1 (length s.clients)
          then (let (ds, e) =
                forward queue this_thread envs fd (of_bytes (format fd text)) s.clients in
              ended_with e (record s { clients = ds }))
          else Outcome.returned s)

  -- `ServerSocketTest::listenOnEvents` for the client under the key `id`: `none` is a client that is
  -- not there, or memory that is not there.
  unfoldable pub listen_on_events : ℕ → (ℕ → SendEnv) → ℕ → Server Q → Option (Outcome (Server Q))
  unfolding find adjust read_text on_text
  listen_on_events this_thread envs id s = do
    c ← find id s.clients
    (text, rest) ← read_text c.incoming
    some (
        on_text this_thread envs c.client_descriptor text
          (record s { clients = adjust id (record c { incoming = rest }) s.clients }))

  -- `ClientSocketTest::listenOnEvents`
  unfoldable pub answer : ℕ → SendEnv → Client Q → Option (ClientSocket.Outcome Q)
  unfolding read_text contains of_bytes ClientSocket.write
  answer this_thread env s = do
    c ← s.channel
    (text, rest) ← read_text c.incoming
    let t = record s { channel = some (record c { incoming = rest }) } in
        some (
          if contains stop_word text
          then ClientSocket.Outcome.returned (record t { active = false })
          else ClientSocket.write queue this_thread env (of_bytes (format c.client_descriptor text))
              t)
