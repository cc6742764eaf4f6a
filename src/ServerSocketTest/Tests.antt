-- ===== src/ServerSocketTest/Tests.antt =====
-- Two clients of the test server (test/src/ServerSocketTest.cpp).
use socket_lib_linux.Prelude.{
  none, ℕ, ◌<◌, ◌≡◌, ◌≢◌, refl, inl, true, false, List, [], ◌∷◌, ◌++◌, some, arith, length,
  if◌then◌else◌,
}
use socket_lib_linux.Message.{Message, of_bytes, to_span}
use socket_lib_linux.BulkQueue.{list_queue, list_queue-IsFifo}
use socket_lib_linux.UnorderedMap.{find, adjust}
use socket_lib_linux.Channel.{Channel, SendEnv, sent, is_active, handle_write_queue}
use socket_lib_linux.ServerSocket.{Server, Outcome, destroy}
use socket_lib_linux.ServerSocket.Loops.{WriteTurn, write_pass}
use socket_lib_linux.ServerSocket.Loops.Sweep.{AllReply}
use socket_lib_linux.ServerSocket.Loops.Delivery.{turn_active, turn_call}
use socket_lib_linux.ClientSocket.{Client}
use socket_lib_linux.ClientSocket
use socket_lib_linux.ServerSocketTest.{hi, stop_word, contains, listen_on_events, answer}
use socket_lib_linux.ServerSocketTest.Forward.{listen_on_events-forwards}
use socket_lib_linux.ServerSocketTest.End.{stop-destroy}
use socket_lib_linux.ServerSocketTest.Stop.{listen_on_events-stops, answer-lem}
use socket_lib_linux.ServerSocketTest.Delivery.{listen_on_events-write_pass}

-- A short form of "Client {}: {}"
abbrev format : ℕ → List ℕ → List ℕ
format fd text = fd ∷ 58 ∷ text

format-longer : (fd : ℕ) (text : List ℕ) → 0 < length (format fd text)
format-longer fd text = omega arith

abbrev channel : ℕ → List ℕ → List Message → Channel (List Message)
channel fd incoming queued = record {
  client_descriptor = fd;
  active = true;
  write_thread = 0;
  incoming = incoming;
  write_queue = queued;
  wire = [];
}

abbrev sender : Channel (List Message)
sender = channel 7 hi []

abbrev two : Server (List Message)
two = record {
  active = true;
  no_delay = false;
  listener = some 3;
  worker_thread_count = 1;
  threads = [];
  clients = (7, sender) ∷ (8, channel 8 [] []) ∷ [];
  watched = true;
  events = [];
  announcing = [];
  closed = [];
}

abbrev passed : Message
passed = record { len = 6; buf = some (format 7 hi) }

abbrev two_passed : Server (List Message)
two_passed = record two { clients = (7, channel 7 [] []) ∷ (8, channel 8 [] (passed ∷ [])) ∷ [] }

abbrev env : ℕ → SendEnv
env k = record { socket_active = true; rounds = record { is_active = true; result = sent 6 } ∷ [] }

two-passed :
    listen_on_events (list_queue Message) format 1 env 7 two ≡ some (Outcome.returned two_passed)
unfolding listen_on_events
two-passed = refl

listen_on_events-forwards_test :
    (cs : List (ℕ × Channel (List Message))) × (listen_on_events
        (list_queue Message)
        format
        1
        env
        7
        two
      ≡ some (Outcome.returned (record two { clients = cs })))
    × (find 7 cs ≡ some (record sender { incoming = [] }))
    × ((k : ℕ) (d : Channel (List Message))
        → find k two.clients ≡ some d
        → k ≢ 7
        → find k cs
          ≡ some (
              if d.active
              then record d { write_queue = d.write_queue ++ of_bytes (format 7 hi) ∷ [] }
              else d))
unfolding find contains
listen_on_events-forwards_test =
    listen_on_events-forwards (list_queue Message) format format-longer 1 env 7 two sender
      (refl, refl, (refl, refl, tt)) (omega arith, (omega arith, tt)) refl (omega arith) refl

-- "now stop" ends both programs.
abbrev stopping : Channel (List Message)
stopping = channel 7 (110 ∷ 111 ∷ 119 ∷ 32 ∷ stop_word) []

abbrev told_to_stop : Server (List Message)
told_to_stop = record two { clients = (7, stopping) ∷ [] }

abbrev client_of : Channel (List Message) → Client (List Message)
client_of c = record {
  active = true;
  no_delay = false;
  descriptor = some 7;
  channel = some c;
  watched = true;
  events = [];
  announcing = 0;
  closed = [];
}

stop_test :
    (listen_on_events (list_queue Message) format 1 env 7 told_to_stop
      ≡ some (
          Outcome.returned (record told_to_stop {
            active = false;
            clients = adjust 7 (channel 7 [] []) told_to_stop.clients;
          })))
    × (answer (list_queue Message) format 1 (env 7) (client_of stopping)
        ≡ some (
            ClientSocket.Outcome.returned
              (record (client_of (channel 7 [] [])) { active = false })))
unfolding find
stop_test =
    listen_on_events-stops (list_queue Message) format 1 env 7 told_to_stop (client_of stopping)
      stopping (110 ∷ 111 ∷ 119 ∷ 32 ∷ []) [] refl (omega arith) refl refl

answer_test :
    answer (list_queue Message) format 1 (env 7) (client_of sender)
    ≡ some (ClientSocket.Outcome.returned (client_of (channel 7 [] (of_bytes (format 7 hi) ∷ []))))
unfolding contains
answer_test =
    answer-lem (list_queue Message) format 1 (env 7) (client_of sender) sender refl refl
      (omega arith) (omega arith) refl (omega arith)

abbrev turn : ℕ → WriteTurn
turn k = record { socket_active = true; locked = true; envs = env k ∷ [] }

two_reply :
    AllReply
      (turn_active (list_queue Message) turn)
      (turn_call (list_queue Message) turn)
      two_passed.clients
unfolding is_active handle_write_queue to_span
two_reply = (λ h. (false, refl), (λ h. (true, refl), tt))

listen_on_events-write_pass_example :
    (find 7 two_passed.clients ≡ some (channel 7 [] []))
    × ((d : Channel (List Message)) × (find 8
            (write_pass (list_queue Message) turn two_passed).0.clients
          ≡ some d)
        × (d.wire ≡ format 7 hi)
        × (d.write_queue ≡ []))
unfolding find contains of_bytes
listen_on_events-write_pass_example =
    listen_on_events-write_pass (list_queue Message) (λ q. q) (list_queue-IsFifo Message) format
      format-longer 1 env turn 7 8 two two_passed sender (channel 8 [] []) refl
      (refl, refl, (refl, refl, tt)) (omega arith, (omega arith, tt)) refl refl (omega arith) refl
      refl (omega arith) refl two-passed refl refl (omega arith) (λ e. absurd (cc))
      ((refl, (refl, inl (omega arith)), tt)) two_reply

stop-destroy_example :
    (t d : Server (List Message)) × (listen_on_events
        (list_queue Message)
        format
        1
        env
        7
        told_to_stop
      ≡ some (Outcome.returned t))
    × (t.active ≡ false)
    × (destroy t ≡ Outcome.returned d)
    × (d.clients ≡ [])
    × (d.listener ≡ none)
    × (d.closed ≡ 7 ∷ 3 ∷ [])
    × (d.events ≡ (7, false) ∷ [])
unfolding find
stop-destroy_example =
    stop-destroy (list_queue Message) format 1 env 7 told_to_stop stopping
      (110 ∷ 111 ∷ 119 ∷ 32 ∷ []) [] refl (omega arith) refl (refl, refl, tt)
