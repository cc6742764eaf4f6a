-- ===== src/Channel/Workers/Tests.antt =====
-- Concrete runs of threads that share a channel (src/Socket.cpp).
use socket_lib_linux.Prelude.{
  ℕ, ◌+◌, ◌≤◌, ◌⊎◌, false, ◌≡◌, refl, true, List, [], ◌∷◌, ◌++◌, none, some, arith,
}
use socket_lib_linux.Message.{Message, copy, to_span}
use socket_lib_linux.BulkQueue.{by, list_queue, list_queue-IsPerProducer}
use socket_lib_linux.Channel.{sent}
use socket_lib_linux.Channel.Workers.{
  calling, sending, Shared, Step, Reach, here, later, queue_write, lock, dequeue, send_message,
  test, send, answered, dequeued,
}
use socket_lib_linux.Channel.Workers.Order.{Parts}
use socket_lib_linux.Channel.Workers.Shutdown.{
  Held, mine, aside, here as start, whose, holders, shutdown_releases,
}
use socket_lib_linux.Channel.Workers.Runs.{Reach-Parts}

abbrev first_message : Message
first_message = record { len = 3; buf = some (1 ∷ 2 ∷ 3 ∷ []) }

abbrev second_message : Message
second_message = record { len = 2; buf = some (8 ∷ 9 ∷ []) }

abbrev idle : Shared (List (ℕ × Message))
idle = record { active = true; write_queue = []; wire = []; holder = none; queued = []; taken = [] }

-- The first message was sent in part and its rest lost, the second is at its `send`, and a third was
-- queued meanwhile.
abbrev midway : Shared (List (ℕ × Message))
midway = record {
  active = true;
  write_queue = (1, first_message) ∷ [];
  wire = 1 ∷ 2 ∷ [];
  holder = some (calling [] (8 ∷ 9 ∷ []));
  queued = (1, first_message) ∷ (2, second_message) ∷ (1, first_message) ∷ [];
  taken = (1, first_message) ∷ (2, second_message) ∷ [];
}

midway-Reach : Reach (list_queue (ℕ × Message)) idle midway
unfolding answered dequeued copy to_span
midway-Reach =
    later
      (later
        (later
          (later
            (later
              (later
                (later
                  (later
                    (later
                      (later (later here (queue_write 1 first_message refl (omega arith)))
                        (lock refl))
                      (queue_write 2 second_message refl (omega arith)))
                    (dequeue refl))
                  (send_message true first_message (second_message ∷ []) (1 ∷ 2 ∷ 3 ∷ []) refl
                    refl))
                (test true (second_message ∷ []) 0 (1 ∷ 2 ∷ 3 ∷ []) refl))
              (send (sent 2) (second_message ∷ []) (1 ∷ 2 ∷ 3 ∷ []) refl))
            (test true (second_message ∷ []) 2 (3 ∷ []) refl))
          (send_message true second_message [] (8 ∷ 9 ∷ []) refl refl))
        (test true [] 0 (8 ∷ 9 ∷ []) refl))
      (queue_write 1 first_message refl (omega arith))

Reach-Parts_example :
    ((i : ℕ) → by i midway.queued ≡ by i midway.taken ++ by i midway.write_queue)
    × Parts (1 ∷ 2 ∷ []) (first_message ∷ second_message ∷ [])
Reach-Parts_example =
    Reach-Parts (list_queue (ℕ × Message)) by (list_queue-IsPerProducer Message) idle midway refl
      refl refl (λ i. refl) midway-Reach

-- The channel is shut down while a thread is at its `send`, and a message is queued before that thread
-- goes on.
abbrev closing : Shared (List (ℕ × Message))
closing = record midway { active = false }

abbrev nearly : Shared (List (ℕ × Message))
nearly = record closing {
  wire = 1 ∷ 2 ∷ 8 ∷ [];
  holder = some (sending [] 1 (9 ∷ []));
  write_queue = (1, first_message) ∷ (1, first_message) ∷ [];
  queued = (1, first_message) ∷ (2, second_message) ∷ (1, first_message) ∷ (1, first_message) ∷ [];
}

closing-Held : Held (list_queue (ℕ × Message)) closing 1 nearly
unfolding answered copy
closing-Held =
    mine (aside start (queue_write 1 first_message refl (omega arith)) refl)
      (send (sent 1) [] (8 ∷ 9 ∷ []) refl) refl

shutdown_releases_example :
    (1 + 2 ≤ 3)
    × (Unit {0}
        → (nearly.holder ≡ none)
          ⊎ ((u : Shared (List (ℕ × Message))) × (e : Step (list_queue (ℕ × Message)) nearly u)
              × (whose (list_queue (ℕ × Message)) nearly u e ≡ holders)))
shutdown_releases_example =
    shutdown_releases (list_queue (ℕ × Message)) (list_queue-IsPerProducer Message).dequeue_bulk-le
      closing nearly 1 refl closing-Held
