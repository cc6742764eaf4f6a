-- ===== src/Connection/Tests.antt =====
-- A message on its way through a connection (src/Socket.cpp).
use socket_lib_linux.Prelude.{ℕ, ◌≡◌, refl, true, false, List, [], ◌∷◌, none, some, arith}
use socket_lib_linux.Message.{Message, copy, to_span}
use socket_lib_linux.StreamQueue
use socket_lib_linux.BulkQueue.{by, list_queue, list_queue-IsPerProducer}
use socket_lib_linux.Channel.{sent, received}
use socket_lib_linux.Channel.Workers
use socket_lib_linux.Channel.Readers
use socket_lib_linux.Connection.{Endpoint, Connection, near_writes, far_reads, Reach, here, later}
use socket_lib_linux.Connection.Delivery.{IsFresh, Delivers, Reach-Delivers}

abbrev hello : Message
hello = record { len = 3; buf = some (1 ∷ 2 ∷ 3 ∷ []) }

abbrev quiet : Endpoint (List (ℕ × Message))
quiet = record {
  writer = record {
    active = true;
    write_queue = [];
    wire = [];
    holder = none;
    queued = [];
    taken = [];
  };
  reader = record {
    active = true;
    incoming = [];
    holder = none;
    stream = [];
    heard = [];
    lost = false;
  };
}

abbrev start : Connection (List (ℕ × Message))
start = record { near = quiet; far = quiet }

quiet-IsFresh : IsFresh (list_queue (ℕ × Message)) by (list_queue-IsPerProducer Message) quiet
quiet-IsFresh = record {
  no_writer = refl;
  no_reader = refl;
  dry = refl;
  none_taken = refl;
  all_wait = λ i. refl;
  none_received = refl;
  unheard = refl;
  empty = refl;
}

-- One end queues the message and sends it; two of its bytes have come at the other end, where a
-- listener has taken the first one.
abbrev Ran : Type 0
Ran =
    (t : Connection (List (ℕ × Message))) × Reach (list_queue (ℕ × Message)) start t
    × (t.near.writer.taken ≡ (3, hello) ∷ [])
    × (t.far.reader.heard ≡ 1 ∷ [])
    × (t.far.reader.incoming ≡ 2 ∷ [])

run : Ran
unfolding Workers.answered Workers.dequeued copy to_span Readers.checked StreamQueue.enqueue
    StreamQueue.dequeue
run = (
  _,
  later
      (later
        (later
          (later
            (later
              (later
                (later
                  (later
                    (later
                      (later here
                        (near_writes _ (Workers.queue_write 3 hello refl (λ e. ground arith))))
                      (near_writes _ (Workers.lock refl)))
                    (near_writes _ (Workers.dequeue refl)))
                  (near_writes _ (Workers.send_message true hello [] (1 ∷ 2 ∷ 3 ∷ []) refl refl)))
                (near_writes _ (Workers.test true [] 0 (1 ∷ 2 ∷ 3 ∷ []) refl)))
              (near_writes _ (Workers.send (sent 3) [] (1 ∷ 2 ∷ 3 ∷ []) refl)))
            (far_reads _ (Readers.lock refl) (1 ∷ 2 ∷ 3 ∷ [], refl)))
          (far_reads _ (Readers.recv (received (1 ∷ 2 ∷ [])) refl) (3 ∷ [], refl)))
        (far_reads _ (Readers.check true (received (1 ∷ 2 ∷ [])) refl) (3 ∷ [], refl)))
      (far_reads _ (Readers.listen 1 refl) (3 ∷ [], refl)),
  refl,
  refl,
  refl,
)

Reach-Delivers_example :
    Delivers (list_queue (ℕ × Message)) by (list_queue-IsPerProducer Message) run.0.near run.0.far
    × Delivers (list_queue (ℕ × Message)) by (list_queue-IsPerProducer Message) run.0.far run.0.near
Reach-Delivers_example =
    Reach-Delivers (list_queue (ℕ × Message)) by (list_queue-IsPerProducer Message) start run.0
      quiet-IsFresh quiet-IsFresh run.1
