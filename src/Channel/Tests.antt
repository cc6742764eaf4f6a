-- ===== src/Channel/Tests.antt =====
-- Tests and concrete instances for `Channel` (src/Socket.cpp).
use socket_lib_linux.Prelude.{
  ℕ, ◌≤◌, ◌<◌, ◌≡◌, ◌≢◌, refl, inl, inr, true, false, List, [], ◌∷◌, ◌++◌, none, some, arith,
  length,
}
use socket_lib_linux.Message.{Message, to_span}
use socket_lib_linux.BulkQueue.{list_queue, list_queue-IsFifo}
use socket_lib_linux.Channel.{
  SendResult, sent, send_failed, RecvResult, received, recv_failed, Round, returned, threw, waiting,
  stop, send_loop, SendEnv, Channel, Reply, replied, terminated, listen, ewouldblock, send_bytes,
  handle_write_queue, queue_write, read_data,
}
use socket_lib_linux.Channel.Send.{
  send_loop-prefix, send_loop-delivered, send_loop-Loses, send_loop-ends, delivered, Drains,
}
use socket_lib_linux.Channel.Write.{queue_write-queues, handle_write_queue-delivered}
use socket_lib_linux.Channel.Safety.{
  IsChannel, queue_write-IsChannel, handle_write_queue-defined, inactive_frozen,
}
use socket_lib_linux.Channel.Read.{read_all, read_all-stream, read_data-terminates}

abbrev round : SendResult → Round
round r = record { is_active = true; result = r }

-- One byte, then the other three.
abbrev in_two : List Round
in_two = round (sent 1) ∷ round (sent 3) ∷ []

abbrev four : List ℕ
four = 1 ∷ 2 ∷ 3 ∷ 4 ∷ []

abbrev hi : Message
hi = record { len = 4; buf = some four }

abbrev env : SendEnv
env = record { socket_active = true; rounds = in_two }

-- A channel on descriptor 7 with one message queued, and a closed one.
abbrev one_queued : Channel (List Message)
one_queued = record {
  client_descriptor = 7;
  active = true;
  write_thread = 0;
  incoming = [];
  write_queue = hi ∷ [];
  wire = [];
}

abbrev inactive : Channel (List Message)
inactive = record one_queued { active = false }

-- An error but EWOULDBLOCK shuts the channel and is thrown.
reset_throws :
    send_loop (round (send_failed 104) ∷ []) 0 four
    ≡ record { wire = []; shut = true; ending = threw }
unfolding send_loop
reset_throws = refl

pass :
    handle_write_queue (list_queue Message) true (env ∷ []) one_queued
    ≡ (record one_queued { write_queue = []; wire = four }, replied true)
unfolding handle_write_queue to_span
pass = refl

send_loop-prefix_example : (rest : List ℕ) × (four ≡ (send_loop in_two 0 four).wire ++ rest)
send_loop-prefix_example = send_loop-prefix in_two 0 four

in_two-Drains : Drains in_two four
in_two-Drains = (refl, inr (omega arith, (refl, inl (omega arith))))

send_loop-delivered_test : send_loop in_two 0 four ≡ delivered four
send_loop-delivered_test = send_loop-delivered in_two 0 four (omega arith) in_two-Drains

-- Three of four bytes are taken: the fourth is not sent.
send_loop-Loses_example :
    (send_loop (round (sent 3) ∷ in_two) 0 four ≡ record stop { wire = 1 ∷ 2 ∷ 3 ∷ [] })
    × (length {A = ℕ} (1 ∷ 2 ∷ 3 ∷ []) < length four)
send_loop-Loses_example =
    send_loop-Loses (round (sent 3)) in_two 0 four (omega arith) (omega arith) refl (omega arith)

send_loop-ends_example :
    (send_loop (round (sent 1) ∷ round (sent 1) ∷ in_two) 0 four).ending ≢ waiting
send_loop-ends_example =
    send_loop-ends (round (sent 1) ∷ round (sent 1) ∷ in_two) 0 four (omega arith) (omega arith)
      (λ e. cc, (λ e. cc, (λ e. cc, (λ e. cc, tt))))

queue_write-queues_test :
    let q = (queue_write (list_queue Message) 3 env hi one_queued).0.write_queue in
    (queue_write (list_queue Message) 3 env hi one_queued
      ≡ (record one_queued { write_queue = q }, returned))
    × (q ≡ hi ∷ hi ∷ [])
queue_write-queues_test =
    queue_write-queues (list_queue Message) (λ s. s) (list_queue-IsFifo Message) 3 env hi one_queued
      (omega arith) (omega arith)

handle_write_queue-delivered_example :
    (handle_write_queue (list_queue Message) true (env ∷ []) one_queued
      ≡ (record one_queued { write_queue = []; wire = four }, replied true))
    × (hi ∷ [] ≡ hi ∷ [])
    × (length (hi ∷ []) ≤ 10)
handle_write_queue-delivered_example =
    handle_write_queue-delivered (list_queue Message) (λ s. s) (list_queue-IsFifo Message)
      (env ∷ []) one_queued refl (omega arith) (λ e. cc) ((omega arith, omega arith), tt)
      (refl, in_two-Drains, tt)

queue_write-IsChannel_test :
    IsChannel
      (list_queue Message)
      (λ s. s)
      (list_queue-IsFifo Message)
      (queue_write (list_queue Message) 3 env hi one_queued).0
queue_write-IsChannel_test =
    queue_write-IsChannel (list_queue Message) (λ s. s) (list_queue-IsFifo Message) 3 env hi
      one_queued (omega arith) (omega arith) ((omega arith, omega arith), tt)

handle_write_queue-defined_test :
    ((handle_write_queue (list_queue Message) true [] one_queued).1 ≢ Reply.undefined)
    × IsChannel
        (list_queue Message)
        (λ s. s)
        (list_queue-IsFifo Message)
        (handle_write_queue (list_queue Message) true [] one_queued).0
handle_write_queue-defined_test =
    handle_write_queue-defined (list_queue Message) (λ s. s) (list_queue-IsFifo Message) true []
      one_queued ((omega arith, omega arith), tt)

inactive_frozen_test :
    (queue_write (list_queue Message) 3 env hi inactive ≡ (inactive, returned))
    × (handle_write_queue (list_queue Message) true (env ∷ []) inactive ≡ (inactive, replied false))
    × (read_data true true (received four) [] inactive ≡ (inactive, replied false))
    × (send_bytes env four inactive ≡ (inactive, returned))
inactive_frozen_test =
    inactive_frozen (list_queue Message) 3 true true env (env ∷ []) hi four (received four) []
      inactive refl

-- Two reads, one that would block between them, and the end of the stream.
abbrev answers : List RecvResult
answers =
    received (1 ∷ 2 ∷ [])
    ∷ recv_failed ewouldblock
    ∷ received (3 ∷ [])
    ∷ received []
    ∷ received (9 ∷ [])
    ∷ []

listen_nobody : (d : Channel (List Message)) → listen [] d ≡ (d, replied true)
unfolding listen
listen_nobody d = refl

read_all-stream_test :
    read_all answers [] one_queued ≡ record one_queued { incoming = 1 ∷ 2 ∷ 3 ∷ []; active = false }
read_all-stream_test = read_all-stream answers [] one_queued refl listen_nobody

read_data-terminates_test :
    read_data true true (received (5 ∷ [])) ((λ c. none) ∷ []) one_queued
    ≡ (record one_queued { incoming = 5 ∷ [] }, terminated)
read_data-terminates_test =
    read_data-terminates 5 [] [] [] (λ c. none) one_queued (record one_queued { incoming = 5 ∷ [] })
      refl (listen_nobody (record one_queued { incoming = 5 ∷ [] })) refl
