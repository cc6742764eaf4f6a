-- ===== src/ServerSocket/Tests.antt =====
-- A server with concrete clients.
use socket_lib_linux.Prelude.{ℕ, ◌≡◌, refl, inl, true, false, List, [], ◌∷◌, none, some, arith}
use socket_lib_linux.Message.{Message, to_span}
use socket_lib_linux.BulkQueue.{list_queue, list_queue-IsFifo}
use socket_lib_linux.Channel.{
  Channel, SendEnv, sent, replied, is_active, handle_write_queue, queue_write,
}
use socket_lib_linux.UnorderedMap.{find}
use socket_lib_linux.ServerSocket.{
  connection_listen_loop, read_loop, write_loop, Server, returned, threw, left, BindEnv,
  bind_and_listen, announced, on_connected_client, close_client, thread_loop, destroy, accepted,
  connection_listen, write,
}
use socket_lib_linux.ServerSocket.Clients.{IsKeyed, thread_loop-lem, destroy-lem}
use socket_lib_linux.ServerSocket.Keys.{
  clients-IsKeyed, connection_listen-lem, close_client-on_connected_client,
}
use socket_lib_linux.ServerSocket.Loops.{WriteTurn, write_pass}
use socket_lib_linux.ServerSocket.Loops.Sweep.{AllReply}
use socket_lib_linux.ServerSocket.Loops.Delivery.{turn_active, turn_call, write-write_pass}
use socket_lib_linux.ServerSocket.Reports.{Reported}
use socket_lib_linux.ServerSocket.Reports.Life.{
  Reach, here, later, connect, close, report, work_write, Reach-Reported,
}
use socket_lib_linux.ServerSocket.Bind.{Succeeds, bind_and_listen-starts, bind_and_listen-stuck}

abbrev Queue : Type 0
Queue = List Message

abbrev on : ℕ → Channel Queue
on fd = record {
  client_descriptor = fd;
  active = true;
  write_thread = 0;
  incoming = [];
  write_queue = [];
  wire = [];
}

abbrev off : ℕ → Channel Queue
off fd = record (on fd) { active = false }

-- Three clients, the second of which is closed by its peer.
abbrev serving : Server Queue
serving = record {
  active = true;
  no_delay = false;
  listener = some 3;
  worker_thread_count = 2;
  threads = [];
  clients = (4, on 4) ∷ (5, off 5) ∷ (6, on 6) ∷ [];
  watched = true;
  events = [];
  announcing = [];
  closed = [];
}

abbrev stopped : Server Queue
stopped = record serving { active = false; clients = [] }

keyed : IsKeyed serving.clients
unfolding find
keyed = (refl, refl, (refl, refl, (refl, refl, tt)))

abbrev swept : Server Queue
swept = record serving {
  clients = (4, on 4) ∷ (6, on 6) ∷ [];
  events = (5, false) ∷ [];
  closed = 5 ∷ [];
}

thread_loop-lem_example : thread_loop serving ≡ returned swept
unfolding is_active
thread_loop-lem_example = thread_loop-lem serving keyed

destroy-lem_test :
    destroy serving
    ≡ returned (record serving {
      active = false;
      listener = none;
      clients = [];
      events = (4, false) ∷ (5, false) ∷ (6, false) ∷ [];
      closed = 4 ∷ 5 ∷ 6 ∷ 3 ∷ [];
    })
destroy-lem_test = destroy-lem serving keyed

connection_listen-lem_test :
    connection_listen [] true (accepted 7) serving
    ≡ returned
        (record swept { clients = (4, on 4) ∷ (6, on 6) ∷ (7, on 7) ∷ []; announcing = 7 ∷ [] })
unfolding on_connected_client is_active
connection_listen-lem_test = connection_listen-lem [] true (accepted 7) serving keyed refl

abbrev env : SendEnv
env = record { socket_active = true; rounds = [] }

abbrev hi : Message
hi = record { len = 1; buf = some (9 ∷ []) }

clients-IsKeyed_example :
    IsKeyed (on_connected_client [] 7 serving).clients
    × IsKeyed (left (close_client 7 serving)).clients
    × IsKeyed (left (write (list_queue Message) 1 env 7 hi serving)).clients
    × IsKeyed (left (connection_listen [] true (accepted 8) serving)).clients
clients-IsKeyed_example =
    clients-IsKeyed (list_queue Message) 1 7 env hi [] true (accepted 8) serving keyed

close_client-on_connected_client_example :
    let closed = close_client 7 (on_connected_client [] 7 serving) in
    ((left closed).clients ≡ serving.clients) × (close_client 7 (left closed) ≡ threw (left closed))
close_client-on_connected_client_example =
    close_client-on_connected_client [] 7 serving keyed (unfold find in refl)

abbrev all_succeed : BindEnv
all_succeed = record { reuse_status = 0; no_delay_status = 1; bind_status = 0; listen_status = 0 }

bind_and_listen-starts_test :
    bind_and_listen all_succeed stopped
    ≡ returned (record stopped {
      active = true;
      threads = connection_listen_loop ∷ read_loop ∷ write_loop ∷ read_loop ∷ write_loop ∷ [];
    })
bind_and_listen-starts_test =
    bind_and_listen-starts all_succeed stopped refl (refl, inl refl, refl, refl)

abbrev address_in_use : BindEnv
address_in_use = record all_succeed { bind_status = 1 }

not-Succeeds : ¬ Succeeds address_in_use stopped
not-Succeeds h = omega (arith, h.2)

bind_and_listen-stuck_example :
    (bind_and_listen address_in_use stopped ≡ threw (record stopped { active = true }))
    × (true ≡ true)
    × (bind_and_listen all_succeed (record stopped { active = true })
        ≡ threw (record stopped { active = true }))
unfolding bind_and_listen
bind_and_listen-stuck_example =
    bind_and_listen-stuck address_in_use all_succeed stopped not-Succeeds refl

-- Every lock is free, and the system takes one byte.
abbrev turn : ℕ → WriteTurn
turn k = record {
  socket_active = true;
  locked = true;
  envs =
      record { socket_active = true; rounds = record { is_active = true; result = sent 1 } ∷ [] }
      ∷ [];
}

abbrev queued : Server Queue
queued = left (write (list_queue Message) 1 env 4 hi serving)

all_reply :
    AllReply
      (turn_active (list_queue Message) turn)
      (turn_call (list_queue Message) turn)
      queued.clients
unfolding write is_active handle_write_queue queue_write to_span
all_reply = (λ h. (true, refl), (λ h. cc, (λ h. (false, refl), tt)))

write-write_pass_example :
    let (t, r) = write_pass (list_queue Message) turn queued in
    (r ≡ replied true)
    × ((c : Channel Queue) × (find 4 t.clients ≡ some c) × (c.wire ≡ 9 ∷ []) × (c.write_queue ≡ []))
write-write_pass_example =
    write-write_pass (list_queue Message) (λ s. s) (list_queue-IsFifo Message) 1 env 4 hi serving
      (on 4) turn refl (unfold find in refl) refl refl (omega arith)
      ((refl, omega arith), omega arith) refl refl (omega arith) (λ e. cc)
      (refl, (refl, inl (omega arith)), tt) all_reply

-- Two clients connect, one is written to and served, and the other is closed. The detached thread for
-- the second one reports that it is connected only then; that for the first has not run.
abbrev both : Server Queue
both = on_connected_client [] 5 (on_connected_client [] 4 (record serving { clients = [] }))

abbrev late : Server Queue
late = announced (4 ∷ []) 5 [] (left (close_client 5 (write_pass (list_queue Message) turn both).0))

late-Reach : Reach (list_queue Message) (record serving { clients = [] }) late
unfolding find on_connected_client close_client write_pass handle_write_queue
late-Reach =
    later
      (later (later (later (later here (connect [] 4 refl)) (connect [] 5 refl)) (work_write turn))
        (close 5))
      (report (4 ∷ []) 5 [] refl)

late_events : (late.events ≡ (5, false) ∷ (5, true) ∷ []) × (late.announcing ≡ 4 ∷ [])
unfolding on_connected_client close_client write_pass find announced handle_write_queue
late_events = (refl, refl)

Reach-Reported_example : Reported late
Reach-Reported_example = Reach-Reported (list_queue Message) refl refl refl refl late-Reach
