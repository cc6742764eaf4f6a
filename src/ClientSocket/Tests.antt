-- ===== src/ClientSocket/Tests.antt =====
-- A client that connects, closes and fails to connect.
use Prim.Native.String.{String}
use socket_lib_linux.Prelude.{
  ℕ, ◌≡◌, refl, inl, true, false, List, [], ◌∷◌, Option, none, some, arith,
}
use socket_lib_linux.Message.{Message}
use socket_lib_linux.BulkQueue.{list_queue, list_queue-IsFifo}
use socket_lib_linux.Logger.{LogTask, Logger}
use socket_lib_linux.Socket.{Address, construct, open_first, resolve_endpoint}
use socket_lib_linux.Socket.Logs.Tasks.{Ends}
use socket_lib_linux.ClientSocket.Construct.{Sockaddr, construct_client, construct_client-Ends}
use socket_lib_linux.Channel.{Channel, SendEnv, sent, replied, create, ewouldblock}
use socket_lib_linux.ClientSocket.{
  Client, returned, threw, undefined, connected, connect_failed, connect, announced, close, write,
  write_pass,
}
use socket_lib_linux.ClientSocket.Loops.{write_then_pass}
use socket_lib_linux.ClientSocket.Lifecycle.{connect_lem, close_lem, close_after_failure}

abbrev fresh : Client (List Message)
fresh = record {
  active = false;
  no_delay = false;
  descriptor = some 5;
  channel = none;
  watched = true;
  events = [];
  announcing = 0;
  closed = [];
}

abbrev joined : Client (List Message)
joined = record fresh { active = true; channel = some (create 5 []); announcing = 1 }

connect_lem_example :
    connect [] 0 (connect_failed ewouldblock ∷ connect_failed ewouldblock ∷ connected ∷ []) fresh
    ≡ returned joined
connect_lem_example = connect_lem [] 0 2 5 connected [] fresh refl refl (λ e. cc)

announced_test :
    announced joined ≡ returned (record joined { events = (5, true) ∷ []; announcing = 0 })
unfolding announced create
announced_test = refl

-- 115 is EINPROGRESS.
connect_in_progress_test :
    connect [] 0 (connect_failed 115 ∷ connected ∷ []) fresh
    ≡ threw (record fresh { closed = 5 ∷ [] })
unfolding connect
connect_in_progress_test = refl

close_lem_test :
    (close joined
      ≡ returned (record joined { descriptor = none; events = (5, false) ∷ []; closed = 5 ∷ [] }))
    × (◌≡◌ {A = Option ℕ} none none)
    × (◌≡◌ {A = List ℕ} (5 ∷ []) (5 ∷ []))
    × (true ≡ true)
    × (◌≡◌ {A = Option (Channel (List Message))} (some (create 5 [])) (some (create 5 [])))
unfolding close create
close_lem_test = close_lem joined (create 5 []) refl

abbrev failed_twice : Client (List Message)
failed_twice = record fresh { descriptor = none; closed = 5 ∷ 5 ∷ [] }

close_after_failure_test :
    (failed_twice.closed ≡ 5 ∷ 5 ∷ [])
    × (close (record fresh { closed = 5 ∷ [] }) ≡ undefined failed_twice)
unfolding connect close
close_after_failure_test = close_after_failure [] 0 111 5 [] fresh refl refl refl (λ e. cc)

abbrev one_byte : SendEnv
one_byte = record {
  socket_active = true;
  rounds = record { is_active = true; result = sent 1 } ∷ [];
}

abbrev hi : Message
hi = record { len = 1; buf = some (9 ∷ []) }

abbrev fresh_channel : Channel (List Message)
fresh_channel = record {
  client_descriptor = 5;
  active = true;
  write_thread = 0;
  incoming = [];
  write_queue = [];
  wire = [];
}

abbrev talking : Client (List Message)
talking = record fresh { active = true; channel = some fresh_channel }

abbrev talked : Client (List Message)
talked = record talking { channel = some (record fresh_channel { write_queue = hi ∷ [] }) }

write_then_pass_test :
    (write (list_queue Message) 1 one_byte hi talking ≡ returned talked)
    × ((c : Channel (List Message)) × (write_pass (list_queue Message) true (one_byte ∷ []) talked
          ≡ (record talking { channel = some c }, replied true))
        × (c.wire ≡ 9 ∷ [])
        × (c.write_queue ≡ []))
write_then_pass_test =
    write_then_pass (list_queue Message) (λ s. s) (list_queue-IsFifo Message) 1 one_byte
      (one_byte ∷ []) hi talking fresh_channel refl refl refl refl (omega arith)
      ((refl, omega arith), omega arith) (omega arith) (λ e. cc)
      (refl, (refl, inl (omega arith)), tt)

-- The texts without their arguments, and one address, which the system opens.
abbrev format : String → List String → String
format text args = text

abbrev addresses : List Address
addresses = record { address = 1; socket_fd = some 5; set_flags_status = 0 } ∷ []

abbrev local : Address → Sockaddr
local p = record { sa_family = 2; sin_addr = 1; sin6_addr = 0 }

abbrev quiet : Logger (List LogTask)
quiet = record { debug_enabled = false; log_queue = [] }

construct_client-Ends_test :
    Ends
      (list_queue LogTask)
      (λ q. q)
      (list_queue-IsFifo LogTask)
      format
      (λ n. "error")
      (λ n. "error")
      (λ a. 0)
      quiet
      (construct_client
        (list_queue LogTask)
        format
        (λ n. "error")
        (λ n. "error")
        (λ a. 0)
        local
        (λ f a. some "0.0.0.0")
        (true ∷ [])
        0
        addresses
        quiet)
      (construct 0 addresses)
      []
unfolding construct open_first resolve_endpoint
construct_client-Ends_test =
    construct_client-Ends (list_queue LogTask) (λ q. q) (list_queue-IsFifo LogTask) format
      (λ n. "error") (λ n. "error") (λ a. 0) local (λ f a. some "0.0.0.0") 0 [] (λ a. "0.0.0.0")
      (λ p. refl) 0 addresses quiet
