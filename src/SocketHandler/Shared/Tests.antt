-- ===== src/SocketHandler/Shared/Tests.antt =====
-- Runs of threads that create and destroy sockets (src/SocketHandler.cpp).
use socket_lib_linux.Prelude.{◌≡◌, refl, true, false, [], ◌∷◌, none, some}
use socket_lib_linux.UnorderedMap.{find, emplace}
use socket_lib_linux.SocketHandler.{server, Entry, create_server_socket, register}
use socket_lib_linux.SocketHandler.Shared.{
  found, Table, Reach, here, later, start_destroy, is_found, lock_create, create_server,
}

abbrev first : Entry
first = record { kind = server; id = 0; port = 80 }

abbrev start : Table
start = record {
  handler = record { active = true; next_id = 1; sockets = (0, first) ∷ [] };
  mutex = false;
  at = λ i. none;
  undefined = false;
}

-- Thread 7 looks up the first socket, thread 8 creates a second one and has not given the mutex back
-- when thread 7 waits for it.
abbrev Ran : Type 0
Ran =
    (t : Table) × Reach start t
    × (t.handler.sockets ≡ (0, first) ∷ (1, record first { id = 1; port = 81 }) ∷ [])
    × (t.at 7 ≡ some (found 0 true))

run : Ran
unfolding find emplace create_server_socket register
run = (
  _,
  later
      (later (later (later here (start_destroy 7 0 refl)) (is_found 7 0 first refl refl))
        (lock_create 8 refl refl))
      (create_server 8 true false 81 refl),
  refl,
  refl,
)
