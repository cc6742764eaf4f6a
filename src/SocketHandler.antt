-- ===== src/SocketHandler.antt =====
-- src/SocketHandler.cpp and shared/SocketHandler.hpp: the table of sockets and its ids. The thread
-- that delivers logs is in Logger.antt.
pub mod Ids
pub mod Shared
mod Tests
use socket_lib_linux.Prelude.{
  ℕ, ◌+◌, ◌%◌, Bool, true, false, List, [], ◌∷◌, Option, none, some, length, if◌then◌else◌,
}
use socket_lib_linux.UnorderedMap.{find, emplace, erase}

pub data Kind : Type 0 where
  server client : Kind

-- A `ServerSocket` or a `ClientSocket` in the table: its class, and what it was created with.
pub record Entry : Type 0 where
  pub kind : Kind
  pub id : ℕ
  pub port : ℕ

-- `active`, `nextId` (a `uint32_t`) and `sockets`
pub record Handler : Type 0 where
  pub active : Bool
  pub next_id : ℕ
  pub sockets : List (ℕ × Entry)

abbrev pub u32 : ℕ → ℕ
u32 n = n % 4294967296

-- `SocketHandler::SocketHandler`
abbrev pub init : Handler
init = record { active = true; next_id = 0; sockets = [] }

-- A call returns a pointer to a socket of the table, or throws.
pub data Created : Type 0 where
  made : Entry → Handler → Created
  threw : Handler → Created

abbrev found_or : Entry → Option Entry → Entry
found_or e none = e
found_or e (some d) = d

-- `sockets.emplace(id, socket).first->second.get()`, at the table with `nextId` already set. The new
-- socket is destroyed where the id is taken.
unfoldable pub register : Entry → ℕ → Handler → Created
unfolding find emplace
register e next h =
    let sockets = emplace e.id e h.sockets in
    made (found_or e (find e.id sockets)) (record h { next_id = next; sockets = sockets })

-- `createServerSocket(port)`; `constructs` says whether the constructor returns.
unfoldable pub create_server_socket : Bool → ℕ → Handler → Created
unfolding register
create_server_socket constructs port h =
    let next = u32 (h.next_id + 1) in
    if h.active
    then (if constructs
        then register (record { kind = server; id = h.next_id; port = port }) next h
        else threw (record h { next_id = next }))
    else threw h

-- `createClientSocket(address, port)`
unfoldable pub create_client_socket : Bool → ℕ → Handler → Created
unfolding register
create_client_socket constructs port h =
    let next = u32 (length h.sockets) in
    if h.active
    then (if constructs
        then register (record { kind = client; id = h.next_id; port = port }) next h
        else threw (record h { next_id = next }))
    else threw h

-- `destroySocket(id)`
unfoldable pub destroy_socket : ℕ → Handler → Handler
unfolding find erase
destroy_socket id h = elim (find id h.sockets) [
  | none ↦ h
  | some e ↦ record h { next_id = id; sockets = erase id h.sockets }
]

-- `~SocketHandler`
unfoldable pub destroy : Handler → Handler
destroy h = record h { active = false; sockets = [] }

-- `getCommonSocketHandler`: the first call makes the static instance, and each later one gives it as
-- the program has left it.
abbrev pub get_common_socket_handler : Option Handler → Handler
get_common_socket_handler none = init
get_common_socket_handler (some h) = h
