-- ===== src/SocketHandler/Shared/Order.antt =====
-- What `socketMutex` protects of the table of sockets, and what it does not (src/SocketHandler.cpp).
use socket_lib_linux.Prelude.{ℕ, ◌≡◌, Option}
use socket_lib_linux.SocketHandler.Shared.{Table}
use socket_lib_linux.SocketHandler.Shared.Places.{Fits, is_taken}

abbrev IsSound : Table → Type 0
IsSound t =
    (holder : Option ℕ) × (t.mutex ≡ is_taken holder) × ((i : ℕ) → Fits t.handler holder i (t.at i))
