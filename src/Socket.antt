-- ===== src/Socket.antt =====
-- src/Socket.cpp, the constructor of `Socket`, and `resolveEndpoint` of shared/SocketUtil.hpp.
pub mod Construct
pub mod Lifetime
pub mod Logs
mod Tests
use socket_lib_linux.Prelude.{ℕ, List, [], ◌∷◌, Option, none, some, ◌==◌, if◌then◌else◌}

-- One `addrinfo`, and what the system answers for it: the descriptor of `socket`, none for -1, and
-- what `fcntl(…, F_SETFL, flags | O_NONBLOCK)` returns.
pub record Address : Type 0 where
  pub address : ℕ
  pub socket_fd : Option ℕ
  pub set_flags_status : ℕ

-- `servInfo` and `socketDescriptor`, with none for -1
pub record Socket : Type 0 where
  pub serv_info : Address
  pub descriptor : Option ℕ

pub data Constructed : Type 0 where
  constructed : Socket → Constructed
  threw : Constructed
  undefined : Constructed

-- `resolveEndpoint`: the list that `getaddrinfo` gives, empty for a null pointer. Where its status is
-- not 0, `freeaddrinfo` gets a pointer that was never set, which is undefined: `none`.
unfoldable pub resolve_endpoint : ℕ → List Address → Option (List Address)
resolve_endpoint status found = if status == 0 then some found else none

-- What the loop leaves: `servInfo` is `first` unless the loop was left by `break`.
abbrev pub try_address : Address → Address → Constructed → Constructed
try_address first p rest = elim p.socket_fd [
  | none ↦ rest
  | some fd ↦
      if p.set_flags_status == 0
      then constructed (record { serv_info = p; descriptor = some fd })
      else threw
]

-- `for (auto p = servInfo; p != nullptr; p = p->ai_next)`, and the test of `servInfo` behind it, which
-- is not null there
unfoldable pub open_first : Address → List Address → Constructed
open_first first [] = constructed (record { serv_info = first; descriptor = none })
open_first first (p ∷ ps) = try_address first p (open_first first ps)

-- `Socket::Socket`
unfoldable pub construct : ℕ → List Address → Constructed
unfolding resolve_endpoint open_first
construct status found = elim (resolve_endpoint status found) [
  | none ↦ undefined
  | some [] ↦ threw
  | some (p ∷ ps) ↦ open_first p (p ∷ ps)
]

-- `freeaddrinfo(p)`, by the addresses of the entries: of those that are allocated, `p` and all behind
-- it are given back.
unfoldable pub free_addrinfo : ℕ → List Address → List Address
free_addrinfo p [] = []
free_addrinfo p (q ∷ qs) = if q.address == p then [] else q ∷ free_addrinfo p qs

-- `Socket::~Socket`: the entries that stay allocated. `servInfo` is never null in a constructed socket.
unfoldable pub destroy : Socket → List Address → List Address
unfolding free_addrinfo
destroy s allocated = free_addrinfo s.serv_info.address allocated
