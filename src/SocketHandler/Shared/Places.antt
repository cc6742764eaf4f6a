-- ===== src/SocketHandler/Shared/Places.antt =====
-- Where the threads are that use the table of sockets, against its mutex and its entries
-- (src/SocketHandler.cpp).
use socket_lib_linux.Prelude.{
  ℕ, ◌≡◌, ◌≢◌, refl, inl, inr, Bool, true, false, Option, none, some, arith, Bool-cases, ◌==◌,
  if◌then◌else◌,
}
use socket_lib_linux.UnorderedMap.{find, find-emplace-some, find-erase_ne}
use socket_lib_linux.SocketHandler.{
  server, client, Entry, Handler, register, create_server_socket, create_client_socket,
  destroy_socket,
}
use socket_lib_linux.SocketHandler.Ids.{handler_of}
use socket_lib_linux.SocketHandler.Shared.{
  At, finding, found, erasing, creating, leaving, rehashed, erased,
}

abbrev pub IsIn : ℕ → Handler → Type 0
IsIn id h = (e : Entry) × (find id h.sockets ≡ some e)

-- The thread has the mutex.
abbrev pub Holds : At → Type 0
Holds (finding id) = ⊥
Holds (found id b) = ⊥
Holds p = Unit {0}

-- It has a valid iterator at the socket of an id.
abbrev pub HasValid : ℕ → At → Type 0
HasValid id (found k b) = (k ≡ id) × (b ≡ true)
HasValid id (erasing k b) = (k ≡ id) × (b ≡ true)
HasValid id p = ⊥

-- Where thread `i` is, if `holder` has the mutex and the table is `h`.
abbrev pub Fits : Handler → Option ℕ → ℕ → Option At → Type 0
Fits h holder i none = Unit {0}
Fits h holder i (some (finding id)) = Unit {0}
Fits h holder i (some (found id b)) = b ≡ true → IsIn id h
Fits h holder i (some (erasing id b)) = (holder ≡ some i) × (b ≡ true → IsIn id h)
Fits h holder i (some creating) = holder ≡ some i
Fits h holder i (some leaving) = holder ≡ some i

abbrev pub is_taken : Option ℕ → Bool
is_taken none = false
is_taken (some i) = true

-- What is in the table stays there, at a call that creates.
abbrev pub Keeps : Handler → Handler → Type 0
Keeps h k = (id : ℕ) (e : Entry) → find id h.sockets ≡ some e → find id k.sockets ≡ some e

pub server-Keeps :
    (constructs : Bool) (port : ℕ) (h : Handler)
    → Keeps h (handler_of (create_server_socket constructs port h))
unfolding create_server_socket register
server-Keeps constructs port h id e f = ground (
  arith,
  find-emplace-some id h.next_id (record { kind = server; id = h.next_id; port = port }) e h.sockets
      f,
)

pub client-Keeps :
    (constructs : Bool) (port : ℕ) (h : Handler)
    → Keeps h (handler_of (create_client_socket constructs port h))
unfolding create_client_socket register
client-Keeps constructs port h id e f = ground (
  arith,
  find-emplace-some id h.next_id (record { kind = client; id = h.next_id; port = port }) e h.sockets
      f,
)

pub kept :
    (h k : Handler) (rehash : Bool) (holder : Option ℕ) (i : ℕ) (v : Option At)
    → Keeps h k
    → Fits h holder i v
    → Fits k holder i (rehashed rehash v)
kept h k rehash holder i none keeps a = tt
kept h k rehash holder i (some (finding id)) keeps a = tt
kept h k true holder i (some (found id b)) keeps a = λ e. absurd (cc)
kept h k false holder i (some (found id b)) keeps a = λ e. (let (d, f) = a e in (d, keeps id d f))
kept h k true holder i (some (erasing id b)) keeps (own, a) = (own, λ e. absurd (cc))
kept h k false holder i (some (erasing id b)) keeps (own, a) =
    (own, λ e. (let (d, f) = a e in (d, keeps id d f)))
kept h k rehash holder i (some creating) keeps a = a
kept h k rehash holder i (some leaving) keeps a = a

-- An iterator at another id stays at its socket.
stays :
    (id k : ℕ) (b : Bool) (h : Handler)
    → (b ≡ true → IsIn id h)
    → (if id == k then false else b) ≡ true
    → IsIn id (destroy_socket k h)
unfolding destroy_socket
stays id k b h a e = elim (Bool-cases (id == k)) [
  | inl same ↦ absurd (ground arith)
  | inr other ↦ let (d, f) = a (ground arith) in (d, ground (arith, find-erase_ne id k h.sockets))
]

pub without :
    (k : ℕ) (h : Handler) (holder : Option ℕ) (i : ℕ) (v : Option At)
    → Fits h holder i v
    → Fits (destroy_socket k h) holder i (erased k v)
without k h holder i none a = tt
without k h holder i (some (finding id)) a = tt
without k h holder i (some (found id b)) a = stays id k b h a
without k h holder i (some (erasing id b)) (own, a) = (own, stays id k b h a)
without k h holder i (some creating) a = a
without k h holder i (some leaving) a = a

-- The mutex was free, and a thread takes it.
pub taken :
    (h : Handler) (holder : Option ℕ) (j i : ℕ) (v : Option At)
    → holder ≡ none
    → Fits h holder i v
    → Fits h (some j) i v
taken h holder j i none free a = tt
taken h holder j i (some (finding id)) free a = tt
taken h holder j i (some (found id b)) free a = a
taken h holder j i (some (erasing id b)) free a = absurd (cc)
taken h holder j i (some creating) free a = absurd (cc)
taken h holder j i (some leaving) free a = absurd (cc)

-- A thread gives it back: no other one has it.
pub freed :
    (h : Handler) (holder : Option ℕ) (j i : ℕ) (v : Option At)
    → holder ≡ some j
    → j ≢ i
    → Fits h holder i v
    → Fits h none i v
freed h holder j i none own apart a = tt
freed h holder j i (some (finding id)) own apart a = tt
freed h holder j i (some (found id b)) own apart a = a
freed h holder j i (some (erasing id b)) own apart a = absurd (ground arith)
freed h holder j i (some creating) own apart a = absurd (ground arith)
freed h holder j i (some leaving) own apart a = absurd (ground arith)

pub is_free : (holder : Option ℕ) (b : Bool) → b ≡ is_taken holder → b ≡ false → holder ≡ none
is_free none b e f = refl
is_free (some i) b e f = absurd (cc)
