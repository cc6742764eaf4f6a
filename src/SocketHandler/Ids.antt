-- ===== src/SocketHandler/Ids.antt =====
-- Which socket a call of `createServerSocket` or `createClientSocket` returns
-- (src/SocketHandler.cpp).
use socket_lib_linux.Prelude.{
  ℕ, ◌+◌, ◌<◌, ◌≡◌, refl, ap, ◌∙◌, ==-refl, true, none, some, arith, length, ◌==◌, if◌then◌else◌,
}
use socket_lib_linux.UnorderedMap.{
  find, emplace, erase, HasKeys, Below, find-erase_self, find-erase_ne, Below-find, Below-emplace,
  find-emplace_cases, length-emplace, emplace-taken,
}
use socket_lib_linux.SocketHandler.{
  server, client, Entry, Handler, u32, Created, made, threw, register, create_server_socket,
  create_client_socket, destroy_socket,
}

destroyed :
    (id : ℕ) (old : Entry) (h : Handler)
    → find id h.sockets ≡ some old
    → destroy_socket id h ≡ record h { next_id = id; sockets = erase id h.sockets }
unfolding destroy_socket
destroyed id old h used = ground arith

register_free :
    (e : Entry) (next : ℕ) (h : Handler)
    → find e.id h.sockets ≡ none
    → register e next h ≡ made e (record h { next_id = next; sockets = emplace e.id e h.sockets })
unfolding register
register_free e next h free = ground (arith, find-emplace_cases e.id e.id e h.sockets free)

register_taken :
    (e d : Entry) (next : ℕ) (h : Handler)
    → find e.id h.sockets ≡ some d
    → register e next h ≡ made d (record h { next_id = next })
unfolding register
register_taken e d next h taken = ground (arith, emplace-taken e.id e d h.sockets taken)

abbrev new_server : ℕ → Handler → Entry
new_server port h = record { kind = server; id = h.next_id; port = port }

abbrev new_client : ℕ → Handler → Entry
new_client port h = record { kind = client; id = h.next_id; port = port }

server-register :
    (port : ℕ) (h : Handler)
    → h.active ≡ true
    → create_server_socket true port h ≡ register (new_server port h) (u32 (h.next_id + 1)) h
unfolding create_server_socket
server-register port h a = ground arith

client-register :
    (port : ℕ) (h : Handler)
    → h.active ≡ true
    → create_client_socket true port h ≡ register (new_client port h) (u32 (length h.sockets)) h
unfolding create_client_socket
client-register port h a = ground arith

abbrev pub handler_of : Created → Handler
handler_of (made e h) = h
handler_of (threw h) = h

-- While a handler is active, the ids in the table are below `nextId`, and that does not reach 2^32,
-- `createServerSocket` returns a new socket with the port that was asked for, under an id that was
-- free, if the constructor does not throw; it leaves all others in place, and the ids stay below
-- `nextId`.
pub create_server_socket-fresh :
    (port j : ℕ) (h : Handler)
    → h.active ≡ true
    → Below h.next_id h.sockets
    → h.next_id + 1 < 4294967296
    → let e : Entry = record { kind = server; id = h.next_id; port = port } in
      let h' = handler_of (create_server_socket true port h) in
      (create_server_socket true port h ≡ made e h')
      × (find h.next_id h.sockets ≡ none)
      × (find j h'.sockets ≡ (if h.next_id == j then some e else find j h.sockets))
      × (h'.next_id ≡ h.next_id + 1)
      × Below h'.next_id h'.sockets
create_server_socket-fresh port j h a below small =
    let e : Entry = new_server port h in
    let free : find h.next_id h.sockets ≡ none = Below-find h.next_id h.sockets below in
    let result : create_server_socket true port h
        ≡ made e
            (record h { next_id = u32 (h.next_id + 1); sockets = emplace h.next_id e h.sockets }) =
      server-register port h a ∙ register_free e (u32 (h.next_id + 1)) h free in
    let next : u32 (h.next_id + 1) ≡ h.next_id + 1 = omega arith in
    rw result (
      refl,
      free,
      find-emplace_cases j h.next_id e h.sockets free,
      next,
      rw next (Below-emplace h.next_id e h.sockets below),
    )

-- `createClientSocket` sets `nextId` to the size of the table before its own socket is in it. In the
-- table of an active handler whose ids are below `nextId`, which is its size and below 2^32, that is
-- the id that it has just given out: the next call, if the constructor does not throw, returns that
-- same client, with its old port and whatever class was asked for, and adds nothing.
pub create_after_client :
    (port other : ℕ) (h : Handler)
    → h.active ≡ true
    → Below h.next_id h.sockets
    → length h.sockets ≡ h.next_id
    → h.next_id < 4294967296
    → let c : Entry = record { kind = client; id = h.next_id; port = port } in
      let h' = handler_of (create_client_socket true port h) in
      (create_client_socket true port h ≡ made c h')
      × (h'.next_id ≡ h.next_id)
      × (create_client_socket true other h' ≡ made c (record h' { next_id = u32 (h.next_id + 1) }))
      × (create_server_socket true other h' ≡ made c (record h' { next_id = u32 (h.next_id + 1) }))
create_after_client port other h a below dense small =
    let c : Entry = new_client port h in
    let free : find h.next_id h.sockets ≡ none = Below-find h.next_id h.sockets below in
    let next : u32 (length h.sockets) ≡ h.next_id = omega arith in
    let h' : Handler = record h { next_id = h.next_id; sockets = emplace h.next_id c h.sockets } in
    let result : create_client_socket true port h ≡ made c h' =
      client-register port h a
      ∙ register_free c (u32 (length h.sockets)) h free
      ∙ ap (λ n. made c (record h { next_id = n; sockets = emplace h.next_id c h.sockets })) next in
    let taken : find h.next_id h'.sockets ≡ some c =
      find-emplace_cases h.next_id h.next_id c h.sockets free ∙ rw (==-refl h.next_id) refl in
    let size : length h'.sockets ≡ h.next_id + 1 =
      omega (arith, length-emplace h.next_id c h.sockets free) in
    rw result (
      refl,
      refl,
      client-register other h' a
          ∙ register_taken (new_client other h') c (u32 (length h'.sockets)) h' taken
          ∙ ap (λ n. made c (record h' { next_id = u32 n })) size,
      server-register other h' a
          ∙ register_taken (new_server other h') c (u32 (h.next_id + 1)) h' taken,
    )

-- `destroySocket` sets `nextId` back to the id that it freed. In the table of an active handler that
-- has each id once, the next socket takes that id, and if the id above it is still in use and below
-- 2^32, the call after that returns the old socket under that id.
pub create_after_destroy :
    (id port other : ℕ) (old e : Entry) (h : Handler)
    → h.active ≡ true
    → HasKeys h.sockets
    → find id h.sockets ≡ some old
    → find (id + 1) h.sockets ≡ some e
    → id + 1 < 4294967296
    → let h' = handler_of (create_server_socket true port (destroy_socket id h)) in
      (create_server_socket true port (destroy_socket id h)
        ≡ made (record { kind = server; id = id; port = port }) h')
      × (create_server_socket true other h' ≡ made e (record h' { next_id = u32 (id + 2) }))
create_after_destroy id port other old e h a keys used next_used small =
    let d : Handler = record h { next_id = id; sockets = erase id h.sockets } in
    let n : Entry = new_server port d in
    let free : find id d.sockets ≡ none = find-erase_self id h.sockets keys in
    let h' : Handler = record h { next_id = u32 (id + 1); sockets = emplace id n d.sockets } in
    let result : create_server_socket true port d ≡ made n h' =
      server-register port d a ∙ register_free n (u32 (id + 1)) d free in
    let next : u32 (id + 1) ≡ id + 1 = omega arith in
    let taken : find (u32 (id + 1)) h'.sockets ≡ some e = rw next (
      find-emplace_cases (id + 1) id n d.sockets free
      ∙ ground (arith, find-erase_ne (id + 1) id h.sockets)) in
    rw (destroyed id old h used, result)
      (
        refl,
        server-register other h' a
            ∙ register_taken (new_server other h') e (u32 (u32 (id + 1) + 1)) h' taken
            ∙ ap (λ k. made e (record h' { next_id = k })) (omega arith),
      )
