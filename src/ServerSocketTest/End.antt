-- ===== src/ServerSocketTest/End.antt =====
-- From the word that stops the test server to its destruction (test/src/ServerSocketTest.cpp,
-- src/ServerSocket.cpp).
use socket_lib_linux.Prelude.{ℕ, ◌≤◌, ◌≡◌, refl, true, false, List, [], ◌++◌, none, some, length}
use socket_lib_linux.Message.{Message}
use socket_lib_linux.BulkQueue.{BulkQueue}
use socket_lib_linux.UnorderedMap.{find, adjust}
use socket_lib_linux.Channel.{Channel, SendEnv}
use socket_lib_linux.ServerSocket.{Server, Outcome, destroy, fds}
use socket_lib_linux.ServerSocket.Clients.{IsKeyed, keys, farewells, destroy-lem}
use socket_lib_linux.ServerSocket.Reports.{keys-adjust}
use socket_lib_linux.ServerSocket.Keys.{adjust-IsKeyed, find-descriptor}
use socket_lib_linux.ClientSocket.{Client}
use socket_lib_linux.ServerSocketTest.{stop_word, listen_on_events}
use socket_lib_linux.ServerSocketTest.Stop.{listen_on_events-stops}

module _ {Q : Type 0} where
  -- Nothing of a client of the test server matters here but its queue of bytes.
  abbrev reader : Channel Q → Client Q
  reader c = record {
    active = true;
    no_delay = false;
    descriptor = none;
    channel = some c;
    watched = false;
    events = [];
    announcing = 0;
    closed = [];
  }

module _ {Q : Type 0} (queue : BulkQueue Q Message) (format : ℕ → List ℕ → List ℕ) where
  -- A message of at most 256 bytes with "stop" anywhere in it, from a client of a server whose map has
  -- the descriptors of the channels as keys: the listener returns and leaves a server that is not
  -- active. The destructor of that server then returns too, and leaves no client and no listening
  -- descriptor; it has closed every client once, in the order of the map, reported each to
  -- `connectCallback`, if there is one, and closed the descriptor on which the server listened last.
  pub stop-destroy :
      (this_thread : ℕ) (envs : ℕ → SendEnv) (id : ℕ) (s : Server Q) (c : Channel Q) (a b : List ℕ)
      → c.incoming ≡ a ++ (stop_word ++ b)
      → length c.incoming ≤ 256
      → find id s.clients ≡ some c
      → IsKeyed s.clients
      → (t d : Server Q) × (listen_on_events queue format this_thread envs id s
          ≡ some (Outcome.returned t))
        × (t.active ≡ false)
        × (destroy t ≡ Outcome.returned d)
        × (d.clients ≡ [])
        × (d.listener ≡ none)
        × (d.closed ≡ s.closed ++ keys s.clients ++ fds s.listener)
        × (d.events ≡ s.events ++ farewells s.watched (keys s.clients))
  stop-destroy this_thread envs id s c a b e short there keyed =
      let c' : Channel Q = record c { incoming = [] } in
      let t : Server Q = record s { active = false; clients = adjust id c' s.clients } in
      let stops =
        (listen_on_events-stops queue format this_thread envs id s (reader c) c a b e short there
          refl).0 in
      let keyed' : IsKeyed t.clients =
        adjust-IsKeyed id c' s.clients (find-descriptor id s.clients c keyed there) keyed in
      (
        t,
        _,
        stops,
        refl,
        destroy-lem t keyed',
        refl,
        refl,
        rw (keys-adjust id c' s.clients) refl,
        rw (keys-adjust id c' s.clients) refl,
      )
