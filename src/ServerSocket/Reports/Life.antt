-- ===== src/ServerSocket/Reports/Life.antt =====
-- The life of a server, as a sequence of operations of its threads and its owner
-- (src/ServerSocket.cpp).
use socket_lib_linux.Prelude.{
  ℕ, ◌≡◌, refl, sym, subst, ◌⊎◌, inl, inr, true, false, List, [], ◌∷◌, ◌++◌, none, some, arith,
  Bool-cases, Option-cases, if◌then◌else◌,
}
use socket_lib_linux.Message.{Message}
use socket_lib_linux.BulkQueue.{BulkQueue}
use socket_lib_linux.Channel.{Channel, SendEnv, Listener, is_active}
use socket_lib_linux.UnorderedMap.{find}
use socket_lib_linux.ServerSocket.{
  Server, Outcome, returned, threw, unfinished, left, ◌>>=◌, notify_stop, announced,
  on_connected_client, close_client, close_inactive, thread_loop, write,
}
use socket_lib_linux.ServerSocket.Clients.{IsKeyed, keys}
use socket_lib_linux.ServerSocket.Keys.{write-IsKeyed, left-ended_with}
use socket_lib_linux.ServerSocket.Loops.{WriteTurn, ReadTurn, write_pass, read_pass}
use socket_lib_linux.ServerSocket.Loops.Keep.{KeepDescriptor, write_pass-IsKeyed, read_pass-IsKeyed}
use socket_lib_linux.ServerSocket.Reports.{
  Reported, silent-Reported, on_connected_client-Reported, close_client-Reported,
  announced-Reported, keys-adjust,
}

module _ {Q : Type 0} where
  bind-Reported :
      (o : Outcome (Server Q)) (k : Server Q → Outcome (Server Q))
      → Reported (left o)
      → ((t : Server Q) → Reported t → Reported (left (k t)))
      → Reported (left (o >>= k))
  bind-Reported (returned s) k r h = h s r
  bind-Reported (threw s) k r h = r
  bind-Reported (unfinished s) k r h = r

  close_inactive-Reported :
      (cs : List (ℕ × Channel Q)) (s : Server Q)
      → Reported s
      → Reported (left (close_inactive cs s))
  unfolding close_inactive
  close_inactive-Reported [] s r = r
  close_inactive-Reported ((k, c) ∷ cs) s r =
      bind-Reported
        (if is_active s.active c then returned s else close_client c.client_descriptor s)
        (close_inactive cs) (first (Bool-cases (is_active s.active c))) (close_inactive-Reported cs)
    where
      first :
          (is_active s.active c ≡ true) ⊎ (is_active s.active c ≡ false)
          → Reported (
              left
                (if is_active s.active c then returned s else close_client c.client_descriptor s))
      first (inl on) = rw on r
      first (inr off) = rw off (close_client-Reported c.client_descriptor s r)

  thread_loop-Reported : (s : Server Q) → Reported s → Reported (left (thread_loop s))
  unfolding thread_loop
  thread_loop-Reported s r = close_inactive-Reported s.clients s r

module _ {Q : Type 0} (queue : BulkQueue Q Message) where
  write-Reported :
      (this_thread : ℕ) (env : SendEnv) (fd : ℕ) (m : Message) (s : Server Q)
      → Reported s
      → Reported (left (write queue this_thread env fd m s))
  unfolding write
  write-Reported this_thread env fd m s r =
      silent-Reported s _ (write-IsKeyed queue this_thread env fd m s r.keyed)
        (same (Option-cases (find fd s.clients))).0 (same (Option-cases (find fd s.clients))).1 r
    where
      same :
          (find fd s.clients ≡ none) ⊎ ((c : Channel Q) × (find fd s.clients ≡ some c))
          → let t = left (write queue this_thread env fd m s) in
            (keys t.clients ≡ keys s.clients)
            × ((t.watched ≡ s.watched)
                × (t.events ≡ s.events)
                × (t.announcing ≡ s.announcing)
                × (t.closed ≡ s.closed))
      same (inl e) = rw (e, write) (refl, (refl, refl, refl, refl))
      same (inr (c, e)) =
          rw (e, write, left-ended_with) (keys-adjust fd _ s.clients, (refl, refl, refl, refl))

  -- One operation: of the listening thread (a new connection, on a descriptor that no client has; a
  -- pass that closes what is inactive), of a worker thread, of the owner, or of a detached thread that
  -- reports a connection, at any time behind it.
  pub data Step (s : Server Q) : Server Q → Type 0 where
    connect :
        (empty : Q) (fd : ℕ) → find fd s.clients ≡ none → Step s (on_connected_client empty fd s)
    report :
        (before : List ℕ) (fd : ℕ) (others : List ℕ)
        → s.announcing ≡ before ++ fd ∷ others
        → Step s (announced before fd others s)
    close_dead : Step s (left (thread_loop s))
    work_write : (turn : ℕ → WriteTurn) → Step s (write_pass queue turn s).0
    work_read :
        (turn : ℕ → ReadTurn) (ls : List (Listener Q))
        → KeepDescriptor ls
        → Step s (read_pass turn ls s).0
    close : (fd : ℕ) → Step s (left (close_client fd s))
    send :
        (this_thread : ℕ) (env : SendEnv) (fd : ℕ) (m : Message)
        → Step s (left (write queue this_thread env fd m s))
    stop : Step s (notify_stop s)

  pub data Reach (s : Server Q) : Server Q → Type 0 where
    here : Reach s s
    later : {t u : Server Q} → Reach s t → Step t u → Reach s u

  quiet-write_pass :
      (turn : ℕ → WriteTurn) (s : Server Q)
      → let t = (write_pass queue turn s).0 in
        (t.watched ≡ s.watched)
        × (t.events ≡ s.events)
        × (t.announcing ≡ s.announcing)
        × (t.closed ≡ s.closed)
  unfolding write_pass
  quiet-write_pass turn s = ground arith

  quiet-read_pass :
      (turn : ℕ → ReadTurn) (ls : List (Listener Q)) (s : Server Q)
      → let t = (read_pass turn ls s).0 in
        (t.watched ≡ s.watched)
        × (t.events ≡ s.events)
        × (t.announcing ≡ s.announcing)
        × (t.closed ≡ s.closed)
  unfolding read_pass
  quiet-read_pass turn ls s = ground arith

  Step-Reported : {s t : Server Q} → Step s t → Reported s → Reported t
  unfolding notify_stop
  Step-Reported {s} (connect empty fd free) r = on_connected_client-Reported empty fd s free r
  Step-Reported {s} (report before fd others e) r = announced-Reported before fd others s e r
  Step-Reported {s} close_dead r = thread_loop-Reported s r
  Step-Reported {s} (work_write turn) r =
      let (keyed, same) = write_pass-IsKeyed queue turn s r.keyed in
      silent-Reported s _ keyed same (quiet-write_pass turn s) r
  Step-Reported {s} (work_read turn ls keep) r =
      let (keyed, same) = read_pass-IsKeyed turn ls s keep r.keyed in
      silent-Reported s _ keyed same (quiet-read_pass turn ls s) r
  Step-Reported {s} (close fd) r = close_client-Reported fd s r
  Step-Reported {s} (send this_thread env fd m) r = write-Reported this_thread env fd m s r
  Step-Reported {s} stop r = silent-Reported s _ r.keyed refl (refl, refl, refl, refl) r

  -- After any sequence of operations on a server that began with no clients, no reports, none to come
  -- and no closed descriptors: every client stands in the map once and under its own descriptor; and if
  -- there is a connect callback, the number of times that a descriptor was reported as connected, with
  -- the detached threads that have yet to report it, is the number of times that it was reported as
  -- disconnected, and one more for each time it is in the map, and it was closed as often as it was
  -- reported as disconnected.
  pub Reach-Reported :
      {s t : Server Q}
      → s.clients ≡ []
      → s.events ≡ []
      → s.announcing ≡ []
      → s.closed ≡ []
      → Reach s t
      → Reported t
  Reach-Reported none_yet quiet none_to_come open_all here = record {
    keyed = subst IsKeyed (sym none_yet) tt;
    balance = λ on fd. rw (none_yet, quiet, none_to_come) refl;
    ends = λ on fd. rw (open_all, quiet) refl;
  }
  Reach-Reported none_yet quiet none_to_come open_all (later r st) =
      Step-Reported st (Reach-Reported none_yet quiet none_to_come open_all r)
