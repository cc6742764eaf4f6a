-- ===== src/ServerSocket.antt =====
-- src/ServerSocket.cpp and shared/ServerSocket.hpp: the clients of a listening socket.
pub mod Clients
pub mod Keys
pub mod Bind
pub mod Loops
pub mod Reports
pub mod Peer
pub mod Guarded
mod Tests
use socket_lib_linux.Prelude.{
  ℕ, zero, suc, Bool, true, false, not, List, [], ◌∷◌, ◌++◌, Option, none, some, max, ◌==◌,
  if◌then◌else◌,
}
use socket_lib_linux.UnorderedMap.{find, emplace, erase, adjust}
use socket_lib_linux.Message.{Message}
use socket_lib_linux.BulkQueue.{BulkQueue}
use socket_lib_linux.Channel.{
  Channel, Ending, SendEnv, RecvResult, Listener, Reply, replied, create, is_active, queue_shutdown,
  queue_write, ewouldblock, handle_write_queue, read_data,
}

-- Where a thread runs that `bindAndListen` starts.
pub data Thread : Type 0 where
  connection_listen_loop read_loop write_loop : Thread

-- `active`, `noDelay`, `workerThreadCount`, `connectionListenThread` with `workerThreads`, and
-- `clientDescriptors`, in the order in which the map is traversed. `watched` says whether
-- `connectCallback` has a callback; `events` are its invocations so far, `announcing` the descriptors of
-- the new channels whose detached thread has not invoked it yet, `closed` the descriptors given to
-- `shutdown` and `close`. `listener` is `socketDescriptor`, with none for -1.
pub record Server (Q : Type 0) : Type 0 where
  pub active : Bool
  pub no_delay : Bool
  pub listener : Option ℕ
  pub worker_thread_count : ℕ
  pub threads : List Thread
  pub clients : List (ℕ × Channel Q)
  pub watched : Bool
  pub events : List (ℕ × Bool)
  pub announcing : List ℕ
  pub closed : List ℕ

-- A call returns, throws, or is still in a loop; the state stands as it was left.
pub data Outcome (S : Type 0) : Type 0 where
  returned : S → Outcome S
  threw : S → Outcome S
  unfinished : S → Outcome S

module _ {S : Type 0} where
  infixl 5 ◌>>=◌
  abbrev pub ◌>>=◌ : Outcome S → (S → Outcome S) → Outcome S
  returned s >>= k = k s
  threw s >>= k = threw s
  unfinished s >>= k = unfinished s

  -- The state that a call leaves.
  abbrev pub left : Outcome S → S
  left (returned s) = s
  left (threw s) = s
  left (unfinished s) = s

  -- `Utils::throwIfError(logger, status, tag)`
  abbrev pub throw_if_error : ℕ → S → Outcome S
  throw_if_error status s = if status == 0 then returned s else threw s

-- The descriptor that a `close` gets, none where the code has -1.
abbrev pub fds : Option ℕ → List ℕ
fds none = []
fds (some fd) = fd ∷ []

-- What the system calls of `bindAndListen` return; 0 is success.
pub record BindEnv : Type 0 where
  pub reuse_status : ℕ
  pub no_delay_status : ℕ
  pub bind_status : ℕ
  pub listen_status : ℕ

module _ {Q : Type 0} where
  abbrev start : Thread → Server Q → Server Q
  start t s = record s { threads = s.threads ++ t ∷ [] }

  -- The `for` that starts the worker threads, `n` rounds.
  start_workers : ℕ → Server Q → Server Q
  start_workers zero s = s
  start_workers (suc n) s = start_workers n (start write_loop (start read_loop s))

  -- `bindAndListen`
  unfoldable pub bind_and_listen : BindEnv → Server Q → Outcome (Server Q)
  unfolding start_workers
  bind_and_listen env s =
      if s.active
      then threw s
      else (throw_if_error env.reuse_status (record s { active = true })
          >>= (λ t. if t.no_delay then throw_if_error env.no_delay_status t else returned t)
          >>= throw_if_error env.bind_status
          >>= (λ t. throw_if_error env.listen_status (start connection_listen_loop t))
          >>= λ t. returned (start_workers (max t.worker_thread_count 1) t))

  -- `notifyStop`
  unfoldable pub notify_stop : Server Q → Server Q
  notify_stop s = record s { active = false }

  abbrev descriptor_of : ℕ → Option (Channel Q) → ℕ
  descriptor_of fd none = fd
  descriptor_of fd (some c) = c.client_descriptor

  -- `connectCallback.invoke(channel, false)` of `closeClient`, if there is a callback.
  abbrev tell : ℕ → Server Q → Server Q
  tell fd s = if s.watched then record s { events = s.events ++ (fd, false) ∷ [] } else s

  -- The end of `onConnectedClient`: if there is a callback, a detached thread starts that will invoke it.
  abbrev announce : ℕ → Server Q → Server Q
  announce fd s = if s.watched then record s { announcing = s.announcing ++ fd ∷ [] } else s

  -- A detached thread, of those in `announcing`, does `connectCallback.invoke(*channelPtr, true)`. The
  -- channel may be gone by then.
  unfoldable pub announced : List ℕ → ℕ → List ℕ → Server Q → Server Q
  announced before fd others s = record s {
    announcing = before ++ others;
    events = s.events ++ (fd, true) ∷ [];
  }

  -- `onConnectedClient`, with the empty write queue that a channel begins with
  unfoldable pub on_connected_client : Q → ℕ → Server Q → Server Q
  unfolding emplace find create
  on_connected_client queue fd s =
      let cs = emplace fd (create fd queue) s.clients in
      announce (descriptor_of fd (find fd cs)) (record s { clients = cs })

  -- `closeClient`. The channel leaves the map first; `~Channel` ends it.
  unfoldable pub close_client : ℕ → Server Q → Outcome (Server Q)
  unfolding find erase
  close_client fd s = elim (find fd s.clients) [
    | none ↦ threw s
    | some c ↦
        (let t = tell c.client_descriptor (record s { clients = erase fd s.clients }) in
          returned (record t { closed = t.closed ++ fd ∷ [] }))
  ]

  -- The `for` of `threadLoop`: the iterator has moved on before `closeClient` erases the entry.
  unfoldable pub close_inactive : List (ℕ × Channel Q) → Server Q → Outcome (Server Q)
  unfolding close_client is_active
  close_inactive [] s = returned s
  close_inactive ((id, c) ∷ cs) s =
      (if is_active s.active c then returned s else close_client c.client_descriptor s)
      >>= close_inactive cs

  -- `threadLoop`
  unfoldable pub thread_loop : Server Q → Outcome (Server Q)
  unfolding close_inactive
  thread_loop s = close_inactive s.clients s

  -- The `for` of the destructor
  unfoldable pub close_all : List (ℕ × Channel Q) → Server Q → Outcome (Server Q)
  unfolding close_client
  close_all [] s = returned s
  close_all ((id, c) ∷ cs) s = close_client id s >>= close_all cs

  -- The end of the destructor, behind the threads that it joins.
  abbrev pub close_listener : Server Q → Server Q
  close_listener s = record s { listener = none; closed = s.closed ++ fds s.listener }

  -- `~ServerSocket`
  unfoldable pub destroy : Server Q → Outcome (Server Q)
  unfolding notify_stop close_all
  destroy s = close_all s.clients (notify_stop s) >>= λ t. returned (close_listener t)

-- `accept4`: a new descriptor, or -1 with `errno`.
pub data AcceptResult : Type 0 where
  accepted : ℕ → AcceptResult
  accept_failed : ℕ → AcceptResult

module _ {Q : Type 0} where
  abbrev pub admit : Q → Bool → AcceptResult → Server Q → Server Q
  admit queue still (accept_failed e) s = s
  admit queue still (accepted fd) s = if still then on_connected_client queue fd s else s

  -- One pass of `connectionListenLoop`; `still` is what `isActive()` reads behind `accept4`. A failed
  -- accept only logs or sleeps.
  unfoldable pub connection_listen : Q → Bool → AcceptResult → Server Q → Outcome (Server Q)
  unfolding thread_loop on_connected_client
  connection_listen queue still r s =
      if s.active then thread_loop s >>= (λ t. returned (admit queue still r t)) else returned s

-- How `queueWrite` ends, at the state that it leaves.
abbrev pub ended_with : {S : Type 0} → Ending → S → Outcome S
ended_with Ending.returned s = returned s
ended_with Ending.threw s = threw s
ended_with Ending.waiting s = unfinished s
ended_with Ending.undefined s = unfinished s

module _ {Q : Type 0} (queue : BulkQueue Q Message) where
  -- `write`
  unfoldable pub write : ℕ → SendEnv → ℕ → Message → Server Q → Outcome (Server Q)
  unfolding find adjust
  write this_thread env fd m s = elim (find fd s.clients) [
    | none ↦ threw s
    | some c ↦
        (let (c', e) = queue_write queue this_thread env m c in
          ended_with e (record s { clients = adjust fd c' s.clients }))
  ]
