-- ===== src/ClientSocket.antt =====
-- src/ClientSocket.cpp and shared/ClientSocket.hpp.
pub mod Construct
pub mod Lifecycle
pub mod Loops
mod Tests
use socket_lib_linux.Prelude.{
  ℕ, ◌+◌, ◌-◌, Bool, true, false, List, [], ◌∷◌, ◌++◌, Option, none, some, ◌==◌, if◌then◌else◌,
}
use socket_lib_linux.Message.{Message}
use socket_lib_linux.BulkQueue.{BulkQueue}
use socket_lib_linux.Channel.{
  Channel, Ending, SendEnv, RecvResult, Listener, Reply, replied, create, ewouldblock,
  handle_write_queue, queue_write, read_data,
}

-- `active`, `noDelay`, `socketDescriptor` with none for -1, and `channel`. `watched` says whether
-- `connectCallback` has a callback; `events` are its invocations so far, `announcing` how many of the
-- detached threads that `connect` starts have not invoked it yet, and `closed` the descriptors given to
-- `::close`.
pub record Client (Q : Type 0) : Type 0 where
  pub active : Bool
  pub no_delay : Bool
  pub descriptor : Option ℕ
  pub channel : Option (Channel Q)
  pub watched : Bool
  pub events : List (ℕ × Bool)
  pub announcing : ℕ
  pub closed : List ℕ

-- How a call ends, at the state that it leaves: it returns, throws, is still in a loop, or uses a
-- channel that is not there.
pub data Outcome (Q : Type 0) : Type 0 where
  returned : Client Q → Outcome Q
  threw : Client Q → Outcome Q
  unfinished : Client Q → Outcome Q
  undefined : Client Q → Outcome Q

-- `::connect`: 0, or -1 with `errno`.
pub data ConnectResult : Type 0 where
  connected : ConnectResult
  connect_failed : ℕ → ConnectResult

abbrev pub fds : Option ℕ → List ℕ
fds none = []
fds (some fd) = fd ∷ []

abbrev pub number : Option ℕ → ℕ
number none = 0
number (some fd) = fd

module _ {Q : Type 0} where
  -- `::close(socketDescriptor)`, which leaves the member as it is
  abbrev pub close_descriptor : Client Q → Client Q
  close_descriptor s = record s { closed = s.closed ++ fds s.descriptor }

  abbrev pub tell : Channel Q → Bool → Client Q → Client Q
  tell c b s =
      if s.watched then record s { events = s.events ++ (c.client_descriptor, b) ∷ [] } else s

  -- The end of `connect`: if there is a callback, a detached thread starts that will invoke it.
  abbrev pub announce : Client Q → Client Q
  announce s = if s.watched then record s { announcing = s.announcing + 1 } else s

  -- `connect` behind the loop
  abbrev pub start : Q → Client Q → Client Q
  start queue s =
      let c = create (number s.descriptor) queue in
      announce (record s { active = true; channel = some c })

  -- `while (true)` of `connect`, on the answers of `::connect`
  unfoldable pub connect_loop : Q → List ConnectResult → Client Q → Outcome Q
  unfolding create
  connect_loop queue [] s = unfinished s
  connect_loop queue (connected ∷ rs) s = returned (start queue s)
  connect_loop queue (connect_failed e ∷ rs) s =
      let again = connect_loop queue rs s in
      if e == ewouldblock then again else threw (close_descriptor s)

  -- `connect`; `status` is what `setsockopt` returns.
  unfoldable pub connect : Q → ℕ → List ConnectResult → Client Q → Outcome Q
  unfolding connect_loop
  connect queue status rs s =
      if s.no_delay
      then if status == 0 then connect_loop queue rs s else threw s
      else connect_loop queue rs s

  -- One of the detached threads does `connectCallback.invoke(*channel, true)`.
  unfoldable pub announced : Client Q → Outcome Q
  announced s = elim s.channel [
    | none ↦ undefined s
    | some c ↦ returned (tell c true (record s { announcing = s.announcing - 1 }))
  ]

  -- `close` behind the descriptor, which begins with `*channel`
  abbrev pub say_closed : Option (Channel Q) → Client Q → Outcome Q
  say_closed none s = undefined s
  say_closed (some c) s = returned (tell c false s)

  -- `close`, which is also all that the destructor does
  unfoldable pub close : Client Q → Outcome Q
  close s = say_closed s.channel (record (close_descriptor s) { descriptor = none })

  -- `bool found = channel->f(…)`, which is undefined where there is no channel.
  abbrev pub on_channel : (Channel Q → Channel Q × Reply) → Client Q → Client Q × Reply
  on_channel f s = elim s.channel [
    | none ↦ (s, Reply.undefined)
    | some c ↦ (let (c', r) = f c in (record s { channel = some c' }, r))
  ]

module _ {Q : Type 0} (queue : BulkQueue Q Message) where
  abbrev ended_with : Ending → Client Q → Outcome Q
  ended_with Ending.returned s = returned s
  ended_with Ending.threw s = threw s
  ended_with Ending.waiting s = unfinished s
  ended_with Ending.undefined s = undefined s

  -- `write`
  unfoldable pub write : ℕ → SendEnv → Message → Client Q → Outcome Q
  write this_thread env m s = elim s.channel [
    | none ↦ undefined s
    | some c ↦
        (let (c', e) = queue_write queue this_thread env m c in
          ended_with e (record s { channel = some c' }))
  ]

  -- One pass of `writeLoop`; the reply says whether the channel wrote.
  unfoldable pub write_pass : Bool → List SendEnv → Client Q → Client Q × Reply
  write_pass locked envs s =
      if s.active then on_channel (handle_write_queue queue locked envs) s else (s, replied false)

module _ {Q : Type 0} where
  -- One pass of `readLoop`
  unfoldable pub read_pass :
      Bool → Bool → RecvResult → List (Listener Q) → Client Q → Client Q × Reply
  read_pass locked still r ls s =
      if s.active then on_channel (read_data locked still r ls) s else (s, replied false)
