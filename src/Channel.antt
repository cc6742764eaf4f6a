-- ===== src/Channel.antt =====
-- src/Socket.cpp and shared/Socket.hpp: `Channel`, one connection of a socket.
pub mod Send
pub mod Write
pub mod Safety
pub mod Read
pub mod End
pub mod Workers
pub mod Readers
mod Tests
use socket_lib_linux.Prelude.{
  ℕ, ◌-◌, Bool, true, false, not, ◌&&◌, ◌||◌, List, [], ◌∷◌, ◌++◌, Option, none, some, length, take,
  drop, ltb, ◌==◌, if◌then◌else◌,
}
use socket_lib_linux.Message.{Message, copy, to_span}
use socket_lib_linux.StreamQueue.{size_mod}
use socket_lib_linux.StreamQueue
use socket_lib_linux.BulkQueue.{BulkQueue}

-- `errno` on Linux
abbrev pub ewouldblock : ℕ
ewouldblock = 11

abbrev pub econnreset : ℕ
econnreset = 104

-- `send`: how many bytes the system took, or -1 with `errno`.
pub data SendResult : Type 0 where
  sent : ℕ → SendResult
  send_failed : ℕ → SendResult

-- `recv`: the bytes read, none at the end of the stream, or -1 with `errno`.
pub data RecvResult : Type 0 where
  received : List ℕ → RecvResult
  recv_failed : ℕ → RecvResult

-- One pass of the loop in `sendBytes`: what `isActive()` reads, and what `send` answers.
pub record Round : Type 0 where
  pub is_active : Bool
  pub result : SendResult

-- How a call ends: it returns, throws, is still in its loop when the passes are used up, or reads
-- memory that is not there.
pub data Ending : Type 0 where
  returned threw waiting undefined : Ending

-- What the system took, whether `queueShutdown` was called, and how the loop ended.
pub record Sending : Type 0 where
  pub wire : List ℕ
  pub shut : Bool
  pub ending : Ending

abbrev pub stop : Sending
stop = record { wire = []; shut = false; ending = returned }

-- `queueShutdown(); throwIfError<true>(err); break`
abbrev pub fail : ℕ → Sending
fail e = record { wire = []; shut = true; ending = if e == 0 then returned else threw }

-- The body after the call of `send`. `sent_bytes` is a `long`; where it is compared with a `size_t`
-- it is converted, and -1 is the greatest `size_t`.
abbrev pub after_send : SendResult → List ℕ → (ℕ → List ℕ → Sending) → Sending
after_send (sent n) bytes loop =
    let rest = loop n (if ltb n (length bytes) then drop n bytes else bytes) in
    record rest { wire = take n bytes ++ rest.wire }
after_send (send_failed e) bytes loop =
    let again = loop (size_mod - 1) bytes in if e == ewouldblock then again else fail e

-- `while (sent_bytes < bytes.size())`
unfoldable pub send_loop : List Round → ℕ → List ℕ → Sending
send_loop [] last bytes =
    if ltb last (length bytes) then record { wire = []; shut = false; ending = waiting } else stop
send_loop (r ∷ rounds) last bytes =
    if ltb last (length bytes) && r.is_active
    then after_send r.result bytes (send_loop rounds)
    else stop

-- What the other threads and the system do during one `sendBytes`.
pub record SendEnv : Type 0 where
  pub socket_active : Bool
  pub rounds : List Round

-- The members that the operations below use. `write_thread` is the id of `writeThread`, 0 while no
-- thread was started; `wire` is what the system has taken from this channel.
pub record Channel (Q : Type 0) : Type 0 where
  pub client_descriptor : ℕ
  pub active : Bool
  pub write_thread : ℕ
  pub incoming : List ℕ
  pub write_queue : Q
  pub wire : List ℕ

-- What the caller of `readData` and `handleWriteQueue` sees: a result, a call that is still in its
-- loop, undefined behaviour, or the end of the program by an exception in a `noexcept` function.
pub data Reply : Type 0 where
  replied : Bool → Reply
  in_progress : Reply
  undefined : Reply
  terminated : Reply

module _ {Q : Type 0} where
  -- `Channel::Channel`, with the empty queues that it is given
  unfoldable pub create : ℕ → Q → Channel Q
  create fd queue = record {
    client_descriptor = fd;
    active = true;
    write_thread = 0;
    incoming = [];
    write_queue = queue;
    wire = [];
  }

  -- `isActive`
  unfoldable pub is_active : Bool → Channel Q → Bool
  is_active socket_active c = c.active && socket_active

  unfoldable pub queue_shutdown : Channel Q → Channel Q
  queue_shutdown c = record c { active = false }

  -- `sendBytes`
  unfoldable pub send_bytes : SendEnv → List ℕ → Channel Q → Channel Q × Ending
  unfolding send_loop
  send_bytes env bytes c =
      if c.active && env.socket_active
      then (let s = send_loop env.rounds 0 bytes in
          (record c { active = c.active && not s.shut; wire = c.wire ++ s.wire }, s.ending))
      else (c, returned)

  -- `sendMessage`
  unfoldable pub send_message : SendEnv → Message → Channel Q → Channel Q × Ending
  unfolding send_bytes
  send_message env m c = elim (to_span m) [
    | none ↦ (c, undefined)
    | some bytes ↦ send_bytes env bytes c
  ]

  -- What follows a statement that may throw.
  abbrev pub and_then : Channel Q × Ending → (Channel Q → Channel Q × Ending) → Channel Q × Ending
  and_then (c, returned) k = k c
  and_then (c, threw) k = (c, threw)
  and_then (c, waiting) k = (c, waiting)
  and_then (c, undefined) k = (c, undefined)

  -- The `for` of `handleWriteQueue`: an exception leaves it.
  unfoldable pub send_all : List SendEnv → List Message → Channel Q → Channel Q × Ending
  unfolding send_message
  send_all envs [] c = (c, returned)
  send_all [] (m ∷ ms) c = (c, waiting)
  send_all (env ∷ envs) (m ∷ ms) c = and_then (send_message env m c) (send_all envs ms)

  -- The end of `handleWriteQueue`, its `catch` included.
  abbrev pub write_reply : Channel Q × Ending → Channel Q × Reply
  write_reply (c, returned) = (c, replied true)
  write_reply (c, threw) = (record c { active = false }, replied false)
  write_reply (c, waiting) = (c, in_progress)
  write_reply (c, undefined) = (c, undefined)

  -- `handleWriteQueue` behind the dequeue, of the messages that it got and the queue that is left.
  unfoldable pub write_batch : List SendEnv → List Message × Q → Channel Q → Channel Q × Reply
  unfolding send_all
  write_batch envs ([], rest) c = (record c { write_queue = rest }, replied false)
  write_batch envs (m ∷ ms, rest) c =
      write_reply (send_all envs (m ∷ ms) (record c { write_queue = rest }))

-- `msg.data() == nullptr`
abbrev pub no_data : Option (List ℕ) → Bool
no_data none = true
no_data (some _) = false

module _ {Q : Type 0} (queue : BulkQueue Q Message) where
  -- `handleWriteQueue`; `locked` says whether `try_to_lock` got the write lock.
  unfoldable pub handle_write_queue : Bool → List SendEnv → Channel Q → Channel Q × Reply
  unfolding write_batch
  handle_write_queue locked envs c =
      if not c.active || queue.size_approx c.write_queue == 0 || not locked
      then (c, replied false)
      else write_batch envs (queue.dequeue_bulk 10 c.write_queue) c

  -- `queueWrite`, called by the thread `this_thread`
  unfoldable pub queue_write : ℕ → SendEnv → Message → Channel Q → Channel Q × Ending
  unfolding copy send_message
  queue_write this_thread env m c =
      if not c.active || no_data m.buf || m.len == 0
      then (c, returned)
      else (if this_thread == c.write_thread
          then send_message env m c
          else (record c { write_queue = queue.enqueue (copy m) c.write_queue }, returned))

-- A listener gets the channel and its incoming queue; `none` is an exception that leaves it, which
-- ends the program, since `AbstractFunction::operator()` is `noexcept`.
abbrev pub Listener : Type 0 → Type 0
Listener Q = Channel Q → Option (Channel Q)

module _ {Q : Type 0} where
  -- `listenCallback.invokeError`
  unfoldable pub listen : List (Listener Q) → Channel Q → Channel Q × Reply
  listen [] c = (c, replied true)
  listen (l ∷ ls) c = elim (l c) [ none ↦ (c, terminated) | some c' ↦ listen ls c' ]

  -- The part of `readData` behind `recv`; `still` is what `isActive()` reads there.
  unfoldable pub handle_received :
      Bool → RecvResult → List (Listener Q) → Channel Q → Channel Q × Reply
  unfolding listen queue_shutdown StreamQueue.enqueue
  handle_received false r ls c = (c, replied false)
  handle_received true (received []) ls c = (queue_shutdown c, replied false)
  handle_received true (received (b ∷ bs)) ls c =
      listen ls (record c { incoming = StreamQueue.enqueue (b ∷ bs) c.incoming })
  handle_received true (recv_failed e) ls c =
      if e == econnreset
      then (queue_shutdown c, replied false)
      else if e == ewouldblock
      then (c, replied false)
      else (queue_shutdown c, replied false)

  -- `readData`; `locked` says whether `try_lock` got the read lock.
  unfoldable pub read_data :
      Bool → Bool → RecvResult → List (Listener Q) → Channel Q → Channel Q × Reply
  unfolding handle_received
  read_data locked still r ls c =
      if not c.active || not locked then (c, replied false) else handle_received still r ls c
