-- ===== src/Channel/Workers.antt =====
-- One channel under any number of threads (src/Socket.cpp): those that call `queueWrite`, those that
-- call `handleWriteQueue`, one step for each test of the loops and each call of `send`, and those that
-- shut the channel down.
pub mod Order
pub mod Runs
pub mod Shutdown
mod Tests
use socket_lib_linux.Prelude.{
  ℕ, ◌-◌, ◌≡◌, ◌≢◌, Bool, true, false, ◌&&◌, List, [], ◌∷◌, ◌++◌, Option, none, some, length, take,
  drop, ltb, ◌==◌, if◌then◌else◌,
}
use socket_lib_linux.Message.{Message, copy, to_span}
use socket_lib_linux.StreamQueue.{size_mod}
use socket_lib_linux.BulkQueue.{BulkQueue}
use socket_lib_linux.Channel.{SendResult, sent, send_failed, ewouldblock, no_data}

-- Where the thread is that holds `writeLock`, in `handleWriteQueue`.
pub data At : Type 0 where
  holding : At  -- before the bulk dequeue
  between : List Message → At  -- at the head of the `for`, with the messages to come
  sending : List Message → ℕ → List ℕ → At  -- at the `while` of `sendBytes`, with `sent_bytes` and `bytes`
  calling : List Message → List ℕ → At  -- before the call of `send`

-- `holder` is that thread, if the lock is taken. Two members record the past: the messages that were
-- queued and those that were taken out of the queue, oldest first. There and in the queue a message
-- stands beside the thread that queued it, which the code does not keep.
pub record Shared (Q : Type 0) : Type 0 where
  pub active : Bool
  pub write_queue : Q
  pub wire : List ℕ
  pub holder : Option At
  pub queued : List (ℕ × Message)
  pub taken : List (ℕ × Message)

abbrev pub messages : List (ℕ × Message) → List Message
messages [] = []
messages ((i, m) ∷ ms) = m ∷ messages ms

module _ {Q : Type 0} where
  abbrev pub go_to : At → Shared Q → Shared Q
  go_to p s = record s { holder = some p }

  -- The lock is given back.
  abbrev pub release : Shared Q → Shared Q
  release s = record s { holder = none }

  -- The loop of `sendBytes` behind `send`: a fatal error shuts the channel down and leaves
  -- `handleWriteQueue` by an exception, unless `errno` is 0.
  unfoldable pub answered : SendResult → List Message → List ℕ → Shared Q → Shared Q
  answered (sent n) ms bytes s =
      go_to (sending ms n (if ltb n (length bytes) then drop n bytes else bytes))
        (record s { wire = s.wire ++ take n bytes })
  answered (send_failed e) ms bytes s =
      if e == ewouldblock
      then go_to (sending ms (size_mod - 1) bytes) s
      else (if e == 0
          then go_to (between ms) (record s { active = false })
          else release (record s { active = false }))

  -- `handleWriteQueue` behind the dequeue
  unfoldable pub dequeued : List (ℕ × Message) × Q → Shared Q → Shared Q
  dequeued ([], rest) s = release (record s { write_queue = rest })
  dequeued (m ∷ ms, rest) s =
      go_to (between (messages (m ∷ ms)))
        (record s { write_queue = rest; taken = s.taken ++ m ∷ ms })

module _ {Q : Type 0} (queue : BulkQueue Q (ℕ × Message)) where
  -- One step of one thread; `still` is what `isActive()` of the socket reads. `queueWrite` is by thread `i`. A caller of it
  -- and a thread that takes the lock have read `active` (and the size) before, so that either may have
  -- changed since: these steps do not ask for them.
  pub data Step (s : Shared Q) : Shared Q → Type 0 where
    queue_write :
        (i : ℕ) (m : Message)
        → no_data m.buf ≡ false
        → m.len ≢ 0
        → Step s (record s {
          write_queue = queue.enqueue (i, copy m) s.write_queue;
          queued = s.queued ++ (i, copy m) ∷ [];
        })
    lock : s.holder ≡ none → Step s (go_to holding s)
    dequeue : s.holder ≡ some holding → Step s (dequeued (queue.dequeue_bulk 10 s.write_queue) s)
    send_message :
        (still : Bool) (m : Message) (ms : List Message) (bytes : List ℕ)
        → s.holder ≡ some (between (m ∷ ms))
        → to_span m ≡ some bytes
        → Step s (go_to (if s.active && still then sending ms 0 bytes else between ms) s)
    test :
        (still : Bool) (ms : List Message) (last : ℕ) (bytes : List ℕ)
        → s.holder ≡ some (sending ms last bytes)
        → Step s (
            go_to
              (if ltb last (length bytes) && (s.active && still)
                then calling ms bytes
                else between ms)
              s)
    send :
        (r : SendResult) (ms : List Message) (bytes : List ℕ)
        → s.holder ≡ some (calling ms bytes)
        → Step s (answered r ms bytes s)
    finish : s.holder ≡ some (between []) → Step s (release s)
    shutdown : Step s (record s { active = false })

  pub data Reach (s : Shared Q) : Shared Q → Type 0 where
    here : Reach s s
    later : {t u : Shared Q} → Reach s t → Step t u → Reach s u
