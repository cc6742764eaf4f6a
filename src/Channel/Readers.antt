-- ===== src/Channel/Readers.antt =====
-- One channel under any number of threads that call `readData` (src/Socket.cpp), one step for each
-- access to what they share.
pub mod Order
mod Tests
use socket_lib_linux.Prelude.{
  ℕ, ◌≡◌, Bool, true, false, List, [], ◌∷◌, ◌++◌, Option, none, some, take, drop, ◌==◌,
  if◌then◌else◌,
}
use socket_lib_linux.StreamQueue
use socket_lib_linux.Channel.{RecvResult, received, recv_failed, ewouldblock}

-- Where the thread is that holds `readLock`.
pub data At : Type 0 where
  locked : At  -- before `recv`
  checking : RecvResult → At  -- before the test of `isActive()`
  listening : At  -- in `listenCallback.invokeError`

-- `incoming` is the content of `incomingQueue`. Three members record the past: the bytes that `recv`
-- gave, those that listeners took out of the queue, and whether bytes were thrown away.
pub record Shared : Type 0 where
  pub active : Bool
  pub incoming : List ℕ
  pub holder : Option At
  pub stream : List ℕ
  pub heard : List ℕ
  pub lost : Bool

abbrev pub go_to : At → Shared → Shared
go_to p s = record s { holder = some p }

-- The lock is given back.
abbrev pub release : Shared → Shared
release s = record s { holder = none }

-- The bytes that a call of `recv` brought
abbrev pub bytes_of : RecvResult → List ℕ
bytes_of (received bs) = bs
bytes_of (recv_failed e) = []

-- Where `isActive()` is false, the bytes are not put into the queue.
abbrev pub throw_away : RecvResult → Shared → Shared
throw_away (received []) s = release s
throw_away (received (b ∷ bs)) s = release (record s { lost = true })
throw_away (recv_failed e) s = release s

-- The part of `readData` behind `recv`: an end of the stream and every error but a would-block shut the
-- channel down; the exception of the last of them is caught in `readData`.
unfoldable pub checked : Bool → RecvResult → Shared → Shared
unfolding StreamQueue.enqueue
checked false r s = throw_away r s
checked true (received []) s = release (record s { active = false })
checked true (received (b ∷ bs)) s =
    go_to listening (record s { incoming = StreamQueue.enqueue (b ∷ bs) s.incoming })
checked true (recv_failed e) s =
    if e == ewouldblock then release s else release (record s { active = false })

-- One step of one thread; `still` is what `isActive()` of the socket reads, and `n` how many bytes a
-- listener takes out of the queue with one call of `dequeue`. A thread that takes the lock has read
-- `active` before.
pub data Step (s : Shared) : Shared → Type 0 where
  lock : s.holder ≡ none → Step s (go_to locked s)
  recv :
      (r : RecvResult)
      → s.holder ≡ some locked
      → Step s (go_to (checking r) (record s { stream = s.stream ++ bytes_of r }))
  check :
      (still : Bool) (r : RecvResult)
      → s.holder ≡ some (checking r)
      → Step s (checked (if s.active then still else false) r s)
  listen :
      (n : ℕ)
      → s.holder ≡ some listening
      → Step s (record s {
        heard = s.heard ++ (StreamQueue.dequeue n s.incoming).0;
        incoming = (StreamQueue.dequeue n s.incoming).1;
      })
  finish : s.holder ≡ some listening → Step s (release s)
  shutdown : Step s (record s { active = false })

pub data Reach (s : Shared) : Shared → Type 0 where
  here : Reach s s
  later : {t u : Shared} → Reach s t → Step t u → Reach s u
