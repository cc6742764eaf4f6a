-- ===== src/SocketHandler/Shared.antt =====
-- The table of sockets under any number of threads (src/SocketHandler.cpp): each takes `socketMutex`
-- alone to change it, but `destroySocket` looks its socket up before that.
pub mod Places
pub mod Order
mod Tests
use socket_lib_linux.Prelude.{
  ℕ, ◌≡◌, Bool, true, false, Option, none, some, at_thread, ◌==◌, if◌then◌else◌,
}
use socket_lib_linux.UnorderedMap.{find}
use socket_lib_linux.SocketHandler.{
  Entry, Handler, create_server_socket, create_client_socket, destroy_socket,
}
use socket_lib_linux.SocketHandler.Ids.{handler_of}

-- Where a thread is. In `destroySocket` of an id it is in `find`, has an iterator and waits for the
-- mutex, or has the mutex and is before `erase`; the iterator may no longer be valid. In a call that
-- creates it has the mutex and is before `emplace`. At the end of either it still has the mutex.
pub data At : Type 0 where
  finding : ℕ → At
  found : ℕ → Bool → At
  erasing : ℕ → Bool → At
  creating : At
  leaving : At

-- `undefined` says that a thread has used an iterator that was not valid, or has been in `find` while
-- another one changed the table.
pub record Table : Type 0 where
  pub handler : Handler
  pub mutex : Bool
  pub at : ℕ → Option At
  pub undefined : Bool

-- What an insertion that rehashes, and an erase of an id, leave of the iterator of a thread.
abbrev pub rehashed : Bool → Option At → Option At
rehashed rehash none = none
rehashed rehash (some (found id b)) = some (found id (if rehash then false else b))
rehashed rehash (some (erasing id b)) = some (erasing id (if rehash then false else b))
rehashed rehash (some p) = some p

abbrev pub erased : ℕ → Option At → Option At
erased k none = none
erased k (some (found id b)) = some (found id (if id == k then false else b))
erased k (some (erasing id b)) = some (erasing id (if id == k then false else b))
erased k (some p) = some p

-- The thread is at a change of the table.
abbrev pub IsWriting : At → Type 0
IsWriting (erasing id b) = Unit {0}
IsWriting creating = Unit {0}
IsWriting p = ⊥

abbrev pub go_to : ℕ → Option At → Table → Table
go_to i p t = record t { at = at_thread i p t.at }

-- One step of one thread.
pub data Step (t : Table) : Table → Type 0 where
  start_destroy : (i id : ℕ) → t.at i ≡ none → Step t (go_to i (some (finding id)) t)
  not_found :
      (i id : ℕ)
      → t.at i ≡ some (finding id)
      → find id t.handler.sockets ≡ none
      → Step t (go_to i none t)
  is_found :
      (i id : ℕ) (e : Entry)
      → t.at i ≡ some (finding id)
      → find id t.handler.sockets ≡ some e
      → Step t (go_to i (some (found id true)) t)
  lock_destroy :
      (i id : ℕ) (b : Bool)
      → t.at i ≡ some (found id b)
      → t.mutex ≡ false
      → Step t (go_to i (some (erasing id b)) (record t { mutex = true }))
  erase :
      (i id : ℕ)
      → t.at i ≡ some (erasing id true)
      → Step t (record t {
        handler = destroy_socket id t.handler;
        at = at_thread i (some leaving) (λ j. erased id (t.at j));
      })
  misuse : (i id : ℕ) → t.at i ≡ some (erasing id false) → Step t (record t { undefined = true })
  lock_create :
      (i : ℕ)
      → t.at i ≡ none
      → t.mutex ≡ false
      → Step t (go_to i (some creating) (record t { mutex = true }))
  create_server :
      (i : ℕ) (constructs rehash : Bool) (port : ℕ)
      → t.at i ≡ some creating
      → Step t (record t {
        handler = handler_of (create_server_socket constructs port t.handler);
        at = at_thread i (some leaving) (λ j. rehashed rehash (t.at j));
      })
  create_client :
      (i : ℕ) (constructs rehash : Bool) (port : ℕ)
      → t.at i ≡ some creating
      → Step t (record t {
        handler = handler_of (create_client_socket constructs port t.handler);
        at = at_thread i (some leaving) (λ j. rehashed rehash (t.at j));
      })
  unlock : (i : ℕ) → t.at i ≡ some leaving → Step t (go_to i none (record t { mutex = false }))
  race :
      (i j id : ℕ) (p : At)
      → t.at i ≡ some (finding id)
      → t.at j ≡ some p
      → IsWriting p
      → Step t (record t { undefined = true })

pub data Reach (t : Table) : Table → Type 0 where
  here : Reach t t
  later : {u v : Table} → Reach t u → Step u v → Reach t v
