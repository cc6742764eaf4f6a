-- ===== src/ServerSocket/Guarded.antt =====
-- The threads of a server beside each other over the map of clients (src/ServerSocket.cpp):
-- `clientDescriptors` and `clientDescriptorsMutex`, with an iterator for each loop over the map.
pub mod Follows
pub mod Order
pub mod Dangles
pub mod Stalls
mod Tests
use socket_lib_linux.Prelude.{
  ℕ, ◌≡◌, Bool, true, false, ◌&&◌, List, [], ◌∷◌, ◌++◌, Option, none, some, at_thread, ◌==◌,
  if◌then◌else◌,
}
use socket_lib_linux.UnorderedMap.{find, emplace, erase, adjust}
use socket_lib_linux.Channel.{Channel, create, is_active}
use socket_lib_linux.ServerSocket.Clients.{keys}

-- A mutex that threads hold shared or alone, over an unknown state: what its threads do to it, and
-- who holds it.
pub record Mutex : Type 1 where
  pub State : Type 0
  pub Moves : State → State → Type 0
  pub HoldsShared : State → ℕ → Type 0
  pub HoldsAlone : State → ℕ → Type 0

-- No thread holds it shared while one holds it alone: what the code counts on, which a state of
-- `ExclusivePrioritySharedMutex` may break.
abbrev pub AreApart : (M : Mutex) → M.State → Type 0
AreApart M l = (i j : ℕ) → M.HoldsAlone l i → M.HoldsShared l j → ⊥

-- An iterator into the map, or a reference to a channel in it: at the entry of a key, at no entry, or
-- at an entry that is no longer there.
pub data Place : Type 0 where
  past_end : Place
  entry : ℕ → Place
  dangling : Place

-- A loop over the map, or the lookup of `write`: whether it holds the mutex, its iterator `it`, and
-- the `channel` that it is in a call of. Two members record what happened: `found`, the keys that it has
-- to visit, and `visited`, those that it is done with, and whether it called their channels.
pub record Walk : Type 0 where
  pub locked : Bool
  pub it : Place
  pub channel : Place
  pub found : List ℕ
  pub visited : List (ℕ × Bool)

-- `active`, `clientDescriptors`, its mutex, the loops under way by thread, and a record of those that
-- are over.
pub record Guarded (M : Mutex) (Q : Type 0) : Type 0 where
  pub lock : M.State
  pub active : Bool
  pub clients : List (ℕ × Channel Q)
  pub walks : ℕ → Option Walk
  pub over : List Walk

-- `begin()`
abbrev pub first : List ℕ → Place
first [] = past_end
first (k ∷ ks) = entry k

-- `it++`, for an iterator at a key
abbrev pub behind : ℕ → List ℕ → Place
behind k [] = past_end
behind k (j ∷ js) = if j == k then first js else behind k js

-- What `erase` of a key, and an insertion that rehashes, leave of an iterator.
abbrev pub erased : ℕ → Place → Place
erased fd past_end = past_end
erased fd (entry k) = if k == fd then dangling else entry k
erased fd dangling = dangling

abbrev pub rehashed : Place → Place
rehashed past_end = past_end
rehashed (entry k) = dangling
rehashed dangling = dangling

abbrev pub lose : ℕ → Option Walk → Option Walk
lose fd none = none
lose fd (some v) = some (record v { it = erased fd v.it; channel = erased fd v.channel })

-- References stay as they are where a map rehashes.
abbrev pub unsettle : Bool → Option Walk → Option Walk
unsettle rehash none = none
unsettle rehash (some v) = some (record v { it = if rehash then rehashed v.it else v.it })

-- A loop that starts, with the mutex in `readLoop` and `writeLoop`, without it in `threadLoop`.
abbrev pub walk : Bool → List ℕ → Walk
walk locked ks = record {
  locked = locked;
  it = first ks;
  channel = past_end;
  found = ks;
  visited = [];
}

-- `write` behind its `find`, in `queueWrite`
abbrev pub lookup : ℕ → Walk
lookup fd = record {
  locked = true;
  it = past_end;
  channel = entry fd;
  found = fd ∷ [];
  visited = [];
}

-- A pass of a loop that starts: `it++`, and the test of `isActive`. The loops with the mutex call the
-- channel if it is active; `threadLoop` is done with it, and may call `closeClient`.
abbrev pub stepped : Bool → ℕ → List ℕ → Walk → Walk
stepped active k ks v =
    if v.locked && active
    then record v { it = behind k ks; channel = entry k }
    else record v { it = behind k ks; visited = v.visited ++ (k, false) ∷ [] }

-- The call of the channel returns.
abbrev pub returns : ℕ → Walk → Walk
returns k v = record v { channel = past_end; visited = v.visited ++ (k, true) ∷ [] }

-- A thread that has the mutex for a loop keeps it until the loop is over.
abbrev pub Keeps : (M : Mutex) → M.State → ℕ → Option Walk → Type 0
Keeps M l i none = Unit {0}
Keeps M l i (some v) = v.locked ≡ true → M.HoldsShared l i

module _ {M : Mutex} {Q : Type 0} where
  abbrev pub with_walk : ℕ → Option Walk → Guarded M Q → Guarded M Q
  with_walk i v s = record s { walks = at_thread i v s.walks }

  -- One step of one thread. `onConnectedClient` emplaces and `closeClient` erases with the mutex held
  -- alone; a `closeClient` or a `write` that does not find its key changes nothing. A channel may
  -- change at any time, but for its descriptor: the calls of the threads on it are steps of its own.
  -- `bindAndListen` and `notifyStop` set `active`.
  pub data Step (empty : Q) (s : Guarded M Q) : Guarded M Q → Type 0 where
    mutex :
        (l : M.State)
        → M.Moves s.lock l
        → ((i : ℕ) → Keeps M l i (s.walks i))
        → Step empty s (record s { lock = l })
    start_pass :
        (i : ℕ)
        → s.walks i ≡ none
        → M.HoldsShared s.lock i
        → Step empty s (with_walk i (some (walk true (keys s.clients))) s)
    start_thread_loop :
        (i : ℕ)
        → s.walks i ≡ none
        → Step empty s (with_walk i (some (walk false (keys s.clients))) s)
    start_write :
        (i fd : ℕ) (c : Channel Q)
        → s.walks i ≡ none
        → M.HoldsShared s.lock i
        → find fd s.clients ≡ some c
        → Step empty s (with_walk i (some (lookup fd)) s)
    advance :
        (i k : ℕ) (v : Walk) (c : Channel Q)
        → s.walks i ≡ some v
        → v.it ≡ entry k
        → v.channel ≡ past_end
        → find k s.clients ≡ some c
        → Step empty s (with_walk i (some (stepped (is_active s.active c) k (keys s.clients) v)) s)
    call_over :
        (i k : ℕ) (v : Walk)
        → s.walks i ≡ some v
        → v.channel ≡ entry k
        → Step empty s (with_walk i (some (returns k v)) s)
    finish :
        (i : ℕ) (v : Walk)
        → s.walks i ≡ some v
        → v.it ≡ past_end
        → v.channel ≡ past_end
        → Step empty s (record s { walks = at_thread i none s.walks; over = s.over ++ v ∷ [] })
    connect :
        (i fd : ℕ) (rehash : Bool)
        → M.HoldsAlone s.lock i
        → Step empty s (record s {
          clients = emplace fd (create fd empty) s.clients;
          walks = λ j. unsettle rehash (s.walks j);
        })
    close :
        (i fd : ℕ) (c : Channel Q)
        → M.HoldsAlone s.lock i
        → find fd s.clients ≡ some c
        → Step empty s (record s { clients = erase fd s.clients; walks = λ j. lose fd (s.walks j) })
    touch :
        (k : ℕ) (c c' : Channel Q)
        → find k s.clients ≡ some c
        → c'.client_descriptor ≡ c.client_descriptor
        → Step empty s (record s { clients = adjust k c' s.clients })
    set_active : (b : Bool) → Step empty s (record s { active = b })

  pub data Reach (empty : Q) (s : Guarded M Q) : Guarded M Q → Type 0 where
    here : Reach empty s s
    later : {t u : Guarded M Q} → Reach empty s t → Step empty t u → Reach empty s u

  -- The holders of the mutex are apart wherever a step begins in the run.
  abbrev pub StayApart : {empty : Q} {s t : Guarded M Q} → Reach empty s t → Type 0
  StayApart here = Unit {0}
  StayApart (later {t} r e) = StayApart r × AreApart M t.lock
