-- ===== src/Channel/Readers/Tests.antt =====
-- A run of two threads that read one channel (src/Socket.cpp).
use socket_lib_linux.Prelude.{ℕ, ◌≡◌, refl, true, false, List, [], ◌∷◌, ◌++◌, none, some}
use socket_lib_linux.StreamQueue
use socket_lib_linux.Channel.{received}
use socket_lib_linux.Channel.Readers.{
  Shared, checking, checked, Reach, here, later, lock, recv, check, listen, finish,
}
use socket_lib_linux.Channel.Readers.Order.{Reach-stream}

abbrev fresh : Shared
fresh = record {
  active = true;
  incoming = [];
  holder = none;
  stream = [];
  heard = [];
  lost = false;
}

-- Three bytes came, of which a listener took two, and two more are in the hand of another thread.
abbrev between : Shared
between = record fresh {
  incoming = 3 ∷ [];
  holder = some (checking (received (4 ∷ 5 ∷ [])));
  stream = 1 ∷ 2 ∷ 3 ∷ 4 ∷ 5 ∷ [];
  heard = 1 ∷ 2 ∷ [];
}

between-Reach : Reach fresh between
unfolding checked StreamQueue.enqueue StreamQueue.dequeue
between-Reach =
    later
      (later
        (later
          (later
            (later (later (later here (lock refl)) (recv (received (1 ∷ 2 ∷ 3 ∷ [])) refl))
              (check true (received (1 ∷ 2 ∷ 3 ∷ [])) refl))
            (listen 2 refl))
          (finish refl))
        (lock refl))
      (recv (received (4 ∷ 5 ∷ [])) refl)

Reach-stream_example :
    (bs : List ℕ) × (1 ∷ 2 ∷ 3 ∷ [] ++ bs ≡ 1 ∷ 2 ∷ 3 ∷ 4 ∷ 5 ∷ [])
    × (between.holder ≡ none → bs ≡ [])
Reach-stream_example = Reach-stream fresh between refl refl refl refl between-Reach refl
