-- ===== src/ServerSocket/Reports.antt =====
-- What a server reports and closes over its life (src/ServerSocket.cpp).
pub mod Life
use socket_lib_linux.Prelude.{
  ℕ, zero, suc, ◌+◌, ◌≡◌, ◌≢◌, refl, ap, ◌∙◌, sym, subst, ◌⊎◌, inl, inr, Bool, true, false, List,
  [], ◌∷◌, ◌++◌, Option, none, some, arith, Bool-cases, Option-cases, ◌==◌, if◌then◌else◌,
}
use socket_lib_linux.Message.{Message}
use socket_lib_linux.BulkQueue.{BulkQueue}
use socket_lib_linux.Channel.{Channel, SendEnv, Listener, create, is_active, queue_write}
use socket_lib_linux.UnorderedMap.{find, emplace, erase, adjust, find-emplace}
use socket_lib_linux.ServerSocket.{
  Server, Outcome, returned, threw, unfinished, left, ◌>>=◌, notify_stop, announced,
  on_connected_client, close_client, close_inactive, thread_loop, write,
}
use socket_lib_linux.ServerSocket.Clients.{IsKeyed, keys}
use socket_lib_linux.ServerSocket.Keys.{
  close_client-IsKeyed, on_connected_client-IsKeyed, write-IsKeyed, left-ended_with,
  find-descriptor,
}
use socket_lib_linux.ServerSocket.Loops.{WriteTurn, ReadTurn, write_pass, read_pass}
use socket_lib_linux.ServerSocket.Loops.Keep.{KeepDescriptor, write_pass-IsKeyed, read_pass-IsKeyed}

-- How often a descriptor stands in a list, and how often it was reported as connected or as not.
abbrev pub occurs : ℕ → List ℕ → ℕ
occurs fd [] = 0
occurs fd (k ∷ ks) = (if k == fd then 1 else 0) + occurs fd ks

abbrev pub said : ℕ → Bool → List (ℕ × Bool) → ℕ
said fd b [] = 0
said fd true ((k, true) ∷ es) = (if k == fd then 1 else 0) + said fd true es
said fd false ((k, false) ∷ es) = (if k == fd then 1 else 0) + said fd false es
said fd true ((k, false) ∷ es) = said fd true es
said fd false ((k, true) ∷ es) = said fd false es

occurs-append : (fd : ℕ) (xs ys : List ℕ) → occurs fd (xs ++ ys) ≡ occurs fd xs + occurs fd ys
occurs-append fd [] ys = omega arith
occurs-append fd (x ∷ xs) ys = omega (arith, occurs-append fd xs ys)

said-append :
    (fd : ℕ) (b : Bool) (xs ys : List (ℕ × Bool))
    → said fd b (xs ++ ys) ≡ said fd b xs + said fd b ys
said-append fd b [] ys = omega arith
said-append fd true ((k, true) ∷ xs) ys = omega (arith, said-append fd true xs ys)
said-append fd false ((k, true) ∷ xs) ys = said-append fd false xs ys
said-append fd true ((k, false) ∷ xs) ys = said-append fd true xs ys
said-append fd false ((k, false) ∷ xs) ys = omega (arith, said-append fd false xs ys)

module _ {Q : Type 0} where
  keys-emplace :
      (fd : ℕ) (c : Channel Q) (cs : List (ℕ × Channel Q))
      → find fd cs ≡ none
      → keys (emplace fd c cs) ≡ keys cs ++ fd ∷ []
  unfolding find emplace
  keys-emplace fd c [] h = refl
  keys-emplace fd c ((k, d) ∷ cs) h = ground (arith, keys-emplace fd c cs)

  pub keys-adjust :
      (fd : ℕ) (c : Channel Q) (cs : List (ℕ × Channel Q)) → keys (adjust fd c cs) ≡ keys cs
  unfolding adjust
  keys-adjust fd c [] = refl
  keys-adjust fd c ((k, d) ∷ cs) = ground (arith, keys-adjust fd c cs)

  occurs-erase :
      (j fd : ℕ) (c : Channel Q) (cs : List (ℕ × Channel Q))
      → find fd cs ≡ some c
      → occurs j (keys cs) ≡ (if fd == j then 1 else 0) + occurs j (keys (erase fd cs))
  unfolding find erase
  occurs-erase j fd c [] h = absurd (cc)
  occurs-erase j fd c ((k, d) ∷ cs) h = ground (arith, occurs-erase j fd c cs)

-- The clients stand under their own descriptors, and where the owner has a callback, a descriptor was
-- reported as connected, or is still to be by a detached thread, once more than it was reported as
-- disconnected for each time it stands in the map, and was closed as often as it was reported as
-- disconnected.
pub record Reported {Q : Type 0} (s : Server Q) : Type 0 where
  pub keyed : IsKeyed s.clients
  pub balance :
      s.watched ≡ true
      → (fd : ℕ)
      → said fd true s.events + occurs fd s.announcing
        ≡ said fd false s.events + occurs fd (keys s.clients)
  pub ends : s.watched ≡ true → (fd : ℕ) → occurs fd s.closed ≡ said fd false s.events

module _ {Q : Type 0} where
  -- An operation that reports and closes nothing and keeps the keys.
  pub silent-Reported :
      (s t : Server Q)
      → IsKeyed t.clients
      → keys t.clients ≡ keys s.clients
      → (t.watched ≡ s.watched)
        × (t.events ≡ s.events)
        × (t.announcing ≡ s.announcing)
        × (t.closed ≡ s.closed)
      → Reported s
      → Reported t
  silent-Reported s t k e (w, ev, an, cl) r = record {
    keyed = k;
    balance = λ on fd. ground (arith, r.balance (sym w ∙ on) fd);
    ends = λ on fd. ground (arith, r.ends (sym w ∙ on) fd);
  }

  connected :
      (queue : Q) (fd : ℕ) (s : Server Q)
      → find fd s.clients ≡ none
      → s.watched ≡ true
      → on_connected_client queue fd s ≡ record s {
        clients = emplace fd (create fd queue) s.clients;
        announcing = s.announcing ++ fd ∷ [];
      }
  unfolding on_connected_client create
  connected queue fd s free on = ground (arith, find-emplace fd (create fd queue) s.clients free)

  watched-on_connected_client :
      (queue : Q) (fd : ℕ) (s : Server Q) → (on_connected_client queue fd s).watched ≡ s.watched
  unfolding on_connected_client
  watched-on_connected_client queue fd s = ground arith

  pub on_connected_client-Reported :
      (queue : Q) (fd : ℕ) (s : Server Q)
      → find fd s.clients ≡ none
      → Reported s
      → Reported (on_connected_client queue fd s)
  on_connected_client-Reported queue fd s free r = record {
    keyed = on_connected_client-IsKeyed queue fd s r.keyed;
    balance = λ on j.
        (let on' = sym (watched-on_connected_client queue fd s) ∙ on in
          rw (connected queue fd s free on', keys-emplace fd (create fd queue) s.clients free)
            (omega (
              arith,
              r.balance on' j,
              occurs-append j s.announcing (fd ∷ []),
              occurs-append j (keys s.clients) (fd ∷ []),
            )));
    ends = λ on j.
        (let on' = sym (watched-on_connected_client queue fd s) ∙ on in
          rw (connected queue fd s free on') (r.ends on' j));
  }

  disconnected :
      (fd : ℕ) (s : Server Q) (c : Channel Q)
      → IsKeyed s.clients
      → find fd s.clients ≡ some c
      → s.watched ≡ true
      → left (close_client fd s) ≡ record s {
        clients = erase fd s.clients;
        events = s.events ++ (fd, false) ∷ [];
        closed = s.closed ++ fd ∷ [];
      }
  unfolding close_client
  disconnected fd s c k e on = ground (arith, find-descriptor fd s.clients c k e)

  watched-close_client : (fd : ℕ) (s : Server Q) → (left (close_client fd s)).watched ≡ s.watched
  unfolding close_client
  watched-close_client fd s = ground arith

  missing : (fd : ℕ) (s : Server Q) → find fd s.clients ≡ none → close_client fd s ≡ threw s
  unfolding close_client
  missing fd s e = ground arith

  pub close_client-Reported :
      (fd : ℕ) (s : Server Q) → Reported s → Reported (left (close_client fd s))
  close_client-Reported fd s r = elim (Option-cases (find fd s.clients)) [
    | inl e ↦ rw (missing fd s e) r
    | inr (c, e) ↦ record {
      keyed = close_client-IsKeyed fd s r.keyed;
      balance = λ on j.
          (let on' = sym (watched-close_client fd s) ∙ on in
            rw (disconnected fd s c r.keyed e on') (
              omega (
                arith,
                r.balance on' j,
                said-append j true s.events ((fd, false) ∷ []),
                said-append j false s.events ((fd, false) ∷ []),
                occurs-erase j fd c s.clients e,
              )));
      ends = λ on j.
          (let on' = sym (watched-close_client fd s) ∙ on in
            rw (disconnected fd s c r.keyed e on') (
              omega (
                arith,
                r.ends on' j,
                said-append j false s.events ((fd, false) ∷ []),
                occurs-append j s.closed (fd ∷ []),
              )));
    }
  ]

  pub announced-Reported :
      (before : List ℕ) (fd : ℕ) (others : List ℕ) (s : Server Q)
      → s.announcing ≡ before ++ fd ∷ others
      → Reported s
      → Reported (announced before fd others s)
  unfolding announced
  announced-Reported before fd others s e r = record {
    keyed = r.keyed;
    balance = λ on j. omega (
      arith,
      r.balance on j,
      ap (occurs j) e,
      occurs-append j before (fd ∷ others),
      occurs-append j before others,
      said-append j true s.events ((fd, true) ∷ []),
      said-append j false s.events ((fd, true) ∷ []),
    );
    ends = λ on j. omega (arith, r.ends on j, said-append j false s.events ((fd, true) ∷ []));
  }
