-- ===== src/ServerSocket/Clients.antt =====
-- The map of clients: every entry stands under its own descriptor (src/ServerSocket.cpp).
use socket_lib_linux.Prelude.{
  ℕ, ◌≡◌, refl, ap, ◌∙◌, sym, subst, inl, inr, Bool, true, false, List, [], ◌∷◌, ◌++◌, append_assoc,
  append-nil, none, some, arith, map, Bool-cases, ==-refl, if◌then◌else◌,
}
use mathlib.Core.List.{map-append}
use socket_lib_linux.Channel.{Channel, is_active}
use socket_lib_linux.UnorderedMap.{
  find, erase, find-append_of_none, find-append_none, erase-append_of_none,
}
use socket_lib_linux.ServerSocket.{
  Server, returned, close_client, close_inactive, thread_loop, close_all, close_listener, destroy,
  notify_stop,
}

-- The reports of closed descriptors, if there is a callback.
abbrev pub farewells : Bool → List ℕ → List (ℕ × Bool)
farewells watched fds = if watched then map (λ fd. (fd, false)) fds else []

abbrev pub keys : {Q : Type 0} → List (ℕ × Channel Q) → List ℕ
keys [] = []
keys ((k, c) ∷ cs) = k ∷ keys cs

-- The entries whose channel is active, and the descriptors of the others.
abbrev pub live : {Q : Type 0} → Bool → List (ℕ × Channel Q) → List (ℕ × Channel Q)
live active [] = []
live active ((k, c) ∷ cs) = if is_active active c then (k, c) ∷ live active cs else live active cs

abbrev pub dead : {Q : Type 0} → Bool → List (ℕ × Channel Q) → List ℕ
dead active [] = []
dead active ((k, c) ∷ cs) = if is_active active c then dead active cs else k ∷ dead active cs

farewells-append :
    (watched : Bool) (xs ys : List ℕ)
    → farewells watched (xs ++ ys) ≡ farewells watched xs ++ farewells watched ys
farewells-append true xs ys = map-append (λ fd. (fd, false)) xs ys
farewells-append false xs ys = refl

-- What is left of a server whose clients under `gone` are closed.
abbrev pub without : {Q : Type 0} → Server Q → List (ℕ × Channel Q) → List ℕ → Server Q
without s clients gone = record s {
  clients = clients;
  events = s.events ++ farewells s.watched gone;
  closed = s.closed ++ gone;
}

module _ {Q : Type 0} where
  -- Each key is the descriptor of its channel and stands once.
  abbrev pub IsKeyed : List (ℕ × Channel Q) → Type 0
  IsKeyed [] = Unit {0}
  IsKeyed ((k, c) ∷ cs) = (c.client_descriptor ≡ k) × (find k cs ≡ none) × IsKeyed cs

  -- In the middle of such a map: the key is not among those before it.
  pub find-before :
      (xs : List (ℕ × Channel Q)) (k : ℕ) (c : Channel Q) (ys : List (ℕ × Channel Q))
      → IsKeyed (xs ++ (k, c) ∷ ys)
      → find k xs ≡ none
  unfolding find
  find-before [] k c ys h = refl
  find-before ((j, d) ∷ xs) k c ys h =
      ground (arith, find-before xs k c ys h.2, find-append_none j xs ((k, c) ∷ ys) h.1)

  IsKeyed-remove :
      (xs : List (ℕ × Channel Q)) (k : ℕ) (c : Channel Q) (ys : List (ℕ × Channel Q))
      → IsKeyed (xs ++ (k, c) ∷ ys)
      → IsKeyed (xs ++ ys)
  unfolding find
  IsKeyed-remove [] k c ys h = h.2
  IsKeyed-remove ((j, d) ∷ xs) k c ys h = (
    h.0,
    ground (arith, find-append_none j xs ((k, c) ∷ ys) h.1, find-append_of_none j xs ys),
    IsKeyed-remove xs k c ys h.2,
  )

  pub IsKeyed-mid :
      (xs : List (ℕ × Channel Q)) (k : ℕ) (c : Channel Q) (ys : List (ℕ × Channel Q))
      → IsKeyed (xs ++ (k, c) ∷ ys)
      → c.client_descriptor ≡ k
  IsKeyed-mid [] k c ys h = h.0
  IsKeyed-mid ((j, d) ∷ xs) k c ys h = IsKeyed-mid xs k c ys h.2

  -- `closeClient` of an entry of the map takes out that entry, reports it and closes its descriptor.
  close_client-mid :
      (s : Server Q) (xs : List (ℕ × Channel Q)) (k : ℕ) (c : Channel Q) (ys : List (ℕ × Channel Q))
      → s.clients ≡ xs ++ (k, c) ∷ ys
      → IsKeyed (xs ++ (k, c) ∷ ys)
      → c.client_descriptor ≡ k
      → close_client k s ≡ returned (without s (xs ++ ys) (k ∷ []))
  unfolding close_client
  close_client-mid s xs k c ys e h d =
      let before : find k xs ≡ none = find-before xs k c ys h in
      let found : find k s.clients ≡ some c =
        ap (find k) e ∙ find-append_of_none k xs ((k, c) ∷ ys) before ∙ ground arith in
      let erased : erase k s.clients ≡ xs ++ ys =
        ap (erase k) e ∙ erase-append_of_none k xs ((k, c) ∷ ys) before ∙ rw (==-refl k) refl in
      rw (found, close_client) (ground (arith, append-nil s.events))

module _ {Q : Type 0} where
  without-without :
      (s : Server Q) (cs ds : List (ℕ × Channel Q)) (xs ys : List ℕ)
      → without (without s cs xs) ds ys ≡ without s ds (xs ++ ys)
  without-without s cs ds xs ys =
      rw (farewells-append s.watched xs ys, append_assoc s.events, append_assoc s.closed) refl

  without_none : (s : Server Q) (cs : List (ℕ × Channel Q)) → s.clients ≡ cs → without s cs [] ≡ s
  without_none s cs e = ground (arith, append-nil s.events, append-nil s.closed)

  close_inactive-lem :
      (kept cs : List (ℕ × Channel Q)) (s : Server Q)
      → s.clients ≡ kept ++ cs
      → IsKeyed (kept ++ cs)
      → close_inactive cs s ≡ returned (without s (kept ++ live s.active cs) (dead s.active cs))
  unfolding close_inactive
  close_inactive-lem kept [] s e h = ap returned (sym (without_none s (kept ++ []) e))
  close_inactive-lem kept ((k, c) ∷ cs) s e h = elim (Bool-cases (is_active s.active c)) [
    | inl on ↦
        let assoc : (kept ++ (k, c) ∷ []) ++ cs ≡ kept ++ (k, c) ∷ cs =
          append_assoc kept ((k, c) ∷ []) cs in
        rw on (
          close_inactive-lem (kept ++ (k, c) ∷ []) cs s (e ∙ sym assoc)
            (subst IsKeyed (sym assoc) h)
          ∙ ap (λ ds. returned (without s ds (dead s.active cs)))
              (append_assoc kept ((k, c) ∷ []) (live s.active cs)))
    | inr off ↦
        let own : c.client_descriptor ≡ k = IsKeyed-mid kept k c cs h in
        rw (off, own, close_client-mid s kept k c cs e h own)
          (close_inactive-lem kept cs (without s (kept ++ cs) (k ∷ [])) refl
              (IsKeyed-remove kept k c cs h)
            ∙ ap returned (
                without-without s (kept ++ cs) (kept ++ live s.active cs) (k ∷ [])
                  (dead s.active cs)))
  ]

  -- In a map whose keys are the descriptors of the channels, `threadLoop` does not throw: it closes
  -- exactly the clients that are not active, each once and in the order of the map, and keeps the
  -- others as they are.
  pub thread_loop-lem :
      (s : Server Q)
      → IsKeyed s.clients
      → thread_loop s ≡ returned (without s (live s.active s.clients) (dead s.active s.clients))
  unfolding thread_loop
  thread_loop-lem s h = close_inactive-lem [] s.clients s refl h

  close_all-lem :
      (cs : List (ℕ × Channel Q)) (s : Server Q)
      → s.clients ≡ cs
      → IsKeyed cs
      → close_all cs s ≡ returned (without s [] (keys cs))
  unfolding close_all
  close_all-lem [] s e h = ap returned (sym (without_none s [] e))
  close_all-lem ((k, c) ∷ cs) s e h = rw (close_client-mid s [] k c cs e h h.0) (
      close_all-lem cs (without s cs (k ∷ [])) refl h.2
      ∙ ap returned (without-without s cs [] (k ∷ []) (keys cs)))

  -- The destructor of a server whose map has the descriptors of the channels as keys stops it and
  -- closes every client, each once, and then the descriptor on which it listens, if there is one.
  pub destroy-lem :
      (s : Server Q)
      → IsKeyed s.clients
      → destroy s
        ≡ returned (close_listener (without (record s { active = false }) [] (keys s.clients)))
  unfolding destroy notify_stop
  destroy-lem s h = rw (close_all-lem s.clients (record s { active = false }) refl h) refl
