-- ===== src/ClientSocket/Lifecycle.antt =====
-- Connecting and closing a client (src/ClientSocket.cpp).
use socket_lib_linux.Prelude.{
  ℕ, zero, suc, ◌+◌, ◌≡◌, ◌≢◌, refl, true, false, List, [], ◌∷◌, ◌++◌, append-nil, none, some,
  arith, replicate, if◌then◌else◌,
}
use socket_lib_linux.Channel.{Channel, create, ewouldblock}
use socket_lib_linux.ClientSocket.{
  Client, Outcome, returned, threw, unfinished, undefined, ConnectResult, connected, connect_failed,
  fds, connect_loop, connect, close,
}

abbrev pub state : {Q : Type 0} → Outcome Q → Client Q
state (returned s) = s
state (threw s) = s
state (unfinished s) = s
state (undefined s) = s

module _ {Q : Type 0} where
  connect_loop-retries :
      (queue : Q) (n : ℕ) (rs : List ConnectResult) (s : Client Q)
      → connect_loop queue (replicate n (connect_failed ewouldblock) ++ rs) s
        ≡ connect_loop queue rs s
  unfolding connect_loop
  connect_loop-retries queue zero rs s = refl
  connect_loop-retries queue (suc n) rs s = connect_loop-retries queue n rs s

  -- What `connect` makes of an answer that is not EWOULDBLOCK.
  abbrev pub settled : Q → ℕ → ConnectResult → Client Q → Outcome Q
  settled queue fd connected s = returned (record s {
    active = true;
    channel = some (create fd queue);
    announcing = s.announcing + (if s.watched then 1 else 0);
  })
  settled queue fd (connect_failed e) s = threw (record s { closed = s.closed ++ fd ∷ [] })

  connect_loop-settles :
      (queue : Q) (fd : ℕ) (r : ConnectResult) (rs : List ConnectResult) (s : Client Q)
      → s.descriptor ≡ some fd
      → r ≢ connect_failed ewouldblock
      → connect_loop queue (r ∷ rs) s ≡ settled queue fd r s
  unfolding connect_loop create
  connect_loop-settles queue fd connected rs s d ne = ground (arith, append-nil s.events)
  connect_loop-settles queue fd (connect_failed e) rs s d ne = ground arith

  -- `connect` with no option to set tries again as long as the answer is EWOULDBLOCK. After any number
  -- of those, a success makes the socket active with a new active channel on its descriptor and,
  -- if there is a connect callback, starts one thread that will invoke it; any other error, also one that says that the connection is in progress, closes the
  -- descriptor and throws.
  pub connect_lem :
      (queue : Q) (status n fd : ℕ) (r : ConnectResult) (rs : List ConnectResult) (s : Client Q)
      → s.no_delay ≡ false
      → s.descriptor ≡ some fd
      → r ≢ connect_failed ewouldblock
      → connect queue status (replicate n (connect_failed ewouldblock) ++ r ∷ rs) s
        ≡ settled queue fd r s
  unfolding connect
  connect_lem queue status n fd r rs s nd d ne =
      ground
        (arith, connect_loop-retries queue n (r ∷ rs) s, connect_loop-settles queue fd r rs s d ne)

  -- `close` of a client that has a channel gives the descriptor back once: after it there is none,
  -- and a second `close` closes no descriptor. It does not change `active`, nor the channel: after
  -- `close` a connected socket and its channel still say that they are active.
  pub close_lem :
      (s : Client Q) (c : Channel Q)
      → s.channel ≡ some c
      → let t = state (close s) in
        (close s ≡ returned t)
        × (t.descriptor ≡ none)
        × ((state (close t)).closed ≡ t.closed)
        × (t.active ≡ s.active)
        × (t.channel ≡ some c)
  unfolding close
  close_lem s c e = (
    ground arith,
    ground arith,
    ground (arith, append-nil (s.closed ++ fds s.descriptor)),
    ground arith,
    ground arith,
  )

  -- A client that has no channel yet and whose `connect`, with no option to set, fails at once with
  -- an error but EWOULDBLOCK closes its descriptor again when it is destroyed, and the destructor
  -- goes on with a channel that is not there.
  pub close_after_failure :
      (queue : Q) (status e fd : ℕ) (rs : List ConnectResult) (s : Client Q)
      → s.no_delay ≡ false
      → s.descriptor ≡ some fd
      → s.channel ≡ none
      → e ≢ ewouldblock
      → let t = state (connect queue status (connect_failed e ∷ rs) s) in
        ((state (close t)).closed ≡ (s.closed ++ fd ∷ []) ++ fd ∷ [])
        × (close t ≡ undefined (state (close t)))
  unfolding connect close
  close_after_failure queue status e fd rs s nd d none_yet ne = (ground arith, ground arith)
