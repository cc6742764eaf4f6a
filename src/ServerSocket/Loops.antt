-- ===== src/ServerSocket/Loops.antt =====
-- One pass of the write and of the read thread over the clients: `writeLoop` and `readLoop` of
-- src/ServerSocket.cpp.
pub mod Sweep
pub mod Delivery
pub mod Keep
use socket_lib_linux.Prelude.{ℕ, Bool, true, false, ◌||◌, List, [], ◌∷◌, if◌then◌else◌}
use socket_lib_linux.Message.{Message}
use socket_lib_linux.BulkQueue.{BulkQueue}
use socket_lib_linux.Channel.{
  Channel, SendEnv, RecvResult, Listener, Reply, replied, is_active, handle_write_queue, read_data,
}
use socket_lib_linux.ServerSocket.{Server}

-- `found |= b`, on the answers of the channels that come later
abbrev found : Bool → Reply → Reply
found b (replied b') = replied (b || b')
found b r = r

module _ {Q : Type 0} where
  -- What one call leaves of the entry and, if it returned, of those behind it.
  abbrev pub visited :
      ℕ
      → Channel Q × Reply
      → List (ℕ × Channel Q)
      → List (ℕ × Channel Q) × Reply
      → List (ℕ × Channel Q) × Reply
  visited k (c, replied b) cs (ds, r) = ((k, c) ∷ ds, found b r)
  visited k (c, r) cs (ds, _) = ((k, c) ∷ cs, r)

  -- The `for` of `writeLoop` and of `readLoop`: `call` on each channel that is active when its turn
  -- comes, and whether one of them found work.
  unfoldable pub sweep :
      (ℕ → Bool)
      → (ℕ → Channel Q → Channel Q × Reply)
      → List (ℕ × Channel Q)
      → List (ℕ × Channel Q) × Reply
  unfolding is_active
  sweep socket_active call [] = ([], replied false)
  sweep socket_active call ((k, c) ∷ cs) =
      let (ds, r) = sweep socket_active call cs in
      if is_active (socket_active k) c then visited k (call k c) cs (ds, r) else ((k, c) ∷ ds, r)

  abbrev swept : Server Q → List (ℕ × Channel Q) × Reply → Server Q × Reply
  swept s (cs, r) = (record s { clients = cs }, r)

-- What the other threads and the system do while a pass is at one channel: what `isActive` of the
-- socket reads, whether the lock is free, and what each call of `send` or `recv` does.
pub record WriteTurn : Type 0 where
  pub socket_active : Bool
  pub locked : Bool
  pub envs : List SendEnv

pub record ReadTurn : Type 0 where
  pub socket_active : Bool
  pub locked : Bool
  pub still : Bool
  pub answer : RecvResult

module _ {Q : Type 0} (queue : BulkQueue Q Message) where
  -- One pass of `writeLoop`, with the turn of each descriptor. The reply says whether a channel wrote.
  unfoldable pub write_pass : (ℕ → WriteTurn) → Server Q → Server Q × Reply
  unfolding sweep
  write_pass turn s =
      if s.active
      then swept s (
          sweep (λ k. (turn k).socket_active)
            (λ k c. handle_write_queue queue (turn k).locked (turn k).envs c) s.clients)
      else (s, replied false)

module _ {Q : Type 0} where
  -- One pass of `readLoop`. The listeners are those of the socket.
  unfoldable pub read_pass : (ℕ → ReadTurn) → List (Listener Q) → Server Q → Server Q × Reply
  unfolding sweep
  read_pass turn ls s =
      if s.active
      then swept s (
          sweep (λ k. (turn k).socket_active)
            (λ k c. read_data (turn k).locked (turn k).still (turn k).answer ls c) s.clients)
      else (s, replied false)
