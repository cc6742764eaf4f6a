-- ===== src/Channel/End.antt =====
-- The end of a channel: `awaitShutdown` and `~Channel` of src/Socket.cpp.
use socket_lib_linux.Prelude.{
  ℕ, ◌≡◌, refl, Bool, false, not, ◌||◌, List, Option, none, some, arith, ◌==◌, if◌then◌else◌,
}
use socket_lib_linux.Message.{Message}
use socket_lib_linux.BulkQueue.{BulkQueue}
use socket_lib_linux.Channel.{
  Channel, SendEnv, RecvResult, Listener, returned, replied, queue_shutdown, queue_write,
  handle_write_queue, read_data, send_bytes,
}
use socket_lib_linux.Channel.Safety.{inactive_frozen}

-- What the calls that wait find: whether `readThread` was started, whether it and `writeThread` come to
-- their end, and whether both locks become free at one time.
pub record EndEnv : Type 0 where
  pub read_joinable : Bool
  pub read_ends : Bool
  pub write_ends : Bool
  pub locks_free : Bool

module _ {Q : Type 0} where
  -- `awaitShutdown`; `none` is a call that waits for ever.
  unfoldable pub await_shutdown : EndEnv → Channel Q → Option (Channel Q)
  unfolding queue_shutdown
  await_shutdown env c =
      if not env.read_joinable || env.read_ends
      then (if c.write_thread == 0 || env.write_ends
          then if env.locks_free then some (queue_shutdown c) else none
          else none)
      else none

  -- `~Channel`
  unfoldable pub destroy : EndEnv → Channel Q → Option (Channel Q)
  unfolding queue_shutdown await_shutdown
  destroy env c = await_shutdown env (queue_shutdown c)

module _ {Q : Type 0} (queue : BulkQueue Q Message) where
  -- The destructor of a channel whose threads were never started waits for the two locks alone, and
  -- after it no operation reads, queues or sends anything.
  destroy_frozen :
      (env : EndEnv) (this_thread : ℕ) (locked still : Bool) (send : SendEnv) (sends : List SendEnv)
      (m : Message) (bytes : List ℕ) (r : RecvResult) (ls : List (Listener Q)) (c : Channel Q)
      → env.read_joinable ≡ false
      → c.write_thread ≡ 0
      → let d = queue_shutdown c in
        (destroy env c ≡ (if env.locks_free then some d else none))
        × (queue_write queue this_thread send m d ≡ (d, returned))
        × (handle_write_queue queue locked sends d ≡ (d, replied false))
        × (read_data locked still r ls d ≡ (d, replied false))
        × (send_bytes send bytes d ≡ (d, returned))
  unfolding destroy await_shutdown queue_shutdown
  destroy_frozen env this_thread locked still send sends m bytes r ls c none_reads none_writes =
      let (queues, handles, reads, sends_none) =
        inactive_frozen queue this_thread locked still send sends m bytes r ls (queue_shutdown c)
          refl in
      (ground arith, queues, handles, reads, sends_none)
