-- ===== src/Logger.antt =====
-- shared/SocketLogger.hpp and src/SocketLogger.cpp without the paper library, the thread of
-- src/SocketHandler.cpp that delivers the logs, and the checks of shared/SocketUtil.hpp that log.
pub mod Gate
pub mod Delivery
pub mod Paper
mod Tests
use Prim.Native.String.{String}
use socket_lib_linux.Prelude.{
  ℕ, zero, suc, Bool, true, false, not, ◌&&◌, List, [], ◌∷◌, ◌++◌, Option, none, some, ◌>>=◌, ◌==◌,
  if◌then◌else◌,
}
use socket_lib_linux.BulkQueue.{BulkQueue}

pub data LoggerLevel : Type 0 where
  debug_level info warn error : LoggerLevel

-- The values of the enumeration.
abbrev pub level_value : LoggerLevel → ℕ
level_value debug_level = 3
level_value info = 4
level_value warn = 5
level_value error = 6

-- `loggerLevelToStr`, on the number that a level is stored as
unfoldable pub logger_level_to_str : ℕ → String
logger_level_to_str n =
    if n == 3
    then "DEBUG"
    else if n == 4
    then "INFO"
    else if n == 5
    then "WARN"
    else if n == 6
    then "ERROR"
    else "UNKNOWN LEVEL"

pub record LogTask : Type 0 where
  pub level : LoggerLevel
  pub tag : String
  pub log : String

-- `DebugEnabled` and `logQueue`
pub record Logger (Q : Type 0) : Type 0 where
  pub debug_enabled : Bool
  pub log_queue : Q

abbrev pub is_debug : LoggerLevel → Bool
is_debug debug_level = true
is_debug _ = false

-- `getProperErrorString<isStatusError>(err)`; `strerror` is the system's, `errno` the value there.
abbrev pub get_proper_error_string : (ℕ → String) → Bool → ℕ → ℕ → String
get_proper_error_string strerror is_status_error errno err =
    if is_status_error then strerror err else strerror errno

module _ {Q : Type 0} (queue : BulkQueue Q LogTask) where
  -- `queueLogInternal`: `attempts` says for each call of `enqueue` whether it succeeds. `none`: the
  -- loop still runs.
  unfoldable pub queue_log_internal : List Bool → LogTask → Logger Q → Option (Logger Q)
  queue_log_internal [] t l = none
  queue_log_internal (true ∷ attempts) t l =
      some (record l { log_queue = queue.enqueue t l.log_queue })
  queue_log_internal (false ∷ attempts) t l = queue_log_internal attempts t l

  -- `writeLog<lvl>`, with and without a producer token
  unfoldable pub write_log :
      List Bool → LoggerLevel → String → String → Logger Q → Option (Logger Q)
  unfolding queue_log_internal
  write_log attempts lvl tag log l =
      if is_debug lvl && not l.debug_enabled
      then some l
      else queue_log_internal attempts (record { level = lvl; tag = tag; log = log }) l

  -- `fmtLog<lvl>`: `format` is `fmt::format`, of another library.
  unfoldable pub fmt_log :
      (String → List String → String)
      → List Bool
      → LoggerLevel
      → String
      → String
      → List String
      → Logger Q
      → Option (Logger Q)
  unfolding write_log
  fmt_log format attempts lvl tag str args l = write_log attempts lvl tag (format str args) l

  -- `fmtThrowError`: the logger, and the text of the exception.
  unfoldable pub fmt_throw_error :
      (String → List String → String)
      → List Bool
      → String
      → String
      → List String
      → Logger Q
      → Option (Logger Q × String)
  unfolding fmt_log
  fmt_throw_error format attempts tag str args l = do
    l' ← fmt_log format attempts error tag str args l
    some (l', format str args)

  -- `logIfError(logger, int status, tag, message)`, at the level ERROR
  unfoldable pub log_if_error :
      (String → List String → String)
      → (ℕ → String)
      → List Bool
      → Bool
      → ℕ
      → ℕ
      → String
      → String
      → Logger Q
      → Option (Logger Q)
  unfolding fmt_log
  log_if_error format strerror attempts is_status_error errno status tag message l =
      if status == 0
      then some l
      else fmt_log format attempts error tag "Failed to run method: At: {} Cause: {}"
          (message ∷ get_proper_error_string strerror is_status_error errno status ∷ []) l

  -- `throwIfError(logger, int status, tag, eq)`: the text of the exception, if there is one.
  unfoldable pub throw_if_error :
      (String → List String → String)
      → (ℕ → String)
      → List Bool
      → Bool
      → ℕ
      → ℕ
      → String
      → ℕ
      → Logger Q
      → Option (Logger Q × Option String)
  unfolding fmt_throw_error
  throw_if_error format strerror attempts is_status_error errno status tag eq l =
      if status == eq then some (l, none) else do
        (l', text) ←
            fmt_throw_error format attempts tag "Failed to run method: {}"
              (get_proper_error_string strerror is_status_error errno status ∷ []) l
        some (l', some text)

  -- `logIfError(logger, void* status, message, tag)`, at the level ERROR, and
  -- `throwIfError(logger, void* status, tag)`, of a pointer that may be null
  unfoldable pub log_if_null :
      (String → List String → String)
      → List Bool
      → Bool
      → String
      → String
      → Logger Q
      → Option (Logger Q)
  unfolding fmt_log
  log_if_null format attempts is_null message tag l =
      if is_null
      then fmt_log format attempts error tag "Failed to run method because of null. At: {}"
          (message ∷ []) l
      else some l

  unfoldable pub throw_if_null :
      (String → List String → String)
      → List Bool
      → Bool
      → String
      → Logger Q
      → Option (Logger Q × Option String)
  unfolding fmt_throw_error
  throw_if_null format attempts is_null tag l = if not is_null then some (l, none) else do
    (l', text) ← fmt_throw_error format attempts tag "Failed to run method because of null" [] l
    some (l', some text)

  -- `handleLogThread`: what `loggerCallback` is invoked on, in order, and the queue that is left.
  -- `actives` says what `active` reads at the head of each pass.
  unfoldable pub handle_log_thread : List Bool → Q → List LogTask × Q
  handle_log_thread [] q = ([], q)
  handle_log_thread (active ∷ actives) q =
      let (tasks, q') = queue.dequeue_bulk 20 q in
      let (later, rest) = handle_log_thread actives q' in
      if active then (tasks ++ later, rest) else ([], q)
