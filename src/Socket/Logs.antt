-- ===== src/Socket/Logs.antt =====
-- The constructor of `Socket` with what it logs and throws (src/Socket.cpp, shared/SocketUtil.hpp).
pub mod Reports
pub mod Tasks
mod Tests
use Prim.Native.String.{String}
use socket_lib_linux.Prelude.{
  ℕ, ◌≡◌, refl, ◌∙◌, sym, ap, subst, inl, inr, Bool, true, false, List, [], ◌∷◌, ◌++◌, append_assoc,
  append-nil, Option, none, some, ◌>>=◌, arith, Bool-cases, Option-cases, replicate, ◌==◌,
  if◌then◌else◌,
}
use socket_lib_linux.BulkQueue.{BulkQueue, IsFifo}
use socket_lib_linux.Logger.{
  LogTask, Logger, debug_level, error, write_log, fmt_log, log_if_error, throw_if_error,
  throw_if_null,
}
use socket_lib_linux.Logger.Gate.{
  Queues, write_log-contents, fmt_log-Queues, log_if_error-Queues, throw_if_error-contents,
  throw_if_null-contents,
}
use socket_lib_linux.Socket.{Address, Socket, Constructed, construct, open_first}
use socket_lib_linux.Socket

-- The constructor returns, throws an exception with a text, or its behaviour is undefined.
pub data Built : Type 0 where
  built : Socket → Built
  thrown : String → Built
  undefined : Built

abbrev pub without_text : Built → Constructed
without_text (built s) = Socket.constructed s
without_text (thrown text) = Socket.threw
without_text undefined = Socket.undefined

-- The `int` -1
abbrev pub minus_one : ℕ
minus_one = 4294967295

abbrev pub socket_log_tag : String
socket_log_tag = "socket_core"

abbrev pub is_null : List Address → Bool
is_null [] = true
is_null (p ∷ ps) = false

module _ {Q : Type 0} where
  -- Behind a `throwIfError`
  abbrev pub go_on :
      (Logger Q → Option (Logger Q × Built)) → Logger Q × Option String → Option (Logger Q × Built)
  go_on k (l, none) = k l
  go_on k (l, some text) = some (l, thrown text)

  abbrev pub returns : Socket → Logger Q → Option (Logger Q × Built)
  returns s l = some (l, built s)

-- `format` is `fmt::format`; `strerror` and `gai_strerror` are the system's, and `errno_of` is `errno`
-- behind a call that fails for an address. `attempts` are the tries to queue a log.
module _ {Q : Type 0} (queue : BulkQueue Q LogTask) (format : String → List String → String)
    (strerror gai_strerror : ℕ → String) (errno_of : Address → ℕ) where
  -- A pass of the loop behind its first log, with the passes that follow a `continue`
  unfoldable pub open_at :
      List Bool
      → Address
      → (Logger Q → Option (Logger Q × Built))
      → Logger Q
      → Option (Logger Q × Built)
  unfolding log_if_error throw_if_error
  open_at attempts p rest l = elim p.socket_fd [
    | none ↦
        log_if_error queue format strerror attempts false (errno_of p) minus_one "creating socket"
          socket_log_tag l
        >>= rest
    | some fd ↦
        throw_if_error queue format strerror attempts false (errno_of p) p.set_flags_status
          socket_log_tag 0 l
        >>= go_on (returns (record { serv_info = p; descriptor = some fd }))
  ]

  -- The loop, and the check of `servInfo` behind it
  unfoldable pub open_logged :
      List Bool → Address → List Address → Logger Q → Option (Logger Q × Built)
  unfolding open_at write_log throw_if_null
  open_logged attempts first [] l =
      throw_if_null queue format attempts false socket_log_tag l
      >>= go_on (returns (record { serv_info = first; descriptor = none }))
  open_logged attempts first (p ∷ ps) l =
      write_log queue attempts debug_level socket_log_tag "creating socket" l
      >>= open_at attempts p (open_logged attempts first ps)

  -- The loop is not reached where `servInfo` is null.
  abbrev from_first : List Bool → List Address → Logger Q → Option (Logger Q × Built)
  from_first attempts [] l = some (l, undefined)
  from_first attempts (p ∷ ps) l = open_logged attempts p (p ∷ ps) l

  -- `Socket::Socket` with `resolveEndpoint`, which logs before `freeaddrinfo` gets a pointer that was
  -- never set
  unfoldable pub construct_logged :
      List Bool → ℕ → List Address → Logger Q → Option (Logger Q × Built)
  unfolding open_logged fmt_log throw_if_null
  construct_logged attempts status found l =
      if status == 0
      then throw_if_null queue format attempts (is_null found) socket_log_tag l
        >>= go_on (from_first attempts found)
      else fmt_log queue format attempts error "ResolveEndpoint" "getaddrinfo error: {}"
          (gai_strerror status ∷ []) l
        >>= λ l'. some (l', undefined)
