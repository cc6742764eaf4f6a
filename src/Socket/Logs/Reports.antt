-- ===== src/Socket/Logs/Reports.antt =====
-- The tasks that the constructor of `Socket` logs, as lists (src/Socket.cpp, shared/SocketUtil.hpp).
use Prim.Native.String.{String}
use socket_lib_linux.Prelude.{ℕ, Bool, List, [], ◌∷◌, ◌++◌, none, some, ◌==◌, if◌then◌else◌}
use socket_lib_linux.Logger.{LogTask, debug_level, error}
use socket_lib_linux.Socket.{Address}
use socket_lib_linux.Socket.Logs.{socket_log_tag}

abbrev pub creating : Bool → List LogTask
creating debug =
    if debug
    then record { level = debug_level; tag = socket_log_tag; log = "creating socket" } ∷ []
    else []

abbrev pub task_of : String → String → LogTask
task_of tag text = record { level = error; tag = tag; log = text }

module _ (format : String → List String → String) (strerror gai_strerror : ℕ → String)
    (errno_of : Address → ℕ) where
  -- An address without a socket is reported, under a tag that is meant as the message, and the loop goes
  -- on; a failure of `fcntl` is reported and ends it.
  abbrev pub of_turn : Address → List LogTask → List LogTask
  of_turn p later = elim p.socket_fd [
    | none ↦
        task_of "creating socket" (
          format "Failed to run method: At: {} Cause: {}"
            (socket_log_tag ∷ strerror (errno_of p) ∷ []))
        ∷ later
    | some fd ↦
        if p.set_flags_status == 0
        then []
        else task_of socket_log_tag (format "Failed to run method: {}" (strerror (errno_of p) ∷ []))
          ∷ []
  ]

  -- With one debug log for each address that is tried
  abbrev pub reports : Bool → List Address → List LogTask
  reports debug [] = []
  reports debug (p ∷ ps) = creating debug ++ of_turn p (reports debug ps)

  -- The logs of the whole constructor
  abbrev pub all_reports : Bool → ℕ → List Address → List LogTask
  all_reports debug status [] =
      if status == 0
      then task_of socket_log_tag (format "Failed to run method because of null" []) ∷ []
      else task_of "ResolveEndpoint" (format "getaddrinfo error: {}" (gai_strerror status ∷ []))
        ∷ []
  all_reports debug status (p ∷ ps) =
      if status == 0
      then reports debug (p ∷ ps)
      else task_of "ResolveEndpoint" (format "getaddrinfo error: {}" (gai_strerror status ∷ []))
        ∷ []
