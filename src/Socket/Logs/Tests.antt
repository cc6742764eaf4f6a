-- ===== src/Socket/Logs/Tests.antt =====
-- The logs of the constructor of `Socket` where the first address gets no socket (src/Socket.cpp).
use Prim.Native.String.{String}
use socket_lib_linux.Prelude.{ℕ, ◌≡◌, refl, true, false, List, [], ◌∷◌, none, some}
use socket_lib_linux.BulkQueue.{list_queue, list_queue-IsFifo}
use socket_lib_linux.Logger.{LogTask, Logger, debug_level}
use socket_lib_linux.Socket.{Address, construct, open_first, resolve_endpoint}
use socket_lib_linux.Socket
use socket_lib_linux.Socket.Logs.{construct_logged}
use socket_lib_linux.Socket.Logs.Reports.{task_of}
use socket_lib_linux.Socket.Logs.Tasks.{Ends, construct_logged-Ends}

-- The texts without their arguments
abbrev format : String → List String → String
format text args = text

abbrev strerror : ℕ → String
strerror n = "error"

abbrev addresses : List Address
addresses =
    record { address = 1; socket_fd = none; set_flags_status = 0 }
    ∷ record { address = 2; socket_fd = some 5; set_flags_status = 1 }
    ∷ []

abbrev logger : Logger (List LogTask)
logger = record { debug_enabled = true; log_queue = [] }

abbrev creating : LogTask
creating = record { level = debug_level; tag = "socket_core"; log = "creating socket" }

construct_logged-Ends_example :
    Ends
      (list_queue LogTask)
      (λ q. q)
      (list_queue-IsFifo LogTask)
      format
      strerror
      strerror
      (λ a. 97)
      logger
      (construct_logged
        (list_queue LogTask)
        format
        strerror
        strerror
        (λ a. 97)
        (false ∷ true ∷ [])
        0
        addresses
        logger)
      (construct 0 addresses)
      (creating
        ∷ task_of "creating socket" "Failed to run method: At: {} Cause: {}"
        ∷ creating
        ∷ task_of "socket_core" "Failed to run method: {}"
        ∷ [])
construct_logged-Ends_example =
    construct_logged-Ends (list_queue LogTask) (λ q. q) (list_queue-IsFifo LogTask) format strerror
      strerror (λ a. 97) 1 [] 0 addresses logger

throws_test : construct 0 addresses ≡ Socket.threw
unfolding construct open_first resolve_endpoint
throws_test = refl
