-- ===== src/ServerSocket/Peer/Tests.antt =====
-- The address of a client where the second call of the system fails (src/ServerSocket.cpp).
use Prim.Native.String.{String}
use socket_lib_linux.Prelude.{ℕ, ◌≡◌, true, false, List, [], ◌∷◌, some}
use socket_lib_linux.BulkQueue.{list_queue, list_queue-IsFifo}
use socket_lib_linux.Logger.{LogTask, Logger, error}
use socket_lib_linux.ServerSocket.Peer.{thrown, PeerEnv, get_peer_address, get_peer_address-Does}

-- The texts without their arguments
abbrev format : String → List String → String
format text args = text

abbrev strerror : ℕ → String
strerror n = "error"

abbrev no_name : PeerEnv
no_name = record {
  peer_status = 0;
  peer_errno = 0;
  peer = 4;
  info_status = 2;
  info_errno = 11;
  info = λ a. record { host = "10.0.0.1"; port = "80" };
}

abbrev logger : Logger (List LogTask)
logger = record { debug_enabled = false; log_queue = [] }

get_peer_address-Does_example :
    (l : Logger (List LogTask)) × (get_peer_address
        (list_queue LogTask)
        format
        strerror
        (false ∷ true ∷ [])
        no_name
        logger
      ≡ some (l, thrown "Failed to run method: {}"))
    × (l.log_queue
        ≡ record { level = error; tag = "getHostByAddress"; log = "Failed to run method: {}" } ∷ [])
get_peer_address-Does_example =
    get_peer_address-Does (list_queue LogTask) (λ q. q) (list_queue-IsFifo LogTask) format strerror
      1 [] no_name logger
