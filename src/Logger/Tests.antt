-- ===== src/Logger/Tests.antt =====
-- Logs over a queue that is a list.
use Prim.Native.String.{String}
use socket_lib_linux.Prelude.{◌≡◌, ◌≢◌, refl, true, false, List, [], ◌∷◌, ◌++◌, some, arith, take}
use socket_lib_linux.BulkQueue.{list_queue, list_queue-IsFifo}
use socket_lib_linux.Logger.{
  LoggerLevel, info, error, LogTask, Logger, logger_level_to_str, level_value, write_log,
  throw_if_error, handle_log_thread,
}
use socket_lib_linux.Logger.Paper.{register_file_context_id, vfmt_log, queue_all, queue_all-calls}
use socket_lib_linux.Logger.Gate.{write_log-contents, throw_if_error-contents}
use socket_lib_linux.Logger.Delivery.{handle_log_thread-contents, handle_log_thread-delivers}

abbrev task : LoggerLevel → String → LogTask
task lvl log = record { level = lvl; tag = "server"; log = log }

abbrev quiet : Logger (List LogTask)
quiet = record { debug_enabled = false; log_queue = task info "up" ∷ [] }

-- A format that only takes the pattern.
abbrev pattern_only : String → List String → String
pattern_only str args = str

level_test : logger_level_to_str (level_value error) ≡ "ERROR"
unfolding logger_level_to_str
level_test = refl

write_log-contents_test :
    (l : Logger (List LogTask)) × (write_log
        (list_queue LogTask)
        (false ∷ true ∷ [])
        error
        "server"
        "down"
        quiet
      ≡ some l)
    × (l.log_queue ≡ task info "up" ∷ task error "down" ∷ [])
    × (l.debug_enabled ≡ false)
write_log-contents_test =
    write_log-contents (list_queue LogTask) (λ s. s) (list_queue-IsFifo LogTask) 1 [] error "server"
      "down" quiet

throw_if_error-contents_test :
    (l : Logger (List LogTask)) × (throw_if_error
        (list_queue LogTask)
        pattern_only
        (λ n. "refused")
        (true ∷ [])
        true
        0
        111
        "server"
        0
        quiet
      ≡ some (l, some "Failed to run method: {}"))
    × (l.log_queue ≡ task info "up" ∷ task error "Failed to run method: {}" ∷ [])
    × (l.debug_enabled ≡ false)
throw_if_error-contents_test =
    throw_if_error-contents (list_queue LogTask) (λ s. s) (list_queue-IsFifo LogTask) pattern_only
      (λ n. "refused") 0 [] true 0 111 "server" 0 quiet

abbrev waiting : List LogTask
waiting = task info "a" ∷ task error "b" ∷ []

handle_log_thread-contents_test :
    (handle_log_thread (list_queue LogTask) (true ∷ false ∷ true ∷ []) waiting).0
      ++ (handle_log_thread (list_queue LogTask) (true ∷ false ∷ true ∷ []) waiting).1
    ≡ waiting
handle_log_thread-contents_test =
    handle_log_thread-contents (list_queue LogTask) (λ s. s) (list_queue-IsFifo LogTask)
      (true ∷ false ∷ true ∷ []) waiting

takes_some : (s : List LogTask) → s ≢ [] → take 20 s ≢ []
takes_some [] ne = absurd (ne refl)
takes_some (t ∷ ts) ne = λ e. cc

handle_log_thread-delivers_example :
    (handle_log_thread (list_queue LogTask) (true ∷ true ∷ []) waiting).0 ≡ waiting
handle_log_thread-delivers_example =
    handle_log_thread-delivers (list_queue LogTask) (λ s. s) (list_queue-IsFifo LogTask) takes_some
      2 waiting (omega arith)

queue_all-calls_test :
    (queue_all
      (task info "up" ∷ task error "down" ∷ [])
      (record { is_setup = false; calls = [] })).calls
    ≡ register_file_context_id "SocketLib"
      ∷ vfmt_log "[{}] {}" "SocketLib" ("server" ∷ "up" ∷ [])
      ∷ vfmt_log "[{}] {}" "SocketLib" ("server" ∷ "down" ∷ [])
      ∷ []
queue_all-calls_test = queue_all-calls (task info "up") (task error "down" ∷ [])
