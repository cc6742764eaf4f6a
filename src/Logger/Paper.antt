-- ===== src/Logger/Paper.antt =====
-- The other `queueLogInternal` of src/SocketLogger.cpp, with SOCKETLIB_PAPER_LOG: the paper library
-- takes the logs, and there is no queue.
use Prim.Native.String.{String}
use socket_lib_linux.Prelude.{
  ◌≡◌, ◌∙◌, sym, Bool, true, false, List, [], ◌∷◌, ◌++◌, append_assoc, append-nil, map,
  if◌then◌else◌,
}
use socket_lib_linux.Logger.{LogTask}

-- The calls of that library: `RegisterFileContextId(tag)`, and `vfmtLog(format, INF, …, tag, args)`.
pub data PaperCall : Type 0 where
  register_file_context_id : String → PaperCall
  vfmt_log : String → String → List String → PaperCall

-- `static bool setup`, and the calls so far
pub record Paper : Type 0 where
  pub is_setup : Bool
  pub calls : List PaperCall

abbrev pub file_context : String
file_context = "SocketLib"

-- `setup()`
unfoldable pub setup : Paper → Paper
setup p =
    if p.is_setup
    then p
    else record { is_setup = true; calls = p.calls ++ register_file_context_id file_context ∷ [] }

-- `queueLogInternal`, with and without a producer token: the level is not passed on.
abbrev pub call_of : LogTask → PaperCall
call_of t = vfmt_log "[{}] {}" file_context (t.tag ∷ t.log ∷ [])

unfoldable pub queue_log_internal : LogTask → Paper → Paper
unfolding setup
queue_log_internal t p = let q = setup p in record q { calls = q.calls ++ call_of t ∷ [] }

abbrev pub queue_all : List LogTask → Paper → Paper
unfolding queue_log_internal
queue_all [] p = p
queue_all (t ∷ ts) p = queue_all ts (queue_log_internal t p)

queue_all-ready :
    (ts : List LogTask) (calls : List PaperCall)
    → (queue_all ts (record { is_setup = true; calls = calls })).calls ≡ calls ++ map call_of ts
unfolding queue_log_internal setup
queue_all-ready [] calls = sym (append-nil calls)
queue_all-ready (t ∷ ts) calls =
    queue_all-ready ts (calls ++ call_of t ∷ [])
    ∙ append_assoc calls (call_of t ∷ []) (map call_of ts)

-- Any number of logs, the first of a program, make the library register the file context once, before
-- all else, and then take each log in order, whatever its level.
pub queue_all-calls :
    (t : LogTask) (ts : List LogTask)
    → (queue_all (t ∷ ts) (record { is_setup = false; calls = [] })).calls
      ≡ register_file_context_id file_context ∷ map call_of (t ∷ ts)
unfolding queue_log_internal setup
queue_all-calls t ts = queue_all-ready ts (register_file_context_id file_context ∷ call_of t ∷ [])
