-- ===== src/Logger/Gate.antt =====
-- Which logs are queued, and what is thrown (shared/SocketLogger.hpp, shared/SocketUtil.hpp).
use Prim.Native.String.{String}
use socket_lib_linux.Prelude.{
  ℕ, zero, suc, ◌≡◌, refl, sym, ◌∙◌, Option, Bool, true, false, ◌&&◌, not, List, [], ◌∷◌, ◌++◌,
  none, some, arith, inl, inr, append-nil, Bool-cases, replicate, ◌==◌, if◌then◌else◌,
}
use socket_lib_linux.BulkQueue.{BulkQueue, IsFifo}
use socket_lib_linux.Logger.{
  fmt_log, fmt_throw_error, log_if_error, throw_if_null, LoggerLevel, error, LogTask, Logger,
  is_debug, queue_log_internal, write_log, throw_if_error, get_proper_error_string,
}

abbrev pub keeps : Bool → LoggerLevel → Bool
keeps debug_enabled lvl = not (is_debug lvl && not debug_enabled)

module _ {Q : Type 0} (queue : BulkQueue Q LogTask) where
  -- `enqueue` is tried again until it succeeds.
  queue_log_internal-retries :
      (n : ℕ) (rest : List Bool) (t : LogTask) (l : Logger Q)
      → queue_log_internal queue (replicate n false ++ true ∷ rest) t l
        ≡ some (record l { log_queue = queue.enqueue t l.log_queue })
  unfolding queue_log_internal
  queue_log_internal-retries zero rest t l = refl
  queue_log_internal-retries (suc n) rest t l = queue_log_internal-retries n rest t l

module _ {Q : Type 0} (queue : BulkQueue Q LogTask) (contents : Q → List LogTask)
    (fifo : IsFifo queue contents) where
  open fifo use {contents-enqueue}

  -- `writeLog` puts one task behind those that wait, however often `enqueue` fails before it succeeds,
  -- unless the level is DEBUG and debug logs are off: then it changes nothing. It never changes the
  -- switch.
  pub write_log-contents :
      (n : ℕ) (rest : List Bool) (lvl : LoggerLevel) (tag log : String) (l : Logger Q)
      → (l' : Logger Q) × (write_log queue (replicate n false ++ true ∷ rest) lvl tag log l
          ≡ some l')
        × (contents l'.log_queue ≡ (
            if keeps l.debug_enabled lvl
            then contents l.log_queue ++ record { level = lvl; tag = tag; log = log } ∷ []
            else contents l.log_queue))
        × (l'.debug_enabled ≡ l.debug_enabled)
  unfolding write_log
  write_log-contents n rest lvl tag log l =
      elim (Bool-cases (is_debug lvl && not l.debug_enabled)) [
        | inl off ↦ (l, rw off refl, rw off refl, refl)
        | inr on ↦ (
          record l { log_queue = queue.enqueue task l.log_queue },
          rw on (queue_log_internal-retries queue n rest task l),
          rw on (contents-enqueue task l.log_queue),
          refl,
        )
      ]
    where
      task : LogTask
      task = record { level = lvl; tag = tag; log = log }

  -- The call returns, puts these tasks behind those that wait, and leaves the switch of the debug logs.
  abbrev pub Queues : Logger Q → Option (Logger Q) → List LogTask → Type 0
  Queues l r tasks =
      (l' : Logger Q) × (r ≡ some l')
      × (contents l'.log_queue ≡ contents l.log_queue ++ tasks)
      × (l'.debug_enabled ≡ l.debug_enabled)

  -- A log at a level other than DEBUG
  pub fmt_log-Queues :
      (format : String → List String → String) (n : ℕ) (rest : List Bool) (lvl : LoggerLevel)
      (tag str : String) (args : List String) (l : Logger Q)
      → is_debug lvl ≡ false
      → Queues l
          (fmt_log queue format (replicate n false ++ true ∷ rest) lvl tag str args l)
          (record { level = lvl; tag = tag; log = format str args } ∷ [])
  unfolding fmt_log
  fmt_log-Queues format n rest lvl tag str args l plain =
      let (l', e, c, d) = write_log-contents n rest lvl tag (format str args) l in
      (l', e, c ∙ rw plain refl, d)

  pub log_if_error-Queues :
      (format : String → List String → String) (strerror : ℕ → String) (n : ℕ) (rest : List Bool)
      (is_status_error : Bool) (errno status : ℕ) (tag message : String) (l : Logger Q)
      → Queues l
          (log_if_error queue format strerror
            (replicate n false ++ true ∷ rest)
            is_status_error
            errno
            status
            tag
            message
            l)
          (if status == 0
            then []
            else record {
              level = error;
              tag = tag;
              log =
                  format "Failed to run method: At: {} Cause: {}"
                    (message ∷ get_proper_error_string strerror is_status_error errno status ∷ []);
            }
              ∷ [])
  unfolding log_if_error
  log_if_error-Queues format strerror n rest is_status_error errno status tag message l =
      elim (Bool-cases (status == 0)) [
        | inl ok ↦ rw (ok, append-nil) (l, refl, refl, refl)
        | inr bad ↦
            let (l', e, c, d) =
              fmt_log-Queues format n rest error tag "Failed to run method: At: {} Cause: {}"
                (message ∷ get_proper_error_string strerror is_status_error errno status ∷ []) l
                refl in
            rw bad (l', e, c, d)
      ]

  pub throw_if_null-contents :
      (format : String → List String → String) (n : ℕ) (rest : List Bool) (is_null : Bool)
      (tag : String) (l : Logger Q)
      → let text = format "Failed to run method because of null" [] in
        (l' : Logger Q) × (throw_if_null queue format
            (replicate n false ++ true ∷ rest)
            is_null
            tag
            l
          ≡ some (l', if is_null then some text else none))
        × (contents l'.log_queue
            ≡ contents l.log_queue
              ++ (if is_null then record { level = error; tag = tag; log = text } ∷ [] else []))
        × (l'.debug_enabled ≡ l.debug_enabled)
  unfolding throw_if_null fmt_throw_error fmt_log
  throw_if_null-contents format n rest true tag l =
      let (l', e, c, d) =
        write_log-contents n rest error tag (format "Failed to run method because of null" []) l in
      (l', ground (arith, e), c, d)
  throw_if_null-contents format n rest false tag l =
      (l, refl, sym (append-nil (contents l.log_queue)), refl)

  -- `throwIfError` does nothing if the status is the expected one. Otherwise, if `enqueue` succeeds
  -- after any number of failures, it logs one task at the level ERROR, also if debug logs are off,
  -- and throws the text that it logged. It leaves the switch of the debug logs.
  pub throw_if_error-contents :
      (format : String → List String → String) (strerror : ℕ → String) (n : ℕ) (rest : List Bool)
      (is_status_error : Bool) (errno status : ℕ) (tag : String) (eq : ℕ) (l : Logger Q)
      → let attempts = replicate n false ++ true ∷ rest in
        let text =
          format "Failed to run method: {}"
            (get_proper_error_string strerror is_status_error errno status ∷ []) in
        (l' : Logger Q) × (throw_if_error queue format strerror attempts is_status_error errno
            status tag eq l
          ≡ some (l', if status == eq then none else some text))
        × (contents l'.log_queue
            ≡ contents l.log_queue
              ++ (if status == eq
                  then []
                  else record { level = error; tag = tag; log = text } ∷ []))
        × (l'.debug_enabled ≡ l.debug_enabled)
  unfolding throw_if_error
  throw_if_error-contents format strerror n rest is_status_error errno status tag eq l =
      elim (Bool-cases (status == eq)) [
        | inl same ↦ (l, rw same refl, rw (same, append-nil) refl, refl)
        | inr other ↦ (
          record l { log_queue = queue.enqueue task l.log_queue },
          ground (arith, queue_log_internal-retries queue n rest task l),
          rw other (contents-enqueue task l.log_queue),
          refl,
        )
      ]
    where
      task : LogTask
      task = record {
        level = error;
        tag = tag;
        log =
            format "Failed to run method: {}"
              (get_proper_error_string strerror is_status_error errno status ∷ []);
      }
