-- ===== src/Socket/Logs/Tasks.antt =====
-- The logs of the constructor of `Socket` (src/Socket.cpp, shared/SocketUtil.hpp).
use Prim.Native.String.{String}
use socket_lib_linux.Prelude.{
  ℕ, zero, suc, ◌≡◌, refl, ◌∙◌, sym, ap, subst, inl, inr, Bool, true, false, List, [], ◌∷◌, ◌++◌,
  append_assoc, append-nil, Option, none, some, ◌>>=◌, arith, Bool-cases, replicate, ◌==◌,
  if◌then◌else◌,
}
use socket_lib_linux.BulkQueue.{BulkQueue, IsFifo}
use socket_lib_linux.Logger.{
  LogTask, Logger, debug_level, error, fmt_log, write_log, throw_if_null, throw_if_error,
}
use socket_lib_linux.Logger.Gate.{
  Queues, write_log-contents, fmt_log-Queues, log_if_error-Queues, throw_if_error-contents,
  throw_if_null-contents,
}
use socket_lib_linux.Socket.{
  Address, Socket, Constructed, construct, resolve_endpoint, open_first, try_address,
}
use socket_lib_linux.Socket
use socket_lib_linux.Socket.Logs.{
  Built, built, thrown, undefined, without_text, minus_one, socket_log_tag, go_on, returns, open_at,
  open_logged, construct_logged,
}
use socket_lib_linux.Socket.Logs.Reports.{creating, task_of, of_turn, reports, all_reports}

module _ {Q : Type 0} (queue : BulkQueue Q LogTask) (contents : Q → List LogTask)
    (fifo : IsFifo queue contents) (format : String → List String → String)
    (strerror gai_strerror : ℕ → String) (errno_of : Address → ℕ) where
  -- The call comes to an end that `outcome` describes, and puts these tasks behind those that wait.
  abbrev pub Ends : Logger Q → Option (Logger Q × Built) → Constructed → List LogTask → Type 0
  Ends l r outcome tasks =
      (l' : Logger Q) × (b : Built) × (r ≡ some (l', b))
      × (without_text b ≡ outcome)
      × (contents l'.log_queue ≡ contents l.log_queue ++ tasks)
      × (l'.debug_enabled ≡ l.debug_enabled)

  abbrev Logs : Logger Q → Option (Logger Q) → List LogTask → Type 0
  Logs = Queues queue contents fifo

  -- A log, and what follows it
  then_Ends :
      (l : Logger Q) (r : Option (Logger Q)) (ts : List LogTask)
      (k : Logger Q → Option (Logger Q × Built)) (outcome : Constructed) (us : List LogTask)
      → Logs l r ts
      → ((l' : Logger Q) → l'.debug_enabled ≡ l.debug_enabled → Ends l' (k l') outcome us)
      → Ends l (r >>= k) outcome (ts ++ us)
  then_Ends l r ts k outcome us (l₁, e, c, d) h =
      let (l₂, b, f, w, g, same) = h l₁ d in
      (
        l₂,
        b,
        ap (λ r. r >>= k) e ∙ f,
        w,
        g ∙ ap (λ q. q ++ us) c ∙ append_assoc (contents l.log_queue) ts us,
        same ∙ d,
      )

  creating-Logs :
      (n : ℕ) (rest : List Bool) (l : Logger Q)
      → Logs l
          (write_log queue
            (replicate n false ++ true ∷ rest)
            debug_level
            socket_log_tag
            "creating socket"
            l)
          (creating l.debug_enabled)
  creating-Logs n rest l =
      let (l', e, c, d) =
        write_log-contents queue contents fifo n rest debug_level socket_log_tag "creating socket"
          l in
      elim (Bool-cases l.debug_enabled) [
        | inl on ↦ (l', e, c ∙ rw on refl, d)
        | inr off ↦ (l', e, c ∙ rw (off, append-nil) refl, d)
      ]

  module _ (n : ℕ) (rest : List Bool) where
    attempts : List Bool
    attempts = replicate n false ++ true ∷ rest

    flagged-Ends :
        (p : Address) (fd : ℕ) (l : Logger Q)
        → Ends l
            (throw_if_error queue format strerror
                (replicate n false ++ true ∷ rest)
                false
                (errno_of p)
                p.set_flags_status
                socket_log_tag
                0
                l
              >>= go_on (returns (record { serv_info = p; descriptor = some fd })))
            (if p.set_flags_status == 0
              then Socket.constructed (record { serv_info = p; descriptor = some fd })
              else Socket.threw)
            (if p.set_flags_status == 0
              then []
              else task_of socket_log_tag
                  (format "Failed to run method: {}" (strerror (errno_of p) ∷ []))
                ∷ [])
    flagged-Ends p fd l =
        let s : Socket = record { serv_info = p; descriptor = some fd } in
        let (l', e, c, d) =
          throw_if_error-contents queue contents fifo format strerror n rest false (errno_of p)
            p.set_flags_status socket_log_tag 0 l in
        let text = format "Failed to run method: {}" (strerror (errno_of p) ∷ []) in
        elim (Bool-cases (p.set_flags_status == 0)) [
          | inl ok ↦ rw ok (
            l',
            built s,
            ap (λ r. r >>= go_on (returns s)) e ∙ rw ok refl,
            refl,
            c ∙ rw ok refl,
            d,
          )
          | inr bad ↦ rw bad (
            l',
            thrown text,
            ap (λ r. r >>= go_on (returns s)) e ∙ rw bad refl,
            refl,
            c ∙ rw bad refl,
            d,
          )
        ]

    abbrev looked : Address → List Address → Logger Q → Option (Logger Q × Built)
    looked first ps =
        open_logged queue format strerror gai_strerror errno_of (replicate n false ++ true ∷ rest)
          first ps

    turn-Ends :
        (first : Address) (ps : List Address) (a status : ℕ) (o : Option ℕ) (l : Logger Q)
        → ((k : Logger Q)
            → k.debug_enabled ≡ l.debug_enabled
            → Ends k
                (looked first ps k)
                (open_first first ps)
                (reports format strerror gai_strerror errno_of l.debug_enabled ps))
        → let p : Address = record { address = a; socket_fd = o; set_flags_status = status } in
          Ends l
            (open_at queue format strerror gai_strerror errno_of
              (replicate n false ++ true ∷ rest)
              p
              (looked first ps)
              l)
            (try_address first p (open_first first ps))
            (of_turn format strerror gai_strerror errno_of p
              (reports format strerror gai_strerror errno_of l.debug_enabled ps))
    unfolding open_at
    turn-Ends first ps a status none l later =
        let p : Address = record { address = a; socket_fd = none; set_flags_status = status } in
        then_Ends l _ _ (looked first ps) (open_first first ps)
          (reports format strerror gai_strerror errno_of l.debug_enabled ps)
          (log_if_error-Queues queue contents fifo format strerror n rest false (errno_of p)
            minus_one "creating socket" socket_log_tag l)
          later
    turn-Ends first ps a status (some fd) l later =
        flagged-Ends (record { address = a; socket_fd = some fd; set_flags_status = status }) fd l

    opens :
        (first : Address) (ps : List Address) (l : Logger Q)
        → Ends l
            (looked first ps l)
            (open_first first ps)
            (reports format strerror gai_strerror errno_of l.debug_enabled ps)
    unfolding open_logged open_first throw_if_null
    opens first [] l = (
      l,
      built (record { serv_info = first; descriptor = none }),
      refl,
      refl,
      sym (append-nil (contents l.log_queue)),
      refl,
    )
    opens first (p ∷ ps) l =
        then_Ends l _ (creating l.debug_enabled)
          (open_at queue format strerror gai_strerror errno_of (replicate n false ++ true ∷ rest) p
            (looked first ps))
          (open_first first (p ∷ ps))
          (of_turn format strerror gai_strerror errno_of p
            (reports format strerror gai_strerror errno_of l.debug_enabled ps))
          (creating-Logs n rest l)
          (λ l₁ same.
            subst
              (λ d.
                Ends l₁
                  (open_at queue format strerror gai_strerror errno_of
                    (replicate n false ++ true ∷ rest) p (looked first ps) l₁)
                  (open_first first (p ∷ ps))
                  (of_turn format strerror gai_strerror errno_of p
                    (reports format strerror gai_strerror errno_of d ps)))
              same
              (turn-Ends first ps p.address p.set_flags_status p.socket_fd l₁ (λ k eq.
                subst
                  (λ d.
                    Ends k (looked first ps k) (open_first first ps)
                      (reports format strerror gai_strerror errno_of d ps))
                  eq (opens first ps k))))

    -- The name is not resolved.
    unresolved :
        (status : ℕ) (l : Logger Q)
        → Ends l
            (fmt_log queue format
                (replicate n false ++ true ∷ rest)
                error
                "ResolveEndpoint"
                "getaddrinfo error: {}"
                (gai_strerror (suc status) ∷ [])
                l
              >>= λ l'. some (l', undefined))
            Socket.undefined
            (task_of "ResolveEndpoint"
                (format "getaddrinfo error: {}" (gai_strerror (suc status) ∷ []))
              ∷ [])
    unresolved status l =
        then_Ends l _ _ (λ l'. some (l', undefined)) Socket.undefined []
          (fmt_log-Queues queue contents fifo format n rest error "ResolveEndpoint"
            "getaddrinfo error: {}" (gai_strerror (suc status) ∷ []) l refl)
          (λ l' same. (l', undefined, refl, refl, sym (append-nil (contents l'.log_queue)), refl))

    -- The constructor of `Socket`, where `enqueue` succeeds after any number of failures, comes to the
    -- same end as without the logger. It logs one task for each address that it tries, if debug logs
    -- are on, one ERROR task for each address for which the system gives no socket, and one for the
    -- failure that makes it throw, that of `fcntl` or a list that is empty, or for that of `getaddrinfo`;
    -- the switch of the debug logs stays as it is.
    pub construct_logged-Ends :
        (status : ℕ) (found : List Address) (l : Logger Q)
        → Ends l
            (construct_logged queue format strerror gai_strerror errno_of
              (replicate n false ++ true ∷ rest)
              status
              found
              l)
            (construct status found)
            (all_reports format strerror gai_strerror errno_of l.debug_enabled status found)
    unfolding construct_logged construct resolve_endpoint throw_if_null
    construct_logged-Ends zero [] l =
        let text = format "Failed to run method because of null" [] in
        let (l', e, c, d) =
          throw_if_null-contents queue contents fifo format n rest true socket_log_tag l in
        (l', thrown text, ap (λ r. r >>= go_on (λ l. some (l, undefined))) e, refl, c, d)
    construct_logged-Ends zero (p ∷ ps) l = opens p (p ∷ ps) l
    construct_logged-Ends (suc status) [] l =
        let off : (suc status == 0) ≡ false = ground arith in
        rw (off, construct) (unresolved status l)
    construct_logged-Ends (suc status) (p ∷ ps) l =
        let off : (suc status == 0) ≡ false = ground arith in
        rw (off, construct) (unresolved status l)
