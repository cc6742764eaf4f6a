-- ===== src/ServerSocket/Bind.antt =====
-- `ServerSocket::bindAndListen` (src/ServerSocket.cpp).
use socket_lib_linux.Prelude.{
  ℕ, zero, suc, ◌≡◌, refl, ◌∙◌, ◌⊎◌, true, false, List, [], ◌∷◌, ◌++◌, append_assoc, append-nil,
  arith, max,
}
use socket_lib_linux.ServerSocket.{
  Thread, connection_listen_loop, read_loop, write_loop, Server, returned, threw, left, BindEnv,
  start_workers, bind_and_listen,
}

-- `n` pairs of worker threads.
abbrev pub workers : ℕ → List Thread
workers zero = []
workers (suc n) = read_loop ∷ write_loop ∷ workers n

module _ {Q : Type 0} where
  start_workers-lem :
      (n : ℕ) (s : Server Q) → start_workers n s ≡ record s { threads = s.threads ++ workers n }
  unfolding start_workers
  start_workers-lem zero s = rw append-nil refl
  start_workers-lem (suc n) s =
      start_workers-lem n (record s { threads = (s.threads ++ read_loop ∷ []) ++ write_loop ∷ [] })
      ∙ rw (append_assoc, append_assoc) refl

  -- All calls that `bindAndListen` makes on this server succeed.
  abbrev pub Succeeds : BindEnv → Server Q → Type 0
  Succeeds env s =
      (env.reuse_status ≡ 0)
      × ((s.no_delay ≡ false) ⊎ (env.no_delay_status ≡ 0))
      × (env.bind_status ≡ 0)
      × (env.listen_status ≡ 0)

  -- On a server that is not active, and if every system call succeeds, `bindAndListen` makes it active
  -- and starts the connection thread, then a read and a write thread `workerThreadCount` times, and
  -- once if that is 0.
  pub bind_and_listen-starts :
      (env : BindEnv) (s : Server Q)
      → s.active ≡ false
      → Succeeds env s
      → bind_and_listen env s
        ≡ returned (record s {
          active = true;
          threads = s.threads ++ connection_listen_loop ∷ workers (max s.worker_thread_count 1);
        })
  unfolding bind_and_listen
  bind_and_listen-starts env s a ok = ground (
    arith,
    start_workers-lem (max s.worker_thread_count 1)
        (record s { active = true; threads = s.threads ++ connection_listen_loop ∷ [] }),
    append_assoc s.threads (connection_listen_loop ∷ []) (workers (max s.worker_thread_count 1)),
  )

  -- If a system call fails, `bindAndListen` on a server that is not active throws but leaves the server
  -- active, so that every later call throws too and changes nothing.
  pub bind_and_listen-stuck :
      (env again : BindEnv) (s : Server Q)
      → ¬ Succeeds env s
      → s.active ≡ false
      → let t = left (bind_and_listen env s) in
        (bind_and_listen env s ≡ threw t) × (t.active ≡ true) × (bind_and_listen again t ≡ threw t)
  unfolding bind_and_listen
  bind_and_listen-stuck env again s fails a = ground arith
