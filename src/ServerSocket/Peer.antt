-- ===== src/ServerSocket/Peer.antt =====
-- The address of a client: `getPeerName` and `getPeerAddress` of src/ServerSocket.cpp, and
-- `getHostByAddress` of shared/SocketUtil.hpp.
mod Tests
use Prim.Native.String.{String}
use socket_lib_linux.Prelude.{
  ℕ, ◌≡◌, refl, ◌∙◌, sym, ap, subst, inl, inr, Bool, true, false, List, [], ◌∷◌, ◌++◌, append-nil,
  Option, none, some, ◌>>=◌, arith, Bool-cases, replicate, ◌==◌, if◌then◌else◌,
}
use socket_lib_linux.BulkQueue.{BulkQueue, IsFifo}
use socket_lib_linux.Logger.{LogTask, Logger, error, throw_if_error}
use socket_lib_linux.Logger.Gate.{throw_if_error-contents}

-- `HostPort`
pub record HostPort : Type 0 where
  pub host : String
  pub port : String

-- A call returns a value or throws an exception with a text.
pub data Answer (A : Type 0) : Type 0 where
  value : A → Answer A
  thrown : String → Answer A

-- What `getpeername` and `getnameinfo` return, with `errno` after each, and what they write where they
-- succeed: the number of an address, and the host and port of one.
pub record PeerEnv : Type 0 where
  pub peer_status : ℕ
  pub peer_errno : ℕ
  pub peer : ℕ
  pub info_status : ℕ
  pub info_errno : ℕ
  pub info : ℕ → HostPort

abbrev pub server_log_tag : String
server_log_tag = "server"

module _ {Q : Type 0} where
  -- What follows a check: nothing else is done once it throws.
  abbrev checked :
      {A : Type 0} → A → Option (Logger Q × Option String) → Option (Logger Q × Answer A)
  checked a none = none
  checked a (some (l, none)) = some (l, value a)
  checked a (some (l, some text)) = some (l, thrown text)

module _ {Q : Type 0} (queue : BulkQueue Q LogTask) (format : String → List String → String)
    (strerror : ℕ → String) where
  -- `getHostByAddress`; `attempts` are the tries to queue the log.
  unfoldable pub get_host_by_address :
      List Bool → PeerEnv → ℕ → Logger Q → Option (Logger Q × Answer HostPort)
  unfolding throw_if_error
  get_host_by_address attempts env their_addr l = checked (env.info their_addr) (
      throw_if_error queue format strerror attempts false env.info_errno env.info_status
        "getHostByAddress" 0 l)

  -- `getPeerName`
  unfoldable pub get_peer_name : List Bool → PeerEnv → Logger Q → Option (Logger Q × Answer ℕ)
  unfolding throw_if_error
  get_peer_name attempts env l = checked env.peer (
      throw_if_error queue format strerror attempts false env.peer_errno env.peer_status
        server_log_tag 0 l)

  -- `return Utils::getHostByAddress(getLogger(), socketAddress)`, behind the call of `getPeerName`
  abbrev host_of :
      List Bool → PeerEnv → Option (Logger Q × Answer ℕ) → Option (Logger Q × Answer HostPort)
  host_of attempts env none = none
  host_of attempts env (some (l, value address)) = get_host_by_address attempts env address l
  host_of attempts env (some (l, thrown text)) = some (l, thrown text)

  -- `getPeerAddress`
  unfoldable pub get_peer_address :
      List Bool → PeerEnv → Logger Q → Option (Logger Q × Answer HostPort)
  unfolding get_peer_name get_host_by_address
  get_peer_address attempts env l = host_of attempts env (get_peer_name attempts env l)

module _ {Q : Type 0} (queue : BulkQueue Q LogTask) (contents : Q → List LogTask)
    (fifo : IsFifo queue contents) (format : String → List String → String)
    (strerror : ℕ → String) where
  -- The text of a failed check.
  abbrev pub failure : ℕ → String
  failure errno = format "Failed to run method: {}" (strerror errno ∷ [])

  abbrev pub task : String → ℕ → LogTask
  task tag errno = record { level = error; tag = tag; log = failure errno }

  -- The call logs these tasks and gives this answer.
  abbrev pub Does :
      {A : Type 0} → Logger Q → Option (Logger Q × Answer A) → Answer A → List LogTask → Type 0
  Does l r a tasks =
      (l' : Logger Q) × (r ≡ some (l', a)) × (contents l'.log_queue ≡ contents l.log_queue ++ tasks)

  checked-Does :
      {A : Type 0} (a : A) (n : ℕ) (rest : List Bool) (errno status : ℕ) (tag : String)
      (l : Logger Q)
      → Does l
          (checked a (
            throw_if_error queue format strerror
              (replicate n false ++ true ∷ rest)
              false
              errno
              status
              tag
              0
              l))
          (if status == 0 then value a else thrown (failure errno))
          (if status == 0 then [] else task tag errno ∷ [])
  checked-Does a n rest errno status tag l =
      let (l', e, c, _) =
        throw_if_error-contents queue contents fifo format strerror n rest false errno status tag 0
          l in
      elim (Bool-cases (status == 0)) [
        | inl ok ↦
            rw (ok, append-nil) (l', ap (checked a) e ∙ rw ok refl, c ∙ rw (ok, append-nil) refl)
        | inr bad ↦ rw bad (l', ap (checked a) e ∙ rw bad refl, c ∙ rw bad refl)
      ]

  -- `getPeerAddress`, where `enqueue` succeeds after any number of failures: if both calls of the
  -- system succeed it returns the host and port of the peer and logs nothing. If `getpeername` fails,
  -- it logs one task at the level ERROR under the tag of the server with the text of `errno`, throws
  -- that text and does not ask for the host. If only `getnameinfo` fails, it does the same under the
  -- tag "getHostByAddress", with the text of `errno` and not of the status that the call returned.
  pub get_peer_address-Does :
      (n : ℕ) (rest : List Bool) (env : PeerEnv) (l : Logger Q)
      → Does l
          (get_peer_address queue format strerror (replicate n false ++ true ∷ rest) env l)
          (if env.peer_status == 0
            then if env.info_status == 0
              then value (env.info env.peer)
              else thrown (failure env.info_errno)
            else thrown (failure env.peer_errno))
          (if env.peer_status == 0
            then if env.info_status == 0 then [] else task "getHostByAddress" env.info_errno ∷ []
            else task server_log_tag env.peer_errno ∷ [])
  unfolding get_peer_address get_peer_name get_host_by_address
  get_peer_address-Does n rest env l = by_status (env.peer_status == 0) refl
    where
      attempts : List Bool
      attempts = replicate n false ++ true ∷ rest

      by_status :
          (b : Bool)
          → (env.peer_status == 0) ≡ b
          → Does l
              (get_peer_address queue format strerror attempts env l)
              (if b
                then if env.info_status == 0
                  then value (env.info env.peer)
                  else thrown (failure env.info_errno)
                else thrown (failure env.peer_errno))
              (if b
                then if env.info_status == 0
                  then []
                  else task "getHostByAddress" env.info_errno ∷ []
                else task server_log_tag env.peer_errno ∷ [])
      by_status true ok =
          let (l₁, e, c) =
            checked-Does env.peer n rest env.peer_errno env.peer_status server_log_tag l in
          let (l₂, f, d) =
            checked-Does (env.info env.peer) n rest env.info_errno env.info_status
              "getHostByAddress" l₁ in
          (
            l₂,
            ap (host_of queue format strerror attempts env) (
                  e
                  ∙ ap
                      (λ b.
                        some (l₁, if b then value env.peer else thrown (failure env.peer_errno)))
                      ok)
                ∙ f,
            d
                ∙ ap
                    (λ q.
                      q
                      ++ (if env.info_status == 0
                          then []
                          else task "getHostByAddress" env.info_errno ∷ []))
                    (c ∙ rw (ok, append-nil) refl),
          )
      by_status false bad =
          let (l₁, e, c) =
            checked-Does env.peer n rest env.peer_errno env.peer_status server_log_tag l in
          (
            l₁,
            ap (host_of queue format strerror attempts env) (
                e
                ∙ ap (λ b. some (l₁, if b then value env.peer else thrown (failure env.peer_errno)))
                    bad),
            c ∙ rw bad refl,
          )
