-- ===== src/ClientSocket/Construct.antt =====
-- The constructor of `ClientSocket` (src/ClientSocket.cpp), with `get_in_addr` of
-- shared/SocketUtil.hpp.
use Prim.Native.String.{String}
use socket_lib_linux.Prelude.{
  ℕ, ◌≡◌, refl, ◌∙◌, sym, ap, Bool, true, false, List, [], ◌∷◌, ◌++◌, append_assoc, append-nil,
  Option, none, some, ◌>>=◌, replicate, ◌==◌, if◌then◌else◌,
}
use socket_lib_linux.BulkQueue.{BulkQueue, IsFifo}
use socket_lib_linux.Logger.{LogTask, Logger, debug_level, fmt_log}
use socket_lib_linux.Logger.Gate.{keeps, write_log-contents}
use socket_lib_linux.Socket.{Address, Socket, Constructed, construct}
use socket_lib_linux.Socket
use socket_lib_linux.Socket.Logs.{Built, built, thrown, undefined, without_text, construct_logged}
use socket_lib_linux.Socket.Logs.Reports.{all_reports}
use socket_lib_linux.Socket.Logs.Tasks.{Ends, construct_logged-Ends}

-- AF_INET
abbrev pub af_inet : ℕ
af_inet = 2

-- `sockaddr`: its family, and the address as either family has it
pub record Sockaddr : Type 0 where
  pub sa_family : ℕ
  pub sin_addr : ℕ
  pub sin6_addr : ℕ

-- `get_in_addr`
abbrev pub get_in_addr : Sockaddr → ℕ
get_in_addr sa = if sa.sa_family == af_inet then sa.sin_addr else sa.sin6_addr

abbrev pub client_log_tag : String
client_log_tag = "client"

-- `inet_ntop` is the system's: the text of an address of a family, or a failure, which leaves the
-- buffer as it was; `sockaddr_of` is `ai_addr`, whose family is that of the entry.
module _ {Q : Type 0} (queue : BulkQueue Q LogTask) (format : String → List String → String)
    (strerror gai_strerror : ℕ → String) (errno_of : Address → ℕ) (sockaddr_of : Address → Sockaddr)
    (inet_ntop : ℕ → ℕ → Option String) where
  abbrev pub text_of : Address → Option String
  text_of p = inet_ntop (sockaddr_of p).sa_family (get_in_addr (sockaddr_of p))

  -- The body of the constructor. A buffer that was never written is read where `inet_ntop` fails.
  abbrev pub say_connecting : List Bool → Logger Q × Built → Option (Logger Q × Built)
  say_connecting attempts (l, built s) = elim (text_of s.serv_info) [
    | none ↦ some (l, undefined)
    | some text ↦
        fmt_log queue format attempts debug_level client_log_tag "Connecting to {}" (text ∷ []) l
        >>= λ l'. some (l', built s)
  ]
  say_connecting attempts (l, b) = some (l, b)

  -- `ClientSocket::ClientSocket`
  unfoldable pub construct_client :
      List Bool → ℕ → List Address → Logger Q → Option (Logger Q × Built)
  unfolding construct_logged fmt_log
  construct_client attempts status found l =
      construct_logged queue format strerror gai_strerror errno_of attempts status found l
      >>= say_connecting attempts

module _ {Q : Type 0} (queue : BulkQueue Q LogTask) (contents : Q → List LogTask)
    (fifo : IsFifo queue contents) (format : String → List String → String)
    (strerror gai_strerror : ℕ → String) (errno_of : Address → ℕ) (sockaddr_of : Address → Sockaddr)
    (inet_ntop : ℕ → ℕ → Option String) where
  -- The last log, if debug logs are on
  abbrev pub connecting : Bool → String → List LogTask
  connecting debug text =
      if debug
      then record {
        level = debug_level;
        tag = client_log_tag;
        log = format "Connecting to {}" (text ∷ []);
      }
        ∷ []
      else []

  abbrev pub after : (Address → String) → Bool → Constructed → List LogTask
  after shown debug (Socket.constructed s) = connecting debug (shown s.serv_info)
  after shown debug c = []

  abbrev Comes : Logger Q → Option (Logger Q × Built) → Constructed → List LogTask → Type 0
  Comes = Ends queue contents fifo format strerror gai_strerror errno_of

  module _ (n : ℕ) (rest : List Bool) (shown : Address → String)
      (texts : (p : Address)
        → inet_ntop (sockaddr_of p).sa_family (get_in_addr (sockaddr_of p)) ≡ some (shown p)) where
    said :
        (l : Logger Q) (b : Built)
        → Comes l
            (say_connecting queue format strerror gai_strerror errno_of sockaddr_of inet_ntop
              (replicate n false ++ true ∷ rest)
              (l, b))
            (without_text b)
            (after shown l.debug_enabled (without_text b))
    unfolding fmt_log
    said l (thrown text) =
        (l, thrown text, refl, refl, sym (append-nil (contents l.log_queue)), refl)
    said l undefined = (l, undefined, refl, refl, sym (append-nil (contents l.log_queue)), refl)
    said l (built s) =
        let text : String = format "Connecting to {}" (shown s.serv_info ∷ []) in
        let (l', e, c, d) =
          write_log-contents queue contents fifo n rest debug_level client_log_tag text l in
        rw (texts s.serv_info, say_connecting)
          (
            l',
            built s,
            ap (λ r. r >>= λ l'. some (l', built s)) e,
            refl,
            c ∙ by_switch l.debug_enabled text l,
            d,
          )
      where
        by_switch :
            (debug : Bool) (text : String) (l : Logger Q)
            → (if keeps debug debug_level
                then contents l.log_queue
                  ++ record { level = debug_level; tag = client_log_tag; log = text } ∷ []
                else contents l.log_queue)
              ≡ contents l.log_queue
                ++ (if debug
                    then record { level = debug_level; tag = client_log_tag; log = text } ∷ []
                    else [])
        by_switch true text l = refl
        by_switch false text l = sym (append-nil (contents l.log_queue))

    -- The constructor of `ClientSocket`, where `inet_ntop` gives a text for each address and `enqueue`
    -- succeeds after any number of failures, comes to the end that the constructor of `Socket` comes
    -- to, with its logs; if a socket was made and debug logs are on, one more task says to which
    -- address it connects, also where no address could be opened.
    pub construct_client-Ends :
        (status : ℕ) (found : List Address) (l : Logger Q)
        → Comes l
            (construct_client queue format strerror gai_strerror errno_of sockaddr_of inet_ntop
              (replicate n false ++ true ∷ rest)
              status
              found
              l)
            (construct status found)
            (all_reports format strerror gai_strerror errno_of l.debug_enabled status found
              ++ after shown l.debug_enabled (construct status found))
    unfolding construct_client
    construct_client-Ends status found l =
        let (l₁, b, e, w, c, d) =
          construct_logged-Ends queue contents fifo format strerror gai_strerror errno_of n rest
            status found l in
        let (l₂, b', f, w', c', d') = said l₁ b in
        let logs : List LogTask =
          all_reports format strerror gai_strerror errno_of l.debug_enabled status found in
        (
          l₂,
          b',
          ap
                (λ r.
                  r
                  >>= say_connecting queue format strerror gai_strerror errno_of sockaddr_of
                      inet_ntop (replicate n false ++ true ∷ rest))
                e
              ∙ f,
          w' ∙ w,
          c'
              ∙ ap (λ q. q ++ after shown l₁.debug_enabled (without_text b)) c
              ∙ append_assoc (contents l.log_queue) logs
                  (after shown l₁.debug_enabled (without_text b))
              ∙ ap (λ o. contents l.log_queue ++ (logs ++ after shown l₁.debug_enabled o)) w
              ∙ ap
                  (λ debug.
                    contents l.log_queue ++ (logs ++ after shown debug (construct status found)))
                  d,
          d' ∙ d,
        )
