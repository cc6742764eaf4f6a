-- ===== src/Channel/Read.antt =====
-- `Channel::readData` (src/Socket.cpp): what a sequence of reads does to the incoming bytes.
use socket_lib_linux.Prelude.{
  ℕ, ◌≡◌, refl, ◌∙◌, inl, inr, Bool, true, false, not, ◌||◌, List, [], ◌∷◌, ◌++◌, append_assoc,
  append-nil, none, arith, Bool-cases, Option-cases, ◌==◌, if◌then◌else◌,
}
use socket_lib_linux.Channel.{
  RecvResult, received, recv_failed, ewouldblock, Channel, Listener, replied, terminated, listen,
  read_data,
}

-- The answers of `recv` that end the connection: the end of the stream, and any error but
-- EWOULDBLOCK.
abbrev pub closes : RecvResult → Bool
closes (received []) = true
closes (received (b ∷ bs)) = false
closes (recv_failed e) = not (e == ewouldblock)

abbrev pub bytes_in : RecvResult → List ℕ
bytes_in (received bs) = bs
bytes_in (recv_failed e) = []

-- The bytes of a sequence of answers, up to the first that ends the connection.
abbrev pub stream : List RecvResult → List ℕ
stream [] = []
stream (r ∷ rs) = bytes_in r ++ (if closes r then [] else stream rs)

abbrev pub any_closes : List RecvResult → Bool
any_closes [] = false
any_closes (r ∷ rs) = closes r || any_closes rs

module _ {Q : Type 0} where
  -- One call of `readData` for each answer, on a socket that stays active, with the read lock free.
  pub read_all : List RecvResult → List (Listener Q) → Channel Q → Channel Q
  read_all [] ls c = c
  read_all (r ∷ rs) ls c = read_all rs ls (read_data true true r ls c).0

  read_data-lem :
      (r : RecvResult) (ls : List (Listener Q)) (c : Channel Q)
      → c.active ≡ true
      → ((d : Channel Q) → listen ls d ≡ (d, replied true))
      → (read_data true true r ls c).0
        ≡ record c { incoming = c.incoming ++ bytes_in r; active = not (closes r) }
  unfolding read_data
  read_data-lem (received []) ls c a quiet = rw append-nil (ground arith)
  read_data-lem (received (b ∷ bs)) ls c a quiet =
      ground (arith, quiet (record c { incoming = c.incoming ++ b ∷ bs }))
  read_data-lem (recv_failed e) ls c a quiet = rw append-nil (ground arith)

  read_data_inactive :
      (r : RecvResult) (ls : List (Listener Q)) (c : Channel Q)
      → c.active ≡ false
      → (read_data true true r ls c).0 ≡ c
  unfolding read_data
  read_data_inactive r ls c a = ground arith

  read_all_inactive :
      (rs : List RecvResult) (ls : List (Listener Q)) (c : Channel Q)
      → c.active ≡ false
      → read_all rs ls c ≡ c
  unfolding read_all
  read_all_inactive [] ls c a = refl
  read_all_inactive (r ∷ rs) ls c a = rw (read_data_inactive r ls c a) (read_all_inactive rs ls c a)

  -- Where the listeners leave the channel as it is, a sequence of reads on an active channel appends
  -- to the incoming queue the bytes received before the connection ended, in order; the channel is
  -- active after it exactly when no answer ended the connection; no other member changes.
  pub read_all-stream :
      (rs : List RecvResult) (ls : List (Listener Q)) (c : Channel Q)
      → c.active ≡ true
      → ((d : Channel Q) → listen ls d ≡ (d, replied true))
      → read_all rs ls c
        ≡ record c { incoming = c.incoming ++ stream rs; active = not (any_closes rs) }
  unfolding read_all
  read_all-stream [] ls c a quiet = rw append-nil (ground arith)
  read_all-stream (r ∷ rs) ls c a quiet =
      rw (read_data-lem r ls c a quiet) (elim (Bool-cases (closes r)) [
        | inl shut ↦
            rw (shut, append-nil)
              (read_all_inactive rs ls
                (record c { active = false; incoming = c.incoming ++ bytes_in r }) refl)
        | inr still ↦ rw still (
            read_all-stream rs ls (record c { active = true; incoming = c.incoming ++ bytes_in r })
              refl quiet
            ∙ rw append_assoc refl)
      ])

  listen-append :
      (before ls : List (Listener Q)) (c c' : Channel Q)
      → listen before c ≡ (c', replied true)
      → listen (before ++ ls) c ≡ listen ls c'
  unfolding listen
  listen-append [] ls c c' h = ground arith
  listen-append (l ∷ before) ls c c' h = elim (Option-cases (l c)) [
    | inl e ↦ ground arith
    | inr (d, e) ↦
        let h' : listen before d ≡ (c', replied true) = ground arith in
        rw (e, listen) (listen-append before ls d c' h')
  ]

  -- An exception that leaves a listener of an active channel ends the program, when bytes are
  -- received: the listeners behind it do not run, and the handler that `readData` passes to
  -- `invokeError` is not called.
  pub read_data-terminates :
      (b : ℕ) (bs : List ℕ) (before after : List (Listener Q)) (l : Listener Q) (c c' : Channel Q)
      → c.active ≡ true
      → listen before (record c { incoming = c.incoming ++ b ∷ bs }) ≡ (c', replied true)
      → l c' ≡ none
      → read_data true true (received (b ∷ bs)) (before ++ l ∷ after) c ≡ (c', terminated)
  unfolding read_data
  read_data-terminates b bs before after l c c' a runs throws = ground (
    arith,
    listen-append before (l ∷ after) (record c { incoming = c.incoming ++ b ∷ bs }) c' runs,
  )
