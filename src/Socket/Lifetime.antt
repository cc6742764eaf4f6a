-- ===== src/Socket/Lifetime.antt =====
-- What the constructor and the destructor of `Socket` leave of the list of addresses (src/Socket.cpp).
use socket_lib_linux.Prelude.{
  ℕ, ◌≡◌, ◌≢◌, refl, ◌∙◌, List, [], ◌∷◌, ◌++◌, none, some, arith, ==-refl,
}
use socket_lib_linux.Socket.{Address, Socket, constructed, construct, free_addrinfo, destroy}
use socket_lib_linux.Socket.Construct.{NoneOpens, construct-first, construct-none}

-- No entry of the list lies at `p`.
abbrev pub Elsewhere : ℕ → List Address → Type 0
Elsewhere p [] = Unit {0}
Elsewhere p (q ∷ qs) = (q.address ≢ p) × Elsewhere p qs

free_addrinfo-append :
    (p : Address) (before after : List Address)
    → Elsewhere p.address before
    → free_addrinfo p.address (before ++ p ∷ after) ≡ before
unfolding free_addrinfo
free_addrinfo-append p [] after e = rw (==-refl p.address) refl
free_addrinfo-append p (q ∷ before) after e =
    ground (arith, free_addrinfo-append p before after e.1)

-- If the name is resolved and the first address for which the system gives a socket can be set to
-- non-blocking, the destructor gives back that address and those behind it, and those before it
-- stay allocated for ever (no two entries lie at one place). If the system gives a socket for no
-- address, the constructor returns as well, with descriptor -1, and the destructor gives back the
-- whole list.
pub destroy-construct :
    (before after rest : List Address) (p q : Address) (fd : ℕ)
    → NoneOpens before
    → p.socket_fd ≡ some fd
    → p.set_flags_status ≡ 0
    → Elsewhere p.address before
    → NoneOpens (q ∷ rest)
    → ((s : Socket) × (construct 0 (before ++ p ∷ after) ≡ constructed s)
        × (s.descriptor ≡ some fd)
        × (destroy s (before ++ p ∷ after) ≡ before))
      × ((s : Socket) × (construct 0 (q ∷ rest) ≡ constructed s)
          × (s.descriptor ≡ none)
          × (destroy s (q ∷ rest) ≡ []))
unfolding destroy
destroy-construct before after rest p q fd h e ok other none_opens = (
  (
    record { serv_info = p; descriptor = some fd },
    construct-first before after p fd h e ∙ rw ok refl,
    refl,
    free_addrinfo-append p before after other,
  ),
  (
    record { serv_info = q; descriptor = none },
    construct-none 0 q rest none_opens,
    refl,
    free_addrinfo-append q [] rest tt,
  ),
)
