-- ===== src/Socket/Construct.antt =====
-- When the constructor of `Socket` throws, and which address it takes (src/Socket.cpp).
use socket_lib_linux.Prelude.{
  ℕ, ◌≡◌, refl, ◌∙◌, List, [], ◌∷◌, ◌++◌, none, some, arith, ◌==◌, if◌then◌else◌,
}
use socket_lib_linux.Socket.{Address, constructed, threw, undefined, open_first, construct}

-- No address in the list gets a socket.
abbrev pub NoneOpens : List Address → Type 0
NoneOpens [] = Unit {0}
NoneOpens (p ∷ ps) = (p.socket_fd ≡ none) × NoneOpens ps

open_first-skips :
    (first : Address) (before after : List Address)
    → NoneOpens before
    → open_first first (before ++ after) ≡ open_first first after
unfolding open_first
open_first-skips first [] after h = refl
open_first-skips first (p ∷ before) after h =
    ground (arith, open_first-skips first before after h.1)

open_first-none :
    (first : Address) (ps : List Address)
    → NoneOpens ps
    → open_first first ps ≡ constructed (record { serv_info = first; descriptor = none })
unfolding open_first
open_first-none first [] h = refl
open_first-none first (p ∷ ps) h = ground (arith, open_first-none first ps h.1)

-- The constructor takes the first address for which the system gives a socket, and sets it to
-- non-blocking: it throws if that fails, and then no later address is tried.
pub construct-first :
    (before after : List Address) (p : Address) (fd : ℕ)
    → NoneOpens before
    → p.socket_fd ≡ some fd
    → construct 0 (before ++ p ∷ after) ≡ (
        if p.set_flags_status == 0
        then constructed (record { serv_info = p; descriptor = some fd })
        else threw)
unfolding construct
construct-first [] after p fd h e = ground arith
construct-first (q ∷ before) after p fd h e =
    open_first-skips q (q ∷ before) (p ∷ after) h ∙ ground arith

-- If the name is resolved and the system gives a socket for no address, the constructor still returns:
-- the descriptor is -1 and `servInfo` is the first address. If the name is not resolved, its behaviour
-- is undefined.
pub construct-none :
    (status : ℕ) (p : Address) (ps : List Address)
    → NoneOpens (p ∷ ps)
    → construct status (p ∷ ps) ≡ (
        if status == 0
        then constructed (record { serv_info = p; descriptor = none })
        else undefined)
unfolding construct
construct-none status p ps h = ground (arith, open_first-none p (p ∷ ps) h)
