-- ===== src/Socket/Tests.antt =====
-- The constructor of `Socket` on concrete lists of addresses.
use socket_lib_linux.Prelude.{arith, ◌≡◌, refl, [], ◌∷◌, none, some}
use socket_lib_linux.Socket.{Address, Socket, constructed, undefined, construct, destroy}
use socket_lib_linux.Socket.Construct.{construct-first, construct-none}
use socket_lib_linux.Socket.Lifetime.{destroy-construct}

abbrev unsupported : Address
unsupported = record { address = 1; socket_fd = none; set_flags_status = 0 }

abbrev good : Address
good = record { address = 2; socket_fd = some 5; set_flags_status = 0 }

unresolved_test : construct 2 (good ∷ []) ≡ undefined
unfolding construct
unresolved_test = refl

construct-first_test :
    construct 0 (unsupported ∷ good ∷ [])
    ≡ constructed (record { serv_info = good; descriptor = some 5 })
construct-first_test = construct-first (unsupported ∷ []) [] good 5 (refl, tt) refl

construct-none_test :
    construct 0 (unsupported ∷ [])
    ≡ constructed (record { serv_info = unsupported; descriptor = none })
construct-none_test = construct-none 0 unsupported [] (refl, tt)

destroy-construct_example :
    ((s : Socket) × (construct 0 (unsupported ∷ good ∷ []) ≡ constructed s)
      × (s.descriptor ≡ some 5)
      × (destroy s (unsupported ∷ good ∷ []) ≡ unsupported ∷ []))
    × ((s : Socket) × (construct 0 (unsupported ∷ []) ≡ constructed s)
        × (s.descriptor ≡ none)
        × (destroy s (unsupported ∷ []) ≡ []))
destroy-construct_example =
    destroy-construct (unsupported ∷ []) [] [] good unsupported 5 (refl, tt) refl refl
      (omega arith, tt) (refl, tt)
