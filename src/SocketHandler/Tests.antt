-- ===== src/SocketHandler/Tests.antt =====
-- The table of sockets on concrete tables.
use socket_lib_linux.Prelude.{ℕ, ◌≡◌, refl, true, [], ◌∷◌, none, some, arith}
use socket_lib_linux.UnorderedMap.{find, Below}
use socket_lib_linux.SocketHandler.{
  server, client, Entry, Handler, made, init, create_server_socket, create_client_socket,
  destroy_socket,
}
use socket_lib_linux.SocketHandler.Ids.{
  create_server_socket-fresh, create_after_client, create_after_destroy,
}

abbrev first : Entry
first = record { kind = server; id = 0; port = 80 }

abbrev second : Entry
second = record { kind = server; id = 1; port = 81 }

abbrev one_socket : Handler
one_socket = record { active = true; next_id = 1; sockets = (0, first) ∷ [] }

abbrev two_sockets : Handler
two_sockets = record { active = true; next_id = 2; sockets = (0, first) ∷ (1, second) ∷ [] }

create_test : create_server_socket true 80 init ≡ made first one_socket
unfolding create_server_socket
create_test = refl

destroy_test :
    destroy_socket 0 two_sockets ≡ record { active = true; next_id = 0; sockets = (1, second) ∷ [] }
unfolding destroy_socket
destroy_test = refl

create_server_socket-fresh_example :
    (create_server_socket true 81 one_socket ≡ made second two_sockets)
    × (find 1 one_socket.sockets ≡ none)
    × (find 0 two_sockets.sockets ≡ some first)
    × (◌≡◌ {A = ℕ} 2 2)
    × Below 2 two_sockets.sockets
unfolding create_server_socket find
create_server_socket-fresh_example =
    create_server_socket-fresh 81 0 one_socket refl (omega arith, tt) (omega arith)

abbrev second_client : Entry
second_client = record { kind = client; id = 1; port = 443 }

abbrev with_client : Handler
with_client = record { active = true; next_id = 1; sockets = (0, first) ∷ (1, second_client) ∷ [] }

create_after_client_example :
    (create_client_socket true 443 one_socket ≡ made second_client with_client)
    × (◌≡◌ {A = ℕ} 1 1)
    × (create_client_socket true 8080 with_client
        ≡ made second_client (record with_client { next_id = 2 }))
    × (create_server_socket true 8080 with_client
        ≡ made second_client (record with_client { next_id = 2 }))
unfolding create_client_socket
create_after_client_example =
    create_after_client 443 8080 one_socket refl (omega arith, tt) refl (omega arith)

abbrev third : Entry
third = record { kind = server; id = 0; port = 82 }

abbrev recreated : Handler
recreated = record { active = true; next_id = 1; sockets = (1, second) ∷ (0, third) ∷ [] }

create_after_destroy_test :
    (create_server_socket true 82 (destroy_socket 0 two_sockets) ≡ made third recreated)
    × (create_server_socket true 83 recreated ≡ made second (record recreated { next_id = 2 }))
unfolding create_server_socket destroy_socket
create_after_destroy_test =
    create_after_destroy 0 82 83 first second two_sockets refl (refl, (refl, tt)) refl refl
      (omega arith)
