-- ===== src/Tests/Lifecycle.antt =====
-- Examples for starting to listen and for stopping.
use my_communication.Prelude.{ℕ, ◌≡◌, refl, length, arith, true, false, none, some}
use my_communication.Prelude.Assoc.{lookup, insert}
use my_communication.Resource.{construct, get, block_pointers}
use my_communication.Iocp.State.{
  Iocp, Reply, eop_receive, new_base_data, reset_io_context, get_socket_context, sync_result,
  overlapped_result,
}
use my_communication.Iocp.Connect.{
  add_connect, post_connect_ex, prepare_socket, post_accept_ex, accept_rounds,
}
use my_communication.Iocp.Lifecycle.{
  IocpServer, stop_server, stop_client, listener, start_server_listen, listening_socket,
  bind_listener, post_accepts,
}
use my_communication.Iocp.Steps.{IsIntact, new_base_data-IsIntact, add_connect-IsIntact}
use my_communication.Iocp.Stopping.{IsOpen}
use my_communication.Iocp.Clients.{AllSockets, stop_client_lem}
use my_communication.Iocp.Listening.{Listens}
use my_communication.Iocp.Serving.{IsServing, start_server_listen_lem, stop_server_lem}

abbrev willing : ℕ → Reply
willing _ = record { failed = false; last_error = 0; handle = 7 }

-- The connection 9 on the context 1, open.
abbrev opened : Iocp
opened = record (add_connect 9 (new_base_data willing)).0 {
  receive_context = λ _. record reset_io_context { operate_type = eop_receive };
}

opened-IsIntact : IsIntact opened
opened-IsIntact =
    let before = add_connect-IsIntact 9 (new_base_data willing) (new_base_data-IsIntact willing) in
    record { sound = before.sound; listed = before.listed }

lookup_opened : lookup 9 opened.connect_list ≡ some 1
unfolding new_base_data add_connect get_socket_context construct get block_pointers lookup insert
    sync_result overlapped_result post_connect_ex prepare_socket
lookup_opened = refl

abbrev closed_server : IocpServer
closed_server = record { base = opened; start = false; listen_socket_context = none }

nothing : (l : ℕ) → none ≡ some l → ⊥
nothing l e = cc

closed_server-IsServing : IsServing closed_server
closed_server-IsServing = record { intact = opened-IsIntact; holds = λ l e. absurd (nothing l e) }

start_server_listen_lem_example :
    Listens 2 (listener closed_server) (start_server_listen 2 closed_server)
    × IsServing (start_server_listen 2 closed_server).0
start_server_listen_lem_example = start_server_listen_lem 2 closed_server closed_server-IsServing

abbrev running_server : IocpServer
running_server = record (start_server_listen 2 closed_server).0 { start = true }

running_server-IsServing : IsServing running_server
running_server-IsServing =
    let (_, serving) = start_server_listen_lem_example in
    record { intact = serving.intact; holds = serving.holds }

still_listed : lookup 9 running_server.base.connect_list ≡ some 1
unfolding new_base_data add_connect get_socket_context construct get block_pointers lookup insert
    sync_result overlapped_result post_connect_ex prepare_socket start_server_listen
    listening_socket bind_listener post_accepts post_accept_ex accept_rounds
still_listed = refl

still-IsOpen : IsOpen 1 running_server.base
unfolding new_base_data add_connect get_socket_context construct get block_pointers lookup insert
    sync_result overlapped_result post_connect_ex prepare_socket start_server_listen
    listening_socket bind_listener post_accepts post_accept_ex accept_rounds
still-IsOpen = (refl, refl)

stop_server_lem_example :
    let t = stop_server running_server in
    (t.start ≡ false)
    × (t.listen_socket_context ≡ none)
    × IsServing t
    × ((key p : ℕ)
        → lookup key running_server.base.connect_list ≡ some p
        → IsOpen p running_server.base
        → lookup key t.base.connect_list ≡ none)
stop_server_lem_example = stop_server_lem running_server running_server-IsServing refl

-- It is the only entry, and has a socket.
opened-AllSockets : AllSockets opened.connect_list opened
unfolding new_base_data add_connect get_socket_context construct get block_pointers lookup insert
    sync_result overlapped_result post_connect_ex prepare_socket
opened-AllSockets p there = ground (arith, there)

stop_client_lem_example :
    (t : Iocp) × (stop_client (length opened.connect_list) opened ≡ some t)
    × IsIntact t
    × ((key p : ℕ)
        → lookup key opened.connect_list ≡ some p
        → IsOpen p opened
        → lookup key t.connect_list ≡ none)
stop_client_lem_example = stop_client_lem opened opened-IsIntact opened-AllSockets
