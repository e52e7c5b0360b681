-- ===== src/Tests/ServerConnect.antt =====
-- Examples for the client's table of servers.
use my_communication.Prelude.{true, false, [], ◌∷◌}
use my_communication.Prelude.Assoc.{Assoc}
use my_communication.Iocp.State.{Iocp, new_base_data}
use my_communication.Iocp.Steps.{IsIntact, new_base_data-IsIntact}
use my_communication.ServerConnect.{ServerInfo}

-- A server with the default `iRecnnt`, which is -1.
abbrev a_server : ServerInfo
a_server = record { user_key = 1; ip = []; port = 6666; recnnt = 4294967295; need_connect = false }

abbrev servers : Assoc ServerInfo
servers = (1, a_server) ∷ (2, record a_server { user_key = 2; need_connect = true }) ∷ []

abbrev start : Iocp
start = new_base_data (λ _. record { failed = false; last_error = 0; handle = 7 })

start-IsIntact : IsIntact start
start-IsIntact = new_base_data-IsIntact (λ _. record { failed = false; last_error = 0; handle = 7 })
