-- ===== src/Tests/Server.antt =====
-- Examples for the server as a whole.
use my_communication.Prelude.{false, ℕ, ◌≡◌, refl, sym, ◌∙◌, true, List, [], ◌∷◌, ◌++◌, none, some}
use my_communication.Prelude.Assoc.{lookup, insert, erase}
use my_communication.Resource.{construct, block_pointers, get}
use my_communication.Wire.Split.{Message}
use my_communication.Iocp.State
use my_communication.Iocp.State.{
  Iocp, get_socket_context, sync_result, new_base_data, overlapped_result,
}
use my_communication.Iocp.Receive.{post_receive}
use my_communication.Iocp.Connect.{accept_rounds, post_accept_ex, hand_accept}
use my_communication.Iocp.Steps.{IsIntact, calls_post_accept, completes_accept}
use my_communication.Users.{UserInfoManage, new_user_info_manage, take_user, add_user}
use my_communication.Users.Tables.{
  IsUserTable, new_user_info_manage-IsUserTable, add_user-IsUserTable,
}
use my_communication.Messages.{
  Handler, PbMessageHandle, register_handlers, register_message_function, login_rq_type,
  new_pb_message_handle,
}
use my_communication.Messages.Queue.{IsQueue}
use my_communication.Server.{heartbeat_round, timed_out, Server, settle}
use my_communication.Server.Kept.{register_handlers-AllKeep}
use my_communication.Server.Whole.{IsWhole, connections, Reach, here, next, Follows, Reach-Follows}
use my_communication.Server.Kept.{known}
use my_communication.Server.Silence.{heartbeat_round_lem}
use my_communication.Tests.Iocp.{
  start, start-IsIntact, connecting, connecting-IsIntact, connecting_listed,
}
use my_communication.Tests.Messages.{parser, serialize, no_users, running, running-IsQueue}

abbrev messages : PbMessageHandle
messages = register_handlers serialize running

abbrev empty : Server
empty = record {
  iocp = start;
  site = record { linked = true; users = no_users; messages = messages };
}

messages-IsQueue : IsQueue messages
unfolding register_handlers register_message_function
messages-IsQueue = record {
  valid = running-IsQueue.valid;
  unlimited = running-IsQueue.unlimited;
  live = running-IsQueue.live;
  once = running-IsQueue.once;
}

no_handlers : (msg_type : ℕ) → lookup msg_type running.map_msg_handle ≡ none
unfolding new_pb_message_handle lookup
no_handlers msg_type = refl

no_users-IsUserTable : IsUserTable no_users
no_users-IsUserTable = new_user_info_manage-IsUserTable _

nothing : (handle : Handler) → none ≡ some handle → ⊥
nothing handle e = cc

empty-IsWhole : IsWhole empty
empty-IsWhole = record {
  intact = start-IsIntact;
  site = record {
    linked = refl;
    table = no_users-IsUserTable;
    queue = messages-IsQueue;
    handlers =
        register_handlers-AllKeep serialize running
          (λ msg_type handle e. absurd (nothing handle (sym (no_handlers msg_type) ∙ e)));
  };
}

-- An accept is posted, and a client comes.
abbrev posted : Iocp
posted = (post_accept_ex (some 7) start).0

abbrev listening : Server
listening = settle parser (record empty { iocp = posted })

abbrev accepted : Iocp
accepted = hand_accept 0 9 100 listening.iocp

abbrev visited : Server
visited = settle parser (record listening { iocp = accepted })

Reach-visited : Reach parser empty (([] ++ posted.upcalls) ++ accepted.upcalls) visited
Reach-visited =
    next (next here (connections posted (calls_post_accept (some 7) start)))
      (connections accepted (completes_accept 0 9 100 listening.iocp))

Reach-Follows_example : Follows empty (([] ++ posted.upcalls) ++ accepted.upcalls) visited
Reach-Follows_example =
    Reach-Follows parser empty (([] ++ posted.upcalls) ++ accepted.upcalls) visited empty-IsWhole
      Reach-visited

-- The client's key is 100, and the server gets to know him.
accepted_calls : accepted.upcalls ≡ State.add_user 100 ∷ []
unfolding hand_accept post_accept_ex settle new_base_data get_socket_context construct get
    block_pointers lookup insert erase accept_rounds sync_result overlapped_result post_receive
accepted_calls = refl

-- A connection under the key 100, with its calls carried out.
abbrev ready : Iocp
ready = record connecting { upcalls = [] }

ready-IsIntact : IsIntact ready
ready-IsIntact = record { sound = connecting-IsIntact.sound; listed = connecting-IsIntact.listed }

-- Its user is known.
abbrev connected : Server
connected = record { iocp = ready; site = record (empty.site) { users = add_user 100 no_users } }

abbrev login_message : Message
login_message = record { msg_type = login_rq_type; body = 42 ∷ [] }

abbrev behind_first : List ℕ
behind_first = 252 ∷ 251 ∷ 250 ∷ 17 ∷ 39 ∷ 0 ∷ 0 ∷ 1 ∷ 0 ∷ 0 ∷ 0 ∷ 42 ∷ []

-- The same with a user who has been silent for eleven beats.
abbrev silent_users : UserInfoManage
silent_users = record (add_user 100 no_users) {
  users = λ p. record ((add_user 100 no_users).users p) { heart_count = 11 };
}

abbrev silent : Server
silent = record { iocp = ready; site = record (empty.site) { users = silent_users } }

silent_users-IsUserTable : IsUserTable silent_users
silent_users-IsUserTable =
    let table = add_user-IsUserTable 100 no_users no_users-IsUserTable in
    record {
      valid = table.valid;
      unlimited = table.unlimited;
      live = table.live;
      named = table.named;
      single = table.single;
    }

silent-IsWhole : IsWhole silent
silent-IsWhole = record {
  intact = ready-IsIntact;
  site = record {
    linked = refl;
    table = silent_users-IsUserTable;
    queue = messages-IsQueue;
    handlers = empty-IsWhole.site.handlers;
  };
}

silent_user_there : lookup 100 silent.site.users.map_user_list ≡ some 1
unfolding add_user take_user new_user_info_manage construct get block_pointers lookup insert
silent_user_there = refl

-- This round's beat is the twelfth.
heartbeat_round_lem_example :
    (t : Server) × (heartbeat_round timed_out silent ≡ some t)
    × IsWhole (settle parser t)
    × (known (settle parser t).site.users 100 ≡ false)
heartbeat_round_lem_example =
    heartbeat_round_lem parser 100 1 1 silent silent-IsWhole refl connecting_listed
      silent_user_there
