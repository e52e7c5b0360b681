-- ===== src/Iocp/Disconnect.antt =====
-- IOCPCommunication/source/IOCPBase.cpp: `Disconnect`, `PostDisconnectEx`, `ReCycleSocketRsc` and
-- `HandDisconnect`. The disconnect flag goes from 0 to 1, when the connection is given up, and on
-- to 2 when the second of its pending operations ends. A lock is held for the whole of the part
-- that it guards, so a handler is one step here.
use my_communication.Prelude.{ℕ, not, List, [], ◌∷◌, Option, none, some, ◌==◌, if◌then◌else◌}
use my_communication.Prelude.Assoc.{lookup}
use my_communication.Iocp.State.{
  Iocp, eop_disconnect, delete_user, notify, set_flag, set_queue, set_io, erase_from_connect_list,
  release_socket, get_io, put_io, put_socket_context, count_exit, overlapped_result, next_reply,
  call,
}

-- The loop that empties the send queue of the context `p`.
unfoldable pub recycle_queue : ℕ → List ℕ → Iocp → Iocp
recycle_queue p [] s = s
recycle_queue p (io ∷ rest) s = recycle_queue p rest (set_queue p rest (put_io io s))

recycle_io : Option ℕ → Iocp → Iocp
recycle_io none s = s
recycle_io (some io) s = put_io io s

unfoldable pub recycle_socket_rsc : ℕ → Option ℕ → Iocp → Iocp
unfolding recycle_io
recycle_socket_rsc p io s =
    if s.disconnect_flag p == 0
    then notify (delete_user (s.context_key p))
        (recycle_queue p (s.queue_io_context p) (set_flag p 1 s))
    else if s.disconnect_flag p == 1
    then recycle_io io (set_flag p 2 s)
    else s

-- `IOCPModule::DisconnectEx`, the state after it.
abbrev pub start_disconnect : ℕ → ℕ → Iocp → Iocp
start_disconnect p io s = call (
    set_io io
      (record (s.io_context io) { socket = s.context_socket p; operate_type = eop_disconnect }) s)

-- Direct recycling, where the operation could not be started.
abbrev pub give_back : ℕ → ℕ → Iocp → Iocp
give_back p io s = count_exit (put_io io (put_socket_context p (release_socket p s)))

unfoldable pub post_disconnect_ex : ℕ → ℕ → Iocp → Iocp
unfolding recycle_socket_rsc
post_disconnect_ex p io s =
    let s₁ = recycle_socket_rsc p (some io) s in
    let s₂ = start_disconnect p io (erase_from_connect_list (s₁.context_key p) s₁) in
    if not (s₁.disconnect_flag p == 1)
    then s₁
    else if overlapped_result (next_reply s₁) == 0
    then s₂
    else give_back p io s₂

unfoldable pub disconnect : ℕ → Iocp → Iocp
disconnect key s = elim (lookup key s.connect_list) [
  | none ↦ s
  | some p ↦ post_disconnect_ex p (get_io s).0 (get_io s).1
]

unfoldable pub hand_disconnect : ℕ → ℕ → ℕ → Iocp → Iocp
hand_disconnect result p io s =
    let s₁ = if result == 0 then s else release_socket p s in
    count_exit (put_io io (put_socket_context p s₁))
