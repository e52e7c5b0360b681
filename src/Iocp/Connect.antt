-- ===== src/Iocp/Connect.antt =====
-- IOCPCommunication/source/IOCPBase.cpp and IOCPClient.cpp: `PostConnectEx`, `HandConnect`,
-- `PostAcceptEx`, `HandAccept` and the client's `AddConnect`.
use my_communication.Prelude.{
  ℕ, zero, suc, ◌+◌, ◌%◌, ◌^◌, Bool, true, false, Option, none, some, ◌==◌, if◌then◌else◌,
}
use my_communication.Prelude.Assoc.{lookup}
use my_communication.Wire.{max_rcv_buf_len}
use my_communication.Iocp.State.{
  Iocp, reset_io_context, eop_connect, eop_accept, connect_notify, add_user, notify, update,
  set_flag, set_receive, add_to_connect_list, erase_from_connect_list, release_socket,
  get_socket_context, put_socket_context, overlapped_result, sync_result, next_reply, call,
}
use my_communication.Iocp.Receive.{post_receive}

abbrev pub set_socket : ℕ → Option ℕ → Iocp → Iocp
set_socket p v s = record s { context_socket = update s.context_socket p v }

-- `PER_SOCKET_CONTEXT::Reset` and the key that is set next. The client address, which the code
-- writes and never reads, is left out.
abbrev pub reset_context : ℕ → ℕ → Iocp → Iocp
reset_context p key s = record (set_receive p reset_io_context (set_flag p 0 s)) {
  context_key = update s.context_key p key;
}

-- The receive is offered the whole buffer.
abbrev pub offer_buffer : ℕ → Iocp → Iocp
offer_buffer p s = set_receive p (record (s.receive_context p) { wsa_buf_len = max_rcv_buf_len }) s

-- `IOCPModule::ConnectEx`, the state after it.
abbrev pub start_connect : ℕ → Iocp → Iocp
start_connect p s = call (
    set_receive p
      (record (s.receive_context p) { socket = s.context_socket p; operate_type = eop_connect }) s)

unfoldable pub post_connect_ex : ℕ → Iocp → Iocp × Bool
post_connect_ex p s =
    let s₁ = add_to_connect_list (s.context_key p) p s in
    let s₂ = start_connect p s₁ in
    if overlapped_result (next_reply s₁) == 0 then (s₂, true) else (
      put_socket_context p (release_socket p (erase_from_connect_list (s.context_key p) s₂)),
      false,
    )

unfoldable pub hand_connect : ℕ → ℕ → Iocp → Iocp
hand_connect result p s =
    if result == 0
    then post_receive p (offer_buffer p (notify (connect_notify (s.context_key p) true) s))
    else put_socket_context p (
        erase_from_connect_list (s.context_key p)
          (notify (connect_notify (s.context_key p) false) s))

-- How the five rounds of `PostAcceptEx` end: with `AcceptEx` started, with no socket to be had (the
-- early `return false`), or with every round failed.
pub data Accepting : Type 0 where
  posted no_socket failed : Accepting

-- `IOCPModule::AcceptEx`, the state after it.
abbrev pub start_accept : ℕ → Iocp → Iocp
start_accept p s = call (
    set_receive p
      (record (s.receive_context p) { socket = s.context_socket p; operate_type = eop_accept }) s)

-- `Socket()` and `BindIoCompletionPort`, whose result is not looked at.
abbrev pub open_socket : ℕ → Iocp → Iocp
open_socket p s = set_socket p (some (next_reply s).handle) (call (call s))

abbrev pub is_invalid : Option ℕ → Bool
is_invalid none = true
is_invalid (some _) = false

unfoldable pub accept_rounds : ℕ → ℕ → Iocp → Iocp × Accepting
accept_rounds zero p s = (s, failed)
accept_rounds (suc n) p s =
    let fresh = is_invalid (s.context_socket p) in
    let s₁ = if fresh then open_socket p s else s in
    let again = accept_rounds n p (release_socket p (start_accept p s₁)) in
    if fresh
    then (if (next_reply s).handle == 0
        then (call s, no_socket)
        else if overlapped_result (next_reply s₁) == 0
        then (start_accept p s₁, posted)
        else again)
    else if overlapped_result (next_reply s₁) == 0
    then (start_accept p s₁, posted)
    else again

-- Where no socket is to be had the code returns without erasing the entry that it has made.
abbrev pub after_rounds : ℕ → ℕ → Iocp × Accepting → Iocp × Bool
after_rounds p key (s, posted) = (s, true)
after_rounds p key (s, no_socket) = (s, false)
after_rounds p key (s, failed) = (put_socket_context p (erase_from_connect_list key s), false)

-- `uUserNum++` on an atomic unsigned; the receive context gets the key too.
abbrev pub enlist : ℕ → ℕ → Iocp → Iocp
enlist p key s = add_to_connect_list key p (
    set_receive p (record reset_io_context { user_key = key })
      (reset_context p key (record s { user_num = (s.user_num + 1) % 2 ^ 32 })))

unfoldable pub post_accept_ex : Option ℕ → Iocp → Iocp × Bool
post_accept_ex none s = (s, false)
post_accept_ex (some listen_socket) s =
    let (p, s₁) = get_socket_context s in
    after_rounds p s.user_num (accept_rounds 5 p (enlist p s.user_num s₁))

unfoldable pub hand_accept : ℕ → ℕ → ℕ → Iocp → Iocp
hand_accept result listen_context io_key s = elim (lookup io_key s.connect_list) [
  | none ↦ s
  | some p ↦
      let s₁ = post_receive p (offer_buffer p (notify (add_user (s.context_key p)) s)) in
      if result == 0
      then (post_accept_ex (s₁.context_socket listen_context) s₁).0
      else put_socket_context p (erase_from_connect_list (s.context_key p) s)
]

-- `IOCPClient::AddConnect`. A fresh socket is created, bound to the port, and bound to an address,
-- the result of which is not looked at; parsing the address does not change the state.
unfoldable pub prepare_socket : ℕ → Iocp → Iocp × Bool
prepare_socket p s =
    if is_invalid (s.context_socket p)
    then (if (next_reply s).handle == 0
        then (call s, false)
        else if sync_result (next_reply (call s)) == 0
        then (call (open_socket p s), true)
        else (open_socket p s, false))
    else (s, true)

unfoldable pub add_connect : ℕ → Iocp → Iocp × Bool
unfolding prepare_socket
add_connect key s =
    let (p, s₁) = get_socket_context s in
    let (s₂, ready) = prepare_socket p (reset_context p key s₁) in
    if ready then post_connect_ex p s₂ else (put_socket_context p (release_socket p s₂), false)
