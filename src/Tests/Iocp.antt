-- ===== src/Tests/Iocp.antt =====
-- Examples for the completion port layer.
use my_communication.Prelude.{
  ℕ, ◌+◌, ◌≤◌, ◌<◌, ◌≡◌, ◌≢◌, refl, sym, subst, ◌⊎◌, inl, inr, true, false, [], ◌∷◌, ◌++◌, some,
  arith,
}
use my_communication.Wire.{waits, closed_by_peer, unpack_buffer, max_rcv_buf_len}
use my_communication.Wire.Pack.{frame}
use my_communication.Iocp.State.{
  Iocp, Reply, eop_receive, set_flag, put_io, new_base_data, get_io, get_socket_context,
  overlapped_result, sync_result, next_reply,
}
use my_communication.Prelude.Assoc.{lookup, insert}
use my_communication.Resource.{construct, get, block_pointers}
use my_communication.Iocp.Disconnect.{post_disconnect_ex, disconnect}
use my_communication.Iocp.Send.{pack_send_data}
use my_communication.Iocp.Receive.{hand_receive}
use my_communication.Iocp.Connect.{post_accept_ex, add_connect, post_connect_ex, prepare_socket}
use my_communication.Iocp.Ownership.{get_io-GetsIo}
use my_communication.Iocp.Closing.{IsSound, IsHeld}
use my_communication.Iocp.Closed.{IsClosed, post_disconnect_ex_lem}
use my_communication.Iocp.Sending.{queued, pack_send_data-queued}
use my_communication.Iocp.Receiving.{told, hand_receive-delivers, hand_receive-closes}
use my_communication.Iocp.Accepting.{IsAccepting, IsRefused, post_accept_ex_lem}
use my_communication.Iocp.Steps.{
  IsIntact, calls_add_connect, add_connect-IsIntact, calls_disconnect, Reach, here, step,
  new_base_data-IsIntact, Reach-IsIntact,
}
use my_communication.Tests.Wire.{a_packet, a_delivery, unpack_a_packet}

-- An operating system whose every call succeeds.
abbrev willing : ℕ → Reply
willing _ = record { failed = false; last_error = 0; handle = 7 }

abbrev pub start : Iocp
start = new_base_data willing

pub start-IsIntact : IsIntact start
start-IsIntact = new_base_data-IsIntact willing

pub start-IsSound : IsSound start
start-IsSound = start-IsIntact.sound

-- The state in which a handler holds its IO context.
abbrev busy : Iocp
busy = (get_io start).1

abbrev held_io : ℕ
held_io = (get_io start).0

busy-IsSound : IsSound busy
busy-IsSound =
    let (t, run, fine, _, _) = get_io-GetsIo start start-IsSound in subst IsSound (sym run) fine

busy-IsHeld : IsHeld busy held_io
busy-IsHeld =
    let (t, run, _, held, _) = get_io-GetsIo start start-IsSound in
    subst (λ s. IsHeld s held_io) (sym run) held

post_disconnect_ex_lem_example :
    ((busy.disconnect_flag 4 ≡ 0) × IsClosed 4 busy (post_disconnect_ex 4 held_io busy))
    ⊎ ((busy.disconnect_flag 4 ≡ 1)
        × (post_disconnect_ex 4 held_io busy ≡ put_io held_io (set_flag 4 2 busy)))
    ⊎ ((2 ≤ busy.disconnect_flag 4)
        × (post_disconnect_ex 4 held_io busy ≡ busy)
        × IsHeld (post_disconnect_ex 4 held_io busy) held_io)
post_disconnect_ex_lem_example = post_disconnect_ex_lem 4 held_io busy busy-IsSound busy-IsHeld

-- A connection to a server is started, and then given up.
abbrev pub connecting : Iocp
connecting = (add_connect 100 start).0

pub connecting-IsIntact : IsIntact connecting
connecting-IsIntact = add_connect-IsIntact 100 start start-IsIntact

pub connecting_listed : lookup 100 connecting.connect_list ≡ some 1
unfolding new_base_data add_connect get_socket_context construct get block_pointers lookup insert
    sync_result overlapped_result post_connect_ex prepare_socket
connecting_listed = refl

abbrev given_up : Iocp
given_up = disconnect 100 connecting

Reach-given_up : Reach (new_base_data willing) given_up
Reach-given_up =
    step connecting given_up (step start connecting here (calls_add_connect 100 start))
      (calls_disconnect 100 connecting)

Reach-IsIntact_example : IsIntact given_up
Reach-IsIntact_example = Reach-IsIntact willing given_up Reach-given_up

-- The connection on the context 4 is open.
pub flag_open : start.disconnect_flag 4 ≡ 0
unfolding new_base_data
flag_open = refl

pub reply_open : overlapped_result (next_reply start) ≡ 0
unfolding new_base_data overlapped_result
reply_open = refl

unpack_kept :
    unpack_buffer ((start.receive_context 4).bytes ++ a_packet)
    ≡ some (waits (a_delivery ∷ []) (253 ∷ []))
unfolding new_base_data
unpack_kept = unpack_a_packet

hand_receive-delivers_example :
    (t : Iocp) × (hand_receive 0 4 a_packet start ≡ some t)
    × (t.upcalls ≡ told (start.context_key 4) (a_delivery ∷ []) start)
    × ((t.receive_context 4).bytes ≡ 253 ∷ [])
    × ((t.receive_context 4).wsa_buf_len + 1 ≡ max_rcv_buf_len)
    × (0 < (t.receive_context 4).wsa_buf_len)
    × ((t.receive_context 4).operate_type ≡ eop_receive)
hand_receive-delivers_example =
    hand_receive-delivers 4 253 (252 ∷ 251 ∷ 250 ∷ 3 ∷ 0 ∷ 0 ∷ 0 ∷ 2 ∷ 0 ∷ 0 ∷ 0 ∷ 7 ∷ 8 ∷ 253 ∷ [])
      (253 ∷ []) (a_delivery ∷ []) start flag_open reply_open unpack_kept

hand_receive-closes_example :
    (t : Iocp) × (hand_receive 0 4 [] start ≡ some t)
    × IsClosed 4 (record start { upcalls = told (start.context_key 4) [] start }) t
hand_receive-closes_example =
    hand_receive-closes 0 4 [] [] closed_by_peer start start-IsSound flag_open
      (inl (inr refl, refl))

pack_send_data-queued_example :
    (t : Iocp) × (pack_send_data 4 3 (7 ∷ 8 ∷ []) start ≡ some t)
    × IsSound t
    × ((start.disconnect_flag 4 ≡ 1) × (t ≡ start)
        ⊎ (start.disconnect_flag 4 ≢ 1) × (queued t 4 ≡ queued start 4 ++ frame 3 (7 ∷ 8 ∷ [])))
pack_send_data-queued_example =
    pack_send_data-queued 4 3 (7 ∷ 8 ∷ []) start start-IsSound (omega arith)

-- Two buffers wait on the context 4.
abbrev waiting : Iocp
waiting = record start { queue_io_context = λ _. 2 ∷ 3 ∷ [] }

reply_waiting : overlapped_result (next_reply waiting) ≡ 0
unfolding new_base_data overlapped_result
reply_waiting = refl

post_accept_ex_lem_example :
    let (t, ok) = post_accept_ex (some 7) start in
    let p = (get_socket_context start).0 in
    ((ok ≡ true) × IsAccepting p start.user_num t) ⊎ ((ok ≡ false) × IsRefused p start.user_num t)
post_accept_ex_lem_example = post_accept_ex_lem 7 start
