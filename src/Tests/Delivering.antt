-- ===== src/Tests/Delivering.antt =====
-- Examples for messages on their way through the completion port.
use my_communication.Prelude.{ℕ, ◌≡◌, refl, some, inl, List, [], ◌∷◌, ◌++◌, map, concat, arith}
use my_communication.Resource.{construct, get, block_pointers}
use my_communication.Iocp.State.{
  Iocp, overlapped_result, sync_result, new_base_data, get_socket_context,
}
use my_communication.Iocp.Connect.{add_connect, post_connect_ex}
use my_communication.Iocp.Work.{work_thread}
use my_communication.Iocp.Threads.{stop_packet}
use my_communication.Iocp.Receiving.{told}
use my_communication.Iocp.Delivering.{received_packet, IsReceiving, work_thread-delivers}
use my_communication.Wire.Split.{delivery_of}
use my_communication.Wire.Stream.{pack_all}
use my_communication.Tests.Wire.{
  two_messages, two_messages-IsSendable, two_segments, two_segments-frames, two_segments-IsSegment,
}
use my_communication.Tests.Work.{receiving}

receiving-IsReceiving : IsReceiving 1 [] receiving
unfolding overlapped_result add_connect get_socket_context get new_base_data construct
    block_pointers sync_result post_connect_ex
receiving-IsReceiving = record { open_ = refl; receives = refl; keeps = refl; starts = λ i. refl }

work_thread-delivers_example :
    (buffers : List (List ℕ)) × (pack_all two_messages ≡ some buffers)
    × (concat buffers ≡ concat two_segments)
    × (t : Iocp) × (work_thread
          (map (received_packet 1) two_segments ++ stop_packet ∷ stop_packet ∷ [])
          receiving
        ≡ some (t, stop_packet ∷ []))
    × (t.upcalls ≡ told (receiving.context_key 1) (map delivery_of two_messages) receiving)
    × IsReceiving 1 [] t
work_thread-delivers_example =
    work_thread-delivers 1 two_messages two_segments stop_packet (stop_packet ∷ []) receiving
      (omega arith) receiving-IsReceiving two_messages-IsSendable two_segments-IsSegment
      two_segments-frames (inl (refl, refl))
