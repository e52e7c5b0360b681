-- ===== src/Tests/Work.antt =====
-- Examples for the threads of the completion port.
use my_communication.Prelude.{
  ◌≡◌, refl, true, false, [], ◌∷◌, none, some, All, if◌then◌else◌, ◌==◌, arith,
}
use my_communication.Iocp.State.{Iocp, eop_receive, reset_io_context}
use my_communication.Iocp.Work.{embedded, Packet, ends_thread}
use my_communication.Iocp.Threads.{join_threads, post_stops, handle_all}
use my_communication.Iocp.Joining.{posts, join_threads_lem}
use my_communication.Tests.Iocp.{connecting}

-- Every connection waits for bytes.
abbrev pub receiving : Iocp
receiving = record connecting {
  receive_context = λ _. record reset_io_context { operate_type = eop_receive };
}

-- The wait times out, and then the client of the connection on the context 1 closes it.
abbrev late : Packet
late = record {
  success = false;
  last_error = 258;
  transferred = 0;
  context = 0;
  overlapped = none;
  received = [];
}

abbrev closed : Packet
closed = record {
  success = true;
  last_error = 0;
  transferred = 0;
  context = 1;
  overlapped = some (embedded 1);
  received = [];
}

goes_on : All (λ k. ends_thread k ≡ false) (late ∷ closed ∷ [])
unfolding ends_thread
goes_on = (refl, (refl, tt))

-- Two threads.
join_threads_lem_example : join_threads 2 (late ∷ closed ∷ []) receiving ≡ (
    if posts 2 receiving == 2
    then handle_all (late ∷ closed ∷ []) (post_stops 2 receiving).1
    else none)
join_threads_lem_example = join_threads_lem 2 (late ∷ closed ∷ []) receiving (omega arith) goes_on
