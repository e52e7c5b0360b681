-- ===== src/Iocp/Threads.antt =====
-- The threads of the completion port: `InitIOCP` and `UninitIOCP` of
-- IOCPCommunication/source/IOCPBase.cpp, and `StartServer` and `StopServer` of IOCPServer.cpp.
-- A packet is taken by any thread that runs; the threads do the same, so only their number counts.
use my_communication.Prelude.{
  ℕ, zero, suc, ◌+◌, ◌*◌, ◌%◌, ◌^◌, Bool, true, false, not, ◌&&◌, List, [], ◌∷◌, ◌++◌, Option, none,
  some, ◌==◌, ltb, if◌then◌else◌, ◌>>=◌,
}
use my_communication.Iocp.State.{Iocp, next_reply, call}
use my_communication.Iocp.Work.{Packet, ends_thread, handle_packet}
use my_communication.Iocp.Lifecycle.{IocpServer, start_server_listen, stop_server}

-- What `PostQueuedCompletionStatus(port, 0, NULL, NULL)` puts into the queue.
abbrev pub stop_packet : Packet
stop_packet = record {
  success = true;
  last_error = 0;
  transferred = 0;
  context = 0;
  overlapped = none;
  received = [];
}

-- `GetQueuedCompletionStatus` hands the packets on in the order in which they came. The loop that posts a packet for each thread; a call that fails is only reported.
unfoldable pub post_stops : ℕ → Iocp → List Packet × Iocp
post_stops zero s = ([], s)
post_stops (suc n) s =
    let (rest, t) = post_stops n (call s) in
    (if (next_reply s).failed then rest else stop_packet ∷ rest, t)

-- `n` threads and the packets of the port: how many threads are left, and the state. A thread without
-- a packet waits.
unfoldable pub serve : ℕ → List Packet → Iocp → Option (ℕ × Iocp)
serve zero ks s = some (zero, s)
serve (suc n) [] s = some (suc n, s)
serve (suc n) (k ∷ ks) s =
    let ended = serve n ks s in
    let goes_on = handle_packet k s >>= (λ t. serve (suc n) ks t) in
    if ends_thread k then ended else goes_on

abbrev pub all_ended : ℕ × Iocp → Option Iocp
all_ended (left, s) = if left == 0 then some s else none

-- Posting the packets and joining the threads, with the packets that are there before; `none` where
-- a thread does not end, or a handler does not return.
unfoldable pub join_threads : ℕ → List Packet → Iocp → Option Iocp
join_threads n pending s =
    let (stops, t) = post_stops n s in serve n (pending ++ stops) t >>= (λ r. all_ended r)

-- `IOCPServer` with its port and its threads.
pub record Service : Type 0 where
  pub server : IocpServer
  pub has_port : Bool
  pub thread_count : ℕ

abbrev pub set_base : Iocp → IocpServer → IocpServer
set_base s d = record d { base = s }

-- `InitIOCP`, where the machine has so many processors.
unfoldable pub init_iocp : ℕ → ℕ → Service → Service × Bool
init_iocp processors n v =
    let d = set_base (call v.server.base) v.server in
    if (next_reply v.server.base).handle == 0
    then (record v { server = d; has_port = false }, false)
    else (
      record {
        server = d;
        has_port = true;
        thread_count = if n == 0 then (processors * 2 + 1) % 2 ^ 32 else n;
      },
      true,
    )

-- `UninitIOCP`
unfoldable pub uninit_iocp : List Packet → Service → Option Service
uninit_iocp pending v = do
  s ← join_threads v.thread_count pending v.server.base
  some (record v { server = set_base s v.server; has_port = false })

-- `StartServer`. Where listening fails, the threads are ended as in `UninitIOCP`.
unfoldable pub start_server : ℕ → ℕ → ℕ → List Packet → Service → Option (Service × Bool)
start_server processors threads accepts pending v =
    let (w, ready) = init_iocp processors threads v in
    let (d, listens) = start_server_listen accepts w.server in
    if not ready
    then some (w, false)
    else if not listens
    then (uninit_iocp pending (record w { server = d }) >>= (λ u. some (u, false)))
    else some (record w { server = record d { start = true } }, true)

-- Whether more than five connections are still to come back, of a count that is a signed 32-bit number.
abbrev pub exits_pending : Iocp → Bool
exits_pending s = ltb 5 s.exit_user_count && ltb s.exit_user_count 2147483648

unfoldable pub handle_all : List Packet → Iocp → Option Iocp
handle_all [] s = some s
handle_all (k ∷ ks) s = handle_packet k s >>= (λ t. handle_all ks t)

-- The loop of `Sleep(500)` in `StopServer`, with the packets that the threads handle meanwhile.
unfoldable pub wait_exits : ℕ → (ℕ → List Packet) → Iocp → Option Iocp
wait_exits zero meanwhile s = some s
wait_exits (suc left) meanwhile s =
    let again = handle_all (meanwhile left) s >>= (λ t. wait_exits left meanwhile t) in
    if exits_pending s then again else some s

-- `StopServer` as a whole.
unfoldable pub stop_service : (ℕ → List Packet) → List Packet → Service → Option Service
stop_service meanwhile pending v = if not v.server.start then some v else do
  let d = stop_server v.server
  s ← wait_exits 50 meanwhile d.base
  uninit_iocp pending (record v { server = set_base s d })
