-- ===== src/Iocp/Joining.antt =====
-- About the threads of the completion port: `UninitIOCP` of IOCPCommunication/source/IOCPBase.cpp and
-- `StopServer` of IOCPServer.cpp.
use my_communication.Prelude.{
  ℕ, zero, suc, ◌-◌, ◌≤◌, ◌≡◌, refl, sym, ap, ◌∙◌, inl, inr, true, false, not, List, [], ◌∷◌, ◌++◌,
  Option, none, some, ◌==◌, if◌then◌else◌, ◌>>=◌, All, arith, Bool-cases, fun_ext,
}
use my_communication.Iocp.State.{Iocp, next_reply, call}
use my_communication.Iocp.Work.{Packet, ends_thread, handle_packet}
use my_communication.Iocp.Lifecycle.{stop_server}
use my_communication.Iocp.Threads.{
  stop_packet, post_stops, serve, all_ended, join_threads, Service, set_base, uninit_iocp,
  wait_exits, stop_service, handle_all,
}

-- How many of `n` calls of `PostQueuedCompletionStatus` succeed.
abbrev pub posts : ℕ → Iocp → ℕ
posts zero s = 0
posts (suc n) s = let rest = posts n (call s) in if (next_reply s).failed then rest else suc rest

-- So many packets for the end.
stops : ℕ → List Packet
stops zero = []
stops (suc n) = stop_packet ∷ stops n

posts-le : (n : ℕ) (s : Iocp) → posts n s ≤ n
posts-le zero s = omega arith
posts-le (suc n) s = ground (arith, posts-le n (call s))

post_stops_lem : (n : ℕ) (s : Iocp) → (post_stops n s).0 ≡ stops (posts n s)
unfolding post_stops stops
post_stops_lem zero s = refl
post_stops_lem (suc n) s = elim (Bool-cases (next_reply s).failed) [
  | inl refused ↦ rw refused (post_stops_lem n (call s))
  | inr posted ↦ rw posted (ap (λ ks. stop_packet ∷ ks) (post_stops_lem n (call s)))
]

serve-stops : (n m : ℕ) (s : Iocp) → m ≤ n → serve n (stops m) s ≡ some (n - m, s)
unfolding serve stops ends_thread
serve-stops zero zero s h = refl
serve-stops zero (suc m) s h = absurd (omega arith)
serve-stops (suc n) zero s h =
    let none_taken : suc n ≡ suc n - 0 = omega arith in ap (λ k. some (k, s)) none_taken
serve-stops (suc n) (suc m) s h =
    let fewer : n - m ≡ suc n - suc m = omega arith in
    serve-stops n m s (omega arith) ∙ ap (λ k. some (k, s)) fewer

bind_assoc :
    (o : Option Iocp) (f : Iocp → Option Iocp) (g : Iocp → Option (ℕ × Iocp))
    → ((o >>= f) >>= g) ≡ (o >>= (λ t. f t >>= g))
bind_assoc none f g = refl
bind_assoc (some t) f g = refl

-- The packets before those are handled, whatever threads take them.
serve-run :
    (n m : ℕ) (ks : List Packet) (s : Iocp)
    → m ≤ suc n
    → All (λ k. ends_thread k ≡ false) ks
    → serve (suc n) (ks ++ stops m) s ≡ (handle_all ks s >>= (λ t. some (suc n - m, t)))
unfolding serve handle_all
serve-run n m [] s h more = serve-stops (suc n) m s h
serve-run n m (k ∷ ks) s h (goes_on, more) =
    let step : serve (suc n) (k ∷ ks ++ stops m) s
        ≡ (handle_packet k s >>= (λ t. serve (suc n) (ks ++ stops m) t)) =
      rw goes_on refl in
    step
    ∙ ap (λ f. handle_packet k s >>= f) (fun_ext (λ t. serve-run n m ks t h more))
    ∙ sym (bind_assoc (handle_packet k s) (λ t. handle_all ks t) (λ t. some (suc n - m, t)))

joined :
    (o : Option Iocp) (left : ℕ)
    → ((o >>= (λ t. some (left, t))) >>= (λ r. all_ended r)) ≡ (if left == 0 then o else none)
joined none left = elim (Bool-cases (left == 0)) [ inl e ↦ rw e refl | inr e ↦ rw e refl ]
joined (some t) left = refl

enough : (n m : ℕ) → m ≤ n → (n - m == 0) ≡ (m == n)
enough n m h = ground arith

-- With the packets that are in the port before its own, none of which ends a thread, `UninitIOCP`
-- handles those packets and joins its threads where each call of `PostQueuedCompletionStatus`
-- succeeds; where one of them fails, a thread stays and the call does not return.
pub join_threads_lem :
    (n : ℕ) (pending : List Packet) (s : Iocp)
    → 1 ≤ n
    → All (λ k. ends_thread k ≡ false) pending
    → join_threads n pending s
      ≡ (if posts n s == n then handle_all pending (post_stops n s).1 else none)
unfolding join_threads
join_threads_lem zero pending s h more = absurd (omega arith)
join_threads_lem (suc n) pending s h more =
    let t = (post_stops (suc n) s).1 in
    let m = posts (suc n) s in
    ap (λ ks. serve (suc n) (pending ++ ks) t >>= (λ r. all_ended r)) (post_stops_lem (suc n) s)
    ∙ ap (λ o. o >>= (λ r. all_ended r)) (serve-run n m pending t (posts-le (suc n) s) more)
    ∙ joined (handle_all pending t) (suc n - m)
    ∙ ap (λ b. if b then handle_all pending t else none) (enough (suc n) m (posts-le (suc n) s))

-- On a server that has been started with a thread or more, where the packets handled meanwhile lead to
-- a state and those left end no thread, `StopServer` closes the connections, waits, and then does as
-- `UninitIOCP`: it returns without a port if each thread gets its packet, and else not.
pub stop_service_lem :
    (meanwhile : ℕ → List Packet) (pending : List Packet) (v : Service) (t : Iocp)
    → v.server.start ≡ true
    → 1 ≤ v.thread_count
    → All (λ k. ends_thread k ≡ false) pending
    → wait_exits 50 meanwhile (stop_server v.server).base ≡ some t
    → stop_service meanwhile pending v ≡ (
        (if posts v.thread_count t == v.thread_count
          then handle_all pending (post_stops v.thread_count t).1
          else none)
        >>= (λ s. some (record v {
          server = set_base s (set_base t (stop_server v.server));
          has_port = false;
        })))
unfolding stop_service uninit_iocp
stop_service_lem meanwhile pending v t started some_thread more waited =
    let n = v.thread_count in
    let d = stop_server v.server in
    let finish : Iocp → Option Service =
      λ s. some (record v { server = set_base s (set_base t d); has_port = false }) in
    let leaves : Iocp → Option Service = λ r.
      join_threads n pending r
      >>= (λ s. some (record v { server = set_base s (set_base r d); has_port = false })) in
    ap (λ b. if not b then some v else ((wait_exits 50 meanwhile d.base) >>= leaves)) started
    ∙ ap (λ o. o >>= leaves) waited
    ∙ ap (λ o. o >>= finish) (join_threads_lem n pending t some_thread more)
