-- ===== src/Messages/Waking.antt =====
-- About the threads of PbMessageHandle.cpp: whether they take the messages, and whether they end.
use my_communication.Prelude.{
  ℕ, suc, ◌+◌, ◌-◌, ◌≤◌, ◌<◌, ◌≡◌, ◌≢◌, refl, subst, ◌⊎◌, Bool, true, false, ◌==◌, if◌then◌else◌,
  arith, dec_lt, zero,
}
use my_communication.Messages.Threads.{
  serving, cleared, joining, Workers, new_workers, test_list, push_message, Move, takes_lock,
  leaves_loop, falls_asleep, takes_lock_again, wakes, begins_to_add, adds_message, clears_start,
  notifies_all, Moves, here, then_,
}

-- No message waits behind sleeping threads only; what holds the lock for its test has found the list
-- empty; and threads end only after `Uninitialize`.
pub record IsWatched (n : ℕ) (w : Workers) : Type 0 where
  pub pos : 1 ≤ n
  pub total : w.running + w.testing + w.asleep + w.woken + w.ended ≡ n
  pub one : w.testing ≤ 1
  pub empty : 1 ≤ w.testing → w.messages ≡ 0
  pub watched : w.start ≡ true → 1 ≤ w.messages → 1 ≤ w.running + w.woken
  pub open_ : w.start ≡ true → (w.ended ≡ 0) × (w.closing ≡ serving)
  pub closed : w.start ≡ false → w.closing ≢ serving

Move-IsWatched :
    (n : ℕ) (spurious : Bool) (w t : Workers) → Move spurious w t → IsWatched n w → IsWatched n t
unfolding test_list push_message
Move-IsWatched n spurious w _ (takes_lock r free) h = ground arith
Move-IsWatched n spurious w _ (leaves_loop r closed) h = ground arith
Move-IsWatched n spurious w _ (falls_asleep t) h = ground arith
Move-IsWatched n spurious w _ (takes_lock_again r free) h = ground arith
Move-IsWatched n spurious w _ (wakes s a) h = ground arith
Move-IsWatched n spurious w _ (begins_to_add on) h = ground arith
Move-IsWatched n spurious w _ (adds_message call free) h = ground arith
Move-IsWatched n spurious w _ (clears_start c) h = ground arith
Move-IsWatched n spurious w _ (notifies_all c) h = ground arith

-- How many threads `Initialize` starts.
abbrev pub thread_count : ℕ → ℕ
thread_count n = if n == 0 then 2 else n

Moves-IsWatched :
    (n : ℕ) (spurious : Bool) (w t : Workers) → Moves spurious w t → IsWatched n w → IsWatched n t
Moves-IsWatched n spurious w _ here h = h
Moves-IsWatched n spurious w t (then_ {u} before move) h =
    Move-IsWatched n spurious u t move (Moves-IsWatched n spurious w u before h)

new_workers-IsWatched : (n : ℕ) → IsWatched (thread_count n) (new_workers n)
unfolding new_workers
new_workers-IsWatched n = ground arith

is_serving : (n : ℕ) (w : Workers) → IsWatched n w → w.closing ≡ serving → w.start ≡ true
is_serving n w h serves = ground (arith, h.closed, serves)

-- After `notify_all`, with no thread asleep or about to be.
pub record IsClosing (n : ℕ) (w : Workers) : Type 0 where
  pub stopped : w.start ≡ false
  pub joins : w.closing ≡ joining
  pub awake : w.asleep ≡ 0
  pub free : w.testing ≡ 0
  pub total : w.running + w.woken + w.ended ≡ n

abbrev Ends : Workers → Workers → Type 0
Ends u v = (v.ended ≡ u.ended + 1) ⊎ ((v.ended ≡ u.ended) × (v.arriving + 1 ≡ u.arriving))

Move-IsClosing :
    (n : ℕ) (spurious : Bool) (u v : Workers)
    → Move spurious u v
    → IsClosing n u
    → IsClosing n v × Ends u v
unfolding test_list push_message
Move-IsClosing n spurious u _ (takes_lock r free) h = ground arith
Move-IsClosing n spurious u _ (leaves_loop r closed) h = ground arith
Move-IsClosing n spurious u _ (falls_asleep t) h = ground arith
Move-IsClosing n spurious u _ (takes_lock_again r free) h = ground arith
Move-IsClosing n spurious u _ (wakes s a) h = ground arith
Move-IsClosing n spurious u _ (begins_to_add on) h = ground arith
Move-IsClosing n spurious u _ (adds_message call free) h = ground arith
Move-IsClosing n spurious u _ (clears_start c) h = ground arith
Move-IsClosing n spurious u _ (notifies_all c) h = ground arith

Moves-IsClosing :
    (n : ℕ) (spurious : Bool) (w u : Workers) → Moves spurious w u → IsClosing n w → IsClosing n u
Moves-IsClosing n spurious w _ here h = h
Moves-IsClosing n spurious w u (then_ {u = v} before move) h =
    (Move-IsClosing n spurious v u move (Moves-IsClosing n spurious w v before h)).0

Moves-trans :
    (spurious : Bool) (w u v : Workers)
    → Moves spurious w u
    → Moves spurious u v
    → Moves spurious w v
Moves-trans spurious w u _ first here = first
Moves-trans spurious w u v first (then_ {u = x} second move) =
    then_ (Moves-trans spurious w u x first second) move

test_list-ends : (w : Workers) → w.start ≡ false → test_list w ≡ record w { ended = w.ended + 1 }
unfolding test_list
test_list-ends w stopped = ground (arith, stopped)

-- One thread after another ends.
all_end :
    (left n : ℕ) (spurious : Bool) (u : Workers)
    → IsClosing n u
    → u.running + u.woken ≡ left
    → (t : Workers) × Moves spurious u t × (t.ended ≡ n)
all_end zero n spurious u h e = (u, here, omega (arith, h.total))
all_end (suc left) n spurious u h e = elim (dec_lt 0 u.running) [
  | yes works ↦
      let v : Workers = record u { running = u.running - 1; ended = u.ended + 1 } in
      let move : Move spurious u v = leaves_loop works h.stopped in
      let (t, rest, done) =
        all_end left n spurious v (Move-IsClosing n spurious u v move h).0 (omega arith) in
      (t, Moves-trans spurious u v t (then_ here move) rest, done)
  | no idle ↦
      let v : Workers = record u { woken = u.woken - 1; ended = u.ended + 1 } in
      let move : Move spurious u v =
        subst (Move spurious u) (test_list-ends (record u { woken = u.woken - 1 }) h.stopped)
          (takes_lock_again (omega arith) h.free) in
      let (t, rest, done) =
        all_end left n spurious v (Move-IsClosing n spurious u v move h).0 (omega arith) in
      (t, Moves-trans spurious u v t (then_ here move) rest, done)
]

-- While `Uninitialize` has not been called, whatever the threads, the calls of `AddMessageData` and
-- `wait` have done: where a message is in the list, a thread that is not asleep can get the lock at
-- once, and then takes it.
pub message_taken :
    (n : ℕ) (spurious : Bool) (w : Workers)
    → Moves spurious (new_workers n) w
    → w.closing ≡ serving
    → 1 ≤ w.messages
    → (t : Workers) × Move spurious w t × (t.messages + 1 ≡ w.messages)
unfolding test_list
message_taken n spurious w moves serves some_ =
    let h =
      Moves-IsWatched (thread_count n) spurious (new_workers n) w moves (new_workers-IsWatched n) in
    let on = is_serving (thread_count n) w h serves in
    let free : w.testing ≡ 0 = ground (arith, h.empty, some_) in
    elim (dec_lt 0 w.running) [
      | yes works ↦ (
        test_list (record w { running = w.running - 1 }),
        takes_lock works free,
        ground (arith, on, some_),
      )
      | no idle ↦ (
        test_list (record w { woken = w.woken - 1 }),
        takes_lock_again (ground (arith, h.watched, on, some_, idle)) free,
        ground (arith, on, some_),
      )
    ]

-- Where `notify_all` finds no thread between its test and `wait`, the threads end: each further move
-- ends one, or is the end of a call of `AddMessageData`, and all can end.
pub uninitialize-joins :
    (n : ℕ) (spurious : Bool) (w u : Workers)
    → Moves spurious (new_workers n) w
    → w.closing ≡ joining
    → w.testing ≡ 0
    → w.asleep ≡ 0
    → Moves spurious w u
    → ((v : Workers)
        → Move spurious u v
        → (v.ended ≡ u.ended + 1) ⊎ ((v.ended ≡ u.ended) × (v.arriving + 1 ≡ u.arriving)))
      × (t : Workers) × Moves spurious u t
      × (t.ended ≡ thread_count n)
uninitialize-joins n spurious w u moves joins free awake more =
    let h =
      Moves-IsWatched (thread_count n) spurious (new_workers n) w moves (new_workers-IsWatched n) in
    let closing_ = Moves-IsClosing (thread_count n) spurious w u more (record {
      stopped = ground (arith, h.open_, joins);
      joins = joins;
      awake = awake;
      free = free;
      total = omega (arith, h.total);
    }) in
    let (t, rest, done) = all_end (u.running + u.woken) (thread_count n) spurious u closing_ refl in
    (λ v move. (Move-IsClosing (thread_count n) spurious u v move closing_).1, t, rest, done)

-- A thread sleeps behind the only `notify_all`, and no message comes any more.
pub record IsStuck (n : ℕ) (w : Workers) : Type 0 where
  pub stopped : w.start ≡ false
  pub joins : w.closing ≡ joining
  pub sleeps : 1 ≤ w.asleep
  pub quiet : w.arriving ≡ 0
  pub total : w.running + w.testing + w.asleep + w.woken + w.ended ≡ n

Move-IsStuck : (n : ℕ) (w t : Workers) → Move false w t → IsStuck n w → IsStuck n t
unfolding test_list push_message
Move-IsStuck n w _ (takes_lock r free) h = ground arith
Move-IsStuck n w _ (leaves_loop r closed) h = ground arith
Move-IsStuck n w _ (falls_asleep t) h = ground arith
Move-IsStuck n w _ (takes_lock_again r free) h = ground arith
Move-IsStuck n w _ (wakes s a) h = absurd (cc)
Move-IsStuck n w _ (begins_to_add on) h = ground arith
Move-IsStuck n w _ (adds_message call free) h = ground arith
Move-IsStuck n w _ (clears_start c) h = ground arith
Move-IsStuck n w _ (notifies_all c) h = ground arith

Moves-IsStuck : (n : ℕ) (w t : Workers) → Moves false w t → IsStuck n w → IsStuck n t
Moves-IsStuck n w _ here h = h
Moves-IsStuck n w t (then_ {u} before move) h =
    Move-IsStuck n u t move (Moves-IsStuck n w u before h)

-- Where `Uninitialize` is called while a thread is between its test and `wait`, and no message is on
-- its way: the thread may fall asleep after `notify_all`, and then, unless `wait` returns without a
-- notification, it sleeps for ever, and `join` does not return.
pub uninitialize-hangs :
    (n : ℕ) (spurious : Bool) (w : Workers)
    → Moves spurious (new_workers n) w
    → w.closing ≡ serving
    → 1 ≤ w.testing
    → w.arriving ≡ 0
    → (t : Workers) × Moves false w t
      × (t.closing ≡ joining)
      × ((u : Workers) → Moves false t u → (1 ≤ u.asleep) × (u.ended < thread_count n))
uninitialize-hangs n spurious w moves serves tests quiet =
    let h =
      Moves-IsWatched (thread_count n) spurious (new_workers n) w moves (new_workers-IsWatched n) in
    let w₁ : Workers = record w { start = false; closing = cleared } in
    let w₂ : Workers = record w₁ { woken = w₁.woken + w₁.asleep; asleep = 0; closing = joining } in
    let w₃ : Workers = record w₂ { testing = w₂.testing - 1; asleep = w₂.asleep + 1 } in
    let stuck : IsStuck (thread_count n) w₃ = record {
      stopped = refl;
      joins = refl;
      sleeps = omega arith;
      quiet = quiet;
      total = omega (arith, h.total);
    } in
    (
      w₃,
      then_ (then_ (then_ here (clears_start serves)) (notifies_all refl)) (falls_asleep tests),
      refl,
      λ u more.
          let still = Moves-IsStuck (thread_count n) w₃ u more stuck in
          (still.sleeps, omega (arith, still.total, still.sleeps)),
    )
