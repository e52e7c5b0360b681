-- ===== src/Tests/Threads.antt =====
-- Examples for the threads that handle messages.
use my_communication.Prelude.{◌+◌, ◌-◌, ◌≤◌, ◌<◌, ◌≡◌, refl, ◌⊎◌, false, arith}
use my_communication.Messages.Threads.{
  serving, joining, Workers, new_workers, test_list, push_message, Move, takes_lock, falls_asleep,
  begins_to_add, adds_message, clears_start, notifies_all, Moves, here, then_,
}
use my_communication.Messages.Waking.{message_taken, uninitialize-joins, uninitialize-hangs}

-- The only thread finds no message.
abbrev tested : Workers
tested = test_list (record (new_workers 1) { running = (new_workers 1).running - 1 })

Moves-tested : Moves false (new_workers 1) tested
unfolding new_workers
Moves-tested = then_ here (takes_lock (omega arith) refl)

-- It falls asleep, and a message comes.
abbrev slept : Workers
slept = record tested { testing = tested.testing - 1; asleep = tested.asleep + 1 }

abbrev called : Workers
called = record slept { arriving = slept.arriving + 1 }

abbrev notified : Workers
notified = push_message called

Moves-notified : Moves false (new_workers 1) notified
unfolding new_workers test_list
Moves-notified =
    then_ (then_ (then_ Moves-tested (falls_asleep (omega arith))) (begins_to_add refl))
      (adds_message (omega arith) refl)

one_waits : 1 ≤ notified.messages
unfolding new_workers test_list push_message
one_waits = omega arith

notified_serves : notified.closing ≡ serving
unfolding new_workers test_list push_message
notified_serves = refl

message_taken_example : (t : Workers) × Move false notified t × (t.messages + 1 ≡ notified.messages)
message_taken_example = message_taken 1 false notified Moves-notified notified_serves one_waits

-- Two threads are at work when `Uninitialize` is called.
abbrev closing_two : Workers
closing_two = record (new_workers 2) {
  start = false;
  woken = (new_workers 2).woken + (new_workers 2).asleep;
  asleep = 0;
  closing = joining;
}

Moves-closing_two : Moves false (new_workers 2) closing_two
unfolding new_workers
Moves-closing_two = then_ (then_ here (clears_start refl)) (notifies_all refl)

closing_two_free : closing_two.testing ≡ 0
unfolding new_workers
closing_two_free = refl

uninitialize-joins_example :
    ((v : Workers)
      → Move false closing_two v
      → (v.ended ≡ closing_two.ended + 1)
        ⊎ ((v.ended ≡ closing_two.ended) × (v.arriving + 1 ≡ closing_two.arriving)))
    × (t : Workers) × Moves false closing_two t
    × (t.ended ≡ 2)
uninitialize-joins_example =
    uninitialize-joins 2 false closing_two closing_two Moves-closing_two refl closing_two_free refl
      here

tested_serves : tested.closing ≡ serving
unfolding new_workers test_list
tested_serves = refl

tested_tests : 1 ≤ tested.testing
unfolding new_workers test_list
tested_tests = omega arith

tested_quiet : tested.arriving ≡ 0
unfolding new_workers test_list
tested_quiet = refl

uninitialize-hangs_example :
    (t : Workers) × Moves false tested t
    × (t.closing ≡ joining)
    × ((u : Workers) → Moves false t u → (1 ≤ u.asleep) × (u.ended < 1))
uninitialize-hangs_example =
    uninitialize-hangs 1 false tested Moves-tested tested_serves tested_tests tested_quiet
