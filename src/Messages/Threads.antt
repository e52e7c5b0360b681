-- ===== src/Messages/Threads.antt =====
-- The threads of ServerFramework/Component/MessageHandle/PbMessageHandle.cpp: `MessageHandleThread`,
-- with the lock and the condition variable, `AddMessageData` and `Uninitialize`.
-- The threads do the same, so a state counts how many are where. The lock is held from the test of the
-- inner loop to the call of `wait`, which `testing` counts; the other parts that hold it are one move.
use my_communication.Prelude.{
  ℕ, ◌+◌, ◌-◌, ◌≤◌, ◌≡◌, Bool, true, false, not, ◌&&◌, ◌==◌, if◌then◌else◌,
}

-- How far `Uninitialize` is: not called, behind `m_bStart = false`, and behind `notify_all`, where it
-- joins the threads.
pub data Closing : Type 0 where
  serving cleared joining : Closing

-- `messages` is the length of `m_msgList`. A thread is at work or on its way to the lock (`running`),
-- between the test of the inner loop and `wait`, asleep in `wait`, woken and on its way to the lock
-- again, or at its end. `arriving` calls of `AddMessageData` are behind its test of `m_bStart`.
pub record Workers : Type 0 where
  pub start : Bool
  pub closing : Closing
  pub messages : ℕ
  pub running : ℕ
  pub testing : ℕ
  pub asleep : ℕ
  pub woken : ℕ
  pub ended : ℕ
  pub arriving : ℕ

-- `Initialize`; no threads means two.
unfoldable pub new_workers : ℕ → Workers
new_workers n = record {
  start = true;
  closing = serving;
  messages = 0;
  running = if n == 0 then 2 else n;
  testing = 0;
  asleep = 0;
  woken = 0;
  ended = 0;
  arriving = 0;
}

-- A thread with the lock, at the test of the inner loop: it goes on to wait, ends, or takes a message
-- and leaves the lock.
unfoldable pub test_list : Workers → Workers
test_list w =
    if w.messages == 0 && w.start
    then record w { testing = w.testing + 1 }
    else if not w.start
    then record w { ended = w.ended + 1 }
    else record w { messages = w.messages - 1; running = w.running + 1 }

-- The locked part of `AddMessageData`: `notify_one` wakes one that is asleep, if there is one.
unfoldable pub push_message : Workers → Workers
push_message w =
    if w.asleep == 0
    then record w { arriving = w.arriving - 1; messages = w.messages + 1 }
    else record w {
      arriving = w.arriving - 1;
      messages = w.messages + 1;
      asleep = w.asleep - 1;
      woken = w.woken + 1;
    }

-- What may happen next. `spurious` tells whether `wait` may return without a notification.
pub data Move (spurious : Bool) (w : Workers) : Workers → Type 0 where
  takes_lock :
      1 ≤ w.running
      → w.testing ≡ 0
      → Move spurious w (test_list (record w { running = w.running - 1 }))
  leaves_loop :
      1 ≤ w.running
      → w.start ≡ false
      → Move spurious w (record w { running = w.running - 1; ended = w.ended + 1 })
  falls_asleep :
      1 ≤ w.testing → Move spurious w (record w { testing = w.testing - 1; asleep = w.asleep + 1 })
  takes_lock_again :
      1 ≤ w.woken → w.testing ≡ 0 → Move spurious w (test_list (record w { woken = w.woken - 1 }))
  wakes :
      spurious ≡ true
      → 1 ≤ w.asleep
      → Move spurious w (record w { asleep = w.asleep - 1; woken = w.woken + 1 })
  begins_to_add : w.start ≡ true → Move spurious w (record w { arriving = w.arriving + 1 })
  adds_message : 1 ≤ w.arriving → w.testing ≡ 0 → Move spurious w (push_message w)
  clears_start :
      w.closing ≡ serving → Move spurious w (record w { start = false; closing = cleared })
  notifies_all :
      w.closing ≡ cleared
      → Move spurious w (record w { woken = w.woken + w.asleep; asleep = 0; closing = joining })

pub data Moves (spurious : Bool) (w : Workers) : Workers → Type 0 where
  here : Moves spurious w w
  then_ : {u v : Workers} → Moves spurious w u → Move spurious u v → Moves spurious w v
