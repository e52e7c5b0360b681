-- ===== src/Iocp/Steps.antt =====
-- The handlers and calls of IOCPCommunication/source/IOCPBase.cpp as steps, one after another in any
-- order.
use my_communication.Prelude.{ℕ, ◌≡◌, ◌≢◌, refl, subst, List, Option, some, arith}
use my_communication.Prelude.Assoc.{lookup}
use my_communication.Resource.{construct}
use my_communication.Resource.Invariant.{construct-IsValid}
use my_communication.Iocp.State.{
  Iocp, Reply, new_base_data, io_resource_count, socket_resource_count,
}
use my_communication.Iocp.Disconnect.{disconnect, hand_disconnect}
use my_communication.Iocp.Send.{send, hand_send}
use my_communication.Iocp.Receive.{hand_receive}
use my_communication.Iocp.Connect.{hand_connect, post_accept_ex, hand_accept, add_connect}
use my_communication.Iocp.Registry.{IsListSound, IsTaken}
use my_communication.Iocp.Closing.{IsSound, IsHeld, disconnect-IsSound, hand_disconnect-IsSound}
use my_communication.Iocp.Sending.{send-IsSound, hand_send-IsSound}
use my_communication.Iocp.Receiving.{hand_receive-IsSound}
use my_communication.Iocp.Connecting.{
  hand_connect-IsSound, post_accept_ex-IsSound, hand_accept-IsSound, add_connect-IsSound,
}
use my_communication.Iocp.Listed.{disconnect-IsListSound, hand_disconnect-IsListSound}
use my_communication.Iocp.Listing.{
  send-IsListSound, hand_send-IsListSound, hand_receive-IsListSound,
}
use my_communication.Iocp.Enlisting.{
  hand_connect-IsListSound, post_accept_ex-IsListSound, hand_accept-IsListSound,
  add_connect-IsListSound,
}

-- The IO contexts and the connection list, each with its pool.
pub record IsIntact (s : Iocp) : Type 0 where
  pub sound : IsSound s
  pub listed : IsListSound s

-- One completion or one call of the layer above. The operation that completes was pending: its socket
-- context has not gone back to the pool, the IO context of a send or disconnect is in use and not
-- queued, and `DisconnectEx` has been started for a connection that was given up.
pub data Step : Iocp → Iocp → Type 0 where
  calls_send :
      (key msg_type : ℕ) (bytes : List ℕ) (s t : Iocp)
      → send key msg_type bytes s ≡ some t
      → Step s t
  calls_disconnect : (key : ℕ) (s : Iocp) → Step s (disconnect key s)
  calls_add_connect : (key : ℕ) (s : Iocp) → Step s (add_connect key s).0
  calls_post_accept : (listen : Option ℕ) (s : Iocp) → Step s (post_accept_ex listen s).0
  completes_send :
      (result p io transferred : ℕ) (s : Iocp)
      → IsHeld s io
      → IsTaken s p
      → Step s (hand_send result p io transferred s)
  completes_receive :
      (result p : ℕ) (received : List ℕ) (s t : Iocp)
      → IsTaken s p
      → hand_receive result p received s ≡ some t
      → Step s t
  completes_connect : (result p : ℕ) (s : Iocp) → IsTaken s p → Step s (hand_connect result p s)
  completes_accept :
      (result listen_context key : ℕ) (s : Iocp) → Step s (hand_accept result listen_context key s)
  completes_disconnect :
      (result p io : ℕ) (s : Iocp)
      → IsHeld s io
      → IsTaken s p
      → s.disconnect_flag p ≢ 0
      → Step s (hand_disconnect result p io s)

pub data Reach (start : Iocp) : Iocp → Type 0 where
  here : Reach start start
  step : (s t : Iocp) → Reach start s → Step s t → Reach start t

pub send-IsIntact :
    (key msg_type : ℕ) (bytes : List ℕ) (s : Iocp)
    → IsIntact s
    → (t : Iocp) × (send key msg_type bytes s ≡ some t) × IsIntact t
send-IsIntact key msg_type bytes s h =
    let (t, run, fine) = send-IsSound key msg_type bytes s h.sound in
    (t, run, record { sound = fine; listed = send-IsListSound key msg_type bytes s t h.listed run })

pub disconnect-IsIntact : (key : ℕ) (s : Iocp) → IsIntact s → IsIntact (disconnect key s)
disconnect-IsIntact key s h = record {
  sound = disconnect-IsSound key s h.sound;
  listed = disconnect-IsListSound key s h.listed;
}

pub add_connect-IsIntact : (key : ℕ) (s : Iocp) → IsIntact s → IsIntact (add_connect key s).0
add_connect-IsIntact key s h = record {
  sound = add_connect-IsSound key s h.sound;
  listed = add_connect-IsListSound key s h.listed;
}

pub post_accept_ex-IsIntact :
    (listen : Option ℕ) (s : Iocp) → IsIntact s → IsIntact (post_accept_ex listen s).0
post_accept_ex-IsIntact listen s h = record {
  sound = post_accept_ex-IsSound listen s h.sound;
  listed = post_accept_ex-IsListSound listen s h.listed;
}

pub Step-IsIntact : (s t : Iocp) → Step s t → IsIntact s → IsIntact t
Step-IsIntact _ _ (calls_send key msg_type bytes s t e) h =
    let (u, run, fine) = send-IsIntact key msg_type bytes s h in
    let same : u ≡ t = cc in subst IsIntact same fine
Step-IsIntact _ _ (calls_disconnect key s) h = disconnect-IsIntact key s h
Step-IsIntact _ _ (calls_add_connect key s) h = add_connect-IsIntact key s h
Step-IsIntact _ _ (calls_post_accept listen s) h = post_accept_ex-IsIntact listen s h
Step-IsIntact _ _ (completes_send result p io transferred s held taken) h = record {
  sound = hand_send-IsSound result p io transferred s h.sound held;
  listed = hand_send-IsListSound result p io transferred s h.listed taken;
}
Step-IsIntact _ _ (completes_receive result p received s t taken e) h = record {
  sound = hand_receive-IsSound result p received s t h.sound e;
  listed = hand_receive-IsListSound result p received s t h.listed taken e;
}
Step-IsIntact _ _ (completes_connect result p s taken) h = record {
  sound = hand_connect-IsSound result p s h.sound;
  listed = hand_connect-IsListSound result p s h.listed taken;
}
Step-IsIntact _ _ (completes_accept result listen_context key s) h = record {
  sound = hand_accept-IsSound result listen_context key s h.sound;
  listed = hand_accept-IsListSound result listen_context key s h.listed;
}
Step-IsIntact _ _ (completes_disconnect result p io s held taken closed) h = record {
  sound = hand_disconnect-IsSound result p io s h.sound held;
  listed = hand_disconnect-IsListSound result p io s h.listed taken closed;
}

pub new_base_data-IsIntact : (replies : ℕ → Reply) → IsIntact (new_base_data replies)
unfolding new_base_data construct lookup
new_base_data-IsIntact replies = record {
  sound = record {
    valid = construct-IsValid 1 io_resource_count (omega arith) (omega arith);
    unlimited = refl;
    live = λ p io queued. absurd (omega arith);
    once = λ p io. omega arith;
    apart = λ p p' io ne queued. refl;
  };
  listed = record {
    valid = construct-IsValid 1 socket_resource_count (omega arith) (omega arith);
    unlimited = refl;
    ordered = tt;
    named = λ key p e. absurd (cc);
    live = λ key p e. absurd (cc);
    open_ = λ key p e. absurd (cc);
  };
}

-- From the state that the constructor makes, whatever the operating system answers, after any
-- sequence of calls and of completions of pending operations: the pools of IO contexts and of socket
-- contexts are valid; each queued IO context is in use, and none stands twice in a queue or in two
-- queues; each key stands once in the connection list, with a context that is in use, carries the key
-- and has not been given up.
pub Reach-IsIntact : (replies : ℕ → Reply) (s : Iocp) → Reach (new_base_data replies) s → IsIntact s
Reach-IsIntact replies _ here = new_base_data-IsIntact replies
Reach-IsIntact replies _ (step s t h e) = Step-IsIntact s t e (Reach-IsIntact replies s h)
