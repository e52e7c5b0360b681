-- ===== src/Iocp/Connecting.antt =====
-- About `PostConnectEx`, `HandConnect`, `PostAcceptEx` and `HandAccept` of
-- IOCPCommunication/source/IOCPBase.cpp and `AddConnect` of IOCPClient.cpp: what they do with the IO
-- contexts.
use my_communication.Prelude.{
  ℕ, ◌≡◌, refl, ◌∙◌, inl, inr, true, Option, none, some, ◌==◌, arith, Bool-cases, Option-cases,
}
use my_communication.Prelude.Assoc.{lookup}
use my_communication.Iocp.State.{
  Iocp, connect_notify, add_user, notify, get_socket_context, put_socket_context, overlapped_result,
  next_reply,
}
use my_communication.Iocp.Receive.{post_receive}
use my_communication.Iocp.Connect.{
  post_connect_ex, hand_connect, offer_buffer, reset_context, after_rounds, Accepting, posted,
  no_socket, failed, post_accept_ex, hand_accept, prepare_socket, add_connect,
}
use my_communication.Iocp.Accepting.{the_rounds, the_rounds-Rounds, get_socket_context-frame}
use my_communication.Iocp.Closing.{IsSound}
use my_communication.Iocp.Receiving.{post_receive-IsSound}

-- Two states with the same IO pool and the same queues.
abbrev pub SameIo : Iocp → Iocp → Type 0
SameIo s t = (t.rsc_io_context ≡ s.rsc_io_context) × (t.queue_io_context ≡ s.queue_io_context)

pub SameIo-IsSound : (s t : Iocp) → SameIo s t → IsSound s → IsSound t
SameIo-IsSound s t (r, q) sound = rw (r, q) sound

post_connect_ex-SameIo : (p : ℕ) (s : Iocp) → SameIo s (post_connect_ex p s).0
unfolding post_connect_ex put_socket_context
post_connect_ex-SameIo p s = elim (Bool-cases (overlapped_result (next_reply s) == 0)) [
  | inl e ↦ rw e (refl, refl)
  | inr e ↦ rw e (refl, refl)
]

prepare_socket-SameIo : (p : ℕ) (s : Iocp) → SameIo s (prepare_socket p s).0
unfolding prepare_socket
prepare_socket-SameIo p s = ground arith

post_connect_ex-IsSound : (p : ℕ) (s : Iocp) → IsSound s → IsSound (post_connect_ex p s).0
post_connect_ex-IsSound p s sound =
    SameIo-IsSound s (post_connect_ex p s).0 (post_connect_ex-SameIo p s) sound

pub hand_connect-IsSound : (result p : ℕ) (s : Iocp) → IsSound s → IsSound (hand_connect result p s)
unfolding hand_connect put_socket_context
hand_connect-IsSound result p s sound = elim (Bool-cases (result == 0)) [
  | inl e ↦ rw e (
      post_receive-IsSound p (offer_buffer p (notify (connect_notify (s.context_key p) true) s))
        sound)
  | inr e ↦ rw e sound
]

after_rounds-SameIo : (p key : ℕ) (r : Iocp × Accepting) → SameIo r.0 (after_rounds p key r).0
unfolding put_socket_context
after_rounds-SameIo p key (t, posted) = (refl, refl)
after_rounds-SameIo p key (t, no_socket) = (refl, refl)
after_rounds-SameIo p key (t, failed) = (refl, refl)

pub post_accept_ex-IsSound :
    (listen : Option ℕ) (s : Iocp) → IsSound s → IsSound (post_accept_ex listen s).0
unfolding post_accept_ex
post_accept_ex-IsSound none s sound = sound
post_accept_ex-IsSound (some listen_socket) s sound =
    let ((_, _, _, r, q, _, _, _), _) = the_rounds-Rounds s in
    let (_, r₀, q₀) = get_socket_context-frame s in
    let (r₁, q₁) = after_rounds-SameIo (get_socket_context s).0 s.user_num (the_rounds s) in
    SameIo-IsSound s (after_rounds (get_socket_context s).0 s.user_num (the_rounds s)).0
      (r₁ ∙ r ∙ r₀, q₁ ∙ q ∙ q₀) sound

pub hand_accept-IsSound :
    (result listen_context key : ℕ) (s : Iocp)
    → IsSound s
    → IsSound (hand_accept result listen_context key s)
unfolding hand_accept put_socket_context
hand_accept-IsSound result listen_context key s sound =
    elim (Option-cases (lookup key s.connect_list)) [
      | inl e ↦ rw (e, hand_accept) sound
      | inr (p, e) ↦
          let s₁ = post_receive p (offer_buffer p (notify (add_user (s.context_key p)) s)) in
          let sound₁ =
            post_receive-IsSound p (offer_buffer p (notify (add_user (s.context_key p)) s)) sound in
          elim (Bool-cases (result == 0)) [
            | inl fine ↦
                rw (e, hand_accept, fine)
                  (post_accept_ex-IsSound (s₁.context_socket listen_context) s₁ sound₁)
            | inr failed_ ↦ rw (e, hand_accept, failed_) sound
          ]
    ]

pub add_connect-IsSound : (key : ℕ) (s : Iocp) → IsSound s → IsSound (add_connect key s).0
unfolding add_connect put_socket_context
add_connect-IsSound key s sound =
    let p = (get_socket_context s).0 in
    let s₁ = reset_context p key (get_socket_context s).1 in
    let s₂ = (prepare_socket p s₁).0 in
    let (_, r₀, q₀) = get_socket_context-frame s in
    let (r₁, q₁) = prepare_socket-SameIo p s₁ in
    let sound₂ : IsSound s₂ = SameIo-IsSound s s₂ (r₁ ∙ r₀, q₁ ∙ q₀) sound in
    elim (Bool-cases (prepare_socket p s₁).1) [
      | inl ready ↦ rw ready (post_connect_ex-IsSound p s₂ sound₂)
      | inr not_ready ↦ rw not_ready sound₂
    ]
