-- ===== src/Iocp/Enlisting.antt =====
-- About `PostConnectEx`, `HandConnect`, `PostAcceptEx` and `HandAccept` of
-- IOCPCommunication/source/IOCPBase.cpp and `AddConnect` of IOCPClient.cpp: what they do with the
-- connection list and with the pool of socket contexts.
use my_communication.Prelude.{
  ℕ, ◌≡◌, refl, sym, ap, subst, ◌∙◌, inl, inr, true, false, Option, none, some, ◌==◌, arith,
  Bool-cases, Option-cases, ==_refl,
}
use my_communication.Prelude.Assoc.{lookup, erase}
use my_communication.Resource.{ResourceManage}
use my_communication.Resource.Invariant.{Handed, IsLive}
use my_communication.Resource.Steps.{get_unlimited}
use my_communication.Iocp.State.{
  Iocp, connect_notify, add_user, notify, get_socket_context, put_socket_context, overlapped_result,
  next_reply,
}
use my_communication.Iocp.Receive.{post_receive}
use my_communication.Iocp.Connect.{
  reset_context, offer_buffer, post_connect_ex, hand_connect, Accepting, posted, no_socket, failed,
  after_rounds, enlist, post_accept_ex, hand_accept, prepare_socket, add_connect,
}
use my_communication.Iocp.Accepting.{before_rounds, the_rounds, the_rounds-Rounds}
use my_communication.Iocp.Registry.{
  Unlisted, IsListSound, IsTaken, erased-Unlisted, erase-Registered, change-Registered,
  put-Registered, fresh-Unlisted, take-Registered, enlist-Registered,
}
use my_communication.Iocp.Listed.{SameList, SameList-IsListSound}
use my_communication.Iocp.Listing.{post_receive-IsListSound}

-- `rscSocketContext.get()` gives a context that was not in use.
abbrev pub GetsContext : Iocp → Type 0
GetsContext s =
    (t : ResourceManage) × ((get_socket_context s).1 ≡ record s { rsc_socket_context = t })
    × Handed s.rsc_socket_context (get_socket_context s).0 t
    × (t.is_limited ≡ false)

pub get_socket_context-GetsContext : (s : Iocp) → IsListSound s → GetsContext s
unfolding get_socket_context
get_socket_context-GetsContext s w =
    let (p, t, run, h, free) = get_unlimited s.rsc_socket_context w.valid w.unlimited in
    rw (run, get_socket_context) (t, refl, h, free)

-- The entry of a context goes, and the context back to the pool.
removed :
    (p : ℕ) (s : Iocp)
    → IsListSound s
    → IsTaken s p
    → IsListSound
        (put_socket_context p (record s { connect_list = erase (s.context_key p) s.connect_list }))
unfolding put_socket_context
removed p s w taken =
    put-Registered (erase-Registered w (s.context_key p)) p taken (erased-Unlisted w p)

post_connect_ex-IsListSound :
    (p : ℕ) (s : Iocp)
    → IsListSound s
    → IsTaken s p
    → s.disconnect_flag p ≡ 0
    → IsListSound (post_connect_ex p s).0
unfolding post_connect_ex put_socket_context
post_connect_ex-IsListSound p s w taken open_ =
    let listed = enlist-Registered w p (s.context_key p) taken refl open_ in
    elim (Bool-cases (overlapped_result (next_reply s) == 0)) [
      | inl e ↦ rw e listed
      | inr e ↦ rw e (
          put-Registered (erase-Registered listed (s.context_key p)) p taken
            (erased-Unlisted listed p))
    ]

pub hand_connect-IsListSound :
    (result p : ℕ) (s : Iocp) → IsListSound s → IsTaken s p → IsListSound (hand_connect result p s)
unfolding hand_connect
hand_connect-IsListSound result p s w taken = elim (Bool-cases (result == 0)) [
  | inl e ↦ rw e (
      post_receive-IsListSound p (offer_buffer p (notify (connect_notify (s.context_key p) true) s))
        w taken)
  | inr e ↦ rw e (removed p (notify (connect_notify (s.context_key p) false) s) w taken)
]

-- The context is in use, and listed under its key if at all.
after_rounds-IsListSound :
    (p key : ℕ) (r : Iocp × Accepting)
    → IsListSound r.0
    → IsTaken r.0 p
    → r.0.context_key p ≡ key
    → IsListSound (after_rounds p key r).0
after_rounds-IsListSound p key (t, posted) w taken named = w
after_rounds-IsListSound p key (t, no_socket) w taken named = w
after_rounds-IsListSound p key (t, failed) w taken named = rw (sym named) (removed p t w taken)

-- After the rounds the new context is listed under the number that was next.
pub the_rounds-IsListSound :
    (s : Iocp)
    → IsListSound s
    → let p = (get_socket_context s).0 in
      let u = (the_rounds s).0 in IsListSound u × IsTaken u p × (u.context_key p ≡ s.user_num)
the_rounds-IsListSound s w =
    let p = (get_socket_context s).0 in
    let (t, run, h, free) = get_socket_context-GetsContext s w in
    let taken = take-Registered w p t h free in
    let changed = change-Registered taken p s.user_num 0 (fresh-Unlisted w p t h) in
    let enlisted =
      enlist-Registered changed p s.user_num h.live (rw (==_refl p)) (rw (==_refl p)) in
    let before : IsListSound (before_rounds s) =
      subst (λ u. IsListSound (enlist p s.user_num u)) (sym run) enlisted in
    let live : IsTaken (before_rounds s) p =
      subst (λ u. IsTaken (enlist p s.user_num u) p) (sym run) h.live in
    let ((_, c, r, _, _, k, f, _), _) = the_rounds-Rounds s in
    (
      SameList-IsListSound (before_rounds s) (the_rounds s).0 (c, r, k, f) before,
      subst (λ q. IsLive q p) (sym r) live,
      ap (λ (g : ℕ → ℕ). g p) k ∙ rw (==_refl p),
    )

pub post_accept_ex-IsListSound :
    (listen : Option ℕ) (s : Iocp) → IsListSound s → IsListSound (post_accept_ex listen s).0
unfolding post_accept_ex
post_accept_ex-IsListSound none s w = w
post_accept_ex-IsListSound (some listen_socket) s w =
    let (fine, taken, named) = the_rounds-IsListSound s w in
    after_rounds-IsListSound (get_socket_context s).0 s.user_num (the_rounds s) fine taken named

pub hand_accept-IsListSound :
    (result listen_context key : ℕ) (s : Iocp)
    → IsListSound s
    → IsListSound (hand_accept result listen_context key s)
unfolding hand_accept
hand_accept-IsListSound result listen_context key s w =
    elim (Option-cases (lookup key s.connect_list)) [
      | inl e ↦ rw (e, hand_accept) w
      | inr (p, e) ↦
          let taken = w.live key p e in
          let u = offer_buffer p (notify (add_user (s.context_key p)) s) in
          let s₁ = post_receive p u in
          elim (Bool-cases (result == 0)) [
            | inl fine ↦
                rw (e, hand_accept, fine)
                  (post_accept_ex-IsListSound (s₁.context_socket listen_context) s₁
                    (post_receive-IsListSound p u w taken))
            | inr failed_ ↦ rw (e, hand_accept, failed_) (removed p s w taken)
          ]
    ]

prepare_socket-SameList : (p : ℕ) (s : Iocp) → SameList s (prepare_socket p s).0
unfolding prepare_socket
prepare_socket-SameList p s = ground arith

pub add_connect-IsListSound :
    (key : ℕ) (s : Iocp) → IsListSound s → IsListSound (add_connect key s).0
unfolding add_connect put_socket_context
add_connect-IsListSound key s w =
    let p = (get_socket_context s).0 in
    let (t, run, h, free) = get_socket_context-GetsContext s w in
    let off = fresh-Unlisted w p t h in
    let taken = take-Registered w p t h free in
    let s₁ = reset_context p key (get_socket_context s).1 in
    let s₂ = (prepare_socket p s₁).0 in
    let w₁ : IsListSound s₁ =
      subst (λ u. IsListSound (reset_context p key u)) (sym run)
        (change-Registered taken p key 0 off) in
    let (c, r, k, f) = prepare_socket-SameList p s₁ in
    let w₂ : IsListSound s₂ = SameList-IsListSound s₁ s₂ (c, r, k, f) w₁ in
    let live₁ : IsTaken s₁ p = subst (λ u. IsTaken (reset_context p key u) p) (sym run) h.live in
    let live₂ : IsTaken s₂ p = subst (λ q. IsLive q p) (sym r) live₁ in
    let off₁ : Unlisted s₁.connect_list p =
      subst (λ u. Unlisted (reset_context p key u).connect_list p) (sym run) off in
    elim (Bool-cases (prepare_socket p s₁).1) [
      | inl ready ↦
          rw ready
            (post_connect_ex-IsListSound p s₂ w₂ live₂ (ap (λ (g : ℕ → ℕ). g p) f ∙ rw (==_refl p)))
      | inr not_ready ↦
          rw not_ready (put-Registered w₂ p live₂ (subst (λ m. Unlisted m p) (sym c) off₁))
    ]
