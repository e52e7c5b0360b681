-- ===== src/Iocp/Accepting.antt =====
-- About `PostAcceptEx` of IOCPCommunication/source/IOCPBase.cpp.
use my_communication.Prelude.{
  ℕ, zero, suc, ◌<◌, ◌≡◌, refl, ap, ◌∙◌, ◌⊎◌, inl, inr, Bool, true, false, Option, none, some, ◌==◌,
  if◌then◌else◌, arith, Bool-cases, ==_refl,
}
use my_communication.Prelude.Assoc.{lookup, lookup-insert, lookup-erase}
use my_communication.Iocp.State.{
  Iocp, eop_accept, get_socket_context, put_socket_context, release_socket, overlapped_result,
  next_reply,
}
use my_communication.Iocp.Connect.{
  is_invalid, open_socket, start_accept, accept_rounds, after_rounds, enlist, Accepting, posted,
  no_socket, failed, post_accept_ex,
}

-- What the rounds leave alone.
abbrev pub SameTables : Iocp → Iocp → Type 0
SameTables s t =
    (t.user_num ≡ s.user_num)
    × (t.connect_list ≡ s.connect_list)
    × (t.rsc_socket_context ≡ s.rsc_socket_context)
    × (t.rsc_io_context ≡ s.rsc_io_context)
    × (t.queue_io_context ≡ s.queue_io_context)
    × (t.context_key ≡ s.context_key)
    × (t.disconnect_flag ≡ s.disconnect_flag)
    × (t.upcalls ≡ s.upcalls)

same_tables : (s : Iocp) → SameTables s s
same_tables s = (refl, refl, refl, refl, refl, refl, refl, refl)

-- How the socket of the context stands after the rounds.
abbrev pub SocketAfter : ℕ → Iocp × Accepting → Type 0
SocketAfter p (t, posted) =
    (is_invalid (t.context_socket p) ≡ false)
    × ((t.receive_context p).operate_type ≡ eop_accept)
    × ((t.receive_context p).socket ≡ t.context_socket p)
SocketAfter p (t, no_socket) = t.context_socket p ≡ none
SocketAfter p (t, failed) = t.context_socket p ≡ none

is_invalid-none : (o : Option ℕ) → is_invalid o ≡ true → o ≡ none
is_invalid-none none e = refl
is_invalid-none (some x) e = absurd (cc)

abbrev pub Rounds : ℕ → Iocp → Iocp × Accepting → Type 0
Rounds p s r = SameTables s r.0 × SocketAfter p r

-- The part of a round behind `Socket()`, with a socket at hand.
round_with_socket :
    (p : ℕ) (s : Iocp) (again : Iocp × Accepting)
    → is_invalid (s.context_socket p) ≡ false
    → Rounds p s again
    → Rounds p s
        (if overlapped_result (next_reply s) == 0 then (start_accept p s, posted) else again)
round_with_socket p s again e h = elim (Bool-cases (overlapped_result (next_reply s) == 0)) [
  | inl started ↦ rw started (same_tables s, (e, rw (==_refl p), rw (==_refl p)))
  | inr refused ↦ rw refused h
]

-- At least one round is made. A socket that stays is one on which `AcceptEx` has been started.
accept_rounds-Rounds :
    (n p : ℕ) (s : Iocp) → (s.context_socket p ≡ none) ⊎ (0 < n) → Rounds p s (accept_rounds n p s)
unfolding accept_rounds
accept_rounds-Rounds zero p s (inl h) = (same_tables s, h)
accept_rounds-Rounds zero p s (inr h) = absurd (omega arith)
accept_rounds-Rounds (suc n) p s h = elim (Bool-cases (is_invalid (s.context_socket p))) [
  | inl fresh ↦
      let s₁ = open_socket p s in
      let ih =
        accept_rounds-Rounds n p (release_socket p (start_accept p s₁)) (inl (rw (==_refl p))) in
      rw fresh (elim (Bool-cases ((next_reply s).handle == 0)) [
        | inl no_handle ↦ rw no_handle (same_tables s, is_invalid-none (s.context_socket p) fresh)
        | inr handle ↦ rw handle (
            round_with_socket p s₁ (accept_rounds n p (release_socket p (start_accept p s₁)))
              (rw (==_refl p)) ih)
      ])
  | inr held ↦
      let ih =
        accept_rounds-Rounds n p (release_socket p (start_accept p s)) (inl (rw (==_refl p))) in
      rw held
        (round_with_socket p s (accept_rounds n p (release_socket p (start_accept p s))) held ih)
]

pub get_socket_context-frame :
    (s : Iocp)
    → ((get_socket_context s).1.user_num ≡ s.user_num)
      × ((get_socket_context s).1.rsc_io_context ≡ s.rsc_io_context)
      × ((get_socket_context s).1.queue_io_context ≡ s.queue_io_context)
unfolding get_socket_context
get_socket_context-frame s = ground arith

-- The states before and after the rounds of `PostAcceptEx`.
abbrev pub before_rounds : Iocp → Iocp
before_rounds s = enlist (get_socket_context s).0 s.user_num (get_socket_context s).1

abbrev pub the_rounds : Iocp → Iocp × Accepting
the_rounds s = accept_rounds 5 (get_socket_context s).0 (before_rounds s)

pub the_rounds-Rounds :
    (s : Iocp) → Rounds (get_socket_context s).0 (before_rounds s) (the_rounds s)
the_rounds-Rounds s =
    accept_rounds-Rounds 5 (get_socket_context s).0 (before_rounds s) (inr (omega arith))

-- A connection that waits for a client on the context `p`, under the number `key`.
abbrev pub IsAccepting : ℕ → ℕ → Iocp → Type 0
IsAccepting p key t =
    (lookup key t.connect_list ≡ some p)
    × (t.context_key p ≡ key)
    × (t.disconnect_flag p ≡ 0)
    × (is_invalid (t.context_socket p) ≡ false)
    × ((t.receive_context p).operate_type ≡ eop_accept)
    × ((t.receive_context p).socket ≡ t.context_socket p)

-- A failed call: the number is not in the list, or (a leak) it is and its context has no socket.
abbrev pub IsRefused : ℕ → ℕ → Iocp → Type 0
IsRefused p key t =
    (lookup key t.connect_list ≡ none)
    ⊎ ((lookup key t.connect_list ≡ some p) × (t.context_socket p ≡ none))

abbrev AfterAccept : Iocp → Iocp × Bool → Type 0
AfterAccept s (t, true) = IsAccepting (get_socket_context s).0 s.user_num t
AfterAccept s (t, false) = IsRefused (get_socket_context s).0 s.user_num t

found :
    (s : Iocp) → lookup s.user_num (before_rounds s).connect_list ≡ some (get_socket_context s).0
found s =
    lookup-insert s.user_num s.user_num (get_socket_context s).0
      (get_socket_context s).1.connect_list
    ∙ rw (==_refl s.user_num)

decide :
    (s : Iocp) (r : Iocp × Bool)
    → AfterAccept s r
    → ((r.1 ≡ true) × IsAccepting (get_socket_context s).0 s.user_num r.0)
      ⊎ ((r.1 ≡ false) × IsRefused (get_socket_context s).0 s.user_num r.0)
decide s (t, true) h = inl (refl, h)
decide s (t, false) h = inr (refl, h)

after_rounds-AfterAccept :
    (s : Iocp) (r : Iocp × Accepting)
    → Rounds (get_socket_context s).0 (before_rounds s) r
    → AfterAccept s (after_rounds (get_socket_context s).0 s.user_num r)
unfolding put_socket_context
after_rounds-AfterAccept s (t, posted) ((_, listed, _, _, _, keys, flags, _), (held, op, sock)) =
    let p = (get_socket_context s).0 in
    let key_set = ap (λ (f : ℕ → ℕ). f p) keys in
    let flag_set = ap (λ (f : ℕ → ℕ). f p) flags in
    (
      ap (lookup s.user_num) listed ∙ found s,
      key_set ∙ rw (==_refl p),
      flag_set ∙ rw (==_refl p),
      held,
      op,
      sock,
    )
after_rounds-AfterAccept s (t, no_socket) ((_, listed, _, _, _, _, _, _), none_) =
    inr (ap (lookup s.user_num) listed ∙ found s, none_)
after_rounds-AfterAccept s (t, failed) h =
    inl (lookup-erase s.user_num s.user_num t.connect_list ∙ rw (==_refl s.user_num))

-- `PostAcceptEx` on a listening socket, whatever the five rounds meet. Where it returns true, the
-- number that was next is in the connection list with a context whose disconnect flag is 0 and
-- whose receive context waits in `AcceptEx` on the socket of the context. Where it returns false,
-- the number is not in the list, or it is and its context has no socket.
pub post_accept_ex_lem :
    (listen_socket : ℕ) (s : Iocp)
    → let (t, ok) = post_accept_ex (some listen_socket) s in
      let p = (get_socket_context s).0 in
      ((ok ≡ true) × IsAccepting p s.user_num t) ⊎ ((ok ≡ false) × IsRefused p s.user_num t)
unfolding post_accept_ex
post_accept_ex_lem listen_socket s =
    decide s (after_rounds (get_socket_context s).0 s.user_num (the_rounds s))
      (after_rounds-AfterAccept s (the_rounds s) (the_rounds-Rounds s))
