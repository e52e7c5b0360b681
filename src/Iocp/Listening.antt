-- ===== src/Iocp/Listening.antt =====
-- About `StartServerListen` of IOCPCommunication/source/IOCPServer.cpp.
use my_communication.Prelude.{
  ℕ, zero, suc, ◌≤◌, ◌<◌, ◌≡◌, refl, ◌⊎◌, inl, inr, Bool, true, false, none, some, ◌==◌, arith,
  Bool-cases, Option-cases, ==_refl,
}
use my_communication.Iocp.State.{
  Iocp, put_socket_context, get_socket_context, sync_result, next_reply, call,
}
use my_communication.Iocp.Connect.{is_invalid, post_accept_ex}
use my_communication.Iocp.Lifecycle.{
  IocpServer, post_accepts, listening_socket, bind_listener, listen_on, settle, listener,
}
use my_communication.Iocp.Closing.{IsSound}
use my_communication.Iocp.Accepting.{get_socket_context-frame}
use my_communication.Iocp.Connecting.{SameIo, SameIo-IsSound, post_accept_ex-IsSound}

listening_socket-SameIo : (l : ℕ) (s : Iocp) → SameIo s (listening_socket l s).0
unfolding listening_socket
listening_socket-SameIo l s = ground arith

bind_listener-SameIo : (s : Iocp) → SameIo s (bind_listener s).0
unfolding bind_listener
bind_listener-SameIo s = elim (Bool-cases (sync_result (next_reply s) == 0)) [
  | inr refused ↦ rw refused (refl, refl)
  | inl bound ↦ elim (Bool-cases (sync_result (next_reply (call s)) == 0)) [
    | inr refused ↦ rw (bound, refused) (refl, refl)
    | inl listens ↦ rw (bound, listens) (refl, refl)
  ]
]

-- The accept operations: the ownership is kept, and success with none posted is what it began with.
post_accepts-IsSound :
    (n : ℕ) (ret : Bool) (l : ℕ) (s : Iocp) → IsSound s → IsSound (post_accepts n ret l s).0
unfolding post_accepts
post_accepts-IsSound zero ret l s sound = sound
post_accepts-IsSound (suc n) ret l s sound =
    let s₁ = (post_accept_ex (s.context_socket l) s).0 in
    let fine = post_accept_ex-IsSound (s.context_socket l) s sound in
    let rest = post_accepts-IsSound n true l s₁ fine in
    elim (Bool-cases (post_accept_ex (s.context_socket l) s).1) [
      | inl posted ↦ rw posted rest
      | inr refused ↦ rw refused fine
    ]

pub listen_on-IsSound : (n l : ℕ) (s : Iocp) → IsSound s → IsSound (listen_on n l s).0
listen_on-IsSound n l s sound =
    let s₁ = (listening_socket l s).0 in
    let s₂ = (bind_listener s₁).0 in
    let sound₁ = SameIo-IsSound s s₁ (listening_socket-SameIo l s) sound in
    let sound₂ = SameIo-IsSound s₁ s₂ (bind_listener-SameIo s₁) sound₁ in
    elim (Bool-cases (listening_socket l s).1) [
      | inr unready ↦ rw unready sound₁
      | inl ready ↦ elim (Bool-cases (bind_listener s₁).1) [
        | inr unbound ↦ rw (ready, unbound) sound₂
        | inl bound ↦ rw (ready, bound) (post_accepts-IsSound n false l s₂ sound₂)
      ]
    ]

-- The context has a socket, or one can be made; or neither.
abbrev pub HasSocket : ℕ → Iocp → Type 0
HasSocket l s =
    (is_invalid (s.context_socket l) ≡ false)
    ⊎ (is_invalid (s.context_socket l) ≡ true) × ((next_reply s).handle == 0 ≡ false)

abbrev pub NoSocket : ℕ → Iocp → Type 0
NoSocket l s = (is_invalid (s.context_socket l) ≡ true) × ((next_reply s).handle == 0 ≡ true)

-- The next three calls are `Bind`, `Listen` and `BindIoCompletionPort`: each of them succeeds, or one
-- of them fails after those before it.
abbrev pub IsBound : Iocp → Type 0
IsBound s =
    (sync_result (next_reply s) == 0 ≡ true)
    × (sync_result (next_reply (call s)) == 0 ≡ true)
    × (sync_result (next_reply (call (call s))) == 0 ≡ true)

abbrev pub NotBound : Iocp → Type 0
NotBound s =
    (sync_result (next_reply s) == 0 ≡ false)
    ⊎ (sync_result (next_reply (call s)) == 0 ≡ false)
    ⊎ (sync_result (next_reply (call (call s))) == 0 ≡ false)

-- The next `n` calls of `PostAcceptEx` return true.
abbrev pub AllPosted : ℕ → ℕ → Iocp → Type 0
AllPosted zero l s = Unit
AllPosted (suc n) l s =
    ((post_accept_ex (s.context_socket l) s).1 ≡ true)
    × AllPosted n l (post_accept_ex (s.context_socket l) s).0

-- The next `k` calls of `PostAcceptEx` return true, and the one behind them does not.
abbrev pub PostFails : ℕ → ℕ → Iocp → Type 0
PostFails zero l s = (post_accept_ex (s.context_socket l) s).1 ≡ false
PostFails (suc k) l s =
    ((post_accept_ex (s.context_socket l) s).1 ≡ true)
    × PostFails k l (post_accept_ex (s.context_socket l) s).0

-- The state after the socket, and the one after the three calls.
abbrev pub with_socket : ℕ → Iocp → Iocp
with_socket l s = (listening_socket l s).0

abbrev pub bound_on : ℕ → Iocp → Iocp
bound_on l s = (bind_listener (with_socket l s)).0

abbrev pub Succeeds : ℕ → ℕ → Iocp → Type 0
Succeeds n l s = HasSocket l s × IsBound (with_socket l s) × (1 ≤ n) × AllPosted n l (bound_on l s)

abbrev pub Fails : ℕ → ℕ → Iocp → Type 0
Fails n l s =
    NoSocket l s
    ⊎ HasSocket l s × NotBound (with_socket l s)
    ⊎ HasSocket l s
      × IsBound (with_socket l s)
      × ((n ≡ 0) ⊎ (k : ℕ) × (k < n) × PostFails k l (bound_on l s))

listening_socket-cases :
    (l : ℕ) (s : Iocp)
    → ((listening_socket l s).1 ≡ true) × HasSocket l s
      ⊎ ((listening_socket l s).1 ≡ false) × NoSocket l s
unfolding listening_socket
listening_socket-cases l s = elim (Bool-cases (is_invalid (s.context_socket l))) [
  | inr socket ↦ inl (rw socket refl, inl socket)
  | inl invalid ↦ elim (Bool-cases ((next_reply s).handle == 0)) [
    | inl none_ ↦ inr (rw (invalid, none_) refl, (invalid, none_))
    | inr made ↦ inl (rw (invalid, made) refl, inr (invalid, made))
  ]
]

bind_listener-cases :
    (s : Iocp)
    → ((bind_listener s).1 ≡ true) × IsBound s ⊎ ((bind_listener s).1 ≡ false) × NotBound s
unfolding bind_listener
bind_listener-cases s = elim (Bool-cases (sync_result (next_reply s) == 0)) [
  | inr refused ↦ inr (rw refused refl, inl refused)
  | inl bound ↦ elim (Bool-cases (sync_result (next_reply (call s)) == 0)) [
    | inr refused ↦ inr (rw (bound, refused) refl, inr (inl refused))
    | inl listens ↦ elim (Bool-cases (sync_result (next_reply (call (call s))) == 0)) [
      | inr refused ↦ inr (rw (bound, listens, refused) refl, inr (inr refused))
      | inl joined ↦ inl (rw (bound, listens, joined) refl, (bound, listens, joined))
    ]
  ]
]

post_accepts-cases :
    (n l : ℕ) (s : Iocp)
    → ((post_accepts n true l s).1 ≡ true) × AllPosted n l s
      ⊎ ((post_accepts n true l s).1 ≡ false) × ((k : ℕ) × (k < n) × PostFails k l s)
unfolding post_accepts
post_accepts-cases zero l s = inl (refl, tt)
post_accepts-cases (suc n) l s = elim (Bool-cases (post_accept_ex (s.context_socket l) s).1) [
  | inr refused ↦ inr (rw refused refl, (0, omega arith, refused))
  | inl posted ↦ elim (post_accepts-cases n l (post_accept_ex (s.context_socket l) s).0) [
    | inl (e, all) ↦ inl (rw posted e, (posted, all))
    | inr (e, (k, few, fails)) ↦ inr (rw posted e, (suc k, omega arith, (posted, fails)))
  ]
]

posting-cases :
    (n l : ℕ) (s : Iocp)
    → ((post_accepts n false l s).1 ≡ true) × (1 ≤ n) × AllPosted n l s
      ⊎ ((post_accepts n false l s).1 ≡ false) × ((n ≡ 0) ⊎ (k : ℕ) × (k < n) × PostFails k l s)
unfolding post_accepts
posting-cases zero l s = inr (refl, inl refl)
posting-cases (suc n) l s = elim (post_accepts-cases (suc n) l s) [
  | inl (e, all) ↦ inl (e, omega arith, all)
  | inr (e, fails) ↦ inr (e, inr fails)
]

pub listen_on-cases :
    (n l : ℕ) (s : Iocp)
    → ((listen_on n l s).1 ≡ true) × Succeeds n l s ⊎ ((listen_on n l s).1 ≡ false) × Fails n l s
listen_on-cases n l s = elim (listening_socket-cases l s) [
  | inr (unready, none_) ↦ inr (rw unready refl, inl none_)
  | inl (ready, socket) ↦ elim (bind_listener-cases (with_socket l s)) [
    | inr (unbound, refused) ↦ inr (rw (ready, unbound) refl, inr (inl (socket, refused)))
    | inl (bound, calls) ↦ elim (posting-cases n l (bound_on l s)) [
      | inl (e, some_, all) ↦ inl (rw (ready, bound) e, (socket, calls, some_, all))
      | inr (e, fails) ↦ inr (rw (ready, bound) e, inr (inr (socket, calls, fails)))
    ]
  ]
]

-- How `StartServerListen` ends, with the listening context and the state after it was chosen.
abbrev pub Listens : ℕ → ℕ × Iocp → IocpServer × Bool → Type 0
Listens n (l, s) (t, ok) =
    (ok ≡ true) × Succeeds n l s × (t.listen_socket_context ≡ some l)
    ⊎ (ok ≡ false)
      × Fails n l s
      × (t.listen_socket_context ≡ none)
      × (t.base.context_socket l ≡ none)

pub settle-Listens :
    (n l : ℕ) (s : Iocp) (r : Iocp × Bool) (d : IocpServer)
    → IsSound r.0
    → ((r.1 ≡ true) × Succeeds n l s ⊎ (r.1 ≡ false) × Fails n l s)
    → Listens n (l, s) (settle l r d) × IsSound (settle l r d).0.base
unfolding put_socket_context
settle-Listens n l s (t, true) d sound (inl (e, yes_)) = (inl (refl, yes_, refl), sound)
settle-Listens n l s (t, true) d sound (inr (e, no_)) = absurd (cc)
settle-Listens n l s (t, false) d sound (inl (e, yes_)) = absurd (cc)
settle-Listens n l s (t, false) d sound (inr (e, no_)) =
    (inr (refl, no_, refl, rw (==_refl l) refl), sound)

pub listener-IsSound : (d : IocpServer) → IsSound d.base → IsSound (listener d).1
listener-IsSound d sound = elim (Option-cases d.listen_socket_context) [
  | inl e ↦
      let (_, r, q) = get_socket_context-frame d.base in
      rw e (SameIo-IsSound d.base (get_socket_context d.base).1 (r, q) sound)
  | inr (l, e) ↦ rw e sound
]
