-- ===== src/Iocp/Unlisting.antt =====
-- About the loops of `StopServer` (IOCPCommunication/source/IOCPServer.cpp) and `StopClient`
-- (IOCPClient.cpp): what they do with the connection list and with the pool of socket contexts.
use my_communication.Prelude.{
  ℕ, ◌≡◌, refl, sym, ap, subst, ◌∙◌, ◌⊎◌, inl, inr, [], ◌∷◌, none, some, ◌==◌, Bool-cases,
}
use my_communication.Prelude.Assoc.{Assoc, lookup, erase}
use my_communication.Prelude.Assoc.Order.{Ascends, AllIn, AllIn-erase}
use my_communication.Resource.{ResourceManage, put}
use my_communication.Iocp.State.{
  Iocp, get_io, put_io, put_socket_context, overlapped_result, next_reply,
}
use my_communication.Iocp.Disconnect.{recycle_socket_rsc}
use my_communication.Iocp.Connect.{is_invalid}
use my_communication.Iocp.Lifecycle.{is_pending, finish_stop, stop_connection, stop_all}
use my_communication.Iocp.Closing.{first_recycle, recycle_socket_rsc-zero}
use my_communication.Iocp.Registry.{
  IsListSound, erased-Unlisted, give_up-Registered, put-Registered,
}
use my_communication.Iocp.Listed.{moved, first_recycle-SameList, get_io-SameList}
use my_communication.Iocp.Stopped.{stop_connection-contexts}

-- The context stays out or goes back to the pool.
finish_stop-lists :
    (p io : ℕ) (t : Iocp)
    → let u = finish_stop p io t in
      (u.connect_list ≡ t.connect_list)
      × (u.context_key ≡ t.context_key)
      × (u.disconnect_flag ≡ t.disconnect_flag)
      × ((u.rsc_socket_context ≡ t.rsc_socket_context)
          ⊎ (u.rsc_socket_context ≡ (put p t.rsc_socket_context).0))
unfolding put_io put_socket_context
finish_stop-lists p io t = elim (Bool-cases (overlapped_result (next_reply t) == 0)) [
  | inl e ↦ rw e (refl, refl, refl, inl refl)
  | inr e ↦ rw e (refl, refl, refl, inr refl)
]

pub stop_connection-IsListSound :
    (key p : ℕ) (s : Iocp)
    → IsListSound s
    → lookup key s.connect_list ≡ some p
    → IsListSound (stop_connection key p s)
unfolding stop_connection
stop_connection-IsListSound key p s w there =
    let t = (get_io (first_recycle p s)).1 in
    let (c₀, r₀, k₀, f₀) = first_recycle-SameList p s in
    let (c₁, r₁, k₁, f₁) = get_io-SameList (first_recycle p s) in
    let (c₂, k₂, f₂, back) = finish_stop-lists p (get_io (first_recycle p s)).0 t in
    let same : recycle_socket_rsc p none s ≡ first_recycle p s =
      recycle_socket_rsc-zero p none s (w.open_ key p there) in
    let named = w.named key p there in
    let list = ap (erase key) (c₂ ∙ c₁ ∙ c₀) ∙ ap (λ j. erase j s.connect_list) (sym named) in
    let closed = give_up-Registered w p 1 in
    let pool = r₁ ∙ r₀ in
    rw same (elim back [
      | inl out ↦ moved list (out ∙ pool) (k₂ ∙ k₁ ∙ k₀) (f₂ ∙ f₁ ∙ f₀) closed
      | inr in_ ↦
          moved list (in_ ∙ ap (λ (r : ResourceManage). (put p r).0) pool) (k₂ ∙ k₁ ∙ k₀)
            (f₂ ∙ f₁ ∙ f₀) (put-Registered closed p (w.live key p there) (erased-Unlisted w p))
    ])

pub stop_all-IsListSound :
    (m : Assoc ℕ) (s : Iocp)
    → Ascends m
    → AllIn m s.connect_list
    → IsListSound s
    → IsListSound (stop_all m s)
unfolding stop_all
stop_all-IsListSound [] s ordered there w = w
stop_all-IsListSound ((key, p) ∷ m) s (above, ordered) (here, there) w =
    let kept = stop_all-IsListSound m s ordered there w in
    let (_, _, list) = stop_connection-contexts key p s in
    let stopped =
      stop_all-IsListSound m (stop_connection key p s) ordered
        (subst (AllIn m) (sym list) (AllIn-erase key m s.connect_list above there))
        (stop_connection-IsListSound key p s w here) in
    elim (Bool-cases (is_invalid (s.context_socket p))) [
      | inl bad ↦ rw bad kept
      | inr socket ↦ elim (Bool-cases (is_pending (s.receive_context p).operate_type)) [
        | inl pending ↦ rw (socket, pending) kept
        | inr open_ ↦ rw (socket, open_) stopped
      ]
    ]
