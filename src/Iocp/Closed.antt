-- ===== src/Iocp/Closed.antt =====
-- About `PostDisconnectEx` at each value of the disconnect flag.
use my_communication.Prelude.{
  ℕ, ◌≤◌, ◌≡◌, refl, ap, ◌∙◌, ◌⊎◌, inl, inr, List, [], ◌∷◌, ◌++◌, none, ◌==◌, arith, ℕ_discrete,
  Bool-cases, ==_refl,
}
use my_communication.Prelude.Assoc.{lookup, erase, lookup-erase}
use my_communication.Iocp.State.{
  Iocp, delete_user, set_flag, put_io, put_socket_context, count_exit, overlapped_result,
  next_reply,
}
use my_communication.Iocp.Disconnect.{post_disconnect_ex}
use my_communication.Iocp.Closing.{
  IsSound, IsHeld, first_recycle, recycle_queue-frame, finish_disconnect, first_recycle-flag,
  post_disconnect_ex-zero, post_disconnect_ex-one, post_disconnect_ex-done, first_recycle-IsSound,
}

pub finish_disconnect-frame :
    (p io : ℕ) (t : Iocp)
    → let u = finish_disconnect p io t in
      (u.upcalls ≡ t.upcalls)
      × (u.disconnect_flag ≡ t.disconnect_flag)
      × (u.connect_list ≡ erase (t.context_key p) t.connect_list)
      × (u.queue_io_context ≡ t.queue_io_context)
      × (u.context_key ≡ t.context_key)
unfolding put_io put_socket_context count_exit
finish_disconnect-frame p io t = elim (Bool-cases (overlapped_result (next_reply t) == 0)) [
  | inl e ↦ rw e (refl, refl, refl, refl, refl)
  | inr e ↦ rw e (refl, refl, refl, refl, refl)
]

-- What the layer above and the tables see of a connection that is given up: `DeleteUser` once, the
-- flag at 1, no entry in the connection list, and nothing left to send.
pub record IsClosed (p : ℕ) (s t : Iocp) : Type 0 where
  pub told : t.upcalls ≡ s.upcalls ++ delete_user (s.context_key p) ∷ []
  pub flagged : t.disconnect_flag p ≡ 1
  pub unlisted : lookup (s.context_key p) t.connect_list ≡ none
  pub emptied : t.queue_io_context p ≡ []

-- The first disconnect event closes the connection. The second only gives its IO context back and
-- moves the flag to 2. A later one does nothing at all: its IO context stays in use for ever.
pub post_disconnect_ex_lem :
    (p io : ℕ) (s : Iocp)
    → IsSound s
    → IsHeld s io
    → ((s.disconnect_flag p ≡ 0) × IsClosed p s (post_disconnect_ex p io s))
      ⊎ ((s.disconnect_flag p ≡ 1) × (post_disconnect_ex p io s ≡ put_io io (set_flag p 2 s)))
      ⊎ ((2 ≤ s.disconnect_flag p)
          × (post_disconnect_ex p io s ≡ s)
          × IsHeld (post_disconnect_ex p io s) io)
post_disconnect_ex_lem p io s sound held = elim (ℕ_discrete (s.disconnect_flag p) 0) [
  | yes zero_ ↦ inl (zero_, closes zero_)
  | no nonzero ↦ elim (ℕ_discrete (s.disconnect_flag p) 1) [
    | yes one ↦ inr (inl (one, post_disconnect_ex-one p io s one))
    | no more ↦
        let same = post_disconnect_ex-done p io s (omega arith) in
        inr (inr (omega arith, same, rw same held))
  ]
]
  where
    t₁ : Iocp
    t₁ = first_recycle p s

    closes : s.disconnect_flag p ≡ 0 → IsClosed p s (post_disconnect_ex p io s)
    closes e =
        let (up, fl, cl, qu, _) = finish_disconnect-frame p io t₁ in
        let (f, k, c, r, u) = recycle_queue-frame p (s.queue_io_context p) (set_flag p 1 s) in
        let key : t₁.context_key p ≡ s.context_key p = ap (λ (g : ℕ → ℕ). g p) k in
        rw (post_disconnect_ex-zero p io s e) (record {
          told = up ∙ ap (λ us. us ++ delete_user (s.context_key p) ∷ []) u;
          flagged = ap (λ (g : ℕ → ℕ). g p) fl ∙ first_recycle-flag p s;
          unlisted =
              ap (lookup (s.context_key p)) (cl ∙ ap (λ j. erase j t₁.connect_list) key)
              ∙ lookup-erase (s.context_key p) (s.context_key p) t₁.connect_list
              ∙ rw (==_refl (s.context_key p));
          emptied = ap (λ (g : ℕ → List ℕ). g p) qu ∙ (first_recycle-IsSound p s sound).1;
        })
