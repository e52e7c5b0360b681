-- ===== src/Iocp/Dropping.antt =====
-- About `Disconnect` of IOCPCommunication/source/IOCPBase.cpp: which connections it touches.
use my_communication.Prelude.{
  ℕ, ◌≡◌, ◌≢◌, refl, sym, ap, ap₂, subst, ◌∙◌, ◌⊎◌, inl, inr, [], ◌∷◌, ◌++◌, some, arith,
  ℕ_discrete,
}
use my_communication.Prelude.Assoc.{lookup, erase, lookup-erase}
use my_communication.Iocp.State.{Iocp, delete_user, set_flag, get_io, put_io}
use my_communication.Iocp.Disconnect.{post_disconnect_ex}
use my_communication.Iocp.Closing.{
  first_recycle, recycle_queue-frame, post_disconnect_ex-zero, post_disconnect_ex-one,
  post_disconnect_ex-done, finish_disconnect,
}
use my_communication.Iocp.Closed.{finish_disconnect-frame}

-- The entries of the connection list carry their keys.
abbrev pub IsNamed : Iocp → Type 0
IsNamed s = (key p : ℕ) → lookup key s.connect_list ≡ some p → s.context_key p ≡ key

-- What giving up the connection on `p` leaves alone, and whom it reports.
pub record Drops (p : ℕ) (s t : Iocp) : Type 0 where
  pub same_keys : t.context_key ≡ s.context_key
  pub flags : (q : ℕ) → q ≢ p → t.disconnect_flag q ≡ s.disconnect_flag q
  pub entries : (j : ℕ) → j ≢ s.context_key p → lookup j t.connect_list ≡ lookup j s.connect_list
  pub fewer : (j q : ℕ) → lookup j t.connect_list ≡ some q → lookup j s.connect_list ≡ some q
  pub told :
      (t.upcalls ≡ s.upcalls ++ delete_user (s.context_key p) ∷ [])
      ⊎ ((t.upcalls ≡ s.upcalls) × (s.disconnect_flag p ≢ 0))

erased-fewer :
    (k j q : ℕ) (s : Iocp)
    → lookup j (erase k s.connect_list) ≡ some q
    → lookup j s.connect_list ≡ some q
erased-fewer k j q s e = elim (ℕ_discrete k j) [
  | yes same ↦ absurd (ground (arith, lookup-erase k j s.connect_list, e, same))
  | no other ↦ ground (arith, lookup-erase k j s.connect_list, e, other)
]

first-Drops :
    (p io : ℕ) (s : Iocp)
    → s.disconnect_flag p ≡ 0
    → Drops p s (finish_disconnect p io (first_recycle p s))
first-Drops p io s open_ =
    let t₁ = first_recycle p s in
    let (up, fl, cl, _, ck) = finish_disconnect-frame p io t₁ in
    let (f, k, c, _, u) = recycle_queue-frame p (s.queue_io_context p) (set_flag p 1 s) in
    let key : t₁.context_key p ≡ s.context_key p = ap (λ (g : ℕ → ℕ). g p) k in
    let list = cl ∙ ap (λ j. erase j t₁.connect_list) key ∙ ap (erase (s.context_key p)) c in
    record {
      same_keys = ck ∙ k;
      flags = λ q ne. ap (λ (g : ℕ → ℕ). g q) (fl ∙ f) ∙ ground (arith, ne);
      entries = λ j ne.
          ap (lookup j) list ∙ ground (arith, lookup-erase (s.context_key p) j s.connect_list, ne);
      fewer = λ j q e. erased-fewer (s.context_key p) j q s (ap (lookup j) (sym list) ∙ e);
      told = inl (up ∙ ap (λ us. us ++ delete_user (s.context_key p) ∷ []) u);
    }

-- A later disconnect event.
later-Drops :
    (p io n : ℕ) (s : Iocp) → s.disconnect_flag p ≢ 0 → Drops p s (put_io io (set_flag p n s))
unfolding put_io
later-Drops p io n s closed = record {
  same_keys = refl;
  flags = λ q ne. ground (arith, ne);
  entries = λ j ne. refl;
  fewer = λ j q e. e;
  told = inr (refl, closed);
}

nothing-Drops : (p : ℕ) (s : Iocp) → s.disconnect_flag p ≢ 0 → Drops p s s
nothing-Drops p s closed = record {
  same_keys = refl;
  flags = λ q ne. refl;
  entries = λ j ne. refl;
  fewer = λ j q e. e;
  told = inr (refl, closed);
}

post_disconnect_ex-Drops : (p io : ℕ) (s : Iocp) → Drops p s (post_disconnect_ex p io s)
post_disconnect_ex-Drops p io s = elim (ℕ_discrete (s.disconnect_flag p) 0) [
  | yes zero_ ↦
      subst (Drops p s) (sym (post_disconnect_ex-zero p io s zero_)) (first-Drops p io s zero_)
  | no closed ↦ elim (ℕ_discrete (s.disconnect_flag p) 1) [
    | yes one ↦
        subst (Drops p s) (sym (post_disconnect_ex-one p io s one)) (later-Drops p io 2 s closed)
    | no more ↦
        subst (Drops p s) (sym (post_disconnect_ex-done p io s (omega arith)))
          (nothing-Drops p s closed)
  ]
]

get_io-frame :
    (s : Iocp)
    → let t = (get_io s).1 in
      (t.context_key ≡ s.context_key)
      × (t.disconnect_flag ≡ s.disconnect_flag)
      × (t.connect_list ≡ s.connect_list)
      × (t.upcalls ≡ s.upcalls)
unfolding get_io
get_io-frame s = ground arith

pub taken-Drops : (p : ℕ) (s : Iocp) → Drops p s (post_disconnect_ex p (get_io s).0 (get_io s).1)
taken-Drops p s =
    let u = (get_io s).1 in
    let t = post_disconnect_ex p (get_io s).0 u in
    let (keys, flags, list, ups) = get_io-frame s in
    let d = post_disconnect_ex-Drops p (get_io s).0 u in
    record {
      same_keys = d.same_keys ∙ keys;
      flags = λ q ne. d.flags q ne ∙ ap (λ (g : ℕ → ℕ). g q) flags;
      entries = λ j ne.
          d.entries j (λ same. ne (same ∙ ap (λ (g : ℕ → ℕ). g p) keys)) ∙ ap (lookup j) list;
      fewer = λ j q e. ap (lookup j) (sym list) ∙ d.fewer j q e;
      told = elim d.told [
        | inl told ↦ inl (told ∙ ap₂ (λ us (g : ℕ → ℕ). us ++ delete_user (g p) ∷ []) ups keys)
        | inr (told, closed) ↦
            inr (told ∙ ups, λ open_. closed (ap (λ (g : ℕ → ℕ). g p) flags ∙ open_))
      ];
    }
