-- ===== src/Iocp/Registry.antt =====
-- The connection list of IOCPCommunication/source/IOCPBase.cpp and the pool of socket contexts below it:
-- `mapConnectList` and `rscSocketContext` of `IOCPBaseData`.
use my_communication.Prelude.{
  ℕ, ◌≤◌, ◌≡◌, ◌≢◌, sym, ap, ◌∙◌, ◌⊎◌, inl, inr, false, some, arith, count, ℕ_discrete,
}
use my_communication.Prelude.Assoc.{
  Assoc, lookup, insert, erase, values, lookup-insert, lookup-erase,
}
use my_communication.Prelude.Assoc.Order.{
  Ascends, Ascends-insert, Ascends-erase, count-values-le_one,
}
use my_communication.Resource.{ResourceManage, put}
use my_communication.Resource.Invariant.{IsValid, IsLive, Handed, put-live, returned-IsValid}
use my_communication.Iocp.State.{Iocp, update}

-- The keys ascend; each listed context is in use, carries its key, and has not been given up.
pub record Registered (m : Assoc ℕ) (r : ResourceManage) (key_of flag : ℕ → ℕ) : Type 0 where
  pub valid : IsValid r
  pub unlimited : r.is_limited ≡ false
  pub ordered : Ascends m
  pub named : (key p : ℕ) → lookup key m ≡ some p → key_of p ≡ key
  pub live : (key p : ℕ) → lookup key m ≡ some p → IsLive r p
  pub open_ : (key p : ℕ) → lookup key m ≡ some p → flag p ≡ 0

abbrev pub Unlisted : Assoc ℕ → ℕ → Type 0
Unlisted m p = (key : ℕ) → lookup key m ≢ some p

-- The same for a state; `IsTaken` contexts are not in the pool.
abbrev pub IsListSound : Iocp → Type 0
IsListSound s = Registered s.connect_list s.rsc_socket_context s.context_key s.disconnect_flag

abbrev pub IsTaken : Iocp → ℕ → Type 0
IsTaken s p = IsLive s.rsc_socket_context p

module _ {m : Assoc ℕ} {r : ResourceManage} {key_of flag : ℕ → ℕ}
    (w : Registered m r key_of flag) where
  pub given_up-Unlisted : (p : ℕ) → flag p ≢ 0 → Unlisted m p
  given_up-Unlisted p closed key there = closed (w.open_ key p there)

  pub erased-Unlisted : (p : ℕ) → Unlisted (erase (key_of p) m) p
  erased-Unlisted p key there = elim (ℕ_discrete (key_of p) key) [
    | yes same ↦ absurd (ground (arith, lookup-erase (key_of p) key m, there, same))
    | no other ↦
        let before : lookup key m ≡ some p =
          ground (arith, lookup-erase (key_of p) key m, there, other) in
        absurd (other (w.named key p before))
  ]

  -- An entry that goes is one that was there.
  pub erased-listed : (k key q : ℕ) → lookup key (erase k m) ≡ some q → lookup key m ≡ some q
  erased-listed k key q e = elim (ℕ_discrete k key) [
    | yes same ↦ absurd (ground (arith, lookup-erase k key m, e, same))
    | no other ↦ ground (arith, lookup-erase k key m, e, other)
  ]

  pub erase-Registered : (k : ℕ) → Registered (erase k m) r key_of flag
  erase-Registered k = record {
    valid = w.valid;
    unlimited = w.unlimited;
    ordered = Ascends-erase k m w.ordered;
    named = λ key q e. w.named key q (erased-listed k key q e);
    live = λ key q e. w.live key q (erased-listed k key q e);
    open_ = λ key q e. w.open_ key q (erased-listed k key q e);
  }

  -- A context that is not listed may change its key and its flag.
  pub change-Registered :
      (p k n : ℕ) → Unlisted m p → Registered m r (update key_of p k) (update flag p n)
  change-Registered p k n off = record {
    valid = w.valid;
    unlimited = w.unlimited;
    ordered = w.ordered;
    named = λ key q e.
        let other : p ≢ q = λ same. off key (e ∙ ap (λ i. some i) (sym same)) in
        ground (arith, other, w.named key q e);
    live = w.live;
    open_ = λ key q e.
        let other : p ≢ q = λ same. off key (e ∙ ap (λ i. some i) (sym same)) in
        ground (arith, other, w.open_ key q e);
  }

  pub flag-Registered : (p n : ℕ) → Unlisted m p → Registered m r key_of (update flag p n)
  flag-Registered p n off = record {
    valid = w.valid;
    unlimited = w.unlimited;
    ordered = w.ordered;
    named = w.named;
    live = w.live;
    open_ = λ key q e.
        let other : p ≢ q = λ same. off key (e ∙ ap (λ i. some i) (sym same)) in
        ground (arith, other, w.open_ key q e);
  }

  -- Giving a connection up: its entry goes and its flag rises.
  pub give_up-Registered : (p n : ℕ) → Registered (erase (key_of p) m) r key_of (update flag p n)
  give_up-Registered p n = record {
    valid = w.valid;
    unlimited = w.unlimited;
    ordered = (erase-Registered (key_of p)).ordered;
    named = (erase-Registered (key_of p)).named;
    live = (erase-Registered (key_of p)).live;
    open_ = λ key q e.
        let other : p ≢ q = λ same. erased-Unlisted p key (e ∙ ap (λ i. some i) (sym same)) in
        ground (arith, other, (erase-Registered (key_of p)).open_ key q e);
  }

  -- A context in use that is not listed goes back to the pool.
  pub put-Registered : (p : ℕ) → IsLive r p → Unlisted m p → Registered m (put p r).0 key_of flag
  put-Registered p live off = rw (put-live r p w.valid live) (record {
    valid = returned-IsValid r p w.valid live;
    unlimited = w.unlimited;
    ordered = w.ordered;
    named = w.named;
    live = λ key q e.
        let other : p ≢ q = λ same. off key (e ∙ ap (λ i. some i) (sym same)) in
        ground (arith, other, w.live key q e, lookup-erase p q r.using_list);
    open_ = w.open_;
  })

  -- A fresh context leaves the pool: it is not listed.
  module _ (p : ℕ) (t : ResourceManage) (h : Handed r p t) where
    pub fresh-Unlisted : Unlisted m p
    fresh-Unlisted key there = ground (arith, h.was_free, w.live key p there)

    pub take-Registered : t.is_limited ≡ false → Registered m t key_of flag
    take-Registered free = record {
      valid = h.valid;
      unlimited = free;
      ordered = w.ordered;
      named = w.named;
      live = λ key q e.
          let other : q ≢ p = λ same. fresh-Unlisted key (e ∙ ap (λ i. some i) same) in
          h.others q other ∙ w.live key q e;
      open_ = w.open_;
    }

  -- A context in use is listed under its key.
  pub enlist-Registered :
      (p key : ℕ)
      → IsLive r p
      → key_of p ≡ key
      → flag p ≡ 0
      → Registered (insert key p m) r key_of flag
  enlist-Registered p key live named zero_ = record {
    valid = w.valid;
    unlimited = w.unlimited;
    ordered = Ascends-insert key p m w.ordered;
    named = λ k q e. elim (listed k q e) [
      | inl (same, here) ↦ ground (arith, same, here, named)
      | inr before ↦ w.named k q before
    ];
    live = λ k q e. elim (listed k q e) [
      | inl (same, here) ↦ rw (sym here) live
      | inr before ↦ w.live k q before
    ];
    open_ = λ k q e. elim (listed k q e) [
      | inl (same, here) ↦ ground (arith, here, zero_)
      | inr before ↦ w.open_ k q before
    ];
  }
    where
      listed :
          (k q : ℕ)
          → lookup k (insert key p m) ≡ some q
          → ((key ≡ k) × (p ≡ q)) ⊎ (lookup k m ≡ some q)
      listed k q e = elim (ℕ_discrete key k) [
        | yes same ↦ inl (same, ground (arith, lookup-insert key k p m, e, same))
        | no other ↦ inr (ground (arith, lookup-insert key k p m, e, other))
      ]

  -- No two entries share a context.
  pub count-values_registered : (p : ℕ) → count p (values m) ≤ 1
  count-values_registered p =
      count-values-le_one p (key_of p) m w.ordered (λ key e. w.named key p e)
