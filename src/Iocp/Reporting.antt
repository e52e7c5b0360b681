-- ===== src/Iocp/Reporting.antt =====
-- About `Disconnect` of IOCPCommunication/source/IOCPBase.cpp: whom it reports to the layer above.
use my_communication.Prelude.{
  ℕ, ◌≤◌, ◌≡◌, ◌≢◌, refl, sym, ap, dec_lt, count-append, ◌∙◌, inl, inr, List, [], ◌∷◌, ◌++◌, map,
  none, some, arith, Option-cases, append-nil, append_assoc, count,
}
use my_communication.Prelude.Assoc.{lookup}
use my_communication.Iocp.State.{Iocp, Upcall, delete_user}
use my_communication.Iocp.Disconnect.{disconnect}
use my_communication.Iocp.Dropping.{IsNamed, Drops, taken-Drops}

-- What giving up the connections of some keys reports to the layer above, and what it leaves alone:
-- those with an open connection are all reported, and no other keys.
pub record Reports (list : List ℕ) (s t : Iocp) : Type 0 where
  pub reported : List ℕ
  pub told : t.upcalls ≡ s.upcalls ++ map delete_user reported
  pub only : (j : ℕ) → count j list ≡ 0 → count j reported ≡ 0
  pub all_open :
      (j p : ℕ)
      → lookup j s.connect_list ≡ some p
      → s.disconnect_flag p ≡ 0
      → 1 ≤ count j list
      → 1 ≤ count j reported
  pub kept :
      (j p : ℕ)
      → lookup j s.connect_list ≡ some p
      → s.disconnect_flag p ≡ 0
      → count j list ≡ 0
      → (lookup j t.connect_list ≡ some p) × (t.disconnect_flag p ≡ 0)
  pub named : IsNamed t

pub Reports-nil : (s : Iocp) → IsNamed s → Reports [] s s
Reports-nil s names = record {
  reported = [];
  told = sym (append-nil s.upcalls);
  only = λ j none_. refl;
  all_open = λ j p e open_ some_. absurd (omega arith);
  kept = λ j p e open_ none_. (e, open_);
  named = names;
}

map-append :
    (xs ys : List ℕ) → map delete_user (xs ++ ys) ≡ map delete_user xs ++ map delete_user ys
map-append [] ys = refl
map-append (x ∷ xs) ys = ap (λ (l : List Upcall). delete_user x ∷ l) (map-append xs ys)

pub Reports-append :
    (xs ys : List ℕ) (s t u : Iocp) → Reports xs s t → Reports ys t u → Reports (xs ++ ys) s u
Reports-append xs ys s t u first second = record {
  reported = first.reported ++ second.reported;
  told =
      second.told
      ∙ ap (λ us. us ++ map delete_user second.reported) first.told
      ∙ append_assoc s.upcalls (map delete_user first.reported) (map delete_user second.reported)
      ∙ ap (λ us. s.upcalls ++ us) (sym (map-append first.reported second.reported));
  only = λ j none_.
      let total = count-append j xs ys in
      omega (
        arith,
        count-append j first.reported second.reported,
        total,
        first.only j (omega arith),
        second.only j (omega arith),
      );
  all_open = λ j p e open_ some_. elim (dec_lt 0 (count j xs)) [
    | yes early ↦
        omega
          (arith, count-append j first.reported second.reported, first.all_open j p e open_ early)
    | no late ↦
        let (there, still) = first.kept j p e open_ (omega arith) in
        omega (
          arith,
          count-append j first.reported second.reported,
          second.all_open j p there still (omega (arith, count-append j xs ys)),
        )
  ];
  kept = λ j p e open_ none_.
      let total = count-append j xs ys in
      let (there, still) = first.kept j p e open_ (omega arith) in
      second.kept j p there still (omega arith);
  named = second.named;
}

-- One connection.
module _ (key p : ℕ) (s t : Iocp) (names : IsNamed s) (e : lookup key s.connect_list ≡ some p)
    (d : Drops p s t) where
  still-IsNamed : IsNamed t
  still-IsNamed j q there = ap (λ (g : ℕ → ℕ). g q) d.same_keys ∙ names j q (d.fewer j q there)

  others_kept :
      (j q : ℕ)
      → lookup j s.connect_list ≡ some q
      → s.disconnect_flag q ≡ 0
      → count j (key ∷ []) ≡ 0
      → (lookup j t.connect_list ≡ some q) × (t.disconnect_flag q ≡ 0)
  others_kept j q there open_ none_ =
      let mine = names key p e in
      let other : j ≢ s.context_key p = λ same. ground (arith, same, mine, none_) in
      let apart : q ≢ p = λ same. other (sym (names j q there) ∙ ap (λ r. s.context_key r) same) in
      (d.entries j other ∙ there, d.flags q apart ∙ open_)

  same_context : (j q : ℕ) → lookup j s.connect_list ≡ some q → 1 ≤ count j (key ∷ []) → q ≡ p
  same_context j q there some_ =
      let same : j ≡ key = ground (arith, some_) in
      let both : some q ≡ some p = sym there ∙ ap (λ i. lookup i s.connect_list) same ∙ e in cc

  Drops-Reports : Reports (key ∷ []) s t
  Drops-Reports = elim d.told [
    | inl told_ ↦ record {
      reported = key ∷ [];
      told = told_ ∙ ap (λ k. s.upcalls ++ delete_user k ∷ []) (names key p e);
      only = λ j none_. none_;
      all_open = λ j q there open_ some_. some_;
      kept = others_kept;
      named = still-IsNamed;
    }
    | inr (told_, closed) ↦ record {
      reported = [];
      told = told_ ∙ sym (append-nil s.upcalls);
      only = λ j none_. refl;
      all_open = λ j q there open_ some_.
          absurd
            (closed (ap (λ r. s.disconnect_flag r) (sym (same_context j q there some_)) ∙ open_));
      kept = others_kept;
      named = still-IsNamed;
    }
  ]

absent-Reports :
    (key : ℕ) (s : Iocp) → IsNamed s → lookup key s.connect_list ≡ none → Reports (key ∷ []) s s
absent-Reports key s names e = record {
  reported = [];
  told = sym (append-nil s.upcalls);
  only = λ j none_. refl;
  all_open = λ j q there open_ some_.
      let same : j ≡ key = ground (arith, some_) in
      absurd (none≢some q (sym e ∙ ap (λ i. lookup i s.connect_list) (sym same) ∙ there));
  kept = λ j q there open_ none_. (there, open_);
  named = names;
}
  where
    none≢some : (q : ℕ) → none ≡ some q → ⊥
    none≢some q h = cc

pub disconnect-Reports : (key : ℕ) (s : Iocp) → IsNamed s → Reports (key ∷ []) s (disconnect key s)
unfolding disconnect
disconnect-Reports key s names = elim (Option-cases (lookup key s.connect_list)) [
  | inl e ↦ rw (e, disconnect) (absent-Reports key s names e)
  | inr (p, e) ↦ rw (e, disconnect) (Drops-Reports key p s _ names e (taken-Drops p s))
]
