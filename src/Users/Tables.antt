-- ===== src/Users/Tables.antt =====
-- About the table of users and the pool of user records of
-- ServerFramework/Model/ModelManage/UserInfoManage.cpp.
use my_communication.Prelude.{
  ℕ, ◌≤◌, ◌≡◌, ◌≢◌, refl, sym, ap, subst, ◌∙◌, ◌⊎◌, inl, inr, false, none, some, ◌==◌, arith,
  Bool-cases, Option-cases, count, ℕ_discrete,
}
use my_communication.Prelude.Assoc.{
  Assoc, lookup, insert, erase, keys, lookup-insert, lookup-erase, count-keys-insert,
  count-keys-erase, count-keys-none,
}
use my_communication.Resource.{ResourceManage, construct}
use my_communication.Resource.Invariant.{
  IsValid, IsLive, Handed, construct-IsValid, returned, put-live, returned-IsValid, live-nonnull,
}
use my_communication.Resource.Steps.{get_unlimited}
use my_communication.Users.{
  UserInfo, UserInfoManage, new_user_info_manage, user_resource_count, update_user, take_user,
  register, add_user, delete_user, or_zero, get_client_user_info, add_user_id_user_key_map, LoginRq,
  log_in, handle_login_rq, handle_heartbeat_nt,
}

pub record IsUserTable (s : UserInfoManage) : Type 0 where
  pub valid : IsValid s.rsc_user
  pub unlimited : s.rsc_user.is_limited ≡ false
  pub live : (key p : ℕ) → lookup key s.map_user_list ≡ some p → IsLive s.rsc_user p
  pub named : (key p : ℕ) → lookup key s.map_user_list ≡ some p → (s.users p).user_key ≡ key
  pub single : (key : ℕ) → count key (keys s.map_user_list) ≤ 1

insert-cases :
    (key p k q : ℕ) (m : Assoc ℕ)
    → lookup k (insert key p m) ≡ some q
    → ((k ≡ key) × (q ≡ p)) ⊎ ((k ≢ key) × (lookup k m ≡ some q))
insert-cases key p k q m e = elim (ℕ_discrete k key) [
  | yes same ↦ inl (same, ground (arith, lookup-insert key k p m, e, same))
  | no other ↦ inr (other, ground (arith, lookup-insert key k p m, e, other))
]

erase-cases :
    (key k q : ℕ) (m : Assoc ℕ)
    → lookup k (erase key m) ≡ some q
    → (k ≢ key) × (lookup k m ≡ some q)
erase-cases key k q m e = elim (ℕ_discrete k key) [
  | yes same ↦ absurd (ground (arith, lookup-erase key k m, e, same))
  | no other ↦ (other, ground (arith, lookup-erase key k m, e, other))
]

pub nonnull :
    (s : UserInfoManage) → IsUserTable s → (key p : ℕ) → lookup key s.map_user_list ≡ some p → p ≢ 0
nonnull s sound key p e = live-nonnull s.rsc_user p sound.valid (sound.live key p e)

pub take_user_lem :
    (s : UserInfoManage)
    → IsUserTable s
    → (p : ℕ) × (t : ResourceManage) × (take_user s ≡ (p, record s { rsc_user = t }))
      × Handed s.rsc_user p t
      × (t.is_limited ≡ false)
unfolding take_user
take_user_lem s sound =
    let (p, t, run, h, free) = get_unlimited s.rsc_user sound.valid sound.unlimited in
    (p, t, rw (run, take_user) refl, h, free)

pub add_user-present :
    (key p : ℕ) (s : UserInfoManage)
    → IsUserTable s
    → lookup key s.map_user_list ≡ some p
    → add_user key s ≡ s
unfolding add_user
add_user-present key p s sound e =
    let other = nonnull s sound key p e in
    let no_null : p == 0 ≡ false = ground arith in rw (e, add_user, no_null) refl

add_user-fresh :
    (key : ℕ) (s : UserInfoManage)
    → lookup key s.map_user_list ≡ none
    → add_user key s ≡ register key (take_user s).0 (take_user s).1
unfolding add_user
add_user-fresh key s e = rw (e, add_user) refl

-- What `AddUser` of a new key makes of a sound state.
abbrev pub Adds : ℕ → UserInfoManage → Type 0
Adds key s =
    (p : ℕ) × (t : ResourceManage) × (add_user key s ≡ register key p (record s { rsc_user = t }))
    × Handed s.rsc_user p t
    × (t.is_limited ≡ false)

pub add_user-Adds :
    (key : ℕ) (s : UserInfoManage) → IsUserTable s → lookup key s.map_user_list ≡ none → Adds key s
add_user-Adds key s sound e =
    let (p, t, run, h, free) = take_user_lem s sound in
    let step = ap (λ (r : ℕ × UserInfoManage). register key r.0 r.1) run in
    (p, t, add_user-fresh key s e ∙ step, h, free)

module _ (key : ℕ) (s : UserInfoManage) (sound : IsUserTable s) where
  register-IsUserTable :
      (p : ℕ) (t : ResourceManage)
      → lookup key s.map_user_list ≡ none
      → Handed s.rsc_user p t
      → t.is_limited ≡ false
      → IsUserTable (register key p (record s { rsc_user = t }))
  register-IsUserTable p t fresh h free = record {
    valid = h.valid;
    unlimited = free;
    live = λ k q e. elim (insert-cases key p k q s.map_user_list e) [
      | inl (_, same) ↦ subst (IsLive t) (sym same) h.live
      | inr (_, old) ↦ kept q (sound.live k q old)
    ];
    named = λ k q e. elim (insert-cases key p k q s.map_user_list e) [
      | inl (here, same) ↦ ground (arith, here, same)
      | inr (_, old) ↦
          let apart : q ≢ p = λ same. ground (arith, h.was_free, sound.live k q old, same) in
          ground (arith, apart, sound.named k q old)
    ];
    single = λ k. ground (
      arith,
      sound.single k,
      count-keys-none key s.map_user_list fresh,
      count-keys-insert key k p s.map_user_list fresh,
    );
  }
    where
      kept : (q : ℕ) → IsLive s.rsc_user q → IsLive t q
      kept q held =
          let apart : q ≢ p = λ same. ground (arith, h.was_free, held, same) in
          h.others q apart ∙ held

  pub add_user-IsUserTable : IsUserTable (add_user key s)
  add_user-IsUserTable = elim (Option-cases (lookup key s.map_user_list)) [
    | inl fresh ↦
        let (p, t, run, h, free) = add_user-Adds key s sound fresh in
        subst IsUserTable (sym run) (register-IsUserTable p t fresh h free)
    | inr (p, e) ↦ subst IsUserTable (sym (add_user-present key p s sound e)) sound
  ]

-- The table after a user with a record has gone.
abbrev pub removed : ℕ → ℕ → UserInfoManage → UserInfoManage
removed key p s = record s {
  map_user_list = erase key s.map_user_list;
  map_id_key = erase (s.users p).user_id s.map_id_key;
  rsc_user = returned p s.rsc_user;
}

pub delete_user-removed :
    (key p : ℕ) (s : UserInfoManage)
    → IsUserTable s
    → lookup key s.map_user_list ≡ some p
    → delete_user key s ≡ removed key p s
unfolding delete_user
delete_user-removed key p s sound e =
    let other = nonnull s sound key p e in
    let no_null : p == 0 ≡ false = ground arith in
    let back = put-live s.rsc_user p sound.valid (sound.live key p e) in
    rw (e, delete_user, no_null, back) refl

pub delete_user-absent :
    (key : ℕ) (s : UserInfoManage) → lookup key s.map_user_list ≡ none → delete_user key s ≡ s
unfolding delete_user
delete_user-absent key s e = rw (e, delete_user) refl

removed-IsUserTable :
    (key p : ℕ) (s : UserInfoManage)
    → IsUserTable s
    → lookup key s.map_user_list ≡ some p
    → IsUserTable (removed key p s)
removed-IsUserTable key p s sound here = record {
  valid = returned-IsValid s.rsc_user p sound.valid (sound.live key p here);
  unlimited = sound.unlimited;
  live = λ k q e.
      let (other, old) = erase-cases key k q s.map_user_list e in
      let apart : q ≢ p =
        λ same. ground (arith, other, same, sound.named k q old, sound.named key p here) in
      ground (arith, lookup-erase p q s.rsc_user.using_list, sound.live k q old, apart);
  named = λ k q e. sound.named k q (erase-cases key k q s.map_user_list e).1;
  single = λ k. ground (arith, sound.single k, count-keys-erase key k s.map_user_list);
}

pub delete_user-IsUserTable :
    (key : ℕ) (s : UserInfoManage) → IsUserTable s → IsUserTable (delete_user key s)
delete_user-IsUserTable key s sound = elim (Option-cases (lookup key s.map_user_list)) [
  | inl e ↦ subst IsUserTable (sym (delete_user-absent key s e)) sound
  | inr (p, e) ↦
      subst IsUserTable (sym (delete_user-removed key p s sound e))
        (removed-IsUserTable key p s sound e)
]

pub new_user_info_manage-IsUserTable :
    (users : ℕ → UserInfo) → IsUserTable (new_user_info_manage users)
unfolding new_user_info_manage construct lookup
new_user_info_manage-IsUserTable users = record {
  valid = construct-IsValid 1 user_resource_count (omega arith) (omega arith);
  unlimited = refl;
  live = λ key p e. absurd (cc);
  named = λ key p e. absurd (cc);
  single = λ key. omega arith;
}

-- A write to a record that keeps its key.
update_user-IsUserTable :
    (p : ℕ) (u : UserInfo) (s : UserInfoManage)
    → IsUserTable s
    → u.user_key ≡ (s.users p).user_key
    → IsUserTable (record s { users = update_user p u s.users })
update_user-IsUserTable p u s sound same = record {
  valid = sound.valid;
  unlimited = sound.unlimited;
  live = sound.live;
  named = λ key q e. ground (arith, same, sound.named key q e);
  single = sound.single;
}

pub add_user_id_user_key_map-IsUserTable :
    (id key : ℕ) (s : UserInfoManage)
    → IsUserTable s
    → IsUserTable (add_user_id_user_key_map id key s)
unfolding add_user_id_user_key_map
add_user_id_user_key_map-IsUserTable id key s sound =
    elim (Bool-cases (or_zero (lookup id s.map_id_key) == 0)) [
      | inl e ↦ rw e (record {
        valid = sound.valid;
        unlimited = sound.unlimited;
        live = sound.live;
        named = sound.named;
        single = sound.single;
      })
      | inr e ↦ rw e sound
    ]

pub handle_login_rq-IsUserTable :
    (key : ℕ) (rq : LoginRq) (s : UserInfoManage)
    → IsUserTable s
    → IsUserTable (handle_login_rq key rq s).0
unfolding handle_login_rq
handle_login_rq-IsUserTable key rq s sound =
    let p = get_client_user_info key s in
    elim (Bool-cases (p == 0)) [
      | inl e ↦ rw e sound
      | inr e ↦ rw e (
          add_user_id_user_key_map-IsUserTable rq.user_id key
            (record s { users = update_user p (log_in rq (s.users p)) s.users })
            (update_user-IsUserTable p (log_in rq (s.users p)) s sound refl))
    ]

pub handle_heartbeat_nt-IsUserTable :
    (key : ℕ) (s : UserInfoManage) → IsUserTable s → IsUserTable (handle_heartbeat_nt key s)
unfolding handle_heartbeat_nt
handle_heartbeat_nt-IsUserTable key s sound =
    let p = get_client_user_info key s in
    elim (Bool-cases (p == 0)) [
      | inl e ↦ rw e sound
      | inr e ↦
          rw e (update_user-IsUserTable p (record (s.users p) { heart_count = 0 }) s sound refl)
    ]
