-- ===== src/Users/Ids.antt =====
-- About single operations of UserInfoManage.cpp and `HandleLoginRq` of MainController.cpp.
use my_communication.Prelude.{
  ℕ, ◌≡◌, ◌≢◌, refl, sym, ap, subst, ◌∙◌, inl, inr, Bool, none, some, ◌==◌, if◌then◌else◌, arith,
  Bool-cases, ==_refl,
}
use my_communication.Prelude.Assoc.{Assoc, lookup, insert, erase, lookup-insert, lookup-erase}
use my_communication.Users.{
  UserInfoManage, register, add_user, delete_user, or_zero, get_client_user_info,
  get_user_key_by_id, add_user_id_user_key_map,
}
use my_communication.Users.Tables.{IsUserTable, nonnull, add_user-Adds, delete_user-removed}

inserted : (k v : ℕ) (m : Assoc ℕ) → lookup k (insert k v m) ≡ some v
inserted k v m = lookup-insert k k v m ∙ ap (λ b. if b then some v else lookup k m) (==_refl k)

registered : (key p : ℕ) (s : UserInfoManage) → get_client_user_info key (register key p s) ≡ p
unfolding get_client_user_info
registered key p s = ap or_zero (inserted key p s.map_user_list)

all_registered :
    (key p j : ℕ) (s : UserInfoManage)
    → get_client_user_info j (register key p s) ≡ (if key == j then p else get_client_user_info j s)
unfolding get_client_user_info
all_registered key p j s = ground (arith, lookup-insert key j p s.map_user_list)

-- A new connection gets a record of its own: it is found under its key, carries the key, no user id
-- and no beats. The record was not in use before, and those of the other keys stay as they are.
pub add_user_lem :
    (key : ℕ) (s : UserInfoManage)
    → IsUserTable s
    → lookup key s.map_user_list ≡ none
    → let t = add_user key s in
      (p : ℕ) × (get_client_user_info key t ≡ p)
      × (p ≢ 0)
      × ((t.users p).user_key ≡ key)
      × ((t.users p).user_id ≡ 0)
      × ((t.users p).heart_count ≡ 0)
      × (lookup p s.rsc_user.using_list ≡ none)
      × ((j : ℕ) → get_client_user_info j t ≡ (if key == j then p else get_client_user_info j s))
      × ((q : ℕ) → t.users q ≡ (if p == q then t.users p else s.users q))
unfolding get_client_user_info
add_user_lem key s sound fresh =
    let (p, r, run, h, _) = add_user-Adds key s sound fresh in
    (
      p,
      subst (λ t. get_client_user_info key t ≡ p) (sym run)
          (registered key p (record s { rsc_user = r })),
      h.nonnull,
      subst (λ t. (t.users p).user_key ≡ key) (sym run) (rw (==_refl p) refl),
      subst (λ t. (t.users p).user_id ≡ 0) (sym run) (rw (==_refl p) refl),
      subst (λ t. (t.users p).heart_count ≡ 0) (sym run) (rw (==_refl p) refl),
      h.was_free,
      λ j.
          subst (λ t. get_client_user_info j t ≡ (if key == j then p else get_client_user_info j s))
            (sym run) (all_registered key p j (record s { rsc_user = r })),
      λ q.
          subst (λ (t : UserInfoManage). t.users q ≡ (if p == q then t.users p else s.users q))
            (sym run) (rw (==_refl p) refl),
    )

erased : (k : ℕ) (m : Assoc ℕ) → lookup k (erase k m) ≡ none
erased k m = lookup-erase k k m ∙ ap (λ (b : Bool). if b then none else lookup k m) (==_refl k)

not_erased : (k j : ℕ) (m : Assoc ℕ) → j ≢ k → lookup j (erase k m) ≡ lookup j m
not_erased k j m other = ground (arith, lookup-erase k j m, other)

-- Closing a connection takes its record back to the pool: the key is not found any more, and the
-- records of the other keys stay.
pub delete_user_lem :
    (key p : ℕ) (s : UserInfoManage)
    → IsUserTable s
    → lookup key s.map_user_list ≡ some p
    → let t = delete_user key s in
      (lookup p t.rsc_user.using_list ≡ none)
      × ((j : ℕ) → get_client_user_info j t ≡ (if key == j then 0 else get_client_user_info j s))
      × (t.users ≡ s.users)
unfolding get_client_user_info
delete_user_lem key p s sound e =
    subst
      (λ t.
        (lookup p t.rsc_user.using_list ≡ none)
        × ((j : ℕ)
            → or_zero (lookup j t.map_user_list)
              ≡ (if key == j then 0 else or_zero (lookup j s.map_user_list)))
        × (t.users ≡ s.users))
      (sym (delete_user-removed key p s sound e))
      (
        erased p s.rsc_user.using_list,
        λ j. ground (arith, lookup-erase key j s.map_user_list),
        refl,
      )

-- What entering an id changes.
pub mapped :
    (id key : ℕ) (s : UserInfoManage)
    → let t = add_user_id_user_key_map id key s in
      (t.users ≡ s.users)
      × (t.map_user_list ≡ s.map_user_list)
      × (get_user_key_by_id id t
          ≡ (if get_user_key_by_id id s == 0 then key else get_user_key_by_id id s))
unfolding add_user_id_user_key_map get_user_key_by_id
mapped id key s = elim (Bool-cases (or_zero (lookup id s.map_id_key) == 0)) [
  | inl e ↦ rw e (refl, refl, ap or_zero (inserted id key s.map_id_key))
  | inr e ↦ rw e (refl, refl, refl)
]

-- Where two connections have logged in under one id, the id leads to the first. Closing the second
-- one makes the id lead nowhere, although the first connection stays.
pub delete_user-duplicate :
    (id first second p q : ℕ) (s : UserInfoManage)
    → IsUserTable s
    → first ≢ second
    → lookup first s.map_user_list ≡ some p
    → lookup second s.map_user_list ≡ some q
    → (s.users q).user_id ≡ id
    → get_user_key_by_id id s ≡ first
    → let t = delete_user second s in
      (get_user_key_by_id id t ≡ 0) × (get_client_user_info first t ≡ p)
unfolding get_user_key_by_id get_client_user_info
delete_user-duplicate id first second p q s sound ne there away named leads =
    subst
      (λ t. (or_zero (lookup id t.map_id_key) ≡ 0) × (or_zero (lookup first t.map_user_list) ≡ p))
      (sym (delete_user-removed second q s sound away))
      (
        ap (λ i. or_zero (lookup id (erase i s.map_id_key))) named
            ∙ ap or_zero (erased id s.map_id_key),
        ap or_zero (not_erased second first s.map_user_list ne ∙ there),
      )
