-- ===== src/Users/Heartbeat.antt =====
-- About `GetOfflineUserList` of UserInfoManage.cpp, which the heartbeat thread of MainController.cpp
-- calls.
use my_communication.Prelude.{
  ℕ, zero, suc, ◌+◌, ◌%◌, ◌^◌, ◌≤◌, ◌<◌, ◌≡◌, ◌≢◌, refl, sym, ap, subst, ◌∙◌, false, [], ◌∷◌, none,
  some, leb, ◌==◌, if◌then◌else◌, arith, ==_refl, count, ℕ_discrete,
}
use my_communication.Prelude.Assoc.{Assoc, lookup, keys, lookup-none}
use my_communication.Users.{
  UserInfo, UserInfoManage, update_user, beat, count_beats, get_offline_user_list, or_zero,
  get_client_user_info, clear_heart_count, handle_heartbeat_nt,
}
use my_communication.Users.Tables.{IsUserTable, nonnull, handle_heartbeat_nt-IsUserTable}

-- Each key of the table stands once in it, and its record carries the key.
pub record Named (m : Assoc ℕ) (users : ℕ → UserInfo) : Type 0 where
  pub named : (key p : ℕ) → lookup key m ≡ some p → (users p).user_key ≡ key
  pub single : (key : ℕ) → count key (keys m) ≤ 1

-- The table behind its first entry.
module _ (k p : ℕ) (m : Assoc ℕ) (users : ℕ → UserInfo) (h : Named ((k, p) ∷ m) users) where
  behind-absent : lookup k m ≡ none
  behind-absent = lookup-none k m (ground (arith, h.single k))

  behind-lookup :
      (key q : ℕ) → lookup key m ≡ some q → (key ≢ k) × (lookup key ((k, p) ∷ m) ≡ some q)
  unfolding lookup
  behind-lookup key q e =
      let other : key ≢ k = λ same. ground (arith, behind-absent, e, same) in
      (other, ground (arith, other, e))

  front-lookup : lookup k ((k, p) ∷ m) ≡ some p
  unfolding lookup
  front-lookup = rw (==_refl k) refl

  behind-apart : (key q : ℕ) → lookup key m ≡ some q → q ≢ p
  behind-apart key q e same =
      let (other, old) = behind-lookup key q e in
      ground (arith, other, same, h.named key q old, h.named k p front-lookup)

  behind-Named : Named m (update_user p (beat (users p)) users)
  behind-Named = record {
    named = λ key q e.
        let (_, old) = behind-lookup key q e in
        ground (arith, behind-apart key q e, h.named key q old);
    single = λ key. ground (arith, h.single key);
  }

-- A record that no entry names stays as it is.
count_beats-frame :
    (m : Assoc ℕ) (users : ℕ → UserInfo) (p : ℕ)
    → ((key q : ℕ) → lookup key m ≡ some q → q ≢ p)
    → Named m users
    → (count_beats m users).0 p ≡ users p
unfolding count_beats lookup
count_beats-frame [] users p apart h = refl
count_beats-frame ((k, q) ∷ m) users p apart h =
    let ne : q ≢ p = apart k q (front-lookup k q m users h) in
    count_beats-frame m (update_user q (beat (users q)) users) p
      (λ key r e. apart key r (behind-lookup k q m users h key r e).1) (behind-Named k q m users h)
    ∙ ground (arith, ne)

lookup-nil : (key p : ℕ) → lookup {V = ℕ} key [] ≡ some p → ⊥
unfolding lookup
lookup-nil key p e = cc

front-is :
    (k q : ℕ) (m : Assoc ℕ) (users : ℕ → UserInfo)
    → Named ((k, q) ∷ m) users
    → (key p : ℕ) → key ≡ k
    → lookup key ((k, q) ∷ m) ≡ some p
    → q ≡ p
front-is k q m users h key p same e =
    let there : some q ≡ some p =
      sym (front-lookup k q m users h) ∙ ap (λ j. lookup j ((k, q) ∷ m)) (sym same) ∙ e in
    cc

behind-none :
    (k p : ℕ) (m : Assoc ℕ) (key : ℕ)
    → key ≢ k
    → lookup key ((k, p) ∷ m) ≡ none
    → lookup key m ≡ none
unfolding lookup
behind-none k p m key other e = ground (arith, other, e)

behind-some :
    (k p : ℕ) (m : Assoc ℕ) (key q : ℕ)
    → key ≢ k
    → lookup key ((k, p) ∷ m) ≡ some q
    → lookup key m ≡ some q
unfolding lookup
behind-some k p m key q other e = ground (arith, other, e)

-- The keys that are listed stand in the table.
count_beats-listed :
    (m : Assoc ℕ) (users : ℕ → UserInfo) (key : ℕ)
    → Named m users
    → lookup key m ≡ none
    → count key (count_beats m users).1 ≡ 0
unfolding count_beats
count_beats-listed [] users key h e = refl
count_beats-listed ((k, p) ∷ m) users key h e =
    let front = front-lookup k p m users h in
    let other : key ≢ k = λ same. ground (arith, front, e, same) in
    let ih =
      count_beats-listed m (update_user p (beat (users p)) users) key (behind-Named k p m users h)
        (behind-none k p m key other e) in
    ground (arith, ih, other, h.named k p front)

-- One beat for the record of an entry, and a report if that makes twelve or more.
count_beats_lem :
    (m : Assoc ℕ) (users : ℕ → UserInfo) (key p : ℕ)
    → Named m users
    → lookup key m ≡ some p
    → ((count_beats m users).0 p ≡ beat (users p))
      × (count key (count_beats m users).1 ≡ (if leb 12 (beat (users p)).heart_count then 1 else 0))
unfolding count_beats
count_beats_lem [] users key p h e = absurd (lookup-nil key p e)
count_beats_lem ((k, q) ∷ m) users key p h e = elim (ℕ_discrete key k) [
  | yes same ↦
      let here : q ≡ p = front-is k q m users h key p same e in
      let absent : lookup key m ≡ none = rw same (behind-absent k q m users h) in
      let still =
        count_beats-frame m users₁ q (behind-apart k q m users h) (behind-Named k q m users h) in
      let none_ = count_beats-listed m users₁ key (behind-Named k q m users h) absent in
      let known = h.named k q (front-lookup k q m users h) in
      subst
        (λ r.
          (after r ≡ beat (users r))
          × (count key (count_beats ((k, q) ∷ m) users).1
              ≡ (if leb 12 (beat (users r)).heart_count then 1 else 0)))
        here (still ∙ rw (==_refl q) refl, ground (arith, none_, known, same))
  | no other ↦
      let behind = behind-some k q m key p other e in
      let apart : p ≢ q = behind-apart k q m users h key p behind in
      let unchanged : users₁ p ≡ users p = ground (arith, apart) in
      let (beaten, reported) =
        subst
          (λ u.
            (after p ≡ beat u)
            × (count key (count_beats m users₁).1 ≡ (if leb 12 (beat u).heart_count then 1 else 0)))
          unchanged (count_beats_lem m users₁ key p (behind-Named k q m users h) behind) in
      let known = h.named k q (front-lookup k q m users h) in
      (beaten, ground (arith, reported, known, other))
]
  where
    users₁ : ℕ → UserInfo
    users₁ = update_user q (beat (users q)) users

    after : ℕ → UserInfo
    after = (count_beats m users₁).0

abbrev pub the_named : (s : UserInfoManage) → IsUserTable s → Named s.map_user_list s.users
the_named s sound = record { named = sound.named; single = sound.single }

-- One call counts one beat for a user of the table, and lists the user once if that makes twelve
-- or more, and else not at all.
pub get_offline_user_list_lem :
    (key p : ℕ) (s : UserInfoManage)
    → IsUserTable s
    → lookup key s.map_user_list ≡ some p
    → let (t, list) = get_offline_user_list s in
      (t.users p ≡ beat (s.users p))
      × (t.map_user_list ≡ s.map_user_list)
      × (count key list ≡ (if leb 12 (beat (s.users p)).heart_count then 1 else 0))
unfolding get_offline_user_list
get_offline_user_list_lem key p s sound e =
    let (beaten, reported) = count_beats_lem s.map_user_list s.users key p (the_named s sound) e in
    (beaten, refl, reported)

-- Beats write the count alone.
count_beats-keys :
    (m : Assoc ℕ) (users : ℕ → UserInfo) (p : ℕ)
    → ((count_beats m users).0 p).user_key ≡ (users p).user_key
unfolding count_beats
count_beats-keys [] users p = refl
count_beats-keys ((k, q) ∷ m) users p =
    count_beats-keys m (update_user q (beat (users q)) users) p ∙ ground arith

pub get_offline_user_list-IsUserTable :
    (s : UserInfoManage) → IsUserTable s → IsUserTable (get_offline_user_list s).0
unfolding get_offline_user_list
get_offline_user_list-IsUserTable s sound = record {
  valid = sound.valid;
  unlimited = sound.unlimited;
  live = sound.live;
  named = λ key p e. count_beats-keys s.map_user_list s.users p ∙ sound.named key p e;
  single = sound.single;
}

-- The state after `n` calls.
abbrev pub beats : ℕ → UserInfoManage → UserInfoManage
beats zero s = s
beats (suc n) s = (get_offline_user_list (beats n s)).0

beats_lem :
    (n key p : ℕ) (s : UserInfoManage)
    → IsUserTable s
    → lookup key s.map_user_list ≡ some p
    → (s.users p).heart_count ≡ 0
    → n < 2 ^ 32
    → IsUserTable (beats n s)
      × (lookup key (beats n s).map_user_list ≡ some p)
      × (((beats n s).users p).heart_count ≡ n)
beats_lem zero key p s sound e z small = (sound, e, z)
beats_lem (suc n) key p s sound e z small =
    let (fine, there, counted) = beats_lem n key p s sound e z (omega arith) in
    let (beaten, same, _) = get_offline_user_list_lem key p (beats n s) fine there in
    (
      get_offline_user_list-IsUserTable (beats n s) fine,
      ap (lookup key) same ∙ there,
      ap (λ (u : UserInfo). u.heart_count) beaten ∙ omega (arith, counted),
    )

heard :
    (key p : ℕ) (s : UserInfoManage)
    → IsUserTable s
    → lookup key s.map_user_list ≡ some p
    → handle_heartbeat_nt key s ≡ clear_heart_count p s
unfolding handle_heartbeat_nt get_client_user_info
heard key p s sound e =
    let other = nonnull s sound key p e in
    let no_null : p == 0 ≡ false = ground arith in rw (e, or_zero, no_null) refl

-- A user whose heartbeat has come is reported by the twelfth call after it, and by every later one
-- for as long as the count does not wrap, but by none before; and once in a list.
pub silent_user :
    (n key p : ℕ) (s : UserInfoManage)
    → IsUserTable s
    → lookup key s.map_user_list ≡ some p
    → n + 1 < 2 ^ 32
    → count key (get_offline_user_list (beats n (handle_heartbeat_nt key s))).1
      ≡ (if leb 12 (n + 1) then 1 else 0)
silent_user n key p s sound e small =
    let t = handle_heartbeat_nt key s in
    let run = heard key p s sound e in
    let there : lookup key t.map_user_list ≡ some p =
      ap (λ (u : UserInfoManage). lookup key u.map_user_list) run ∙ e in
    let zero_ : (t.users p).heart_count ≡ 0 =
      ap (λ (u : UserInfoManage). (u.users p).heart_count) run ∙ rw (==_refl p) refl in
    let (fine, listed, counted) =
      beats_lem n key p t (handle_heartbeat_nt-IsUserTable key s sound) there zero_ (omega arith) in
    let (_, _, reported) = get_offline_user_list_lem key p (beats n t) fine listed in
    let plus : (((beats n t).users p).heart_count + 1) % 2 ^ 32 ≡ n + 1 = omega (arith, counted) in
    reported ∙ ap (λ c. if leb 12 c then 1 else 0) plus
