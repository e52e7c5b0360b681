-- ===== src/Server/Known.antt =====
-- About the users that the server knows, through all that `TCPServer`, the message threads and the
-- heartbeat thread do with them.
use my_communication.Prelude.{
  ℕ, ◌≡◌, refl, sym, ap, subst, ◌∙◌, inl, inr, Bool, true, false, not, List, [], ◌∷◌, none, some,
  ◌==◌, if◌then◌else◌, arith, Bool-cases, Option-cases, fun_ext,
}
use my_communication.Prelude.Assoc.{lookup}
use my_communication.Iocp.State.{Upcall, add_user, connect_notify, hand_data, delete_user}
use my_communication.Users
use my_communication.Users.{UserInfoManage, or_zero, get_client_user_info, get_offline_user_list}
use my_communication.Users.Tables.{
  IsUserTable, nonnull, add_user-present, delete_user-absent, add_user-IsUserTable,
  delete_user-IsUserTable,
}
use my_communication.Users.Heartbeat.{get_offline_user_list-IsUserTable}
use my_communication.Users.Ids.{add_user_lem, delete_user_lem}
use my_communication.Messages.{Parser, add_message_data}
use my_communication.Server.{Site, on_upcall, handle_next, beat_site}
use my_communication.Server.Handling.{
  after_handling, add_message_data-SameHandling, add_message_data-IsQueue, handle_next-Keeps,
}
use my_communication.Server.Kept.{known, IsSite, AllKeep}

-- What happens on the server, as far as the users are concerned: a call of the connections, a
-- message that a thread handles, a round of the heartbeat thread.
pub data Event : Type 0 where
  calls : Upcall → Event
  handles beats : Event

unfoldable pub happen : Parser → Event → Site → Site
happen parser (calls u) s = on_upcall parser u s
happen parser handles s = after_handling s (handle_next s)
happen parser beats s = (beat_site s).0

unfoldable pub run : Parser → List Event → Site → Site
run parser [] s = s
run parser (e ∷ es) s = run parser es (happen parser e s)

-- The same on the set of those who are connected.
abbrev pub connect : Event → (ℕ → Bool) → ℕ → Bool
connect (calls (add_user key)) connected j = if key == j then true else connected j
connect (calls (delete_user key)) connected j = if key == j then false else connected j
connect _ connected j = connected j

abbrev pub replay : List Event → (ℕ → Bool) → ℕ → Bool
replay [] connected = connected
replay (e ∷ es) connected = replay es (connect e connected)

-- The same key's record, wherever the maps agree.
pub unchanged :
    (s t : UserInfoManage) → t.map_user_list ≡ s.map_user_list → (j : ℕ) → known t j ≡ known s j
unfolding get_client_user_info
unchanged s t same j = ap (λ m. not (or_zero (lookup j m) == 0)) same

pub is_known :
    (key p : ℕ) (s : UserInfoManage)
    → IsUserTable s
    → lookup key s.map_user_list ≡ some p
    → known s key ≡ true
unfolding get_client_user_info
is_known key p s sound e =
    let other = nonnull s sound key p e in
    let no_null : p == 0 ≡ false = ground arith in rw (e, or_zero, no_null) refl

is_unknown :
    (key : ℕ) (s : UserInfoManage) → lookup key s.map_user_list ≡ none → known s key ≡ false
unfolding get_client_user_info
is_unknown key s e = rw (e, or_zero) refl

already : (key j : ℕ) (b : Bool) (f : ℕ → Bool) → f key ≡ b → f j ≡ (if key == j then b else f j)
already key j b f e = elim (Bool-cases (key == j)) [
  | inl same ↦ let equal : key ≡ j = ground (arith, same) in rw same (sym (ap f equal) ∙ e)
  | inr other ↦ rw other refl
]

add_user-known :
    (key : ℕ) (s : UserInfoManage)
    → IsUserTable s
    → (j : ℕ) → known (Users.add_user key s) j ≡ (if key == j then true else known s j)
add_user-known key s sound j = elim (Option-cases (lookup key s.map_user_list)) [
  | inl fresh ↦
      let (p, _, other, _, _, _, _, all, _) = add_user_lem key s sound fresh in
      ground (arith, all j, other)
  | inr (p, e) ↦
      ap (λ t. known t j) (add_user-present key p s sound e)
      ∙ already key j true (known s) (is_known key p s sound e)
]

delete_user-known :
    (key : ℕ) (s : UserInfoManage)
    → IsUserTable s
    → (j : ℕ) → known (Users.delete_user key s) j ≡ (if key == j then false else known s j)
delete_user-known key s sound j = elim (Option-cases (lookup key s.map_user_list)) [
  | inl absent ↦
      ap (λ t. known t j) (delete_user-absent key s absent)
      ∙ already key j false (known s) (is_unknown key s absent)
  | inr (p, e) ↦ let (_, all, _) = delete_user_lem key p s sound e in ground (arith, all j)
]

-- A call that is carried out, as `TCPServer` is linked to the users and the messages.
carried_out :
    (t s : Site) (e : Event)
    → s.linked ≡ true
    → IsSite t × ((j : ℕ) → known t.users j ≡ connect e (known s.users) j)
    → let u = if s.linked then t else s in
      IsSite u × ((j : ℕ) → known u.users j ≡ connect e (known s.users) j)
carried_out t s e linked fine =
    subst (λ (u : Site). IsSite u × ((j : ℕ) → known u.users j ≡ connect e (known s.users) j))
      (sym (ap (λ (b : Bool). if b then t else s) linked)) fine

with_users :
    (users : UserInfoManage) (s : Site)
    → IsSite s
    → IsUserTable users
    → IsSite (record s { users = users })
with_users users s sound table = record {
  linked = sound.linked;
  table = table;
  queue = sound.queue;
  handlers = sound.handlers;
}

pub calls-refines :
    (parser : Parser) (u : Upcall) (s : Site)
    → IsSite s
    → IsSite (on_upcall parser u s)
      × ((j : ℕ) → known (on_upcall parser u s).users j ≡ connect (calls u) (known s.users) j)
unfolding on_upcall
calls-refines parser (connect_notify key success) s sound = (sound, λ j. refl)
calls-refines parser (add_user key) s sound =
    carried_out (record s { users = Users.add_user key s.users }) s (calls (add_user key))
      sound.linked
      (
        with_users (Users.add_user key s.users) s sound
            (add_user-IsUserTable key s.users sound.table),
        add_user-known key s.users sound.table,
      )
calls-refines parser (delete_user key) s sound =
    carried_out (record s { users = Users.delete_user key s.users }) s (calls (delete_user key))
      sound.linked
      (
        with_users (Users.delete_user key s.users) s sound
            (delete_user-IsUserTable key s.users sound.table),
        delete_user-known key s.users sound.table,
      )
calls-refines parser (hand_data key d) s sound =
    let messages = add_message_data parser key d.msg_type d.body s.messages in
    let same = (add_message_data-SameHandling parser key d.msg_type d.body s.messages).1 in
    carried_out (record s { messages = messages }) s (calls (hand_data key d)) sound.linked
      (
        record {
          linked = sound.linked;
          table = sound.table;
          queue = add_message_data-IsQueue parser key d.msg_type d.body s.messages sound.queue;
          handlers = subst AllKeep (sym same) sound.handlers;
        },
        λ j. refl,
      )

pub beat_site-Keeps :
    (s : Site)
    → IsSite s
    → IsSite (beat_site s).0 × ((j : ℕ) → known (beat_site s).0.users j ≡ known s.users j)
unfolding get_offline_user_list
beat_site-Keeps s sound = (
  with_users (get_offline_user_list s.users).0 s sound
      (get_offline_user_list-IsUserTable s.users sound.table),
  unchanged s.users (beat_site s).0.users refl,
)

pub happen-refines :
    (parser : Parser) (e : Event) (s : Site)
    → IsSite s
    → IsSite (happen parser e s)
      × ((j : ℕ) → known (happen parser e s).users j ≡ connect e (known s.users) j)
unfolding happen
happen-refines parser (calls u) s sound = calls-refines parser u s sound
happen-refines parser handles s sound =
    let (fine, same) = handle_next-Keeps s sound in
    (fine, unchanged s.users (after_handling s (handle_next s)).users same)
happen-refines parser beats s sound = beat_site-Keeps s sound

-- The table of users refines the set of the connected ones. Whatever the connections, the message
-- threads and the heartbeat thread do, one after another: a key is known afterwards exactly if the
-- last call of the connections about it was that it came, or if there was no call about it and it
-- was known before. The table, the message queue and the handlers stay sound.
pub run_refines :
    (parser : Parser) (es : List Event) (s : Site)
    → IsSite s
    → IsSite (run parser es s)
      × ((j : ℕ) → known (run parser es s).users j ≡ replay es (known s.users) j)
unfolding run
run_refines parser [] s sound = (sound, λ j. refl)
run_refines parser (e ∷ es) s sound =
    let (fine, step) = happen-refines parser e s sound in
    let (done, rest) = run_refines parser es (happen parser e s) fine in
    (done, λ j. rest j ∙ ap (λ f. replay es f j) (fun_ext step))
