-- ===== src/ServerConnect.antt =====
-- QClientFramework/Component/Communication/ServerConnect.cpp: the client's table of servers, and the
-- loop of its daemon thread that connects again. The signals to the windows are left out.
pub mod Reconnecting
use my_communication.Prelude.{
  ℕ, Bool, true, false, List, [], ◌∷◌, Option, none, some, ◌==◌, if◌then◌else◌,
}
use my_communication.Prelude.Assoc.{Assoc, lookup, insert, erase}
use my_communication.Iocp.State.{Iocp}
use my_communication.Iocp.Disconnect.{disconnect}
use my_communication.Iocp.Connect.{add_connect}

-- `iRecnnt` is an int, as a 32-bit pattern; the code only asks whether it is 0.
pub record ServerInfo : Type 0 where
  pub user_key : ℕ
  pub ip : List ℕ
  pub port : ℕ
  pub recnnt : ℕ
  pub need_connect : Bool

pub record ServerConnect : Type 0 where
  pub map_srv_info : Assoc ServerInfo
  pub client : Iocp

unfoldable pub add_server : ℕ → List ℕ → ℕ → ℕ → ServerConnect → ServerConnect × Bool
add_server key ip port recnnt s =
    let info : ServerInfo = record {
      user_key = key;
      ip = ip;
      port = port;
      recnnt = recnnt;
      need_connect = false;
    } in
    let (client, started) = add_connect key s.client in
    (record { map_srv_info = insert key info s.map_srv_info; client = client }, started)

unfoldable pub disconnect_server : ℕ → ServerConnect → ServerConnect
disconnect_server key s = record {
  map_srv_info = erase key s.map_srv_info;
  client = disconnect key s.client;
}

abbrev pub wants : ServerInfo → ServerInfo
wants i = record i { need_connect = true }

-- `ConnectNotify` and `DeleteUser`, which the layer below calls.
unfoldable pub on_connect_notify : ℕ → Bool → Assoc ServerInfo → Assoc ServerInfo
on_connect_notify key success m = elim (lookup key m) [
  | none ↦ m
  | some i ↦ if success then m else insert key (wants i) m
]

unfoldable pub on_delete_user : ℕ → Assoc ServerInfo → Assoc ServerInfo
on_delete_user key m = elim (lookup key m) [
  | none ↦ m
  | some i ↦ if i.recnnt == 0 then erase key m else insert key (wants i) m
]

abbrev pub attempted : Bool → ServerInfo → ServerInfo
attempted true i = record i { need_connect = false }
attempted false i = i

-- One round of the daemon over the table.
unfoldable pub reconnect_all : Assoc ServerInfo → Iocp → Assoc ServerInfo × Iocp
reconnect_all [] s = ([], s)
reconnect_all ((k, i) ∷ m) s =
    let (s₁, started) = add_connect i.user_key s in
    let (tried, after) = reconnect_all m s₁ in
    let (kept, later) = reconnect_all m s in
    if i.need_connect then ((k, attempted started i) ∷ tried, after) else ((k, i) ∷ kept, later)
