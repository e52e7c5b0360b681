-- ===== src/ServerConnect/Reconnecting.antt =====
-- About `ConnectNotify`, `DeleteUser` and the daemon's round of
-- QClientFramework/Component/Communication/ServerConnect.cpp.
use my_communication.Prelude.{
  ℕ, ◌≡◌, refl, ap, List, [], ◌∷◌, Option, none, some, ◌==◌, if◌then◌else◌, Bool-cases, inl, inr,
}
use my_communication.Prelude.Assoc.{Assoc, keys}
use my_communication.Iocp.State.{Iocp}
use my_communication.Iocp.Connect.{add_connect}
use my_communication.Iocp.Steps.{IsIntact, add_connect-IsIntact}
use my_communication.ServerConnect.{ServerInfo, wants, reconnect_all}

-- What becomes of an entry whose connection has been lost.
abbrev pub after_loss : Option ServerInfo → Option ServerInfo
after_loss none = none
after_loss (some i) = if i.recnnt == 0 then none else some (wants i)

-- A round of the daemon keeps the keys of the table, and the connections below stay intact.
pub reconnect_all_lem :
    (m : Assoc ServerInfo) (s : Iocp)
    → IsIntact s
    → (keys (reconnect_all m s).0 ≡ keys m) × IsIntact (reconnect_all m s).1
unfolding reconnect_all
reconnect_all_lem [] s sound = (refl, sound)
reconnect_all_lem ((k, i) ∷ m) s sound =
    let (same, fine) = reconnect_all_lem m s sound in
    let s₁ = (add_connect i.user_key s).0 in
    let (same₁, fine₁) = reconnect_all_lem m s₁ (add_connect-IsIntact i.user_key s sound) in
    elim (Bool-cases i.need_connect) [
      | inl needs ↦ rw needs (ap (λ (l : List ℕ). k ∷ l) same₁, fine₁)
      | inr no_need ↦ rw no_need (ap (λ (l : List ℕ). k ∷ l) same, fine)
    ]
