-- ===== src/Server/Silence.antt =====
-- About `HeartbeatHandle` of MainController.cpp, with `GetOfflineUserList` of UserInfoManage.cpp below
-- it, `Disconnect` of IOCPBase.cpp and the `DeleteUser` that comes back.
use my_communication.Prelude.{
  ℕ, ◌≤◌, ◌≡◌, refl, ap, ◌∙◌, Bool, true, false, not, List, [], ◌∷◌, ◌++◌, some, leb, ◌==◌,
  if◌then◌else◌, map, arith, count,
}
use my_communication.Prelude.Assoc.{lookup}
use my_communication.Iocp.State.{Iocp, delete_user}
use my_communication.Iocp.Disconnect.{disconnect}
use my_communication.Iocp.Dropping.{IsNamed}
use my_communication.Iocp.Reporting.{Reports, Reports-nil, Reports-append, disconnect-Reports}
use my_communication.Users.{beat}
use my_communication.Users.Heartbeat.{get_offline_user_list_lem}
use my_communication.Messages.{Parser}
use my_communication.Server.{Server, settle, disconnect_all, beat_site, timed_out, heartbeat_round}
use my_communication.Server.Kept.{known}
use my_communication.Server.Known.{is_known}
use my_communication.Server.Whole.{IsWhole, heartbeat, replay_calls, Step-Follows}

disconnect_all-Reports :
    (keys : List ℕ) (s : Iocp) → IsNamed s → Reports keys s (disconnect_all keys s)
unfolding disconnect_all
disconnect_all-Reports [] s names = Reports-nil s names
disconnect_all-Reports (key ∷ keys) s names =
    let first = disconnect-Reports key s names in
    Reports-append (key ∷ []) keys s (disconnect key s) (disconnect_all keys (disconnect key s))
      first (disconnect_all-Reports keys (disconnect key s) first.named)

-- Who is known after some users have been deleted.
deleted :
    (ks : List ℕ) (f : ℕ → Bool) (j : ℕ)
    → replay_calls (map delete_user ks) f j ≡ (if count j ks == 0 then f j else false)
deleted [] f j = refl
deleted (k ∷ ks) f j = ground (arith, deleted ks (λ i. if k == i then false else f i) j)

verdict :
    (silent before : Bool) (listed reported : ℕ)
    → before ≡ true
    → listed ≡ (if silent then 1 else 0)
    → (listed ≡ 0 → reported ≡ 0)
    → (1 ≤ listed → 1 ≤ reported)
    → (if reported == 0 then before else false) ≡ not silent
verdict false before listed reported was none_ only all_ =
    let zero_ = only none_ in rw (zero_, was) refl
verdict true before listed reported was one only all_ =
    let some_ = all_ (omega arith) in
    let other : reported == 0 ≡ false = ground arith in rw other refl

-- A round of the heartbeat thread whose wait has timed out, with the calls that come back, where no calls
-- are open: a user on a listed connection stays known if his count of beats, with the one of this round,
-- is below 12, and is known no more otherwise. The server stays sound.
pub heartbeat_round_lem :
    (parser : Parser) (key p q : ℕ) (s : Server)
    → IsWhole s
    → s.iocp.upcalls ≡ []
    → lookup key s.iocp.connect_list ≡ some p
    → lookup key s.site.users.map_user_list ≡ some q
    → (t : Server) × (heartbeat_round timed_out s ≡ some t)
      × IsWhole (settle parser t)
      × (known (settle parser t).site.users key
          ≡ not (leb 12 (beat (s.site.users.users q)).heart_count))
unfolding heartbeat_round
heartbeat_round_lem parser key p q s whole quiet there user =
    let (site, list) = beat_site s.site in
    let t : Server = record { iocp = disconnect_all list s.iocp; site = site } in
    let r = disconnect_all-Reports list s.iocp whole.intact.listed.named in
    let (_, _, listed) = get_offline_user_list_lem key q s.site.users whole.site.table user in
    let (fine, follows) =
      Step-Follows parser s t.iocp.upcalls (settle parser t) whole (heartbeat t refl) in
    let calls_ : t.iocp.upcalls ≡ map delete_user r.reported =
      r.told ∙ ap (λ us. us ++ map delete_user r.reported) quiet in
    let before = is_known key q s.site.users whole.site.table user in
    let after =
      follows key
      ∙ ap (λ us. replay_calls us (known s.site.users) key) calls_
      ∙ deleted r.reported (known s.site.users) key in
    let silent = leb 12 (beat (s.site.users.users q)).heart_count in
    (
      t,
      refl,
      fine,
      after
          ∙ verdict silent (known s.site.users key) (count key list) (count key r.reported) before
              listed (r.only key) (r.all_open key p there (whole.intact.listed.open_ key p there)),
    )
