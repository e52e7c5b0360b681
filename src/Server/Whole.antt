-- ===== src/Server/Whole.antt =====
-- The server as a whole: the connections of IOCPBase.cpp, the message threads of PbMessageHandle.cpp
-- and the heartbeat thread of MainController.cpp as steps, in any order.
use my_communication.Prelude.{
  ℕ, ◌≡◌, refl, sym, ap, subst, ◌∙◌, inl, inr, Bool, List, [], ◌∷◌, ◌++◌, Option, none, some, map,
  fun_ext, ◌>>=◌, true,
}
use my_communication.Replies.{PbMsg}
use my_communication.Iocp.State.{Iocp, Upcall}
use my_communication.Iocp.Disconnect.{disconnect}
use my_communication.Iocp.Steps
use my_communication.Iocp.Steps.{IsIntact, send-IsIntact, disconnect-IsIntact, Step-IsIntact}
use my_communication.Messages.{Parser, take_message}
use my_communication.Server.{
  Site, on_upcall, on_upcalls, finish_taken, handle_next, beat_site, Server, settle, send_data,
  send_all, handle_message, disconnect_all, timed_out, heartbeat_round,
}
use my_communication.Server.Kept.{known, IsSite}
use my_communication.Server.Handling.{
  behind, take_message-behind, waiting-cases, finish_taken-Keeps,
}
use my_communication.Server.Known.{
  beat_site-Keeps, calls, happen, run, connect, replay, run_refines, unchanged,
}

pub record IsWhole (s : Server) : Type 0 where
  pub intact : IsIntact s.iocp
  pub site : IsSite s.site

pub send_all-IsIntact :
    (key : ℕ) (ms : List PbMsg) (s : Iocp)
    → IsIntact s
    → (t : Iocp) × (send_all key ms s ≡ some t) × IsIntact t
unfolding send_all send_data
send_all-IsIntact key [] s intact = (s, refl, intact)
send_all-IsIntact key (m ∷ ms) s intact =
    let (t, run₁, fine) = send-IsIntact key m.msg_type m.msg s intact in
    let (u, run₂, done) = send_all-IsIntact key ms t fine in (u, rw run₁ run₂, done)

disconnect_all-IsIntact : (keys : List ℕ) (s : Iocp) → IsIntact s → IsIntact (disconnect_all keys s)
unfolding disconnect_all
disconnect_all-IsIntact [] s intact = intact
disconnect_all-IsIntact (key ∷ keys) s intact =
    disconnect_all-IsIntact keys (disconnect key s) (disconnect-IsIntact key s intact)

handle_next-some :
    (p : ℕ) (rest : List ℕ) (s : Site)
    → s.messages.start ≡ true
    → s.messages.msg_list ≡ p ∷ rest
    → handle_next s ≡ some (finish_taken p (behind rest s.messages) s)
unfolding handle_next
handle_next-some p rest s on list =
    rw (take_message-behind p rest s.messages on list, handle_next) refl

-- What a round of a message thread comes to, where a message waits.
pub handle_message_lem :
    (p : ℕ) (rest : List ℕ) (s : Server)
    → IsIntact s.iocp
    → s.site.messages.start ≡ true
    → s.site.messages.msg_list ≡ p ∷ rest
    → let done = finish_taken p (behind rest s.site.messages) s.site in
      (u : Iocp) × (handle_message s ≡ some (record { iocp = u; site = done.1 }))
      × (send_all done.0.0 done.0.1 s.iocp ≡ some u)
      × IsIntact u
unfolding handle_message
handle_message_lem p rest s intact on list =
    let done = finish_taken p (behind rest s.site.messages) s.site in
    let (u, run, fine) = send_all-IsIntact done.0.0 done.0.1 s.iocp intact in
    (
      u,
      ap
            (λ (o : Option ((ℕ × List PbMsg) × Site)).
              o >>= (λ r. send_all r.0.0 r.0.1 s.iocp >>= (λ iocp. some (with_both iocp r.1))))
            (handle_next-some p rest s.site on list)
          ∙ ap (λ (o : Option Iocp). o >>= (λ iocp. some (with_both iocp done.1))) run,
      run,
      fine,
    )
  where
    with_both : Iocp → Site → Server
    with_both iocp site = record { iocp = iocp; site = site }

handle_message-waits : (s : Server) → take_message s.site.messages ≡ none → handle_message s ≡ none
unfolding handle_message handle_next
handle_message-waits s e =
    ap
      (λ (o : Option ((ℕ × List PbMsg) × Site)). o >>= (λ r.
        send_all r.0.0 r.0.1 s.iocp >>= (λ iocp. some (record { iocp = iocp; site = r.1 }))))
      (waits s.site e)
  where
    waits : (t : Site) → take_message t.messages ≡ none → handle_next t ≡ none
    waits t e = rw (e, handle_next) refl

-- What a step of the connections, of a message thread or of the heartbeat thread leaves behind,
-- before its calls upwards are carried out: the same keys are known.
pub record Before (s t : Server) : Type 0 where
  pub whole : IsWhole t
  pub same : (j : ℕ) → known t.site.users j ≡ known s.site.users j

handle_message-Before : (s t : Server) → IsWhole s → handle_message s ≡ some t → Before s t
handle_message-Before s t whole e = elim (waiting-cases s.site.messages) [
  | inl none_ ↦ absurd (nothing (sym (handle_message-waits s none_) ∙ e))
  | inr (p, rest, on, list) ↦
      let (u, run, _, fine) = handle_message_lem p rest s whole.intact on list in
      let (site, same) = finish_taken-Keeps p rest s.site whole.site on list in
      let done = (finish_taken p (behind rest s.site.messages) s.site).1 in
      subst (Before s) (given (record { iocp = u; site = done }) t (sym run ∙ e)) (record {
        whole = record { intact = fine; site = site };
        same = unchanged s.site.users done.users same;
      })
]
  where
    nothing : none ≡ some t → ⊥
    nothing e = cc

    given : (a b : Server) → some a ≡ some b → a ≡ b
    given a b e = cc

heartbeat_round-Before :
    (s t : Server) → IsWhole s → heartbeat_round timed_out s ≡ some t → Before s t
unfolding heartbeat_round
heartbeat_round-Before s t whole e =
    let (site, list) = beat_site s.site in
    let done : Server = record { iocp = disconnect_all list s.iocp; site = site } in
    let (fine, same) = beat_site-Keeps s.site whole.site in
    subst (Before s) (given done t e) (record {
      whole = record { intact = disconnect_all-IsIntact list s.iocp whole.intact; site = fine };
      same = same;
    })
  where
    given : (a b : Server) → some a ≡ some b → a ≡ b
    given a b e = cc

-- A round of the connections' threads, of a message thread or of the heartbeat thread, with its
-- calls upwards, which are listed.
pub data Step (parser : Parser) (s : Server) : List Upcall → Server → Type 0 where
  connections :
      (t : Iocp)
      → Steps.Step s.iocp t
      → Step parser s t.upcalls (settle parser (record s { iocp = t }))
  message :
      (t : Server) → handle_message s ≡ some t → Step parser s t.iocp.upcalls (settle parser t)
  heartbeat :
      (t : Server)
      → heartbeat_round timed_out s ≡ some t
      → Step parser s t.iocp.upcalls (settle parser t)

-- Any number of steps, with all the calls upwards.
pub data Reach (parser : Parser) (start : Server) : List Upcall → Server → Type 0 where
  here : Reach parser start [] start
  next :
      {us vs : List Upcall} {s t : Server}
      → Reach parser start us s
      → Step parser s vs t
      → Reach parser start (us ++ vs) t

on_upcalls-run :
    (parser : Parser) (us : List Upcall) (s : Site)
    → on_upcalls parser us s ≡ run parser (map calls us) s
unfolding on_upcalls run happen
on_upcalls-run parser [] s = refl
on_upcalls-run parser (u ∷ us) s = on_upcalls-run parser us (on_upcall parser u s)

abbrev pub replay_calls : List Upcall → (ℕ → Bool) → ℕ → Bool
replay_calls us = replay (map calls us)

-- What each step keeps, and which users it makes known.
abbrev pub Follows : Server → List Upcall → Server → Type 0
Follows s us t =
    IsWhole t × ((j : ℕ) → known t.site.users j ≡ replay_calls us (known s.site.users) j)

settle-Follows :
    (parser : Parser) (s t : Server) → Before s t → Follows s t.iocp.upcalls (settle parser t)
unfolding settle
settle-Follows parser s t before =
    let us = t.iocp.upcalls in
    let (fine, refines) = run_refines parser (map calls us) t.site before.whole.site in
    subst
      (λ (site : Site).
        IsWhole (record { iocp = record (t.iocp) { upcalls = [] }; site = site })
        × ((j : ℕ) → known site.users j ≡ replay_calls us (known s.site.users) j))
      (sym (on_upcalls-run parser us t.site))
      (
        record {
          intact = record {
            sound = before.whole.intact.sound;
            listed = before.whole.intact.listed;
          };
          site = fine;
        },
        λ j. refines j ∙ ap (λ f. replay_calls us f j) (fun_ext before.same),
      )

pub Step-Follows :
    (parser : Parser) (s : Server) (us : List Upcall) (t : Server)
    → IsWhole s
    → Step parser s us t
    → Follows s us t
Step-Follows parser s _ _ whole (connections t step) =
    settle-Follows parser s (record s { iocp = t })
      (record {
        whole = record { intact = Step-IsIntact s.iocp t step whole.intact; site = whole.site };
        same = λ j. refl;
      })
Step-Follows parser s _ _ whole (message t e) =
    settle-Follows parser s t (handle_message-Before s t whole e)
Step-Follows parser s _ _ whole (heartbeat t e) =
    settle-Follows parser s t (heartbeat_round-Before s t whole e)

replay-append :
    (us vs : List Upcall) (f : ℕ → Bool)
    → replay_calls (us ++ vs) f ≡ replay_calls vs (replay_calls us f)
replay-append [] vs f = refl
replay-append (u ∷ us) vs f = replay-append us vs (connect (calls u) f)

-- Whatever the connections, the message threads and the heartbeat thread do, in any order and
-- whatever the operating system answers: the IO contexts, the connection list, the table of users, the
-- message queue and the handlers stay sound, and the server knows a key exactly if the last call of the
-- connections about it was `AddUser`, or if there was none and it was known at the start.
pub Reach-Follows :
    (parser : Parser) (start : Server) (us : List Upcall) (t : Server)
    → IsWhole start
    → Reach parser start us t
    → Follows start us t
Reach-Follows parser start _ _ whole here = (whole, λ j. refl)
Reach-Follows parser start _ t whole (next {us} {vs} {s} before step) =
    let (fine, known_before) = Reach-Follows parser start us s whole before in
    let (done, known_after) = Step-Follows parser s vs t fine step in
    (
      done,
      λ j.
          known_after j
          ∙ ap (λ f. replay_calls vs f j) (fun_ext known_before)
          ∙ sym (ap (λ (f : ℕ → Bool). f j) (replay-append us vs (known start.site.users))),
    )
