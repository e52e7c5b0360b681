-- ===== src/Iocp/Receiving.antt =====
-- About `PostReceive`, `HandReceive` and `UnpackReceivedData` of IOCPCommunication/source/IOCPBase.cpp.
use my_communication.Prelude.{
  ℕ, zero, suc, ◌+◌, ◌<◌, ◌≡◌, ◌≢◌, refl, sym, ap, subst, ◌∙◌, ◌⊎◌, inl, inr, false, List, [], ◌∷◌,
  ◌++◌, Option, none, some, ◌==◌, ltb, length, arith, ℕ_discrete, Bool-cases, append_assoc,
  append-nil, map, ==_refl,
}
use my_communication.Wire.{Delivery, Outcome, waits, drops, Fault, unpack_buffer, max_rcv_buf_len}
use my_communication.Wire.Unpack.{unpack_buffer-HasRoom}
use my_communication.Iocp.State.{
  Iocp, Upcall, eop_receive, hand_data, notify, get_io, overlapped_result, next_reply,
}
use my_communication.Iocp.Disconnect.{recycle_socket_rsc}
use my_communication.Iocp.Receive.{
  drop_connection, start_receive, post_receive, hand_all, keep_bytes, after_unpack,
  unpack_received_data, hand_receive,
}
use my_communication.Iocp.Ownership.{get_io-GetsIo}
use my_communication.Iocp.Closing.{IsSound, first_recycle-IsSound, drop-IsSound}
use my_communication.Iocp.Closed.{IsClosed, post_disconnect_ex_lem}

hand_all_lem :
    (key : ℕ) (ds : List Delivery) (s : Iocp)
    → hand_all key ds s ≡ record s { upcalls = s.upcalls ++ map (hand_data key) ds }
unfolding hand_all
hand_all_lem key [] s = ap (λ us. record s { upcalls = us }) (sym (append-nil s.upcalls))
hand_all_lem key (d ∷ ds) s =
    hand_all_lem key ds (notify (hand_data key d) s)
    ∙ ap (λ us. record s { upcalls = us })
        (append_assoc s.upcalls (hand_data key d ∷ []) (map (hand_data key) ds))

pub recycle-IsSound : (p : ℕ) (s : Iocp) → IsSound s → IsSound (recycle_socket_rsc p none s)
unfolding recycle_socket_rsc
recycle-IsSound p s sound = elim (ℕ_discrete (s.disconnect_flag p) 0) [
  | yes zero_ ↦ rw zero_ (first_recycle-IsSound p s sound).0
  | no nonzero ↦
      let not_zero : s.disconnect_flag p == 0 ≡ false = ground arith in
      rw not_zero (elim (Bool-cases (s.disconnect_flag p == 1)) [
        | inl one ↦ rw one sound
        | inr more ↦ rw more sound
      ])
]

drop_connection-IsSound : (p : ℕ) (s : Iocp) → IsSound s → IsSound (drop_connection p s)
unfolding drop_connection
drop_connection-IsSound p s sound = drop-IsSound p s sound

pub post_receive-IsSound : (p : ℕ) (s : Iocp) → IsSound s → IsSound (post_receive p s)
unfolding post_receive
post_receive-IsSound p s sound = elim (Bool-cases (ltb 0 (s.disconnect_flag p))) [
  | inl closed ↦ rw closed (recycle-IsSound p s sound)
  | inr open_ ↦ elim (Bool-cases (overlapped_result (next_reply s) == 0)) [
    | inl started ↦ rw (open_, started) sound
    | inr refused ↦ rw (open_, refused) (drop_connection-IsSound p (start_receive p s) sound)
  ]
]

after_unpack-IsSound :
    (p : ℕ) (o : Option Outcome) (s t : Iocp) → IsSound s → after_unpack p o s ≡ some t → IsSound t
after_unpack-IsSound p none s t sound e = absurd (cc)
after_unpack-IsSound p (some (waits ds rest)) s t sound e =
    let told = hand_all_lem (s.context_key p) ds s in
    let u = keep_bytes p rest (hand_all (s.context_key p) ds s) in
    let fine : IsSound u = rw told sound in
    let same : post_receive p u ≡ t = cc in subst IsSound same (post_receive-IsSound p u fine)
after_unpack-IsSound p (some (drops ds f)) s t sound e =
    let u = hand_all (s.context_key p) ds s in
    let fine : IsSound u = rw (hand_all_lem (s.context_key p) ds s) sound in
    let same : drop_connection p u ≡ t = cc in subst IsSound same (drop_connection-IsSound p u fine)

-- The ways a completed receive goes: a fault or the peer's close, or bytes.
hand_receive-fault :
    (result p : ℕ) (received : List ℕ) (s : Iocp)
    → (result ≢ 0) ⊎ (received ≡ [])
    → hand_receive result p received s ≡ some (drop_connection p s)
unfolding hand_receive
hand_receive-fault result p received s (inl h) =
    let test : result == 0 ≡ false = ground arith in rw test
hand_receive-fault result p received s (inr h) = elim (Bool-cases (result == 0)) [
  | inl e ↦ rw (e, h)
  | inr e ↦ rw e
]

hand_receive-bytes :
    (p b : ℕ) (bs : List ℕ) (s : Iocp)
    → hand_receive 0 p (b ∷ bs) s
      ≡ after_unpack p (unpack_buffer ((s.receive_context p).bytes ++ b ∷ bs)) s
unfolding hand_receive unpack_received_data
hand_receive-bytes p b bs s = let full : suc (length bs) == 0 ≡ false = ground arith in rw full

dropped-IsSound : (p : ℕ) (s t : Iocp) → IsSound s → some (drop_connection p s) ≡ some t → IsSound t
dropped-IsSound p s t sound e =
    let same : drop_connection p s ≡ t = cc in
    subst IsSound same (drop_connection-IsSound p s sound)

pub hand_receive-IsSound :
    (result p : ℕ) (received : List ℕ) (s t : Iocp)
    → IsSound s
    → hand_receive result p received s ≡ some t
    → IsSound t
hand_receive-IsSound (suc n) p received s t sound e =
    dropped-IsSound p s t sound
      (sym (hand_receive-fault (suc n) p received s (inl (omega arith))) ∙ e)
hand_receive-IsSound zero p [] s t sound e =
    dropped-IsSound p s t sound (sym (hand_receive-fault 0 p [] s (inr refl)) ∙ e)
hand_receive-IsSound zero p (b ∷ bs) s t sound e =
    after_unpack-IsSound p (unpack_buffer ((s.receive_context p).bytes ++ b ∷ bs)) s t sound
      (sym (hand_receive-bytes p b bs s) ∙ e)

abbrev pub told : ℕ → List Delivery → Iocp → List Upcall
told key ds s = s.upcalls ++ map (hand_data key) ds

-- The state in which the next receive is under way.
abbrev pub received_state : ℕ → List ℕ → List Delivery → Iocp → Iocp
received_state p rest ds s =
    start_receive p (keep_bytes p rest (record s { upcalls = told (s.context_key p) ds s }))

pub hand_receive-runs :
    (p b : ℕ) (bs rest : List ℕ) (ds : List Delivery) (s : Iocp)
    → s.disconnect_flag p ≡ 0
    → overlapped_result (next_reply s) ≡ 0
    → unpack_buffer ((s.receive_context p).bytes ++ b ∷ bs) ≡ some (waits ds rest)
    → hand_receive 0 p (b ∷ bs) s ≡ some (received_state p rest ds s)
unfolding post_receive
hand_receive-runs p b bs rest ds s open_ started run =
    hand_receive-bytes p b bs s
    ∙ rw (run, hand_all_lem (s.context_key p) ds s) (rw (open_, started))

-- Bytes complete some packets on an open connection: each is handed to the layer above, in order,
-- under the connection's key; the rest is kept, and the next receive is posted behind it, for at
-- least one byte.
pub hand_receive-delivers :
    (p b : ℕ) (bs rest : List ℕ) (ds : List Delivery) (s : Iocp)
    → s.disconnect_flag p ≡ 0
    → overlapped_result (next_reply s) ≡ 0
    → unpack_buffer ((s.receive_context p).bytes ++ b ∷ bs) ≡ some (waits ds rest)
    → (t : Iocp) × (hand_receive 0 p (b ∷ bs) s ≡ some t)
      × (t.upcalls ≡ told (s.context_key p) ds s)
      × ((t.receive_context p).bytes ≡ rest)
      × ((t.receive_context p).wsa_buf_len + length rest ≡ max_rcv_buf_len)
      × (0 < (t.receive_context p).wsa_buf_len)
      × ((t.receive_context p).operate_type ≡ eop_receive)
hand_receive-delivers p b bs rest ds s open_ started run =
    let room = unpack_buffer-HasRoom _ (waits ds rest) run in
    (
      received_state p rest ds s,
      hand_receive-runs p b bs rest ds s open_ started run,
      refl,
      rw (==_refl p),
      rw (==_refl p) (omega arith),
      rw (==_refl p) (omega arith),
      rw (==_refl p),
    )

drop_connection-IsClosed :
    (p : ℕ) (s : Iocp) → IsSound s → s.disconnect_flag p ≡ 0 → IsClosed p s (drop_connection p s)
unfolding drop_connection
drop_connection-IsClosed p s sound open_ =
    let (t, run, fine, held, _) = get_io-GetsIo s sound in
    let u = record s { rsc_io_context = t } in
    rw run (elim (post_disconnect_ex_lem p (get_io s).0 u fine held) [
      | inl (_, closed) ↦ record {
        told = closed.told;
        flagged = closed.flagged;
        unlisted = closed.unlisted;
        emptied = closed.emptied;
      }
      | inr (inl (one, _)) ↦ absurd (ground (arith, open_, one))
      | inr (inr (two, _, _)) ↦ absurd (ground (arith, open_, two))
    ])

-- A completed receive that reports an error or no bytes closes an open connection. So does one
-- whose bytes lead to a packet that fails a test, after the packets before it have been handed on.
pub hand_receive-closes :
    (result p : ℕ) (received : List ℕ) (ds : List Delivery) (f : Fault) (s : Iocp)
    → IsSound s
    → s.disconnect_flag p ≡ 0
    → ((result ≢ 0) ⊎ (received ≡ [])) × (ds ≡ [])
      ⊎ (result ≡ 0)
        × (received ≢ [])
        × (unpack_buffer ((s.receive_context p).bytes ++ received) ≡ some (drops ds f))
    → (t : Iocp) × (hand_receive result p received s ≡ some t)
      × IsClosed p (record s { upcalls = told (s.context_key p) ds s }) t
hand_receive-closes result p received ds f s sound open_ (inl (fault, none_)) = (
  drop_connection p s,
  hand_receive-fault result p received s fault,
  rw none_ (rw (append-nil s.upcalls) (drop_connection-IsClosed p s sound open_)),
)
hand_receive-closes result p [] ds f s sound open_ (inr (_, nonempty, _)) = absurd (nonempty refl)
hand_receive-closes result p (b ∷ bs) ds f s sound open_ (inr (good, _, run)) =
    let u = record s { upcalls = told (s.context_key p) ds s } in
    (
      drop_connection p u,
      rw good (hand_receive-bytes p b bs s ∙ rw (run, hand_all_lem (s.context_key p) ds s)),
      drop_connection-IsClosed p u sound open_,
    )
