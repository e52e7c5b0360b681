-- ===== src/Iocp/Delivering.antt =====
-- About `WorkThread`, `HandServerOperate` and `HandReceive` of IOCPCommunication/source/IOCPBase.cpp
-- together, with `PackSendData` on the other side.
use my_communication.Prelude.{
  ℕ, ◌≡◌, ◌≢◌, refl, sym, ap, ◌∙◌, ◌⊎◌, inl, inr, true, false, List, [], ◌∷◌, ◌++◌, Option, none,
  some, length, arith, append_assoc, append-nil, subst, map, All, concat, ==_refl,
}
use my_communication.Wire.{
  Delivery, Outcome, waits, drops, unpack_buffer, after_receive, then_receive, receive_all,
}
use my_communication.Wire.Split.{Message, IsSendable, frames, delivery_of}
use my_communication.Wire.Stream.{IsSegment, pack_all, receive_all-pack_all}
use my_communication.Iocp.State.{Iocp, eop_receive, Upcall, overlapped_result, hand_data}
use my_communication.Iocp.Receive.{hand_receive}
use my_communication.Iocp.Receiving.{told, received_state, hand_receive-runs}
use my_communication.Iocp.Work.{
  IoRef, embedded, Packet, ends_thread, handle_packet, hand_server_operate, dispatch_type,
  work_thread,
}

-- A receive on the connection of the context `p` is complete.
abbrev pub received_packet : ℕ → List ℕ → Packet
received_packet p bytes = record {
  success = true;
  last_error = 0;
  transferred = length bytes;
  context = p;
  overlapped = some (embedded p);
  received = bytes;
}

-- The connection of `p` is open and waits in a receive; what is started succeeds.
pub record IsReceiving (p : ℕ) (kept : List ℕ) (s : Iocp) : Type 0 where
  pub open_ : s.disconnect_flag p ≡ 0
  pub receives : (s.receive_context p).operate_type ≡ eop_receive
  pub keeps : (s.receive_context p).bytes ≡ kept
  pub starts : (i : ℕ) → overlapped_result (s.replies i) ≡ 0

-- The packet has no overlapped structure and no error, or one without a socket context.
abbrev pub EndsThread : Packet → Type 0
EndsThread k =
    (k.overlapped ≡ none) × (k.success ≡ true)
    ⊎ (ref : IoRef) × (k.overlapped ≡ some ref) × (k.context ≡ 0)

ends_thread-last : (k : Packet) → EndsThread k → ends_thread k ≡ true
unfolding ends_thread
ends_thread-last k (inl (none_, good)) = rw (none_, good) refl
ends_thread-last k (inr (ref, some_, null)) = rw (some_, null) refl

-- What is left to receive after a first receive.
abbrev Splits : List Delivery → List ℕ → Option Outcome → (List ℕ → Option Outcome) → Type 0
Splits ds rest o next =
    (ds₁ ds₂ : List Delivery) × (rest₁ : List ℕ) × (o ≡ some (waits ds₁ rest₁))
    × (next rest₁ ≡ some (waits ds₂ rest))
    × (ds ≡ ds₁ ++ ds₂)

after_receive-waits :
    (ds₁ : List Delivery) (o : Option Outcome) (ds : List Delivery) (rest : List ℕ)
    → after_receive ds₁ o ≡ some (waits ds rest)
    → (ds₂ : List Delivery) × (o ≡ some (waits ds₂ rest)) × (ds ≡ ds₁ ++ ds₂)
after_receive-waits ds₁ none ds rest e = absurd (cc)
after_receive-waits ds₁ (some (drops ds₂ f)) ds rest e = absurd (cc)
after_receive-waits ds₁ (some (waits ds₂ rest₂)) ds rest e = (ds₂, cc, cc)

then_receive-waits :
    (o : Option Outcome) (next : List ℕ → Option Outcome) (ds : List Delivery) (rest : List ℕ)
    → then_receive o next ≡ some (waits ds rest)
    → Splits ds rest o next
then_receive-waits none next ds rest e = absurd (cc)
then_receive-waits (some (drops ds₁ f)) next ds rest e = absurd (cc)
then_receive-waits (some (waits ds₁ rest₁)) next ds rest e =
    let (ds₂, later, same) = after_receive-waits ds₁ (next rest₁) ds rest e in
    (ds₁, ds₂, rest₁, refl, later, same)

handle_packet-receives :
    (p : ℕ) (kept bytes : List ℕ) (s : Iocp)
    → IsReceiving p kept s
    → handle_packet (received_packet p bytes) s ≡ hand_receive 0 p bytes s
unfolding handle_packet hand_server_operate dispatch_type
handle_packet-receives p kept bytes s h = rw h.receives refl

received-IsReceiving :
    (p : ℕ) (kept rest : List ℕ) (ds : List Delivery) (s : Iocp)
    → IsReceiving p kept s
    → IsReceiving p rest (received_state p rest ds s)
received-IsReceiving p kept rest ds s h = record {
  open_ = h.open_;
  receives = rw (==_refl p) refl;
  keeps = rw (==_refl p) refl;
  starts = h.starts;
}

goes_on : (p : ℕ) (bytes : List ℕ) → p ≢ 0 → ends_thread (received_packet p bytes) ≡ false
unfolding ends_thread
goes_on p bytes nonnull = ground (arith, nonnull)

map-append :
    (f : Delivery → Upcall) (xs ys : List Delivery) → map f (xs ++ ys) ≡ map f xs ++ map f ys
map-append f [] ys = refl
map-append f (x ∷ xs) ys = ap (λ l. f x ∷ l) (map-append f xs ys)

told-append :
    (key : ℕ) (ds es : List Delivery) (s : Iocp)
    → told key ds s ++ map (hand_data key) es ≡ told key (ds ++ es) s
told-append key ds es s =
    append_assoc s.upcalls (map (hand_data key) ds) (map (hand_data key) es)
    ∙ ap (λ l. s.upcalls ++ l) (sym (map-append (hand_data key) ds es))

-- The thread handles the receives of one connection.
work_thread-receives :
    (p : ℕ) (segments : List (List ℕ)) (behind : List Packet) (kept rest : List ℕ)
    (ds : List Delivery) (s : Iocp)
    → p ≢ 0
    → IsReceiving p kept s
    → receive_all kept segments ≡ some (waits ds rest)
    → (t : Iocp) × (work_thread (map (received_packet p) segments ++ behind) s
        ≡ work_thread behind t)
      × (t.upcalls ≡ told (s.context_key p) ds s)
      × IsReceiving p rest t
unfolding receive_all work_thread
work_thread-receives p [] behind kept rest ds s nonnull h e =
    let nothing : ds ≡ [] = cc in
    let same : kept ≡ rest = cc in
    (
      s,
      refl,
      sym (
          ap (λ l. s.upcalls ++ map (hand_data (s.context_key p)) l) nothing
          ∙ append-nil s.upcalls),
      subst (λ k. IsReceiving p k s) same h,
    )
work_thread-receives p ([] ∷ segments) behind kept rest ds s nonnull h e = absurd (cc)
work_thread-receives p ((b ∷ bs) ∷ segments) behind kept rest ds s nonnull h e =
    let (ds₁, ds₂, rest₁, run, later, same) =
      then_receive-waits (unpack_buffer (kept ++ b ∷ bs)) (λ k. receive_all k segments) ds rest e in
    let u = received_state p rest₁ ds₁ s in
    let handled : handle_packet (received_packet p (b ∷ bs)) s ≡ some u =
      handle_packet-receives p kept (b ∷ bs) s h
      ∙ hand_receive-runs p b bs rest₁ ds₁ s h.open_ (h.starts s.calls)
          (ap (λ k. unpack_buffer (k ++ b ∷ bs)) h.keeps ∙ run) in
    let (t, go, up, ends) =
      work_thread-receives p segments behind rest₁ rest ds₂ u nonnull
        (received-IsReceiving p kept rest₁ ds₁ s h) later in
    (
      t,
      rw (goes_on p (b ∷ bs) nonnull, handled) go,
      up
          ∙ told-append (s.context_key p) ds₁ ds₂ s
          ∙ ap (λ l. told (s.context_key p) l s) (sym same),
      ends,
    )

ended :
    (last : Packet) (others : List Packet) (t : Iocp)
    → ends_thread last ≡ true
    → work_thread (last ∷ others) t ≡ some (t, others)
unfolding work_thread
ended last others t over = rw over refl

-- The messages that the other side packs, of 1 to 5108 bytes each, arrive: where a connection is open
-- and waits in a receive without kept bytes, and what is started on it succeeds, a thread that gets
-- the bytes of the packed buffers, however they are cut into receives that are not empty, hands each
-- message on, in order and under the connection's key, and the connection goes on receiving with
-- nothing kept. The thread ends with the packet behind them, which has no socket context, or neither
-- overlapped structure nor error, and leaves the others.
pub work_thread-delivers :
    (p : ℕ) (ms : List Message) (segments : List (List ℕ)) (last : Packet) (others : List Packet)
    (s : Iocp)
    → p ≢ 0
    → IsReceiving p [] s
    → All IsSendable ms
    → All IsSegment segments
    → concat segments ≡ frames ms
    → EndsThread last
    → (buffers : List (List ℕ)) × (pack_all ms ≡ some buffers)
      × (concat buffers ≡ concat segments)
      × (t : Iocp) × (work_thread (map (received_packet p) segments ++ last ∷ others) s
          ≡ some (t, others))
      × (t.upcalls ≡ told (s.context_key p) (map delivery_of ms) s)
      × IsReceiving p [] t
work_thread-delivers p ms segments last others s nonnull h ok nonempty e over =
    let (buffers, packs, whole, arrives) = receive_all-pack_all ms segments ok nonempty e in
    let (t, go, up, ends) =
      work_thread-receives p segments (last ∷ others) [] [] (map delivery_of ms) s nonnull h
        arrives in
    (buffers, packs, whole, t, go ∙ ended last others t (ends_thread-last last over), up, ends)
