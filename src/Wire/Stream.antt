-- ===== src/Wire/Stream.antt =====
-- About `PackSendData` on one side and `UnpackReceivedData` on the other, for a stream of messages.
use my_communication.Prelude.{
  ℕ, zero, suc, ◌+◌, ◌%◌, ◌^◌, ◌≤◌, ◌<◌, ◌≡◌, refl, sym, ap, subst, inl, inr, List, [], ◌∷◌, ◌++◌,
  Option, some, arith, length, take, drop, ◌∙◌, concat, All, map, append-nil, append_assoc,
  length-append, dec_lt, take-append_exact, drop-append_exact, concat-append,
}
use my_communication.Wire.{
  PackHeader, header_size, check_value, Delivery, Outcome, waits, deliver, decode_header,
  pack_length, first_delivery, unpack_loop, unpack_buffer, pack_buffers, then_receive, receive_all,
  join,
}
use my_communication.Wire.Header.{decode_header-encode_header, decode_header-append}
use my_communication.Wire.Pack.{frame, length-frame, header_of, length-header_of, pack_buffers-Cuts}
use my_communication.Wire.Unpack.{IsComplete, unpack_loop_complete, unpack_loop-partial}
use my_communication.Wire.Split.{
  Message, IsSendable, frame_of, frames, delivery_of, IsPart, Split, split,
}

module _ (m : Message) (ok : IsSendable m) (rest : List ℕ) where
  head_lem :
      decode_header (frame_of m ++ rest)
      ≡ record { check = check_value; msg_type = m.msg_type; body_length = length m.body }
  unfolding frame
  head_lem =
      rw (append_assoc (header_of m.msg_type m.body) m.body rest)
        (decode_header-encode_header
          (record { check = check_value; msg_type = m.msg_type; body_length = length m.body })
          (m.body ++ rest)
          (record {
            check = omega arith;
            msg_type = ok.typed;
            body_length = omega (arith, ok.small);
          })).1

  pack_length-frame : pack_length (frame_of m ++ rest) ≡ length (frame_of m)
  unfolding pack_length
  pack_length-frame = rw (head_lem, length-frame m.msg_type m.body) (omega (arith, ok.small))

  frame-IsComplete : IsComplete (frame_of m ++ rest)
  frame-IsComplete =
      let size = length-frame m.msg_type m.body in
      let total = length-append (frame_of m) rest in
      record {
        has_header = omega (arith, size, total);
        small = omega (arith, size, pack_length-frame, ok.small);
        has_body = omega (arith, total, pack_length-frame);
        checked = ap (λ h. h.check) head_lem;
      }

  body_lem : take (length m.body) (drop header_size (frame_of m ++ rest)) ≡ m.body
  unfolding frame
  body_lem =
      ap (λ bytes. take (length m.body) (drop header_size bytes))
        (append_assoc (header_of m.msg_type m.body) m.body rest)
      ∙ ap (take (length m.body)) (
          drop-append_exact header_size (header_of m.msg_type m.body) (m.body ++ rest)
            (length-header_of m.msg_type m.body))
      ∙ take-append_exact (length m.body) m.body rest refl

  first_delivery-frame : first_delivery (frame_of m ++ rest) ≡ delivery_of m
  unfolding first_delivery
  first_delivery-frame = rw (head_lem, body_lem)

  -- The frame of a message at the front is delivered, and taken off.
  unpack_loop-frame :
      (fuel : ℕ)
      → unpack_loop (suc fuel) (frame_of m ++ rest)
        ≡ deliver (delivery_of m) (unpack_loop fuel rest)
  unpack_loop-frame fuel =
      unpack_loop_complete fuel (frame_of m ++ rest) frame-IsComplete
      ∙ rw (first_delivery-frame, pack_length-frame)
          (ap (λ r. deliver (delivery_of m) (unpack_loop fuel r))
            (drop-append_exact (length (frame_of m)) (frame_of m) rest refl))

part-stops :
    (part more : List ℕ) (ms : List Message)
    → All IsSendable ms
    → IsPart part ms
    → part ++ more ≡ frames ms
    → (fuel : ℕ) → unpack_loop (suc fuel) part ≡ some (waits [] part)
part-stops part more [] ok p e fuel =
    unpack_loop-partial fuel part (inl (omega (arith, ap length p)))
part-stops part more (m ∷ ms) ok p e fuel = elim (dec_lt (length part) header_size) [
  | yes short ↦ unpack_loop-partial fuel part (inl short)
  | no long_ ↦
      unpack_loop-partial fuel part
        (inr (omega (arith, size, width, ok.0.small), omega (arith, size)))
]
  where
    width : length (frame_of m) ≡ header_size + length m.body
    width = length-frame m.msg_type m.body

    size : header_size ≤ length part → pack_length part ≡ length (frame_of m)
    size h =
        unfold pack_length in
        ap (λ (d : PackHeader). (header_size + d.body_length) % 2 ^ 32)
          (sym (decode_header-append part more h) ∙ ap decode_header e)
        ∙ pack_length-frame m ok.0 (frames ms)

-- Whole frames and a part of the next: the messages are delivered, and the part is kept.
frames-unpack :
    (fuel : ℕ) (ms coming : List Message) (part more : List ℕ)
    → All IsSendable ms
    → All IsSendable coming
    → IsPart part coming
    → part ++ more ≡ frames coming
    → length (frames ms ++ part) < fuel
    → unpack_loop fuel (frames ms ++ part) ≡ some (waits (map delivery_of ms) part)
frames-unpack zero ms coming part more ok ok' p e h = absurd (omega arith)
frames-unpack (suc fuel) [] coming part more ok ok' p e h = part-stops part more coming ok' p e fuel
frames-unpack (suc fuel) (m ∷ ms) coming part more ok ok' p e h =
    ap (unpack_loop (suc fuel)) (append_assoc (frame_of m) (frames ms) part)
    ∙ unpack_loop-frame m ok.0 (frames ms ++ part) fuel
    ∙ ap (deliver (delivery_of m)) (
        frames-unpack fuel ms coming part more ok.1 ok' p e (
          omega (
            arith,
            h,
            length-append (frame_of m) (frames ms),
            length-append (frame_of m ++ frames ms) part,
            length-append (frames ms) part,
            length-frame m.msg_type m.body,
          )))

then_waits :
    (ds es : List Delivery) (part : List ℕ) (r : Option Outcome) (next : List ℕ → Option Outcome)
    → r ≡ some (waits ds part)
    → next part ≡ some (waits es [])
    → then_receive r next ≡ some (waits (ds ++ es) [])
then_waits ds es part r next e n = rw (e, n)

map-append' :
    (xs ys : List Message) → map delivery_of (xs ++ ys) ≡ map delivery_of xs ++ map delivery_of ys
map-append' [] ys = refl
map-append' (x ∷ xs) ys = ap (◌∷◌ (delivery_of x)) (map-append' xs ys)

All-of_append :
    (xs ys : List Message) → All IsSendable (xs ++ ys) → All IsSendable xs × All IsSendable ys
All-of_append [] ys h = (tt, h)
All-of_append (x ∷ xs) ys h = let (a, b) = All-of_append xs ys h.1 in ((h.0, a), b)

abbrev pub IsSegment : List ℕ → Type 0
IsSegment s = 0 < length s

-- One receive of the stream: whole messages are delivered, the rest is kept.
pub receive_one :
    (bytes more : List ℕ) (ms : List Message) (s : Split bytes more ms)
    → All IsSendable ms
    → unpack_buffer bytes ≡ some (waits (map delivery_of s.whole) s.part)
unfolding unpack_buffer
receive_one bytes more ms s ok =
    let (a, b) = All-of_append s.whole s.coming (subst (All IsSendable) s.in_order ok) in
    ap (unpack_loop (suc (length bytes))) s.received
    ∙ frames-unpack (suc (length bytes)) s.whole s.coming s.part more a b s.is_part s.ahead
        (omega (arith, ap length s.received))

pub receive_all-frames :
    (kept : List ℕ) (segments : List (List ℕ)) (ms : List Message)
    → All IsSendable ms
    → All IsSegment segments
    → IsPart kept ms
    → kept ++ concat segments ≡ frames ms
    → receive_all kept segments ≡ some (waits (map delivery_of ms) [])
unfolding receive_all
receive_all-frames kept [] [] ok nonempty p e = ap (λ k. some (waits [] k)) p
receive_all-frames kept [] (m ∷ ms) ok nonempty p e = absurd (
    omega (arith, p, ap length (sym (append-nil kept) ∙ e), length-append (frame_of m) (frames ms)))
receive_all-frames kept ([] ∷ segments) ms ok nonempty p e = absurd (omega (arith, nonempty.0))
receive_all-frames kept ((b ∷ bs) ∷ segments) ms ok nonempty p e =
    let s =
      split (kept ++ b ∷ bs) (concat segments) ms
        (append_assoc kept (b ∷ bs) (concat segments) ∙ e) in
    let (_, later) = All-of_append s.whole s.coming (subst (All IsSendable) s.in_order ok) in
    then_waits (map delivery_of s.whole) (map delivery_of s.coming) s.part _
      (λ rest. receive_all rest segments) (receive_one (kept ++ b ∷ bs) (concat segments) ms s ok)
      (receive_all-frames s.part segments s.coming later nonempty.1 s.is_part s.ahead)
    ∙ ap (λ ds. some (waits ds []))
        (sym (map-append' s.whole s.coming) ∙ ap (map delivery_of) (sym s.in_order))

pub pack_all : List Message → Option (List (List ℕ))
pack_all [] = some []
pack_all (m ∷ ms) = join (pack_buffers m.msg_type m.body) (pack_all ms)

pack_all-frames :
    (ms : List Message)
    → All IsSendable ms
    → (cs : List (List ℕ)) × (pack_all ms ≡ some cs) × (concat cs ≡ frames ms)
unfolding pack_all
pack_all-frames [] ok = ([], refl, refl)
pack_all-frames (m ∷ ms) ok =
    let (bs, run, cut) = pack_buffers-Cuts m.msg_type m.body ok.0.nonempty in
    let (cs, runs, whole) = pack_all-frames ms ok.1 in
    (bs ++ cs, rw (run, runs), concat-append bs cs ∙ rw (cut.whole, whole))

-- Packing ends for any messages within the size limit. However the bytes of the buffers are cut
-- into receives that are not empty, the other side delivers those messages, in order, each with
-- its type, length and bytes, keeps nothing, and stays connected.
pub receive_all-pack_all :
    (ms : List Message) (segments : List (List ℕ))
    → All IsSendable ms
    → All IsSegment segments
    → concat segments ≡ frames ms
    → (buffers : List (List ℕ)) × (pack_all ms ≡ some buffers)
      × (concat buffers ≡ concat segments)
      × (receive_all [] segments ≡ some (waits (map delivery_of ms) []))
receive_all-pack_all ms segments ok nonempty e =
    let (buffers, run, whole) = pack_all-frames ms ok in
    (buffers, run, whole ∙ sym e, receive_all-frames [] segments ms ok nonempty (start ms) e)
  where
    start : (ms : List Message) → IsPart [] ms
    start [] = refl
    start (m ∷ ms) = omega (arith, length-frame m.msg_type m.body)
