-- ===== src/Tests/Wire.antt =====
-- Examples for the packet format.
use my_communication.Prelude.{
  ℕ, ◌+◌, ◌-◌, ◌^◌, ◌<◌, ◌≡◌, refl, ◌↔◌, List, [], ◌∷◌, ◌++◌, none, some, length, drop, concat, All,
  map, arith,
}
use my_communication.Wire.{
  PackHeader, Delivery, Outcome, waits, header_size, check_value, encode_header, decode_header,
  pack_buffers, pack_length, first_delivery, deliver, unpack_loop, unpack_buffer, receive_all,
}
use my_communication.Wire.Header.{IsWords}
use my_communication.Wire.Pack.{frame, Cuts, pack_buffers-Cuts}
use my_communication.Wire.Unpack.{
  IsComplete, Spins, Ends, HasRoom, unpack_buffer-ends_iff, unpack_buffer-HasRoom,
}
use my_communication.Wire.Stream.{IsSegment, pack_all, receive_all-pack_all}
use my_communication.Wire.Split.{Message, IsSendable, delivery_of, frames}
use my_communication.Wire.Overflow.{wrapping_header, wrapping_delivery, wrapping-spins}

abbrev pub two_messages : List Message
two_messages =
    record { msg_type = 1; body = 7 ∷ 8 ∷ [] } ∷ record { msg_type = 3; body = 9 ∷ [] } ∷ []

pub two_messages-IsSendable : All IsSendable two_messages
two_messages-IsSendable = (
  record { typed = omega arith; nonempty = omega arith; small = omega arith },
  (record { typed = omega arith; nonempty = omega arith; small = omega arith }, tt),
)

-- The 27 bytes of the two frames, received in two pieces, the second of them in the middle of the
-- first header.
abbrev pub two_segments : List (List ℕ)
two_segments =
    (253 ∷ 252 ∷ 251 ∷ 250 ∷ 1 ∷ [])
    ∷ (0 ∷ 0 ∷ 0 ∷ 2 ∷ 0 ∷ 0 ∷ 0 ∷ 7 ∷ 8 ∷ 253 ∷ 252 ∷ 251 ∷ 250 ∷ 3 ∷ 0 ∷ 0 ∷ 0 ∷ 1 ∷ 0 ∷ 0 ∷ 0 ∷ 9
        ∷ [])
    ∷ []

pub two_segments-frames : concat two_segments ≡ frames two_messages
unfolding frame encode_header
two_segments-frames = refl

pub two_segments-IsSegment : All IsSegment two_segments
two_segments-IsSegment = (omega arith, (omega arith, tt))

receive_all-pack_all_example :
    (buffers : List (List ℕ)) × (pack_all two_messages ≡ some buffers)
    × (concat buffers ≡ concat two_segments)
    × (receive_all [] two_segments ≡ some (waits (map delivery_of two_messages) []))
receive_all-pack_all_example =
    receive_all-pack_all two_messages two_segments two_messages-IsSendable two_segments-IsSegment
      two_segments-frames

pack_buffers-Cuts_example :
    (cs : List (List ℕ)) × (pack_buffers 1 (7 ∷ 8 ∷ []) ≡ some cs) × Cuts (frame 1 (7 ∷ 8 ∷ [])) cs
pack_buffers-Cuts_example = pack_buffers-Cuts 1 (7 ∷ 8 ∷ []) (omega arith)

abbrev a_header : PackHeader
a_header = record { check = check_value; msg_type = 3; body_length = 2 }

a_header-IsWords : IsWords a_header
a_header-IsWords = record { check = omega arith; msg_type = omega arith; body_length = omega arith }

-- One packet of type 3 with two bytes, and the first byte of the next one.
abbrev pub a_packet : List ℕ
a_packet = 253 ∷ 252 ∷ 251 ∷ 250 ∷ 3 ∷ 0 ∷ 0 ∷ 0 ∷ 2 ∷ 0 ∷ 0 ∷ 0 ∷ 7 ∷ 8 ∷ 253 ∷ []

abbrev pub a_delivery : Delivery
a_delivery = record { msg_type = 3; len = 2; body = 7 ∷ 8 ∷ [] }

pub unpack_a_packet : unpack_buffer a_packet ≡ some (waits (a_delivery ∷ []) (253 ∷ []))
unfolding unpack_buffer unpack_loop pack_length first_delivery decode_header
unpack_a_packet = refl

a_packet-IsComplete : IsComplete a_packet
unfolding pack_length decode_header
a_packet-IsComplete = record {
  has_header = omega arith;
  small = omega arith;
  has_body = omega arith;
  checked = refl;
}

unpack_buffer-ends_iff_example :
    (¬ Spins a_packet) ↔ ((o : Outcome) × (unpack_buffer a_packet ≡ some o) × Ends a_packet o)
unpack_buffer-ends_iff_example = unpack_buffer-ends_iff a_packet

unpack_buffer-HasRoom_example : HasRoom (waits (a_delivery ∷ []) (253 ∷ []))
unpack_buffer-HasRoom_example =
    unpack_buffer-HasRoom a_packet (waits (a_delivery ∷ []) (253 ∷ [])) unpack_a_packet

short : (decode_header a_packet).body_length < 2 ^ 32
unfolding decode_header
short = omega arith

abbrev long_packet : List ℕ
long_packet = encode_header (wrapping_header 3 5) ++ 1 ∷ []

wrapping_delivery_example :
    (unpack_loop 9 long_packet
      ≡ deliver (first_delivery long_packet) (unpack_loop 8 (drop 5 long_packet)))
    × ((first_delivery long_packet).len ≡ 2 ^ 32 - header_size + 5)
    × (length (first_delivery long_packet).body < (first_delivery long_packet).len)
wrapping_delivery_example =
    wrapping_delivery 3 5 (omega arith) (omega arith) (1 ∷ []) 8 (omega arith)

wrapping-spins_example : unpack_loop 9 (encode_header (wrapping_header 3 0) ++ []) ≡ none
wrapping-spins_example = wrapping-spins 3 [] (omega arith) 9
