-- ===== src/Wire/Overflow.antt =====
-- About `uPackLength = sizeof(PackHeader) + head->ulBodyLength` of IOCPCommunication/source/IOCPBase.cpp,
-- a 32-bit sum.
use my_communication.Prelude.{
  ℕ, suc, ◌+◌, ◌-◌, ◌^◌, ◌≤◌, ◌<◌, ◌≡◌, ap, ◌⊎◌, inl, inr, List, ◌++◌, none, arith, length, drop,
  length-drop, length-take, length-append, ◌∙◌, dec_lt,
}
use my_communication.Wire.{
  PackHeader, header_size, check_value, deliver, encode_header, decode_header, pack_length,
  first_delivery, unpack_loop,
}
use my_communication.Wire.Header.{decode_header-encode_header}
use my_communication.Wire.Unpack.{IsComplete, now, Spins-unpack_loop, unpack_loop_complete}

-- The length that is passed to `HandData` is the number of bytes that follow in the buffer, but
-- for a packet whose length wraps.
pub first_delivery-bounds :
    (buf : List ℕ)
    → IsComplete buf
    → (decode_header buf).body_length < 2 ^ 32
    → let d = first_delivery buf in (d.len ≡ length d.body) ⊎ (2 ^ 32 ≤ d.len + header_size)
unfolding first_delivery pack_length
first_delivery-bounds buf c w =
    let n = (decode_header buf).body_length in
    elim (dec_lt (n + header_size) (2 ^ 32)) [
      | yes h ↦ inl (
          omega
            (arith, c.has_body, length-take n (drop header_size buf), length-drop header_size buf))
      | no h ↦ inr (omega arith)
    ]

abbrev pub wrapping_header : ℕ → ℕ → PackHeader
wrapping_header msg_type excess = record {
  check = check_value;
  msg_type = msg_type;
  body_length = 2 ^ 32 - header_size + excess;
}

module _ (msg_type excess : ℕ) (t : msg_type < 2 ^ 32) (x : excess < header_size)
    (rest : List ℕ) where
  abbrev packet : List ℕ
  packet = encode_header (wrapping_header msg_type excess) ++ rest

  read :
      (length (encode_header (wrapping_header msg_type excess)) ≡ header_size)
      × (decode_header packet ≡ wrapping_header msg_type excess)
  read =
      decode_header-encode_header (wrapping_header msg_type excess) rest
        (record { check = omega arith; msg_type = t; body_length = omega arith })

  pack_length-packet : pack_length packet ≡ excess
  unfolding pack_length
  pack_length-packet = rw read.1 (omega arith)

  packet-IsComplete : IsComplete packet
  packet-IsComplete =
      let size = length-append (encode_header (wrapping_header msg_type excess)) rest in
      record {
        has_header = omega (arith, size, read.0);
        small = omega (arith, pack_length-packet);
        has_body = omega (arith, size, read.0, pack_length-packet);
        checked = ap (λ h. h.check) read.1;
      }

  -- Whatever follows such a header, the code takes it for a whole packet, and passes on a length
  -- of more than four thousand million bytes: more than there are.
  pub wrapping_delivery :
      (fuel : ℕ)
      → length rest < 2 ^ 31
      → (unpack_loop (suc fuel) packet
          ≡ deliver (first_delivery packet) (unpack_loop fuel (drop excess packet)))
        × ((first_delivery packet).len ≡ 2 ^ 32 - header_size + excess)
        × (length (first_delivery packet).body < (first_delivery packet).len)
  unfolding first_delivery
  wrapping_delivery fuel short =
      let n = (decode_header packet).body_length in
      let len : n ≡ 2 ^ 32 - header_size + excess = ap (λ h. h.body_length) read.1 in
      let size = length-append (encode_header (wrapping_header msg_type excess)) rest in
      (
        unpack_loop_complete fuel packet packet-IsComplete
            ∙ ap (λ k. deliver (first_delivery packet) (unpack_loop fuel (drop k packet)))
                pack_length-packet,
        len,
        omega (
          arith,
          len,
          size,
          read.0,
          length-take n (drop header_size packet),
          length-drop header_size packet,
        ),
      )

-- A header whose packet length wraps to 0 makes the receiving thread loop for ever.
pub wrapping-spins :
    (msg_type : ℕ) (rest : List ℕ)
    → msg_type < 2 ^ 32
    → (fuel : ℕ) → unpack_loop fuel (encode_header (wrapping_header msg_type 0) ++ rest) ≡ none
wrapping-spins msg_type rest t fuel = Spins-unpack_loop fuel _ (
    now (packet-IsComplete msg_type 0 t (omega arith) rest)
      (pack_length-packet msg_type 0 t (omega arith) rest))
