-- ===== src/Wire/Header.antt =====
-- About `PackHeader` of IOCPCommunication/include/IOCPDef.h in memory.
use my_communication.Prelude.{
  ℕ, ◌+◌, ◌^◌, ◌<◌, ◌≡◌, refl, List, [], ◌∷◌, ◌++◌, arith, length, ap, ◌≤◌, drop, drop-append_le,
  length-drop, ◌∙◌,
}
use my_communication.Wire.{
  PackHeader, to_bytes, of_bytes, encode_header, decode_header, header_size,
}

pub of_bytes-to_bytes : (n : ℕ) (rest : List ℕ) → n < 2 ^ 32 → of_bytes (to_bytes n ++ rest) ≡ n
of_bytes-to_bytes n rest h = omega arith

pub record IsWords (h : PackHeader) : Type 0 where
  pub check : h.check < 2 ^ 32
  pub msg_type : h.msg_type < 2 ^ 32
  pub body_length : h.body_length < 2 ^ 32

-- A header of 32-bit fields takes 12 bytes, and is read back from them, whatever follows.
pub decode_header-encode_header :
    (h : PackHeader) (rest : List ℕ)
    → IsWords h
    → (length (encode_header h) ≡ header_size) × (decode_header (encode_header h ++ rest) ≡ h)
unfolding encode_header decode_header
decode_header-encode_header h rest w = (
  refl,
  λ i. record {
    check =
        of_bytes-to_bytes h.check (to_bytes h.msg_type ++ (to_bytes h.body_length ++ rest)) w.check
          i;
    msg_type = of_bytes-to_bytes h.msg_type (to_bytes h.body_length ++ rest) w.msg_type i;
    body_length = of_bytes-to_bytes h.body_length rest w.body_length i;
  },
)

of_bytes-append : (xs ys : List ℕ) → 4 ≤ length xs → of_bytes (xs ++ ys) ≡ of_bytes xs
of_bytes-append [] ys h = absurd (omega arith)
of_bytes-append (a ∷ []) ys h = absurd (omega arith)
of_bytes-append (a ∷ b ∷ []) ys h = absurd (omega arith)
of_bytes-append (a ∷ b ∷ c ∷ []) ys h = absurd (omega arith)
of_bytes-append (a ∷ b ∷ c ∷ d ∷ xs) ys h = refl

field-append :
    (n : ℕ) (xs ys : List ℕ)
    → n + 4 ≤ length xs
    → of_bytes (drop n (xs ++ ys)) ≡ of_bytes (drop n xs)
field-append n xs ys h =
    ap of_bytes (drop-append_le n xs ys (omega arith))
    ∙ of_bytes-append (drop n xs) ys (omega (arith, length-drop n xs))

-- A whole header is read alike whatever bytes have arrived behind it.
pub decode_header-append :
    (xs ys : List ℕ) → header_size ≤ length xs → decode_header (xs ++ ys) ≡ decode_header xs
unfolding decode_header
decode_header-append xs ys h = λ i. record {
  check = field-append 0 xs ys (omega arith) i;
  msg_type = field-append 4 xs ys (omega arith) i;
  body_length = field-append 8 xs ys (omega arith) i;
}
