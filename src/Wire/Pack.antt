-- ===== src/Wire/Pack.antt =====
-- About `PackSendData` of IOCPCommunication/source/IOCPBase.cpp, on bytes.
use my_communication.Prelude.{
  ℕ, zero, suc, ◌+◌, ◌/◌, ◌≤◌, ◌<◌, min, ◌≡◌, refl, ap, List, [], ◌∷◌, ◌++◌, some, arith, length,
  take, drop, concat, All, take-append-drop, length-take, length-drop, length-append, append_assoc,
  ◌∙◌,
}
use my_communication.Wire.{
  encode_header, header_size, check_value, max_buf_len, copy_length, fill_buffer, prepend_chunk,
  pack_loop, pack_buffers,
}

-- What a message looks like on the wire.
unfoldable pub frame : ℕ → List ℕ → List ℕ
frame msg_type body =
    encode_header (record { check = check_value; msg_type = msg_type; body_length = length body })
    ++ body

abbrev pub IsBuffer : List ℕ → Type 0
IsBuffer c = (0 < length c) × (length c ≤ max_buf_len)

pub record Cuts (bytes : List ℕ) (cs : List (List ℕ)) : Type 0 where
  pub whole : concat cs ≡ bytes
  pub fits : All IsBuffer cs
  pub amount : length cs ≡ (length bytes + 511) / 512

pack_loop-suc :
    (fuel i msg_type len : ℕ) (bytes : List ℕ)
    → 0 < length bytes
    → let copied = copy_length i (length bytes) in
      pack_loop (suc fuel) i msg_type len (length bytes) bytes
      ≡ prepend_chunk
          (fill_buffer i msg_type len copied bytes)
          (pack_loop fuel (i + 1) msg_type len (length (drop copied bytes)) (drop copied bytes))
unfolding pack_loop
pack_loop-suc fuel i msg_type len bytes h =
    rw (length-drop (copy_length i (length bytes)) bytes) (ground arith)

copy_length-rest : (i n : ℕ) → 0 < i → copy_length i n ≡ min n 512
unfolding copy_length
copy_length-rest i n h = ground arith

fill_buffer-rest :
    (i msg_type len copied : ℕ) (bytes : List ℕ)
    → 0 < i
    → fill_buffer i msg_type len copied bytes ≡ take copied bytes
unfolding fill_buffer
fill_buffer-rest i msg_type len copied bytes h = ground arith

-- One buffer of `n` bytes in front of the buffers for what follows.
cons-Cuts :
    (n : ℕ) (bytes : List ℕ) (cs : List (List ℕ))
    → n ≡ min (length bytes) 512
    → 0 < length bytes
    → Cuts (drop n bytes) cs
    → Cuts bytes (take n bytes ∷ cs)
cons-Cuts n bytes cs e h c = record {
  whole = ap (◌++◌ (take n bytes)) c.whole ∙ take-append-drop n bytes;
  fits = ((omega (arith, length-take n bytes), omega (arith, length-take n bytes)), c.fits);
  amount = omega (arith, c.amount, length-drop n bytes);
}

-- The rounds after the first.
rest-Cuts :
    (fuel i msg_type len : ℕ) (bytes : List ℕ)
    → length bytes < fuel
    → 0 < i
    → (cs : List (List ℕ)) × (pack_loop fuel i msg_type len (length bytes) bytes ≡ some cs)
      × Cuts bytes cs
rest-Cuts zero i msg_type len bytes h p = absurd (omega arith)
rest-Cuts (suc fuel) i msg_type len [] h p =
    ([], unfold pack_loop in refl, record { whole = refl; fits = tt; amount = refl })
rest-Cuts (suc fuel) i msg_type len (b ∷ tail) h p =
    let bytes : List ℕ = b ∷ tail in
    let n = copy_length i (length bytes) in
    let e = copy_length-rest i (length bytes) p in
    let (cs, run, cut) =
      rest-Cuts fuel (i + 1) msg_type len (drop n bytes) (omega (arith, length-drop n bytes, e))
        (omega arith) in
    (
      take n bytes ∷ cs,
      pack_loop-suc fuel i msg_type len bytes (omega arith)
          ∙ rw (run, fill_buffer-rest i msg_type len n bytes p) refl,
      cons-Cuts n bytes cs e (omega arith) cut,
    )

abbrev pub header_of : ℕ → List ℕ → List ℕ
header_of msg_type body =
    encode_header (record { check = check_value; msg_type = msg_type; body_length = length body })

pub length-header_of :
    (msg_type : ℕ) (body : List ℕ) → length (header_of msg_type body) ≡ header_size
unfolding encode_header
length-header_of msg_type body = refl

pub length-frame :
    (msg_type : ℕ) (body : List ℕ) → length (frame msg_type body) ≡ header_size + length body
unfolding frame
length-frame msg_type body =
    omega (arith, length-append (header_of msg_type body) body, length-header_of msg_type body)

copy_length-first : (n : ℕ) → copy_length 0 n ≡ min n 500
unfolding copy_length
copy_length-first n = ground arith

-- The header and `n` bytes in front of the buffers for what follows.
frame-Cuts :
    (n msg_type : ℕ) (body : List ℕ) (cs : List (List ℕ))
    → n ≡ min (length body) 500
    → Cuts (drop n body) cs
    → Cuts (frame msg_type body) ((header_of msg_type body ++ take n body) ∷ cs)
unfolding frame
frame-Cuts n msg_type body cs e c =
    let head = header_of msg_type body in
    let size : length (head ++ take n body) ≡ header_size + n = omega (
      arith,
      length-append head (take n body),
      length-header_of msg_type body,
      length-take n body,
    ) in
    record {
      whole =
          append_assoc head (take n body) (concat cs)
          ∙ ap (λ t. head ++ t) (ap (◌++◌ (take n body)) c.whole ∙ take-append-drop n body);
      fits = ((omega (arith, size), omega (arith, size)), c.fits);
      amount = omega (
        arith,
        c.amount,
        length-drop n body,
        length-append head body,
        length-header_of msg_type body,
      );
    }

-- `PackSendData` ends for every message that is not empty. The buffers it queues are the message's
-- frame cut in pieces, each of 1 to 512 bytes, as few of them as can be.
pub pack_buffers-Cuts :
    (msg_type : ℕ) (body : List ℕ)
    → 0 < length body
    → (cs : List (List ℕ)) × (pack_buffers msg_type body ≡ some cs) × Cuts (frame msg_type body) cs
unfolding pack_buffers fill_buffer
pack_buffers-Cuts msg_type body h =
    let n = copy_length 0 (length body) in
    let e = copy_length-first (length body) in
    let (cs, run, cut) =
      rest-Cuts (length body) 1 msg_type (length body) (drop n body)
        (omega (arith, length-drop n body, e)) (omega arith) in
    (
      (header_of msg_type body ++ take n body) ∷ cs,
      pack_loop-suc (length body) 0 msg_type (length body) body h ∙ rw run,
      frame-Cuts n msg_type body cs e cut,
    )
