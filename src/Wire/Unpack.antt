-- ===== src/Wire/Unpack.antt =====
-- About the loop of `UnpackReceivedData` of IOCPCommunication/source/IOCPBase.cpp, on any bytes.
use my_communication.Prelude.{
  ℕ, zero, suc, ◌≤◌, ◌<◌, ◌≡◌, refl, ap, ◌⊎◌, inl, inr, List, [], ◌∷◌, none, some, arith, length,
  drop, length-drop, ◌∙◌, ◌≢◌, ◌↔◌, dec_lt, ℕ_discrete, subst,
}
use my_communication.Wire.{
  header_size, check_value, max_rcv_buf_len, Delivery, Outcome, waits, drops, too_long, bad_check,
  deliver, deliver_all, decode_header, pack_length, first_delivery, unpack_loop, unpack_buffer,
}

-- A whole packet stands at the front, and its header passes the tests.
pub record IsComplete (buf : List ℕ) : Type 0 where
  pub has_header : header_size ≤ length buf
  pub small : pack_length buf ≤ max_rcv_buf_len
  pub has_body : pack_length buf ≤ length buf
  pub checked : (decode_header buf).check ≡ check_value

-- The three ways to stop.
pub data Stops (buf : List ℕ) : Outcome → Type 0 where
  oversize :
      header_size ≤ length buf → max_rcv_buf_len < pack_length buf → Stops buf (drops [] too_long)
  short_header : length buf < header_size → Stops buf (waits [] buf)
  short_body :
      pack_length buf ≤ max_rcv_buf_len → length buf < pack_length buf → Stops buf (waits [] buf)
  corrupt :
      header_size ≤ length buf
      → pack_length buf ≤ max_rcv_buf_len
      → pack_length buf ≤ length buf
      → (decode_header buf).check ≢ check_value
      → Stops buf (drops [] bad_check)

pub unpack_loop_complete :
    (fuel : ℕ) (buf : List ℕ)
    → IsComplete buf
    → unpack_loop (suc fuel) buf
      ≡ deliver (first_delivery buf) (unpack_loop fuel (drop (pack_length buf) buf))
unfolding unpack_loop
unpack_loop_complete fuel buf c = ground arith

pub unpack_loop-partial :
    (fuel : ℕ) (buf : List ℕ)
    → (length buf < header_size)
      ⊎ ((pack_length buf ≤ max_rcv_buf_len) × (length buf < pack_length buf))
    → unpack_loop (suc fuel) buf ≡ some (waits [] buf)
unfolding unpack_loop
unpack_loop-partial fuel buf (inl h) = ground arith
unpack_loop-partial fuel buf (inr h) = ground arith

unpack_loop-oversize :
    (fuel : ℕ) (buf : List ℕ)
    → header_size ≤ length buf
    → max_rcv_buf_len < pack_length buf
    → unpack_loop (suc fuel) buf ≡ some (drops [] too_long)
unfolding unpack_loop
unpack_loop-oversize fuel buf h k = ground arith

unpack_loop-corrupt :
    (fuel : ℕ) (buf : List ℕ)
    → header_size ≤ length buf
    → pack_length buf ≤ max_rcv_buf_len
    → pack_length buf ≤ length buf
    → (decode_header buf).check ≢ check_value
    → unpack_loop (suc fuel) buf ≡ some (drops [] bad_check)
unfolding unpack_loop
unpack_loop-corrupt fuel buf a b c d = ground arith

abbrev pub Round : List ℕ → Type 0
Round buf =
    IsComplete buf
    ⊎ ((o : Outcome) × Stops buf o × ((fuel : ℕ) → unpack_loop (suc fuel) buf ≡ some o))

-- One round of the loop delivers a packet or ends it.
pub Round-cases : (buf : List ℕ) → Round buf
Round-cases buf = elim (dec_lt (length buf) header_size) [
  | yes short ↦ inr (waits [] buf, short_header short, λ f. unpack_loop-partial f buf (inl short))
  | no long_ ↦ elim (dec_lt max_rcv_buf_len (pack_length buf)) [
    | yes big ↦ inr (
      drops [] too_long,
      oversize (omega arith) big,
      λ f. unpack_loop-oversize f buf (omega arith) big,
    )
    | no small ↦ elim (dec_lt (length buf) (pack_length buf)) [
      | yes part ↦ inr (
        waits [] buf,
        short_body (omega arith) part,
        λ f. unpack_loop-partial f buf (inr (omega arith, part)),
      )
      | no whole ↦ elim (ℕ_discrete (decode_header buf).check check_value) [
        | yes good ↦ inl (record {
          has_header = omega arith;
          small = omega arith;
          has_body = omega arith;
          checked = good;
        })
        | no bad ↦ inr (
          drops [] bad_check,
          corrupt (omega arith) (omega arith) (omega arith) bad,
          λ f. unpack_loop-corrupt f buf (omega arith) (omega arith) (omega arith) bad,
        )
      ]
    ]
  ]
]

-- The bytes lead, past whole packets, to a packet whose length wraps to 0.
pub data Spins : List ℕ → Type 0 where
  now : {buf : List ℕ} → IsComplete buf → pack_length buf ≡ 0 → Spins buf
  later : {buf : List ℕ} → IsComplete buf → Spins (drop (pack_length buf) buf) → Spins buf

-- Some number of packets, then an end.
pub data Ends : List ℕ → Outcome → Type 0 where
  stop : {buf : List ℕ} {o : Outcome} → Stops buf o → Ends buf o
  packet :
      {buf : List ℕ} {o : Outcome}
      → IsComplete buf
      → 0 < pack_length buf
      → Ends (drop (pack_length buf) buf) o
      → Ends buf (deliver_all (first_delivery buf ∷ []) o)

abbrev pub Finishes : ℕ → List ℕ → Type 0
Finishes fuel buf = (o : Outcome) × (unpack_loop fuel buf ≡ some o) × Ends buf o

-- With fuel above the number of bytes the loop runs to its end, but for bytes on which it spins.
pub unpack_loop-total :
    (fuel : ℕ) (buf : List ℕ) → length buf < fuel → Finishes fuel buf ⊎ Spins buf
unpack_loop-total zero buf h = absurd (omega arith)
unpack_loop-total (suc fuel) buf h = elim (Round-cases buf) [
  | inr (o, s, run) ↦ inl (o, run fuel, stop s)
  | inl c ↦ elim (ℕ_discrete (pack_length buf) 0) [
    | yes z ↦ inr (now c z)
    | no pos ↦
        let next = drop (pack_length buf) buf in
        let shorter : length next < fuel =
          omega (arith, length-drop (pack_length buf) buf, c.has_body) in
        extend c (omega arith) (unpack_loop-total fuel next shorter)
  ]
]
  where
    extend :
        IsComplete buf
        → 0 < pack_length buf
        → Finishes fuel (drop (pack_length buf) buf) ⊎ Spins (drop (pack_length buf) buf)
        → Finishes (suc fuel) buf ⊎ Spins buf
    extend c pos (inr s) = inr (later c s)
    extend c pos (inl (o, run, e)) = inl (
      deliver_all (first_delivery buf ∷ []) o,
      unpack_loop_complete fuel buf c ∙ ap (deliver (first_delivery buf)) run,
      packet c pos e,
    )

-- On bytes that spin no amount of fuel is enough: the code loops for ever, and calls `HandData`
-- each time round.
pub Spins-unpack_loop : (fuel : ℕ) (buf : List ℕ) → Spins buf → unpack_loop fuel buf ≡ none
Spins-unpack_loop zero buf s = unfold unpack_loop in refl
Spins-unpack_loop (suc fuel) buf (later c s) =
    unpack_loop_complete fuel buf c
    ∙ ap (deliver (first_delivery buf)) (Spins-unpack_loop fuel (drop (pack_length buf) buf) s)
Spins-unpack_loop (suc fuel) buf (now c z) =
    unpack_loop_complete fuel buf c
    ∙ ap (deliver (first_delivery buf))
        (ap (λ n. unpack_loop fuel (drop n buf)) z ∙ Spins-unpack_loop fuel buf (now c z))

-- `UnpackReceivedData` ends exactly if the bytes do not lead to a packet whose length wraps to 0.
pub unpack_buffer-ends_iff :
    (buf : List ℕ) → (¬ Spins buf) ↔ ((o : Outcome) × (unpack_buffer buf ≡ some o) × Ends buf o)
unfolding unpack_buffer
unpack_buffer-ends_iff buf = (forth, back)
  where
    forth : ¬ Spins buf → Finishes (suc (length buf)) buf
    forth h = elim (unpack_loop-total (suc (length buf)) buf (omega arith)) [
      | inl f ↦ f
      | inr s ↦ absurd (h s)
    ]

    back : Finishes (suc (length buf)) buf → ¬ Spins buf
    back (o, run, e) s = ground (arith, run, Spins-unpack_loop (suc (length buf)) buf s)

abbrev pub HasRoom : Outcome → Type 0
HasRoom (waits ds rest) = length rest < max_rcv_buf_len
HasRoom (drops ds f) = Unit {0}

Stops-HasRoom : {buf : List ℕ} {o : Outcome} → Stops buf o → HasRoom o
Stops-HasRoom (oversize h k) = tt
Stops-HasRoom (short_header h) = omega arith
Stops-HasRoom (short_body h k) = omega arith
Stops-HasRoom (corrupt a b c d) = tt

deliver_all-HasRoom : (ds : List Delivery) (o : Outcome) → HasRoom o → HasRoom (deliver_all ds o)
deliver_all-HasRoom ds (waits es rest) h = h
deliver_all-HasRoom ds (drops es f) h = h

-- When the code waits for more, the receive buffer has room for at least one byte.
pub Ends-HasRoom : {buf : List ℕ} {o : Outcome} → Ends buf o → HasRoom o
Ends-HasRoom (stop s) = Stops-HasRoom s
Ends-HasRoom {buf} (packet {o = o} c pos e) =
    deliver_all-HasRoom (first_delivery buf ∷ []) o (Ends-HasRoom e)

-- Whenever the code waits for more bytes, those it keeps do not fill the receive buffer, so that
-- the receive it posts asks for at least one byte.
pub unpack_buffer-HasRoom : (buf : List ℕ) (o : Outcome) → unpack_buffer buf ≡ some o → HasRoom o
unfolding unpack_buffer
unpack_buffer-HasRoom buf o run = elim (unpack_loop-total (suc (length buf)) buf (omega arith)) [
  | inl (o', run', e) ↦ let same : o' ≡ o = cc in subst HasRoom same (Ends-HasRoom e)
  | inr s ↦ absurd (ground (arith, run, Spins-unpack_loop (suc (length buf)) buf s))
]
