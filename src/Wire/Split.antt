-- ===== src/Wire/Split.antt =====
-- A stream of frames, cut anywhere: whole messages, a part of the next one, and what is to come.
use my_communication.Prelude.{
  ℕ, ◌-◌, ◌^◌, ◌≤◌, ◌<◌, ◌≡◌, refl, sym, ap, List, [], ◌∷◌, ◌++◌, arith, length, drop, ◌∙◌,
  append_assoc, dec_lt,
}
use my_communication.Wire.{header_size, max_rcv_buf_len, Delivery}
use my_communication.Wire.Pack.{frame}

pub record Message : Type 0 where
  pub msg_type : ℕ
  pub body : List ℕ

-- What `Send` lets through.
pub record IsSendable (m : Message) : Type 0 where
  pub typed : m.msg_type < 2 ^ 32
  pub nonempty : 0 < length m.body
  pub small : length m.body ≤ max_rcv_buf_len - header_size

abbrev pub frame_of : Message → List ℕ
frame_of m = frame m.msg_type m.body

abbrev pub frames : List Message → List ℕ
frames [] = []
frames (m ∷ ms) = frame_of m ++ frames ms

abbrev pub delivery_of : Message → Delivery
delivery_of m = record { msg_type = m.msg_type; len = length m.body; body = m.body }

-- Bytes that are less than the next message's frame.
abbrev pub IsPart : List ℕ → List Message → Type 0
IsPart bytes [] = bytes ≡ []
IsPart bytes (m ∷ ms) = length bytes < length (frame_of m)

-- A split of a stream of frames: whole messages, a part of the next one, and what is to come.
pub record Split (bytes more : List ℕ) (ms : List Message) : Type 0 where
  pub whole : List Message
  pub part : List ℕ
  pub coming : List Message
  pub in_order : ms ≡ whole ++ coming
  pub received : bytes ≡ frames whole ++ part
  pub is_part : IsPart part coming
  pub ahead : part ++ more ≡ frames coming

pub append_split :
    (xs ys zs : List ℕ) (ws : List ℕ)
    → xs ++ ys ≡ zs ++ ws
    → length zs ≤ length xs
    → (xs ≡ zs ++ drop (length zs) xs) × (drop (length zs) xs ++ ys ≡ ws)
append_split xs ys [] ws e h = (refl, e)
append_split [] ys (z ∷ zs) ws e h = absurd (omega arith)
append_split (x ∷ xs) ys (z ∷ zs) ws e h =
    let tails : xs ++ ys ≡ zs ++ ws = ground (arith, e) in
    let (a, b) = append_split xs ys zs ws tails (omega arith) in (ground (arith, e, a), b)

pub append-eq-nil : (xs ys : List ℕ) → xs ++ ys ≡ [] → xs ≡ []
append-eq-nil [] ys e = refl
append-eq-nil (x ∷ xs) ys e = absurd (cc)

pub split :
    (bytes more : List ℕ) (ms : List Message) → bytes ++ more ≡ frames ms → Split bytes more ms
split bytes more [] e = record {
  whole = [];
  part = bytes;
  coming = [];
  in_order = refl;
  received = refl;
  is_part = append-eq-nil bytes more e;
  ahead = e;
}
split bytes more (m ∷ ms) e = elim (dec_lt (length bytes) (length (frame_of m))) [
  | yes short ↦ record {
    whole = [];
    part = bytes;
    coming = m ∷ ms;
    in_order = refl;
    received = refl;
    is_part = short;
    ahead = e;
  }
  | no long_ ↦
      let (front, back) = append_split bytes more (frame_of m) (frames ms) e (omega arith) in
      let s = split (drop (length (frame_of m)) bytes) more ms back in
      record {
        whole = m ∷ s.whole;
        part = s.part;
        coming = s.coming;
        in_order = ap (◌∷◌ m) s.in_order;
        received =
            front
            ∙ ap (◌++◌ (frame_of m)) s.received
            ∙ sym (append_assoc (frame_of m) (frames s.whole) s.part);
        is_part = s.is_part;
        ahead = s.ahead;
      }
]
