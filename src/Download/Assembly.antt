-- ===== src/Download/Assembly.antt =====
-- About the threads of `Perform` of HttpRequest.cpp: what the file holds when they have ended.
use my_communication.Prelude.{
  ℕ, zero, suc, ◌+◌, ◌-◌, ◌≤◌, ◌<◌, ◌≡◌, refl, sym, ap, ap₂, subst, ◌∙◌, Bool, true, false, ◌&&◌,
  List, [], ◌∷◌, ◌++◌, ◌==◌, ltb, leb, if◌then◌else◌, length, All, arith, ℕ_discrete, dec_lt,
  ==_refl,
}
use my_communication.Download.{write_bytes, write_callback}
use my_communication.Download.Writing.{Fits, Written, write_callback_lem, Written-Fits}
use my_communication.Download.Parallel.{Downloading, writer_of, receive_block, receive_blocks}

-- `n` bytes of the content from `a` on.
unfoldable pub slice : (ℕ → ℕ) → ℕ → ℕ → List ℕ
slice f a zero = []
slice f a (suc n) = f a ∷ slice f (a + 1) n

-- The bytes that the thread `j` receives.
abbrev pub bytes_of : ℕ → List (ℕ × List ℕ) → List ℕ
bytes_of j [] = []
bytes_of j ((i, block) ∷ rest) = if i == j then block ++ bytes_of j rest else bytes_of j rest

slice-split :
    (f : ℕ → ℕ) (a n : ℕ) (xs ys : List ℕ)
    → xs ++ ys ≡ slice f a n
    → (length xs ≤ n)
      × (xs ≡ slice f a (length xs))
      × (ys ≡ slice f (a + length xs) (n - length xs))
unfolding slice
slice-split f a n [] ys e =
    let start : a ≡ a + 0 = omega arith in
    let left : n ≡ n - 0 = omega arith in (omega arith, refl, e ∙ ap₂ (slice f) start left)
slice-split f a zero (x ∷ xs) ys e = absurd (cc)
slice-split f a (suc n) (x ∷ xs) ys e =
    let first : x ≡ f a = cc in
    let tail_ : xs ++ ys ≡ slice f (a + 1) n = cc in
    let (few, front, back) = slice-split f (a + 1) n xs ys tail_ in
    let there : a + 1 + length xs ≡ a + suc (length xs) = omega arith in
    let left : n - length xs ≡ suc n - suc (length xs) = omega arith in
    (
      omega arith,
      ground (arith, first, front),
      back
          ∙ ap (λ (b : ℕ). slice f b (n - length xs)) there
          ∙ ap (slice f (a + suc (length xs))) left,
    )

pub length-slice : (f : ℕ → ℕ) (a n : ℕ) → length (slice f a n) ≡ n
unfolding slice
length-slice f a zero = refl
length-slice f a (suc n) = ap suc (length-slice f (a + 1) n)

slice-nil : (f : ℕ → ℕ) (a n : ℕ) → [] ≡ slice f a n → n ≡ 0
unfolding slice
slice-nil f a zero e = refl
slice-nil f a (suc n) e = absurd (cc)

-- A slice that is written at its place.
write_bytes-slice :
    (f : ℕ → ℕ) (a n : ℕ) (file : ℕ → ℕ) (k : ℕ)
    → write_bytes a (slice f a n) file k ≡ (if leb a k && ltb k (a + n) then f k else file k)
unfolding slice
write_bytes-slice f a zero file k = ground arith
write_bytes-slice f a (suc n) file k =
    ground (arith, write_bytes-slice f (a + 1) n (λ j. if j == a then f a else file j) k)

-- The file system takes blocks of this size, and nobody cancels.
pub record IsGoing (size : ℕ) (s : Downloading) : Type 0 where
  pub going : s.is_cancel ≡ false
  pub seeks : (i : ℕ) → (s.replies i).seek_failed ≡ false
  pub takes : (i : ℕ) → size ≤ (s.replies i).accepts

-- What the blocks come to: `len j` more bytes of the content for each chunk `j`.
pub record Arrived (f len : ℕ → ℕ) (s t : Downloading) : Type 0 where
  pub stays : (k : ℕ) → s.file k ≡ f k → t.file k ≡ f k
  pub comes :
      (j k : ℕ) → (s.chunks j).startidx ≤ k → k < (s.chunks j).startidx + len j → t.file k ≡ f k

-- One block.
module _ (f : ℕ → ℕ) (size i n : ℕ) (block : List ℕ) (s : Downloading) (ready : IsGoing size s)
    (small : length block ≤ size) (fits : Fits (s.chunks i) n) (few : length block ≤ n)
    (right : block ≡ slice f (s.chunks i).startidx (length block)) where
  abbrev after_block : Downloading
  after_block = receive_block i block s

  block-Written : Written block (writer_of i s) (write_callback block (writer_of i s)).1
  block-Written =
      let room : Fits (s.chunks i) (length block + (n - length block)) =
        subst (Fits (s.chunks i)) (omega (arith, few)) fits in
      (write_callback_lem size (n - length block) block (writer_of i s)
        (record { going = ready.going; seeks = ready.seeks; takes = ready.takes }) small room).1

  block-IsGoing : IsGoing size after_block
  unfolding receive_block
  block-IsGoing = record { going = ready.going; seeks = ready.seeks; takes = ready.takes }

  block_file :
      (k : ℕ)
      → after_block.file k ≡ (
          if leb (s.chunks i).startidx k && ltb k ((s.chunks i).startidx + length block)
          then f k
          else s.file k)
  unfolding receive_block
  block_file k =
      ap (λ (g : ℕ → ℕ). g k) block-Written.stored
      ∙ ap (λ b. write_bytes (s.chunks i).startidx b s.file k) right
      ∙ write_bytes-slice f (s.chunks i).startidx (length block) s.file k

  block_start :
      (j : ℕ)
      → (after_block.chunks j).startidx
        ≡ (if i == j then (s.chunks j).startidx + length block else (s.chunks j).startidx)
  unfolding receive_block
  block_start j = elim (ℕ_discrete i j) [
    | yes same ↦
        let test : i == j ≡ true = ground arith in
        rw test (block-Written.moved ∙ ap (λ q. (s.chunks q).startidx + length block) same)
    | no other ↦ let test : i == j ≡ false = ground arith in rw test refl
  ]

  block-Fits :
      (j m : ℕ)
      → (i ≡ j → length block ≤ m)
      → Fits (s.chunks j) m
      → Fits (after_block.chunks j) (if i == j then m - length block else m)
  unfolding receive_block
  block-Fits j m enough room = elim (ℕ_discrete i j) [
    | yes same ↦
        let test : i == j ≡ true = ground arith in
        let all : length block + (m - length block) ≡ m = omega (arith, enough same) in
        let mine : Fits (s.chunks i) (length block + (m - length block)) =
          subst (λ q. Fits (s.chunks q) (length block + (m - length block))) (sym same)
            (subst (Fits (s.chunks j)) (sym all) room) in
        rw test (
          Written-Fits block (m - length block) (writer_of i s)
            (write_callback block (writer_of i s)).1 block-Written mine)
    | no other ↦ let test : i == j ≡ false = ground arith in rw test room
  ]

-- A block of the thread `i` and those behind it.
module _ (f len : ℕ → ℕ) (size i : ℕ) (block : List ℕ) (es : List (ℕ × List ℕ)) (s : Downloading)
    (ready : IsGoing size s) (small : length block ≤ size)
    (fits : (j : ℕ) → Fits (s.chunks j) (len j))
    (right : (j : ℕ) → bytes_of j ((i, block) ∷ es) ≡ slice f (s.chunks j).startidx (len j)) where
  mine : block ++ bytes_of i es ≡ slice f (s.chunks i).startidx (len i)
  mine =
      ap (λ (b : Bool). if b then block ++ bytes_of i es else bytes_of i es) (sym (==_refl i))
      ∙ right i

  few : length block ≤ len i
  few = (slice-split f (s.chunks i).startidx (len i) block (bytes_of i es) mine).0

  front : block ≡ slice f (s.chunks i).startidx (length block)
  front = (slice-split f (s.chunks i).startidx (len i) block (bytes_of i es) mine).1

  back : bytes_of i es ≡ slice f ((s.chunks i).startidx + length block) (len i - length block)
  back = (slice-split f (s.chunks i).startidx (len i) block (bytes_of i es) mine).2

  abbrev next_state : Downloading
  next_state = receive_block i block s

  abbrev left : ℕ → ℕ
  left j = if i == j then len j - length block else len j

  file :
      (k : ℕ)
      → next_state.file k ≡ (
          if leb (s.chunks i).startidx k && ltb k ((s.chunks i).startidx + length block)
          then f k
          else s.file k)
  file = block_file f size i (len i) block s ready small (fits i) few front

  start :
      (j : ℕ)
      → (next_state.chunks j).startidx
        ≡ (if i == j then (s.chunks j).startidx + length block else (s.chunks j).startidx)
  start = block_start f size i (len i) block s ready small (fits i) few front

  behind : (j : ℕ) → bytes_of j es ≡ slice f (next_state.chunks j).startidx (left j)
  behind j = elim (ℕ_discrete i j) [
    | yes same ↦
        let test : i == j ≡ true = ground arith in
        let at : (next_state.chunks j).startidx ≡ (s.chunks j).startidx + length block =
          start j
          ∙ ap
              (λ (b : Bool).
                if b then (s.chunks j).startidx + length block else (s.chunks j).startidx)
              test in
        subst
          (λ q.
            bytes_of q es ≡ slice f ((s.chunks q).startidx + length block) (len q - length block))
          same back
        ∙ ap₂ (slice f) (sym at)
            (ap (λ (b : Bool). if b then len j - length block else len j) (sym test))
    | no other ↦
        let test : i == j ≡ false = ground arith in
        let at : (next_state.chunks j).startidx ≡ (s.chunks j).startidx =
          start j
          ∙ ap
              (λ (b : Bool).
                if b then (s.chunks j).startidx + length block else (s.chunks j).startidx)
              test in
        ap (λ (b : Bool). if b then block ++ bytes_of j es else bytes_of j es) (sym test)
        ∙ right j
        ∙ ap₂ (slice f) (sym at)
            (ap (λ (b : Bool). if b then len j - length block else len j) (sym test))
  ]

  still-IsGoing : IsGoing size next_state
  still-IsGoing = block-IsGoing f size i (len i) block s ready small (fits i) few front

  still-Fits : (j : ℕ) → Fits (next_state.chunks j) (left j)
  still-Fits j =
      block-Fits f size i (len i) block s ready small (fits i) few front j (len j)
        (λ same. subst (λ q. length block ≤ len q) same few) (fits j)

  comes :
      (u : Downloading)
      → Arrived f left next_state u
      → (j k : ℕ) → (s.chunks j).startidx ≤ k
      → k < (s.chunks j).startidx + len j
      → u.file k ≡ f k
  comes u rest j k low high = elim (ℕ_discrete i j) [
    | yes same ↦ elim (dec_lt k ((s.chunks j).startidx + length block)) [
      | yes now ↦
          rest.stays k (ground (arith, file k, low, now, ap (λ q. (s.chunks q).startidx) same))
      | no later ↦
          rest.comes j k (ground (arith, start j, same, later))
            (ground (arith, start j, same, later, high))
    ]
    | no other ↦
        rest.comes j k (ground (arith, start j, other, low)) (ground (arith, start j, other, high))
  ]

  arrives : (u : Downloading) → Arrived f left next_state u → Arrived f len s u
  arrives u rest = record {
    stays = λ k e. rest.stays k (ground (arith, file k, e));
    comes = comes u rest;
  }

-- Whatever the order of the threads: where the blocks of each thread are, one behind the other, the
-- content from the position of its chunk on, the file gets this content and nothing else.
pub receive_blocks-Arrived :
    (f len : ℕ → ℕ) (size : ℕ) (es : List (ℕ × List ℕ)) (s : Downloading)
    → IsGoing size s
    → All (λ (e : ℕ × List ℕ). length e.1 ≤ size) es
    → ((j : ℕ) → Fits (s.chunks j) (len j))
    → ((j : ℕ) → bytes_of j es ≡ slice f (s.chunks j).startidx (len j))
    → Arrived f len s (receive_blocks es s)
unfolding receive_blocks
receive_blocks-Arrived f len size [] s ready small fits right = record {
  stays = λ k e. e;
  comes = λ j k low high.
      let none_left : len j ≡ 0 = slice-nil f (s.chunks j).startidx (len j) (right j) in
      absurd (omega arith);
}
receive_blocks-Arrived f len size ((i, block) ∷ es) s ready small fits right =
    arrives f len size i block es s ready small.0 fits right _ (
      receive_blocks-Arrived f (left f len size i block es s ready small.0 fits right) size es
        (receive_block i block s) (still-IsGoing f len size i block es s ready small.0 fits right)
        small.1 (still-Fits f len size i block es s ready small.0 fits right)
        (behind f len size i block es s ready small.0 fits right))
