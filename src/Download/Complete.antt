-- ===== src/Download/Complete.antt =====
-- About `Perform` of HttpRequest.cpp: the file after a download in several threads.
use my_communication.Prelude.{
  ℕ, zero, suc, ◌+◌, ◌-◌, ◌*◌, ◌/◌, ◌≤◌, ◌<◌, ◌≡◌, refl, ap, ◌⊎◌, inl, inr, Bool, true, false, ◌&&◌,
  List, [], ◌∷◌, ◌==◌, ltb, if◌then◌else◌, length, All, arith, Bool-cases, min,
}
use my_communication.Download.{
  to_the_end, upto, ThreadChunk, FileReply, chunk_at, chunks_from, split_file, asks_for,
  split_download_count,
}
use my_communication.Download.Chunks.{asked, split_file-once, gap_wide}
use my_communication.Download.Writing.{Fits}
use my_communication.Download.Parallel.{chunk_of, start_threads, receive_blocks}
use my_communication.Download.Assembly.{slice, bytes_of, receive_blocks-Arrived}

-- How many bytes of a file with so many bytes a server answers the request for a chunk with. A range
-- that goes beyond the file ends with it.
abbrev pub part : ℕ → ThreadChunk → ℕ
part total c = elim c.endidx [
  | to_the_end ↦ total - c.startidx
  | upto e ↦ if e == 0 then total else min (e + 1) total - c.startidx
]

abbrev pub part_of : ℕ → List ThreadChunk → ℕ → ℕ
part_of total [] j = 0
part_of total (c ∷ cs) zero = part total c
part_of total (c ∷ cs) (suc j) = part_of total cs j

-- The request without a range is for the chunk from 0 on, and a range is not empty.
abbrev IsRange : ThreadChunk → Type 0
IsRange c =
    (c.endidx ≡ to_the_end)
    ⊎ ((c.endidx ≡ upto 0) × (c.startidx ≡ 0))
    ⊎ ((e : ℕ) × (c.endidx ≡ upto (suc e)) × (c.startidx ≤ suc e))

part-Fits : (total : ℕ) (c : ThreadChunk) → IsRange c → Fits c (part total c)
part-Fits total c (inl e) = inl e
part-Fits total c (inr (inl (e, z))) = inr (inl e)
part-Fits total c (inr (inr (end, e, low))) =
    inr (inr (suc end, e, rw (e, part) (ground (arith, low))))

part_of-Fits :
    (total : ℕ) (cs : List ThreadChunk) (j : ℕ)
    → All IsRange cs
    → Fits (chunk_of cs j) (part_of total cs j)
part_of-Fits total [] j h = inr (inl refl)
part_of-Fits total (c ∷ cs) zero (h, hs) = part-Fits total c h
part_of-Fits total (c ∷ cs) (suc j) (h, hs) = part_of-Fits total cs j hs

-- A byte that a chunk asks for is in its part.
part-asked :
    (total k : ℕ) (c : ThreadChunk)
    → IsRange c
    → k < total
    → asks_for c k ≡ true
    → (c.startidx ≤ k) × (k < c.startidx + part total c)
unfolding asks_for
part-asked total k c (inl e) below = rw (e, asks_for, part) (λ asks. ground (arith, asks, below))
part-asked total k c (inr (inl (e, z))) below =
    rw (e, asks_for, part) (λ asks. ground (arith, z, below))
part-asked total k c (inr (inr (end, e, low))) below =
    rw (e, asks_for, part) (λ asks. ground (arith, asks, low))

part_of-asked :
    (total k : ℕ) (cs : List ThreadChunk)
    → All IsRange cs
    → k < total
    → 1 ≤ asked k cs
    → (j : ℕ) × ((chunk_of cs j).startidx ≤ k) × (k < (chunk_of cs j).startidx + part_of total cs j)
part_of-asked total k [] hs below some_ = absurd (omega arith)
part_of-asked total k (c ∷ cs) (h, hs) below some_ = elim (Bool-cases (asks_for c k)) [
  | inl here ↦ let (low, high) = part-asked total k c h below here in (0, low, high)
  | inr other ↦
      let (j, low, high) = part_of-asked total k cs hs below (ground (arith, some_, other)) in
      (suc j, low, high)
]

chunk_at-IsRange : (i n gap : ℕ) → 2 ≤ gap → IsRange (chunk_at i n gap)
unfolding chunk_at
chunk_at-IsRange i n gap wide = elim (Bool-cases (ltb i (n - 1))) [
  | inl inner ↦
      let last : i * gap + gap - 1 ≡ suc (i * gap + gap - 2) = omega arith in
      rw inner (inr (inr (i * gap + gap - 2, ap upto last, omega arith)))
  | inr last ↦ rw last (inl refl)
]

chunks_from-IsRange : (left i n gap : ℕ) → 2 ≤ gap → All IsRange (chunks_from left i n gap)
unfolding chunks_from
chunks_from-IsRange zero i n gap wide = tt
chunks_from-IsRange (suc left) i n gap wide =
    (chunk_at-IsRange i n gap wide, chunks_from-IsRange left (i + 1) n gap wide)

split_file-IsRange : (size threads : ℕ) (multi : Bool) → All IsRange (split_file size threads multi)
unfolding split_file
split_file-IsRange size threads multi =
    let n = min (split_download_count size) threads in
    elim (Bool-cases (multi && ltb 1 n)) [
      | inl split ↦ rw split (
          chunks_from-IsRange n 0 n (size / n)
            (gap_wide size threads n refl (ground (arith, split))))
      | inr whole ↦ rw whole (inr (inl (refl, refl)), tt)
    ]

-- A download of a file with `total` bytes, whatever size has been found out before: where the chunks are
-- answered with what they ask for, in blocks that the file system takes, then, in whatever order the
-- threads get and write their blocks, the file holds the whole content in the end.
pub receive_blocks_complete :
    (content : ℕ → ℕ) (total size threads : ℕ) (multi : Bool) (file : ℕ → ℕ)
    (replies : ℕ → FileReply) (most : ℕ) (es : List (ℕ × List ℕ)) (k : ℕ)
    → ((i : ℕ) → ((replies i).seek_failed ≡ false) × (most ≤ (replies i).accepts))
    → All (λ (e : ℕ × List ℕ). length e.1 ≤ most) es
    → let cs = split_file size threads multi in
      ((j : ℕ) → bytes_of j es ≡ slice content (chunk_of cs j).startidx (part_of total cs j))
      → k < total
      → (receive_blocks es (start_threads size threads multi file replies)).file k ≡ content k
unfolding start_threads
receive_blocks_complete content total size threads multi file replies most es k takes small served
      below =
    let cs = split_file size threads multi in
    let ranges = split_file-IsRange size threads multi in
    let once = split_file-once size threads multi k in
    let (j, low, high) = part_of-asked total k cs ranges below (omega (arith, once)) in
    let r =
      receive_blocks-Arrived content (part_of total cs) most es
        (start_threads size threads multi file replies)
        (record { going = refl; seeks = λ i. (takes i).0; takes = λ i. (takes i).1 }) small
        (λ i. part_of-Fits total cs i ranges) served in
    r.comes j k low high
