-- ===== src/Download/Chunks.antt =====
-- About `SplitDownloadCount` and the chunks that `Perform` of HttpRequest.cpp makes.
use native.Mathlib.Nat.{le-div_iff_mul-le}
use my_communication.Prelude.{
  ℕ, zero, suc, ◌+◌, ◌*◌, ◌/◌, ◌≤◌, ◌<◌, ◌≡◌, refl, Bool, true, false, ◌&&◌, List, [], ◌∷◌, ltb,
  leb, if◌then◌else◌, arith, Bool-cases, inl, ◌∙◌, inr, min,
}
use my_communication.Download.{
  split_download_count, ThreadChunk, chunk_at, chunks_from, split_file, asks_for,
}

-- How many chunks ask for a byte.
abbrev pub asked : ℕ → List ThreadChunk → ℕ
asked k [] = 0
asked k (c ∷ cs) = (if asks_for c k then 1 else 0) + asked k cs

split_download_count-bounds :
    (size : ℕ) → (1 ≤ split_download_count size) × (split_download_count size ≤ 10)
unfolding split_download_count
split_download_count-bounds size = ground arith

-- The number of chunks lies between 1 and 10, and a larger file has no fewer.
pub split_download_count_mono :
    (size larger : ℕ)
    → size ≤ larger
    → (1 ≤ split_download_count size)
      × (split_download_count size ≤ split_download_count larger)
      × (split_download_count larger ≤ 10)
unfolding split_download_count
split_download_count_mono size larger h = ground arith

split_download_count-large : (size : ℕ) → 1 < split_download_count size → 2097152 < size
unfolding split_download_count
split_download_count-large size h = ground arith

module _ (n gap k : ℕ) (wide : 2 ≤ gap) where
  asks_for-inner :
      (i : ℕ)
      → suc i < n
      → asks_for (chunk_at i n gap) k
        ≡ (if leb (i * gap) k then (if ltb k (i * gap + gap) then true else false) else false)
  unfolding asks_for chunk_at
  asks_for-inner i inner = ground arith

  asks_for-last : (i : ℕ) → suc i ≡ n → asks_for (chunk_at i n gap) k ≡ leb (i * gap) k
  unfolding asks_for chunk_at
  asks_for-last i last = ground arith

  -- From the start of a chunk on, each byte is in one chunk.
  chunks_from-once :
      (left i : ℕ)
      → i + suc left ≡ n
      → asked k (chunks_from (suc left) i n gap) ≡ (if leb (i * gap) k then 1 else 0)
  unfolding chunks_from
  chunks_from-once zero i e = ground (arith, asks_for-last i (omega arith))
  chunks_from-once (suc left) i e =
      let rest = chunks_from-once left (i + 1) (omega arith) in
      let next : (i + 1) * gap ≡ i * gap + gap = omega arith in
      ground (arith, asks_for-inner i (omega arith), rest, next)

pub gap_wide :
    (size threads n : ℕ) → n ≡ min (split_download_count size) threads → 1 < n → 2 ≤ size / n
gap_wide size threads n e many =
    let (_, most) = split_download_count-bounds size in
    let large = split_download_count-large size (omega arith) in
    (le-div_iff_mul-le (omega arith)).1 (omega arith)

all_chunks :
    (size threads n k : ℕ)
    → n ≡ min (split_download_count size) threads
    → 1 < n
    → asked k (chunks_from n 0 n (size / n)) ≡ 1
all_chunks size threads zero k e many = absurd (omega arith)
all_chunks size threads (suc left) k e many =
    let wide = gap_wide size threads (suc left) e many in
    chunks_from-once (suc left) (size / suc left) k wide left 0 (omega arith) ∙ ground arith

-- Whatever the size, the number of threads that has been set, and whether the server takes ranges:
-- each byte of the file is asked for in exactly one chunk.
pub split_file-once :
    (size threads : ℕ) (multi : Bool) (k : ℕ) → asked k (split_file size threads multi) ≡ 1
unfolding split_file asks_for
split_file-once size threads multi k =
    let n = min (split_download_count size) threads in
    elim (Bool-cases (multi && ltb 1 n)) [
      | inl split ↦ rw split (all_chunks size threads n k refl (ground (arith, split)))
      | inr whole ↦ rw whole refl
    ]
