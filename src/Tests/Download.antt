-- ===== src/Tests/Download.antt =====
-- Examples for the download of files.
use my_communication.Prelude.{
  ℕ, zero, suc, ◌%◌, ◌≤◌, ◌<◌, ◌≡◌, refl, sym, subst, append-nil, ◌==◌, inl, true, false, not, List,
  [], ◌∷◌, ◌++◌, some, map, length, All, arith,
}
use my_communication.Download.{
  split_download_count, split_file, to_the_end, CurlCode, curle_ok, curle_operation_timedout,
  curle_other, Attempt, Writer, is_timeout, perform_all, download_fails, perform_download, chunk_at,
  chunks_from, ThreadChunk, upto,
}
use my_communication.Download.Writing.{Written}
use my_communication.Download.Parallel.{Downloading, chunk_of, start_threads, receive_blocks}
use my_communication.Download.Assembly.{slice, length-slice, bytes_of}
use my_communication.Download.Complete.{part_of, receive_blocks_complete}
use my_communication.Download.Retrying.{received, perform_all_lem, perform_download_lem}

-- The size that `GetDownloadFileSize` gives for a file of 25000002 bytes from a server that takes ranges:
-- four threads that have been set, of five that are possible.
abbrev large : ℕ
large = 25000000

abbrev whole_size : ℕ
whole_size = 25000002

four_chunks : split_file large 4 true ≡ (
    record { startidx = 0; endidx = upto 6249999 }
    ∷ record { startidx = 6250000; endidx = upto 12499999 }
    ∷ record { startidx = 12500000; endidx = upto 18749999 }
    ∷ record { startidx = 18750000; endidx = to_the_end }
    ∷ [])
unfolding split_file split_download_count chunks_from chunk_at
four_chunks = refl

-- The bytes 1 2 3 4; the first transfer stops after two of them.
abbrev twice : ℕ → Attempt
twice zero = record { blocks = (1 ∷ 2 ∷ []) ∷ []; code = curle_operation_timedout }
twice (suc n) = record { blocks = (1 ∷ 2 ∷ []) ∷ (3 ∷ 4 ∷ []) ∷ []; code = curle_ok }

abbrev fresh : Writer
fresh = record {
  chunk = record { startidx = 0; endidx = to_the_end };
  is_cancel = false;
  downloaded_size = 0;
  file = λ _. 0;
  replies = λ _. record { seek_failed = false; accepts = 16384 };
  writes = 0;
}

twice-small : (i : ℕ) → All (λ (b : List ℕ). length b ≤ 16384) (twice i).blocks
twice-small zero = (omega arith, tt)
twice-small (suc n) = (omega arith, (omega arith, tt))

twice_late : (j : ℕ) → j < 1 → is_timeout (twice j).code ≡ true
twice_late zero h = refl
twice_late (suc j) h = absurd (omega arith)

perform_all_lem_example :
    let t = perform_all twice 3 fresh in
    (t.performs ≡ 2) × (t.code ≡ curle_ok) × Written (received twice 0 2) fresh t.writer
perform_all_lem_example =
    perform_all_lem twice 16384 1 3 fresh twice-small twice_late refl (omega arith)
      (record { going = refl; seeks = λ i. refl; takes = λ i. omega arith }) (inl refl)

-- The file then begins with 1 2 1 2 instead of 1 2 3 4.
doubled : received twice 0 2 ≡ 1 ∷ 2 ∷ 1 ∷ 2 ∷ 3 ∷ 4 ∷ []
doubled = refl

-- The first chunk fails, and the others end after it.
abbrev first_fails : List ThreadChunk → List (CurlCode × ℕ)
first_fails [] = []
first_fails (c ∷ cs) = (curle_other 7, 0) ∷ map (λ _. (curle_ok, 206)) cs

four_ends :
    first_fails (split_file large 4 true)
    ≡ ((curle_other 7, 0) ∷ (curle_ok, 206) ∷ (curle_ok, 206) ∷ []) ++ (curle_ok, 206) ∷ []
unfolding split_file split_download_count chunks_from chunk_at
four_ends = refl

perform_download_lem_example :
    perform_download first_fails (some large) true 4 true ≡ not (download_fails curle_ok 206)
perform_download_lem_example =
    perform_download_lem first_fails large 4 206 true
      ((curle_other 7, 0) ∷ (curle_ok, 206) ∷ (curle_ok, 206) ∷ []) curle_ok four_ends

-- The four chunks come in one block each, in another order.
abbrev content : ℕ → ℕ
content k = k % 256

abbrev four : List ThreadChunk
four =
    record { startidx = 0; endidx = upto 6249999 }
    ∷ record { startidx = 6250000; endidx = upto 12499999 }
    ∷ record { startidx = 12500000; endidx = upto 18749999 }
    ∷ record { startidx = 18750000; endidx = to_the_end }
    ∷ []

abbrev arrivals : List (ℕ × List ℕ)
arrivals =
    (2, slice content 12500000 6250000)
    ∷ (0, slice content 0 6250000)
    ∷ (3, slice content 18750000 6250002)
    ∷ (1, slice content 6250000 6250000)
    ∷ []

arrivals_small : All (λ (e : ℕ × List ℕ). length e.1 ≤ 6250002) arrivals
arrivals_small = (
  omega (arith, length-slice content 12500000 6250000),
  (
    omega (arith, length-slice content 0 6250000),
    (
      omega (arith, length-slice content 18750000 6250002),
      (omega (arith, length-slice content 6250000 6250000), tt),
    ),
  ),
)

no_bytes : (f : ℕ → ℕ) (a : ℕ) → [] ≡ slice f a 0
unfolding slice
no_bytes f a = refl

four_served :
    (j : ℕ)
    → bytes_of j arrivals ≡ slice content (chunk_of four j).startidx (part_of whole_size four j)
four_served zero = append-nil (slice content 0 6250000)
four_served (suc zero) = append-nil (slice content 6250000 6250000)
four_served (suc (suc zero)) = append-nil (slice content 12500000 6250000)
four_served (suc (suc (suc zero))) = append-nil (slice content 18750000 6250002)
four_served (suc (suc (suc (suc j)))) =
    let k = suc (suc (suc (suc j))) in
    let second : 2 == k ≡ false = ground arith in
    let first : 0 == k ≡ false = ground arith in
    let third : 3 == k ≡ false = ground arith in
    let other : 1 == k ≡ false = ground arith in
    rw (second, first, third, other) (no_bytes content 0)

abbrev finished : Downloading
finished =
    receive_blocks arrivals
      (start_threads large 4 true (λ _. 0) (λ _. record { seek_failed = false; accepts = 6250002 }))

receive_blocks_complete_example : finished.file 25000001 ≡ content 25000001
receive_blocks_complete_example =
    receive_blocks_complete content whole_size large 4 true (λ _. 0)
      (λ _. record { seek_failed = false; accepts = 6250002 }) 6250002 arrivals 25000001
      (λ i. (refl, omega arith)) arrivals_small
      (subst
        (λ cs.
          (j : ℕ)
          → bytes_of j arrivals ≡ slice content (chunk_of cs j).startidx (part_of whole_size cs j))
        (sym four_chunks) four_served)
      (omega arith)
