-- ===== src/Download/Retrying.antt =====
-- About the transfers that `DoDownload` of HttpRequest.cpp repeats, and what `Perform` makes of the way
-- in which the chunks end.
use my_communication.Prelude.{
  ℕ, zero, suc, ◌+◌, ◌≤◌, ◌<◌, ◌≡◌, refl, sym, ap, subst, ◌∙◌, ◌⊎◌, inl, inr, Bool, true, false,
  not, List, [], ◌∷◌, ◌++◌, some, length, concat, All, arith, Bool-cases, length-append,
  if◌then◌else◌, append-nil,
}
use my_communication.Download.{
  ThreadChunk, split_file, CurlCode, Attempt, Writer, is_timeout, Performed, perform, retry,
  perform_all, download_fails, fail_flag, perform_download,
}
use my_communication.Download.Writing.{
  IsReady, Fits, Written, Written-append, Written-IsReady, Written-Fits, transfer_lem,
}

retry_bounds :
    (attempts : ℕ → Attempt) (n : ℕ) (r : Performed)
    → is_timeout r.code ≡ true
    → let t = retry attempts n r in
      (r.performs ≤ t.performs)
      × (t.performs ≤ r.performs + n)
      × ((is_timeout t.code ≡ false) ⊎ (t.performs ≡ r.performs + n))
unfolding retry
retry_bounds attempts zero r late = (omega arith, omega arith, inr (omega arith))
retry_bounds attempts (suc n) r late =
    let next = perform attempts r.performs r.writer in
    elim (Bool-cases (is_timeout next.code)) [
      | inl again ↦
          let (more, few, ends) = retry_bounds attempts n next again in
          rw again (
            omega arith,
            omega arith,
            elim ends [ inl over ↦ inl over | inr all ↦ inr (omega arith) ],
          )
      | inr over ↦ rw over (omega arith, omega arith, inl over)
    ]

-- A chunk is transferred at least once, and at most once more than the number of retries; it ends
-- with a timeout only if it has been transferred so often.
pub perform_all-bounds :
    (attempts : ℕ → Attempt) (retry_times : ℕ) (w : Writer)
    → let t = perform_all attempts retry_times w in
      (1 ≤ t.performs)
      × (t.performs ≤ retry_times + 1)
      × ((is_timeout t.code ≡ false) ⊎ (t.performs ≡ retry_times + 1))
unfolding perform_all
perform_all-bounds attempts retry_times w =
    let first = perform attempts 0 w in
    elim (Bool-cases (is_timeout first.code)) [
      | inl again ↦
          let (more, few, ends) = retry_bounds attempts retry_times first again in
          rw again (
            omega arith,
            omega arith,
            elim ends [ inl over ↦ inl over | inr all ↦ inr (omega arith) ],
          )
      | inr over ↦ rw over (omega arith, omega arith, inl over)
    ]

-- The bytes of `k` attempts from the `i`-th on.
abbrev pub received : (ℕ → Attempt) → ℕ → ℕ → List ℕ
received attempts i zero = []
received attempts i (suc k) = concat (attempts i).blocks ++ received attempts (i + 1) k

module _ (attempts : ℕ → Attempt) (size : ℕ)
    (small : (i : ℕ) → All (λ (b : List ℕ). length b ≤ size) (attempts i).blocks) where
  -- One transfer, with some bytes still to come.
  perform_lem :
      (i m : ℕ) (w : Writer)
      → IsReady size w
      → Fits w.chunk (length (concat (attempts i).blocks) + m)
      → let t = perform attempts i w in
        (t.code ≡ (attempts i).code) × Written (concat (attempts i).blocks) w t.writer
  perform_lem i m w ready fits =
      transfer_lem size m (attempts i).blocks (attempts i).code w ready (small i) fits

  -- `k` timeouts from the `i`-th attempt on, and then another end.
  abbrev Ends : ℕ → ℕ → Type 0
  Ends i k =
      ((j : ℕ) → j < k → is_timeout (attempts (i + j)).code ≡ true)
      × (is_timeout (attempts (i + k)).code ≡ false)

  -- What the attempts come to.
  abbrev Comes : ℕ → ℕ → Writer → Performed → Type 0
  Comes i k w t =
      (t.performs ≡ i + suc k)
      × (t.code ≡ (attempts (i + k)).code)
      × Written (received attempts i (suc k)) w t.writer

  shifted : (i k : ℕ) → Ends i (suc k) → Ends (i + 1) k
  shifted i k (late, over) =
      let moved : (j : ℕ) → i + suc j ≡ i + 1 + j = λ j. omega arith in
      (
        λ j small_.
            subst (λ n. is_timeout (attempts n).code ≡ true) (moved j) (late (suc j) (omega arith)),
        subst (λ n. is_timeout (attempts n).code ≡ false) (moved k) over,
      )

  -- The transfer at `i`, and the retries after it.
  abbrev tried : ℕ → ℕ → Writer → Performed
  tried n i w =
      let first = perform attempts i w in
      if is_timeout first.code then retry attempts n first else first

  tried_lem :
      (k n i : ℕ) (w : Writer)
      → Ends i k
      → k ≤ n
      → IsReady size w
      → Fits w.chunk (length (received attempts i (suc k)))
      → Comes i k w (tried n i w)
  unfolding retry
  tried_lem zero n i w (_, over) enough ready fits =
      let (code, step) =
        perform_lem i 0 w ready
          (subst (Fits w.chunk) (length-append (concat (attempts i).blocks) []) fits) in
      let same : i ≡ i + 0 = omega arith in
      let here : (attempts i).code ≡ (attempts (i + 0)).code = ap (λ n. (attempts n).code) same in
      let ends : is_timeout (perform attempts i w).code ≡ false =
        ap is_timeout (code ∙ here) ∙ over in
      rw ends (
        omega arith,
        code ∙ here,
        subst (λ l. Written l w (perform attempts i w).writer)
            (sym (append-nil (concat (attempts i).blocks))) step,
      )
  tried_lem (suc k) zero i w ends enough ready fits = absurd (omega arith)
  tried_lem (suc k) (suc n) i w ends enough ready fits =
      let now = concat (attempts i).blocks in
      let later = received attempts (i + 1) (suc k) in
      let room = subst (Fits w.chunk) (length-append now later) fits in
      let (code, step) = perform_lem i (length later) w ready room in
      let first = perform attempts i w in
      let same : i + 0 ≡ i = omega arith in
      let again : is_timeout first.code ≡ true =
        ap is_timeout (code ∙ ap (λ n. (attempts n).code) (sym same)) ∙ ends.0 0 (omega arith) in
      let (count_, end, rest) =
        tried_lem k n (i + 1) first.writer (shifted i k ends) (omega arith)
          (Written-IsReady size now w first.writer step ready)
          (Written-Fits now (length later) w first.writer step room) in
      let moved : i + 1 + k ≡ i + suc k = omega arith in
      rw again (
        count_ ∙ omega arith,
        end ∙ ap (λ n. (attempts n).code) moved,
        Written-append now later w first.writer (tried n (i + 1) first.writer).writer step rest,
      )

-- Where a chunk is transferred again after timeouts, the bytes of all the attempts go to the file one
-- behind the other, from the start of the chunk on, and nothing else of the file changes; the last
-- attempt's code decides. This holds for as many timeouts as there are retries, none included,
-- provided that nobody cancels, that the file system takes the blocks, and that all the bytes together
-- do not go beyond the chunk's end, if it has one.
pub perform_all_lem :
    (attempts : ℕ → Attempt) (size k retry_times : ℕ) (w : Writer)
    → ((i : ℕ) → All (λ (b : List ℕ). length b ≤ size) (attempts i).blocks)
    → ((j : ℕ) → j < k → is_timeout (attempts j).code ≡ true)
    → is_timeout (attempts k).code ≡ false
    → k ≤ retry_times
    → IsReady size w
    → Fits w.chunk (length (received attempts 0 (suc k)))
    → let t = perform_all attempts retry_times w in
      (t.performs ≡ suc k)
      × (t.code ≡ (attempts k).code)
      × Written (received attempts 0 (suc k)) w t.writer
unfolding perform_all
perform_all_lem attempts size k retry_times w small late over enough ready fits =
    let from_zero : (j : ℕ) → j ≡ 0 + j = λ j. omega arith in
    let (count_, code, stored) =
      tried_lem attempts size small k retry_times 0 w
        (
          λ j h. subst (λ n. is_timeout (attempts n).code ≡ true) (from_zero j) (late j h),
          subst (λ n. is_timeout (attempts n).code ≡ false) (from_zero k) over,
        )
        enough ready fits in
    (count_ ∙ omega arith, code ∙ ap (λ n. (attempts n).code) (sym (from_zero k)), stored)

-- Where the file can be opened, a download counts as a success exactly if the chunk that ends last
-- succeeds, whatever has become of the others.
pub perform_download_lem :
    (run : List ThreadChunk → List (CurlCode × ℕ)) (size threads http_code : ℕ) (multi : Bool)
    (ends : List (CurlCode × ℕ)) (code : CurlCode)
    → run (split_file size threads multi) ≡ ends ++ (code, http_code) ∷ []
    → perform_download run (some size) true threads multi ≡ not (download_fails code http_code)
unfolding perform_download fail_flag
perform_download_lem run size threads http_code multi ends code e =
    ap (λ es. not (fail_flag es true)) e ∙ ap not (last_counts ends true)
  where
    last_counts :
        (es : List (CurlCode × ℕ)) (flag : Bool)
        → fail_flag (es ++ (code, http_code) ∷ []) flag ≡ download_fails code http_code
    last_counts [] flag = refl
    last_counts ((c, h) ∷ es) flag = last_counts es (download_fails c h)
