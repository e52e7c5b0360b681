-- ===== src/Download/Writing.antt =====
-- About `write_callback` of HttpHelper.h and the transfers of `DoDownload` of HttpRequest.cpp.
use my_communication.Prelude.{
  ℕ, suc, ◌+◌, ◌≤◌, ◌≡◌, refl, sym, ap, subst, ◌∙◌, ◌⊎◌, inl, inr, Bool, true, false, List, [], ◌∷◌,
  ◌++◌, ◌==◌, if◌then◌else◌, length, take, concat, All, arith, length-append, ap₂,
}
use my_communication.Download.{
  to_the_end, upto, ThreadChunk, CurlCode, Writer, write_bytes, real_size, written_size,
  write_callback, transfer,
}

write_bytes-append :
    (at : ℕ) (xs ys : List ℕ) (file : ℕ → ℕ)
    → write_bytes at (xs ++ ys) file ≡ write_bytes (at + length xs) ys (write_bytes at xs file)
write_bytes-append at [] ys file =
    let same : at ≡ at + 0 = omega arith in ap (λ n. write_bytes n ys file) same
write_bytes-append at (x ∷ xs) ys file =
    let next : ℕ → ℕ = λ k. if k == at then x else file k in
    let same : at + 1 + length xs ≡ at + suc (length xs) = omega arith in
    write_bytes-append (at + 1) xs ys next
    ∙ ap (λ n. write_bytes n ys (write_bytes (at + 1) xs next)) same

-- Nobody cancels, and the file system takes blocks of this size.
pub record IsReady (size : ℕ) (w : Writer) : Type 0 where
  pub going : w.is_cancel ≡ false
  pub seeks : (i : ℕ) → (w.replies i).seek_failed ≡ false
  pub takes : (i : ℕ) → size ≤ (w.replies i).accepts

-- So many bytes more are within what the chunk asks for.
abbrev pub Fits : ThreadChunk → ℕ → Type 0
Fits c n =
    (c.endidx ≡ to_the_end)
    ⊎ (c.endidx ≡ upto 0)
    ⊎ ((e : ℕ) × (c.endidx ≡ upto e) × (c.startidx + n ≤ e + 1))

-- The bytes stand in the file, one behind the other, and nothing else has changed there.
pub record Written (bytes : List ℕ) (w t : Writer) : Type 0 where
  pub moved : t.chunk.startidx ≡ w.chunk.startidx + length bytes
  pub same_end : t.chunk.endidx ≡ w.chunk.endidx
  pub counted : t.downloaded_size ≡ w.downloaded_size + length bytes
  pub stored : t.file ≡ write_bytes w.chunk.startidx bytes w.file
  pub same_replies : t.replies ≡ w.replies
  pub same_cancel : t.is_cancel ≡ w.is_cancel

Written-nil : (w : Writer) → Written [] w w
Written-nil w = record {
  moved = omega arith;
  same_end = refl;
  counted = omega arith;
  stored = refl;
  same_replies = refl;
  same_cancel = refl;
}

pub Written-append :
    (xs ys : List ℕ) (w t u : Writer) → Written xs w t → Written ys t u → Written (xs ++ ys) w u
Written-append xs ys w t u first second = record {
  moved = omega (arith, first.moved, second.moved, length-append xs ys);
  same_end = second.same_end ∙ first.same_end;
  counted = omega (arith, first.counted, second.counted, length-append xs ys);
  stored =
      second.stored
      ∙ ap₂ (λ n f. write_bytes n ys f) first.moved first.stored
      ∙ sym (write_bytes-append w.chunk.startidx xs ys w.file);
  same_replies = second.same_replies ∙ first.same_replies;
  same_cancel = second.same_cancel ∙ first.same_cancel;
}

pub Written-IsReady :
    (size : ℕ) (bytes : List ℕ) (w t : Writer) → Written bytes w t → IsReady size w → IsReady size t
Written-IsReady size bytes w t step ready = record {
  going = step.same_cancel ∙ ready.going;
  seeks = rw (step.same_replies) ready.seeks;
  takes = rw (step.same_replies) ready.takes;
}

pub Written-Fits :
    (bytes : List ℕ) (n : ℕ) (w t : Writer)
    → Written bytes w t
    → Fits w.chunk (length bytes + n)
    → Fits t.chunk n
Written-Fits bytes n w t step (inl e) = inl (step.same_end ∙ e)
Written-Fits bytes n w t step (inr (inl e)) = inr (inl (step.same_end ∙ e))
Written-Fits bytes n w t step (inr (inr (end, e, room))) =
    inr (inr (end, step.same_end ∙ e, omega (arith, step.moved)))

real_size-Fits : (c : ThreadChunk) (n m : ℕ) → Fits c (n + m) → real_size c n ≡ n
unfolding real_size
real_size-Fits c n m (inl e) = rw (e, real_size) refl
real_size-Fits c n m (inr (inl e)) = rw (e, real_size) refl
real_size-Fits c n m (inr (inr (end, e, room))) = rw (e, real_size) (ground arith)

take_all : (xs : List ℕ) → take (length xs) xs ≡ xs
take_all [] = refl
take_all (x ∷ xs) = ap (λ (l : List ℕ). x ∷ l) (take_all xs)

-- The state after so many bytes of a block have been written.
abbrev after_write : List ℕ → ℕ → Writer → Writer
after_write block n w = record w {
  chunk = record (w.chunk) { startidx = w.chunk.startidx + n };
  downloaded_size = w.downloaded_size + n;
  file = write_bytes w.chunk.startidx (take n block) w.file;
  writes = w.writes + 1;
}

after_write-Written :
    (block : List ℕ) (w : Writer) → Written block w (after_write block (length block) w)
after_write-Written block w = record {
  moved = refl;
  same_end = refl;
  counted = refl;
  stored = ap (λ l. write_bytes w.chunk.startidx l w.file) (take_all block);
  same_replies = refl;
  same_cancel = refl;
}

module _ (size m : ℕ) (block : List ℕ) (w : Writer) (ready : IsReady size w)
    (small : length block ≤ size) (fits : Fits w.chunk (length block + m)) where
  all_written : written_size (w.replies w.writes) (real_size w.chunk (length block)) ≡ length block
  all_written =
      let open_end = real_size-Fits w.chunk (length block) m fits in
      let seeks = ready.seeks w.writes in
      let takes = ready.takes w.writes in rw (open_end, seeks) (omega arith)

  write_callback_run : write_callback block w ≡ (length block, after_write block (length block) w)
  unfolding write_callback
  write_callback_run =
      let r = w.replies w.writes in
      let n = written_size r (real_size w.chunk (length block)) in
      ap (λ (b : Bool). if b then (0, w) else (n, after_write block n w)) ready.going
      ∙ ap (λ k. (k, after_write block k w)) all_written

  -- One call of the callback.
  pub write_callback_lem :
      ((write_callback block w).0 ≡ length block) × Written block w (write_callback block w).1
  write_callback_lem =
      subst (λ (r : ℕ × Writer). (r.0 ≡ length block) × Written block w r.1)
        (sym write_callback_run) (refl, after_write-Written block w)

pub transfer_lem :
    (size m : ℕ) (blocks : List (List ℕ)) (code : CurlCode) (w : Writer)
    → IsReady size w
    → All (λ (b : List ℕ). length b ≤ size) blocks
    → Fits w.chunk (length (concat blocks) + m)
    → ((transfer blocks code w).0 ≡ code) × Written (concat blocks) w (transfer blocks code w).1
unfolding transfer
transfer_lem size m [] code w ready small fits = (refl, Written-nil w)
transfer_lem size m (block ∷ blocks) code w ready small fits =
    let t = (write_callback block w).1 in
    let total = length-append block (concat blocks) in
    let room : Fits w.chunk (length block + (length (concat blocks) + m)) =
      subst (Fits w.chunk) (omega (arith, total)) fits in
    let (all, step) =
      write_callback_lem size (length (concat blocks) + m) block w ready small.0 room in
    let (done, rest) =
      transfer_lem size m blocks code t (Written-IsReady size block w t step ready) small.1
        (Written-Fits block (length (concat blocks) + m) w t step room) in
    let full : (write_callback block w).0 == length block ≡ true = ground (arith, all) in
    rw full (done, Written-append block (concat blocks) w t _ step rest)
