-- ===== src/Download.antt =====
-- QClientFramework/Component/http_service_moudle/HttpRequest.cpp and HttpHelper.h: how
-- `HttpDownloader::DownloadHelper` splits a file into chunks, how a chunk is received and written, and
-- how its transfer is repeated.
-- What libcurl does is a parameter: each `curl_easy_perform` is an attempt, the blocks that it passes
-- to the callback and the code that it ends with. As libcurl documents it, a callback that takes less
-- than its block ends the transfer with `CURLE_WRITE_ERROR`. The file system answers each write from a
-- function of its number. Sizes stay below 2 ^ 31, which a `long` on Windows holds.
pub mod Chunks
pub mod Writing
pub mod Retrying
pub mod Parallel
pub mod Assembly
pub mod Complete
pub mod Size
pub mod Matching
pub mod Sizing
use my_communication.Prelude.{
  ℕ, zero, suc, ◌+◌, ◌-◌, ◌*◌, ◌/◌, min, Bool, true, false, not, ◌&&◌, List, [], ◌∷◌, Option, none,
  some, ltb, leb, ◌==◌, if◌then◌else◌, length, take,
}

abbrev pub thread_count : ℕ
thread_count = 4

-- `SplitDownloadCount`. The sizes are whole numbers of bytes, on which the divisions of `double`
-- truncate as those of numbers do.
unfoldable pub split_download_count : ℕ → ℕ
split_download_count size =
    if leb size 2097152
    then 1
    else if leb size 10485760
    then size / 2097152
    else if leb size 52428800
    then thread_count + 1
    else if ltb 10 (size / 10485760)
    then 10
    else size / 10485760

-- `_endidx`, where -1 is `to_the_end`.
pub data EndIdx : Type 0 where
  to_the_end : EndIdx
  upto : ℕ → EndIdx

pub record ThreadChunk : Type 0 where
  pub startidx : ℕ
  pub endidx : EndIdx

-- The chunk of the `i`-th of `n` threads.
unfoldable pub chunk_at : ℕ → ℕ → ℕ → ThreadChunk
chunk_at i n gap =
    if ltb i (n - 1)
    then record { startidx = i * gap; endidx = upto (i * gap + gap - 1) }
    else record { startidx = i * gap; endidx = to_the_end }

-- The loop over the threads, from the `i`-th on.
unfoldable pub chunks_from : ℕ → ℕ → ℕ → ℕ → List ThreadChunk
chunks_from zero i n gap = []
chunks_from (suc left) i n gap = chunk_at i n gap ∷ chunks_from left (i + 1) n gap

-- The chunks that `Perform` makes of a file, with `m_multi_download` and the number of threads that
-- has been set.
unfoldable pub split_file : ℕ → ℕ → Bool → List ThreadChunk
split_file size threads multi =
    let n = min (split_download_count size) threads in
    if multi && ltb 1 n
    then chunks_from n 0 n (size / n)
    else record { startidx = 0; endidx = upto 0 } ∷ []

-- Whether a byte of the file is in what the request for a chunk asks for. Without a range that is
-- the whole file.
unfoldable pub asks_for : ThreadChunk → ℕ → Bool
asks_for c k = elim c.endidx [
  | to_the_end ↦ leb c.startidx k
  | upto e ↦ if e == 0 then true else leb c.startidx k && leb k e
]

-- The codes of libcurl.
pub data CurlCode : Type 0 where
  curle_ok curle_operation_timedout curle_write_error : CurlCode
  curle_other : ℕ → CurlCode

pub record Attempt : Type 0 where
  pub blocks : List (List ℕ)
  pub code : CurlCode

-- What the file system answers to `fseek`, and how many bytes `fwrite` takes at most.
pub record FileReply : Type 0 where
  pub seek_failed : Bool
  pub accepts : ℕ

-- A chunk on its way to the file.
pub record Writer : Type 0 where
  pub chunk : ThreadChunk
  pub is_cancel : Bool
  pub downloaded_size : ℕ
  pub file : ℕ → ℕ
  pub replies : ℕ → FileReply
  pub writes : ℕ

abbrev pub write_bytes : ℕ → List ℕ → (ℕ → ℕ) → ℕ → ℕ
write_bytes at [] file = file
write_bytes at (b ∷ bs) file = write_bytes (at + 1) bs (λ k. if k == at then b else file k)

-- `real_size`
unfoldable pub real_size : ThreadChunk → ℕ → ℕ
real_size c n = elim c.endidx [
  | to_the_end ↦ n
  | upto e ↦ if ltb 0 e && leb c.startidx e && ltb e (c.startidx + n) then e - c.startidx + 1 else n
]

abbrev pub written_size : FileReply → ℕ → ℕ
written_size r n = if r.seek_failed then 0 else min r.accepts n

-- `HttpHelper::write_callback`: the number of bytes that it reports, and the state after it.
unfoldable pub write_callback : List ℕ → Writer → ℕ × Writer
write_callback block w =
    let written = written_size (w.replies w.writes) (real_size w.chunk (length block)) in
    if w.is_cancel then (0, w) else (
      written,
      record w {
        chunk = record (w.chunk) { startidx = w.chunk.startidx + written };
        downloaded_size = w.downloaded_size + written;
        file = write_bytes w.chunk.startidx (take written block) w.file;
        writes = w.writes + 1;
      },
    )

-- One `curl_easy_perform`.
unfoldable pub transfer : List (List ℕ) → CurlCode → Writer → CurlCode × Writer
transfer [] code w = (code, w)
transfer (block ∷ blocks) code w =
    let (written, after) = write_callback block w in
    let rest = transfer blocks code after in
    if written == length block then rest else (curle_write_error, after)

abbrev pub is_timeout : CurlCode → Bool
is_timeout curle_operation_timedout = true
is_timeout _ = false

abbrev pub is_ok : CurlCode → Bool
is_ok curle_ok = true
is_ok _ = false

-- What repeated transfers have come to: the last code, the state, and how many there were.
pub record Performed : Type 0 where
  pub code : CurlCode
  pub writer : Writer
  pub performs : ℕ

abbrev pub perform : (ℕ → Attempt) → ℕ → Writer → Performed
perform attempts i w =
    let (code, after) = transfer (attempts i).blocks (attempts i).code w in
    record { code = code; writer = after; performs = i + 1 }

-- The loop `while (retry_count > 0)`.
unfoldable pub retry : (ℕ → Attempt) → ℕ → Performed → Performed
retry attempts zero r = r
retry attempts (suc retry_count) r =
    let next = perform attempts r.performs r.writer in
    let rest = retry attempts retry_count next in if is_timeout next.code then rest else next

-- The transfers of `DoDownload`.
unfoldable pub perform_all : (ℕ → Attempt) → ℕ → Writer → Performed
perform_all attempts retry_times w =
    let first = perform attempts 0 w in
    let rest = retry attempts retry_times first in if is_timeout first.code then rest else first

-- What `DoDownload` stores in `m_download_fail`.
unfoldable pub download_fails : CurlCode → ℕ → Bool
download_fails code http_code = not (is_ok code && leb 200 http_code && leb http_code 300)

-- `m_download_fail` after the threads of the chunks have stored theirs, one after another. It is true
-- after a `Reset`.
unfoldable pub fail_flag : List (CurlCode × ℕ) → Bool → Bool
fail_flag [] flag = flag
fail_flag ((code, http_code) ∷ ends) flag = fail_flag ends (download_fails code http_code)

-- `Perform`: `none` for a size that is not known, a flag for whether the file can be opened, the
-- number of threads that has been set and `m_multi_download`. `run` gives how the transfers of the
-- chunks end, in the order in which they do. True means that the file is put in its place.
unfoldable pub perform_download :
    (List ThreadChunk → List (CurlCode × ℕ)) → Option ℕ → Bool → ℕ → Bool → Bool
perform_download run none opened threads multi = false
perform_download run (some size) opened threads multi =
    if opened then not (fail_flag (run (split_file size threads multi)) true) else false
