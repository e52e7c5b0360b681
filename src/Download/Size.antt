-- ===== src/Download/Size.antt =====
-- `HttpDownloader::DownloadHelper::GetDownloadFileSize` of
-- QClientFramework/Component/http_service_moudle/HttpRequest.cpp, `RetriveHeaderFunction` of
-- HttpHelper.h, and their place in `Perform`.
-- A header is a list of character codes. A step of the regular expression takes what must hold of the
-- text behind it, and tries each way to match.
use my_communication.Prelude.{
  ℕ, zero, suc, ◌+◌, Bool, true, false, ◌&&◌, ◌||◌, List, [], ◌∷◌, ◌++◌, Option, none, leb, ◌==◌,
  if◌then◌else◌,
}
use my_communication.Download.{CurlCode, is_timeout, is_ok, ThreadChunk, perform_download}

abbrev pub is_space : ℕ → Bool
is_space c = c == 32 || leb 9 c && leb c 13

abbrev pub is_digit : ℕ → Bool
is_digit c = leb 48 c && leb c 57

abbrev pub lower : ℕ → ℕ
lower c = if leb 65 c && leb c 90 then c + 32 else c

abbrev pub is_word : ℕ → Bool
is_word c = is_digit c || (leb 97 (lower c) && leb (lower c) 122) || c == 95

-- `p*`
unfoldable pub many : (ℕ → Bool) → (List ℕ → Bool) → List ℕ → Bool
many p next [] = next []
many p next (c ∷ cs) = let more = many p next cs in next (c ∷ cs) || p c && more

-- `p+`
unfoldable pub some_of : (ℕ → Bool) → (List ℕ → Bool) → List ℕ → Bool
some_of p next [] = false
some_of p next (c ∷ cs) = p c && many p next cs

-- Letters that are given as small ones, in any case.
unfoldable pub literal : List ℕ → (List ℕ → Bool) → List ℕ → Bool
literal [] next text = next text
literal (c ∷ cs) next [] = false
literal (c ∷ cs) next (d ∷ text) = let rest = literal cs next text in lower d == c && rest

-- `regex_search`
unfoldable pub search_from : (List ℕ → Bool) → List ℕ → Bool
search_from matches [] = matches []
search_from matches (c ∷ cs) = let later = search_from matches cs in matches (c ∷ cs) || later

-- The small letters of `CONTENT-RANGE`.
abbrev pub content_range : List ℕ
content_range = 99 ∷ 111 ∷ 110 ∷ 116 ∷ 101 ∷ 110 ∷ 116 ∷ 45 ∷ 114 ∷ 97 ∷ 110 ∷ 103 ∷ 101 ∷ []

-- `(\d+)-(\d*)/(\d+)`
unfoldable pub match_numbers : List ℕ → Bool
match_numbers =
    some_of is_digit
      (literal (45 ∷ []) (many is_digit (literal (47 ∷ []) (some_of is_digit (λ _. true)))))

-- `CONTENT-RANGE\s*:\s*\w+\s*(\d+)-(\d*)/(\d+)`
unfoldable pub match_range : List ℕ → Bool
match_range = literal content_range (
    many is_space
      (literal (58 ∷ []) (many is_space (some_of is_word (many is_space match_numbers)))))

-- One `curl_easy_perform` with the options of `GetDownloadFileSize`: the header that comes, the code,
-- the status, and the length of the content, if libcurl knows it.
pub record Probe : Type 0 where
  pub header : List ℕ
  pub code : CurlCode
  pub http_code : ℕ
  pub content_length : Option ℕ

-- The fields that `GetDownloadFileSize` changes.
pub record Helper : Type 0 where
  pub receive_header : List ℕ
  pub multi_download : Bool
  pub http_code : ℕ

abbrev pub append_header : List ℕ → Helper → Helper
append_header bytes h = record h { receive_header = h.receive_header ++ bytes }

-- The loop, from the `i`-th transfer on: the number of the last transfer.
unfoldable pub probe_again : (ℕ → Probe) → ℕ → ℕ → Helper → ℕ × Helper
probe_again probes zero i h = (i, h)
probe_again probes (suc retry_count) i h =
    let again = probe_again probes retry_count (i + 1) (append_header (probes (i + 1)).header h) in
    if is_timeout (probes i).code then again else (i, h)

-- What `GetDownloadFileSize` makes of its last transfer; `none` stands for -1.
unfoldable pub size_of : Probe → Helper → Option ℕ × Helper
size_of p h =
    let ended = record h { http_code = p.http_code } in
    if is_ok p.code
    then (
      p.content_length,
      record ended { multi_download = search_from match_range h.receive_header },
    )
    else (none, ended)

-- `GetDownloadFileSize`, with whether there is an address and whether `curl_easy_init` gives a handle.
unfoldable pub get_download_file_size : (ℕ → Probe) → Bool → Bool → ℕ → Helper → Option ℕ × Helper
get_download_file_size probes has_url has_handle retry_times h =
    let (i, after) = probe_again probes retry_times 0 (append_header (probes 0).header h) in
    if has_url && has_handle then size_of (probes i) after else (none, h)

-- `Perform`
unfoldable pub perform_file :
    (ℕ → Probe)
    → (List ThreadChunk → List (CurlCode × ℕ))
    → Bool
    → Bool
    → Bool
    → ℕ
    → ℕ
    → Helper
    → Bool
perform_file probes run has_url has_handle opened threads retry_times h =
    let (size, after) = get_download_file_size probes has_url has_handle retry_times h in
    perform_download run size opened threads after.multi_download
