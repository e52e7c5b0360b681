-- ===== src/Download/Sizing.antt =====
-- About `GetDownloadFileSize` of QClientFramework/Component/http_service_moudle/HttpRequest.cpp.
use my_communication.Prelude.{
  ℕ, zero, suc, ◌+◌, ◌≤◌, ◌<◌, ◌≡◌, refl, sym, ap, subst, ◌∙◌, Bool, true, false, List, ◌++◌, arith,
}
use my_communication.Download.{CurlCode, curle_ok, is_timeout, ThreadChunk, perform_download}
use my_communication.Download.Size.{
  search_from, match_range, Probe, Helper, append_header, probe_again, size_of,
  get_download_file_size, perform_file,
}
use my_communication.Download.Matching.{
  RangeField, IsRangeField, field_text, search_from-append, match_range-field,
}

same : (i : ℕ) → i ≡ i + 0
same i = omega arith

-- The helper after `d` more transfers, the `i`-th being done.
abbrev pub received : (ℕ → Probe) → ℕ → ℕ → Helper → Helper
received probes i zero h = h
received probes i (suc d) h = received probes (i + 1) d (append_header (probes (i + 1)).header h)

probe_again_lem :
    (probes : ℕ → Probe) (retry_count d i : ℕ) (h : Helper)
    → d ≤ retry_count
    → ((j : ℕ) → j < i + d → is_timeout (probes j).code ≡ true)
    → is_timeout (probes (i + d)).code ≡ false
    → probe_again probes retry_count i h ≡ (i + d, received probes i d h)
unfolding probe_again
probe_again_lem probes zero zero i h le late ends = ap (λ k. (k, h)) (same i)
probe_again_lem probes (suc r) zero i h le late ends =
    rw (subst (λ k. is_timeout (probes k).code ≡ false) (sym (same i)) ends)
      (ap (λ k. (k, h)) (same i))
probe_again_lem probes zero (suc d) i h le late ends = absurd (omega arith)
probe_again_lem probes (suc r) (suc d) i h le late ends =
    let next = append_header (probes (i + 1)).header h in
    let shift : i + 1 + d ≡ i + suc d = omega arith in
    rw (late i (omega arith)) (
      probe_again_lem probes r d (i + 1) next (omega arith) (λ j lt. late j (omega arith))
        (subst (λ k. is_timeout (probes k).code ≡ false) (sym shift) ends)
      ∙ ap (λ k. (k, received probes (i + 1) d next)) shift)

size_of-ranges :
    (p : Probe) (h : Helper) (before : List ℕ) (f : RangeField)
    → p.code ≡ curle_ok
    → IsRangeField f
    → h.receive_header ≡ before ++ field_text f
    → size_of p h ≡ (
      p.content_length,
      record {
        receive_header = before ++ field_text f;
        multi_download = true;
        http_code = p.http_code;
      },
    )
unfolding size_of
size_of-ranges p h before f ok v e =
    let found : search_from match_range h.receive_header ≡ true =
      ap (λ t. search_from match_range t) e
      ∙ search_from-append match_range before (field_text f) (match_range-field f v) in
    rw (ok, found)
      (ap
        (λ t. (
          p.content_length,
          record { receive_header = t; multi_download = true; http_code = p.http_code },
        ))
        e)

-- What has come after the `i`-th transfer.
abbrev pub after_probes : (ℕ → Probe) → ℕ → Helper → Helper
after_probes probes i h = received probes 0 i (append_header (probes 0).header h)

-- Where there are an address and a handle, the first transfers time out, no more of them than may be
-- repeated, the next one succeeds, and a field `Content-Range` with its numbers is anywhere in the
-- headers that have come: the size is the length that this transfer reports, and `Perform` downloads
-- in chunks where the size allows it.
pub get_download_file_size_lem :
    (probes : ℕ → Probe) (run : List ThreadChunk → List (CurlCode × ℕ)) (opened : Bool)
    (threads retry_times i : ℕ) (h : Helper) (before : List ℕ) (f : RangeField)
    → i ≤ retry_times
    → ((j : ℕ) → j < i → is_timeout (probes j).code ≡ true)
    → (probes i).code ≡ curle_ok
    → IsRangeField f
    → (after_probes probes i h).receive_header ≡ before ++ field_text f
    → (get_download_file_size probes true true retry_times h ≡ (
      (probes i).content_length,
      record {
        receive_header = before ++ field_text f;
        multi_download = true;
        http_code = (probes i).http_code;
      },
    ))
      × (perform_file probes run true true opened threads retry_times h
          ≡ perform_download run (probes i).content_length opened threads true)
unfolding get_download_file_size perform_file
get_download_file_size_lem probes run opened threads retry_times i h before f le late ok v e =
    let in_time : is_timeout (probes i).code ≡ false = rw ok refl in
    let start : 0 + i ≡ i = omega arith in
    let first = append_header (probes 0).header h in
    let last : probe_again probes retry_times 0 first ≡ (i, after_probes probes i h) =
      probe_again_lem probes retry_times i 0 first le (λ j lt. late j (omega arith))
        (subst (λ k. is_timeout (probes k).code ≡ false) (sym start) in_time)
      ∙ ap (λ k. (k, after_probes probes i h)) start in
    let sized =
      ap (λ r. size_of (probes r.0) r.1) last
      ∙ size_of-ranges (probes i) (after_probes probes i h) before f ok v e in
    (sized, ap (λ r. perform_download run r.0 opened threads r.1.multi_download) sized)
