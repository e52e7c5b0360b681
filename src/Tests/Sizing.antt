-- ===== src/Tests/Sizing.antt =====
-- Examples for the size of a download.
use my_communication.Prelude.{
  ℕ, zero, suc, ◌<◌, ◌≡◌, refl, true, false, List, [], ◌∷◌, ◌++◌, some, none, arith,
}
use my_communication.Download.{
  CurlCode, curle_ok, curle_operation_timedout, is_timeout, ThreadChunk, perform_download,
}
use my_communication.Download.Size.{Probe, Helper, get_download_file_size, perform_file}
use my_communication.Download.Matching.{RangeField, IsRangeField, field_text}
use my_communication.Download.Sizing.{get_download_file_size_lem}

-- `HTTP 206`
abbrev status : List ℕ
status = 72 ∷ 84 ∷ 84 ∷ 80 ∷ 32 ∷ 50 ∷ 48 ∷ 54 ∷ []

-- `Content-Range: bytes 2-9/10`
abbrev range : RangeField
range = record {
  name = 67 ∷ 111 ∷ 110 ∷ 116 ∷ 101 ∷ 110 ∷ 116 ∷ 45 ∷ 82 ∷ 97 ∷ 110 ∷ 103 ∷ 101 ∷ [];
  before_colon = [];
  after_colon = 32 ∷ [];
  unit = 98 ∷ 121 ∷ 116 ∷ 101 ∷ 115 ∷ [];
  gap = 32 ∷ [];
  first = 50 ∷ [];
  last = 57 ∷ [];
  total = 49 ∷ 48 ∷ [];
  behind = 13 ∷ 10 ∷ [];
}

-- The first transfer times out, the second one succeeds.
abbrev probes : ℕ → Probe
probes zero = record {
  header = [];
  code = curle_operation_timedout;
  http_code = 0;
  content_length = none;
}
probes (suc n) = record {
  header = status ++ field_text range;
  code = curle_ok;
  http_code = 206;
  content_length = some 8;
}

abbrev fresh : Helper
fresh = record { receive_header = []; multi_download = false; http_code = 0 }

abbrev run : List ThreadChunk → List (CurlCode × ℕ)
run cs = (curle_ok, 206) ∷ []

range-IsRangeField : IsRangeField range
range-IsRangeField = record {
  named = refl;
  before_spaces = tt;
  after_spaces = (refl, tt);
  unit_word = (refl, (refl, (refl, (refl, (refl, tt)))));
  some_unit = omega arith;
  gap_spaces = (refl, tt);
  first_digits = (refl, tt);
  some_first = omega arith;
  last_digits = (refl, tt);
  total_digits = (refl, (refl, tt));
  some_total = omega arith;
}

first_late : (j : ℕ) → j < 1 → is_timeout (probes j).code ≡ true
first_late zero h = refl
first_late (suc j) h = absurd (omega arith)

get_download_file_size_lem_example :
    (get_download_file_size probes true true 3 fresh ≡ (
      some 8,
      record {
        receive_header = status ++ field_text range;
        multi_download = true;
        http_code = 206;
      },
    ))
    × (perform_file probes run true true true 4 3 fresh ≡ perform_download run (some 8) true 4 true)
get_download_file_size_lem_example =
    get_download_file_size_lem probes run true 4 3 1 fresh status range (omega arith) first_late
      refl range-IsRangeField refl
