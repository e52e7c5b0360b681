-- ===== src/Download/Matching.antt =====
-- About the regular expression of `GetDownloadFileSize` in
-- QClientFramework/Component/http_service_moudle/HttpRequest.cpp.
use my_communication.Prelude.{
  ℕ, ◌≤◌, ◌≡◌, refl, sym, ap, ◌∙◌, Bool, true, false, ◌||◌, List, [], ◌∷◌, ◌++◌, length, map, All,
  arith, ==_refl,
}
use my_communication.Download.Size.{
  is_space, is_digit, lower, is_word, many, some_of, literal, search_from, content_range,
  match_numbers, match_range,
}

abbrev pub Each : (ℕ → Bool) → List ℕ → Type 0
Each p cs = All (λ c. p c ≡ true) cs

or_later : (b : Bool) → (b || true) ≡ true
or_later true = refl
or_later false = refl

many-here :
    (p : ℕ → Bool) (next : List ℕ → Bool) (text : List ℕ)
    → next text ≡ true
    → many p next text ≡ true
unfolding many
many-here p next [] h = h
many-here p next (c ∷ cs) h = rw h refl

many-append :
    (p : ℕ → Bool) (next : List ℕ → Bool) (cs text : List ℕ)
    → Each p cs
    → next text ≡ true
    → many p next (cs ++ text) ≡ true
unfolding many
many-append p next [] text each h = many-here p next text h
many-append p next (c ∷ cs) text (here, each) h =
    rw (here, many-append p next cs text each h) (or_later (next (c ∷ cs ++ text)))

some_of-append :
    (p : ℕ → Bool) (next : List ℕ → Bool) (cs text : List ℕ)
    → 1 ≤ length cs
    → Each p cs
    → next text ≡ true
    → some_of p next (cs ++ text) ≡ true
unfolding some_of
some_of-append p next [] text long each h = absurd (omega arith)
some_of-append p next (c ∷ cs) text long (here, each) h =
    rw here (many-append p next cs text each h)

literal-append :
    (name text : List ℕ) (next : List ℕ → Bool)
    → next text ≡ true
    → literal (map lower name) next (name ++ text) ≡ true
unfolding literal
literal-append [] text next h = h
literal-append (c ∷ cs) text next h = rw (==_refl (lower c)) (literal-append cs text next h)

pub search_from-append :
    (matches : List ℕ → Bool) (before text : List ℕ)
    → matches text ≡ true
    → search_from matches (before ++ text) ≡ true
unfolding search_from
search_from-append matches [] [] h = h
search_from-append matches [] (c ∷ cs) h = rw h refl
search_from-append matches (c ∷ cs) text h =
    rw (search_from-append matches cs text h) (or_later (matches (c ∷ cs ++ text)))

-- The pieces of a field `Content-Range: bytes 2-1449/26620`, and what comes behind it.
pub record RangeField : Type 0 where
  pub name : List ℕ
  pub before_colon : List ℕ
  pub after_colon : List ℕ
  pub unit : List ℕ
  pub gap : List ℕ
  pub first : List ℕ
  pub last : List ℕ
  pub total : List ℕ
  pub behind : List ℕ

pub record IsRangeField (f : RangeField) : Type 0 where
  pub named : map lower f.name ≡ content_range
  pub before_spaces : Each is_space f.before_colon
  pub after_spaces : Each is_space f.after_colon
  pub unit_word : Each is_word f.unit
  pub some_unit : 1 ≤ length f.unit
  pub gap_spaces : Each is_space f.gap
  pub first_digits : Each is_digit f.first
  pub some_first : 1 ≤ length f.first
  pub last_digits : Each is_digit f.last
  pub total_digits : Each is_digit f.total
  pub some_total : 1 ≤ length f.total

abbrev pub numbers_text : RangeField → List ℕ
numbers_text f = f.first ++ (45 ∷ (f.last ++ (47 ∷ (f.total ++ f.behind))))

abbrev pub field_text : RangeField → List ℕ
field_text f =
    f.name ++ (f.before_colon ++ (58 ∷ (f.after_colon ++ (f.unit ++ (f.gap ++ numbers_text f)))))

one :
    (c : ℕ) (next : List ℕ → Bool) (text : List ℕ)
    → lower c ≡ c
    → next text ≡ true
    → literal (c ∷ []) next (c ∷ text) ≡ true
unfolding literal
one c next text small h = rw (small, ==_refl c) h

match_numbers-field : (f : RangeField) → IsRangeField f → match_numbers (numbers_text f) ≡ true
unfolding match_numbers
match_numbers-field f v = some_of-append is_digit _ f.first _ v.some_first v.first_digits (
    one 45 _ _ refl (
      many-append is_digit _ f.last _ v.last_digits (
        one 47 _ _ refl
          (some_of-append is_digit (λ _. true) f.total f.behind v.some_total v.total_digits refl))))

pub match_range-field : (f : RangeField) → IsRangeField f → match_range (field_text f) ≡ true
unfolding match_range
match_range-field f v =
    let rest = f.before_colon ++ (58 ∷ (f.after_colon ++ (f.unit ++ (f.gap ++ numbers_text f)))) in
    let next =
      many is_space
        (literal (58 ∷ []) (many is_space (some_of is_word (many is_space match_numbers)))) in
    let spaced = many-append is_space _ f.gap _ v.gap_spaces (match_numbers-field f v) in
    let counted = some_of-append is_word _ f.unit _ v.some_unit v.unit_word spaced in
    let valued = many-append is_space _ f.after_colon _ v.after_spaces counted in
    ap (λ l. literal l next (f.name ++ rest)) (sym v.named)
    ∙ literal-append f.name rest next
        (many-append is_space _ f.before_colon _ v.before_spaces (one 58 _ _ refl valued))
