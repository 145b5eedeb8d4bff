-- ===== src/Policies/Extract.antt =====
-- `clean_policy_text` and `extract_policy_pages` of backend/app/services/policy_text.py, on what the
-- PDF reader gives.
use shiftmate_web.Prelude.{
  ℕ, suc, Bool, true, false, not, ◌&&◌, ◌||◌, Option, List, [], ◌∷◌, ◌++◌, leb, ◌==◌, any, filter,
  map, if◌then◌else◌,
}
use shiftmate_web.Prelude.Result.{Result, ok, ◌>>=◌, ◌>>◌, raise_if, or_raise}
use shiftmate_web.Prelude.Text.{Text, put_first}
use shiftmate_web.Policies.{PolicyPage, strip}

-- The codes of `PolicyTextError`.
pub data ExtractError : Type 0 where
  pdf_extraction_failed text_not_found : ExtractError

-- The ends of lines of `str.splitlines`.
abbrev pub is_line_end : ℕ → Bool
is_line_end c =
    (leb 10 c && leb c 13) || (leb 28 c && leb c 30) || c == 133 || c == 8232 || c == 8233

-- `value.splitlines()`: a carriage return and a newline are one end.
unfoldable pub split_lines : Text → List Text
split_lines [] = []
split_lines (c ∷ []) = if is_line_end c then [] ∷ [] else (c ∷ []) ∷ []
split_lines (c ∷ d ∷ s) =
    let rest = split_lines (d ∷ s) in
    let after = split_lines s in
    if c == 13 && d == 10
    then [] ∷ after
    else (if is_line_end c then [] ∷ rest else put_first c rest)

abbrev pub is_blank_char : ℕ → Bool
is_blank_char c = c == 32 || c == 9

-- `re.sub(r"[ \t]+", " ", raw_line)`; the test says whether the character before was one of them.
unfoldable pub collapse : Bool → Text → Text
collapse before [] = []
collapse before (c ∷ s) =
    let rest = collapse (is_blank_char c) s in
    if is_blank_char c then (if before then rest else 32 ∷ rest) else c ∷ rest

-- `value.replace("\x00", " ")`.
abbrev pub without_nul : Text → Text
without_nul s = map (λ c. if c == 0 then 32 else c) s

abbrev pub is_filled : Text → Bool
is_filled [] = false
is_filled (c ∷ s) = true

-- `"\n".join(lines)`.
abbrev pub join_lines : List Text → Text
join_lines [] = []
join_lines (line ∷ []) = line
join_lines (line ∷ next ∷ lines) = line ++ 10 ∷ join_lines (next ∷ lines)

-- `clean_policy_text`.
unfoldable pub clean_policy_text : Text → Text
unfolding split_lines collapse
clean_policy_text value =
    join_lines (
      filter is_filled
        (map (λ line. strip (collapse false line)) (split_lines (without_nul value))))

abbrev pub numbered_pages : ℕ → List Text → List PolicyPage
numbered_pages n [] = []
numbered_pages n (t ∷ texts) =
    record { page_number = n; text = clean_policy_text t } ∷ numbered_pages (suc n) texts

-- `extract_policy_pages`, from the texts of the pages or none where the reader raises.
unfoldable pub extract_policy_pages : Option (List Text) → Result ExtractError (List PolicyPage)
extract_policy_pages source = do
  texts ← or_raise source pdf_extraction_failed
  raise_if (not (any (λ p. is_filled p.text) (numbered_pages 1 texts))) text_not_found
  ok (numbered_pages 1 texts)
