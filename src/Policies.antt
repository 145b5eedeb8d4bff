-- ===== src/Policies.antt =====
-- `chunk_policy_pages` of backend/app/services/policy_text.py: the pages of a policy in pieces.

pub mod Chunks
pub mod Documents
pub mod Prepare
pub mod Extract
pub mod Uploads
pub mod Indexed
pub mod Answers
pub mod Grounded
pub mod Refusal
mod Tests
mod DocumentTests
use shiftmate_web.Prelude.{
  ℕ, zero, suc, ◌+◌, ◌-◌, ◌/◌, max, min, Bool, true, false, ◌&&◌, ◌||◌, Option, none, some, List,
  [], ◌∷◌, ◌++◌, ltb, leb, ◌==◌, length, if◌then◌else◌,
}
use shiftmate_web.Prelude.Result.{Result, ok, raise, ◌>>=◌, ◌>>◌, raise_if}
use shiftmate_web.Prelude.Text.{Text, is_space, is_blank}

-- `ValueError` for the sizes, and `PolicyTextError`.
pub data ChunkError : Type 0 where
  invalid_chunk_sizing policy_text_not_found : ChunkError

pub record PolicyPage : Type 0 where
  pub page_number : ℕ
  pub text : Text

pub record TextChunk : Type 0 where
  pub page_number : ℕ
  pub chunk_index : ℕ
  pub content : Text

abbrev pub take : ℕ → Text → Text
take zero s = []
take (suc n) [] = []
take (suc n) (c ∷ s) = c ∷ take n s

abbrev pub drop : ℕ → Text → Text
drop zero s = s
drop (suc n) [] = []
drop (suc n) (c ∷ s) = drop n s

-- `str.strip`.
abbrev pub lstrip : Text → Text
lstrip [] = []
lstrip (c ∷ s) = if is_space c then lstrip s else c ∷ s

abbrev pub rstrip : Text → Text
rstrip [] = []
rstrip (c ∷ s) = let rest = rstrip s in if is_blank (c ∷ s) then [] else c ∷ rest

abbrev pub strip : Text → Text
strip s = rstrip (lstrip s)

-- Where a split may be: behind a newline, an ideographic full stop, or a full stop before a space.
abbrev pub splits_at : ℕ → Text → Bool
splits_at c [] = c == 10 || c == 12_290
splits_at c (d ∷ s) = c == 10 || c == 12_290 || (c == 46 && d == 32)

-- The largest of the three `rfind`s in the window, from its begin; `none` is -1.
unfoldable pub last_split : Text → Option ℕ
last_split [] = none
last_split (c ∷ s) = elim (last_split s) [
  | some i ↦ some (suc i)
  | none ↦ if splits_at c s then some 0 else none
]

-- `end`, from `start`: `rest` is the page's text from `start` on.
unfoldable pub chunk_end : ℕ → Text → ℕ
unfolding last_split
chunk_end max_chars rest =
    let hard_end = min max_chars (length rest) in
    elim (ltb hard_end (length rest)) [
      | false ↦ hard_end
      | true ↦ elim (last_split (take hard_end rest)) [
        | none ↦ hard_end
        | some split ↦ if ltb (max_chars / 2) split then split + 1 else hard_end
      ]
    ]

-- The loop over a page, from `start` on; at most as many rounds as there are characters.
unfoldable pub chunks_from : ℕ → ℕ → ℕ → Text → List Text
chunks_from zero max_chars overlap rest = []
chunks_from (suc fuel) max_chars overlap [] = []
chunks_from (suc fuel) max_chars overlap (c ∷ s) =
    let rest = c ∷ s in
    let end = chunk_end max_chars rest in
    let content = strip (take end rest) in
    let more = chunks_from fuel max_chars overlap (drop (max (end - overlap) 1) rest) in
    let tail = if leb (length rest) end then [] else more in
    if ltb 0 (length content) then content ∷ tail else tail

abbrev pub numbered : ℕ → ℕ → List Text → List TextChunk
numbered page index [] = []
numbered page index (s ∷ contents) =
    record { page_number = page; chunk_index = index; content = s }
    ∷ numbered page (suc index) contents

unfoldable pub chunk_pages : ℕ → ℕ → ℕ → List PolicyPage → List TextChunk
unfolding chunks_from
chunk_pages max_chars overlap index [] = []
chunk_pages max_chars overlap index (page ∷ pages) =
    let contents = chunks_from (length page.text) max_chars overlap page.text in
    numbered page.page_number index contents
    ++ chunk_pages max_chars overlap (index + length contents) pages

-- `chunk_policy_pages`.
unfoldable pub chunk_policy_pages : ℕ → ℕ → List PolicyPage → Result ChunkError (List TextChunk)
unfolding chunk_pages
chunk_policy_pages max_chars overlap pages = do
  raise_if (ltb max_chars 100 || leb max_chars overlap) invalid_chunk_sizing
  raise_if (length (chunk_pages max_chars overlap 0 pages) == 0) policy_text_not_found
  ok (chunk_pages max_chars overlap 0 pages)
