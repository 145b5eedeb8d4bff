-- ===== src/Policies/Chunks.antt =====
-- The bounds of the chunks of backend/app/services/policy_text.py, and the rounds of its loop.
use shiftmate_web.Prelude.{
  ◌||◌, ◌++◌, ◌==◌, ℕ, zero, suc, ◌+◌, ◌-◌, ◌≤◌, ◌<◌, ◌≡◌, refl, max, min, Bool, true, false, some,
  List, [], ◌∷◌, arith, ltb, leb, length, All, if◌then◌else◌, Bool-cases, inl, inr, Option-cases,
}
use shiftmate_web.Prelude.Text.{Text}
use shiftmate_web.Prelude.Result.{ok, ◌>>◌, raise_if, raise_if-eq-ok}
use shiftmate_web.Policies.{
  PolicyPage, TextChunk, numbered, chunk_pages, chunk_policy_pages, invalid_chunk_sizing,
  policy_text_not_found, take, drop, lstrip, rstrip, strip, last_split, chunk_end, chunks_from,
}

length-take : (n : ℕ) (s : Text) → length (take n s) ≤ n
length-take zero s = omega arith
length-take (suc n) [] = omega arith
length-take (suc n) (c ∷ s) = omega (arith, length-take n s)

length-drop : (n : ℕ) (s : Text) → length (drop n s) ≡ length s - n
length-drop zero s = omega arith
length-drop (suc n) [] = omega arith
length-drop (suc n) (c ∷ s) = omega (arith, length-drop n s)

length-lstrip : (s : Text) → length (lstrip s) ≤ length s
length-lstrip [] = omega arith
length-lstrip (c ∷ s) = ground (arith, length-lstrip s)

length-rstrip : (s : Text) → length (rstrip s) ≤ length s
length-rstrip [] = omega arith
length-rstrip (c ∷ s) = ground (arith, length-rstrip s)

last_split-lt : (s : Text) (i : ℕ) → last_split s ≡ some i → i < length s
unfolding last_split
last_split-lt [] i h = cc
last_split-lt (c ∷ s) i h = elim (Option-cases (last_split s)) [
  | inl e ↦ ground arith
  | inr (j, e) ↦ let lt = last_split-lt s j e in ground arith
]

chunk_end-le : (max_chars : ℕ) (rest : Text) → chunk_end max_chars rest ≤ max_chars
unfolding chunk_end
chunk_end-le max_chars rest =
    let window = take (min max_chars (length rest)) rest in
    elim (Option-cases (last_split window)) [
      | inl none_found ↦ ground arith
      | inr (i, found) ↦
          let lt = last_split-lt window i found in
          ground (arith, length-take (min max_chars (length rest)) rest)
    ]

-- A piece of a page, and the pieces behind it.
abbrev pub piece : ℕ → Text → Text
piece max_chars rest = strip (take (chunk_end max_chars rest) rest)

piece-short : (max_chars : ℕ) (rest : Text) → length (piece max_chars rest) ≤ max_chars
piece-short max_chars rest =
    let kept = take (chunk_end max_chars rest) rest in
    omega (
      arith,
      length-rstrip (lstrip kept),
      length-lstrip kept,
      length-take (chunk_end max_chars rest) rest,
      chunk_end-le max_chars rest,
    )

abbrev pub IsBounded : ℕ → List Text → Type 0
IsBounded max_chars contents = All (λ content. length content ≤ max_chars) contents

IsBounded-if :
    (max_chars : ℕ) (first : Text) (ends : Bool) (contents : List Text)
    → length first ≤ max_chars
    → IsBounded max_chars contents
    → IsBounded max_chars (
        let tail = if ends then [] else contents in
        if ltb 0 (length first) then first ∷ tail else tail)
IsBounded-if max_chars first true contents short bounded =
    elim (Bool-cases (ltb 0 (length first))) [
      | inl some_left ↦ rw some_left (short, tt)
      | inr blank ↦ rw blank tt
    ]
IsBounded-if max_chars first false contents short bounded =
    elim (Bool-cases (ltb 0 (length first))) [
      | inl some_left ↦ rw some_left (short, bounded)
      | inr blank ↦ rw blank bounded
    ]

-- No piece of a page is longer than `max_chars`.
pub chunks_from-IsBounded :
    (fuel max_chars overlap : ℕ) (rest : Text)
    → IsBounded max_chars (chunks_from fuel max_chars overlap rest)
unfolding chunks_from
chunks_from-IsBounded zero max_chars overlap rest = tt
chunks_from-IsBounded (suc fuel) max_chars overlap [] = tt
chunks_from-IsBounded (suc fuel) max_chars overlap (c ∷ s) =
    let end = chunk_end max_chars (c ∷ s) in
    IsBounded-if max_chars (piece max_chars (c ∷ s)) (leb (length (c ∷ s)) end)
      (chunks_from fuel max_chars overlap (drop (max (end - overlap) 1) (c ∷ s)))
      (piece-short max_chars (c ∷ s))
      (chunks_from-IsBounded fuel max_chars overlap (drop (max (end - overlap) 1) (c ∷ s)))

-- The loop over a page ends after as many rounds as the page has characters at most: more fuel gives
-- the same pieces.
pub chunks_from-enough :
    (fuel more max_chars overlap : ℕ) (rest : Text)
    → length rest ≤ fuel
    → fuel ≤ more
    → chunks_from more max_chars overlap rest ≡ chunks_from fuel max_chars overlap rest
unfolding chunks_from
chunks_from-enough zero zero max_chars overlap rest h k = refl
chunks_from-enough zero (suc more) max_chars overlap [] h k = refl
chunks_from-enough zero (suc more) max_chars overlap (c ∷ s) h k = absurd (omega arith)
chunks_from-enough (suc fuel) zero max_chars overlap rest h k = absurd (omega arith)
chunks_from-enough (suc fuel) (suc more) max_chars overlap [] h k = refl
chunks_from-enough (suc fuel) (suc more) max_chars overlap (c ∷ s) h k =
    let end = chunk_end max_chars (c ∷ s) in
    let next = drop (max (end - overlap) 1) (c ∷ s) in
    let shorter : length next ≤ fuel =
      ground (arith, length-drop (max (end - overlap) 1) (c ∷ s)) in
    rw (chunks_from-enough fuel more max_chars overlap next shorter (omega arith))

abbrev pub AllShort : ℕ → List TextChunk → Type 0
AllShort max_chars chunks = All (λ chunk. length chunk.content ≤ max_chars) chunks

numbered-AllShort :
    (max_chars page index : ℕ) (contents : List Text) (others : List TextChunk)
    → IsBounded max_chars contents
    → AllShort max_chars others
    → AllShort max_chars (numbered page index contents ++ others)
numbered-AllShort max_chars page index [] others b o = o
numbered-AllShort max_chars page index (s ∷ contents) others b o =
    (b.0, numbered-AllShort max_chars page (suc index) contents others b.1 o)

chunk_pages-AllShort :
    (max_chars overlap index : ℕ) (pages : List PolicyPage)
    → AllShort max_chars (chunk_pages max_chars overlap index pages)
unfolding chunk_pages
chunk_pages-AllShort max_chars overlap index [] = tt
chunk_pages-AllShort max_chars overlap index (page ∷ pages) =
    let contents = chunks_from (length page.text) max_chars overlap page.text in
    numbered-AllShort max_chars page.page_number index contents
      (chunk_pages max_chars overlap (index + length contents) pages)
      (chunks_from-IsBounded (length page.text) max_chars overlap page.text)
      (chunk_pages-AllShort max_chars overlap (index + length contents) pages)

-- Where the pages of a policy are cut into chunks, the sizes are sound, and there is a chunk and none
-- is longer than `max_chars`.
pub chunk_policy_pages-AllShort :
    (max_chars overlap : ℕ) (pages : List PolicyPage) {chunks : List TextChunk}
    → chunk_policy_pages max_chars overlap pages ≡ ok chunks
    → (100 ≤ max_chars) × (overlap < max_chars) × (0 < length chunks) × AllShort max_chars chunks
unfolding chunk_policy_pages
chunk_policy_pages-AllShort max_chars overlap pages {chunks} h =
    let cut = chunk_pages max_chars overlap 0 pages in
    let (sized, h₁) =
      raise_if-eq-ok (ltb max_chars 100 || leb max_chars overlap) invalid_chunk_sizing
        (raise_if (length cut == 0) policy_text_not_found >> ok cut) h in
    let (found, h₂) = raise_if-eq-ok (length cut == 0) policy_text_not_found (ok cut) h₁ in
    let left : cut ≡ chunks = cc h₂ in
    (
      ground arith,
      ground arith,
      rw (← left) (ground arith),
      rw (← left) (chunk_pages-AllShort max_chars overlap 0 pages),
    )
