-- ===== src/Policies/Grounded.antt =====
-- What the evidence of an answer rests on, backend/app/services/policies.py and
-- backend/app/services/retrieval.py.
use shiftmate_web.Prelude.{
  ℕ, zero, suc, ◌≡◌, ◌⊎◌, inl, inr, refl, sym, ◌∙◌, ap, min, true, not, ◌&&◌, some, List, [], ◌∷◌,
  arith, leb, length, map, All, sort_by, Bool-cases, Option-cases,
}
use shiftmate_web.Prelude.Sorting.{All-kept, All-sort_by, length-sort_by}
use shiftmate_web.Prelude.Result.{ok, raise_if-eq-ok, map_error-eq-ok}
use shiftmate_web.Prelude.Text.{Text}
use shiftmate_web.Database.{PolicyDocument, PolicyChunk}
use shiftmate_web.Policies.{strip}
use shiftmate_web.Policies.Documents.{PolicyTables, is_ready, find_document}
use shiftmate_web.Policies.Prepare.{Embeddings}
use shiftmate_web.Policies.Answers.{
  PolicyEvidence, Ranked, Scoring, retriever_invalid, embedding_failed, take_rows, to_evidence,
  join_row, ranked_rows, ranked_before, qualified, select_evidence, retrieve_evidence,
}

abbrev pub IsIn : {A : Type 0} → A → List A → Type 0
IsIn x [] = ⊥
IsIn x (y ∷ ys) = (x ≡ y) ⊎ IsIn x ys

length-take_rows : {A : Type 0} (n : ℕ) (xs : List A) → length (take_rows n xs) ≡ min n (length xs)
length-take_rows zero xs = omega arith
length-take_rows (suc n) [] = omega arith
length-take_rows (suc n) (x ∷ xs) = omega (arith, length-take_rows n xs)

All-take_rows :
    {A : Type 0} (P : A → Type 0) (n : ℕ) (xs : List A) → All P xs → All P (take_rows n xs)
All-take_rows P zero xs a = tt
All-take_rows P (suc n) [] a = tt
All-take_rows P (suc n) (x ∷ xs) a = (a.0, All-take_rows P n xs a.1)

length-map : {A B : Type 0} (f : A → B) (xs : List A) → length (map f xs) ≡ length xs
length-map f [] = refl
length-map f (x ∷ xs) = omega (arith, length-map f xs)

All-map :
    {A B : Type 0} (P : A → Type 0) (Q : B → Type 0) (f : A → B) (xs : List A)
    → ((x : A) → P x → Q (f x))
    → All P xs
    → All Q (map f xs)
All-map P Q f [] g a = tt
All-map P Q f (x ∷ xs) g a = (g x a.0, All-map P Q f xs g a.1)

module _ {Vector Score : Type 0} (scoring : Scoring Vector Score) where
  -- A row of the inner query: a chunk, of a document that is ready.
  record IsRow (query : Vector) (tables : PolicyTables Vector) (row : Ranked Score) : Type 0 where
    pub chunk : PolicyChunk Vector
    pub document : PolicyDocument
    pub is_stored : IsIn chunk tables.chunks
    pub its_document : find_document chunk.document_id tables ≡ some document
    pub indexed : is_ready document.status ≡ true
    pub same_id : row.chunk_id ≡ chunk.id
    pub same_document : row.document_id ≡ chunk.document_id
    pub same_text : row.content ≡ chunk.content
    pub same_page : row.page_number ≡ chunk.page_number
    pub same_title : row.title ≡ document.title
    pub scored : row.score ≡ scoring.score_of chunk.embedding query

  -- A piece of evidence: the text of a stored chunk of a ready document, which reaches the threshold
  -- and which the citation names.
  pub record IsGrounded (query : Vector) (threshold : Score) (tables : PolicyTables Vector)
      (e : PolicyEvidence) : Type 0 where
    pub chunk : PolicyChunk Vector
    pub document : PolicyDocument
    pub is_stored : IsIn chunk tables.chunks
    pub its_document : find_document chunk.document_id tables ≡ some document
    pub indexed : is_ready document.status ≡ true
    pub same_text : e.text ≡ chunk.content
    pub cites_chunk : e.citation.chunk_id ≡ chunk.id
    pub cites_document : e.citation.document_id ≡ chunk.document_id
    pub cites_page : e.citation.page_number ≡ chunk.page_number
    pub cites_title : e.citation.title ≡ document.title
    pub reaches : scoring.at_least (scoring.score_of chunk.embedding query) threshold ≡ true

  join_row-IsRow :
      (query : Vector) (tables : PolicyTables Vector) (c : PolicyChunk Vector)
      (rows : List (Ranked Score))
      → IsIn c tables.chunks
      → All (IsRow query tables) rows
      → All
          (IsRow query tables)
          (join_row scoring query c (find_document c.document_id tables) rows)
  join_row-IsRow query tables c rows here a =
      elim (Option-cases (find_document c.document_id tables)) [
        | inl gone ↦ rw gone a
        | inr (d, found) ↦ elim (Bool-cases (is_ready d.status)) [
          | inr unready ↦ rw (found, unready) a
          | inl indexed ↦
              rw (found, indexed)
                (
                  record {
                    chunk = c;
                    document = d;
                    is_stored = here;
                    its_document = found;
                    indexed = indexed;
                    same_id = refl;
                    same_document = refl;
                    same_text = refl;
                    same_page = refl;
                    same_title = refl;
                    scored = refl;
                  },
                  a,
                )
        ]
      ]

  ranked_rows-IsRow :
      (query : Vector) (tables : PolicyTables Vector) (chunks : List (PolicyChunk Vector))
      → ((c : PolicyChunk Vector) → IsIn c chunks → IsIn c tables.chunks)
      → All (IsRow query tables) (ranked_rows scoring query tables chunks)
  ranked_rows-IsRow query tables [] within = tt
  ranked_rows-IsRow query tables (c ∷ chunks) within =
      join_row-IsRow query tables c (ranked_rows scoring query tables chunks) (within c (inl refl))
        (ranked_rows-IsRow query tables chunks (λ d i. within d (inr i)))

  row-IsGrounded :
      (query : Vector) (threshold : Score) (tables : PolicyTables Vector) (row : Ranked Score)
      → scoring.at_least row.score threshold ≡ true
      → IsRow query tables row
      → IsGrounded query threshold tables (to_evidence row)
  row-IsGrounded query threshold tables row reaches r = record {
    chunk = r.chunk;
    document = r.document;
    is_stored = r.is_stored;
    its_document = r.its_document;
    indexed = r.indexed;
    same_text = r.same_text;
    cites_chunk = r.same_id;
    cites_document = r.same_document;
    cites_page = r.same_page;
    cites_title = r.same_title;
    reaches = rw (sym r.scored) reaches;
  }

  select_evidence-IsGrounded :
      (top_k : ℕ) (threshold : Score) (query : Vector) (tables : PolicyTables Vector)
      → All
          (IsGrounded query threshold tables)
          (map to_evidence (select_evidence scoring top_k threshold query tables))
  unfolding select_evidence
  select_evidence-IsGrounded top_k threshold query tables =
      let Good = λ (row : Ranked Score). IsGrounded query threshold tables (to_evidence row) in
      let rows = qualified scoring threshold query tables in
      let kept =
        All-kept (IsRow query tables) {Q = Good} (λ row. scoring.at_least row.score threshold)
          (ranked_rows scoring query tables tables.chunks) (row-IsGrounded query threshold tables)
          (ranked_rows-IsRow query tables tables.chunks (λ c i. i)) in
      let sorted = All-sort_by Good (ranked_before scoring) rows kept in
      All-map Good (IsGrounded query threshold tables) to_evidence _ (λ row g. g)
        (All-take_rows Good top_k (sort_by (ranked_before scoring) rows) sorted)

  length_evidence :
      (top_k : ℕ) (threshold : Score) (query : Vector) (tables : PolicyTables Vector)
      → length (map to_evidence (select_evidence scoring top_k threshold query tables))
        ≡ min top_k (length (qualified scoring threshold query tables))
  unfolding select_evidence
  length_evidence top_k threshold query tables =
      let rows = qualified scoring threshold query tables in
      length-map to_evidence _
      ∙ length-take_rows top_k (sort_by (ranked_before scoring) rows)
      ∙ ap (λ n. min top_k n) (length-sort_by (ranked_before scoring) rows)

  module _ (embeddings : Embeddings Vector) where
    -- Evidence that is retrieved: the pieces are at most `top_k`, as many as reach the threshold up to
    -- that number, and each is the text of a stored chunk of a ready document that reaches the
    -- threshold, with a citation of that chunk, its page, its document and the document's title.
    pub retrieve_evidence-IsGrounded :
        (question : Text) (top_k : ℕ) (threshold : Score) (tables : PolicyTables Vector)
        {evidence : List PolicyEvidence}
        → retrieve_evidence scoring embeddings question top_k threshold tables ≡ ok evidence
        → (query : Vector) × (embeddings.embed_query (strip question) ≡ ok query)
          × (length evidence ≡ min top_k (length (qualified scoring threshold query tables)))
          × (leb 1 top_k ≡ true)
          × All (IsGrounded query threshold tables) evidence
    unfolding retrieve_evidence
    retrieve_evidence-IsGrounded question top_k threshold tables {evidence} h =
        let (valid, h₁) =
          raise_if-eq-ok (not (leb 1 top_k && leb top_k 10 && scoring.in_bounds threshold))
            retriever_invalid _ h in
        let (query, embedded, h₂) =
          map_error-eq-ok embedding_failed (embeddings.embed_query (strip question)) _ h₁ in
        let same : map to_evidence (select_evidence scoring top_k threshold query tables)
            ≡ evidence =
          cc h₂ in
        (
          query,
          embedded,
          rw (sym same) (length_evidence top_k threshold query tables),
          ground arith,
          rw (sym same) (select_evidence-IsGrounded top_k threshold query tables),
        )
