-- ===== src/Policies/Tests.antt =====
-- The theorems on backend/app/services/policy_text.py at concrete inputs.
use shiftmate_web.Prelude.{◌≤◌, ◌<◌, ◌≡◌, refl, List, [], ◌∷◌, length, arith}
use shiftmate_web.Prelude.Result.{ok}
use shiftmate_web.Prelude.Text.{Text, codes}
use shiftmate_web.Policies.{
  PolicyPage, TextChunk, chunks_from, chunk_end, last_split, chunk_pages, chunk_policy_pages,
}
use shiftmate_web.Policies.Chunks.{AllShort, chunks_from-enough, chunk_policy_pages-AllShort}

abbrev text : Text
text = codes "Breaks are paid. Swaps need a manager"

-- The first piece ends behind the sentence, and the second begins three characters before.
pieces :
    chunks_from 37 20 3 text
    ≡ codes "Breaks are paid." ∷ codes "id. Swaps need a man" ∷ codes "manager" ∷ []
unfolding chunks_from chunk_end last_split
pieces = refl

chunks_from-enough_example : chunks_from 100 20 3 text ≡ chunks_from 37 20 3 text
chunks_from-enough_example = chunks_from-enough 37 100 20 3 text (omega arith) (omega arith)

abbrev page : PolicyPage
page = record { page_number = 1; text = text }

abbrev chunks : List TextChunk
chunks = record { page_number = 1; chunk_index = 0; content = text } ∷ []

cut : chunk_policy_pages 100 10 (page ∷ []) ≡ ok chunks
unfolding chunk_policy_pages chunk_pages chunks_from chunk_end last_split
cut = refl

chunk_policy_pages-AllShort_example :
    (100 ≤ 100) × (10 < 100) × (0 < length chunks) × AllShort 100 chunks
chunk_policy_pages-AllShort_example = chunk_policy_pages-AllShort 100 10 (page ∷ []) cut
