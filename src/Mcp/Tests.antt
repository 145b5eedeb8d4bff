-- ===== src/Mcp/Tests.antt =====
-- The theorems on the tools of backend/app/mcp/server.py at concrete inputs.
use shiftmate_web.Prelude.{◌≡◌, refl, true, none, some, [], ◌∷◌}
use shiftmate_web.Prelude.Result.{ok}
use shiftmate_web.Prelude.Text.{codes}
use shiftmate_web.Database.{Uuid}
use shiftmate_web.Shifts.{list_shifts, select_shifts, in_range}
use shiftmate_web.Ics.{Printer}
use shiftmate_web.Policies.Answers.{Scoring}
use shiftmate_web.Assistant.State.{Assistant}
use shiftmate_web.Auth.{
  TokenLibrary, authenticated, require_user, current_token, verify_token, verify,
}
use shiftmate_web.Mcp.{
  Tool, get_shifts, shift_list, UserTables, McpSettings, AuditEntry, audit, invoke, perform,
  validate_date_range, check_engine,
}
use shiftmate_web.Examples.{utc, db, shift}

abbrev printer : Printer
printer = record {
  show_uuid = λ i. codes "0b6f";
  utc_value = λ t. codes "20260902T090000Z";
  show_date = λ d. codes "2026-09-02";
  show_number = λ n. codes "60";
}

-- Vectors and scores have one value.
abbrev scoring : Scoring Unit Unit
scoring = record { score_of = λ v query. tt; at_least = λ a b. true; in_bounds = λ s. true }

abbrev assistant : Assistant
assistant = record {
  casefold = λ s. s;
  show_date = λ d. [];
  show_number = λ n. [];
  show_decimal = λ d. [];
  load_evidence = λ question. ok [];
  model_name = [];
  answer_policy = λ question evidence. ok question;
  answer_hybrid = λ question facts evidence evaluation. ok question;
  classify = none;
}

abbrev settings : McpSettings Unit
settings = record {
  database_url = some (codes "postgresql://");
  database_request_role = authenticated;
  rag_top_k = 5;
  rag_score_threshold = tt;
}

-- A token is the claim on its user, and an id is one character.
abbrev library : TokenLibrary
library = record {
  decode = λ token. some (record { sub = token; role = authenticated });
  read_uuid = λ text. elim text [ [] ↦ none | c ∷ s ↦ some c ];
  show_uuid = λ i. i ∷ [];
}

abbrev tables : Uuid → UserTables Unit
tables owner = record { db = db; policies = record { documents = []; chunks = [] } }

abbrev tool : Tool
tool = get_shifts (some 1) (some 9)

abbrev entry : AuditEntry
entry = record { tool = tool; owner = some 52; outcome = codes "success" }

listed :
    invoke utc printer scoring none assistant settings library none (some (codes "4")) tool tables
    ≡ (audit entry ∷ [], ok (shift_list (shift ∷ [])))
unfolding invoke require_user current_token verify_token verify perform validate_date_range
    check_engine list_shifts select_shifts in_range
listed = refl
