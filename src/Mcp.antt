-- ===== src/Mcp.antt =====
-- backend/app/mcp/operations.py, backend/app/mcp/server.py and
-- backend/app/services/assistant_factory.py: the tools over the services.
pub mod Answered
mod Tests
use shiftmate_web.Prelude.{
  ℕ, ◌-◌, Bool, true, false, not, Option, none, some, List, [], ◌∷◌, String, ltb, map,
  if◌then◌else◌,
}
use shiftmate_web.Prelude.Result.{Result, ok, raise, ◌>>=◌, ◌>>◌, raise_if, or_raise, map_error}
use shiftmate_web.Prelude.Text.{Text, codes, text_eq}
use shiftmate_web.Domain.Zone.{Date, Zones}
use shiftmate_web.Domain.Decimal.{Decimal}
use shiftmate_web.Database.{Db, Uuid, ShiftRecord}
use shiftmate_web.Shifts.{ShiftError, list_shifts}
use shiftmate_web.Analytics.{
  AnalyticsError, AnalyticsSummary, profile_not_found, arithmetic, get_summary,
}
use shiftmate_web.Ics.{Printer}
use shiftmate_web.Calendar.Exports.{CalendarExport, CalendarExportError, create_export}
use shiftmate_web.Policies.Documents.{PolicyTables}
use shiftmate_web.Policies.Prepare.{Embeddings, embedding_code}
use shiftmate_web.Policies.Answers.{
  PolicyCitation, PolicyEvidence, Scoring, RetrievalError, retriever_invalid, embedding_failed,
  answerer_failed, retrieve_evidence,
}
use shiftmate_web.Assistant.Rules.{AssistantScheduleFacts, ComplianceEvaluation}
use shiftmate_web.Assistant.Routing.{AssistantIntent}
use shiftmate_web.Assistant.{query}
use shiftmate_web.Assistant.State.{
  AssistantError, analytics_failed, loader_failed, model_failed, AssistantQueryResponse, Assistant,
  is_filled,
}
use shiftmate_web.Auth.{AuthenticatedUser, AccessToken, TokenLibrary, authenticated, require_user}

-- The exceptions that `_safe_error_code` tells apart: those with a code of their own, a profile that
-- is missing, a `ValueError` or an error of a service, and any other.
pub data McpFailure : Type 0 where
  coded : Text → McpFailure
  no_profile rejected unexpected : McpFailure

-- `_safe_error_code`.
abbrev pub safe_error_code : McpFailure → Text
safe_error_code (coded code) = code
safe_error_code no_profile = codes "PROFILE_NOT_FOUND"
safe_error_code rejected = codes "INVALID_REQUEST"
safe_error_code unexpected = codes "MCP_TOOL_FAILED"

-- The tools, with their arguments.
pub data Tool : Type 0 where
  get_shifts create_calendar_export : Option Date → Option Date → Tool
  calculate_work_hours get_payroll_summary : Date → Date → Tool
  search_work_policy : Text → Tool
  analyze_schedule_compliance : Text → Date → Date → Tool

-- `PolicySearchResult`.
pub record PolicySearchResult : Type 0 where
  pub question : Text
  pub refused : Bool
  pub citations : List PolicyCitation

-- The results of the tools; those on hours and on pay show fields of the summary.
pub data McpResult : Type 0 where
  shift_list : List ShiftRecord → McpResult
  work_hours payroll : AnalyticsSummary → McpResult
  policy_search : PolicySearchResult → McpResult
  compliance : AssistantQueryResponse → McpResult
  calendar_export : CalendarExport → McpResult

abbrev pub analytics_failure : AnalyticsError → McpFailure
analytics_failure profile_not_found = no_profile
analytics_failure arithmetic = unexpected
analytics_failure _ = rejected

abbrev pub retrieval_failure : RetrievalError → McpFailure
retrieval_failure retriever_invalid = rejected
retrieval_failure (embedding_failed e) = coded (embedding_code e)
retrieval_failure (answerer_failed code) = coded code

abbrev pub assistant_failure : AssistantError → McpFailure
assistant_failure (analytics_failed e) = analytics_failure e
assistant_failure (loader_failed code) = coded code
assistant_failure (model_failed code) = coded code
assistant_failure _ = rejected

-- The tables of a user.
pub record UserTables (Vector : Type 0) : Type 0 where
  pub db : Db
  pub policies : PolicyTables Vector

pub record McpSettings (Score : Type 0) : Type 0 where
  pub database_url : Option Text
  pub database_request_role : Text
  pub rag_top_k : ℕ
  pub rag_score_threshold : Score

-- `_validate_date_range`.
unfoldable pub validate_date_range : Option Date → Option Date → Result McpFailure (Unit {0})
validate_date_range (some from) (some to) =
    raise_if (ltb to from) (coded (codes "DATE_RANGE_INVALID"))
    >> raise_if (ltb 365 (to - from)) (coded (codes "DATE_RANGE_TOO_LARGE"))
validate_date_range (some from) none = ok tt
validate_date_range none to = ok tt

-- `_engine`.
unfoldable pub check_engine : {Score : Type 0} → McpSettings Score → Result McpFailure (Unit {0})
check_engine settings = do
  url ← or_raise settings.database_url (coded (codes "MCP_DATABASE_NOT_CONFIGURED"))
  raise_if (not (text_eq settings.database_request_role authenticated))
      (coded (codes "MCP_DATABASE_ROLE_INVALID"))

abbrev pub not_configured : Text
not_configured = codes "GEMINI_NOT_CONFIGURED"

-- An entry of the audit log: the tool, the user if one is known, and the outcome.
pub record AuditEntry : Type 0 where
  pub tool : Tool
  pub owner : Option Uuid
  pub outcome : Text

-- What a call logs: the entry of `_audit`, and that of `logger.exception`.
pub data LogEntry : Type 0 where
  audit : AuditEntry → LogEntry
  failed_unexpectedly : Tool → LogEntry

-- `if code == "MCP_TOOL_FAILED"`.
abbrev pub exception_entries : Tool → Text → List LogEntry
exception_entries tool code =
    if text_eq code (codes "MCP_TOOL_FAILED") then failed_unexpectedly tool ∷ [] else []

-- `UnavailableAssistantModel`, where no model is configured.
abbrev pub unavailable : Assistant → Assistant
unavailable base = record base {
  load_evidence = λ question. raise not_configured;
  model_name = codes "unavailable";
  answer_policy = λ question evidence. raise not_configured;
  answer_hybrid = λ question facts evidence evaluation. raise not_configured;
  classify = none;
}

-- The code that `_safe_error_code` gives for an error of the loader.
abbrev pub loader_code : RetrievalError → Text
loader_code e = safe_error_code (retrieval_failure e)

module _ {Vector Score : Type 0} (zones : Zones) (printer : Printer)
    (scoring : Scoring Vector Score) (gemini : Option (Embeddings Vector × Assistant))
    (base : Assistant) (settings : McpSettings Score) where
  -- `build_assistant_service`: the model with a loader of the user's evidence.
  unfoldable pub build_assistant :
      Option (Embeddings Vector × Assistant) → PolicyTables Vector → Assistant
  build_assistant none policies = unavailable base
  build_assistant (some (embeddings, model)) policies = record model {
    load_evidence = λ question. map_error loader_code (
        retrieve_evidence scoring embeddings question settings.rag_top_k
          settings.rag_score_threshold policies);
  }

  -- `search_work_policy`, with `_required_embeddings`.
  unfoldable pub search_policy :
      Option (Embeddings Vector × Assistant)
      → Text
      → PolicyTables Vector
      → Result McpFailure McpResult
  search_policy none question policies = raise (coded not_configured)
  search_policy (some (embeddings, model)) question policies = do
    evidence ← map_error retrieval_failure (
        retrieve_evidence scoring embeddings question settings.rag_top_k
          settings.rag_score_threshold policies)
    ok (
        policy_search (record {
          question = question;
          refused = not (is_filled evidence);
          citations = map (λ e. e.citation) evidence;
        }))

  -- The operations of `DatabaseMcpOperations`, on the tables of the user: the validation of the range
  -- comes before `_engine`, and the rest after it.
  unfoldable pub perform : Tool → UserTables Vector → Result McpFailure McpResult
  unfolding validate_date_range check_engine build_assistant search_policy
  perform (get_shifts from to) tables = do
    validate_date_range from to
    check_engine settings
    shifts ← map_error (λ e. rejected) (list_shifts from to tables.db)
    ok (shift_list shifts)
  perform (calculate_work_hours from to) tables = do
    check_engine settings
    summary ← map_error analytics_failure (get_summary zones from to tables.db)
    ok (work_hours summary)
  perform (get_payroll_summary from to) tables = do
    check_engine settings
    summary ← map_error analytics_failure (get_summary zones from to tables.db)
    ok (payroll summary)
  perform (search_work_policy question) tables = do
    check_engine settings
    search_policy gemini question tables.policies
  perform (analyze_schedule_compliance question from to) tables = do
    check_engine settings
    response ←
        map_error assistant_failure
          (query zones (build_assistant gemini tables.policies) from to tables.db question)
    ok (compliance response)
  perform (create_calendar_export from to) tables = do
    validate_date_range from to
    check_engine settings
    result ← map_error (λ e. rejected) (create_export printer from to tables.db)
    ok (calendar_export result)

  -- The end of `invoke`.
  abbrev pub audited :
      Tool → AuthenticatedUser → Result McpFailure McpResult → List LogEntry × Result Text McpResult
  audited tool user (raise failure) =
      let code = safe_error_code failure in
      (
        audit (record { tool = tool; owner = some user.id; outcome = code })
            ∷ exception_entries tool code,
        raise code,
      )
  audited tool user (ok result) = (
    audit (record { tool = tool; owner = some user.id; outcome = codes "success" }) ∷ [],
    ok result,
  )

  -- `invoke`, with the tables of each user: what it logs, and the result or the `ToolError`.
  unfoldable pub invoke :
      TokenLibrary
      → Option AccessToken
      → Option Text
      → Tool
      → (Uuid → UserTables Vector)
      → List LogEntry × Result Text McpResult
  unfolding perform
  invoke library context stdio tool tables = elim (require_user library context stdio) [
    | raise e ↦ (
      audit (record { tool = tool; owner = none; outcome = codes "unauthorized" }) ∷ [],
      raise (codes "UNAUTHORIZED"),
    )
    | ok user ↦ audited tool user (perform tool (tables user.id))
  ]
