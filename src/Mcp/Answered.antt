-- ===== src/Mcp/Answered.antt =====
-- What a call of a tool shows, backend/app/mcp/server.py.
use shiftmate_web.Prelude.{◌-◌, ◌≤◌, ◌≡◌, ◌⊎◌, Option, none, some, List, [], ◌∷◌, true, false}
use shiftmate_web.Prelude.Result.{Result, ok, raise}
use shiftmate_web.Prelude.Text.{Text, codes, text_eq}
use shiftmate_web.Domain.Zone.{Date, Zones}
use shiftmate_web.Database.{Uuid}
use shiftmate_web.Ics.{Printer}
use shiftmate_web.Policies.Prepare.{Embeddings}
use shiftmate_web.Policies.Answers.{Scoring}
use shiftmate_web.Assistant.State
use shiftmate_web.Assistant.State.{Assistant}
use shiftmate_web.Auth.{AuthenticatedUser}
use shiftmate_web.Mcp.{
  McpFailure, Tool, get_shifts, create_calendar_export, calculate_work_hours, get_payroll_summary,
  search_work_policy, analyze_schedule_compliance, McpResult, UserTables, McpSettings, AuditEntry,
  LogEntry, audit, failed_unexpectedly, perform, safe_error_code,
}

abbrev pub IsRange : Option Date → Option Date → Type 0
IsRange (some from) (some to) = (from ≤ to) × (to - from ≤ 365)
IsRange (some from) none = Unit
IsRange none to = Unit

-- The range that a tool is called with is of 366 days at most, where both ends are given.
abbrev pub IsBounded : Tool → Type 0
IsBounded (get_shifts from to) = IsRange from to
IsBounded (create_calendar_export from to) = IsRange from to
IsBounded (calculate_work_hours from to) = IsRange (some from) (some to)
IsBounded (get_payroll_summary from to) = IsRange (some from) (some to)
IsBounded (search_work_policy question) = Unit
IsBounded (analyze_schedule_compliance question from to) = IsRange (some from) (some to)

module _ {Vector Score : Type 0} (zones : Zones) (printer : Printer)
    (scoring : Scoring Vector Score) (gemini : Option (Embeddings Vector × Assistant))
    (base : Assistant) (settings : McpSettings Score) where
  -- The entries of a call that has an error: the one of the audit, and one of the exception if its
  -- code is MCP_TOOL_FAILED.
  abbrev pub AreFailureEntries : Tool → AuthenticatedUser → Text → List LogEntry → Type 0
  AreFailureEntries tool user code entries =
      let entry : AuditEntry = record { tool = tool; owner = some user.id; outcome = code } in
      ((text_eq code (codes "MCP_TOOL_FAILED") ≡ true)
        × (entries ≡ audit entry ∷ failed_unexpectedly tool ∷ []))
      ⊎ ((text_eq code (codes "MCP_TOOL_FAILED") ≡ false) × (entries ≡ audit entry ∷ []))

  -- What a call logs and returns, on the user whom the token names or the error that it has.
  abbrev pub IsAnswered :
      {E : Type 0}
      → Tool
      → (Uuid → UserTables Vector)
      → Result E AuthenticatedUser
      → List LogEntry × Result Text McpResult
      → Type 0
  IsAnswered tool tables (raise e) (entries, outcome) =
      (entries ≡ audit (record { tool = tool; owner = none; outcome = codes "unauthorized" }) ∷ [])
      × (outcome ≡ raise (codes "UNAUTHORIZED"))
  IsAnswered tool tables (ok user) (entries, raise code) =
      (failure : McpFailure) × (perform zones printer scoring gemini base settings tool
          (tables user.id)
        ≡ raise failure)
      × (code ≡ safe_error_code failure)
      × AreFailureEntries tool user code entries
  IsAnswered tool tables (ok user) (entries, ok result) =
      (perform zones printer scoring gemini base settings tool (tables user.id) ≡ ok result)
      × IsBounded tool
      × (entries
          ≡ audit (record { tool = tool; owner = some user.id; outcome = codes "success" }) ∷ [])
