-- ===== src/Ics.antt =====
-- backend/app/services/ics.py: the export of shifts as an iCalendar text.
pub mod Folding
mod Tests
use shiftmate_web.Prelude.{
  ℕ, ◌+◌, Bool, true, false, ◌||◌, Option, none, some, List, [], ◌∷◌, ◌++◌, ltb, ◌==◌, map,
  if◌then◌else◌,
}
use shiftmate_web.Prelude.Text.{Text, codes}
use shiftmate_web.Domain.Zone.{Date}
use shiftmate_web.Database.{Uuid, ShiftRecord}

-- How Python prints an id, an instant by `_utc_value`'s format, a date and a number: `str` and
-- `strftime` are not code of the repository.
pub record Printer : Type 0 where
  pub show_uuid : Uuid → Text
  pub utc_value : ℕ → Text
  pub show_date : Date → Text
  pub show_number : ℕ → Text

-- The bytes of a character in UTF-8.
abbrev pub width : ℕ → ℕ
width c = if ltb c 128 then 1 else (if ltb c 2048 then 2 else (if ltb c 65536 then 3 else 4))

-- `len(value.encode())`.
abbrev pub byte_length : Text → ℕ
byte_length [] = 0
byte_length (c ∷ s) = width c + byte_length s

-- The loop of `_fold_line`, from the line that is being built.
unfoldable pub fold_from : Text → Text → List Text
fold_from current [] = current ∷ []
fold_from current (c ∷ rest) = elim (ltb 75 (byte_length (current ++ c ∷ []))) [
  | true ↦ current ∷ fold_from (32 ∷ c ∷ []) rest
  | false ↦ fold_from (current ++ c ∷ []) rest
]

-- `_fold_line`.
abbrev pub fold_line : Text → List Text
fold_line value = fold_from [] value

-- `value.replace(c, new)`, for one character.
unfoldable pub replace : ℕ → Text → Text → Text
replace c new [] = []
replace c new (d ∷ s) = (if d == c then new else d ∷ []) ++ replace c new s

-- `value.replace("\r\n", "\n")`.
unfoldable pub join_crlf : Text → Text
join_crlf [] = []
join_crlf (c ∷ []) = c ∷ []
join_crlf (c ∷ d ∷ s) = elim (c == 13) [
  | true ↦ elim (d == 10) [ true ↦ 10 ∷ join_crlf s | false ↦ c ∷ join_crlf (d ∷ s) ]
  | false ↦ c ∷ join_crlf (d ∷ s)
]

-- `_escape`.
unfoldable pub escape : Text → Text
unfolding replace join_crlf
escape value = replace 44 (92 ∷ 44 ∷ []) (
    replace 59 (92 ∷ 59 ∷ []) (
      replace 10 (92 ∷ 110 ∷ [])
        (replace 13 (10 ∷ []) (join_crlf (replace 92 (92 ∷ 92 ∷ []) value)))))

-- `if shift.notes: parts.append(...)`.
abbrev pub with_notes : Option Text → Text
with_notes none = []
with_notes (some []) = []
with_notes (some (c ∷ s)) = 10 ∷ c ∷ s

-- `[part for line in lines for part in _fold_line(line)]`.
unfoldable pub folded : List Text → List Text
folded [] = []
folded (line ∷ lines) = fold_line line ++ folded lines

-- `"\r\n".join(folded) + "\r\n"`.
unfoldable pub crlf_lines : List Text → Text
crlf_lines [] = []
crlf_lines (line ∷ lines) = line ++ 13 ∷ 10 ∷ crlf_lines lines

module _ (printer : Printer) where
  -- `_description`.
  abbrev pub description : ShiftRecord → Text
  description s =
      codes "Break: "
      ++ printer.show_number s.break_minutes
      ++ codes " minutes"
      ++ with_notes s.notes

  abbrev pub event_lines : ShiftRecord → List Text
  event_lines s =
      codes "BEGIN:VEVENT"
      ∷ (codes "UID:" ++ printer.show_uuid s.id ++ codes "@shiftmate.local")
      ∷ (codes "DTSTAMP:" ++ printer.utc_value s.updated_at)
      ∷ (codes "DTSTART:" ++ printer.utc_value s.start_at)
      ∷ (codes "DTEND:" ++ printer.utc_value s.end_at)
      ∷ (codes "SUMMARY:" ++ escape (codes "Shift · " ++ s.shift_type))
      ∷ (codes "DESCRIPTION:" ++ escape (description s))
      ∷ codes "END:VEVENT"
      ∷ []

  -- `lines.extend(...)` for each shift.
  unfoldable pub all_events : List ShiftRecord → List Text
  all_events [] = []
  all_events (s ∷ shifts) = event_lines s ++ all_events shifts

  -- `date_from or ''`.
  abbrev pub date_text : Option Date → Text
  date_text none = []
  date_text (some d) = printer.show_date d

  abbrev pub range_line : Option Date → Option Date → List Text
  range_line none none = []
  range_line from to =
      (codes "X-SHIFTMATE-RANGE:" ++ date_text from ++ codes "/" ++ date_text to) ∷ []

  -- The lines before they are folded; the range is inserted at the index 5, behind the heading.
  unfoldable pub calendar_lines : List ShiftRecord → Option Date → Option Date → List Text
  unfolding all_events
  calendar_lines shifts from to =
      (codes "BEGIN:VCALENDAR"
        ∷ codes "VERSION:2.0"
        ∷ codes "PRODID:-//ShiftMate Web//Schedule Export//EN"
        ∷ codes "CALSCALE:GREGORIAN"
        ∷ (codes "X-WR-CALNAME:" ++ escape (codes "ShiftMate schedule"))
        ∷ [])
      ++ range_line from to
      ++ all_events shifts
      ++ codes "END:VCALENDAR" ∷ []

  -- `export_shifts_to_ics`, before it is encoded.
  unfoldable pub export_shifts_to_ics : List ShiftRecord → Option Date → Option Date → Text
  unfolding calendar_lines folded crlf_lines
  export_shifts_to_ics shifts from to = crlf_lines (folded (calendar_lines shifts from to))
