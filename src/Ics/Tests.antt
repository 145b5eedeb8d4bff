-- ===== src/Ics/Tests.antt =====
-- The theorems on backend/app/services/ics.py at concrete inputs.
use shiftmate_web.Prelude.{◌≡◌, refl, none, some, List, [], ◌∷◌, All}
use shiftmate_web.Prelude.Text.{Text, codes}
use shiftmate_web.Database.{ShiftRecord}
use shiftmate_web.Ics.{Printer, folded, calendar_lines, escape, replace, join_crlf}
use shiftmate_web.Ics.Folding.{IsShort, unfold_lines, folded-IsShort, calendar_lines-unfolded}
use shiftmate_web.Examples.{shift}

-- Every value in a fixed text.
abbrev printer : Printer
printer = record {
  show_uuid = λ i. codes "0b6f";
  utc_value = λ t. codes "20260902T090000Z";
  show_date = λ d. codes "2026-09-02";
  show_number = λ n. codes "60";
}

escaped : escape (codes "a,b;c\n") ≡ codes "a\\,b\\;c\\n"
unfolding escape replace join_crlf
escaped = refl

abbrev noted : ShiftRecord
noted = record shift {
  notes =
      some (
        codes "A note that is long enough for its line to be folded when the calendar is exported");
}

calendar_lines-unfolded_example :
    unfold_lines (folded (calendar_lines printer (noted ∷ []) (some 1) none))
    ≡ calendar_lines printer (noted ∷ []) (some 1) none
calendar_lines-unfolded_example = calendar_lines-unfolded printer (noted ∷ []) (some 1) none

abbrev long_lines : List Text
long_lines =
    codes "A note that is long enough for its line to be folded when the calendar is exported"
    ∷ codes "ÄÖÜ"
    ∷ []

folded-IsShort_example : All IsShort (folded long_lines)
folded-IsShort_example = folded-IsShort long_lines
