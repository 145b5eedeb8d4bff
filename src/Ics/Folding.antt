-- ===== src/Ics/Folding.antt =====
-- What a reader of the folded lines of backend/app/services/ics.py sees.
use shiftmate_web.Prelude.{
  ℕ, ◌+◌, ◌≤◌, ◌≡◌, refl, ap, ◌∙◌, Bool, true, false, Option, none, some, List, [], ◌∷◌, ◌++◌, ltb,
  ◌==◌, arith, append-nil, append_assoc, All, Bool-cases, inl, inr,
}
use shiftmate_web.Prelude.Text.{Text, codes}
use shiftmate_web.Domain.Zone.{Date}
use shiftmate_web.Database.{ShiftRecord}
use shiftmate_web.Ics.{
  Printer, byte_length, fold_from, fold_line, folded, all_events, range_line, calendar_lines,
}

-- The reader of RFC 5545: a line that begins with a space continues the line before it.
pub absorb : Text → List Text → List Text
absorb line [] = line ∷ []
absorb line ([] ∷ lines) = line ∷ absorb [] lines
absorb line ((c ∷ s) ∷ lines) = elim (c == 32) [
  | true ↦ absorb (line ++ s) lines
  | false ↦ line ∷ absorb (c ∷ s) lines
]

pub unfold_lines : List Text → List Text
unfolding absorb
unfold_lines [] = []
unfold_lines (line ∷ lines) = absorb line lines

byte_length-append : (s t : Text) → byte_length (s ++ t) ≡ byte_length s + byte_length t
byte_length-append [] t = omega arith
byte_length-append (c ∷ s) t = omega (arith, byte_length-append s t)

fold_from-long :
    (current rest : Text) (c : ℕ)
    → ltb 75 (byte_length (current ++ c ∷ [])) ≡ true
    → fold_from current (c ∷ rest) ≡ current ∷ fold_from (32 ∷ c ∷ []) rest
unfolding fold_from
fold_from-long current rest c e = rw (fold_from, e)

fold_from-next :
    (current rest : Text) (c : ℕ)
    → ltb 75 (byte_length (current ++ c ∷ [])) ≡ false
    → fold_from current (c ∷ rest) ≡ fold_from (current ++ c ∷ []) rest
unfolding fold_from
fold_from-next current rest c e = rw (fold_from, e)

abbrev pub IsShort : Text → Type 0
IsShort p = byte_length p ≤ 75

All-append : (xs ys : List Text) → All IsShort xs → All IsShort ys → All IsShort (xs ++ ys)
All-append [] ys a b = b
All-append (x ∷ xs) ys a b = (a.0, All-append xs ys a.1 b)

fold_from-IsShort :
    (current rest : Text) → byte_length current ≤ 75 → All IsShort (fold_from current rest)
unfolding fold_from
fold_from-IsShort current [] h = (h, tt)
fold_from-IsShort current (c ∷ rest) h =
    elim (Bool-cases (ltb 75 (byte_length (current ++ c ∷ [])))) [
      | inl long ↦
          rw (fold_from-long current rest c long)
            (h, fold_from-IsShort (32 ∷ c ∷ []) rest (ground arith))
      | inr short ↦
          rw (fold_from-next current rest c short)
            (fold_from-IsShort (current ++ c ∷ []) rest (ground arith))
    ]

-- No folded line is longer than 75 bytes.
pub folded-IsShort : (lines : List Text) → All IsShort (folded lines)
unfolding folded
folded-IsShort [] = tt
folded-IsShort (line ∷ lines) =
    All-append (fold_line line) (folded lines) (fold_from-IsShort [] line (omega arith))
      (folded-IsShort lines)

-- Whether a line begins with a space.
abbrev pub is_continuation : Text → Bool
is_continuation [] = false
is_continuation (c ∷ s) = c == 32

begins :
    (current : Text) (c : ℕ) (rest : Text)
    → is_continuation (current ++ c ∷ rest) ≡ false
    → is_continuation (current ++ c ∷ []) ≡ false
begins [] c rest k = k
begins (d ∷ current) c rest k = k

-- A continued line is read as one.
absorb-continued :
    (line current rest : Text) (lines : List Text)
    → absorb line (fold_from (32 ∷ current) rest ++ lines)
      ≡ absorb (line ++ (current ++ rest)) lines
unfolding absorb fold_from
absorb-continued line current [] lines = rw (append-nil current)
absorb-continued line current (c ∷ rest) lines =
    elim (Bool-cases (ltb 75 (byte_length ((32 ∷ current) ++ c ∷ [])))) [
      | inl long ↦ rw (fold_from-long (32 ∷ current) rest c long) (
          absorb-continued (line ++ current) (c ∷ []) rest lines
          ∙ ap (λ l. absorb l lines) (append_assoc line current (c ∷ rest)))
      | inr short ↦ rw (fold_from-next (32 ∷ current) rest c short) (
          absorb-continued line (current ++ c ∷ []) rest lines
          ∙ ap (λ l. absorb (line ++ l) lines) (append_assoc current (c ∷ []) rest))
    ]

absorb-new :
    (line new : Text) (lines : List Text)
    → is_continuation new ≡ false
    → absorb line (new ∷ lines) ≡ line ∷ absorb new lines
unfolding absorb
absorb-new line [] lines h = refl
absorb-new line (c ∷ s) lines h = rw (absorb, h)

-- The first part of a line begins a line of its own, and the rest is added to it.
absorb-fold_from :
    (line current rest : Text) (lines : List Text)
    → is_continuation current ≡ false
    → is_continuation (current ++ rest) ≡ false
    → absorb line (fold_from current rest ++ lines) ≡ line ∷ absorb (current ++ rest) lines
unfolding fold_from
absorb-fold_from line current [] lines h k =
    rw (append-nil current) (absorb-new line current lines h)
absorb-fold_from line current (c ∷ rest) lines h k =
    elim (Bool-cases (ltb 75 (byte_length (current ++ c ∷ [])))) [
      | inl long ↦ rw (fold_from-long current rest c long) (
          absorb-new line current (fold_from (32 ∷ c ∷ []) rest ++ lines) h
          ∙ ap (λ ls. line ∷ ls) (absorb-continued current (c ∷ []) rest lines ∙ refl))
      | inr short ↦ rw (fold_from-next current rest c short) (
          absorb-fold_from line (current ++ c ∷ []) rest lines (begins current c rest k)
            (rw (append_assoc current (c ∷ []) rest) k)
          ∙ ap (λ l. line ∷ absorb l lines) (append_assoc current (c ∷ []) rest))
    ]

absorb-folded :
    (line : Text) (lines : List Text)
    → All (λ l. is_continuation l ≡ false) lines
    → absorb line (folded lines) ≡ line ∷ lines
unfolding folded absorb
absorb-folded line [] a = refl
absorb-folded line (l ∷ lines) a =
    absorb-fold_from line [] l (folded lines) refl a.0
    ∙ ap (λ ls. line ∷ ls) (absorb-folded l lines a.1)

unfold_lines-fold_from :
    (current rest : Text) (lines : List Text)
    → unfold_lines (fold_from current rest ++ lines) ≡ absorb (current ++ rest) lines
unfolding unfold_lines fold_from
unfold_lines-fold_from current [] lines = rw (append-nil current)
unfold_lines-fold_from current (c ∷ rest) lines =
    elim (Bool-cases (ltb 75 (byte_length (current ++ c ∷ [])))) [
      | inl long ↦
          rw (fold_from-long current rest c long) (absorb-continued current (c ∷ []) rest lines)
      | inr short ↦ rw (fold_from-next current rest c short) (
          unfold_lines-fold_from (current ++ c ∷ []) rest lines
          ∙ ap (λ l. absorb l lines) (append_assoc current (c ∷ []) rest))
    ]

unfold_lines-folded :
    (lines : List Text)
    → All (λ l. is_continuation l ≡ false) lines
    → unfold_lines (folded lines) ≡ lines
unfolding unfold_lines folded
unfold_lines-folded [] a = refl
unfold_lines-folded (line ∷ lines) a =
    unfold_lines-fold_from [] line (folded lines) ∙ absorb-folded line lines a.1

All-append-begins :
    (xs ys : List Text)
    → All (λ l. is_continuation l ≡ false) xs
    → All (λ l. is_continuation l ≡ false) ys
    → All (λ l. is_continuation l ≡ false) (xs ++ ys)
All-append-begins [] ys a b = b
All-append-begins (x ∷ xs) ys a b = (a.0, All-append-begins xs ys a.1 b)

module _ (printer : Printer) where
  all_events-begin :
      (shifts : List ShiftRecord) → All (λ l. is_continuation l ≡ false) (all_events printer shifts)
  unfolding all_events
  all_events-begin [] = tt
  all_events-begin (s ∷ shifts) =
      (refl, (refl, (refl, (refl, (refl, (refl, (refl, (refl, all_events-begin shifts))))))))

  range_line-begins :
      (from to : Option Date) → All (λ l. is_continuation l ≡ false) (range_line printer from to)
  range_line-begins none none = tt
  range_line-begins none (some to) = (refl, tt)
  range_line-begins (some from) to = (refl, tt)

  -- A reader that joins the continued lines of an export has the lines of the calendar again:
  -- folding loses nothing, and no line of the calendar is taken for a continuation.
  pub calendar_lines-unfolded :
      (shifts : List ShiftRecord) (from to : Option Date)
      → unfold_lines (folded (calendar_lines printer shifts from to))
        ≡ calendar_lines printer shifts from to
  unfolding unfold_lines calendar_lines
  calendar_lines-unfolded shifts from to =
      unfold_lines-folded (calendar_lines printer shifts from to) (
        refl,
        (
          refl,
          (
            refl,
            (
              refl,
              (
                refl,
                All-append-begins (range_line printer from to ++ all_events printer shifts)
                    (codes "END:VCALENDAR" ∷ [])
                    (All-append-begins (range_line printer from to) (all_events printer shifts)
                      (range_line-begins from to) (all_events-begin shifts))
                    (refl, tt),
              ),
            ),
          ),
        ),
      )
