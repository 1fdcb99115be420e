-- ===== src/Csv/RoundTrip.antt =====
-- Reading back a line that is written by the rules of RFC 4180.
use wealth_track.Prelude.{
  ℕ, ◌≡◌, refl, ◌∙◌, ap, true, false, List, [], ◌∷◌, ◌++◌, map, arith, ◌==◌, ==_iff, inl, inr,
  Bool-cases, if◌then◌else◌, append_assoc, append-nil,
}
use wealth_track.Prelude.Text.{Text, trim}
use wealth_track.Csv.{quote, comma, scan, parse_csv_line}

-- The text of a quoted cell: each quote is doubled.
double_quotes : Text → Text
double_quotes [] = []
double_quotes (c ∷ s) = if c == quote then quote ∷ quote ∷ double_quotes s else c ∷ double_quotes s

unfoldable pub print_cell : Text → Text
unfolding double_quotes
print_cell cell = quote ∷ (double_quotes cell ++ quote ∷ [])

unfoldable pub print_line : Text → List Text → Text
unfolding print_cell
print_line cell [] = print_cell cell
print_line cell (next ∷ cells) = print_cell cell ++ (comma ∷ print_line next cells)

-- What may follow a printed cell: the end of the line, or a comma.
abbrev EndsCell : Text → Type 0
EndsCell [] = Unit
EndsCell (c ∷ s) = c ≡ comma

scan-plain :
    (current : Text) (c : ℕ) (s : Text)
    → (c == quote) ≡ false
    → scan current true (c ∷ s) ≡ scan (current ++ c ∷ []) true s
unfolding scan
scan-plain current c [] h = ground arith
scan-plain current c (d ∷ s) h = ground arith

scan-opening : (current s : Text) → scan current false (quote ∷ s) ≡ scan current true s
unfolding scan
scan-opening current [] = refl
scan-opening current (d ∷ s) = refl

scan-closing :
    (current s : Text) → EndsCell s → scan current true (quote ∷ s) ≡ scan current false s
unfolding scan
scan-closing current [] h = refl
scan-closing current (d ∷ s) h = rw h refl

scan-escaped :
    (current s : Text) → scan current true (quote ∷ quote ∷ s) ≡ scan (current ++ quote ∷ []) true s
unfolding scan
scan-escaped current s = refl

scan-comma : (current s : Text) → scan current false (comma ∷ s) ≡ trim current ∷ scan [] false s
unfolding scan
scan-comma current [] = refl
scan-comma current (d ∷ s) = refl

-- Inside quotes the doubled text of a cell is collected, and the closing quote ends the quoting.
scan-double_quotes :
    (current s rest : Text)
    → EndsCell rest
    → scan current true (double_quotes s ++ quote ∷ rest) ≡ scan (current ++ s) false rest
unfolding double_quotes
scan-double_quotes current [] rest h = rw append-nil (scan-closing current rest h)
scan-double_quotes current (c ∷ s) rest h = elim (Bool-cases (c == quote)) [
  | inl q ↦
      rw (q, (==_iff c quote).0 q)
        (rw (← append_assoc current (quote ∷ []) s) (
          scan-escaped current (double_quotes s ++ quote ∷ rest)
          ∙ scan-double_quotes (current ++ quote ∷ []) s rest h))
  | inr n ↦ rw n (
      rw (← append_assoc current (c ∷ []) s) (
        scan-plain current c (double_quotes s ++ quote ∷ rest) n
        ∙ scan-double_quotes (current ++ c ∷ []) s rest h))
]

scan-print_cell :
    (cell rest : Text)
    → EndsCell rest
    → scan [] false (print_cell cell ++ rest) ≡ scan cell false rest
unfolding print_cell
scan-print_cell cell rest h =
    rw (append_assoc (double_quotes cell) (quote ∷ []) rest)
      (scan-opening [] (double_quotes cell ++ quote ∷ rest) ∙ scan-double_quotes [] cell rest h)

scan-print_line :
    (cell : Text) (cells : List Text)
    → scan [] false (print_line cell cells) ≡ map trim (cell ∷ cells)
unfolding print_line
scan-print_line cell [] =
    rw (← append-nil (print_cell cell)) (scan-print_cell cell [] tt ∙ (unfold scan in refl))
scan-print_line cell (next ∷ cells) =
    scan-print_cell cell (comma ∷ print_line next cells) refl
    ∙ scan-comma cell (print_line next cells)
    ∙ ap (λ (r : List Text). trim cell ∷ r) (scan-print_line next cells)

-- A line of cells that are all quoted, with their quotes doubled and commas between them, is read
-- back as those cells with the white space at their ends trimmed, whatever the cells hold.
pub parse_csv_line-print_line :
    (cell : Text) (cells : List Text)
    → parse_csv_line (print_line cell cells) ≡ map trim (cell ∷ cells)
unfolding parse_csv_line
parse_csv_line-print_line cell cells = scan-print_line cell cells
