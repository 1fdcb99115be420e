-- ===== src/Csv.antt =====
-- apps/worker/src/common/csv-parser.ts: one line into cells, and a file into records.
pub mod RoundTrip
use wealth_track.Prelude.{
  ℕ, ◌+◌, Bool, true, false, not, ◌&&◌, List, [], ◌∷◌, ◌++◌, map, Option, none, some, ◌==◌, filter,
  if◌then◌else◌, or_else,
}
use wealth_track.Prelude.Text.{Text, trim, is_empty, text_eq}

abbrev pub quote : ℕ
quote = b'"'

abbrev pub comma : ℕ
comma = b','

-- The loop of `parseCsvLine`: `current`, `inQuotes` and what is left of the line. A cell that is
-- pushed stands in front of the cells that come later.
scan : Text → Bool → Text → List Text
scan current in_quotes [] = trim current ∷ []
scan current in_quotes (c ∷ []) =
    if c == quote
    then trim current ∷ []
    else if c == comma && not in_quotes
    then trim current ∷ trim [] ∷ []
    else trim (current ++ c ∷ []) ∷ []
scan current in_quotes (c ∷ d ∷ line) =
    let escaped = scan (current ++ quote ∷ []) in_quotes line in
    let toggled = scan current (not in_quotes) (d ∷ line) in
    let closed = trim current ∷ scan [] in_quotes (d ∷ line) in
    let longer = scan (current ++ c ∷ []) in_quotes (d ∷ line) in
    if c == quote && (in_quotes && d == quote)
    then escaped
    else if c == quote
    then toggled
    else if c == comma && not in_quotes
    then closed
    else longer

unfoldable pub parse_csv_line : Text → List Text
unfolding scan
parse_csv_line line = scan [] false line

-- `content.split(/\r?\n/)`: `current` is the line read so far.
split_lines : Text → Text → List Text
split_lines current [] = current ∷ []
split_lines current (c ∷ []) = if c == 10 then current ∷ [] ∷ [] else (current ++ c ∷ []) ∷ []
split_lines current (c ∷ d ∷ s) =
    let crlf = current ∷ split_lines [] s in
    let lf = current ∷ split_lines [] (d ∷ s) in
    let longer = split_lines (current ++ c ∷ []) (d ∷ s) in
    if c == 13 && d == 10 then crlf else if c == 10 then lf else longer

-- `Record<string, string>` in insertion order.
abbrev pub Values : Type 0
Values = List (Text × Text)

-- `result[key] = value`: a key that is there keeps its place.
unfoldable pub assign : Text → Text → Values → Values
assign k v [] = (k, v) ∷ []
assign k v ((j, w) ∷ r) = if text_eq j k then (j, v) ∷ r else (j, w) ∷ assign k v r

-- `values.key`: `undefined` is `none`.
unfoldable pub value_of : Text → Values → Option Text
value_of k [] = none
value_of k ((j, w) ∷ r) = if text_eq j k then some w else value_of k r

pub record ParsedCsvRecord : Type 0 where
  pub row_number : ℕ
  pub values : Values

-- The `reduce` over the headers: `cells[headerIndex] ?? ''`.
fill : List Text → List Text → Values → Values
fill [] cells result = result
fill (h ∷ hs) [] result = fill hs [] (assign h [] result)
fill (h ∷ hs) (c ∷ cells) result = fill hs cells (assign h c result)

records : List Text → ℕ → List Text → List ParsedCsvRecord
records headers index [] = []
records headers index (line ∷ lines) =
    record { row_number = index + 2; values = fill headers (parse_csv_line line) [] }
    ∷ records headers (index + 1) lines

from_lines : List Text → List ParsedCsvRecord
from_lines [] = []
from_lines (line ∷ lines) = records (map trim (parse_csv_line line)) 0 lines

unfoldable pub parse_csv : Text → List ParsedCsvRecord
unfolding from_lines records fill assign split_lines parse_csv_line
parse_csv content = from_lines (filter (λ l. not (is_empty l)) (map trim (split_lines [] content)))
