-- ===== src/Sheets/Cells.antt =====
-- The cells of a sheet: which are blank or falsy, what they are as strings, and under which fields
-- a row's cells go.
use wealth_track.Prelude.{
  ℕ, suc, Bool, true, false, not, ◌&&◌, ◌||◌, List, [], ◌∷◌, Option, none, some, or_else, filter,
  leb, ◌==◌, if◌then◌else◌,
}
use wealth_track.Prelude.Text.{Text, codes, text_eq, is_empty, is_space, is_digit, to_lower_case}
use wealth_track.Prelude.Assoc.{lookup, set}
use wealth_track.Csv.{value_of}
use wealth_track.Rows.{Json, Cell, absent, text, value, Payload}

-- `c === null || c === undefined || c === ''`
unfoldable pub is_blank : Cell → Bool
is_blank absent = true
is_blank (text s) = is_empty s
is_blank (value truthy s) = false

-- `!c` is its negation.
unfoldable pub is_truthy : Cell → Bool
is_truthy absent = false
is_truthy (text s) = not (is_empty s)
is_truthy (value truthy s) = truthy

-- `String(c ?? '')`
unfoldable pub to_text : Cell → Text
to_text absent = []
to_text (text s) = s
to_text (value truthy s) = s

-- `c === s`
unfoldable pub is_text : Cell → Text → Bool
is_text (text t) s = text_eq t s
is_text _ s = false

-- `s.replace(/\s+/g, '_')`, where `in_space` says that the last character was a space.
underscore : Bool → Text → Text
unfolding is_space
underscore in_space [] = []
underscore in_space (c ∷ s) =
    let rest = underscore false s in
    let spaces = underscore true s in
    if is_space c then (if in_space then spaces else b'_' ∷ spaces) else c ∷ rest

-- `[a-z0-9_]`
is_field_code : ℕ → Bool
is_field_code c = (leb b'a' c && leb c b'z') || (is_digit c || c == b'_')

unfoldable pub snake_case : Text → Text
unfolding underscore is_field_code
snake_case s = filter is_field_code (underscore false (to_lower_case s))

-- The fields of the columns from the `idx`-th on; the empty field is none. `decimal` is `String(n)`,
-- and `columnMapping[header]` of an absent header is looked up under `String(header)`, which a
-- mapping has no key for.
module _ (decimal : ℕ → Text) (column_mapping : Json) where
  mapped_name : Cell → Option Text
  unfolding value_of
  mapped_name absent = none
  mapped_name (text s) = value_of s column_mapping
  mapped_name (value truthy s) = value_of s column_mapping

  unfoldable pub field_of : ℕ → Cell → Text
  unfolding mapped_name snake_case
  field_of idx header =
      or_else (mapped_name header)
        (or_else (value_of (decimal idx) column_mapping) (snake_case (to_text header)))

  unfoldable pub header_index : ℕ → List Cell → List Text
  unfolding field_of
  header_index idx [] = []
  header_index idx (header ∷ headers) = field_of idx header ∷ header_index (suc idx) headers

-- `rawRow.forEach((cell, colIdx) => { if (field) mapped[field] = cell })`
unfoldable pub map_row : List Text → List Cell → Payload → Payload
map_row [] cells mapped = mapped
map_row (field ∷ fields) [] mapped = mapped
map_row (field ∷ fields) (cell ∷ cells) mapped =
    map_row fields cells (if is_empty field then mapped else set field cell mapped)

-- `mapped[field]`
abbrev pub get : Text → Payload → Cell
get field mapped = or_else (lookup field mapped) absent

-- `mapped.field ? String(mapped.field) : null`
abbrev pub optional : Text → Payload → Option Text
optional field mapped =
    if is_truthy (get field mapped) then some (to_text (get field mapped)) else none

abbrev pub required : List Text
required =
    codes "customer_id"
    ∷ codes "customer_name"
    ∷ codes "mobilisation_date"
    ∷ codes "investment_amount"
    ∷ codes "fund_type"
    ∷ codes "tenor_days"
    ∷ []

-- `required.filter((f) => !mapped[f])`
unfoldable pub missing_fields : Payload → List Text
unfolding is_truthy lookup
missing_fields mapped = filter (λ f. not (is_truthy (get f mapped))) required
