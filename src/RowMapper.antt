-- ===== src/RowMapper.antt =====
-- apps/worker/src/persistence/mysql-row-mapper.ts, which apps/api/src/persistence/mysql repeats: the
-- names of columns and of fields.
pub mod RoundTrip
use wealth_track.Prelude.{ℕ, ◌+◌, ◌-◌, Bool, ◌&&◌, List, [], ◌∷◌, leb, ◌==◌, if◌then◌else◌}
use wealth_track.Prelude.Text.{Text}
use wealth_track.Csv.{Values, assign}

-- `[a-z]`
abbrev pub is_lower : ℕ → Bool
is_lower c = leb b'a' c && leb c b'z'

-- `[A-Z]`
abbrev pub is_upper : ℕ → Bool
is_upper c = leb b'A' c && leb c b'Z'

-- `key.replace(/_([a-z])/g, (_match, group) => group.toUpperCase())`
unfoldable pub to_camel_case_key : Text → Text
to_camel_case_key [] = []
to_camel_case_key (c ∷ []) = c ∷ []
to_camel_case_key (c ∷ d ∷ s) =
    let capital = (d - 32) ∷ to_camel_case_key s in
    let kept = c ∷ to_camel_case_key (d ∷ s) in if c == b'_' && is_lower d then capital else kept

-- `key.replace(/[A-Z]/g, (character) => '_' + character.toLowerCase())`
unfoldable pub to_snake_case_key : Text → Text
to_snake_case_key [] = []
to_snake_case_key (c ∷ s) =
    let rest = to_snake_case_key s in if is_upper c then b'_' ∷ (c + 32) ∷ rest else c ∷ rest

rename_from : Values → Values → Values
rename_from result [] = result
rename_from result ((key, value) ∷ row) =
    rename_from (assign (to_camel_case_key key) value result) row

-- `toCamelCaseRow`, which every SELECT applies to the rows that it returns.
unfoldable pub to_camel_case_row : Values → Values
unfolding rename_from to_camel_case_key assign
to_camel_case_row row = rename_from [] row
