-- ===== src/Processing/Dates.antt =====
-- `normalizeDate`: the three formats of a date, as YYYY-MM-DD.
pub mod Iso
use wealth_track.Prelude.{
  ℕ, ◌+◌, ◌-◌, ◌*◌, ◌/◌, ◌%◌, Bool, true, false, ◌&&◌, List, [], ◌∷◌, ◌++◌, leb, ◌==◌, Option, none,
  some, or_else, if◌then◌else◌,
}
use wealth_track.Prelude.Text.{Text, is_empty, is_digit, is_space, trim}

abbrev pub dash : ℕ
dash = b'-'

abbrev slash : ℕ
slash = b'/'

abbrev pub iso_text : ℕ → ℕ → ℕ → ℕ → ℕ → ℕ → ℕ → ℕ → Text
iso_text y₁ y₂ y₃ y₄ m₁ m₂ d₁ d₂ = y₁ ∷ y₂ ∷ y₃ ∷ y₄ ∷ dash ∷ m₁ ∷ m₂ ∷ dash ∷ d₁ ∷ d₂ ∷ []

-- `/^(\d{4})-(\d{2})-(\d{2})/`
match_iso : Text → Option Text
match_iso (y₁ ∷ y₂ ∷ y₃ ∷ y₄ ∷ s₁ ∷ m₁ ∷ m₂ ∷ s₂ ∷ d₁ ∷ d₂ ∷ rest) =
    if is_digit y₁
      && (is_digit y₂
          && (is_digit y₃
              && (is_digit y₄
                  && (s₁ == dash
                      && (is_digit m₁
                          && (is_digit m₂ && (s₂ == dash && (is_digit d₁ && is_digit d₂))))))))
    then some (iso_text y₁ y₂ y₃ y₄ m₁ m₂ d₁ d₂)
    else none
match_iso _ = none

-- `^(\d{1,2})\/`: the two digits, a missing first one padded with 0, and what follows the slash.
take_field : Text → Option (ℕ × ℕ × Text)
take_field (a ∷ b ∷ c ∷ s) =
    if is_digit a && (is_digit b && c == slash)
    then some (a, b, s)
    else if is_digit a && b == slash
    then some (b'0', a, c ∷ s)
    else none
take_field (a ∷ b ∷ []) = if is_digit a && b == slash then some (b'0', a, []) else none
take_field _ = none

-- `/^(\d{1,2})\/(\d{1,2})\/(\d{4})/` behind month and day
match_year : ℕ → ℕ → ℕ → ℕ → Text → Option Text
match_year m₁ m₂ d₁ d₂ (y₁ ∷ y₂ ∷ y₃ ∷ y₄ ∷ rest) =
    if is_digit y₁ && (is_digit y₂ && (is_digit y₃ && is_digit y₄))
    then some (iso_text y₁ y₂ y₃ y₄ m₁ m₂ d₁ d₂)
    else none
match_year m₁ m₂ d₁ d₂ _ = none

-- `String(year)` for a year of four digits
abbrev year_text : ℕ → ℕ → ℕ → ℕ → ℕ → Text
year_text year m₁ m₂ d₁ d₂ =
    iso_text (b'0' + year / 1000) (b'0' + year / 100 % 10) (b'0' + year / 10 % 10)
      (b'0' + year % 10) m₁ m₂ d₁ d₂

abbrev century : ℕ → ℕ
century yy = if leb yy 50 then 2000 + yy else 1900 + yy

-- `(\s|$)`
abbrev ends_field : Text → Bool
ends_field [] = true
ends_field (c ∷ s) = is_space c

-- `/^(\d{1,2})\/(\d{1,2})\/(\d{2})(\s|$)/` behind month and day
match_short_year : ℕ → ℕ → ℕ → ℕ → Text → Option Text
match_short_year m₁ m₂ d₁ d₂ (y₁ ∷ y₂ ∷ rest) =
    if is_digit y₁ && (is_digit y₂ && ends_field rest)
    then some (year_text (century ((y₁ - b'0') * 10 + (y₂ - b'0'))) m₁ m₂ d₁ d₂)
    else none
match_short_year m₁ m₂ d₁ d₂ _ = none

-- The two formats with slashes, behind month and day.
match_years : ℕ → ℕ → ℕ → ℕ → Text → Option Text
unfolding match_year match_short_year is_space
match_years m₁ m₂ d₁ d₂ s = elim (match_year m₁ m₂ d₁ d₂ s) [
  | some date ↦ some date
  | none ↦ match_short_year m₁ m₂ d₁ d₂ s
]

match_slashes : Text → Option Text
unfolding take_field match_years
match_slashes s = elim (take_field s) [
  | none ↦ none
  | some (m₁, m₂, s') ↦ elim (take_field s') [
    | none ↦ none
    | some (d₁, d₂, s'') ↦ match_years m₁ m₂ d₁ d₂ s''
  ]
]

unfoldable pub normalize_date : Option Text → Option Text
unfolding match_iso match_slashes trim
normalize_date value =
    let cleaned = trim (or_else value []) in
    if is_empty cleaned
    then none
    else elim (match_iso cleaned) [ some date ↦ some date | none ↦ match_slashes cleaned ]
