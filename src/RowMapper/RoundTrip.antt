-- ===== src/RowMapper/RoundTrip.antt =====
-- The names of columns and fields determine one another.
use wealth_track.Prelude.{
  ℕ, ◌+◌, ◌-◌, ◌≡◌, refl, true, false, [], ◌∷◌, arith, All, ◌==◌, Bool-cases, inl, inr, ap, ◌∙◌,
}
use wealth_track.Prelude.Text.{Text}
use wealth_track.RowMapper.{is_lower, is_upper, to_camel_case_key, to_snake_case_key}

-- A key with no capital letter, as the columns of the tables are named.
abbrev pub HasNoCapital : Text → Type 0
HasNoCapital key = All (λ c. is_upper c ≡ false) key

-- A key with no underscore, as the fields of the rows are named.
abbrev pub HasNoUnderscore : Text → Type 0
HasNoUnderscore key = All (λ c. (c == b'_') ≡ false) key

capital_back : (d : ℕ) → is_lower d ≡ true → (is_upper (d - 32) ≡ true) × (d - 32 + 32 ≡ d)
capital_back d h = ground arith

-- The name of a column is found again from the name of its field: from field to column after column
-- to field changes nothing, for a name with no capital letter.
to_snake_case_key-to_camel_case_key :
    (key : Text) → HasNoCapital key → to_snake_case_key (to_camel_case_key key) ≡ key
unfolding to_snake_case_key to_camel_case_key
to_snake_case_key-to_camel_case_key [] h = refl
to_snake_case_key-to_camel_case_key (c ∷ []) h = ground arith
to_snake_case_key-to_camel_case_key (c ∷ d ∷ s) h = ground (
  arith,
  capital_back d,
  to_snake_case_key-to_camel_case_key s h.1.1,
  to_snake_case_key-to_camel_case_key (d ∷ s) h.1,
)

camel-plain :
    (c : ℕ) (s : Text) → (c == b'_') ≡ false → to_camel_case_key (c ∷ s) ≡ c ∷ to_camel_case_key s
unfolding to_camel_case_key
camel-plain c [] h = refl
camel-plain c (d ∷ s) h = ground arith

snake_capital :
    (c : ℕ) (s : Text)
    → is_upper c ≡ true
    → to_camel_case_key (b'_' ∷ (c + 32) ∷ s) ≡ c ∷ to_camel_case_key s
unfolding to_camel_case_key
snake_capital c s h = ground arith

-- The name of a field is found again from the name of its column, for a name with no underscore.
to_camel_case_key-to_snake_case_key :
    (key : Text) → HasNoUnderscore key → to_camel_case_key (to_snake_case_key key) ≡ key
unfolding to_snake_case_key
to_camel_case_key-to_snake_case_key [] h = unfold to_camel_case_key in refl
to_camel_case_key-to_snake_case_key (c ∷ s) h = elim (Bool-cases (is_upper c)) [
  | inl u ↦ rw u (
      snake_capital c (to_snake_case_key s) u
      ∙ ap (λ (r : Text). c ∷ r) (to_camel_case_key-to_snake_case_key s h.1))
  | inr l ↦ rw l (
      camel-plain c (to_snake_case_key s) h.0
      ∙ ap (λ (r : Text). c ∷ r) (to_camel_case_key-to_snake_case_key s h.1))
]

-- The name of a column with no capital letter is found again from the name of its field, and the
-- name of a field with no underscore from the name of its column.
pub key_round_trips :
    (column field : Text)
    → HasNoCapital column
    → HasNoUnderscore field
    → (to_snake_case_key (to_camel_case_key column) ≡ column)
      × (to_camel_case_key (to_snake_case_key field) ≡ field)
key_round_trips column field h k =
    (to_snake_case_key-to_camel_case_key column h, to_camel_case_key-to_snake_case_key field k)
