-- ===== src/Processing/Dates/Iso.antt =====
-- Every date that `normalizeDate` returns is spelled YYYY-MM-DD, and is left as it is by a second
-- call.
use wealth_track.Prelude.{
  ℕ, ◌+◌, ◌-◌, ◌*◌, ◌/◌, ◌%◌, ◌≡◌, ◌∙◌, ◌&&◌, Bool-cases, or_else, true, false, Option, some, [],
  ◌∷◌, arith, Option-cases, inl, inr,
}
use wealth_track.Prelude.Text.{Text, is_digit, is_space, is_empty, trim}
use wealth_track.Prelude.Text.Trim.{trim-kept}
use wealth_track.Processing.Dates.{
  dash, ends_field, iso_text, year_text, century, match_iso, take_field, match_year,
  match_short_year, match_years, match_slashes, normalize_date,
}

abbrev AllDigits : ℕ → ℕ → ℕ → ℕ → Type 0
AllDigits a b c d =
    (is_digit a ≡ true) × (is_digit b ≡ true) × (is_digit c ≡ true) × (is_digit d ≡ true)

-- Four digits, a dash, two digits, a dash and two digits.
pub record IsIsoDate (s : Text) : Type 0 where
  pub y₁ : ℕ
  pub y₂ : ℕ
  pub y₃ : ℕ
  pub y₄ : ℕ
  pub m₁ : ℕ
  pub m₂ : ℕ
  pub d₁ : ℕ
  pub d₂ : ℕ
  pub spelled : s ≡ iso_text y₁ y₂ y₃ y₄ m₁ m₂ d₁ d₂
  pub year : AllDigits y₁ y₂ y₃ y₄
  pub rest : AllDigits m₁ m₂ d₁ d₂

match_iso-IsIsoDate : (s : Text) {d : Text} → match_iso s ≡ some d → IsIsoDate d
unfolding match_iso
match_iso-IsIsoDate (y₁ ∷ y₂ ∷ y₃ ∷ y₄ ∷ s₁ ∷ m₁ ∷ m₂ ∷ s₂ ∷ d₁ ∷ d₂ ∷ rest) e = record {
  y₁ = y₁;
  y₂ = y₂;
  y₃ = y₃;
  y₄ = y₄;
  m₁ = m₁;
  m₂ = m₂;
  d₁ = d₁;
  d₂ = d₂;
  spelled = ground arith;
  year = ground arith;
  rest = ground arith;
}
match_iso-IsIsoDate _ e = cc

take_field-digits :
    (s : Text) {a b : ℕ} {s' : Text}
    → take_field s ≡ some (a, b, s')
    → (is_digit a ≡ true) × (is_digit b ≡ true)
unfolding take_field
take_field-digits (a ∷ b ∷ c ∷ s) e = ground arith
take_field-digits (a ∷ b ∷ []) e = ground arith
take_field-digits (a ∷ []) e = cc
take_field-digits [] e = cc

module _ (m₁ m₂ d₁ d₂ : ℕ) (fields : AllDigits m₁ m₂ d₁ d₂) where
  match_year-IsIsoDate : (s : Text) {d : Text} → match_year m₁ m₂ d₁ d₂ s ≡ some d → IsIsoDate d
  unfolding match_year
  match_year-IsIsoDate (y₁ ∷ y₂ ∷ y₃ ∷ y₄ ∷ rest) e = record {
    y₁ = y₁;
    y₂ = y₂;
    y₃ = y₃;
    y₄ = y₄;
    m₁ = m₁;
    m₂ = m₂;
    d₁ = d₁;
    d₂ = d₂;
    spelled = ground arith;
    year = ground arith;
    rest = fields;
  }
  match_year-IsIsoDate _ e = cc

  short_year-IsIsoDate :
      (y₁ y₂ : ℕ) {d : Text}
      → is_digit y₁ ≡ true
      → is_digit y₂ ≡ true
      → some (year_text (century ((y₁ - b'0') * 10 + (y₂ - b'0'))) m₁ m₂ d₁ d₂) ≡ some d
      → IsIsoDate d
  short_year-IsIsoDate y₁ y₂ h k e =
      let year : ℕ = century ((y₁ - b'0') * 10 + (y₂ - b'0')) in
      record {
        y₁ = b'0' + year / 1000;
        y₂ = b'0' + year / 100 % 10;
        y₃ = b'0' + year / 10 % 10;
        y₄ = b'0' + year % 10;
        m₁ = m₁;
        m₂ = m₂;
        d₁ = d₁;
        d₂ = d₂;
        spelled = cc;
        year = ground arith;
        rest = fields;
      }

  match_short_year-IsIsoDate :
      (s : Text) {d : Text} → match_short_year m₁ m₂ d₁ d₂ s ≡ some d → IsIsoDate d
  unfolding match_short_year
  match_short_year-IsIsoDate (y₁ ∷ y₂ ∷ rest) e =
      elim (Bool-cases (is_digit y₁ && (is_digit y₂ && ends_field rest))) [
        | inl t ↦ short_year-IsIsoDate y₁ y₂ (ground arith) (ground arith) (rw t at e)
        | inr f ↦ cc (rw f at e)
      ]
  match_short_year-IsIsoDate _ e = cc

  match_years-IsIsoDate : (s : Text) {d : Text} → match_years m₁ m₂ d₁ d₂ s ≡ some d → IsIsoDate d
  unfolding match_years
  match_years-IsIsoDate s e = elim (Option-cases (match_year m₁ m₂ d₁ d₂ s)) [
    | inl n ↦ match_short_year-IsIsoDate s (rw (n, match_years) at e)
    | inr (date, y) ↦ match_year-IsIsoDate s (ground arith)
  ]

match_slashes-IsIsoDate : (s : Text) {d : Text} → match_slashes s ≡ some d → IsIsoDate d
unfolding match_slashes
match_slashes-IsIsoDate s e = elim (Option-cases (take_field s)) [
  | inl n ↦ cc (rw (n, match_slashes) at e)
  | inr ((m₁, m₂, s'), f) ↦ elim (Option-cases (take_field s')) [
    | inl n ↦ cc (rw (f, match_slashes, n, match_slashes) at e)
    | inr ((d₁, d₂, s''), g) ↦
        let (hm₁, hm₂) = take_field-digits s f in
        let (hd₁, hd₂) = take_field-digits s' g in
        match_years-IsIsoDate m₁ m₂ d₁ d₂ (hm₁, hm₂, hd₁, hd₂) s''
          (rw (f, match_slashes, g, match_slashes) at e)
  ]
]

-- Every date that `normalizeDate` returns, by each of its three formats, is spelled YYYY-MM-DD
-- with decimal digits.
normalize_date-IsIsoDate :
    (value : Option Text) {d : Text} → normalize_date value ≡ some d → IsIsoDate d
unfolding normalize_date
normalize_date-IsIsoDate value e = elim (Bool-cases (is_empty (trim (or_else value [])))) [
  | inl t ↦ cc (rw (t, normalize_date) at e)
  | inr f ↦ elim (Option-cases (match_iso (trim (or_else value [])))) [
    | inl n ↦
        match_slashes-IsIsoDate (trim (or_else value []))
          (rw (f, normalize_date, n, normalize_date) at e)
    | inr (date, i) ↦
        match_iso-IsIsoDate (trim (or_else value []))
          (i ∙ rw (f, normalize_date, i, normalize_date) at e)
  ]
]

digit-space : (c : ℕ) → is_digit c ≡ true → is_space c ≡ false
unfolding is_space
digit-space c h = ground arith

match_iso-iso_text :
    (y₁ y₂ y₃ y₄ m₁ m₂ d₁ d₂ : ℕ)
    → AllDigits y₁ y₂ y₃ y₄
    → AllDigits m₁ m₂ d₁ d₂
    → match_iso (iso_text y₁ y₂ y₃ y₄ m₁ m₂ d₁ d₂) ≡ some (iso_text y₁ y₂ y₃ y₄ m₁ m₂ d₁ d₂)
unfolding match_iso
match_iso-iso_text y₁ y₂ y₃ y₄ m₁ m₂ d₁ d₂ (a, b, c, d) (e, f, g, h) = rw (a, b, c, d, e, f, g, h)

IsIsoDate-trim : (s : Text) (h : IsIsoDate s) → trim s ≡ s
IsIsoDate-trim s h = rw h.spelled (
    trim-kept h.y₁ (h.y₂ ∷ h.y₃ ∷ h.y₄ ∷ dash ∷ h.m₁ ∷ h.m₂ ∷ dash ∷ h.d₁ ∷ []) h.d₂
      (digit-space h.y₁ h.year.0) (digit-space h.d₂ h.rest.3))

IsIsoDate-normalize_date : (s : Text) → IsIsoDate s → normalize_date (some s) ≡ some s
unfolding normalize_date
IsIsoDate-normalize_date s h =
    let m = match_iso-iso_text h.y₁ h.y₂ h.y₃ h.y₄ h.m₁ h.m₂ h.d₁ h.d₂ h.year h.rest in
    rw (IsIsoDate-trim s h, normalize_date) (rw h.spelled (rw (m, normalize_date)))

-- Every date that `normalizeDate` returns, by each of its three formats, is spelled YYYY-MM-DD with
-- decimal digits, and is left as it is by a second call.
pub normalize_date_lem :
    (value : Option Text) {d : Text}
    → normalize_date value ≡ some d
    → IsIsoDate d × (normalize_date (some d) ≡ some d)
normalize_date_lem value {d} e =
    let h = normalize_date-IsIsoDate value e in (h, IsIsoDate-normalize_date d h)
