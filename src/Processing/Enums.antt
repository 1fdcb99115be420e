-- ===== src/Processing/Enums.antt =====
-- `normalizeCustomerType`, `normalizeFundType`, `normalizeMoney`, `parsePositiveInteger` and
-- `classifyTenor`: cells of a file as values of the model.
use wealth_track.Prelude.{
  ℕ, Bool, false, not, ◌&&◌, ◌||◌, [], filter, leb, ◌==◌, Option, none, some, or_else,
  if◌then◌else◌,
}
use wealth_track.Prelude.Text.{Text, codes, is_empty, trim, to_lower_case, has_substring}
use wealth_track.Rows.{
  CustomerType, new, returning, FundType, inflow, rollover, TenorCategory, short_term,
  mid_short_term, medium_term, long_term, unclassified,
}

-- JavaScript's numbers as far as the job uses them: `Number(s)` where it is finite, the test
-- `x > 0`, `Math.round(x)` of a positive number, and `x.toFixed(4)`.
pub record JsNumber : Type 1 where
  pub Num : Type 0
  pub number : Text → Option Num
  pub is_positive : Num → Bool
  pub round : Num → ℕ
  pub to_fixed₄ : Num → Text

-- `(value ?? '').trim().toLowerCase()`
abbrev lowered : Option Text → Text
lowered value = to_lower_case (trim (or_else value []))

-- `(value ?? '').replace(/,/g, '').trim()`
abbrev cleaned : Option Text → Text
cleaned value = trim (filter (λ c. not (c == b',')) (or_else value []))

unfoldable pub normalize_customer_type : Option Text → Option CustomerType
normalize_customer_type value =
    let normalized = lowered value in
    if is_empty normalized
    then none
    else if has_substring (codes "ntb") normalized || has_substring (codes "new") normalized
    then some new
    else if has_substring (codes "retn") normalized || has_substring (codes "return") normalized
    then some returning
    else none

unfoldable pub classify_tenor : ℕ → TenorCategory
classify_tenor tenor_days =
    if leb 30 tenor_days && leb tenor_days 120
    then short_term
    else if leb 150 tenor_days && leb tenor_days 210
    then mid_short_term
    else if leb 240 tenor_days && leb tenor_days 360
    then medium_term
    else if leb 390 tenor_days && leb tenor_days 480
    then long_term
    else unclassified

module _ (js : JsNumber) where
  open js use {Num, number, is_positive, round, to_fixed₄}

  fixed : Option Num → Option Text
  fixed none = none
  fixed (some amount) = some (to_fixed₄ amount)

  unfoldable pub normalize_money : Option Text → Option Text
  unfolding fixed
  normalize_money value =
      let text = cleaned value in if is_empty text then none else fixed (number text)

  rounded : Option Num → Option ℕ
  rounded none = none
  rounded (some amount) = if is_positive amount then some (round amount) else none

  unfoldable pub parse_positive_integer : Option Text → Option ℕ
  unfolding rounded
  parse_positive_integer value =
      let text = cleaned value in if is_empty text then none else rounded (number text)

  positive_number : Option Num → Bool
  positive_number none = false
  positive_number (some n) = is_positive n

  -- `Number(amount ?? 0) > 0`
  positive_amount : Option Text → Bool
  unfolding positive_number
  positive_amount none = false
  positive_amount (some text) = positive_number (number text)

  unfoldable pub normalize_fund_type : Option Text → Option Text → Option Text → Option FundType
  unfolding normalize_money positive_amount
  normalize_fund_type value inflow_cell rollover_cell =
      let normalized = lowered value in
      if has_substring (codes "infl") normalized || has_substring (codes "inflow") normalized
      then some inflow
      else if has_substring (codes "retn") normalized || has_substring (codes "roll") normalized
      then some rollover
      else if positive_amount (normalize_money inflow_cell)
      then some inflow
      else if positive_amount (normalize_money rollover_cell)
      then some rollover
      else none
