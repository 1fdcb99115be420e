-- ===== src/Analytics/Tally.antt =====
-- Sums, counts and sets of the records that pass a test, taken a record at a time: how the fields of
-- the entries grow in the loops of analytics.service.ts.
use wealth_track.Prelude.{
  ℕ, ◌+◌, ◌≡◌, Bool, true, false, List, ◌∷◌, filter, length, arith, if◌then◌else◌,
}
use wealth_track.Prelude.Text.{Text, codes}
use wealth_track.Rows.{InvestmentRecordRow, TenorCategory}
use wealth_track.Analytics.{Numbers, amount, total_from, add_id, ids_from}

-- A category as its string.
abbrev pub tenor_code : TenorCategory → Text
tenor_code TenorCategory.short_term = codes "short_term"
tenor_code TenorCategory.mid_short_term = codes "mid_short_term"
tenor_code TenorCategory.medium_term = codes "medium_term"
tenor_code TenorCategory.long_term = codes "long_term"
tenor_code TenorCategory.unclassified = codes "unclassified"

-- `category === other`
unfoldable pub same_tenor : TenorCategory → TenorCategory → Bool
same_tenor TenorCategory.short_term TenorCategory.short_term = true
same_tenor TenorCategory.mid_short_term TenorCategory.mid_short_term = true
same_tenor TenorCategory.medium_term TenorCategory.medium_term = true
same_tenor TenorCategory.long_term TenorCategory.long_term = true
same_tenor TenorCategory.unclassified TenorCategory.unclassified = true
same_tenor _ _ = false

module _ (js : Numbers) where
  -- `if (test) s += Number(record.investmentAmount)`
  unfoldable pub add_amount : Bool → InvestmentRecordRow → js.Num → js.Num
  add_amount test r s = if test then js.plus s (amount js r) else s

  pub total_from-filter :
      (p : InvestmentRecordRow → Bool) (s : js.Num) (r : InvestmentRecordRow)
      (rs : List InvestmentRecordRow)
      → total_from js s (filter p (r ∷ rs)) ≡ total_from js (add_amount (p r) r s) (filter p rs)
  unfolding total_from add_amount
  total_from-filter p s r rs = ground arith

-- `if (test) n += 1`
unfoldable pub add_one : Bool → ℕ → ℕ
add_one test n = if test then n + 1 else n

pub length-filter_cons :
    {A : Type 0} (p : A → Bool) (n : ℕ) (r : A) (rs : List A)
    → n + length (filter p (r ∷ rs)) ≡ add_one (p r) n + length (filter p rs)
unfolding add_one
length-filter_cons p n r rs = ground arith

-- `if (test) ids.add(record.customerId)`
unfoldable pub add_customer : Bool → InvestmentRecordRow → List Text → List Text
unfolding add_id
add_customer test r ids = if test then add_id r.customer_id ids else ids

pub ids_from-filter :
    (p : InvestmentRecordRow → Bool) (ids : List Text) (r : InvestmentRecordRow)
    (rs : List InvestmentRecordRow)
    → ids_from ids (filter p (r ∷ rs)) ≡ ids_from (add_customer (p r) r ids) (filter p rs)
unfolding ids_from add_customer
ids_from-filter p ids r rs = ground arith
