-- ===== src/Analytics/Summary.antt =====
-- `summary`: the figures of the confirmed investments as a whole.
pub mod Partition
use wealth_track.Prelude.{
  ℕ, ◌+◌, ◌-◌, ◌++◌, ◌&&◌, leb, ◌==◌, Bool, true, false, not, List, [], ◌∷◌, map, Option, none,
  some, or_else, is_some, filter, length, ltb, if◌then◌else◌,
}
use wealth_track.Prelude.Text.{Text, codes}
use wealth_track.Rows.{
  InvestmentRecordRow, TenorCategory, short_term, mid_short_term, medium_term, long_term,
  unclassified,
}
use wealth_track.Analytics.{Numbers, Sql, Filter, amount, total, customer_ids, list_confirmed_valid}
use wealth_track.Analytics.Tally.{tenor_code}
use wealth_track.Analytics.Breakdown.{of_new, of_returning, of_inflow, of_rollover, of_tenor}

pub record TenorShare (Num : Type 0) : Type 0 where
  pub tenor_category : TenorCategory
  pub label : Text
  pub investment_value : Num
  pub investment_count : ℕ

-- A number of customers, or of investments, and their value.
pub record Figure (Num : Type 0) : Type 0 where
  pub count : ℕ
  pub investment_value : Num

pub record Contribution (Num : Type 0) : Type 0 where
  pub customer_id : Text
  pub customer_name : Text
  pub investment_amount : Num
  pub mobilisation_date : Text

pub record Summary (Num : Type 0) : Type 0 where
  pub total_investment : Num
  pub unique_customers : ℕ
  pub investment_count : ℕ
  pub average_investment_per_record : Num
  pub average_investment_per_customer : Num
  pub new_customers : Figure Num
  pub returning_customers : Figure Num
  pub inflow_funds : Figure Num
  pub rollover_funds : Figure Num
  pub inflow_share : Num
  pub rollover_share : Num
  pub tenor_breakdown : List (TenorShare Num)
  pub highest_contribution : Option (Contribution Num)
  pub average_cost_of_funds : Option Num

-- `p.charAt(0).toUpperCase() + p.slice(1)`, on ASCII
capitalise : Text → Text
capitalise [] = []
capitalise (c ∷ s) = (if leb b'a' c && leb c b'z' then c - 32 else c) ∷ s

-- `s.split('_')`, where the word that is being read comes first.
split_words : Text → List Text
split_words [] = [] ∷ []
split_words (c ∷ s) = elim (split_words s) [
  | [] ↦ []
  | w ∷ ws ↦ if c == b'_' then [] ∷ w ∷ ws else (c ∷ w) ∷ ws
]

-- `words.join(' ')`
join_words : List Text → Text
join_words [] = []
join_words (w ∷ []) = w
join_words (w ∷ v ∷ ws) = w ++ b' ' ∷ join_words (v ∷ ws)

unfoldable pub tenor_category_label : Text → Text
unfolding capitalise split_words join_words
tenor_category_label category = join_words (map capitalise (split_words category))

abbrev pub tenor_categories : List TenorCategory
tenor_categories = short_term ∷ mid_short_term ∷ medium_term ∷ long_term ∷ unclassified ∷ []

module _ (js : Numbers) where
  open js use {Num, of_count, number, plus, times, over, greater}

  unfoldable pub tenor_share : List InvestmentRecordRow → TenorCategory → TenorShare Num
  unfolding tenor_category_label
  tenor_share investments category = record {
    tenor_category = category;
    label = tenor_category_label (tenor_code category);
    investment_value = total js (filter (of_tenor category) investments);
    investment_count = length (filter (of_tenor category) investments);
  }

  -- `investments.reduce((best, r) => …, best)`
  unfoldable pub highest :
      Option InvestmentRecordRow → List InvestmentRecordRow → Option InvestmentRecordRow
  highest best [] = best
  highest none (r ∷ rs) = highest (some r) rs
  highest (some best) (r ∷ rs) =
      highest (some (if greater (amount js r) (amount js best) then r else best)) rs

  contribution : Option InvestmentRecordRow → Option (Contribution Num)
  contribution none = none
  contribution (some r) = some (record {
    customer_id = r.customer_id;
    customer_name = r.customer_name;
    investment_amount = amount js r;
    mobilisation_date = r.mobilisation_date;
  })

  -- `count > 0 ? x / count : 0`
  abbrev average : Num → ℕ → Num
  average x count = if ltb 0 count then over x (of_count count) else of_count 0

  -- `records.reduce((s, r) => s + Number(r.costOfFunds), s)`, where none is null
  cost_from : Num → List InvestmentRecordRow → Num
  cost_from s [] = s
  cost_from s (r ∷ rs) = cost_from (plus s (number (or_else r.cost_of_funds []))) rs

  average_cost : List InvestmentRecordRow → Option Num
  unfolding cost_from
  average_cost records =
      if ltb 0 (length records)
      then some (over (cost_from (of_count 0) records) (of_count (length records)))
      else none

  abbrev share : Num → Num → Num
  share part whole =
      if greater whole (of_count 0) then times (over part whole) (of_count 100) else of_count 0

  unfoldable pub summary_of : List InvestmentRecordRow → Summary Num
  unfolding tenor_share highest contribution average_cost
  summary_of investments =
      let total_investment = total js investments in
      let unique_customers = length (customer_ids investments) in
      let inflow_value = total js (filter of_inflow investments) in
      let rollover_value = total js (filter of_rollover investments) in
      record {
        total_investment = total_investment;
        unique_customers = unique_customers;
        investment_count = length investments;
        average_investment_per_record = average total_investment (length investments);
        average_investment_per_customer = average total_investment unique_customers;
        new_customers = record {
          count = length (customer_ids (filter of_new investments));
          investment_value = total js (filter of_new investments);
        };
        returning_customers = record {
          count = length (customer_ids (filter of_returning investments));
          investment_value = total js (filter of_returning investments);
        };
        inflow_funds = record {
          count = length (filter of_inflow investments);
          investment_value = inflow_value;
        };
        rollover_funds = record {
          count = length (filter of_rollover investments);
          investment_value = rollover_value;
        };
        inflow_share = share inflow_value total_investment;
        rollover_share = share rollover_value total_investment;
        tenor_breakdown =
            filter (λ b. ltb 0 b.investment_count) (map (tenor_share investments) tenor_categories);
        highest_contribution = contribution (highest none investments);
        average_cost_of_funds = average_cost (filter (λ r. is_some r.cost_of_funds) investments);
      }

  unfoldable pub summary : Sql → Filter → List InvestmentRecordRow → Summary Num
  unfolding summary_of
  summary sql filter_by table = summary_of (list_confirmed_valid sql filter_by table)
