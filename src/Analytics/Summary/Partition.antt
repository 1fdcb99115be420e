-- ===== src/Analytics/Summary/Partition.antt =====
-- The parts of the summary make up the whole.
use wealth_track.Prelude.{
  ℕ, ◌+◌, ◌≤◌, ◌≡◌, refl, ◌∙◌, ap, true, not, ◌||◌, List, [], ◌∷◌, map, filter, length, ltb, arith,
  Bool-cases, inl, inr,
}
use wealth_track.Prelude.Text.{Text, includes, text_eq, text_eq_iff}
use wealth_track.Rows.{
  InvestmentRecordRow, CustomerType, TenorCategory, short_term, mid_short_term, medium_term,
  long_term, unclassified,
}
use wealth_track.Analytics.{Numbers, is_new, is_returning, is_inflow, is_rollover, add_id, ids_from}
use wealth_track.Analytics.Tally.{same_tenor}
use wealth_track.Analytics.Breakdown.{of_new, of_returning, of_inflow, of_rollover, of_tenor}
use wealth_track.Analytics.Summary.{TenorShare, tenor_share, tenor_categories, summary_of}

-- The funds of the two types.
length-filter-fund :
    (rs : List InvestmentRecordRow)
    → length (filter of_inflow rs) + length (filter of_rollover rs) ≡ length rs
unfolding is_inflow is_rollover
length-filter-fund [] = refl
length-filter-fund (r ∷ rs) = ground (arith, length-filter-fund rs)

of_each_tenor : List InvestmentRecordRow → TenorCategory → ℕ
of_each_tenor rs category = length (filter (of_tenor category) rs)

length-filter-tenor :
    (rs : List InvestmentRecordRow)
    → of_each_tenor rs short_term
        + (of_each_tenor rs mid_short_term
            + (of_each_tenor rs medium_term
                + (of_each_tenor rs long_term + (of_each_tenor rs unclassified + 0))))
      ≡ length rs
unfolding of_each_tenor same_tenor
length-filter-tenor [] = refl
length-filter-tenor (r ∷ rs) = ground (arith, length-filter-tenor rs)

module _ (js : Numbers) where
  -- The investments of all the listed shares.
  abbrev pub shared : List (TenorShare js.Num) → ℕ
  shared [] = 0
  shared (b ∷ bs) = b.investment_count + shared bs

  -- Leaving out the empty shares leaves out no investment.
  shared-filter :
      (bs : List (TenorShare js.Num))
      → shared (filter (λ b. ltb 0 b.investment_count) bs) ≡ shared bs
  shared-filter [] = refl
  shared-filter (b ∷ bs) = ground (arith, shared-filter bs)

-- Every identifier of the first set is in the second.
abbrev IsWithin : List Text → List Text → Type 0
IsWithin ids all_ids = (id : Text) → includes ids id ≡ true → includes all_ids id ≡ true

includes-same :
    (id k : Text) (ids : List Text) → text_eq id k ≡ true → includes ids id ≡ includes ids k
includes-same id k ids h = ap (includes ids) ((text_eq_iff id k).0 h)

includes-add_id :
    (id k : Text) (ids : List Text) → includes (add_id id ids) k ≡ (text_eq id k || includes ids k)
unfolding add_id
includes-add_id id k ids = ground (arith, includes-same id k ids)

add_id-IsWithin :
    (id : Text) (ids all_ids : List Text)
    → IsWithin ids all_ids
    → IsWithin (add_id id ids) (add_id id all_ids)
add_id-IsWithin id ids all_ids h k =
    rw (includes-add_id id k ids, includes-add_id id k all_ids) (ground (arith, h k))

add_id_elsewhere :
    (id : Text) (ids all_ids : List Text) → IsWithin ids all_ids → IsWithin ids (add_id id all_ids)
add_id_elsewhere id ids all_ids h k e = rw (includes-add_id id k all_ids) (ground (arith, h k))

length-add_id :
    (id : Text) (ids ns : List Text) (n : ℕ)
    → IsWithin ns ids
    → length ids ≤ length ns + n
    → length (add_id id ids) ≤ length (add_id id ns) + n
unfolding add_id
length-add_id id ids ns n h le = ground (arith, h id)

returning-new : (t : CustomerType) → is_returning t ≡ not (is_new t)
unfolding is_returning is_new
returning-new CustomerType.new = refl
returning-new CustomerType.returning = refl

length-ids_from :
    (ids ns os : List Text) (rs : List InvestmentRecordRow)
    → IsWithin ns ids
    → IsWithin os ids
    → length ids ≤ length ns + length os
    → length (ids_from ids rs)
      ≤ length (ids_from ns (filter of_new rs)) + length (ids_from os (filter of_returning rs))
unfolding ids_from
length-ids_from ids ns os [] hn ho h = h
length-ids_from ids ns os (r ∷ rs) hn ho h = elim (Bool-cases (is_new r.customer_type)) [
  | inl e ↦
      rw (returning-new r.customer_type, e)
        (length-ids_from (add_id r.customer_id ids) (add_id r.customer_id ns) os rs
          (add_id-IsWithin r.customer_id ns ids hn) (add_id_elsewhere r.customer_id os ids ho)
          (length-add_id r.customer_id ids ns (length os) hn h))
  | inr e ↦
      rw (returning-new r.customer_type, e)
        (length-ids_from (add_id r.customer_id ids) ns (add_id r.customer_id os) rs
          (add_id_elsewhere r.customer_id ns ids hn) (add_id-IsWithin r.customer_id os ids ho)
          (omega (arith, length-add_id r.customer_id ids os (length ns) ho (omega arith))))
]

module _ (js : Numbers) (investments : List InvestmentRecordRow) where
  -- In the summary of any investments, the inflows and the rollovers are as many as all investments,
  -- and so are those of the tenor categories together, which leave out the empty ones. There are at
  -- most as many customers as new and returning customers together: a customer with investments of
  -- both types is one customer, and is among the new and among the returning ones.
  pub summary_of_lem :
      ((summary_of js investments).inflow_funds.count
          + (summary_of js investments).rollover_funds.count
        ≡ (summary_of js investments).investment_count)
      × (((shared js (summary_of js investments).tenor_breakdown)
            ≡ (summary_of js investments).investment_count)
          × ((summary_of js investments).unique_customers
              ≤ (summary_of js investments).new_customers.count
                + (summary_of js investments).returning_customers.count))
  unfolding summary_of tenor_share of_each_tenor
  summary_of_lem = (
    length-filter-fund investments,
    (
      shared-filter js (map (tenor_share js investments) tenor_categories)
          ∙ length-filter-tenor investments,
      length-ids_from [] [] [] investments (λ id h. h) (λ id h. h) (omega arith),
    ),
  )
