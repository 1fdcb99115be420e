-- ===== src/Analytics/Managers/Tops.antt =====
-- The sums of the customers in `wealthManagers`, as the customers in their order with their records.
use wealth_track.Prelude.{
  ◌≡◌, refl, ◌∙◌, List, [], ◌∷◌, map, none, some, filter, arith, Option-cases, inl, inr,
}
use wealth_track.Prelude.Text.{Text}
use wealth_track.Prelude.Assoc.{lookup, set}
use wealth_track.Rows.{InvestmentRecordRow}
use wealth_track.Analytics.{Numbers, amount, total, total_from}
use wealth_track.Analytics.Grouping.{group, accumulate}
use wealth_track.Analytics.Customers.{customer_key}
use wealth_track.Analytics.Managers.{TopCustomer, add_top}
use wealth_track.Analytics.Managers.Customers.{
  of_customer, customers_of, last_name, group-customers,
}

module _ (js : Numbers) where
  open js use {Num, of_count, plus}

  -- The sums of the customers.
  unfoldable pub tops_from :
      List (Text × TopCustomer Num) → List InvestmentRecordRow → List (Text × TopCustomer Num)
  unfolding add_top
  tops_from m [] = m
  tops_from m (r ∷ rs) = tops_from (add_top js r m) rs

  -- The customer of some records: the last name that they give, and their sum.
  abbrev pub top_of : List InvestmentRecordRow → Text → TopCustomer Num
  top_of own id = record {
    customer_name = last_name [] (filter (of_customer id) own);
    total_investment = total js (filter (of_customer id) own);
  }

  abbrev first_top : InvestmentRecordRow → TopCustomer Num
  first_top r = record { customer_name = r.customer_name; total_investment = of_count 0 }

  abbrev next_top : InvestmentRecordRow → TopCustomer Num → TopCustomer Num
  next_top r t = record {
    customer_name = r.customer_name;
    total_investment = plus t.total_investment (amount js r);
  }

  tops_from-group :
      (rs : List InvestmentRecordRow) (m : List (Text × TopCustomer Num))
      → tops_from m rs ≡ group customer_key first_top next_top rs m
  unfolding tops_from group add_top
  tops_from-group [] m = refl
  tops_from-group (r ∷ rs) m = elim (Option-cases (lookup r.customer_id m)) [
    | inl e ↦ rw (e) (tops_from-group rs (set r.customer_id (next_top r (first_top r)) m))
    | inr (t, e) ↦ rw (e) (tops_from-group rs (set r.customer_id (next_top r t) m))
  ]

  accumulate-tops :
      (t : TopCustomer Num) (rs : List InvestmentRecordRow)
      → accumulate customer_key first_top next_top (some t) rs
        ≡ some (record {
          customer_name = last_name t.customer_name rs;
          total_investment = total_from js t.total_investment rs;
        })
  unfolding accumulate last_name total_from
  accumulate-tops t [] = refl
  accumulate-tops t (r ∷ rs) = accumulate-tops (next_top r t) rs

  found_top :
      (t : TopCustomer Num) (rs : List InvestmentRecordRow)
      → accumulate customer_key first_top next_top none rs ≡ some t
      → record { customer_name = last_name [] rs; total_investment = total js rs } ≡ t
  unfolding accumulate last_name total_from
  found_top t [] h = ground arith
  found_top t (r ∷ rs) h = ground (arith, h, accumulate-tops (next_top r (first_top r)) rs)

  pub tops_from-eq :
      (rs : List InvestmentRecordRow)
      → tops_from [] rs ≡ map (λ id. (id, top_of rs id)) (customers_of rs)
  tops_from-eq rs =
      tops_from-group rs []
      ∙ group-customers first_top next_top (top_of rs) rs
          (λ k t h. found_top t (filter (of_customer k) rs) h)
