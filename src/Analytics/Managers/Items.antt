-- ===== src/Analytics/Managers/Items.antt =====
-- What the list of relationship managers says of a manager is what the manager's records say.
use wealth_track.Prelude.{
  ◌+◌, ◌≡◌, refl, ◌∙◌, ap, Bool, not, List, [], ◌∷◌, map, Option, none, some, filter, length, ltb,
  arith, if◌then◌else◌,
}
use wealth_track.Prelude.Text.{Text, text_eq, includes}
use wealth_track.Prelude.Assoc.{lookup, filter-HasDistinctKeys, lookup-filter}
use wealth_track.Rows.{InvestmentRecordRow, CustomerType}
use wealth_track.Analytics.{Numbers, total, total_from, is_new, is_returning}
use wealth_track.Analytics.Tally.{total_from-filter, length-filter_cons}
use wealth_track.Analytics.Breakdown.{of_inflow, of_rollover}
use wealth_track.Analytics.Aging.{
  empty_aging_buckets, accumulate_all, all_with_records, accumulate_all-eq,
}
use wealth_track.Analytics.Grouping.{accumulate, lookup-group, group-HasDistinctKeys}
use wealth_track.Analytics.Sorting.{sort}
use wealth_track.Analytics.Customers.{take}
use wealth_track.Analytics.Entries.{items_of, items_of-if, filter-map-sort}
use wealth_track.Analytics.Managers.{
  ManagerAcc, ManagerItem, manager_of, manager_key, has_cost, empty_manager, add_cost,
  add_to_manager, ids_where, value_of_customers, to_manager_item, is_asked_for, by_manager,
  manager_items,
}
use wealth_track.Analytics.Managers.Customers.{customers_of, type_of}
use wealth_track.Analytics.Managers.Maps.{
  types_from, types_from-eq, ids_where-map, filter-&&, filter-customers,
}
use wealth_track.Analytics.Managers.Tops.{tops_from, top_of, tops_from-eq}

abbrev pub of_manager : Text → InvestmentRecordRow → Bool
of_manager manager r = text_eq (manager_of r) manager

-- Whether the customer of a record is of a type by the last of the customer's own records.
abbrev of_type : (CustomerType → Bool) → List InvestmentRecordRow → InvestmentRecordRow → Bool
of_type p own r = p (type_of own r.customer_id)

module _ (js : Numbers) where
  open js use {Num, of_count, over, greater}

  unfoldable pub costs_from : Num → List InvestmentRecordRow → Num
  unfolding add_cost
  costs_from s [] = s
  costs_from s (r ∷ rs) = costs_from (add_cost js r s) rs

  -- An entry with more records.
  abbrev grown : ManagerAcc Num → List InvestmentRecordRow → ManagerAcc Num
  grown acc rs = record {
    investment_account_count = acc.investment_account_count + length rs;
    total_investment = total_from js acc.total_investment rs;
    customers = types_from acc.customers rs;
    inflow_value = total_from js acc.inflow_value (filter of_inflow rs);
    rollover_value = total_from js acc.rollover_value (filter of_rollover rs);
    cost_of_funds_sum = costs_from acc.cost_of_funds_sum rs;
    cost_of_funds_count = acc.cost_of_funds_count + length (filter has_cost rs);
    funds_aging = accumulate_all js acc.funds_aging rs;
    top_customers_map = tops_from js acc.top_customers_map rs;
  }

  -- The item of a manager, stated of the manager's own records.
  abbrev pub manager_item_of : Text → List InvestmentRecordRow → List (ManagerItem Num)
  manager_item_of manager [] = []
  manager_item_of manager (r ∷ rs) =
      let own = r ∷ rs in
      let ids = customers_of own in
      record {
        relationship_manager = manager;
        investment_account_count = length own;
        total_investment = total js own;
        customer_count = length ids;
        new_customer_count = length (filter (λ (id : Text). is_new (type_of own id)) ids);
        new_customer_value = total js (filter (of_type is_new own) own);
        returning_customer_count =
            length (filter (λ (id : Text). is_returning (type_of own id)) ids);
        returning_customer_value = total js (filter (of_type is_returning own) own);
        inflow_value = total js (filter of_inflow own);
        rollover_value = total js (filter of_rollover own);
        average_investment_per_customer =
            if ltb 0 (length ids) then over (total js own) (of_count (length ids)) else of_count 0;
        funds_aging = all_with_records js (empty_aging_buckets js) own;
        top_customers = take 5 (
            sort (λ a b. not (greater (b.1).total_investment (a.1).total_investment))
              (map (λ (id : Text). (id, top_of js own id)) ids));
      }
      ∷ []

  grown-cons :
      (acc : ManagerAcc Num) (r : InvestmentRecordRow) (rs : List InvestmentRecordRow)
      → grown (add_to_manager js r acc) rs ≡ grown acc (r ∷ rs)
  unfolding total_from types_from tops_from costs_from accumulate_all
  grown-cons acc r rs =
      rw
        (
          total_from-filter js of_inflow acc.inflow_value r rs,
          total_from-filter js of_rollover acc.rollover_value r rs,
          length-filter_cons has_cost acc.cost_of_funds_count r rs,
        )
        (ground arith)

  accumulate-manager :
      (acc : ManagerAcc Num) (rs : List InvestmentRecordRow)
      → accumulate manager_key (empty_manager js) (add_to_manager js) (some acc) rs
        ≡ some (grown acc rs)
  unfolding accumulate total_from types_from tops_from costs_from accumulate_all
  accumulate-manager acc [] = ground arith
  accumulate-manager acc (r ∷ rs) =
      accumulate-manager (add_to_manager js r acc) rs ∙ ap some (grown-cons acc r rs)

  length-map : {A B : Type 0} → (f : A → B) (xs : List A) → length (map f xs) ≡ length xs
  length-map f [] = refl
  length-map f (x ∷ xs) = ground (arith, length-map f xs)

  value_of_customers-eq :
      (investments : List InvestmentRecordRow) (manager : Text) (p : CustomerType → Bool)
      (own : List InvestmentRecordRow)
      → filter (of_manager manager) investments ≡ own
      → value_of_customers js investments manager (ids_where p (types_from [] own))
        ≡ total js (filter (of_type p own) own)
  value_of_customers-eq investments manager p own h = ap (total js) (
      filter-&& (of_manager manager) (λ r. includes (ids_where p (types_from [] own)) r.customer_id)
        investments
      ∙ ap (filter (λ r. includes (ids_where p (types_from [] own)) r.customer_id)) h
      ∙ ap (λ ids. filter (λ r. includes ids r.customer_id) own)
          (ap (ids_where p) (types_from-eq own) ∙ ids_where-map p (type_of own) (customers_of own))
      ∙ filter-customers (λ id. p (type_of own id)) own)

  to_manager_item-eq :
      (investments : List InvestmentRecordRow) (manager : Text) (r : InvestmentRecordRow)
      (rs : List InvestmentRecordRow)
      → filter (of_manager manager) investments ≡ r ∷ rs
      → to_manager_item js investments (manager, grown (empty_manager js r) (r ∷ rs)) ∷ []
        ≡ manager_item_of manager (r ∷ rs)
  unfolding to_manager_item
  to_manager_item-eq investments manager r rs h =
      rw
        (
          value_of_customers-eq investments manager is_new (r ∷ rs) h,
          value_of_customers-eq investments manager is_returning (r ∷ rs) h,
          types_from-eq (r ∷ rs),
          tops_from-eq js (r ∷ rs),
          accumulate_all-eq js (empty_aging_buckets js) (r ∷ rs),
          ids_where-map is_new (type_of (r ∷ rs)) (customers_of (r ∷ rs)),
          ids_where-map is_returning (type_of (r ∷ rs)) (customers_of (r ∷ rs)),
          length-map {B = Text × CustomerType} (λ id. (id, type_of (r ∷ rs) id))
              (customers_of (r ∷ rs)),
        )
        (ground arith)

  items-accumulate :
      (investments : List InvestmentRecordRow) (manager : Text) (rs : List InvestmentRecordRow)
      → filter (of_manager manager) investments ≡ rs
      → items_of
          (to_manager_item js investments)
          manager
          (accumulate manager_key (empty_manager js) (add_to_manager js) none rs)
        ≡ manager_item_of manager rs
  unfolding accumulate
  items-accumulate investments manager [] h = refl
  items-accumulate investments manager (r ∷ rs) h =
      ap (items_of (to_manager_item js investments) manager) (
        accumulate-manager (add_to_manager js r (empty_manager js r)) rs
        ∙ ap some (grown-cons (empty_manager js r) r rs))
      ∙ to_manager_item-eq investments manager r rs h

  -- In the list of managers, a manager whose name holds the text that is asked for, or any where none
  -- is, stands exactly once if some investment names the manager, and no other manager does. The item
  -- is made of the manager's own investments and of no others: their number and sum, the sums of the
  -- inflows and of the rollovers, their aging, the number of their different customers, the average,
  -- how many of these customers are new and how many are returning by the last of the customer's own
  -- records with the manager, the sums of all records of the new and of the returning ones, and the
  -- first five of the customers in the order of their own sums.
  pub filter-manager_items :
      (q : Option Text) (investments : List InvestmentRecordRow) (manager : Text)
      → filter (λ x. text_eq x.relationship_manager manager) (manager_items js q investments) ≡ (
          if is_asked_for js q manager
          then manager_item_of manager (filter (of_manager manager) investments)
          else [])
  unfolding manager_items to_manager_item lookup
  filter-manager_items q investments manager =
      filter-map-sort (to_manager_item js investments) (λ x. x.relationship_manager) (λ e. refl) _
        manager (filter (λ e. is_asked_for js q (e.0)) (by_manager js investments))
        (filter-HasDistinctKeys _ (by_manager js investments) (
          group-HasDistinctKeys manager_key (empty_manager js) (add_to_manager js) investments []
            tt))
      ∙ ap (items_of (to_manager_item js investments) manager) (
          lookup-filter (is_asked_for js q) manager (by_manager js investments)
          ∙ ap (λ o. if is_asked_for js q manager then o else none)
              (lookup-group manager_key (empty_manager js) (add_to_manager js) manager investments
                []))
      ∙ items_of-if (to_manager_item js investments) manager (is_asked_for js q manager) _
      ∙ ap (λ x. if is_asked_for js q manager then x else [])
          (items-accumulate investments manager (filter (of_manager manager) investments) refl)
