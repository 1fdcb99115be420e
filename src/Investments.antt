-- ===== src/Investments.antt =====
-- apps/api/src/modules/investments/investments.service.ts with its policy, and the queries of
-- repositories/mysql-investments.repository.ts that it sends: the ledger, the history of a customer
-- and the deletion of records.
pub mod Deletion
use wealth_track.Prelude.{
  ℕ, ◌+◌, ◌-◌, ◌*◌, ◌/◌, Bool, true, false, not, ◌&&◌, ◌||◌, List, [], ◌∷◌, Option, none, some,
  filter, length, map, if◌then◌else◌,
}
use wealth_track.Prelude.Text.{Text, codes, includes, is_empty, trim}
use wealth_track.Prelude.Action.{Action, ok, forbidden, pure, gets, throw_if, ◌>>=◌, ◌>>◌}
use wealth_track.Rows.{
  ActorType, InvestmentRecordRow, CustomerType, FundType, ImportStatus, TenorCategory,
}
use wealth_track.Store.{Store}
use wealth_track.Import.{truthy}
use wealth_track.Actor.{AuthenticatedActor, assert_permitted}
use wealth_track.Analytics.{
  Numbers, Sql, total, is_valid, is_confirmed, same_type, is_inflow, is_rollover, where_set,
}
use wealth_track.Analytics.Sorting.{sort}
use wealth_track.Analytics.Customers.{slice, take}

-- `InvestmentFilters`, with undefined as none; the two statuses are compared as strings.
pub record InvestmentFilters : Type 0 where
  pub q : Option Text
  pub customer_type : Option CustomerType
  pub fund_type : Option FundType
  pub import_status : Option Text
  pub tenor_category : Option Text
  pub from : Option Text
  pub to : Option Text

-- What MySQL compares, beside `Sql`: `=` between strings, the two statuses as strings, and
-- `ORDER BY mobilisation_date DESC, id ASC` and `ORDER BY mobilisation_date DESC`.
pub record Ledger : Type 0 where
  pub sql : Sql
  pub same : Text → Text → Bool
  pub import_text : ImportStatus → Text
  pub tenor_text : TenorCategory → Text
  pub newest_by_id : InvestmentRecordRow → InvestmentRecordRow → Bool
  pub newest : InvestmentRecordRow → InvestmentRecordRow → Bool

pub record LedgerReply (Num : Type 0) : Type 0 where
  pub items : List InvestmentRecordRow
  pub page : ℕ
  pub page_size : ℕ
  pub total_items : ℕ
  pub total_pages : ℕ
  pub record_count : ℕ
  pub total_investment : Num
  pub confirmed_valid_count : ℕ

pub record HistoryReply : Type 0 where
  pub customer_id : Text
  pub items : List InvestmentRecordRow
  pub count : ℕ
  pub confirmed_valid_count : ℕ

-- The number of records that were deleted, and of the customers, where some were named.
pub data DeleteReply : Type 0 where
  nothing_named : DeleteReply
  deleted : ℕ → DeleteReply
  deleted_of_customers : ℕ → ℕ → DeleteReply

abbrev same_fund : FundType → FundType → Bool
same_fund FundType.inflow t = is_inflow t
same_fund FundType.rollover t = is_rollover t

unfoldable pub is_confirmed_valid : InvestmentRecordRow → Bool
unfolding is_valid is_confirmed
is_confirmed_valid r = is_valid r.record_status && is_confirmed r.import_status

-- `column LIKE ?`, which NULL is not.
abbrev like_column : Sql → Text → Option Text → Bool
like_column sql q column = elim column [ none ↦ false | some text ↦ sql.like text q ]

module _ (ledger : Ledger) (filters : InvestmentFilters) where
  matches_query : InvestmentRecordRow → Text → Bool
  matches_query r q =
      ledger.sql.like r.customer_name q
      || (ledger.sql.like r.customer_id q
          || (like_column ledger.sql q r.investment_reference
              || like_column ledger.sql q r.relationship_manager))

  -- `buildInvestmentWhere`
  unfoldable pub is_listed : InvestmentRecordRow → Bool
  unfolding matches_query truthy same_type is_inflow is_rollover
  is_listed r =
      where_set (truthy filters.q) (matches_query r)
      && (where_set filters.customer_type (same_type r.customer_type)
          && (where_set filters.fund_type (same_fund r.fund_type)
              && (where_set (truthy filters.import_status)
                    (ledger.same (ledger.import_text r.import_status))
                  && (where_set (truthy filters.tenor_category)
                        (ledger.same (ledger.tenor_text r.tenor_category))
                      && (where_set (truthy filters.from)
                            (ledger.sql.not_before r.mobilisation_date)
                          && where_set (truthy filters.to)
                              (λ to. ledger.sql.not_before to r.mobilisation_date))))))

-- `if (actor?.actorType !== 'admin') throw …`
unfoldable pub is_admin : Option AuthenticatedActor → Bool
is_admin none = false
is_admin (some actor) = elim actor.actor_type [ ActorType.admin ↦ true | _ ↦ false ]

-- `Array.from(new Set(ids))`: each string where it first stands.
unfoldable pub distinct : List Text → List Text → List Text
distinct seen [] = []
distinct seen (t ∷ ts) =
    let rest = distinct seen ts in
    let new = distinct (t ∷ seen) ts in if includes seen t then rest else t ∷ new

unfoldable pub trimmed : List Text → List Text
unfolding trim
trimmed = map trim

-- Whether `column IN (texts)`
abbrev pub in_texts : Ledger → List Text → Text → Bool
in_texts ledger [] column = false
in_texts ledger (t ∷ ts) column = ledger.same column t || in_texts ledger ts column

module _ (js : Numbers) (ledger : Ledger) (actor : Option AuthenticatedActor) where
  unfoldable pub list : ℕ → ℕ → InvestmentFilters → Action Store (LedgerReply js.Num)
  unfolding is_listed is_confirmed_valid
  list page page_size filters = do
    assert_permitted actor (codes "dashboard.investments.read")
        "dashboard.investments.read is required"
    listed ← gets (λ s. filter (is_listed ledger filters) s.investments)
    let items = slice ((page - 1) * page_size) page_size (sort ledger.newest_by_id listed)
    pure (record {
      items = items;
      page = page;
      page_size = page_size;
      total_items = length listed;
      total_pages = (length listed + (page_size - 1)) / page_size;
      record_count = length items;
      total_investment = total js items;
      confirmed_valid_count = length (filter is_confirmed_valid items);
    })

  unfoldable pub delete_where : (InvestmentRecordRow → Bool) → Action Store ℕ
  delete_where p s = (
    ok (length (filter p s.investments)),
    record s { investments = filter (λ r. not (p r)) s.investments },
  )

  unfoldable pub assert_admin : Action Store (Unit {0})
  unfolding is_admin
  assert_admin =
      throw_if (not (is_admin actor))
        (forbidden "Admin role is required to delete investment records")

  delete_named : List Text → Action Store DeleteReply
  unfolding delete_where
  delete_named [] s = (ok nothing_named, s)
  delete_named (id ∷ ids) s =
      (delete_where (λ r. in_texts ledger (id ∷ ids) r.id) >>= λ n. pure (deleted n)) s

  unfoldable pub bulk_delete_by_ids : List Text → Action Store DeleteReply
  unfolding assert_admin delete_named
  bulk_delete_by_ids ids = do assert_admin; delete_named ids

  -- `Array.from(new Set(ids.map((id) => String(id).trim()).filter(Boolean)))`
  unfoldable pub unique_ids : List Text → List Text
  unfolding distinct trimmed
  unique_ids ids = distinct [] (filter (λ t. not (is_empty t)) (trimmed ids))

  unfoldable pub delete_customers : List Text → Action Store DeleteReply
  unfolding delete_where
  delete_customers [] s = (ok nothing_named, s)
  delete_customers (id ∷ ids) s =
      (delete_where (λ r. in_texts ledger (id ∷ ids) r.customer_id) >>= λ n.
      pure (deleted_of_customers n (length (id ∷ ids))))
        s

  unfoldable pub bulk_delete_by_customer_ids : List Text → Action Store DeleteReply
  unfolding assert_admin delete_customers unique_ids
  bulk_delete_by_customer_ids ids = do assert_admin; delete_customers (unique_ids ids)

  -- `findByCustomerId` without a cursor returns at most 50 records.
  unfoldable pub customer_history : Text → Action Store HistoryReply
  unfolding is_confirmed_valid
  customer_history customer_id = do
    assert_permitted actor (codes "dashboard.customers.read") "dashboard.customers.read is required"
    all_records ← gets (λ s. filter (λ r. ledger.same r.customer_id customer_id) s.investments)
    let items = take 50 (sort ledger.newest all_records)
    pure (record {
      customer_id = customer_id;
      items = items;
      count = length items;
      confirmed_valid_count = length (filter is_confirmed_valid items);
    })
