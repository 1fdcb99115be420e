-- ===== src/Analytics/Managers/Maps.antt =====
-- The maps that `wealthManagers` fills by customer, one for the types and one for the sums, as the
-- customers in their order with what the records of each say.
use wealth_track.Prelude.{
  ◌≡◌, refl, ◌∙◌, Bool, true, ◌&&◌, ◌||◌, ◌++◌, List, [], ◌∷◌, map, none, some, All, filter, arith,
  Option-cases, inl, inr,
}
use wealth_track.Prelude.Text.{Text, text_eq, text_eq_iff, text_eq_refl, includes}
use wealth_track.Prelude.Assoc.{lookup, set}
use wealth_track.Rows.{InvestmentRecordRow, CustomerType}
use wealth_track.Analytics.Grouping.{group, accumulate}
use wealth_track.Analytics.Customers.{customer_key}
use wealth_track.Analytics.Managers.{ids_where}
use wealth_track.Analytics.Managers.Customers.{
  of_customer, push, push_all, customers_of, last_type, type_of, group-customers,
}

-- The last type that the records give each customer.
unfoldable pub types_from :
    List (Text × CustomerType) → List InvestmentRecordRow → List (Text × CustomerType)
types_from m [] = m
types_from m (r ∷ rs) = types_from (set r.customer_id r.customer_type m) rs

abbrev first_type : InvestmentRecordRow → CustomerType
first_type r = r.customer_type

abbrev next_type : InvestmentRecordRow → CustomerType → CustomerType
next_type r t = r.customer_type

types_from-group :
    (rs : List InvestmentRecordRow) (m : List (Text × CustomerType))
    → types_from m rs ≡ group customer_key first_type next_type rs m
unfolding types_from group
types_from-group [] m = refl
types_from-group (r ∷ rs) m = elim (Option-cases (lookup r.customer_id m)) [
  | inl e ↦ rw (e) (types_from-group rs (set r.customer_id r.customer_type m))
  | inr (t, e) ↦ rw (e) (types_from-group rs (set r.customer_id r.customer_type m))
]

accumulate-types :
    (t : CustomerType) (rs : List InvestmentRecordRow)
    → accumulate customer_key first_type next_type (some t) rs ≡ some (last_type t rs)
unfolding accumulate last_type
accumulate-types t [] = refl
accumulate-types t (r ∷ rs) = accumulate-types r.customer_type rs

found_type :
    (t : CustomerType) (rs : List InvestmentRecordRow)
    → accumulate customer_key first_type next_type none rs ≡ some t
    → last_type CustomerType.returning rs ≡ t
unfolding accumulate last_type
found_type t [] h = ground arith
found_type t (r ∷ rs) h = ground (arith, h, accumulate-types r.customer_type rs)

pub types_from-eq :
    (rs : List InvestmentRecordRow)
    → types_from [] rs ≡ map (λ id. (id, type_of rs id)) (customers_of rs)
types_from-eq rs =
    types_from-group rs []
    ∙ group-customers first_type next_type (type_of rs) rs
        (λ k t h. found_type t (filter (of_customer k) rs) h)

-- The number of the customers that some test holds of.
pub ids_where-map :
    (p : CustomerType → Bool) (f : Text → CustomerType) (ids : List Text)
    → ids_where p (map (λ id. (id, f id)) ids) ≡ filter (λ id. p (f id)) ids
unfolding ids_where
ids_where-map p f [] = refl
ids_where-map p f (id ∷ ids) = ground (arith, ids_where-map p f ids)

includes-++ :
    (k j : Text) (ks : List Text) → includes (ks ++ j ∷ []) k ≡ (includes ks k || text_eq j k)
includes-++ k j [] = ground arith
includes-++ k j (t ∷ ks) = ground (arith, includes-++ k j ks)

includes-push :
    (k j : Text) (ks : List Text) → includes (push j ks) k ≡ (includes ks k || text_eq j k)
unfolding push
includes-push k j ks = ground (arith, includes-++ k j ks, text_eq_iff j k)

includes-push_all :
    (k : Text) (rs : List InvestmentRecordRow) (ks : List Text)
    → includes ks k ≡ true
    → includes (push_all ks rs) k ≡ true
unfolding push_all
includes-push_all k [] ks h = h
includes-push_all k (r ∷ rs) ks h =
    includes-push_all k rs (push r.customer_id ks)
      (ground (arith, h, includes-push k r.customer_id ks))

All-includes :
    (rs : List InvestmentRecordRow) (ks : List Text)
    → All (λ r. includes (push_all ks rs) r.customer_id ≡ true) rs
unfolding push_all
All-includes [] ks = tt
All-includes (r ∷ rs) ks = (
  includes-push_all r.customer_id rs (push r.customer_id ks)
      (ground (arith, includes-push r.customer_id r.customer_id ks, text_eq_refl r.customer_id)),
  All-includes rs (push r.customer_id ks),
)

includes-filter :
    (p : Text → Bool) (ks : List Text) (k : Text)
    → includes (filter p ks) k ≡ (includes ks k && p k)
includes-filter p [] k = refl
includes-filter p (t ∷ ks) k = ground (arith, includes-filter p ks k, text_eq_iff t k)

filter-all :
    (p : Text → Bool) (ks : List Text) (rs : List InvestmentRecordRow)
    → All (λ r. includes ks r.customer_id ≡ true) rs
    → filter (λ r. includes (filter p ks) r.customer_id) rs ≡ filter (λ r. p r.customer_id) rs
filter-all p ks [] h = refl
filter-all p ks (r ∷ rs) h =
    ground (arith, filter-all p ks rs h.1, includes-filter p ks r.customer_id, h.0)

pub filter-&& :
    {A : Type 0}
    → (p q : A → Bool) (xs : List A) → filter (λ x. p x && q x) xs ≡ filter q (filter p xs)
filter-&& p q [] = refl
filter-&& p q (x ∷ xs) = ground (arith, filter-&& p q xs)

-- The records of the customers of some kind are those whose customer is of the kind.
pub filter-customers :
    (p : Text → Bool) (rs : List InvestmentRecordRow)
    → filter (λ r. includes (filter p (customers_of rs)) r.customer_id) rs
      ≡ filter (λ r. p r.customer_id) rs
filter-customers p rs = filter-all p (customers_of rs) rs (All-includes rs [])
