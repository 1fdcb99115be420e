-- ===== src/Analytics/Managers/Customers.antt =====
-- The customers of some records: the maps that `wealthManagers` fills by them, stated of the records.
use wealth_track.Prelude.{
  ◌≡◌, refl, sym, ap, ◌∙◌, Bool, List, [], ◌∷◌, ◌++◌, map, none, some, filter, arith, if◌then◌else◌,
}
use wealth_track.Prelude.Text.{Text, text_eq, text_eq_iff, text_eq_refl, includes}
use wealth_track.Prelude.Assoc.{lookup, set, LacksKey, HasDistinctKeys}
use wealth_track.Rows.{InvestmentRecordRow, CustomerType}
use wealth_track.Analytics.Grouping.{group, accumulate, lookup-group, group-HasDistinctKeys}
use wealth_track.Analytics.Customers.{customer_key}

abbrev pub of_customer : Text → InvestmentRecordRow → Bool
of_customer id r = text_eq r.customer_id id

-- The identifiers with one more at the end, unless it is among them.
unfoldable pub push : Text → List Text → List Text
push k ks = if includes ks k then ks else ks ++ k ∷ []

unfoldable pub push_all : List Text → List InvestmentRecordRow → List Text
unfolding push
push_all ks [] = ks
push_all ks (r ∷ rs) = push_all (push r.customer_id ks) rs

-- The different customers, in the order in which they first occur.
abbrev pub customers_of : List InvestmentRecordRow → List Text
customers_of = push_all []

-- The last type that the records give.
unfoldable pub last_type : CustomerType → List InvestmentRecordRow → CustomerType
last_type t [] = t
last_type t (r ∷ rs) = last_type r.customer_type rs

-- The last type that the records give the customer.
abbrev pub type_of : List InvestmentRecordRow → Text → CustomerType
type_of own id = last_type CustomerType.returning (filter (of_customer id) own)

unfoldable pub last_name : Text → List InvestmentRecordRow → Text
last_name name [] = name
last_name name (r ∷ rs) = last_name r.customer_name rs

module _ {V : Type 0} where
  abbrev keys : List (Text × V) → List Text
  keys = map (λ e. e.0)

  keys-set : (k : Text) (v : V) (m : List (Text × V)) → keys (set k v m) ≡ push k (keys m)
  unfolding set push
  keys-set k v [] = refl
  keys-set k v (e ∷ m) = ground (arith, keys-set k v m)

  lookup-apart :
      (j k : Text) (v w : V) (m : List (Text × V))
      → LacksKey j m
      → lookup k m ≡ some w
      → lookup k ((j, v) ∷ m) ≡ some w
  unfolding lookup
  lookup-apart j k v w [] l h = cc
  lookup-apart j k v w (e ∷ m) l h =
      ground (
        arith,
        lookup-apart j k v w m l.1,
        text_eq_iff (e.0) k,
        text_eq_iff j k,
        text_eq_iff (e.0) j,
      )

  -- A map is its keys with the values that are found under them.
  map-keys :
      (f : Text → V) (m : List (Text × V))
      → HasDistinctKeys m
      → ((k : Text) (v : V) → lookup k m ≡ some v → f k ≡ v)
      → m ≡ map (λ k. (k, f k)) (keys m)
  unfolding lookup
  map-keys f [] d h = refl
  map-keys f ((j, v) ∷ m) d h =
      ap (λ w. (j, w) ∷ m) (sym (h j v (rw (text_eq_refl j) refl)))
      ∙ ap (λ rest. (j, f j) ∷ rest)
          (map-keys f m d.1 (λ k w e. h k w (lookup-apart j k v w m d.0 e)))

  module _ (start : InvestmentRecordRow → V) (add : InvestmentRecordRow → V → V) where
    keys-group :
        (rs : List InvestmentRecordRow) (m : List (Text × V))
        → keys (group customer_key start add rs m) ≡ push_all (keys m) rs
    unfolding group push_all
    keys-group [] m = refl
    keys-group (r ∷ rs) m = keys-group rs _ ∙ ap (λ ks. push_all ks rs) (keys-set r.customer_id _ m)

    -- What the customers' records accumulate, under the customers in their order.
    pub group-customers :
        (f : Text → V) (rs : List InvestmentRecordRow)
        → ((k : Text) (v : V)
            → accumulate customer_key start add none (filter (of_customer k) rs) ≡ some v
            → f k ≡ v)
        → group customer_key start add rs [] ≡ map (λ k. (k, f k)) (customers_of rs)
    unfolding lookup
    group-customers f rs h =
        map-keys f (group customer_key start add rs [])
          (group-HasDistinctKeys customer_key start add rs [] tt)
          (λ k v e. h k v (sym (lookup-group customer_key start add k rs []) ∙ e))
        ∙ ap (map (λ k. (k, f k))) (keys-group rs [])
