-- ===== src/Processing/Insertion.antt =====
-- The INSERTs of a list of rows, one after the other.
use wealth_track.Prelude.{
  ◌≡◌, refl, sym, Bool, true, false, List, [], ◌∷◌, ◌++◌, arith, All, filter, append-nil,
  append_assoc,
}
use wealth_track.Prelude.Action.{ok}
use wealth_track.Store.Laws.{filter-append}
use wealth_track.Processing.{insert_all}

module _ {A : Type 0} (accepts : A → Bool) where
  pub insert_all-ok :
      (rs table : List A) (u : Unit {0})
      → (insert_all accepts rs table).0 ≡ ok u
      → (insert_all accepts rs table).1 ≡ table ++ rs
  unfolding insert_all
  insert_all-ok [] table u h = sym (append-nil table)
  insert_all-ok (r ∷ rs) table u h =
      ground (arith, insert_all-ok rs (table ++ r ∷ []) u, append_assoc table (r ∷ []) rs)

  pub insert_all-accepted :
      (rs table : List A) → All (λ r. accepts r ≡ true) rs → (insert_all accepts rs table).0 ≡ ok tt
  unfolding insert_all
  insert_all-accepted [] table h = refl
  insert_all-accepted (r ∷ rs) table h = rw (h.0) (insert_all-accepted rs (table ++ r ∷ []) h.1)

  -- Rows that the query does not select leave its result as it is, however many are inserted.
  pub insert_all-filter :
      (p : A → Bool) (rs table : List A)
      → All (λ r. p r ≡ false) rs
      → filter p (insert_all accepts rs table).1 ≡ filter p table
  unfolding insert_all
  insert_all-filter p [] table h = refl
  insert_all-filter p (r ∷ rs) table h = ground (
    arith,
    insert_all-filter p rs (table ++ r ∷ []) h.1,
    filter-append p table (r ∷ []),
    append-nil (filter p table),
  )
