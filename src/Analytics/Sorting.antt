-- ===== src/Analytics/Sorting.antt =====
-- `Array.from(map.entries()).sort(compare)`: the sort is stable, and keeps every entry.
use wealth_track.Prelude.{
  ◌+◌, ◌≡◌, refl, ◌∙◌, Bool, false, List, [], ◌∷◌, arith, if◌then◌else◌, length, All,
}
use wealth_track.Prelude.Text.{Text, text_eq, text_eq_iff, text_eq_comm}
use wealth_track.Prelude.Assoc.{lookup, LacksKey, HasDistinctKeys}

-- `precedes a b` says that `compare(a, b) <= 0`.
module _ {A : Type 0} (precedes : A → A → Bool) where
  unfoldable pub insert_sorted : A → List A → List A
  insert_sorted a [] = a ∷ []
  insert_sorted a (x ∷ xs) =
      let rest = insert_sorted a xs in if precedes a x then a ∷ x ∷ xs else x ∷ rest

  unfoldable pub sort : List A → List A
  unfolding insert_sorted
  sort [] = []
  sort (x ∷ xs) = insert_sorted x (sort xs)

  insert_sorted-All {κ} :
      (P : A → Type κ) (a : A) (xs : List A) → P a → All P xs → All P (insert_sorted a xs)
  unfolding insert_sorted
  insert_sorted-All P a [] p h = (p, tt)
  insert_sorted-All P a (x ∷ xs) p h = ground (arith, insert_sorted-All P a xs p h.1)

  pub sort-All {κ} : (P : A → Type κ) (xs : List A) → All P xs → All P (sort xs)
  unfolding sort
  sort-All P [] h = tt
  sort-All P (x ∷ xs) h = insert_sorted-All P x (sort xs) h.0 (sort-All P xs h.1)

  length-insert_sorted : (a : A) (xs : List A) → length (insert_sorted a xs) ≡ 1 + length xs
  unfolding insert_sorted
  length-insert_sorted a [] = refl
  length-insert_sorted a (x ∷ xs) = ground (arith, length-insert_sorted a xs)

  pub length-sort : (xs : List A) → length (sort xs) ≡ length xs
  unfolding sort
  length-sort [] = refl
  length-sort (x ∷ xs) = omega (arith, length-insert_sorted x (sort xs), length-sort xs)

module _ {V : Type 0} (precedes : Text × V → Text × V → Bool) where
  lookup-insert_sorted :
      (k : Text) (e : Text × V) (m : List (Text × V))
      → LacksKey (e.0) m
      → lookup k (insert_sorted precedes e m) ≡ lookup k (e ∷ m)
  unfolding lookup insert_sorted
  lookup-insert_sorted k e [] h = refl
  lookup-insert_sorted k e (x ∷ m) h = ground (
    arith,
    lookup-insert_sorted k e m h.1,
    text_eq_iff (x.0) k,
    text_eq_iff (e.0) k,
    text_eq_iff (x.0) (e.0),
  )

  -- Sorting the entries of a map moves them, and each key keeps its value.
  pub lookup-sort :
      (k : Text) (m : List (Text × V)) → HasDistinctKeys m → lookup k (sort precedes m) ≡ lookup k m
  unfolding lookup sort
  lookup-sort k [] h = refl
  lookup-sort k (e ∷ m) h =
      lookup-insert_sorted k e (sort precedes m) (sort-All precedes _ m h.0)
      ∙ (ground (arith, lookup-sort k m h.1))

  insert_sorted-HasDistinctKeys :
      (e : Text × V) (m : List (Text × V))
      → LacksKey (e.0) m
      → HasDistinctKeys m
      → HasDistinctKeys (insert_sorted precedes e m)
  unfolding insert_sorted
  insert_sorted-HasDistinctKeys e [] l h = (tt, tt)
  insert_sorted-HasDistinctKeys e (x ∷ m) l h = ground (
    arith,
    insert_sorted-HasDistinctKeys e m l.1 h.1,
    insert_sorted-All precedes (λ y. text_eq (y.0) (x.0) ≡ false) e m,
    text_eq_comm (x.0) (e.0),
  )

  pub sort-HasDistinctKeys :
      (m : List (Text × V)) → HasDistinctKeys m → HasDistinctKeys (sort precedes m)
  unfolding sort
  sort-HasDistinctKeys [] h = tt
  sort-HasDistinctKeys (e ∷ m) h =
      insert_sorted-HasDistinctKeys e (sort precedes m) (sort-All precedes _ m h.0)
        (sort-HasDistinctKeys m h.1)
