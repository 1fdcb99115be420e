-- ===== src/Analytics/Grouping.antt =====
-- The loops of analytics.service.ts that fill a `Map`: each record is added to the entry of its key.
use wealth_track.Prelude.{
  ◌≡◌, refl, Bool, true, false, List, [], ◌∷◌, Option, none, some, or_else, filter, arith,
  Bool-cases, inl, inr,
}
use wealth_track.Prelude.Text.{Text, text_eq, text_eq_iff}
use wealth_track.Prelude.Assoc.{
  lookup, set, HasDistinctKeys, lookup-set_self, lookup-set_ne, set-HasDistinctKeys,
}

-- Whether a record is of the key; a record without a key is skipped (`continue`).
abbrev pub has_key : Option Text → Text → Bool
has_key none k = false
has_key (some j) k = text_eq j k

module _ {R V : Type 0} (key : R → Option Text) (start : R → V) (add : R → V → V) where
  -- `const e = map.get(key) ?? start; add(record, e); map.set(key, e)`
  abbrev entry : R → Option V → V
  entry r old = add r (or_else old (start r))

  abbrev pub add_to_group : Option Text → R → List (Text × V) → List (Text × V)
  add_to_group none r m = m
  add_to_group (some k) r m = set k (entry r (lookup k m)) m

  unfoldable pub group : List R → List (Text × V) → List (Text × V)
  group [] m = m
  group (r ∷ rs) m = group rs (add_to_group (key r) r m)

  -- What the records of one key make of its entry.
  unfoldable pub accumulate : Option V → List R → Option V
  accumulate old [] = old
  accumulate old (r ∷ rs) = accumulate (some (entry r old)) rs

  abbrev pub of_key : Text → R → Bool
  of_key k r = has_key (key r) k

  lookup-add_to_group :
      (k : Text) (r : R) (j : Option Text) (m : List (Text × V))
      → lookup k (add_to_group j r m)
        ≡ (elim (has_key j k) [ true ↦ some (entry r (lookup k m)) | false ↦ lookup k m ])
  lookup-add_to_group k r none m = refl
  lookup-add_to_group k r (some j) m = elim (Bool-cases (text_eq j k)) [
    | inl e ↦ ground (arith, text_eq_iff j k, lookup-set_self j (entry r (lookup j m)) m)
    | inr e ↦ rw e (lookup-set_ne j k _ m e)
  ]

  -- The loop refines a function from keys: at every key stands what the records of that key
  -- accumulate, whatever the records of other keys in between.
  pub lookup-group :
      (k : Text) (rs : List R) (m : List (Text × V))
      → lookup k (group rs m) ≡ accumulate (lookup k m) (filter (of_key k) rs)
  unfolding group accumulate
  lookup-group k [] m = refl
  lookup-group k (r ∷ rs) m =
      ground
        (arith, lookup-group k rs (add_to_group (key r) r m), lookup-add_to_group k r (key r) m)

  add_to_group-HasDistinctKeys :
      (j : Option Text) (r : R) (m : List (Text × V))
      → HasDistinctKeys m
      → HasDistinctKeys (add_to_group j r m)
  add_to_group-HasDistinctKeys none r m h = h
  add_to_group-HasDistinctKeys (some j) r m h = set-HasDistinctKeys j _ m h

  pub group-HasDistinctKeys :
      (rs : List R) (m : List (Text × V)) → HasDistinctKeys m → HasDistinctKeys (group rs m)
  unfolding group
  group-HasDistinctKeys [] m h = h
  group-HasDistinctKeys (r ∷ rs) m h =
      group-HasDistinctKeys rs _ (add_to_group-HasDistinctKeys (key r) r m h)
