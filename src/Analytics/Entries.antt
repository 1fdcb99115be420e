-- ===== src/Analytics/Entries.antt =====
-- The list that a `Map` ends as, `Array.from(map.entries()).sort(…).map(…)`: one item for each key.
use wealth_track.Prelude.{
  ◌≡◌, refl, ◌∙◌, ap, Bool, true, false, List, [], ◌∷◌, map, Option, none, some, filter,
  if◌then◌else◌, Bool-cases, inl, inr,
}
use mathlib.Core.Path.{subst}
use wealth_track.Prelude.Text.{Text, text_eq, text_eq_iff, text_eq_refl}
use wealth_track.Prelude.Assoc.{lookup, LacksKey, HasDistinctKeys}
use wealth_track.Analytics.Grouping.{group, accumulate, of_key, lookup-group, group-HasDistinctKeys}
use wealth_track.Analytics.Sorting.{sort, lookup-sort, sort-HasDistinctKeys}

module _ {V X : Type 0} (make : Text × V → X) where
  -- The items that a key has.
  abbrev pub items_of : Text → Option V → List X
  items_of k none = []
  items_of k (some v) = make (k, v) ∷ []

  pub items_of-if :
      (k : Text) (b : Bool) (o : Option V)
      → items_of k (if b then o else none) ≡ (if b then items_of k o else [])
  items_of-if k true o = refl
  items_of-if k false o = refl

  module _ (name : X → Text) (named : (e : Text × V) → name (make e) ≡ e.0) where
    abbrev is_named : Text → X → Bool
    is_named k x = text_eq (name x) k

    filter-map-LacksKey :
        (k : Text) (m : List (Text × V)) → LacksKey k m → filter (is_named k) (map make m) ≡ []
    filter-map-LacksKey k [] h = refl
    filter-map-LacksKey k (e ∷ m) h = rw (named e, h.0) (filter-map-LacksKey k m h.1)

    filter-own_item :
        (e : Text × V) (m : List (Text × V))
        → LacksKey (e.0) m
        → filter (is_named (e.0)) (make e ∷ map make m) ≡ make e ∷ []
    filter-own_item e m h = rw (named e, text_eq_refl (e.0), filter-map-LacksKey (e.0) m h) refl

    filter-map :
        (k : Text) (m : List (Text × V))
        → HasDistinctKeys m
        → filter (is_named k) (map make m) ≡ items_of k (lookup k m)
    unfolding lookup
    filter-map k [] h = refl
    filter-map k (e ∷ m) h = elim (Bool-cases (text_eq (e.0) k)) [
      | inl same ↦ rw same (
          subst (λ j. filter (is_named j) (make e ∷ map make m) ≡ make (j, e.1) ∷ [])
            ((text_eq_iff (e.0) k).0 same) (filter-own_item e m h.0))
      | inr other ↦ rw (named e, other) (filter-map k m h.1)
    ]

    pub filter-map-sort :
        (precedes : Text × V → Text × V → Bool) (k : Text) (m : List (Text × V))
        → HasDistinctKeys m
        → filter (is_named k) (map make (sort precedes m)) ≡ items_of k (lookup k m)
    filter-map-sort precedes k m h =
        filter-map k (sort precedes m) (sort-HasDistinctKeys precedes m h)
        ∙ ap (items_of k) (lookup-sort precedes k m h)

    pub filter-map-sort-group :
        {R : Type 0} (key : R → Option Text) (start : R → V) (add : R → V → V)
        (precedes : Text × V → Text × V → Bool) (rs : List R) (k : Text)
        → filter (is_named k) (map make (sort precedes (group key start add rs [])))
          ≡ items_of k (accumulate key start add none (filter (of_key key start add k) rs))
    unfolding lookup
    filter-map-sort-group key start add precedes rs k =
        filter-map-sort precedes k (group key start add rs [])
          (group-HasDistinctKeys key start add rs [] tt)
        ∙ ap (items_of k) (lookup-group key start add k rs [])
