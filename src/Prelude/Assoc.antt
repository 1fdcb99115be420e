-- ===== src/Prelude/Assoc.antt =====
-- JavaScript's `Map` with strings for keys: its entries in the order in which the keys were first set.
use wealth_track.Prelude.Tests.{if◌then◌else◌}
use wealth_track.Prelude.Text.{Text, text_eq, text_eq_iff, text_eq_refl}
use wealth_track.Prelude.Lists.{All, filter}
use mathlib.Core.Path.{◌≡◌, refl, ap}
use mathlib.Core.Bool.{Bool, true, false}
use mathlib.Core.List.{List, [], ◌∷◌}
use mathlib.Core.Option.{Option, none, some}
use native.Mathlib.Omega.{arith}

module _ {V : Type 0} where
  -- `map.get(k)`
  unfoldable pub lookup : Text → List (Text × V) → Option V
  lookup k [] = none
  lookup k (e ∷ m) = let rest = lookup k m in if text_eq (e.0) k then some (e.1) else rest

  -- `map.set(k, v)`
  unfoldable pub set : Text → V → List (Text × V) → List (Text × V)
  set k v [] = (k, v) ∷ []
  set k v (e ∷ m) = let rest = set k v m in if text_eq (e.0) k then (e.0, v) ∷ m else e ∷ rest

  -- No entry has the key.
  abbrev pub LacksKey : Text → List (Text × V) → Type 0
  LacksKey k = All (λ e. text_eq (e.0) k ≡ false)

  abbrev pub HasDistinctKeys : List (Text × V) → Type 0
  HasDistinctKeys [] = Unit
  HasDistinctKeys (e ∷ m) = LacksKey (e.0) m × HasDistinctKeys m

  pub lookup-set_self : (k : Text) (v : V) (m : List (Text × V)) → lookup k (set k v m) ≡ some v
  unfolding lookup set
  lookup-set_self k v [] = rw (text_eq_refl k)
  lookup-set_self k v (e ∷ m) = ground (arith, lookup-set_self k v m)

  pub lookup-set_ne :
      (j k : Text) (v : V) (m : List (Text × V))
      → text_eq j k ≡ false
      → lookup k (set j v m) ≡ lookup k m
  unfolding lookup set
  lookup-set_ne j k v [] h = rw h
  lookup-set_ne j k v (e ∷ m) h =
      ground
        (arith, lookup-set_ne j k v m h, text_eq_iff (e.0) j, text_eq_iff (e.0) k, text_eq_iff j k)

  set-LacksKey :
      (j k : Text) (v : V) (m : List (Text × V))
      → text_eq k j ≡ false
      → LacksKey j m
      → LacksKey j (set k v m)
  unfolding set
  set-LacksKey j k v [] h l = (h, tt)
  set-LacksKey j k v (e ∷ m) h l = ground (arith, set-LacksKey j k v m h l.1)

  pub set-HasDistinctKeys :
      (k : Text) (v : V) (m : List (Text × V)) → HasDistinctKeys m → HasDistinctKeys (set k v m)
  unfolding set
  set-HasDistinctKeys k v [] h = (tt, tt)
  set-HasDistinctKeys k v (e ∷ m) h = ground (
    arith,
    set-HasDistinctKeys k v m h.1,
    set-LacksKey (e.0) k v m,
    text_eq_iff (e.0) k,
    text_eq_iff k (e.0),
  )

  pub lookup-LacksKey : (k : Text) (m : List (Text × V)) → LacksKey k m → lookup k m ≡ none
  unfolding lookup
  lookup-LacksKey k [] h = refl
  lookup-LacksKey k (e ∷ m) h = ground (arith, lookup-LacksKey k m h.1)

  filter-LacksKey :
      (p : Text × V → Bool) (k : Text) (m : List (Text × V))
      → LacksKey k m
      → LacksKey k (filter p m)
  filter-LacksKey p k [] h = tt
  filter-LacksKey p k (e ∷ m) h = ground (arith, filter-LacksKey p k m h.1)

  pub filter-HasDistinctKeys :
      (p : Text × V → Bool) (m : List (Text × V)) → HasDistinctKeys m → HasDistinctKeys (filter p m)
  filter-HasDistinctKeys p [] h = tt
  filter-HasDistinctKeys p (e ∷ m) h =
      ground (arith, filter-LacksKey p (e.0) m h.0, filter-HasDistinctKeys p m h.1)

  -- Entries that are kept by their keys keep their values.
  pub lookup-filter :
      (p : Text → Bool) (k : Text) (m : List (Text × V))
      → lookup k (filter (λ e. p (e.0)) m) ≡ (if p k then lookup k m else none)
  unfolding lookup
  lookup-filter p k [] = ground arith
  lookup-filter p k (e ∷ m) = ground (arith, lookup-filter p k m, test (e.0))
    where
      test : (j : Text) → text_eq j k ≡ true → p j ≡ p k
      test j h = ap p ((text_eq_iff j k).0 h)
