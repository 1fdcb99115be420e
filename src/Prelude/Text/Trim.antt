-- ===== src/Prelude/Text/Trim.antt =====
-- What `trim` leaves as it is.
use Prim.Native.Nat.{ℕ}
use mathlib.Core.Path.{◌≡◌, refl}
use mathlib.Core.Bool.{false}
use mathlib.Core.List.{[], ◌∷◌, ◌++◌}
use wealth_track.Prelude.Text.{Text, is_space, trim_start, trim_end, keep_end, trim}

keep_end-append : (c : ℕ) (s : Text) (d : ℕ) → keep_end c (s ++ d ∷ []) ≡ c ∷ (s ++ d ∷ [])
keep_end-append c [] d = refl
keep_end-append c (x ∷ s) d = refl

trim_end-kept : (s : Text) (d : ℕ) → is_space d ≡ false → trim_end (s ++ d ∷ []) ≡ s ++ d ∷ []
unfolding trim_end
trim_end-kept [] d h = rw h
trim_end-kept (c ∷ s) d h = rw (trim_end-kept s d h) (keep_end-append c s d)

-- A text with no white space at either end is its own `trim`.
pub trim-kept :
    (c : ℕ) (s : Text) (d : ℕ)
    → is_space c ≡ false
    → is_space d ≡ false
    → trim (c ∷ (s ++ d ∷ [])) ≡ c ∷ (s ++ d ∷ [])
unfolding trim_start trim
trim-kept c s d h k = rw h (trim_end-kept (c ∷ s) d k)
