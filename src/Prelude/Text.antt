-- ===== src/Prelude/Text.antt =====
-- JavaScript strings as their code units, with the string methods that the program calls.
pub mod Trim
use Prim.Native.Nat.{ℕ, ◌+◌}
use Prim.Native.Char.{code}
use Prim.Native.String.{String}
use mathlib.Core.Path.{◌≡◌, refl}
use mathlib.Core.Logic.{◌↔◌}
use mathlib.Core.Bool.{Bool, true, false, ◌&&◌, ◌||◌, cond}
use mathlib.Core.List.{List, [], ◌∷◌}
use native.Mathlib.Omega.{arith}
use wealth_track.Prelude.Tests.{leb, ◌==◌}

-- A string is its sequence of UTF-16 code units.
abbrev pub Text : Type 0
Text = List ℕ

-- The code units of a literal in ASCII.
abbrev pub codes : String → Text
codes String.[] = []
codes (String.◌∷◌ c s) = code c ∷ codes s

-- `s === t`
unfoldable pub text_eq : Text → Text → Bool
text_eq [] [] = true
text_eq (c ∷ s) (d ∷ t) = c == d && text_eq s t
text_eq _ _ = false

pub text_eq_iff : (s t : Text) → (text_eq s t ≡ true) ↔ (s ≡ t)
unfolding text_eq
text_eq_iff [] [] = (λ h. refl, λ h. refl)
text_eq_iff [] (d ∷ t) = (λ h. cc, λ h. cc)
text_eq_iff (c ∷ s) [] = (λ h. cc, λ h. cc)
text_eq_iff (c ∷ s) (d ∷ t) = ground (arith, text_eq_iff s t)

pub text_eq_refl : (s : Text) → text_eq s s ≡ true
text_eq_refl s = (text_eq_iff s s).1 refl

pub text_eq_comm : (s t : Text) → text_eq s t ≡ text_eq t s
text_eq_comm s t = ground (arith, text_eq_iff s t, text_eq_iff t s)

-- `!s`: the empty string is falsy.
abbrev pub is_empty : Text → Bool
is_empty [] = true
is_empty (c ∷ s) = false

-- `xs.includes(s)`, `set.has(s)`
abbrev pub includes : List Text → Text → Bool
includes [] s = false
includes (t ∷ ts) s = text_eq t s || includes ts s

-- WhiteSpace and LineTerminator of ECMAScript, which `trim` and `\s` go by.
unfoldable pub is_space : ℕ → Bool
is_space c =
    (leb 9 c && leb c 13)
    || (c == 32
        || (c == 160
            || (c == 0x1680
                || ((leb 0x2000 c && leb c 0x200a)
                    || (c == 0x2028
                        || (c == 0x2029
                            || (c == 0x202f || (c == 0x205f || (c == 0x3000 || c == 0xfeff)))))))))

unfoldable pub trim_start : Text → Text
trim_start [] = []
trim_start (c ∷ s) = let rest = trim_start s in cond (is_space c) rest (c ∷ s)

-- What `trim` keeps of `c ∷ s`, given what it keeps of `s`.
abbrev keep_end : ℕ → Text → Text
keep_end c [] = cond (is_space c) [] (c ∷ [])
keep_end c (d ∷ s) = c ∷ d ∷ s

unfoldable pub trim_end : Text → Text
trim_end [] = []
trim_end (c ∷ s) = keep_end c (trim_end s)

-- `s.trim()`
unfoldable pub trim : Text → Text
unfolding trim_start trim_end is_space
trim s = trim_end (trim_start s)

-- `t.startsWith(s)`
unfoldable pub starts_with : Text → Text → Bool
starts_with [] t = true
starts_with (c ∷ s) [] = false
starts_with (c ∷ s) (d ∷ t) = c == d && starts_with s t

-- `t.includes(s)`
unfoldable pub has_substring : Text → Text → Bool
unfolding starts_with
has_substring s [] = starts_with s []
has_substring s (d ∷ t) = starts_with s (d ∷ t) || has_substring s t

-- `toLowerCase` of one code unit of ASCII.
unfoldable pub to_lower : ℕ → ℕ
to_lower c = cond (leb b'A' c && leb c b'Z') (c + 32) c

-- `s.toLowerCase()`, exact in what it makes of ASCII letters: U+212A (Kelvin) and U+0130 are the
-- only other code units whose lower case holds one. The rest keeps its own code unit.
unfoldable pub to_lower_case : Text → Text
unfolding to_lower
to_lower_case [] = []
to_lower_case (c ∷ s) =
    let rest = to_lower_case s in
    cond (c == 0x212a) (b'k' ∷ rest) (cond (c == 0x130) (b'i' ∷ 0x307 ∷ rest) (to_lower c ∷ rest))

-- `[0-9]`
abbrev pub is_digit : ℕ → Bool
is_digit c = leb b'0' c && leb c b'9'
