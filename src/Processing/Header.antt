-- ===== src/Processing/Header.antt =====
-- `normalizeHeader` and `normalizeValues`: the columns of a file under the names of the model.
use wealth_track.Prelude.{
  ℕ, Bool, true, false, ◌&&◌, ◌||◌, [], ◌∷◌, leb, ◌==◌, or_else, if◌then◌else◌,
}
use wealth_track.Prelude.Text.{Text, codes, is_empty, trim, to_lower_case, is_digit, text_eq}
use wealth_track.Csv.{Values, assign, value_of}

abbrev underscore : ℕ
underscore = b'_'

-- `[a-z0-9]`
abbrev is_plain : ℕ → Bool
is_plain c = (leb b'a' c && leb c b'z') || is_digit c

-- `.replace(/^\uFEFF/, '')`
drop_bom : Text → Text
drop_bom [] = []
drop_bom (c ∷ s) = if c == 0xfeff then s else c ∷ s

-- `.replace(/[^a-z0-9]+/g, '_')`: in a run only the first character leaves a `_`.
squash : Bool → Text → Text
squash in_run [] = []
squash in_run (c ∷ s) =
    let kept = c ∷ squash false s in
    let first = underscore ∷ squash true s in
    let later = squash true s in if is_plain c then kept else if in_run then later else first

-- `.replace(/^_+|_+$/g, '')`, its two ends in turn.
strip_start : Text → Text
strip_start [] = []
strip_start (c ∷ s) = let rest = strip_start s in if c == underscore then rest else c ∷ s

abbrev keep_stripped : ℕ → Text → Text
keep_stripped c [] = if c == underscore then [] else c ∷ []
keep_stripped c (d ∷ s) = c ∷ d ∷ s

strip_end : Text → Text
strip_end [] = []
strip_end (c ∷ s) = keep_stripped c (strip_end s)

unfoldable pub normalize_header : Text → Text
unfolding drop_bom squash strip_start strip_end trim to_lower_case
normalize_header header =
    strip_end (strip_start (squash false (to_lower_case (trim (drop_bom header)))))

abbrev pub header_aliases : Values
header_aliases =
    (codes "investment_id", codes "investment_reference")
    ∷ (codes "user_id", codes "customer_id")
    ∷ (codes "customer_name", codes "customer_name")
    ∷ (codes "amout", codes "investment_amount")
    ∷ (codes "amount", codes "investment_amount")
    ∷ (codes "tenure", codes "tenor_days")
    ∷ (codes "creation_date", codes "mobilisation_date")
    ∷ (codes "maturity_date", codes "maturity_date")
    ∷ (codes "maturiry_date", codes "maturity_date")
    ∷ (codes "customer_class", codes "customer_type")
    ∷ (codes "funds_class", codes "fund_type")
    ∷ (codes "act_officer", codes "relationship_manager")
    ∷ (codes "channel", codes "source_channel")
    ∷ []

-- `HEADER_ALIASES[normalizedHeader] ?? normalizedHeader`
unfoldable pub target_header : Text → Text
unfolding normalize_header value_of text_eq
target_header header =
    let normalized = normalize_header header in
    or_else (value_of normalized header_aliases) normalized

-- The `reduce` over the entries.
collect : Values → Values → Values
collect result [] = result
collect result ((header, value) ∷ entries) =
    let target = target_header header in
    collect (if is_empty target then result else assign target (trim value) result) entries

unfoldable pub normalize_values : Values → Values
unfolding collect target_header assign
normalize_values values = collect [] values
