-- ===== src/Analytics/Customers/Pages.antt =====
-- The pages of the portfolio, one after the other, are the portfolio.
use wealth_track.Prelude.{
  ℕ, zero, suc, ◌+◌, ◌-◌, ◌*◌, ◌/◌, ◌≤◌, ◌<◌, ◌≡◌, refl, sym, ◌∙◌, ap, List, [], ◌∷◌, ◌++◌, length,
  arith,
}
use native.Mathlib.Nat.{add-mul, lt-div-mul-add}
use wealth_track.Rows.{InvestmentRecordRow}
use wealth_track.Analytics.{Numbers, Sql, Filter, list_confirmed_valid}
use wealth_track.Analytics.Periods.{Dates}
use wealth_track.Analytics.Customers.{drop, take, slice, all_items, customer_portfolio}

-- `f(first)`, `f(first + 1)` and so on, `n` of them.
abbrev pub pages_from : {A : Type 0} → (ℕ → List A) → ℕ → ℕ → List A
pages_from f first zero = []
pages_from f first (suc n) = f first ++ pages_from f (first + 1) n

suc_page : (k size : ℕ) → (k + 1) * size ≡ k * size + size
suc_page k size = omega (arith, add-mul k 1 size)

module _ {A : Type 0} where
  take-drop : (n : ℕ) (xs : List A) → take n xs ++ drop n xs ≡ xs
  unfolding take drop
  take-drop zero xs = refl
  take-drop (suc n) [] = refl
  take-drop (suc n) (x ∷ xs) = ap (λ ys. x ∷ ys) (take-drop n xs)

  drop-nil : (n : ℕ) → drop {A = A} n [] ≡ []
  unfolding drop
  drop-nil zero = refl
  drop-nil (suc n) = refl

  drop-drop : (m n : ℕ) (xs : List A) → drop m (drop n xs) ≡ drop (n + m) xs
  unfolding drop
  drop-drop m zero xs = let e : 0 + m ≡ m = omega arith in rw e refl
  drop-drop m (suc n) [] = let e : suc n + m ≡ suc (n + m) = omega arith in rw e (drop-nil m)
  drop-drop m (suc n) (x ∷ xs) =
      let e : suc n + m ≡ suc (n + m) = omega arith in rw e (drop-drop m n xs)

  drop-all : (n : ℕ) (xs : List A) → length xs ≤ n → drop n xs ≡ []
  unfolding drop
  drop-all zero [] h = refl
  drop-all zero (x ∷ xs) h = absurd (omega arith)
  drop-all (suc n) [] h = refl
  drop-all (suc n) (x ∷ xs) h = drop-all n xs (omega arith)

  -- From a page on, as many slices as reach the end give all that is left.
  pages_from-slice :
      (size k n : ℕ) (xs : List A)
      → length xs ≤ (k + n) * size
      → pages_from (λ page. slice ((page - 1) * size) size xs) (k + 1) n ≡ drop (k * size) xs
  pages_from-slice size k zero xs h = sym (drop-all (k * size) xs (omega arith))
  pages_from-slice size k (suc n) xs h =
      let shift : (k + 1 + n) * size ≡ (k + suc n) * size = ap (λ j. j * size) (omega arith) in
      let here : k + 1 - 1 ≡ k = omega arith in
      rw
        (
          here,
          pages_from-slice size (k + 1) n xs (rw shift h),
          suc_page k size,
          ← drop-drop size (k * size) xs,
        )
        (take-drop size (drop (k * size) xs))

module _ (js : Numbers) (dates : Dates) (sql : Sql) (page_size : ℕ) (filter_by : Filter)
    (table : List InvestmentRecordRow) where
  -- Where a page has at least one item, the pages of the portfolio from the first to the last that it
  -- reports, put together, are all items in their order, each once.
  pub pages_from-customer_portfolio :
      0 < page_size
      → pages_from
          (λ page. (customer_portfolio js dates sql page page_size filter_by table).items)
          1
          (customer_portfolio js dates sql 1 page_size filter_by table).total_pages
        ≡ all_items js dates (list_confirmed_valid sql filter_by table)
  unfolding customer_portfolio drop
  pages_from-customer_portfolio h =
      let items = all_items js dates (list_confirmed_valid sql filter_by table) in
      let pages = (length items + (page_size - 1)) / page_size in
      let enough = lt-div-mul-add {a = length items + (page_size - 1)} h in
      let none_before : 0 * page_size ≡ 0 = omega arith in
      let all_pages : (0 + pages) * page_size ≡ pages * page_size =
        ap (λ j. j * page_size) (omega arith) in
      pages_from-slice page_size 0 pages items (rw all_pages (omega (arith, enough)))
      ∙ ap (λ j. drop j items) none_before
