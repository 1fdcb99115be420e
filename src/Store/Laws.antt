-- ===== src/Store/Laws.antt =====
-- How the queries meet the updates.
use wealth_track.Prelude.{
  ◌≡◌, refl, Bool, true, false, not, List, [], ◌∷◌, ◌++◌, arith, filter, find, All, ◌+◌, length,
}
use mathlib.Core.Option
use wealth_track.Prelude.Text.{Text, text_eq}
use wealth_track.Rows.{UploadBatchRow}
use wealth_track.Store.Queries.{update_where, find_batch, update_batch}

-- An update that keeps the test of the search changes the row that is found, and no other.
pub find-update_where :
    {A : Type 0} (p : A → Bool) (f : A → A)
    → ((a : A) → p (f a) ≡ p a)
    → (xs : List A) → find p (update_where p f xs) ≡ Option.map f (find p xs)
find-update_where p f keeps [] = refl
find-update_where p f keeps (x ∷ xs) = ground (arith, keeps x, find-update_where p f keeps xs)

pub find_batch-update_batch :
    (id : Text) (f : UploadBatchRow → UploadBatchRow)
    → ((b : UploadBatchRow) → (f b).id ≡ b.id)
    → (bs : List UploadBatchRow)
    → find_batch id (update_batch id f bs) ≡ Option.map f (find_batch id bs)
unfolding find_batch update_batch
find_batch-update_batch id f keeps bs =
    find-update_where (λ b. text_eq b.id id) f (λ b. rw (keeps b)) bs

pub filter-append :
    {A : Type 0} (p : A → Bool) (xs ys : List A) → filter p (xs ++ ys) ≡ filter p xs ++ filter p ys
filter-append p [] ys = refl
filter-append p (x ∷ xs) ys = ground (arith, filter-append p xs ys)

pub filter-All :
    {A : Type 0} (p : A → Bool) (xs : List A) → All (λ x. p x ≡ true) xs → filter p xs ≡ xs
filter-All p [] h = refl
filter-All p (x ∷ xs) h = ground (arith, filter-All p xs h.1)

pub filter-none :
    {A : Type 0} (p : A → Bool) (xs : List A) → All (λ x. p x ≡ false) xs → filter p xs ≡ []
filter-none p [] h = refl
filter-none p (x ∷ xs) h = ground (arith, filter-none p xs h.1)

pub filter-filter-not :
    {A : Type 0} (p : A → Bool) (xs : List A) → filter p (filter (λ x. not (p x)) xs) ≡ []
filter-filter-not p [] = refl
filter-filter-not p (x ∷ xs) = ground (arith, filter-filter-not p xs)

pub filter_idempotent :
    {A : Type 0} (p : A → Bool) (xs : List A) → filter p (filter p xs) ≡ filter p xs
filter_idempotent p [] = refl
filter_idempotent p (x ∷ xs) = ground (arith, filter_idempotent p xs)

pub length-filter-not :
    {A : Type 0} (p : A → Bool) (xs : List A)
    → length (filter p xs) + length (filter (λ x. not (p x)) xs) ≡ length xs
length-filter-not p [] = refl
length-filter-not p (x ∷ xs) = ground (arith, length-filter-not p xs)
