-- ===== src/Investments/Deletion.antt =====
-- What the bulk deletion of the investments of customers removes.
use wealth_track.Prelude.{
  ℕ, ◌+◌, ◌≤◌, ◌≡◌, Bool, true, false, not, ◌&&◌, List, Option, filter, any, length,
}
use wealth_track.Prelude.Text.{Text, is_empty, trim}
use wealth_track.Prelude.Action.{Result, HttpError, ok, err}
use wealth_track.Rows.{InvestmentRecordRow}
use wealth_track.Store.{Store}
use wealth_track.Actor.{AuthenticatedActor}
use wealth_track.Analytics.{Numbers}
use wealth_track.Investments.{Ledger, DeleteReply, nothing_named, deleted_of_customers, is_admin}

-- Whether one of the strings, trimmed and not empty, names the customer of a record.
abbrev pub names : Ledger → List Text → InvestmentRecordRow → Bool
names ledger ids r = any (λ id. not (is_empty (trim id)) && ledger.same r.customer_id (trim id)) ids

module _ (js : Numbers) (ledger : Ledger) (actor : Option AuthenticatedActor) where
  -- The ways in which a deletion ends.
  pub data Deleted (ids : List Text) (s : Store) : Result DeleteReply × Store → Type 0 where
    denied : is_admin actor ≡ false → (e : HttpError) → Deleted ids s (err e, s)
    unnamed :
        ((r : InvestmentRecordRow) → names ledger ids r ≡ false)
        → Deleted ids s (ok nothing_named, s)
    removed :
        is_admin actor ≡ true
        → (n customers : ℕ) → customers ≤ length ids
        → (records : List InvestmentRecordRow)
        → records ≡ filter (λ r. not (names ledger ids r)) s.investments
        → n + length records ≡ length s.investments
        → Deleted ids s (ok (deleted_of_customers n customers), record s { investments = records })
