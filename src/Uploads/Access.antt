-- ===== src/Uploads/Access.antt =====
-- Who may do what with the uploads, and what a cancellation amounts to.
use wealth_track.Prelude.{
  ℕ, ◌⊎◌, String, ◌≡◌, refl, ap, ◌∙◌, Bool, true, not, List, some, Bool-cases, inl, inr,
}
use mathlib.Core.Option
use wealth_track.Prelude.Text.{Text, codes}
use wealth_track.Prelude.Action.{Action, ok, err, forbidden, require, throw_if, ◌>>◌}
use wealth_track.Rows.{BatchStatus, UploadBatchRow, ConfirmImportJob, InvestmentRecordRow}
use wealth_track.Store.{Store}
use wealth_track.Store.Queries.{find_batch}
use wealth_track.Store.Laws.{find_batch-update_batch}
use wealth_track.Actor.{AuthenticatedActor, permits}
use wealth_track.Outbox.{Request}
use wealth_track.Import.{Clock, handle}
use wealth_track.Import.Independence.{handle-investments}
use wealth_track.Uploads.{
  set_status, update_status, preview, cancel, errors_of, error_report, bulk_delete_all,
  bulk_delete_by_ids, confirm,
}

module _ (actor : AuthenticatedActor) (s : Store) where
  -- What an operation that asks for `permission` does: the actor has it, or the call throws
  -- `ForbiddenException` and changes nothing.
  pub IsGuarded : {A : Type 0} → Text → Action Store A → Type 0
  IsGuarded permission m =
      (permits (some actor) permission ≡ true)
      ⊎ ((message : String) × (m s ≡ (err (forbidden message), s)))

  guarded :
      {A : Type 0} (permission : Text) (message : String) (m : Action Store A)
      → IsGuarded permission
          (throw_if (not (permits (some actor) permission)) (forbidden message) >> m)
  unfolding IsGuarded
  guarded permission message m = elim (Bool-cases (permits (some actor) permission)) [
    | inl e ↦ inl e
    | inr e ↦ inr (message, rw e refl)
  ]

  -- An upload's preview, errors and error report are for actors that may read previews, its
  -- confirmation and cancellation for those that may confirm imports, and the bulk deletions for
  -- those that may create users: any other actor gets `ForbiddenException` and changes nothing.
  pub uploads-IsGuarded :
      (request : Request) (sha256 : Text → Text) (id : Text) (ids : List Text)
      → IsGuarded (codes "uploads.preview.read") (preview actor id)
        × IsGuarded (codes "uploads.preview.read") (errors_of actor id)
        × IsGuarded (codes "uploads.preview.read") (error_report actor id)
        × IsGuarded (codes "uploads.import.confirm") (confirm actor request sha256 id)
        × IsGuarded (codes "uploads.import.confirm") (cancel actor id)
        × IsGuarded (codes "users.create") (bulk_delete_all actor)
        × IsGuarded (codes "users.create") (bulk_delete_by_ids actor ids)
  unfolding preview errors_of error_report confirm cancel bulk_delete_all bulk_delete_by_ids
  uploads-IsGuarded request sha256 id ids = (
    guarded _ _ _,
    guarded _ _ _,
    guarded _ _ _,
    guarded _ _ _,
    guarded _ _ _,
    guarded _ _ _,
    guarded _ _ _,
  )

  -- A cancellation that is permitted sets the status of the batch and answers with it, and an
  -- import of the batch that runs afterwards inserts all that it would have inserted before.
  pub cancel-handle :
      (batch : UploadBatchRow) (clock : Clock) (new_id : ℕ → Text) (job : ConfirmImportJob)
      (accepts : InvestmentRecordRow → Bool)
      → permits (some actor) (codes "uploads.import.confirm") ≡ true
      → find_batch job.batch_id s.batches ≡ some batch
      → let (r, t) = cancel actor job.batch_id s in
        (r ≡ ok (set_status BatchStatus.cancelled batch))
        × (find_batch job.batch_id t.batches ≡ some (set_status BatchStatus.cancelled batch))
        × ((handle clock new_id job accepts t).1.investments
            ≡ (handle clock new_id job accepts s).1.investments)
  unfolding cancel update_status
  cancel-handle batch clock new_id job accepts permitted found =
      rw (permitted, found, require)
        (
          refl,
          find_batch-update_batch job.batch_id (set_status BatchStatus.cancelled) (λ b. refl)
                s.batches
              ∙ ap (Option.map _) found,
          handle-investments clock new_id job accepts _ s refl refl,
        )
