-- ===== src/Scheduler/Due.antt =====
-- What a run of the scheduler starts.
use wealth_track.Prelude.{
  ℕ, suc, ◌+◌, ◌≡◌, refl, sym, ap, false, List, [], ◌∷◌, ◌++◌, append_assoc, append-nil, filter,
  length, arith, Bool-cases, inl, inr,
}
use mathlib.Core.Path.{subst}
use wealth_track.Prelude.Action.{Result, HttpError, ok, err, internal}
use wealth_track.Rows.{IntegrationSourceRow, SyncBatchRow, Job, google_sheets_sync}
use wealth_track.Store.{Store}
use wealth_track.Outbox.{Request, enqueue}
use wealth_track.Scheduler.{
  is_due, is_polled, insert_sync_batch, scheduled_batch, scheduled_job, schedule, schedule_due, run,
}

module _ (request : Request) where
  -- The batches and the jobs of sources, the first of which has the number `n`.
  abbrev pub batches_for : ℕ → List IntegrationSourceRow → List SyncBatchRow
  batches_for n [] = []
  batches_for n (source ∷ sources) = scheduled_batch request n source ∷ batches_for (suc n) sources

  abbrev pub jobs_for : ℕ → List IntegrationSourceRow → List Job
  jobs_for n [] = []
  jobs_for n (source ∷ sources) =
      google_sheets_sync (scheduled_job request n source) ∷ jobs_for (suc n) sources

  abbrev pub with_started : List SyncBatchRow → List Job → Store → Store
  with_started batches jobs s = record s {
    sync_batches = s.sync_batches ++ batches;
    jobs = s.jobs ++ jobs;
  }

  -- The ways in which a run over sources that are due ends.
  pub data RunEnd (n : ℕ) (due : List IntegrationSourceRow) (s : Store)
      : Result (Unit {0}) × Store → Type 0 where
    all_started : RunEnd n due s (ok tt, with_started (batches_for n due) (jobs_for n due) s)
    queue_down :
        (before : List IntegrationSourceRow) (source : IntegrationSourceRow)
        (after : List IntegrationSourceRow)
        → due ≡ before ++ source ∷ after
        → request.queue_up (n + length before) ≡ false
        → (e : HttpError)
        → RunEnd n due s
            (err e, with_started (batches_for n (before ++ source ∷ [])) (jobs_for n before) s)

  abbrev pub due_of : List IntegrationSourceRow → List IntegrationSourceRow
  due_of = filter (is_due request.now)

  with_started-append :
      (bs bs' : List SyncBatchRow) (js js' : List Job) (s : Store)
      → with_started bs' js' (with_started bs js s) ≡ with_started (bs ++ bs') (js ++ js') s
  with_started-append bs bs' js js' s =
      rw (append_assoc s.sync_batches bs bs', append_assoc s.jobs js js') refl

  RunEnd-cons :
      (n : ℕ) (source : IntegrationSourceRow) (due : List IntegrationSourceRow) (s : Store)
      (x : Result (Unit {0}) × Store)
      → RunEnd
          (suc n)
          due
          (with_started
            (scheduled_batch request n source ∷ [])
            (google_sheets_sync (scheduled_job request n source) ∷ [])
            s)
          x
      → RunEnd n (source ∷ due) s x
  RunEnd-cons n source due s _ all_started =
      subst (λ u. RunEnd n (source ∷ due) s (ok tt, u))
        (sym (with_started-append _ (batches_for (suc n) due) _ (jobs_for (suc n) due) s))
        all_started
  RunEnd-cons n source due s _ (queue_down before x after h down e) =
      subst (λ u. RunEnd n (source ∷ due) s (err e, u))
        (sym (
          with_started-append _ (batches_for (suc n) (before ++ x ∷ [])) _ (jobs_for (suc n) before)
            s))
        (queue_down (source ∷ before) x after (ap (λ xs. source ∷ xs) h)
          (let next : n + suc (length before) ≡ suc n + length before = omega arith in rw next down)
          e)

  without_job : (b : SyncBatchRow) (s : Store) → with_started (b ∷ []) [] s ≡ insert_sync_batch b s
  without_job b s = rw (append-nil s.jobs) refl

  first_down :
      (n : ℕ) (source : IntegrationSourceRow) (due : List IntegrationSourceRow) (s : Store)
      → request.queue_up n ≡ false
      → RunEnd n
          (source ∷ due)
          s
          (err (internal "queue"), insert_sync_batch (scheduled_batch request n source) s)
  first_down n source due s down =
      subst (λ u. RunEnd n (source ∷ due) s (err (internal "queue"), u))
        (without_job (scheduled_batch request n source) s)
        (queue_down [] source due refl (let here : n + 0 ≡ n = omega arith in rw here down) _)

  schedule_due-RunEnd :
      (n : ℕ) (sources : List IntegrationSourceRow) (s : Store)
      → RunEnd n (due_of sources) s (schedule_due request n sources s)
  unfolding schedule_due schedule enqueue
  schedule_due-RunEnd n [] s = nothing_due
    where
      same : s ≡ with_started [] [] s
      same = rw (append-nil s.sync_batches, append-nil s.jobs) refl

      nothing_due : RunEnd n [] s (ok tt, s)
      nothing_due = subst (λ u. RunEnd n [] s (ok tt, u)) (sym same) all_started
  schedule_due-RunEnd n (source ∷ sources) s = elim (Bool-cases (is_due request.now source)) [
    | inr d ↦ rw d (schedule_due-RunEnd n sources s)
    | inl d ↦ elim (Bool-cases (request.queue_up n)) [
      | inl up ↦
          rw (d, up)
            (RunEnd-cons n source (due_of sources) s _ (schedule_due-RunEnd (suc n) sources _))
      | inr down ↦ rw (d, down) (first_down n source (due_of sources) s down)
    ]
  ]

  -- A run of the scheduler starts a synchronisation of every active Google sheet that is due: for
  -- each, in their order, one pending batch and one job are added, and nothing else changes. Only
  -- when the queue refuses the job of one of them does the run end there with an exception; the
  -- sources before it are started, its own batch stays pending without a job, and those after it are
  -- not reached.
  pub run-RunEnd : (s : Store) → RunEnd 0 (due_of (filter is_polled s.sources)) s (run request s)
  unfolding run
  run-RunEnd s = schedule_due-RunEnd 0 (filter is_polled s.sources) s
