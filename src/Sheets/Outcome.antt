-- ===== src/Sheets/Outcome.antt =====
-- How a synchronisation of a Google sheet ends.
use wealth_track.Prelude.{
  ◌≡◌, refl, sym, ◌∙◌, ap, List, [], ◌∷◌, none, some, or_else, find, ltb, Bool-cases, Option-cases,
  inl, inr, if◌then◌else◌,
}
use mathlib.Core.Path.{subst}
use wealth_track.Prelude.Text.{text_eq}
use wealth_track.Prelude.Action.{Result, HttpError, ok, err, continue}
use wealth_track.Rows.{IntegrationSourceRow, GoogleSheetTabRow, GoogleSheetsSyncJob, Cell}
use wealth_track.Store.{Store}
use wealth_track.Store.Queries.{update_where}
use wealth_track.Sheets.Cells.{header_index}
use wealth_track.Sheets.Rows.{Env, Counts, no_counts}
use wealth_track.Sheets.{
  Google, SyncReply, add_counts, update_sync_batch, process_values, tab_values, process_tab,
  process_tabs, select_tabs, set_running, finished, finish, mark_source, advance, reply, conclude,
  handle,
}
use wealth_track.Sheets.Skips.{CountedAs, counted, process_rows-Counted}

module _ (env : Env) (google : Google) (job : GoogleSheetsSyncJob) where
  -- The counts of the rows of a tab, below its header.
  abbrev pub count_values : GoogleSheetTabRow → List (List Cell) → Counts
  count_values tab [] = no_counts
  count_values tab (header ∷ []) = no_counts
  count_values tab (header ∷ row ∷ rows) =
      counted env tab job.sync_batch_id job.actor_id
        (header_index env.decimal tab.column_mapping 0 header) (row ∷ rows) no_counts

  abbrev pub values_of : IntegrationSourceRow → GoogleSheetTabRow → List (List Cell)
  values_of source tab = or_else (tab_values env google job source tab) []

  -- What the tabs add to the counts.
  abbrev pub count_tabs : IntegrationSourceRow → List GoogleSheetTabRow → Counts → Counts
  count_tabs source [] total = total
  count_tabs source (tab ∷ tabs) total =
      count_tabs source tabs (add_counts total (count_values tab (values_of source tab)))

  -- Batches and sources are left alone.
  abbrev KeepsBatches : Store → Store → Type 0
  KeepsBatches s t = (t.sync_batches ≡ s.sync_batches) × (t.sources ≡ s.sources)

  -- What has been counted, with batches and sources left alone.
  abbrev Ends : Counts → Store → Result Counts × Store → Type 0
  Ends expected s x = CountedAs expected (x.0) × KeepsBatches s (x.1)

  process_values-Ends :
      (tab : GoogleSheetTabRow) (rows : List (List Cell)) (s : Store)
      → Ends (count_values tab rows) s (process_values env google job tab rows s)
  unfolding process_values
  process_values-Ends tab [] s = (refl, (refl, refl))
  process_values-Ends tab (header ∷ []) s = (refl, (refl, refl))
  process_values-Ends tab (header ∷ row ∷ rows) s =
      let h =
        process_rows-Counted env tab job.sync_batch_id job.actor_id
          (header_index env.decimal tab.column_mapping 0 header) 1 (row ∷ rows) no_counts s in
      (h.0, (h.1.0, h.1.1.0))

  -- Counts after an action, put through by what follows it.
  then-Ends :
      (expected expected' : Counts) (s : Store) (x : Result Counts × Store)
      (later : Counts → Store → Result Counts × Store)
      → Ends expected s x
      → ((c : Counts) (t : Store) → c ≡ expected → KeepsBatches s t → Ends expected' s (later c t))
      → Ends expected' s (continue (x.0) later (x.1))
  then-Ends expected expected' s (ok c, t) later h f = f c t h.0 h.1
  then-Ends expected expected' s (err e, t) later h f = (tt, h.1)

  process_tab-Ends :
      (source : IntegrationSourceRow) (tab : GoogleSheetTabRow) (s : Store)
      → Ends (count_values tab (values_of source tab)) s (process_tab env google job source tab s)
  unfolding process_tab
  process_tab-Ends source tab s = elim (Option-cases (tab_values env google job source tab)) [
    | inl e ↦ rw e (tt, (refl, refl))
    | inr (rows, e) ↦ rw e (
        then-Ends (count_values tab rows) (count_values tab rows) s _ _
          (process_values-Ends tab rows s) (λ c t h k. (h, k)))
  ]

  process_tabs-Ends :
      (source : IntegrationSourceRow) (tabs : List GoogleSheetTabRow) (total : Counts) (s : Store)
      → Ends (count_tabs source tabs total) s (process_tabs env google job source tabs total s)
  unfolding process_tabs
  process_tabs-Ends source [] total s = (refl, (refl, refl))
  process_tabs-Ends source (tab ∷ tabs) total s =
      then-Ends (count_values tab (values_of source tab)) _ s _ _ (process_tab-Ends source tab s)
        (λ c t h k.
          let rest = process_tabs-Ends source tabs (add_counts total c) t in
          rw (← h) (rest.0, (rest.1.0 ∙ k.0, rest.1.1 ∙ k.1)))

  -- The counts of the rows of all tabs that are synchronised.
  abbrev pub all_counts : IntegrationSourceRow → Store → Counts
  all_counts source s = count_tabs source (select_tabs env google job s.tabs) no_counts

  -- The ways in which a synchronisation ends.
  pub data SyncEnd (s : Store) : Result SyncReply × Store → Type 0 where
    no_source :
        find (λ x. text_eq x.id job.integration_source_id) s.sources ≡ none
        → (e : HttpError) → SyncEnd s (err e, s)
    stopped :
        (e : HttpError) (t : Store)
        → t.sync_batches ≡ (set_running env google job s).sync_batches
        → t.sources ≡ s.sources
        → SyncEnd s (err e, t)
    completed :
        (source : IntegrationSourceRow)
        → find (λ x. text_eq x.id job.integration_source_id) s.sources ≡ some source
        → (t : Store)
        → t.sync_batches
          ≡ update_sync_batch job.sync_batch_id
              (finished env google job (all_counts source s))
              (set_running env google job s).sync_batches
        → t.sources ≡ (
            if ltb 0 (all_counts source s).invalid
            then s.sources
            else (mark_source env google job s).sources)
        → SyncEnd s (ok (reply env google job (all_counts source s)), t)

  advance-batches :
      (c : Counts) (t : Store) → (advance env google job c t).sync_batches ≡ t.sync_batches
  unfolding advance
  advance-batches c t = elim (Bool-cases (ltb 0 c.invalid)) [
    | inl b ↦ rw b refl
    | inr b ↦ rw b refl
  ]

  advance-sources :
      (c : Counts) (t : Store)
      → (advance env google job c t).sources
        ≡ (if ltb 0 c.invalid then t.sources else (mark_source env google job t).sources)
  unfolding advance
  advance-sources c t = elim (Bool-cases (ltb 0 c.invalid)) [
    | inl b ↦ rw b refl
    | inr b ↦ rw b refl
  ]

  conclude_as :
      (source : IntegrationSourceRow) (s t : Store)
      → find (λ x. text_eq x.id job.integration_source_id) s.sources ≡ some source
      → KeepsBatches (set_running env google job s) t
      → SyncEnd s (conclude env google job (all_counts source s) t)
  unfolding conclude set_running
  conclude_as source s t found k =
      completed source found
        (advance env google job (all_counts source s)
          (finish env google job (all_counts source s) t))
        (advance-batches (all_counts source s) _
          ∙ ap (update_sync_batch job.sync_batch_id (finished env google job (all_counts source s)))
              (k.0))
        (advance-sources (all_counts source s) _
          ∙ ap
              (λ xs.
                if ltb 0 (all_counts source s).invalid
                then xs
                else update_where (λ x. text_eq x.id job.integration_source_id)
                    (λ x. record x { last_successful_sync_at = some env.now; updated_at = env.now })
                    xs)
              (k.1))

  conclude-SyncEnd :
      (source : IntegrationSourceRow) (s : Store)
      → find (λ x. text_eq x.id job.integration_source_id) s.sources ≡ some source
      → (x : Result Counts × Store) → Ends (all_counts source s) (set_running env google job s) x
      → SyncEnd s (continue (x.0) (conclude env google job) (x.1))
  unfolding set_running
  conclude-SyncEnd source s found (err e, t) h = stopped e t h.1.0 h.1.1
  conclude-SyncEnd source s found (ok c, t) h =
      subst (λ k. SyncEnd s (conclude env google job k t)) (sym h.0)
        (conclude_as source s t found h.1)

  pub handle-SyncEnd : (s : Store) → SyncEnd s (handle env google job s)
  unfolding handle set_running
  handle-SyncEnd s =
      elim (Option-cases (find (λ x. text_eq x.id job.integration_source_id) s.sources)) [
        | inl e ↦ rw e (no_source e _)
        | inr (source, e) ↦ elim (Bool-cases (google.connects source.secret_ref)) [
          | inl c ↦
              rw (e, c)
                (conclude-SyncEnd source s e
                  (process_tabs env google job source (select_tabs env google job s.tabs) no_counts
                    (set_running env google job s))
                  (process_tabs-Ends source (select_tabs env google job s.tabs) no_counts
                    (set_running env google job s)))
          | inr c ↦ rw (e, c) (stopped _ _ refl refl)
        ]
      ]
