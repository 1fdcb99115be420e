-- ===== src/Integrations/Reachable.antt =====
-- What the operations of the program can ever make of the sources.
use wealth_track.Prelude.{
  ℕ, ◌≡◌, refl, sym, ap, Bool, true, List, [], Option, or_else, All, All-map, arith, Option-cases,
  inl, inr,
}
use mathlib.Core.Path.{subst}
use wealth_track.Prelude.Text.{Text, text_eq}
use wealth_track.Prelude.Action.{Result, ok}
use wealth_track.Rows.{GoogleSheetsSyncJob}
use wealth_track.Store.{Store}
use wealth_track.Store.Laws.{filter-none}
use wealth_track.Actor.{AuthenticatedActor}
use wealth_track.Outbox.{Request}
use wealth_track.Scheduler.{is_polled, run, schedule_due}
use wealth_track.Sheets.{Google, handle}
use wealth_track.Sheets.Rows.{Env}
use wealth_track.Integrations.{
  Takes, CreateIntegrationRequest, UpdateIntegrationRequest, find_source, create, update, disable,
  trigger_sync,
}
use wealth_track.Integrations.Tabs.{
  Discover, TabPatch, find_tab, sheets_source, spreadsheet_of, tab_of_source, discover_sheet_tabs,
  update_sheet_tab,
}
use wealth_track.Integrations.Webhook.{
  Received, ignored, refused, authentic, receive, receive-Received,
}
use wealth_track.Integrations.Inactive.{
  IsInactive, AllInactive, Preserves, Leaves-Preserves, find-All, guarded-Preserves,
  enqueue-Preserves, create-Preserves, update-Preserves, disable-Preserves, trigger_sync-Preserves,
  handle-Preserves, run-Leaves,
}

module _ (request : Request) (discover : Discover) (title_le : Text → Text → Bool)
    (actor : AuthenticatedActor) where
  discover-Preserves :
      (takes : Takes) (id : Text)
      → Preserves (discover_sheet_tabs request discover title_le actor id)
  unfolding discover_sheet_tabs
  discover-Preserves takes id = guarded-Preserves request takes actor _ _ _ λ s h.
      elim (Option-cases
        (sheets_source request discover title_le actor (find_source id s.sources))) [
          | inl e ↦ rw e h
          | inr (source, e) ↦
              elim (Option-cases
                (spreadsheet_of request discover title_le actor source.connection_config)) [
                  | inl c ↦ rw (e, c) h
                  | inr (spreadsheet, c) ↦
                      elim (Option-cases (discover source.secret_ref spreadsheet)) [
                        | inl d ↦ rw (e, c, d) h
                        | inr (sheets, d) ↦ rw (e, c, d) h
                      ]
                ]
        ]

  update_tab-Preserves :
      (takes : Takes) (id tab_id : Text) (patch : TabPatch)
      → Preserves (update_sheet_tab request discover title_le actor id tab_id patch)
  unfolding update_sheet_tab
  update_tab-Preserves takes id tab_id patch = guarded-Preserves request takes actor _ _ _ λ s h.
      elim (Option-cases (
        tab_of_source request discover title_le actor id
          (find_tab request discover title_le actor tab_id s.tabs))) [
            | inl e ↦ rw e h
            | inr (tab, e) ↦ rw e h
          ]

-- The states that the program can reach from one without sources: by the operations on sources and
-- tabs of any user with any permissions, by runs of the scheduler, notifications of Google and
-- synchronisations, and by whatever leaves the table of sources as it is.
pub data Reachable : Store → Type 1 where
  start : (s : Store) → s.sources ≡ [] → Reachable s
  elsewhere : (s t : Store) → Reachable s → t.sources ≡ s.sources → Reachable t
  created :
      (s : Store) (request : Request) (takes : Takes) (actor : AuthenticatedActor)
      (payload : CreateIntegrationRequest)
      → Reachable s
      → Reachable (create request takes actor payload s).1
  changed :
      (s : Store) (request : Request) (takes : Takes) (actor : AuthenticatedActor) (id : Text)
      (payload : UpdateIntegrationRequest)
      → Reachable s
      → Reachable (update request takes actor id payload s).1
  disabled :
      (s : Store) (request : Request) (takes : Takes) (actor : AuthenticatedActor) (id : Text)
      → Reachable s
      → Reachable (disable request takes actor id s).1
  triggered :
      (s : Store) (request : Request) (takes : Takes) (actor : AuthenticatedActor) (id : Text)
      → Reachable s
      → Reachable (trigger_sync request takes actor id s).1
  discovered :
      (s : Store) (request : Request) (discover : Discover) (title_le : Text → Text → Bool)
      (actor : AuthenticatedActor) (id : Text)
      → Reachable s
      → Reachable (discover_sheet_tabs request discover title_le actor id s).1
  tab_updated :
      (s : Store) (request : Request) (discover : Discover) (title_le : Text → Text → Bool)
      (actor : AuthenticatedActor) (id tab_id : Text) (patch : TabPatch)
      → Reachable s
      → Reachable (update_sheet_tab request discover title_le actor id tab_id patch s).1
  notified :
      (s : Store) (request : Request) (utf8 : Text → List ℕ)
      (secret channel token state : Option Text)
      → Reachable s
      → Reachable (receive request utf8 secret channel token state s).1
  polled : (s : Store) (request : Request) → Reachable s → Reachable (run request s).1
  synchronised :
      (s : Store) (env : Env) (google : Google) (job : GoogleSheetsSyncJob)
      → Reachable s
      → Reachable (handle env google job s).1

module _ (request : Request) (utf8 : Text → List ℕ) (secret : Option Text) where
  receive-Preserves :
      (channel token state : Option Text)
      → Preserves (receive request utf8 secret channel token state)
  receive-Preserves channel token state s h =
      at_end _ (receive-Received request utf8 secret channel token state s)
    where
      at_end :
          (x : Result (Unit {0}) × Store)
          → Received request utf8 secret channel token state s x
          → AllInactive (x.1)
      at_end _ ignored = h
      at_end _ (refused e) = h
      at_end _ (authentic c e t source f p) = enqueue-Preserves _ _ _ h

-- No source is active in a state that can be reached.
Reachable-AllInactive : (s : Store) → Reachable s → AllInactive s
Reachable-AllInactive _ (start s e) = subst (All IsInactive) (sym e) tt
Reachable-AllInactive _ (elsewhere s t r e) =
    subst (All IsInactive) (sym e) (Reachable-AllInactive s r)
Reachable-AllInactive _ (created s request takes actor payload r) =
    create-Preserves request takes actor payload s (Reachable-AllInactive s r)
Reachable-AllInactive _ (changed s request takes actor id payload r) =
    update-Preserves request takes actor id payload s (Reachable-AllInactive s r)
Reachable-AllInactive _ (disabled s request takes actor id r) =
    disable-Preserves request takes actor id s (Reachable-AllInactive s r)
Reachable-AllInactive _ (triggered s request takes actor id r) =
    trigger_sync-Preserves request takes actor id s (Reachable-AllInactive s r)
Reachable-AllInactive _ (discovered s request discover title_le actor id r) =
    discover-Preserves request discover title_le actor (λ x xs. true) id s
      (Reachable-AllInactive s r)
Reachable-AllInactive _ (tab_updated s request discover title_le actor id tab_id patch r) =
    update_tab-Preserves request discover title_le actor (λ x xs. true) id tab_id patch s
      (Reachable-AllInactive s r)
Reachable-AllInactive _ (notified s request utf8 secret channel token state r) =
    receive-Preserves request utf8 secret channel token state s (Reachable-AllInactive s r)
Reachable-AllInactive _ (polled s request r) =
    Leaves-Preserves (run request) (run-Leaves request) s (Reachable-AllInactive s r)
Reachable-AllInactive _ (synchronised s env google job r) =
    handle-Preserves env google job s (Reachable-AllInactive s r)

module _ (request : Request) where
  -- Without an active source the scheduler does nothing.
  run_idle : (s : Store) → AllInactive s → run request s ≡ (ok tt, s)
  unfolding run schedule_due
  run_idle s h =
      ap (λ xs. schedule_due request 0 xs s)
        (filter-none is_polled s.sources (All-map (λ x i. ground (arith, i)) s.sources h))

module _ (request : Request) (utf8 : Text → List ℕ) (secret : Option Text)
    (channel token state : Option Text) where
  -- Without an active source a notification changes nothing.
  receive_idle :
      (s : Store) → AllInactive s → (receive request utf8 secret channel token state s).1 ≡ s
  receive_idle s h = at_end _ (receive-Received request utf8 secret channel token state s)
    where
      at_end :
          (x : Result (Unit {0}) × Store)
          → Received request utf8 secret channel token state s x
          → x.1 ≡ s
      at_end _ ignored = refl
      at_end _ (refused e) = refl
      at_end _ (authentic c e t source f p) =
          let inactive =
            find-All IsInactive (λ x. text_eq x.id (or_else channel [])) s.sources source h f in
          absurd (ground (arith, p, inactive))

  -- In every state that the program can reach from one without sources, by any sequence of its
  -- operations and of calls from outside, a run of the scheduler does nothing and a notification of
  -- Google changes nothing, whatever its headers: no operation ever makes a source active.
  pub Reachable_idle :
      (s : Store)
      → Reachable s
      → (run request s ≡ (ok tt, s)) × ((receive request utf8 secret channel token state s).1 ≡ s)
  Reachable_idle s r = let h = Reachable-AllInactive s r in (run_idle request s h, receive_idle s h)
