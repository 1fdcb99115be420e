-- ===== src/Integrations.antt =====
-- apps/api/src/modules/integrations/integrations.service.ts with its policy and repositories: the
-- sources of investments, the tabs of their sheets, and the synchronisations that users start.
pub mod Tabs
pub mod Webhook
pub mod Inactive
pub mod Reachable
use wealth_track.Prelude.{
  ℕ, String, Bool, true, false, not, List, [], ◌∷◌, ◌++◌, Option, none, some, or_else, find, filter,
  length, if◌then◌else◌,
}
use wealth_track.Prelude.Text.{Text, codes, text_eq}
use wealth_track.Prelude.Action.{
  Action, ok, err, internal, not_found, pure, gets, modify, require, throw_if, continue, ◌>>=◌,
  ◌>>◌,
}
use wealth_track.Rows.{
  Json, Time, IntegrationSourceRow, SourceType, SourceStatus, SyncFrequency, SyncBatchRow,
  SyncSourceType, TriggerMode, GoogleSheetsSyncJob, ManualSyncJob, Job, google_sheets_sync,
  manual_sync,
}
use wealth_track.Store.{Store}
use wealth_track.Store.Queries.{update_where}
use wealth_track.Actor.{AuthenticatedActor, assert_permitted}
use wealth_track.Outbox.{Request, enqueue, queue, event_row}
use wealth_track.Scheduler.{pending_batch, insert_sync_batch}

-- `CreateIntegrationRequestDto`
pub record CreateIntegrationRequest : Type 0 where
  pub name : Text
  pub source_type : SourceType
  pub secret_ref : Text
  pub field_mapping : Json
  pub connection_config : Json
  pub sync_frequency : SyncFrequency

-- `UpdateIntegrationRequestDto`, where none is undefined
pub record UpdateIntegrationRequest : Type 0 where
  pub name : Option Text
  pub secret_ref : Option Text
  pub field_mapping : Option Json
  pub connection_config : Option Json
  pub sync_frequency : Option SyncFrequency

-- `findById`
abbrev pub find_source : Text → List IntegrationSourceRow → Option IntegrationSourceRow
find_source id = find (λ x. text_eq x.id id)

-- Whether MySQL takes a source beside the sources of the table (its name is a unique key).
abbrev pub Takes : Type 0
Takes = IntegrationSourceRow → List IntegrationSourceRow → Bool

module _ (takes : Takes) where
  -- `INSERT INTO integration_sources SET ?`
  unfoldable pub insert_source : IntegrationSourceRow → Action Store (Unit {0})
  insert_source source s =
      if takes source s.sources
      then (ok tt, record s { sources = s.sources ++ source ∷ [] })
      else (err (internal "Duplicate entry"), s)

  -- `UPDATE integration_sources SET ? WHERE id = ?`
  unfoldable pub update_source : IntegrationSourceRow → Action Store (Unit {0})
  update_source source s =
      if takes source (filter (λ x. not (text_eq x.id source.id)) s.sources)
      then (
        ok tt,
        record s { sources = update_where (λ x. text_eq x.id source.id) (λ x. source) s.sources },
      )
      else (err (internal "Duplicate entry"), s)

module _ (request : Request) (takes : Takes) (actor : AuthenticatedActor) where
  -- `integrationsPolicy.assertCanManage(actor, permission)`
  abbrev assert_can_manage : Text → String → Action Store (Unit {0})
  assert_can_manage permission message = assert_permitted (some actor) permission message

  abbrev pub new_source : CreateIntegrationRequest → IntegrationSourceRow
  new_source payload = record {
    id = request.new_id 0;
    name = payload.name;
    source_type = payload.source_type;
    status = SourceStatus.inactive;
    secret_ref = payload.secret_ref;
    connection_config = some payload.connection_config;
    field_mapping = payload.field_mapping;
    sync_frequency = payload.sync_frequency;
    last_tested_at = none;
    last_successful_sync_at = none;
    created_by = actor.actor_id;
    updated_by = some actor.actor_id;
    created_at = request.now;
    updated_at = request.now;
  }

  unfoldable pub create : CreateIntegrationRequest → Action Store IntegrationSourceRow
  unfolding insert_source
  create payload = do
    assert_can_manage (codes "integrations.create") "integrations.create is required"
    insert_source takes (new_source payload)
    pure (new_source payload)

  abbrev pub updated_source : UpdateIntegrationRequest → IntegrationSourceRow → IntegrationSourceRow
  updated_source payload source = record source {
    name = or_else payload.name source.name;
    secret_ref = or_else payload.secret_ref source.secret_ref;
    field_mapping = or_else payload.field_mapping source.field_mapping;
    connection_config = elim payload.connection_config [
      | none ↦ source.connection_config
      | some c ↦ some c
    ];
    sync_frequency = or_else payload.sync_frequency source.sync_frequency;
    updated_by = some actor.actor_id;
    updated_at = request.now;
  }

  abbrev pub disabled_source : IntegrationSourceRow → IntegrationSourceRow
  disabled_source source = record source {
    status = SourceStatus.inactive;
    updated_by = some actor.actor_id;
    updated_at = request.now;
  }

  -- `findById`, a change and the UPDATE of the row.
  unfoldable pub change_source :
      Text → (IntegrationSourceRow → IntegrationSourceRow) → Action Store IntegrationSourceRow
  unfolding update_source
  change_source id change = do
    found ← gets (λ s. find_source id s.sources)
    source ← require found (not_found "Integration source not found")
    update_source takes (change source)
    pure (change source)

  unfoldable pub update : Text → UpdateIntegrationRequest → Action Store IntegrationSourceRow
  unfolding change_source
  update id payload = do
    assert_can_manage (codes "integrations.update") "integrations.update is required"
    change_source id (updated_source payload)

  unfoldable pub disable : Text → Action Store IntegrationSourceRow
  unfolding change_source
  disable id = do
    assert_can_manage (codes "integrations.delete") "integrations.delete is required"
    change_source id disabled_source

  pub record TestReply : Type 0 where
    pub id : Text
    pub tested_at : Time
    pub success : Bool
    pub source_type : SourceType
    pub status : SourceStatus

  unfoldable pub test_connection : Text → Action Store TestReply
  test_connection id = do
    assert_can_manage (codes "integrations.create") "integrations.create is required"
    found ← gets (λ s. find_source id s.sources)
    source ← require found (not_found "Integration source not found")
    pure (record {
      id = id;
      tested_at = request.now;
      success = true;
      source_type = source.source_type;
      status = source.status;
    })

  abbrev sync_type : SourceType → SyncSourceType
  sync_type SourceType.api = SyncSourceType.api_sync
  sync_type _ = SyncSourceType.db_sync

  abbrev pub manual_batch : IntegrationSourceRow → SyncBatchRow
  manual_batch source =
      pending_batch (request.new_id 0) source.id (sync_type source.source_type) TriggerMode.manual
        (some actor.actor_id) none request.now

  -- The job for a source: its sheets are read, or its configured records.
  abbrev pub sync_job : IntegrationSourceRow → Job
  sync_job source = elim source.source_type [
    | SourceType.google_sheets ↦ google_sheets_sync (record {
      integration_source_id = source.id;
      sync_batch_id = request.new_id 0;
      tab_ids = [];
      actor_id = actor.actor_id;
      request_id = request.new_id 1;
      correlation_id = request.new_id 2;
      trigger_mode = TriggerMode.manual;
    })
    | _ ↦ manual_sync (record {
      sync_batch_id = request.new_id 0;
      integration_source_id = source.id;
      actor_id = actor.actor_id;
      request_id = request.new_id 1;
      correlation_id = request.new_id 2;
    })
  ]

  unfoldable pub trigger_sync : Text → Action Store SyncBatchRow
  unfolding enqueue queue event_row
  trigger_sync id = do
    assert_can_manage (codes "integrations.sync.trigger") "integrations.sync.trigger is required"
    found ← gets (λ s. find_source id s.sources)
    source ← require found (not_found "Integration source not found")
    modify (insert_sync_batch (manual_batch source))
    enqueue (request.queue_up 0) (sync_job source)
    queue (request.queue_up 1) (
        event_row request.now (request.new_id 4) (codes "sync.started") (codes "sync_batch")
          (request.new_id 0)
          ((codes "syncBatchId", request.new_id 0) ∷ (codes "integrationSourceId", source.id) ∷ [])
          (request.new_id 3))
    pure (manual_batch source)
