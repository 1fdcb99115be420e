-- ===== src/Tests/Syncing.antt =====
-- The theorems on sheets, the scheduler and integrations, at sample data.
use wealth_track.Prelude.{◌≡◌, refl, true, List, [], ◌∷◌, none, some, filter, append-nil, sym}
use wealth_track.Prelude.Text.{Text, codes, text_eq, to_lower_case}
use wealth_track.Prelude.Assoc.{lookup, set}
use wealth_track.Prelude.Action.{Result, HttpError, ok, err}
use wealth_track.Rows.{
  IntegrationSourceRow, SourceType, SourceStatus, SyncFrequency, GoogleSheetTabRow, TabStatus,
  GoogleSheetsSyncJob, TriggerMode, Cell, text,
}
use wealth_track.Store.{Store, empty}
use wealth_track.Store.Queries.{insert_investment, collides}
use wealth_track.Sheets.{Google}
use wealth_track.Sheets.Cells.{is_blank, is_truthy, missing_fields, map_row, snake_case, required}
use wealth_track.Sheets.Rows.{
  Env, Counts, no_counts, one_valid, stored_checksum, write_found, write_record, write_checksum,
  import_row, record_row, process_row,
}
use wealth_track.Sheets.Again.{process_row_again}
use wealth_track.Scheduler.{is_due, is_polled, run}
use wealth_track.Scheduler.Due.{RunEnd, due_of, run-RunEnd}
use wealth_track.Actor.{AuthenticatedActor}
use wealth_track.Integrations.{CreateIntegrationRequest, create}
use wealth_track.Integrations.Tabs.{discover_sheet_tabs}
use wealth_track.Integrations.Tabs.Discovery.{Discovered, discover_sheet_tabs-Discovered}
use wealth_track.Integrations.Webhook.{receive}
use wealth_track.Integrations.Reachable.{start, created, Reachable_idle}
use wealth_track.Tests.Data.{request, admin}

-- A user who may create sources.
abbrev manager : AuthenticatedActor
manager = record admin { permissions = codes "integrations.create" ∷ [] }

abbrev source : IntegrationSourceRow
source = record {
  id = codes "s1";
  name = codes "Sheet";
  source_type = SourceType.google_sheets;
  status = SourceStatus.active;
  secret_ref = codes "secret";
  connection_config = some ((codes "spreadsheetId", codes "x") ∷ []);
  field_mapping = [];
  sync_frequency = SyncFrequency.daily;
  last_tested_at = none;
  last_successful_sync_at = none;
  created_by = codes "u1";
  updated_by = none;
  created_at = 1;
  updated_at = 1;
}

abbrev tab : GoogleSheetTabRow
tab = record {
  id = codes "t1";
  integration_source_id = codes "s1";
  sheet_id = codes "0";
  sheet_title = codes "A";
  range_notation = codes "A1:ZZ";
  column_mapping = [];
  status = TabStatus.active;
  last_synced_at = none;
  last_row_count = none;
  created_at = 1;
  updated_at = 1;
}

abbrev header : List Cell
header =
    text (codes "Customer ID")
    ∷ text (codes "customer_name")
    ∷ text (codes "mobilisation_date")
    ∷ text (codes "investment_amount")
    ∷ text (codes "fund_type")
    ∷ text (codes "tenor_days")
    ∷ []

abbrev row : List Cell
row =
    text (codes "C1")
    ∷ text (codes "Ada")
    ∷ text (codes "2024-01-01")
    ∷ text (codes "1")
    ∷ text (codes "inflow")
    ∷ text (codes "30")
    ∷ []

abbrev google : Google
google = record { connects = λ s. true; values = λ s r. some (header ∷ row ∷ []) }

abbrev env : Env
env = record {
  now = 7;
  new_id = λ t n m. t;
  checksum = λ r. codes "sum";
  decimal = λ n. [];
  number = λ c. some 30;
  accepts = λ r. true;
}

abbrev job : GoogleSheetsSyncJob
job = record {
  integration_source_id = codes "s1";
  sync_batch_id = codes "b1";
  tab_ids = [];
  actor_id = codes "u1";
  request_id = [];
  correlation_id = [];
  trigger_mode = TriggerMode.manual;
}

abbrev sync_store : Store
sync_store = record empty { sources = source ∷ []; tabs = tab ∷ [] }

snake_case_runs : snake_case (codes "Customer  ID!") ≡ codes "customer_id"
unfolding snake_case to_lower_case
snake_case_runs = refl

is_due_runs : is_due 7 source ≡ true
unfolding is_due
is_due_runs = refl

run-RunEnd_example :
    RunEnd request 0
      (due_of request (filter is_polled sync_store.sources))
      sync_store
      (run request sync_store)
run-RunEnd_example = run-RunEnd request sync_store

discover_example :
    Discovered request
      (λ s x. some ((codes "0", codes "A") ∷ []))
      (λ a b. true)
      manager
      (codes "s1")
      sync_store
      (discover_sheet_tabs request
        (λ s x. some ((codes "0", codes "A") ∷ []))
        (λ a b. true)
        manager
        (codes "s1")
        sync_store)
discover_example =
    discover_sheet_tabs-Discovered request (λ s x. some ((codes "0", codes "A") ∷ [])) (λ a b. true)
      manager (codes "s1") sync_store

abbrev payload : CreateIntegrationRequest
payload = record {
  name = codes "Sheet";
  source_type = SourceType.google_sheets;
  secret_ref = codes "secret";
  field_mapping = [];
  connection_config = (codes "spreadsheetId", codes "x") ∷ [];
  sync_frequency = SyncFrequency.daily;
}

abbrev created_store : Store
created_store = (create request (λ x xs. true) manager payload empty).1

Reachable_idle_example :
    (run request created_store ≡ (ok tt, created_store))
    × ((receive request
          (λ s. s)
          (some (codes "secret"))
          (some (codes "s1"))
          (some (codes "secret"))
          (some (codes "update"))
          created_store).1
        ≡ created_store)
Reachable_idle_example =
    Reachable_idle request (λ s. s) (some (codes "secret")) (some (codes "s1"))
      (some (codes "secret")) (some (codes "update")) created_store
      (created empty request (λ x xs. true) manager payload (start empty refl))

abbrev fields : List Text
fields = required

abbrev first_run : Result Counts × Store
first_run = process_row env tab (codes "b1") (codes "u1") fields 1 row no_counts sync_store

first_run-ok : first_run ≡ (ok (one_valid no_counts), first_run.1)
unfolding process_row record_row import_row write_record write_found write_checksum
    insert_investment collides stored_checksum missing_fields map_row is_blank is_truthy lookup set
    text_eq
first_run-ok = refl

process_row_again_example :
    (e : HttpError) × (process_row env tab
        (codes "b1")
        (codes "u1")
        fields
        1
        row
        no_counts
        first_run.1
      ≡ (err e, first_run.1))
unfolding is_truthy lookup map_row set text_eq
process_row_again_example =
    process_row_again env tab (codes "b1") (codes "u1") fields 1 row no_counts sync_store
      first_run.1 first_run.1 [] refl first_run-ok (sym (append-nil first_run.1.investments))
