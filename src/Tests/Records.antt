-- ===== src/Tests/Records.antt =====
-- The theorems on the records of a source and on the deletion of investments, at sample data.
use wealth_track.Prelude.{true, List, [], ◌∷◌, none, some}
use wealth_track.Prelude.Text.{codes, text_eq}
use wealth_track.Rows.{
  IntegrationSourceRow, SourceType, SourceStatus, SyncFrequency, unclassified, ManualSyncJob,
  Payload, text,
}
use wealth_track.Store.{Store, empty}
use wealth_track.ManualSync.{Env}
use wealth_track.Investments.{Ledger}
use wealth_track.Tests.Figures.{sql, investments}

abbrev source : IntegrationSourceRow
source = record {
  id = codes "s1";
  name = codes "Ledger";
  source_type = SourceType.api;
  status = SourceStatus.inactive;
  secret_ref = codes "secret";
  connection_config = none;
  field_mapping = [];
  sync_frequency = SyncFrequency.manual;
  last_tested_at = none;
  last_successful_sync_at = none;
  created_by = codes "u1";
  updated_by = none;
  created_at = 1;
  updated_at = 1;
}

-- A record with the fields that are needed, and one without.
abbrev records : List Payload
records =
    ((codes "customerId", text (codes "C1"))
      ∷ (codes "customerName", text (codes "Ada"))
      ∷ (codes "investmentAmount", text (codes "5"))
      ∷ [])
    ∷ ((codes "customerId", text (codes "C2")) ∷ [])
    ∷ []

abbrev env : Env
env = record {
  now = 7;
  today = codes "2024-01-01";
  new_id = λ n m. codes "i1";
  records_of = λ s. records;
  decimal = λ n. codes "0";
  number = λ c. some 30;
  category = λ c. some unclassified;
  accepts = λ r. true;
}

abbrev job : ManualSyncJob
job = record {
  sync_batch_id = codes "b1";
  integration_source_id = codes "s1";
  actor_id = codes "u1";
  request_id = [];
  correlation_id = [];
}

abbrev source_store : Store
source_store = record empty { sources = source ∷ [] }

abbrev ledger : Ledger
ledger = record {
  sql = sql;
  same = text_eq;
  import_text = λ i. codes "confirmed";
  tenor_text = λ t. codes "unclassified";
  newest_by_id = λ a b. true;
  newest = λ a b. true;
}

abbrev invested_store : Store
invested_store = record empty { investments = investments }
