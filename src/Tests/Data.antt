-- ===== src/Tests/Data.antt =====
-- A batch, its file and its rows, and the surroundings that the tests run in.
use wealth_track.Prelude.{ℕ, ◌+◌, ◌*◌, true, [], ◌∷◌, Option, none, some, ltb}
use wealth_track.Prelude.Text.{Text, codes}
use wealth_track.Rows.{
  ActorType, BatchStatus, RowStatus, FundType, TenorCategory, UploadBatchRow, UploadPreviewRow,
  ProcessCsvUploadJob, ConfirmImportJob,
}
use wealth_track.Store.{Store, empty}
use wealth_track.Processing.Enums.{JsNumber}
use wealth_track.Processing.{Files, Checks}
use wealth_track.Import.{Clock}
use wealth_track.Actor.{AuthenticatedActor}
use wealth_track.Outbox.{Request}

-- Identifiers in turn: one, two, three code units.
abbrev pub new_id : ℕ → Text
new_id n = b'#' ∷ (65 + n) ∷ []

abbrev digits : ℕ → Text → Option ℕ
digits n [] = some n
digits n (c ∷ s) = digits (10 * n + c) s

-- Numbers that are written in decimal digits, by their code units.
abbrev pub js : JsNumber
js = record {
  Num = ℕ;
  number = digits 0;
  is_positive = λ n. ltb 0 n;
  round = λ n. n;
  to_fixed₄ = λ n. codes "1.0000";
}

abbrev pub file : Text
file =
    codes
      "user_id,creation_date,amount,funds_class,tenure,investment_id\nC1,2024-01-31,100,Inflow,30,R1\nC2,2024-02-31,,Inflow,30,R1\n"

abbrev pub files : Files
files = record { decode_base64 = λ s. s; read_csv = λ url. some file }

abbrev pub checks : Checks
checks = record { accepts_row = λ r. true; accepts_error = λ e. true }

abbrev pub batch_of : Text → BatchStatus → UploadBatchRow
batch_of id status = record {
  id = id;
  file_name = codes "a.csv";
  file_url = codes "file:///a.csv";
  file_checksum = [];
  uploaded_by = codes "u1";
  status = status;
  total_rows = 0;
  valid_rows = 0;
  invalid_rows = 0;
  duplicate_rows = 0;
  skipped_rows = 0;
  preview_expires_at = none;
  error_file_url = none;
  processing_started_at = none;
  completed_at = none;
  created_at = 1;
  updated_at = 1;
  created_by = none;
  updated_by = none;
}

abbrev pub row_of : Text → Text → Option Text → UploadPreviewRow
row_of id batch_id reference = record {
  id = id;
  upload_batch_id = batch_id;
  csv_row_number = 2;
  customer_id = some (codes "C1");
  customer_name = none;
  customer_type = none;
  mobilisation_date = some (codes "2024-01-31");
  investment_amount = some (codes "1.0000");
  fund_type = some FundType.inflow;
  tenor_days = some 30;
  tenor_category = some TenorCategory.short_term;
  maturity_date = none;
  investment_reference = reference;
  currency = codes "NGN";
  source_channel = none;
  relationship_manager = none;
  cost_of_funds = none;
  source_record_hash = reference;
  row_status = RowStatus.valid;
  raw_payload_json = none;
  normalized_payload_json = none;
  created_at = 1;
  updated_at = 1;
}

abbrev pub pending_store : Store
pending_store = record empty {
  batches =
      batch_of (codes "b0") BatchStatus.imported ∷ batch_of (codes "b1") BatchStatus.pending ∷ [];
  rows = row_of (codes "r0") (codes "b0") none ∷ [];
}

abbrev pub validated_store : Store
validated_store = record empty {
  batches =
      batch_of (codes "b0") BatchStatus.imported ∷ batch_of (codes "b1") BatchStatus.validated ∷ [];
  rows =
      row_of (codes "r1") (codes "b1") (some (codes "R1"))
      ∷ row_of (codes "r2") (codes "b1") (some (codes "R1"))
      ∷ row_of (codes "r0") (codes "b0") none
      ∷ [];
}

abbrev pub clock : Clock
clock = record { now = 7; today = codes "2024-03-01" }

abbrev pub csv_job : ProcessCsvUploadJob
csv_job = record {
  batch_id = codes "b1";
  request_id = [];
  correlation_id = [];
  file_content = none;
}

abbrev pub import_job : ConfirmImportJob
import_job = record {
  batch_id = codes "b1";
  actor_id = codes "u1";
  request_id = [];
  correlation_id = [];
}

-- An actor with all the permissions of the uploads.
abbrev pub admin : AuthenticatedActor
admin = record {
  actor_id = codes "u1";
  actor_type = ActorType.admin;
  session_id = none;
  permissions =
      codes "uploads.preview.read"
      ∷ codes "uploads.import.confirm"
      ∷ codes "uploads.csv.create"
      ∷ codes "users.create"
      ∷ [];
}

-- A request while the queues are up.
abbrev pub request : Request
request = record { now = 7; new_id = new_id; queue_up = λ n. true }
