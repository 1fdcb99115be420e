-- ===== src/Integrations/Webhook.antt =====
-- apps/api/src/modules/integrations/google-sheets-webhook.controller.ts: Google reports that a
-- spreadsheet has changed.
use wealth_track.Prelude.{
  ℕ, ◌≡◌, Bool, true, false, not, ◌&&◌, ◌||◌, ◌==◌, List, [], ◌∷◌, Option, none, some, or_else,
  length, arith, Bool-cases, Option-cases, inl, inr, if◌then◌else◌,
}
use wealth_track.Prelude.Text.{Text, codes, text_eq, text_eq_iff, is_empty, includes}
use wealth_track.Prelude.Action.{Action, Result, HttpError, ok, err, unauthorized, modify, ◌>>◌}
use wealth_track.Rows.{
  IntegrationSourceRow, SyncBatchRow, SyncSourceType, TriggerMode, GoogleSheetsSyncJob,
  google_sheets_sync,
}
use wealth_track.Store.{Store}
use wealth_track.Outbox.{Request, enqueue}
use wealth_track.Scheduler.{
  is_polled, is_google_sheets, is_active, pending_batch, insert_sync_batch,
}
use wealth_track.Integrations.{find_source}

-- `utf8` is `Buffer.from(s)`, `secret` the environment's GOOGLE_WEBHOOK_SECRET.
module _ (request : Request) (utf8 : Text → List ℕ) (secret : Option Text) where
  -- `lengthsMatch && timingSafeEqual(safe, paddedExpected)`: buffers of one length need no padding.
  same_bytes : List ℕ → List ℕ → Bool
  same_bytes a b = (length a == length b) && text_eq a b

  abbrev pub expected : Text
  expected = or_else secret []

  abbrev is_change : Option Text → Bool
  is_change state = includes (codes "update" ∷ codes "add" ∷ codes "change" ∷ []) (or_else state [])

  abbrev pub webhook_batch : IntegrationSourceRow → SyncBatchRow
  webhook_batch source =
      pending_batch (request.new_id 0) source.id SyncSourceType.api_sync TriggerMode.scheduled none
        (some (request.new_id 1)) request.now

  abbrev pub webhook_job : IntegrationSourceRow → GoogleSheetsSyncJob
  webhook_job source = record {
    integration_source_id = source.id;
    sync_batch_id = request.new_id 0;
    tab_ids = [];
    actor_id = codes "system";
    request_id = request.new_id 2;
    correlation_id = request.new_id 1;
    trigger_mode = TriggerMode.webhook;
  }

  start : Option IntegrationSourceRow → Action Store (Unit {0})
  unfolding enqueue is_google_sheets is_active
  start none s = (ok tt, s)
  start (some source) s =
      if is_polled source
      then (modify (insert_sync_batch (webhook_batch source))
            >> enqueue (request.queue_up 0) (google_sheets_sync (webhook_job source)))
          s
      else (ok tt, s)

  -- An absent header is none.
  unfoldable pub receive : Option Text → Option Text → Option Text → Action Store (Unit {0})
  unfolding same_bytes start
  receive channel_id token state s =
      if is_empty (or_else channel_id []) || not (is_change state)
      then (ok tt, s)
      else if is_empty expected
      then (err (unauthorized "Webhook secret not configured"), s)
      else if not (same_bytes (utf8 (or_else token [])) (utf8 expected))
      then (err (unauthorized "Invalid webhook token"), s)
      else start (find_source (or_else channel_id []) s.sources) s

  same_bytes-eq : (a b : List ℕ) → same_bytes a b ≡ true → a ≡ b
  unfolding same_bytes
  same_bytes-eq a b h = ground (arith, text_eq_iff a b)

  -- The ways in which a notification ends. The last two are those of an authentic one.
  pub data Received (channel token state : Option Text) (s : Store)
      : Result (Unit {0}) × Store → Type 0 where
    ignored : Received channel token state s (ok tt, s)
    refused : (e : HttpError) → Received channel token state s (err e, s)
    authentic :
        is_change state ≡ true
        → is_empty expected ≡ false
        → utf8 (or_else token []) ≡ utf8 expected
        → (source : IntegrationSourceRow) → find_source (or_else channel []) s.sources ≡ some source
        → is_polled source ≡ true
        → Received channel token state s (
            enqueue
              (request.queue_up 0)
              (google_sheets_sync (webhook_job source))
              (insert_sync_batch (webhook_batch source) s))

  start-Received :
      (channel token state : Option Text) (s : Store)
      → is_change state ≡ true
      → is_empty expected ≡ false
      → utf8 (or_else token []) ≡ utf8 expected
      → Received channel token state s (start (find_source (or_else channel []) s.sources) s)
  unfolding start
  start-Received channel token state s c e t =
      elim (Option-cases (find_source (or_else channel []) s.sources)) [
        | inl none_found ↦ rw none_found ignored
        | inr (source, found) ↦ elim (Bool-cases (is_polled source)) [
          | inl p ↦ rw (found, p) (authentic c e t source found p)
          | inr p ↦ rw (found, p) ignored
        ]
      ]

  pub receive-Received :
      (channel token state : Option Text) (s : Store)
      → Received channel token state s (receive channel token state s)
  unfolding receive
  receive-Received channel token state s =
      elim (Bool-cases (is_empty (or_else channel []) || not (is_change state))) [
        | inl skip ↦ rw skip ignored
        | inr go ↦ elim (Bool-cases (is_empty expected)) [
          | inl unset ↦ rw (go, unset) (refused _)
          | inr set ↦ elim (Bool-cases (same_bytes (utf8 (or_else token [])) (utf8 expected))) [
            | inr wrong ↦ rw (go, set, wrong) (refused _)
            | inl right ↦
                rw (go, set, right)
                  (start-Received channel token state s (ground (arith, go)) set
                    (same_bytes-eq _ _ right))
          ]
        ]
      ]
