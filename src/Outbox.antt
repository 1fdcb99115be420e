-- ===== src/Outbox.antt =====
-- apps/api/src/modules/outbox/outbox.service.ts and apps/api/src/common/queues/job-dispatcher.service.ts:
-- events are stored and a job is queued for each.
use wealth_track.Prelude.{ℕ, Bool, [], ◌∷◌, ◌++◌, none, if◌then◌else◌}
use wealth_track.Prelude.Text.{Text}
use wealth_track.Prelude.Action.{Action, ok, err, internal, modify, ◌>>◌}
use wealth_track.Rows.{Time, Json, OutboxEventRow, EventStatus, Job, dispatch_outbox_event}
use wealth_track.Store.{Store}

-- What a request draws on: the clock, the identifiers that `createId` gives in turn, and whether
-- the n-th addition to a queue succeeds (Redis may be down).
pub record Request : Type 0 where
  pub now : Time
  pub new_id : ℕ → Text
  pub queue_up : ℕ → Bool

-- `queue.add(name, job)`
unfoldable pub enqueue : Bool → Job → Action Store (Unit {0})
enqueue up job s =
    if up then (ok tt, record s { jobs = s.jobs ++ job ∷ [] }) else (err (internal "queue"), s)

unfoldable pub event_row : Time → Text → Text → Text → Text → Json → Text → OutboxEventRow
event_row now id event_type aggregate_type aggregate_id payload correlation_id = record {
  id = id;
  aggregate_type = aggregate_type;
  aggregate_id = aggregate_id;
  event_type = event_type;
  event_version = 1;
  payload_json = payload;
  headers_json = none;
  correlation_id = correlation_id;
  request_id = none;
  occurred_at = now;
  status = EventStatus.pending;
  attempts = 0;
  next_attempt_at = none;
  dispatched_at = none;
  last_error_message = none;
  created_at = now;
  updated_at = now;
}

-- `OutboxService.queue`
unfoldable pub queue : Bool → OutboxEventRow → Action Store (Unit {0})
unfolding enqueue
queue up event = do
  modify (λ s. record s { events = s.events ++ event ∷ [] })
  enqueue up (
      dispatch_outbox_event
        (record { outbox_event_id = event.id; correlation_id = event.correlation_id }))
