-- ===== src/Integrations/Inactive.antt =====
-- Which sources can become active.
use wealth_track.Prelude.{
  String, ◌≡◌, refl, sym, Bool, true, false, not, List, [], ◌∷◌, Option, none, some, find, filter,
  All, All-append, arith, Bool-cases, Option-cases, inl, inr, ltb,
}
use mathlib.Core.Path.{subst}
use wealth_track.Prelude.Text.{Text, text_eq}
use wealth_track.Prelude.Action.{
  Action, Result, HttpError, ok, err, pure, require, continue, ◌>>=◌, ◌>>◌,
}
use wealth_track.Rows.{IntegrationSourceRow, GoogleSheetsSyncJob, Job}
use wealth_track.Store.{Store}
use wealth_track.Store.Queries.{update_where}
use wealth_track.Actor.{AuthenticatedActor, assert_permitted}
use wealth_track.Outbox.{Request, enqueue, queue}
use wealth_track.Scheduler.{is_active, is_polled, run}
use wealth_track.Scheduler.Due.{RunEnd, due_of, all_started, queue_down, run-RunEnd}
use wealth_track.Sheets.{Google, SyncReply, handle, mark_source}
use wealth_track.Sheets.Rows.{Env}
use wealth_track.Sheets.Outcome.{SyncEnd, no_source, stopped, completed, all_counts, handle-SyncEnd}
use wealth_track.Integrations.{
  Takes, CreateIntegrationRequest, UpdateIntegrationRequest, find_source, insert_source,
  update_source, new_source, updated_source, disabled_source, change_source, create, update,
  disable, trigger_sync,
}

abbrev pub IsInactive : IntegrationSourceRow → Type 0
IsInactive x = is_active x.status ≡ false

abbrev pub AllInactive : Store → Type 0
AllInactive s = All IsInactive s.sources

-- Found rows have what all rows have.
pub find-All :
    {A : Type 0} (P : A → Type 0) (p : A → Bool) (xs : List A) (a : A)
    → All P xs
    → find p xs ≡ some a
    → P a
find-All P p [] a h e = cc
find-All P p (x ∷ xs) a h e = elim (Bool-cases (p x)) [
  | inl b ↦ subst P (found b) (h.0)
  | inr b ↦ find-All P p xs a (h.1) (later b)
]
  where
    found : p x ≡ true → x ≡ a
    found b = ground (arith, e)

    later : p x ≡ false → find p xs ≡ some a
    later b = ground (arith, e)

update_where-All :
    {A : Type 0} (P : A → Type 0) (p : A → Bool) (f : A → A) (xs : List A)
    → ((a : A) → P a → P (f a))
    → All P xs
    → All P (update_where p f xs)
update_where-All P p f [] k h = tt
update_where-All P p f (x ∷ xs) k h = ground (arith, update_where-All P p f xs k (h.1), k x (h.0))

module _ {A : Type 0} where
  -- An action that makes no source active.
  abbrev pub Preserves : Action Store A → Type 0
  Preserves m = (s : Store) → AllInactive s → AllInactive (m s).1

  require-Preserves : (o : Option A) (e : HttpError) → Preserves (require o e)
  require-Preserves none e s h = h
  require-Preserves (some a) e s h = h

module _ {A B : Type 0} where
  then-Preserves :
      (m : Action Store A) (f : A → Action Store B)
      → Preserves m
      → ((a : A) → Preserves (f a))
      → Preserves (m >>= f)
  then-Preserves m f hm hf s h = after (m s) (hm s h)
    where
      after : (x : Result A × Store) → AllInactive (x.1) → AllInactive (continue (x.0) f (x.1)).1
      after (ok a, t) k = hf a t k
      after (err e, t) k = k

module _ (takes : Takes) where
  insert_source-Preserves :
      (source : IntegrationSourceRow) → IsInactive source → Preserves (insert_source takes source)
  unfolding insert_source
  insert_source-Preserves source i s h = elim (Bool-cases (takes source s.sources)) [
    | inl t ↦ rw t (All-append IsInactive s.sources (source ∷ []) h (i, tt))
    | inr t ↦ rw t h
  ]

  update_source-Preserves :
      (source : IntegrationSourceRow) → IsInactive source → Preserves (update_source takes source)
  unfolding update_source
  update_source-Preserves source i s h =
      elim (Bool-cases (takes source (filter (λ x. not (text_eq x.id source.id)) s.sources))) [
        | inl t ↦ rw t (
            update_where-All IsInactive (λ x. text_eq x.id source.id) (λ x. source) s.sources
              (λ x k. i) h)
        | inr t ↦ rw t h
      ]

module _ (request : Request) (takes : Takes) (actor : AuthenticatedActor) where
  change_source-Preserves :
      (id : Text) (change : IntegrationSourceRow → IntegrationSourceRow)
      → ((x : IntegrationSourceRow) → IsInactive x → IsInactive (change x))
      → Preserves (change_source request takes actor id change)
  unfolding change_source
  change_source-Preserves id change k s h = elim (Option-cases (find_source id s.sources)) [
    | inl e ↦ rw e h
    | inr (source, e) ↦ rw e (
        then-Preserves (update_source takes (change source)) (λ _. pure (change source))
          (update_source-Preserves takes (change source)
            (k source (find-All IsInactive (λ x. text_eq x.id id) s.sources source h e)))
          (λ _ t u. u) s h)
  ]

  pub guarded-Preserves :
      {A : Type 0} (permission : Text) (message : String) (m : Action Store A)
      → Preserves m
      → Preserves (assert_permitted (some actor) permission message >> m)
  guarded-Preserves permission message m hm =
      then-Preserves (assert_permitted (some actor) permission message) (λ _. m) (λ s h. h)
        (λ _. hm)

  pub create-Preserves :
      (payload : CreateIntegrationRequest) → Preserves (create request takes actor payload)
  unfolding create is_active
  create-Preserves payload = guarded-Preserves _ _ _ (
      then-Preserves (insert_source takes (new_source request takes actor payload)) _
        (insert_source-Preserves takes _ refl) (λ _ t u. u))

  pub update-Preserves :
      (id : Text) (payload : UpdateIntegrationRequest)
      → Preserves (update request takes actor id payload)
  unfolding update
  update-Preserves id payload =
      guarded-Preserves _ _ _
        (change_source-Preserves id (updated_source request takes actor payload) (λ x h. h))

  pub disable-Preserves : (id : Text) → Preserves (disable request takes actor id)
  unfolding disable is_active
  disable-Preserves id =
      guarded-Preserves _ _ _
        (change_source-Preserves id (disabled_source request takes actor) (λ x h. refl))

-- An action that leaves the sources as they are.
module _ {A : Type 0} where
  abbrev pub Leaves : Action Store A → Type 0
  Leaves m = (s : Store) → (m s).1.sources ≡ s.sources

  pub Leaves-Preserves : (m : Action Store A) → Leaves m → Preserves m
  Leaves-Preserves m l s h = subst (All IsInactive) (sym (l s)) h

-- A run of the scheduler leaves the sources alone.
pub run-Leaves : (request : Request) → Leaves (run request)
run-Leaves request s = at_end _ (run-RunEnd request s)
  where
    at_end :
        (x : Result (Unit {0}) × Store)
        → RunEnd request 0 (due_of request (filter is_polled s.sources)) s x
        → x.1.sources ≡ s.sources
    at_end _ all_started = refl
    at_end _ (queue_down before x after h d e) = refl

-- A synchronisation makes no source active.
pub handle-Preserves :
    (env : Env) (google : Google) (job : GoogleSheetsSyncJob) → Preserves (handle env google job)
handle-Preserves env google job s h = at_end _ (handle-SyncEnd env google job s)
  where
    marked : AllInactive (mark_source env google job s)
    marked =
        update_where-All IsInactive (λ x. text_eq x.id job.integration_source_id)
          (λ x. record x { last_successful_sync_at = some env.now; updated_at = env.now }) s.sources
          (λ x k. k) h

    at_end : (x : Result SyncReply × Store) → SyncEnd env google job s x → AllInactive (x.1)
    at_end _ (no_source n e) = h
    at_end _ (stopped e t b k) = subst (All IsInactive) (sym k) h
    at_end _ (completed source f t b k) =
        elim (Bool-cases (ltb 0 (all_counts env google job source s).invalid)) [
          | inl c ↦ subst (All IsInactive) (sym (rw c at k)) h
          | inr c ↦ subst (All IsInactive) (sym (rw c at k)) marked
        ]

pub enqueue-Preserves : (up : Bool) (job : Job) → Preserves (enqueue up job)
unfolding enqueue
enqueue-Preserves true job s h = h
enqueue-Preserves false job s h = h

module _ (request : Request) (takes : Takes) (actor : AuthenticatedActor) where
  pub trigger_sync-Preserves : (id : Text) → Preserves (trigger_sync request takes actor id)
  unfolding trigger_sync queue enqueue
  trigger_sync-Preserves id = guarded-Preserves request takes actor _ _ _ λ s h.
      elim (Option-cases (find_source id s.sources)) [
        | inl e ↦ rw e h
        | inr (source, e) ↦ elim (Bool-cases (request.queue_up 0)) [
          | inr down ↦ rw (e, down) h
          | inl up ↦ elim (Bool-cases (request.queue_up 1)) [
            | inl also ↦ rw (e, up, also) h
            | inr down ↦ rw (e, up, down) h
          ]
        ]
      ]
