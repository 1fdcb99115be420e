-- ===== src/Actor.antt =====
-- apps/api/src/common/authenticated-actor.ts, and the policies of the modules: who may do what.
use wealth_track.Prelude.{Bool, false, not, Option, none, some, List, String}
use wealth_track.Prelude.Text.{Text, codes, includes}
use wealth_track.Prelude.Action.{Action, forbidden, throw_if}
use wealth_track.Rows.{ActorType}

pub record AuthenticatedActor : Type 0 where
  pub actor_id : Text
  pub actor_type : ActorType
  pub session_id : Option Text
  pub permissions : List Text

-- `actor?.permissions.includes(permission)`
unfoldable pub permits : Option AuthenticatedActor → Text → Bool
permits none permission = false
permits (some actor) permission = includes actor.permissions permission

-- `if (!actor?.permissions.includes(permission)) throw new ForbiddenException(message)`
abbrev pub assert_permitted :
    {S : Type 0} → Option AuthenticatedActor → Text → String → Action S (Unit {0})
assert_permitted actor permission message =
    throw_if (not (permits actor permission)) (forbidden message)

module _ {S : Type 0} (actor : Option AuthenticatedActor) where
  -- uploads.policy.ts
  abbrev pub assert_can_read_preview : Action S (Unit {0})
  assert_can_read_preview =
      assert_permitted actor (codes "uploads.preview.read") "uploads.preview.read is required"

  abbrev pub assert_can_confirm_import : Action S (Unit {0})
  assert_can_confirm_import =
      assert_permitted actor (codes "uploads.import.confirm") "uploads.import.confirm is required"

  abbrev pub assert_can_manage_all : Action S (Unit {0})
  assert_can_manage_all =
      assert_permitted actor (codes "users.create")
        "Super Admin access required to manage all upload data"

  abbrev pub assert_can_create_csv_upload : Action S (Unit {0})
  assert_can_create_csv_upload =
      assert_permitted actor (codes "uploads.csv.create") "uploads.csv.create is required"

  -- users.policy.ts
  abbrev pub assert_can_read_users : Action S (Unit {0})
  assert_can_read_users = assert_permitted actor (codes "users.read") "users.read is required"

  abbrev pub assert_can_manage_users : Text → String → Action S (Unit {0})
  assert_can_manage_users permission message = assert_permitted actor permission message
