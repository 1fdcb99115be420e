-- ===== src/Users.antt =====
-- apps/api/src/modules/users/users.service.ts: the administration of users.
pub mod Emails
pub mod Deletion
use wealth_track.Prelude.{
  ℕ, Bool, true, false, not, ◌&&◌, ◌||◌, List, [], ◌∷◌, ◌++◌, Option, none, some, filter, length,
  any, or_else, if◌then◌else◌,
}
use wealth_track.Prelude.Text.{Text, codes, text_eq, includes, is_empty}
use wealth_track.Prelude.Action.{
  Action, forbidden, not_found, conflict, internal, ok, pure, gets, modify, require, throw_if,
  ◌>>=◌, ◌>>◌,
}
use wealth_track.Rows.{ActorType, RoleRow, UserStatus, UserRow}
use wealth_track.Store.Queries.{update_where}
use wealth_track.Actor.{AuthenticatedActor, assert_can_manage_users}
use wealth_track.Password.{hash_password, verify_password}
use wealth_track.Accounts.{
  Accounts, Env, welcome, is_live, find_user, find_by_email, update_user, find_by_code,
}
use wealth_track.Auth.Reset.{issue_welcome_token}

pub record CreateUserRequest : Type 0 where
  pub name : Text
  pub email : Text
  pub role_code : Text
  pub password : Option Text

pub record UpdateUserRequest : Type 0 where
  pub name : Option Text
  pub email : Option Text
  pub role_code : Option Text

-- A row without its password, `Omit<UserRow, 'passwordHash'>`, is the row with an empty one.
abbrev pub sanitize_user : UserRow → UserRow
sanitize_user user = record user { password_hash = [] }

abbrev pub is_found : Option UserRow → Bool
is_found none = false
is_found (some user) = true

-- `existingUser && existingUser.id !== user.id`
abbrev pub is_other : UserRow → Option UserRow → Bool
is_other user none = false
is_other user (some existing) = not (text_eq existing.id user.id)

abbrev id_of : Option RoleRow → Option Text
id_of none = none
id_of (some role) = some role.id

abbrev pub is_admin : ActorType → Bool
is_admin ActorType.admin = true
is_admin _ = false

module _ (env : Env) (actor : AuthenticatedActor) where
  abbrev pub new_user : CreateUserRequest → RoleRow → UserRow
  new_user payload role = record {
    id = env.new_id 1;
    name = payload.name;
    email = payload.email;
    password_hash = hash_password env.scrypt env.salt (or_else payload.password env.temp_password);
    role_id = role.id;
    status = UserStatus.inactive;
    last_login_at = none;
    created_at = env.now;
    updated_at = env.now;
    deleted_at = none;
    created_by = some actor.actor_id;
    updated_by = some actor.actor_id;
  }

  -- The token of the invitation, and its mail. The identifier of the token is `new_id 0`.
  invite : UserRow → Action Accounts (Unit {0})
  unfolding issue_welcome_token
  invite user = do
    issue_welcome_token env user.id
    modify
        (λ s. record s { mails = s.mails ++ welcome user.email (env.new_id 0) env.raw_token ∷ [] })

  unfoldable pub create : CreateUserRequest → Action Accounts UserRow
  unfolding find_by_email find_by_code invite
  create payload = do
    assert_can_manage_users (some actor) (codes "users.create") "users.create is required"
    existing ← gets (λ s. find_by_email payload.email s.users)
    throw_if (is_found existing) (conflict "A user with this email already exists")
    found ← gets (λ s. find_by_code payload.role_code s.roles)
    role ← require found (not_found "Role not found")
    modify (λ s. record s { users = s.users ++ new_user payload role ∷ [] })
    invite (new_user payload role)
    pure (sanitize_user (new_user payload role))

  unfoldable pub resend_invite : Text → Action Accounts Text
  unfolding find_user invite
  resend_invite id = do
    assert_can_manage_users (some actor) (codes "users.create") "users.create is required"
    found ← gets (λ s. find_user id s.users)
    user ← require found (not_found "User not found")
    invite user
    pure user.email

  -- Whether the address of the payload belongs to another user.
  abbrev pub is_taken : Option Text → UserRow → List UserRow → Bool
  is_taken none user users = false
  is_taken (some email) user users =
      if is_empty email || text_eq email user.email
      then false
      else is_other user (find_by_email email users)

  -- `payload.roleCode ? findByCode(payload.roleCode)?.id : user.roleId`
  role_id_of : Option Text → UserRow → List RoleRow → Option Text
  unfolding find_by_code
  role_id_of none user roles = some user.role_id
  role_id_of (some code) user roles =
      if is_empty code then some user.role_id else id_of (find_by_code code roles)

  abbrev pub updated : UpdateUserRequest → UserRow → Text → UserRow
  updated payload user role_id = record user {
    name = or_else payload.name user.name;
    email = or_else payload.email user.email;
    role_id = role_id;
    updated_at = env.now;
    updated_by = some actor.actor_id;
  }

  unfoldable pub update : Text → UpdateUserRequest → Action Accounts UserRow
  unfolding find_user role_id_of update_user
  update id payload = do
    assert_can_manage_users (some actor) (codes "users.update") "users.update is required"
    found ← gets (λ s. find_user id s.users)
    user ← require found (not_found "User not found")
    taken ← gets (λ s. is_taken payload.email user s.users)
    throw_if taken (conflict "A user with this email already exists")
    role ← gets (λ s. role_id_of payload.role_code user s.roles)
    role_id ← require role (not_found "Role not found")
    update_user (updated payload user role_id)
    pure (sanitize_user (updated payload user role_id))

  abbrev new_password : Text → UserRow → UserRow
  new_password password user = record user {
    password_hash = hash_password env.scrypt env.salt password;
    updated_at = env.now;
    updated_by = some actor.actor_id;
  }

  unfoldable pub update_password : Text → Text → Action Accounts (Unit {0})
  unfolding find_user update_user
  update_password id password = do
    assert_can_manage_users (some actor) (codes "users.update") "users.update is required"
    found ← gets (λ s. find_user id s.users)
    user ← require found (not_found "User not found")
    update_user (new_password password user)

  unfoldable pub update_my_password : Text → Text → Action Accounts (Unit {0})
  unfolding find_user update_user
  update_my_password current password = do
    assert_can_manage_users (some actor) (codes "users.update") "users.update is required"
    found ← gets (λ s. find_user actor.actor_id s.users)
    user ← require found (not_found "User not found")
    throw_if (not (verify_password env.scrypt current user.password_hash))
        (forbidden "Current password is incorrect")
    update_user (new_password password user)

  unfoldable pub change_status : Text → UserStatus → Action Accounts UserRow
  unfolding find_user update_user
  change_status id status = do
    assert_can_manage_users (some actor) (codes "users.deactivate") "users.deactivate is required"
    found ← gets (λ s. find_user id s.users)
    user ← require found (not_found "User not found")
    let changed = record user {
      status = status;
      updated_at = env.now;
      updated_by = some actor.actor_id;
    }
    update_user changed
    pure (sanitize_user changed)

  -- `id IN (ids) AND deleted_at IS NULL`, under the collation of the column.
  abbrev pub is_doomed : List Text → UserRow → Bool
  is_doomed ids u = any (env.same u.id) ids && is_live u

  -- `softDeleteByIds`, and `affectedRows`.
  unfoldable pub soft_delete_by_ids : List Text → Action Accounts ℕ
  soft_delete_by_ids ids s = (
    ok (length (filter (is_doomed ids) s.users)),
    record s {
      users =
          update_where (is_doomed ids)
            (λ u. record u { deleted_at = some env.now; status = UserStatus.inactive }) s.users;
    },
  )

  -- The answer for no identifiers is 0, which is what the deletion gives for none.
  unfoldable pub bulk_soft_delete : List Text → Action Accounts ℕ
  unfolding soft_delete_by_ids
  bulk_soft_delete ids = do
    assert_can_manage_users (some actor) (codes "users.deactivate") "users.deactivate is required"
    throw_if (not (is_admin actor.actor_type))
        (internal "Admin role is required to bulk-delete users")
    soft_delete_by_ids (filter (λ id. not (text_eq id actor.actor_id)) ids)
