-- ===== src/Auth.antt =====
-- apps/api/src/modules/auth/auth.service.ts: sessions, and the tokens by which a password is set.
pub mod Permissions
pub mod Reset
pub mod Login
use wealth_track.Prelude.{
  ℕ, ◌+◌, ◌*◌, Bool, true, false, not, ◌&&◌, ◌||◌, List, [], ◌∷◌, ◌++◌, map, Option, none, some,
  find, filter, or_else, if◌then◌else◌,
}
use wealth_track.Prelude.Text.{Text, codes, text_eq, is_empty}
use wealth_track.Prelude.Action.{
  Action, ok, err, unauthorized, bad_request, pure, gets, modify, require, throw, throw_if, ◌>>=◌,
  ◌>>◌,
}
use wealth_track.Rows.{
  Time, RoleRow, PermissionRow, RolePermissionRow, UserStatus, UserRow, SessionStatus,
  AuthSessionRow, Purpose, TokenStatus, PasswordResetTokenRow, LoginOutcome, LoginAttemptRow,
}
use wealth_track.Store.Queries.{update_where}
use wealth_track.Actor.{AuthenticatedActor}
use wealth_track.Password.{verify_password, hash_password, hash_token, verify_token}
use wealth_track.Accounts.{
  Accounts, Env, Mail, reset_link, otp_code, find_user, find_by_email, update_user, find_role,
  find_issued_token, find_active_token, purpose_eq, revoke_all, mark_used,
}

-- `role?.code === 'super_admin'`
abbrev pub is_super_admin : Option RoleRow → Bool
is_super_admin none = false
is_super_admin (some role) = text_eq role.code (codes "super_admin")

-- `permMap.get(id)`: of two permissions with one identifier the later one counts.
unfoldable pub code_of : Text → List PermissionRow → Option Text
code_of id [] = none
code_of id (p ∷ ps) =
    let rest = code_of id ps in
    elim rest [ none ↦ if text_eq p.id id then some p.code else none | some code ↦ some code ]

-- `.map(…).filter(Boolean)`
abbrev add_code : Option Text → List Text → List Text
add_code none codes = codes
add_code (some code) codes = if is_empty code then codes else code ∷ codes

unfoldable pub granted : List PermissionRow → List RolePermissionRow → List Text
unfolding code_of
granted permissions [] = []
granted permissions (rp ∷ rps) =
    add_code (code_of rp.permission_id permissions) (granted permissions rps)

-- `listByRoleId`
abbrev pub of_role : Text → List RolePermissionRow → List RolePermissionRow
of_role role_id = filter (λ rp. text_eq rp.role_id role_id)

unfoldable pub resolved_permissions : UserRow → Accounts → List Text
unfolding find_role granted
resolved_permissions user s =
    if is_super_admin (find_role user.role_id s.roles)
    then map (λ p. p.code) s.permissions
    else granted s.permissions (of_role user.role_id s.role_permissions)

-- What a session tells of its user.
pub record SessionUser : Type 0 where
  pub id : Text
  pub name : Text
  pub email : Text
  pub role_code : Text
  pub permissions : List Text

pub record LoginReply : Type 0 where
  pub session_id : Text
  pub refresh_token : Text
  pub status : UserStatus
  pub user : SessionUser

-- `role?.code ?? user.roleId`
abbrev role_code_of : UserRow → Option RoleRow → Text
role_code_of user none = user.role_id
role_code_of user (some role) = role.code

unfoldable pub session_user : UserRow → Accounts → SessionUser
unfolding resolved_permissions find_role
session_user user s = record {
  id = user.id;
  name = user.name;
  email = user.email;
  role_code = role_code_of user (find_role user.role_id s.roles);
  permissions = resolved_permissions user s;
}

abbrev pub is_active : UserRow → Bool
is_active user = elim user.status [ UserStatus.active ↦ true | _ ↦ false ]

module _ (env : Env) where
  -- `!user || !verifyPassword(password, user.passwordHash)`
  abbrev pub is_refused : Text → Option UserRow → Bool
  is_refused password none = true
  is_refused password (some user) = not (verify_password env.scrypt password user.password_hash)

  abbrev user_id_of : Option UserRow → Option Text
  user_id_of none = none
  user_id_of (some user) = some user.id

  abbrev pub attempt : ℕ → Text → Option Text → LoginOutcome → Option Text → LoginAttemptRow
  attempt n email user_id outcome failure_reason = record {
    id = env.new_id n;
    email = email;
    user_id = user_id;
    outcome = outcome;
    failure_reason = failure_reason;
    ip_address = none;
    user_agent = none;
    correlation_id = none;
    attempted_at = env.now;
  }

  abbrev append_attempt : LoginAttemptRow → Action Accounts (Unit {0})
  append_attempt row = modify (λ s. record s { attempts = s.attempts ++ row ∷ [] })

  abbrev pub new_session : UserRow → AuthSessionRow
  new_session user = record {
    id = env.new_id 0;
    user_id = user.id;
    refresh_token_hash = env.new_id 1;
    status = SessionStatus.active;
    ip_address = none;
    user_agent = none;
    last_seen_at = some env.now;
    expires_at = env.now + 1000 * 60 * 60 * 24 * 7;
    created_at = env.now;
    revoked_at = none;
  }

  -- What follows the check of the password.
  open_session : Text → UserRow → Action Accounts LoginReply
  unfolding session_user update_user
  open_session email user = do
    throw_if (not (is_active user)) (unauthorized "Account is not active")
    reply ← gets (session_user user)
    modify (λ s. record s { sessions = s.sessions ++ new_session user ∷ [] })
    append_attempt (attempt 2 email (some user.id) LoginOutcome.success none)
    update_user (record user { last_login_at = some env.now; updated_at = env.now })
    pure (record {
      session_id = env.new_id 0;
      refresh_token = env.new_id 1;
      status = user.status;
      user = reply;
    })

  refuse : Text → Option UserRow → Action Accounts LoginReply
  refuse email found = do
    append_attempt (
        attempt 0 email (user_id_of found) LoginOutcome.failed (some (codes "invalid_credentials")))
    throw (unauthorized "Invalid email or password")

  after_lookup : Text → Text → Option UserRow → Action Accounts LoginReply
  unfolding open_session refuse
  after_lookup email password none s = refuse email none s
  after_lookup email password (some user) s =
      if is_refused password (some user)
      then refuse email (some user) s
      else open_session email user s

  unfoldable pub login : Text → Text → Action Accounts LoginReply
  unfolding find_by_email after_lookup
  login email password = do
    found ← gets (λ s. find_by_email email s.users)
    after_lookup email password found

-- `refresh`
unfoldable pub refresh : AuthenticatedActor → Action Accounts SessionUser
unfolding find_user session_user
refresh actor = do
  found ← gets (λ s. find_user actor.actor_id s.users)
  user ← require found (unauthorized "User not found")
  gets (session_user user)
