-- ===== src/Accounts.antt =====
-- The tables of users, roles, permissions, sessions and tokens, with the queries of the repositories of
-- apps/api/src/modules/auth, users and rbac, and what a request draws on.
use wealth_track.Prelude.{
  ℕ, Bool, true, false, not, ◌&&◌, List, [], ◌∷◌, Option, none, some, is_some, find, filter, ltb,
  if◌then◌else◌,
}
use wealth_track.Prelude.Text.{Text, text_eq}
use wealth_track.Prelude.Action.{Action, modify}
use wealth_track.Rows.{
  Time, RoleRow, PermissionRow, RolePermissionRow, UserRow, AuthSessionRow, Purpose, TokenStatus,
  PasswordResetTokenRow, LoginAttemptRow,
}
use wealth_track.Store.Queries.{update_where}
use wealth_track.Password.{Bytes}

-- A message that is sent, to an address: a link with the token's identifier and the token, or a code.
pub data Mail : Type 0 where
  reset_link : Text → Text → Text → Mail
  welcome : Text → Text → Text → Mail
  otp_code : Text → Text → Mail

pub record Accounts : Type 0 where
  pub users : List UserRow
  pub roles : List RoleRow
  pub permissions : List PermissionRow
  pub role_permissions : List RolePermissionRow
  pub sessions : List AuthSessionRow
  pub tokens : List PasswordResetTokenRow
  pub attempts : List LoginAttemptRow
  pub mails : List Mail

-- The clock, the identifiers in turn, the random texts and bytes, the hash functions, and `column = ?`
-- under the collation of the database, where the model does not take it as exact.
pub record Env : Type 0 where
  pub now : Time
  pub new_id : ℕ → Text
  pub raw_token : Text
  pub otp : Text
  pub salt : Bytes
  pub temp_password : Text
  pub scrypt : Text → Text → Bytes
  pub sha256 : Text → Bytes
  pub same : Text → Text → Bool

-- `deleted_at IS NULL`
abbrev pub is_live : UserRow → Bool
is_live u = not (is_some u.deleted_at)

unfoldable pub find_user : Text → List UserRow → Option UserRow
find_user id = find (λ u. text_eq u.id id && is_live u)

unfoldable pub find_by_email : Text → List UserRow → Option UserRow
find_by_email email = find (λ u. text_eq u.email email && is_live u)

-- `UPDATE users SET ? WHERE id = ? AND deleted_at IS NULL`
unfoldable pub update_user : UserRow → Action Accounts (Unit {0})
update_user user = modify (λ s. record s {
  users = update_where (λ u. text_eq u.id user.id && is_live u) (λ u. user) s.users;
})

unfoldable pub find_role : Text → List RoleRow → Option RoleRow
find_role id = find (λ r. text_eq r.id id)

unfoldable pub find_by_code : Text → List RoleRow → Option RoleRow
find_by_code code = find (λ r. text_eq r.code code)

abbrev pub is_issued : PasswordResetTokenRow → Bool
is_issued t = elim t.status [ TokenStatus.issued ↦ true | _ ↦ false ]

abbrev pub purpose_eq : Purpose → Purpose → Bool
purpose_eq Purpose.forgot_password Purpose.forgot_password = true
purpose_eq Purpose.set_password Purpose.set_password = true
purpose_eq Purpose.change_password Purpose.change_password = true
purpose_eq _ _ = false

-- `id = ? AND status = 'issued' AND expires_at > UTC_TIMESTAMP(3)`
abbrev pub is_open : Time → Text → PasswordResetTokenRow → Bool
is_open now id t = text_eq t.id id && (is_issued t && ltb now t.expires_at)

unfoldable pub find_issued_token :
    Time → Text → List PasswordResetTokenRow → Option PasswordResetTokenRow
find_issued_token now id = find (is_open now id)

abbrev pub is_for : Text → Purpose → PasswordResetTokenRow → Bool
is_for user_id purpose t =
    text_eq t.user_id user_id && (purpose_eq t.purpose purpose && is_issued t)

-- `ORDER BY created_at DESC LIMIT 1`: of two tokens, the one that was created later.
abbrev pub later : PasswordResetTokenRow → Option PasswordResetTokenRow → PasswordResetTokenRow
later t none = t
later t (some u) = if ltb t.created_at u.created_at then u else t

unfoldable pub latest : List PasswordResetTokenRow → Option PasswordResetTokenRow
latest [] = none
latest (t ∷ ts) = some (later t (latest ts))

unfoldable pub find_active_token :
    Time → Text → Purpose → List PasswordResetTokenRow → Option PasswordResetTokenRow
unfolding latest
find_active_token now user_id purpose tokens =
    latest (filter (λ t. is_for user_id purpose t && ltb now t.expires_at) tokens)

abbrev pub revoke : Time → PasswordResetTokenRow → PasswordResetTokenRow
revoke now t = record t { status = TokenStatus.revoked; used_at = some now }

-- `revokeAllForUserByPurpose`
unfoldable pub revoke_all : Time → Text → Purpose → Action Accounts (Unit {0})
revoke_all now user_id purpose =
    modify (λ s. record s { tokens = update_where (is_for user_id purpose) (revoke now) s.tokens })

abbrev pub use_token : Time → PasswordResetTokenRow → PasswordResetTokenRow
use_token now t = record t { status = TokenStatus.used; used_at = some now }

-- `markUsed`
unfoldable pub mark_used : Time → Text → Action Accounts (Unit {0})
mark_used now id =
    modify (λ s. record s { tokens = update_where (λ t. text_eq t.id id) (use_token now) s.tokens })
