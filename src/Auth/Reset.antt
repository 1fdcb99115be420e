-- ===== src/Auth/Reset.antt =====
-- apps/api/src/modules/auth/auth.service.ts: the end of a session, and the ways to a new password: a reset
-- link, an invitation link, and a code sent by mail.
pub mod SingleUse
pub mod OneToken
use wealth_track.Prelude.{
  ℕ, ◌+◌, ◌*◌, Bool, true, false, not, ◌&&◌, List, [], ◌∷◌, ◌++◌, Option, none, some, if◌then◌else◌,
}
use wealth_track.Prelude.Text.{Text, codes, text_eq, is_empty}
use wealth_track.Prelude.Action.{
  Action, unauthorized, bad_request, pure, gets, modify, require, throw_if, when, ◌>>=◌, ◌>>◌,
}
use wealth_track.Rows.{
  Time, UserStatus, UserRow, SessionStatus, Purpose, TokenStatus, PasswordResetTokenRow,
}
use wealth_track.Store.Queries.{update_where}
use wealth_track.Actor.{AuthenticatedActor}
use wealth_track.Password.{hash_password, hash_token, verify_token}
use wealth_track.Accounts.{
  Accounts, Env, Mail, reset_link, otp_code, find_user, find_by_email, update_user, find_role,
  find_issued_token, find_active_token, purpose_eq, revoke_all, mark_used,
}
use wealth_track.Auth.{is_super_admin}

module _ (env : Env) where
  -- `revokeById`
  revoke_session : Option Text → Action Accounts (Unit {0})
  revoke_session none = pure tt
  revoke_session (some id) =
      if is_empty id
      then pure tt
      else modify (λ s. record s {
        sessions =
            update_where (λ x. text_eq x.id id)
              (λ x. record x { status = SessionStatus.revoked; revoked_at = some env.now })
              s.sessions;
      })

  unfoldable pub logout : AuthenticatedActor → Action Accounts (Option Text)
  unfolding revoke_session
  logout actor = do revoke_session actor.session_id; pure actor.session_id

  abbrev pub new_token : Text → Purpose → Text → ℕ → PasswordResetTokenRow
  new_token user_id purpose secret lifetime = record {
    id = env.new_id 0;
    user_id = user_id;
    purpose = purpose;
    token_hash = hash_token env.sha256 secret;
    status = TokenStatus.issued;
    expires_at = env.now + lifetime;
    used_at = none;
    created_at = env.now;
  }

  -- The tokens of the same purpose are revoked, and a new one is issued.
  unfoldable pub issue_token : Text → Purpose → Text → ℕ → Action Accounts (Unit {0})
  unfolding revoke_all
  issue_token user_id purpose secret lifetime = do
    revoke_all env.now user_id purpose
    modify (λ s. record s { tokens = s.tokens ++ new_token user_id purpose secret lifetime ∷ [] })

  abbrev send : Mail → Action Accounts (Unit {0})
  send mail = modify (λ s. record s { mails = s.mails ++ mail ∷ [] })

  send_link : Option UserRow → Action Accounts (Unit {0})
  unfolding issue_token
  send_link none = pure tt
  send_link (some user) = do
    issue_token user.id Purpose.forgot_password env.raw_token (30 * 60 * 1000)
    send (reset_link user.email (env.new_id 0) env.raw_token)

  unfoldable pub forgot_password : Text → Action Accounts (Unit {0})
  unfolding find_by_email send_link
  forgot_password email = do found ← gets (λ s. find_by_email email s.users); send_link found

  -- `!tokenRecord || tokenRecord.purpose !== purpose || !verifyToken(token, tokenRecord.tokenHash)`
  abbrev pub accepted : Purpose → Text → Option PasswordResetTokenRow → Option PasswordResetTokenRow
  accepted purpose raw none = none
  accepted purpose raw (some t) =
      if purpose_eq t.purpose purpose && verify_token env.sha256 raw t.token_hash
      then some t
      else none

  abbrev pub with_password : Text → UserRow → UserRow
  with_password password user = record user {
    password_hash = hash_password env.scrypt env.salt password;
    updated_at = env.now;
    updated_by = some user.id;
  }

  unfoldable pub reset_password : Text → Text → Text → Action Accounts (Unit {0})
  unfolding find_issued_token find_user update_user mark_used
  reset_password token_id raw password = do
    found ←
        gets
          (λ s. accepted Purpose.forgot_password raw (find_issued_token env.now token_id s.tokens))
    token ← require found (bad_request "Invalid or expired reset link")
    owner ← gets (λ s. find_user token.user_id s.users)
    user ← require owner (bad_request "Invalid or expired reset link")
    update_user (with_password password user)
    mark_used env.now token.id

  unfoldable pub set_password : Text → Text → Text → Action Accounts (Unit {0})
  unfolding find_issued_token find_user update_user mark_used
  set_password token_id raw password = do
    found ←
        gets (λ s. accepted Purpose.set_password raw (find_issued_token env.now token_id s.tokens))
    token ← require found (bad_request "Invalid or expired invitation link")
    owner ← gets (λ s. find_user token.user_id s.users)
    user ← require owner (bad_request "Invalid or expired invitation link")
    update_user (record (with_password password user) { status = UserStatus.active })
    mark_used env.now token.id

  unfoldable pub request_change_password_otp : AuthenticatedActor → Action Accounts (Unit {0})
  unfolding find_user find_role issue_token
  request_change_password_otp actor = do
    found ← gets (λ s. find_user actor.actor_id s.users)
    user ← require found (unauthorized "User not found")
    role ← gets (λ s. find_role user.role_id s.roles)
    throw_if (is_super_admin role)
        (bad_request "Super admin accounts use direct password change — no OTP required")
    issue_token user.id Purpose.change_password env.otp (15 * 60 * 1000)
    send (otp_code user.email env.otp)

  unfoldable pub confirm_change_password :
      Text → Text → AuthenticatedActor → Action Accounts (Unit {0})
  unfolding find_user find_active_token update_user mark_used
  confirm_change_password otp password actor = do
    found ← gets (λ s. find_user actor.actor_id s.users)
    user ← require found (unauthorized "User not found")
    active ← gets (λ s. find_active_token env.now user.id Purpose.change_password s.tokens)
    token ← require active (bad_request "No active verification code — please request a new one")
    throw_if (not (verify_token env.sha256 otp token.token_hash))
        (bad_request "Invalid or expired verification code")
    update_user (with_password password user)
    mark_used env.now token.id

  unfoldable pub issue_welcome_token : Text → Action Accounts (Unit {0})
  unfolding issue_token
  issue_welcome_token user_id =
      issue_token user_id Purpose.set_password env.raw_token (48 * 60 * 60 * 1000)
