-- ===== src/Auth/Reset/OneToken.antt =====
-- At most one token of a purpose is outstanding for a user, and the code that was sent is accepted.
use wealth_track.Prelude.{
  ℕ, ◌≡◌, ◌<◌, ◌+◌, ◌*◌, refl, ap, ◌∙◌, Bool, true, false, ◌&&◌, List, [], ◌∷◌, ◌++◌, none, some,
  arith, filter, ltb, lt→ltb,
}
use wealth_track.Prelude.Text.{Text, text_eq_refl}
use wealth_track.Prelude.Action.{ok, require}
use wealth_track.Rows.{Time, Purpose, UserRow, PasswordResetTokenRow}
use wealth_track.Store.Queries.{update_where}
use wealth_track.Store.Laws.{filter-append}
use wealth_track.Actor.{AuthenticatedActor}
use wealth_track.Password.{Bytes, verify_token, hash_token}
use wealth_track.Accounts.{
  Accounts, Env, reset_link, otp_code, is_for, purpose_eq, revoke, revoke_all, find_user,
  find_by_email, find_role, find_active_token, latest, update_user, mark_used,
}
use wealth_track.Auth.{is_super_admin}
use wealth_track.Auth.Reset.{
  new_token, issue_token, send_link, forgot_password, request_change_password_otp,
  confirm_change_password, with_password,
}
use wealth_track.Auth.Reset.SingleUse.{find_user-update_where}

filter-revoke :
    (now : Time) (user_id : Text) (purpose : Purpose) (ts : List PasswordResetTokenRow)
    → filter (is_for user_id purpose) (update_where (is_for user_id purpose) (revoke now) ts) ≡ []
filter-revoke now user_id purpose [] = refl
filter-revoke now user_id purpose (t ∷ ts) = ground (arith, filter-revoke now user_id purpose ts)

purpose_eq_refl : (p : Purpose) → purpose_eq p p ≡ true
purpose_eq_refl Purpose.forgot_password = refl
purpose_eq_refl Purpose.set_password = refl
purpose_eq_refl Purpose.change_password = refl

module _ (env : Env) (user_id : Text) (purpose : Purpose) (secret : Text) (lifetime : ℕ) where
  is_for-new_token : is_for user_id purpose (new_token env user_id purpose secret lifetime) ≡ true
  is_for-new_token = ground (arith, text_eq_refl user_id, purpose_eq_refl purpose)

  -- The new token is the only one of its user and purpose that is issued.
  issue_token-one :
      (s : Accounts)
      → filter (is_for user_id purpose) (issue_token env user_id purpose secret lifetime s).1.tokens
        ≡ new_token env user_id purpose secret lifetime ∷ []
  unfolding issue_token revoke_all
  issue_token-one s =
      rw
        (
          filter-append (is_for user_id purpose)
              (update_where (is_for user_id purpose) (revoke env.now) s.tokens)
              (new_token env user_id purpose secret lifetime ∷ []),
          filter-revoke env.now user_id purpose s.tokens,
          is_for-new_token,
        )
        refl

filter_and :
    {A : Type 0} (p q : A → Bool) (xs : List A)
    → filter (λ x. p x && q x) xs ≡ filter q (filter p xs)
filter_and p q [] = refl
filter_and p q (x ∷ xs) = ground (arith, filter_and p q xs)

-- A request for a reset link for the address of a user leaves one issued reset token of the user,
-- the new one, and sends its link; for an unknown address it changes nothing; and the answer is the same.
forgot_password_lem :
    (env : Env) (s : Accounts) (known unknown : Text) (user : UserRow)
    → find_by_email known s.users ≡ some user
    → find_by_email unknown s.users ≡ none
    → let (r, t) = forgot_password env known s in
      (filter (is_for user.id Purpose.forgot_password) t.tokens
        ≡ new_token env user.id Purpose.forgot_password env.raw_token (30 * 60 * 1000) ∷ [])
      × (t.mails ≡ s.mails ++ reset_link user.email (env.new_id 0) env.raw_token ∷ [])
      × (forgot_password env unknown s ≡ (r, s))
unfolding forgot_password send_link issue_token revoke_all
forgot_password_lem env s known unknown user found missing =
    rw (found, missing)
      (
        issue_token-one env user.id Purpose.forgot_password env.raw_token (30 * 60 * 1000) s,
        refl,
        refl,
      )

find_active_token-one :
    (now : Time) (user_id : Text) (purpose : Purpose) (tokens : List PasswordResetTokenRow)
    (token : PasswordResetTokenRow)
    → filter (is_for user_id purpose) tokens ≡ token ∷ []
    → now < token.expires_at
    → find_active_token now user_id purpose tokens ≡ some token
unfolding find_active_token latest
find_active_token-one now user_id purpose tokens token one soon =
    rw
      (
        filter_and (is_for user_id purpose) (λ t. ltb now t.expires_at) tokens,
        one,
        lt→ltb now token.expires_at soon,
      )
      refl

verify_token-same :
    (f g : Text → Bytes) (raw : Text) → f ≡ g → verify_token f raw (hash_token g raw) ≡ true
unfolding verify_token
verify_token-same f g raw e = rw e (text_eq_refl _)

module _ (env : Env) (actor : AuthenticatedActor) (s : Accounts) (user : UserRow) where
  requested :
      find_user actor.actor_id s.users ≡ some user
      → is_super_admin (find_role user.role_id s.roles) ≡ false
      → let t = (request_change_password_otp env actor s).1 in
        (t.users ≡ s.users)
        × (t.tokens
            ≡ (issue_token env user.id Purpose.change_password env.otp (15 * 60 * 1000) s).1.tokens)
        × (t.mails ≡ s.mails ++ otp_code user.email env.otp ∷ [])
  unfolding request_change_password_otp issue_token revoke_all
  requested found plain = rw (found, require, plain) (refl, refl, refl)

  -- A code that is outstanding and accepted sets the password.
  confirmed :
      (otp password : Text) (token : PasswordResetTokenRow)
      → find_user actor.actor_id s.users ≡ some user
      → find_active_token env.now user.id Purpose.change_password s.tokens ≡ some token
      → verify_token env.sha256 otp token.token_hash ≡ true
      → let (r, u) = confirm_change_password env otp password actor s in
        (r ≡ ok tt) × (find_user actor.actor_id u.users ≡ some (with_password env password user))
  unfolding confirm_change_password update_user mark_used
  confirmed otp password token found active good =
      rw (found, require, active, good)
        (
          refl,
          find_user-update_where actor.actor_id s.users user (with_password env password user) found
              refl refl,
        )

-- A request for a code by a user who is not a super admin sends exactly one mail, to the address of
-- the user, and within a quarter of an hour the code of that mail is accepted and gives the user the
-- new password.
pub confirm_change_password-request_otp :
    (env later : Env) (actor : AuthenticatedActor) (s : Accounts) (user : UserRow) (password : Text)
    → find_user actor.actor_id s.users ≡ some user
    → is_super_admin (find_role user.role_id s.roles) ≡ false
    → later.now < env.now + 15 * 60 * 1000
    → later.sha256 ≡ env.sha256
    → let t = (request_change_password_otp env actor s).1 in
      let (r, u) = confirm_change_password later env.otp password actor t in
      (t.mails ≡ s.mails ++ otp_code user.email env.otp ∷ [])
      × (r ≡ ok tt)
      × (find_user actor.actor_id u.users ≡ some (with_password later password user))
confirm_change_password-request_otp env later actor s user password found plain soon same =
    let sent = requested env actor s user found plain in
    let issued = new_token env user.id Purpose.change_password env.otp (15 * 60 * 1000) in
    let done =
      confirmed later actor (request_change_password_otp env actor s).1 user env.otp password issued
        (ap (find_user actor.actor_id) sent.0 ∙ found)
        (ap (find_active_token later.now user.id Purpose.change_password) sent.1
          ∙ find_active_token-one later.now user.id Purpose.change_password _ issued
              (issue_token-one env user.id Purpose.change_password env.otp (15 * 60 * 1000) s) soon)
        (verify_token-same later.sha256 env.sha256 env.otp same) in
    (sent.2, done.0, done.1)
