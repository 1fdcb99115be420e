-- ===== src/Auth/Reset/SingleUse.antt =====
-- A link for a new password works once.
use wealth_track.Prelude.{
  ◌≡◌, refl, sym, ◌∙◌, Bool, true, ◌&&◌, List, [], ◌∷◌, Option, none, some, arith, find,
  find-eq-some,
}
use mathlib.Core.Path.{subst}
use wealth_track.Prelude.Text.{Text, text_eq, text_eq_iff}
use wealth_track.Prelude.Action.{ok, err, bad_request, require}
use wealth_track.Rows.{Time, Purpose, UserStatus, UserRow, PasswordResetTokenRow}
use wealth_track.Store.Queries.{update_where}
use wealth_track.Accounts.{
  Accounts, Env, is_open, is_live, use_token, find_user, update_user, find_issued_token, mark_used,
}
use wealth_track.Auth.Reset.{accepted, with_password, reset_password, set_password}

find-update_const :
    {A : Type 0} (p : A → Bool) (v : A) (xs : List A) (u : A)
    → p v ≡ true
    → find p xs ≡ some u
    → find p (update_where p (λ x. v) xs) ≡ some v
find-update_const p v [] u e h = cc
find-update_const p v (x ∷ xs) u e h = ground (arith, find-update_const p v xs u e)

find-use_token :
    (now later : Time) (id : Text) (ts : List PasswordResetTokenRow)
    → find (is_open later id) (update_where (λ t. text_eq t.id id) (use_token now) ts) ≡ none
find-use_token now later id [] = refl
find-use_token now later id (t ∷ ts) = ground (arith, find-use_token now later id ts)

-- A record that is found by its identifier has it.
found_user_id :
    (id : Text) (users : List UserRow) (user : UserRow)
    → find_user id users ≡ some user
    → (text_eq user.id id ≡ true) × (is_live user ≡ true)
unfolding find_user
found_user_id id users user h =
    ground (arith, find-eq-some (λ u. text_eq u.id id && is_live u) users user h)

accepted-some :
    (env : Env) (purpose : Purpose) (raw : Text) (o : Option PasswordResetTokenRow)
    (token : PasswordResetTokenRow)
    → accepted env purpose raw o ≡ some token
    → o ≡ some token
accepted-some env purpose raw none token h = h
accepted-some env purpose raw (some t) token h = ground arith

accepted-id :
    (env : Env) (purpose : Purpose) (raw token_id : Text) (now : Time)
    (tokens : List PasswordResetTokenRow) (token : PasswordResetTokenRow)
    → accepted env purpose raw (find_issued_token now token_id tokens) ≡ some token
    → token.id ≡ token_id
unfolding find_issued_token
accepted-id env purpose raw token_id now tokens token h =
    let o =
      find-eq-some (is_open now token_id) tokens token (accepted-some env purpose raw _ token h) in
    ground (arith, o, text_eq_iff token.id token_id)

-- The token that was used is not found again.
find_issued_token-use_token :
    (now later : Time) (id : Text) (ts : List PasswordResetTokenRow) (used_id : Text)
    → used_id ≡ id
    → find_issued_token later id (update_where (λ t. text_eq t.id used_id) (use_token now) ts)
      ≡ none
unfolding find_issued_token
find_issued_token-use_token now later id ts used_id e = rw e (find-use_token now later id ts)

-- The user who was found is found again with the new row, when the row keeps the identifier.
pub find_user-update_where :
    (id : Text) (users : List UserRow) (user new : UserRow)
    → find_user id users ≡ some user
    → new.id ≡ user.id
    → is_live new ≡ is_live user
    → find_user id (update_where (λ u. text_eq u.id new.id && is_live u) (λ u. new) users)
      ≡ some new
unfolding find_user
find_user-update_where id users user new h same live =
    let f = found_user_id id users user h in
    let e = (text_eq_iff user.id id).0 f.0 in
    subst
      (λ i.
        find (λ u. text_eq u.id id && is_live u)
          (update_where (λ u. text_eq u.id i && is_live u) (λ u. new) users)
        ≡ some new)
      (sym (same ∙ e))
      (find-update_const (λ u. text_eq u.id id && is_live u) new users user
        (ground (arith, (text_eq_iff new.id id).1 (same ∙ e), live, f)) h)

reset_refused :
    (env : Env) (token_id raw password : Text) (s : Accounts)
    → find_issued_token env.now token_id s.tokens ≡ none
    → reset_password env token_id raw password s
      ≡ (err (bad_request "Invalid or expired reset link"), s)
unfolding reset_password
reset_refused env token_id raw password s h = rw (h, require) refl

invitation_refused :
    (env : Env) (token_id raw password : Text) (s : Accounts)
    → find_issued_token env.now token_id s.tokens ≡ none
    → set_password env token_id raw password s
      ≡ (err (bad_request "Invalid or expired invitation link"), s)
unfolding set_password
invitation_refused env token_id raw password s h = rw (h, require) refl

module _ (env later : Env) (token_id raw password raw' password' : Text) (s : Accounts)
    (token : PasswordResetTokenRow) (user : UserRow) where
  -- A reset with an issued token of the right purpose, that has not expired and that carries the
  -- hash of what the link carries, gives the user of the token the new password, and from then
  -- on no reset with that token is accepted, whatever comes with it and whenever it comes.
  pub reset_password_once :
      accepted env Purpose.forgot_password raw (find_issued_token env.now token_id s.tokens)
        ≡ some token
      → find_user token.user_id s.users ≡ some user
      → let (r, t) = reset_password env token_id raw password s in
        (r ≡ ok tt)
        × (find_user token.user_id t.users ≡ some (with_password env password user))
        × (reset_password later token_id raw' password' t
            ≡ (err (bad_request "Invalid or expired reset link"), t))
  unfolding reset_password update_user mark_used
  reset_password_once found owner =
      rw (found, require, owner)
        (
          refl,
          find_user-update_where token.user_id s.users user (with_password env password user) owner
              refl refl,
          reset_refused later token_id raw' password' _ (
              find_issued_token-use_token env.now later.now token_id s.tokens token.id (
                accepted-id env Purpose.forgot_password raw token_id env.now s.tokens token found)),
        )

  -- An invitation that is accepted, by an issued token of the right purpose that has not expired and
  -- that carries the hash of what the link carries, gives its user the password, makes the
  -- account active, and is not accepted again, whatever comes with it and whenever it comes.
  set_password_once :
      accepted env Purpose.set_password raw (find_issued_token env.now token_id s.tokens)
        ≡ some token
      → find_user token.user_id s.users ≡ some user
      → let (r, t) = set_password env token_id raw password s in
        (r ≡ ok tt)
        × (find_user token.user_id t.users
            ≡ some (record (with_password env password user) { status = UserStatus.active }))
        × (set_password later token_id raw' password' t
            ≡ (err (bad_request "Invalid or expired invitation link"), t))
  unfolding set_password update_user mark_used
  set_password_once found owner =
      rw (found, require, owner)
        (
          refl,
          find_user-update_where token.user_id s.users user
              (record (with_password env password user) { status = UserStatus.active }) owner refl
              refl,
          invitation_refused later token_id raw' password' _ (
              find_issued_token-use_token env.now later.now token_id s.tokens token.id
                (accepted-id env Purpose.set_password raw token_id env.now s.tokens token found)),
        )
