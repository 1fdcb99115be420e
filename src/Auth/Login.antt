-- ===== src/Auth/Login.antt =====
-- How a login ends.
use wealth_track.Prelude.{◌≡◌, true, false, [], ◌∷◌, ◌++◌, Option, none, some}
use wealth_track.Prelude.Text.{Text, codes}
use wealth_track.Prelude.Action.{Result, ok, err, unauthorized}
use wealth_track.Rows.{UserRow, LoginOutcome}
use wealth_track.Accounts.{Accounts, Env, find_by_email}
use wealth_track.Auth.{
  LoginReply, is_refused, is_active, attempt, new_session, resolved_permissions, user_id_of,
}

module _ (env : Env) (email password : Text) (s : Accounts) where
  -- How a login ends: refused for the credentials, which is recorded; refused for an account that is
  -- not active; or with a session.
  pub data LoginEnd : Result LoginReply × Accounts → Type 0 where
    refused :
        (found : Option UserRow)
        → found ≡ find_by_email email s.users
        → is_refused env password found ≡ true
        → LoginEnd (
          err (unauthorized "Invalid email or password"),
          record s {
            attempts =
                s.attempts
                ++ attempt env 0 email
                    (user_id_of env found)
                    LoginOutcome.failed
                    (some (codes "invalid_credentials"))
                  ∷ [];
          },
        )
    not_active :
        (user : UserRow)
        → find_by_email email s.users ≡ some user
        → is_refused env password (some user) ≡ false
        → is_active user ≡ false
        → LoginEnd (err (unauthorized "Account is not active"), s)
    opened :
        (user : UserRow) (reply : LoginReply) (t : Accounts)
        → find_by_email email s.users ≡ some user
        → is_refused env password (some user) ≡ false
        → is_active user ≡ true
        → reply.user.permissions ≡ resolved_permissions user s
        → t.sessions ≡ s.sessions ++ new_session env user ∷ []
        → t.attempts
          ≡ s.attempts ++ attempt env 2 email (some user.id) LoginOutcome.success none ∷ []
        → t.tokens ≡ s.tokens
        → LoginEnd (ok reply, t)
