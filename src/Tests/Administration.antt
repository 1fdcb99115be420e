-- ===== src/Tests/Administration.antt =====
-- The theorems on passwords, logins, tokens, users, roles and the guard, at sample data.
use wealth_track.Prelude.{
  ℕ, ◌≡◌, ◌+◌, ◌%◌, ◌↔◌, refl, true, [], ◌∷◌, none, some, filter, length, arith,
}
use wealth_track.Prelude.Text.{Text, codes, text_eq, to_lower_case}
use wealth_track.Prelude.Action.{ok, err, bad_request}
use wealth_track.Rows.{UserStatus, UserRow, Purpose, TokenStatus, PasswordResetTokenRow}
use wealth_track.Actor.{permits}
use wealth_track.Password.{
  Bytes, to_hex, from_hex, hash_password, verify_password, hash_token, verify_token,
}
use wealth_track.Password.RoundTrip.{verify_password-hash_password}
use wealth_track.Accounts.{
  otp_code, Accounts, Env, is_live, find_user, find_role, find_issued_token,
}
use wealth_track.Auth.Reset.{
  reset_password, request_change_password_otp, confirm_change_password, with_password,
}
use wealth_track.Auth.Reset.SingleUse.{reset_password_once}
use wealth_track.Auth.Reset.OneToken.{confirm_change_password-request_otp}
use wealth_track.Users.{create, bulk_soft_delete}
use wealth_track.Users.Emails.{HasUniqueEmails, create-HasUniqueEmails}
use wealth_track.Users.Deletion.{bulk_soft_delete_lem}
use wealth_track.Rbac.{delete_role}
use wealth_track.Rbac.Roles.{Deletion, delete_role-Deletion}
use wealth_track.Guard.{Headers, once, missing, can_activate}
use wealth_track.Guard.Decision.{Passes, can_activate-Passes}
use wealth_track.Tests.Data.{new_id, admin}

-- A stand-in for scrypt and SHA-256: the number of code units.
abbrev scrypt : Text → Text → Bytes
scrypt password salt = length password % 256 ∷ []

abbrev env : Env
env = record {
  now = 10;
  new_id = new_id;
  raw_token = codes "raw";
  otp = codes "123456";
  salt = 1 ∷ [];
  temp_password = codes "temp";
  scrypt = scrypt;
  sha256 = λ s. length s % 256 ∷ [];
  same = λ a b. text_eq (to_lower_case a) (to_lower_case b);
}

abbrev user_of : Text → Text → UserRow
user_of id email = record {
  id = id;
  name = codes "N";
  email = email;
  password_hash = [];
  role_id = codes "r1";
  status = UserStatus.active;
  last_login_at = none;
  created_at = 1;
  updated_at = 1;
  deleted_at = none;
  created_by = none;
  updated_by = none;
}

abbrev token : PasswordResetTokenRow
token = record {
  id = codes "t1";
  user_id = codes "u2";
  purpose = Purpose.forgot_password;
  token_hash = codes "03";
  status = TokenStatus.issued;
  expires_at = 100;
  used_at = none;
  created_at = 1;
}

abbrev accounts : Accounts
accounts = record {
  users = user_of (codes "u1") (codes "a@x") ∷ user_of (codes "u2") (codes "b@x") ∷ [];
  roles =
      record {
        id = codes "r1";
        code = codes "auditor";
        name = codes "Auditor";
        description = none;
        created_at = 1;
      }
      ∷ [];
  permissions =
      record { id = codes "p1"; code = codes "users.read"; description = none; created_at = 1 }
      ∷ [];
  role_permissions =
      record { id = codes "g1"; role_id = codes "r1"; permission_id = codes "p1"; created_at = 1 }
      ∷ [];
  sessions = [];
  tokens = token ∷ [];
  attempts = [];
  mails = [];
}

verify_password-hash_password_example :
    (verify_password scrypt (codes "abc") (hash_password scrypt (1 ∷ []) (codes "xyz")) ≡ true)
    ↔ (scrypt (codes "abc") (to_hex (1 ∷ [])) ≡ scrypt (codes "xyz") (to_hex (1 ∷ [])))
verify_password-hash_password_example =
    verify_password-hash_password scrypt (1 ∷ []) (codes "abc") (codes "xyz") (omega arith, tt)
      (omega arith) (omega arith, tt) (omega arith)

reset_password_once_example :
    let (r, t) = reset_password env (codes "t1") (codes "raw") (codes "new") accounts in
    (r ≡ ok tt)
    × (find_user (codes "u2") t.users
        ≡ some (with_password env (codes "new") (user_of (codes "u2") (codes "b@x"))))
    × (reset_password env (codes "t1") (codes "raw") (codes "other") t
        ≡ (err (bad_request "Invalid or expired reset link"), t))
unfolding find_issued_token find_user text_eq verify_token hash_token to_hex from_hex
reset_password_once_example =
    reset_password_once env env (codes "t1") (codes "raw") (codes "new") (codes "raw")
      (codes "other") accounts token (user_of (codes "u2") (codes "b@x")) refl refl

confirm_change_password_example :
    let t = (request_change_password_otp env admin accounts).1 in
    let (r, u) = confirm_change_password env (codes "123456") (codes "new") admin t in
    (t.mails ≡ otp_code (codes "a@x") (codes "123456") ∷ [])
    × (r ≡ ok tt)
    × (find_user (codes "u1") u.users
        ≡ some (with_password env (codes "new") (user_of (codes "u1") (codes "a@x"))))
unfolding find_user find_role text_eq
confirm_change_password_example =
    confirm_change_password-request_otp env env admin accounts (user_of (codes "u1") (codes "a@x"))
      (codes "new") refl refl (omega arith) refl

create-HasUniqueEmails_example :
    HasUniqueEmails
      (create env admin
        (record {
          name = codes "M";
          email = codes "c@x";
          role_code = codes "auditor";
          password = none;
        })
        accounts).1.users
unfolding text_eq
create-HasUniqueEmails_example =
    create-HasUniqueEmails env admin
      (record {
        name = codes "M";
        email = codes "c@x";
        role_code = codes "auditor";
        password = none;
      })
      accounts ((refl, tt), (tt, tt))

-- The administrator's own identifier in capitals deletes the administrator.
bulk_soft_delete_example :
    let (r, t) =
      bulk_soft_delete env
        (record admin { permissions = codes "users.deactivate" ∷ [] })
        (codes "u1" ∷ codes "U1" ∷ [])
        accounts in
    (find_user (codes "u1") t.users ≡ none)
    × ((n : ℕ) × (r ≡ ok n)
        × (n + length (filter is_live t.users) ≡ length (filter is_live accounts.users)))
unfolding text_eq permits to_lower_case
bulk_soft_delete_example =
    bulk_soft_delete_lem env (record admin { permissions = codes "users.deactivate" ∷ [] })
      (codes "u1" ∷ codes "U1" ∷ []) accounts (codes "u1") refl refl

delete_role-Deletion_example :
    Deletion env (codes "r1") accounts (delete_role env (codes "r1") accounts)
delete_role-Deletion_example = delete_role-Deletion env (codes "r1") accounts

abbrev headers : Headers
headers = record {
  actor_id = once (codes "u1");
  actor_type = once (codes "admin");
  session_id = missing;
  permissions = once (codes "users.read, users.create");
}

can_activate-Passes_example :
    Passes (codes "users.create" ∷ []) headers (can_activate (codes "users.create" ∷ []) headers)
can_activate-Passes_example = can_activate-Passes (codes "users.create" ∷ []) headers
