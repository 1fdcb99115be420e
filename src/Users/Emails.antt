-- ===== src/Users/Emails.antt =====
-- No two users that are not deleted have one address.
use wealth_track.Prelude.{
  ◌≡◌, Bool, false, ◌&&◌, List, [], ◌∷◌, ◌++◌, none, some, arith, All, Option-cases, Bool-cases,
  inl, inr,
}
use wealth_track.Prelude.Text.{codes, text_eq}
use wealth_track.Prelude.Action.{require}
use wealth_track.Rows.{UserRow}
use wealth_track.Actor.{AuthenticatedActor, permits}
use wealth_track.Accounts.{Accounts, Env, is_live, revoke_all, find_by_email, find_by_code}
use wealth_track.Auth.Reset.{issue_welcome_token, issue_token}
use wealth_track.Users.{CreateUserRequest, new_user, invite, create}

abbrev same_email : UserRow → UserRow → Bool
same_email u v = text_eq u.email v.email && (is_live u && is_live v)

abbrev pub HasUniqueEmails : List UserRow → Type 0
HasUniqueEmails [] = Unit
HasUniqueEmails (u ∷ users) = All (λ v. same_email u v ≡ false) users × HasUniqueEmails users

apart-concat :
    (u new : UserRow) (users : List UserRow)
    → same_email u new ≡ false
    → All (λ v. same_email u v ≡ false) users
    → All (λ v. same_email u v ≡ false) (users ++ new ∷ [])
apart-concat u new [] e h = (e, tt)
apart-concat u new (v ∷ users) e h = (h.0, apart-concat u new users e h.1)

HasUniqueEmails-concat :
    (users : List UserRow) (new : UserRow)
    → find_by_email new.email users ≡ none
    → HasUniqueEmails users
    → HasUniqueEmails (users ++ new ∷ [])
unfolding find_by_email
HasUniqueEmails-concat [] new fresh h = (tt, tt)
HasUniqueEmails-concat (u ∷ users) new fresh h = (
  apart-concat u new users (ground arith) h.0,
  HasUniqueEmails-concat users new (ground arith) h.1,
)

-- The creation of a user, whether it succeeds or throws, keeps the addresses of the users that are
-- not deleted unique.
pub create-HasUniqueEmails :
    (env : Env) (actor : AuthenticatedActor) (payload : CreateUserRequest) (s : Accounts)
    → HasUniqueEmails s.users
    → HasUniqueEmails (create env actor payload s).1.users
unfolding create invite issue_welcome_token issue_token revoke_all
create-HasUniqueEmails env actor payload s h =
    elim (Bool-cases (permits (some actor) (codes "users.create"))) [
      | inr denied ↦ rw denied h
      | inl granted ↦ elim (Option-cases (find_by_email payload.email s.users)) [
        | inr (user, e) ↦ rw (granted, e) h
        | inl fresh ↦ elim (Option-cases (find_by_code payload.role_code s.roles)) [
          | inl missing ↦ rw (granted, fresh, missing, require) h
          | inr (role, e) ↦
              rw (granted, fresh, e, require)
                (HasUniqueEmails-concat s.users (new_user env actor payload role) fresh h)
        ]
      ]
    ]
