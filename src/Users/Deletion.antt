-- ===== src/Users/Deletion.antt =====
-- Whom the bulk deletion of users removes.
use wealth_track.Prelude.{
  ℕ, ◌≡◌, ◌+◌, refl, Bool, true, not, ◌&&◌, List, [], ◌∷◌, none, some, arith, filter, length, any,
  if◌then◌else◌,
}
use wealth_track.Prelude.Text.{Text, codes, text_eq, text_eq_iff}
use wealth_track.Prelude.Action.{ok}
use wealth_track.Rows.{UserStatus, UserRow}
use wealth_track.Store.Queries.{update_where}
use wealth_track.Actor.{AuthenticatedActor, permits}
use wealth_track.Accounts.{Accounts, Env, is_live, find_user}
use wealth_track.Users.{is_doomed, is_admin, soft_delete_by_ids, bulk_soft_delete}

-- Whether a string that is not spelled like the identifier of the actor names the user by the
-- collation of the database.
abbrev pub names : Env → AuthenticatedActor → List Text → Text → Bool
names env actor ids user_id = any (λ id. not (text_eq id actor.actor_id) && env.same user_id id) ids

any-filter :
    {A : Type 0} (p q : A → Bool) (xs : List A) → any p (filter q xs) ≡ any (λ x. q x && p x) xs
any-filter p q [] = refl
any-filter p q (x ∷ xs) = ground (arith, any-filter p q xs)

module _ (env : Env) (actor : AuthenticatedActor) (ids : List Text) where
  abbrev removed : UserRow → UserRow
  removed u = record u { deleted_at = some env.now; status = UserStatus.inactive }

  any_same : (a b : Text) → text_eq a b ≡ true → any (env.same a) ids ≡ any (env.same b) ids
  any_same a b e = rw ((text_eq_iff a b).0 e) refl

  find_user-removed :
      (id : Text) (users : List UserRow)
      → find_user id (update_where (is_doomed env actor ids) removed users)
        ≡ (if any (env.same id) ids then none else find_user id users)
  unfolding find_user
  find_user-removed id [] = ground arith
  find_user-removed id (u ∷ users) = ground (arith, find_user-removed id users, any_same u.id id)

  length-live :
      (users : List UserRow)
      → length (filter (is_doomed env actor ids) users)
          + length (filter is_live (update_where (is_doomed env actor ids) removed users))
        ≡ length (filter is_live users)
  length-live [] = refl
  length-live (u ∷ users) = ground (arith, length-live users)

-- When an administrator who may deactivate users deletes by identifiers, a user is removed exactly
-- when the database takes some string of the list for the identifier of the user, other than the
-- actor's own as it is spelled; every other user stays as before. So the actor stays, unless the list
-- has another spelling that the database takes for the same. The answer is by how many the users that
-- are not deleted have become fewer.
pub bulk_soft_delete_lem :
    (env : Env) (actor : AuthenticatedActor) (ids : List Text) (s : Accounts) (id : Text)
    → permits (some actor) (codes "users.deactivate") ≡ true
    → is_admin actor.actor_type ≡ true
    → let (r, t) = bulk_soft_delete env actor ids s in
      (find_user id t.users ≡ (if names env actor ids id then none else find_user id s.users))
      × ((n : ℕ) × (r ≡ ok n)
          × (n + length (filter is_live t.users) ≡ length (filter is_live s.users)))
unfolding bulk_soft_delete soft_delete_by_ids
bulk_soft_delete_lem env actor ids s id permitted admin =
    let safe = filter (λ i. not (text_eq i actor.actor_id)) ids in
    rw (permitted, admin)
      (
        rw (← any-filter (env.same id) (λ i. not (text_eq i actor.actor_id)) ids)
            (find_user-removed env actor safe id s.users),
        (_, refl, length-live env actor safe s.users),
      )
