-- ===== src/Rbac/Roles.antt =====
-- Which roles can be deleted, and what a role is granted.
use wealth_track.Prelude.{
  ℕ, ◌≡◌, ◌+◌, refl, ap, Bool, true, false, not, List, [], ◌∷◌, ◌++◌, append-nil, map, none, some,
  arith, filter, find, ltb, any, Option-cases, Bool-cases, inl, inr,
}
use wealth_track.Prelude.Text.{Text, text_eq, text_eq_iff, text_eq_refl}
use wealth_track.Prelude.Action.{Result, ok, err, internal, forbidden, not_found, conflict, require}
use wealth_track.Rows.{RoleRow, RolePermissionRow}
use wealth_track.Store.Laws.{filter-append, filter-filter-not}
use wealth_track.Accounts.{Accounts, Env, find_role}
use wealth_track.Rbac.{
  is_system, delete_by_id, users_of_role, has_role, of_role, grants, replace_role_permissions,
  delete_role, with_codes, update_role_permissions,
}

find-filter-not :
    {A : Type 0} (p : A → Bool) (xs : List A) → find p (filter (λ x. not (p x)) xs) ≡ none
find-filter-not p [] = refl
find-filter-not p (x ∷ xs) = ground (arith, find-filter-not p xs)

module _ (env : Env) (id : Text) (s : Accounts) where
  -- How the deletion of a role ends.
  pub data Deletion : Result Text × Accounts → Type 0 where
    missing : find_role id s.roles ≡ none → Deletion (err (not_found "Role not found"), s)
    system :
        (role : RoleRow)
        → find_role id s.roles ≡ some role
        → is_system role ≡ true
        → Deletion (err (forbidden "System roles cannot be deleted"), s)
    assigned :
        (role : RoleRow)
        → find_role id s.roles ≡ some role
        → is_system role ≡ false
        → ltb 0 (users_of_role id s.users) ≡ true
        → Deletion (err (conflict "Users are assigned to this role. Reassign them first."), s)
    deleted :
        (role : RoleRow) (t : Accounts)
        → find_role id s.roles ≡ some role
        → is_system role ≡ false
        → any (has_role id) s.users ≡ false
        → find_role id t.roles ≡ none
        → t.roles ≡ filter (λ r. not (text_eq r.id id)) s.roles
        → filter (of_role id) t.role_permissions ≡ []
        → t.role_permissions ≡ filter (λ rp. not (of_role id rp)) s.role_permissions
        → t.users ≡ s.users
        → Deletion (ok id, t)
    blocked :
        (role : RoleRow) (t : Accounts)
        → find_role id s.roles ≡ some role
        → is_system role ≡ false
        → users_of_role id s.users ≡ 0
        → any (has_role id) s.users ≡ true
        → t.roles ≡ s.roles
        → filter (of_role id) t.role_permissions ≡ []
        → t.role_permissions ≡ filter (λ rp. not (of_role id rp)) s.role_permissions
        → t.users ≡ s.users
        → Deletion (err (internal "fk_users_role_id"), t)

  no_role : find_role id (filter (λ r. not (text_eq r.id id)) s.roles) ≡ none
  unfolding find_role
  no_role = find-filter-not (λ r. text_eq r.id id) s.roles

  no_grants :
      filter
        (of_role id)
        (filter (λ rp. not (of_role id rp)) s.role_permissions ++ grants env 0 id [])
      ≡ []
  unfolding grants
  no_grants =
      rw (append-nil (filter (λ rp. not (of_role id rp)) s.role_permissions))
        (filter-filter-not (of_role id) s.role_permissions)

  other_grants :
      filter (λ rp. not (of_role id rp)) s.role_permissions ++ grants env 0 id []
      ≡ filter (λ rp. not (of_role id rp)) s.role_permissions
  unfolding grants
  other_grants = append-nil (filter (λ rp. not (of_role id rp)) s.role_permissions)

  -- The deletion of a role throws and changes nothing when the role is missing, is a role of the system,
  -- or is the role of a user that is not deleted. When only deleted users have the role, the foreign key
  -- makes it throw, with the role still there but all that was granted to it gone. When no user has
  -- it, the role is gone, and so is all that was granted to it. The other roles, what is granted to
  -- them, and the users are as before.
  pub delete_role-Deletion : Deletion (delete_role env id s)
  unfolding delete_role replace_role_permissions delete_by_id
  delete_role-Deletion = elim (Option-cases (find_role id s.roles)) [
    | inl none_found ↦ rw (none_found, require) (missing none_found)
    | inr (role, e) ↦ elim (Bool-cases (is_system role)) [
      | inl sys ↦ rw (e, require, sys) (system role e sys)
      | inr plain ↦ elim (Bool-cases (ltb 0 (users_of_role id s.users))) [
        | inl some_users ↦ rw (e, require, plain, some_users) (assigned role e plain some_users)
        | inr no_users ↦ elim (Bool-cases (any (has_role id) s.users)) [
          | inl held ↦
              rw (e, require, plain, no_users, held)
                (blocked role _ e plain (ground arith) held refl no_grants other_grants refl)
          | inr free ↦
              rw (e, require, plain, no_users, free)
                (deleted role _ e plain free no_role refl no_grants other_grants refl)
        ]
      ]
    ]
  ]

filter-grants :
    (env : Env) (n : ℕ) (id : Text) (ids : List Text)
    → (filter (of_role id) (grants env n id ids) ≡ grants env n id ids)
      × (map (λ rp. rp.permission_id) (grants env n id ids) ≡ ids)
unfolding grants
filter-grants env n id [] = (refl, refl)
filter-grants env n id (i ∷ ids) =
    let rest = filter-grants env (n + 1) id ids in
    let grant : RolePermissionRow = record {
      id = env.new_id n;
      role_id = id;
      permission_id = i;
      created_at = env.now;
    } in
    rw (text_eq_refl id) (ap (λ rps. grant ∷ rps) rest.0, ap (λ is. i ∷ is) rest.1)

filter-others :
    (env : Env) (n : ℕ) (id other : Text) (ids : List Text)
    → text_eq id other ≡ false
    → filter (of_role other) (grants env n id ids) ≡ []
unfolding grants
filter-others env n id other [] e = refl
filter-others env n id other (i ∷ ids) e = rw e (filter-others env (n + 1) id other ids e)

filter-filter_apart :
    (id other : Text) (rps : List RolePermissionRow)
    → text_eq id other ≡ false
    → filter (of_role other) (filter (λ rp. not (of_role id rp)) rps) ≡ filter (of_role other) rps
filter-filter_apart id other [] e = refl
filter-filter_apart id other (rp ∷ rps) e = ground (
  arith,
  filter-filter_apart id other rps e,
  text_eq_iff rp.role_id id,
  text_eq_iff rp.role_id other,
  text_eq_iff id other,
)

-- When the permissions of a role are replaced, the role is granted exactly the permissions of the
-- table whose codes are named, in their order, and what other roles are granted stays as it was.
update_role_permissions_lem :
    (env : Env) (id other : Text) (wanted : List Text) (s : Accounts) (role : RoleRow)
    → find_role id s.roles ≡ some role
    → text_eq id other ≡ false
    → let (r, t) = update_role_permissions env id wanted s in
      (r ≡ ok (map (λ p. p.code) (with_codes env wanted s.permissions)))
      × (map (λ rp. rp.permission_id) (filter (of_role id) t.role_permissions)
          ≡ map (λ p. p.id) (with_codes env wanted s.permissions))
      × (filter (of_role other) t.role_permissions ≡ filter (of_role other) s.role_permissions)
unfolding update_role_permissions replace_role_permissions
update_role_permissions_lem env id other wanted s role found apart =
    let ids = map (λ p. p.id) (with_codes env wanted s.permissions) in
    let rest = filter (λ rp. not (of_role id rp)) s.role_permissions in
    rw (found, require)
      (
        refl,
        rw
            (
              filter-append (of_role id) rest (grants env 0 id ids),
              filter-filter-not (of_role id) s.role_permissions,
              (filter-grants env 0 id ids).0,
            )
            (filter-grants env 0 id ids).1,
        rw
            (
              filter-append (of_role other) rest (grants env 0 id ids),
              filter-filter_apart id other s.role_permissions apart,
              filter-others env 0 id other ids apart,
            )
            (append-nil (filter (of_role other) s.role_permissions)),
      )
