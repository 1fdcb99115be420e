-- ===== src/Rbac.antt =====
-- apps/api/src/modules/rbac/rbac.service.ts: roles and their permissions.
pub mod Roles
use wealth_track.Prelude.{
  ℕ, ◌+◌, Bool, true, false, not, ◌&&◌, List, [], ◌∷◌, ◌++◌, map, Option, none, some, or_else,
  filter, length, ltb, any, if◌then◌else◌,
}
use wealth_track.Prelude.Text.{Text, codes, text_eq, includes}
use wealth_track.Prelude.Action.{
  Action, ok, err, internal, forbidden, not_found, conflict, pure, gets, modify, require, throw_if,
  ◌>>=◌, ◌>>◌,
}
use wealth_track.Rows.{RoleRow, PermissionRow, RolePermissionRow, UserRow}
use wealth_track.Store.Queries.{update_where}
use wealth_track.Accounts.{Accounts, Env, is_live, find_role, find_by_code}

abbrev pub system_role_codes : List Text
system_role_codes =
    codes "super_admin"
    ∷ codes "admin"
    ∷ codes "analyst"
    ∷ codes "uploader"
    ∷ codes "ops_manager"
    ∷ codes "compliance_officer"
    ∷ codes "viewer"
    ∷ []

abbrev pub is_system : RoleRow → Bool
is_system role = includes system_role_codes role.code

abbrev is_role : Option RoleRow → Bool
is_role none = false
is_role (some role) = true

abbrev pub has_role : Text → UserRow → Bool
has_role id u = text_eq u.role_id id

-- `countUsersByRoleId`
abbrev pub users_of_role : Text → List UserRow → ℕ
users_of_role id users = length (filter (λ u. text_eq u.role_id id && is_live u) users)

abbrev pub of_role : Text → RolePermissionRow → Bool
of_role id rp = text_eq rp.role_id id

module _ (env : Env) where
  abbrev pub new_role : Text → Text → Option Text → RoleRow
  new_role name code description = record {
    id = env.new_id 0;
    code = code;
    name = name;
    description = description;
    created_at = env.now;
  }

  unfoldable pub create_role : Text → Text → Option Text → Action Accounts RoleRow
  unfolding find_by_code
  create_role name code description = do
    existing ← gets (λ s. find_by_code code s.roles)
    throw_if (is_role existing) (conflict "Role code already exists")
    modify (λ s. record s { roles = s.roles ++ new_role name code description ∷ [] })
    pure (new_role name code description)

  unfoldable pub update_role : Text → Option Text → Option Text → Action Accounts RoleRow
  unfolding find_role
  update_role id name description = do
    found ← gets (λ s. find_role id s.roles)
    role ← require found (not_found "Role not found")
    let updated = record role {
      name = or_else name role.name;
      description = elim description [ none ↦ role.description | some d ↦ some d ];
    }
    modify (λ s. record s {
      roles =
          update_where (λ r. text_eq r.id role.id)
            (λ r. record r { name = updated.name; description = updated.description }) s.roles;
    })
    pure updated

  -- The INSERTs of `replaceRolePermissions`, from the n-th identifier on.
  unfoldable pub grants : ℕ → Text → List Text → List RolePermissionRow
  grants n role_id [] = []
  grants n role_id (permission_id ∷ ids) =
      record {
        id = env.new_id n;
        role_id = role_id;
        permission_id = permission_id;
        created_at = env.now;
      }
      ∷ grants (n + 1) role_id ids

  unfoldable pub replace_role_permissions : Text → List Text → Action Accounts (Unit {0})
  unfolding grants
  replace_role_permissions role_id ids = modify (λ s. record s {
    role_permissions =
        filter (λ rp. not (of_role role_id rp)) s.role_permissions ++ grants 0 role_id ids;
  })

  -- `DELETE FROM roles WHERE id = ?`, which the foreign key of the users refuses while one of them has
  -- the role, deleted or not.
  unfoldable pub delete_by_id : Text → Action Accounts (Unit {0})
  delete_by_id id s =
      if any (has_role id) s.users
      then (err (internal "fk_users_role_id"), s)
      else (ok tt, record s { roles = filter (λ r. not (text_eq r.id id)) s.roles })

  unfoldable pub delete_role : Text → Action Accounts Text
  unfolding find_role replace_role_permissions delete_by_id
  delete_role id = do
    found ← gets (λ s. find_role id s.roles)
    role ← require found (not_found "Role not found")
    throw_if (is_system role) (forbidden "System roles cannot be deleted")
    user_count ← gets (λ s. users_of_role id s.users)
    throw_if (ltb 0 user_count) (conflict "Users are assigned to this role. Reassign them first.")
    replace_role_permissions id []
    delete_by_id id
    pure id

  -- `findByCodes`
  abbrev pub with_codes : List Text → List PermissionRow → List PermissionRow
  with_codes wanted = filter (λ p. includes wanted p.code)

  unfoldable pub update_role_permissions : Text → List Text → Action Accounts (List Text)
  unfolding find_role replace_role_permissions
  update_role_permissions role_id wanted = do
    found ← gets (λ s. find_role role_id s.roles)
    require found (not_found "Role not found")
    permissions ← gets (λ s. with_codes wanted s.permissions)
    replace_role_permissions role_id (map (λ p. p.id) permissions)
    pure (map (λ p. p.code) permissions)
