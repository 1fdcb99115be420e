-- ===== src/Auth/Permissions.antt =====
-- The permissions that a session gets.
use wealth_track.Prelude.{
  ◌≡◌, ◌⊎◌, refl, Bool, true, false, List, [], ◌∷◌, map, Option, none, some, arith, All, any,
  Bool-cases, inl, inr,
}
use wealth_track.Prelude.Text.{Text, text_eq, text_eq_refl, is_empty}
use wealth_track.Rows.{PermissionRow, RolePermissionRow, UserRow}
use wealth_track.Accounts.{Accounts, find_role}
use wealth_track.Auth.{is_super_admin, code_of, add_code, granted, of_role, resolved_permissions}

-- The code of a permission of the table.
abbrev pub is_code : List PermissionRow → Text → Bool
is_code permissions code = any (λ p. text_eq p.code code) permissions

code_of-is_code :
    (id : Text) (permissions : List PermissionRow) (code : Text)
    → code_of id permissions ≡ some code
    → is_code permissions code ≡ true
unfolding code_of
code_of-is_code id [] code h = cc
code_of-is_code id (p ∷ ps) code h = ground (arith, code_of-is_code id ps code, text_eq_refl code)

add_code-is_code :
    (permissions : List PermissionRow) (o : Option Text) (codes : List Text)
    → ((code : Text) → o ≡ some code → is_code permissions code ≡ true)
    → All (λ c. is_code permissions c ≡ true) codes
    → All (λ c. is_code permissions c ≡ true) (add_code o codes)
add_code-is_code permissions none codes h k = k
add_code-is_code permissions (some code) codes h k = elim (Bool-cases (is_empty code)) [
  | inl e ↦ rw e k
  | inr e ↦ rw e (h code refl, k)
]

granted-is_code :
    (permissions : List PermissionRow) (rps : List RolePermissionRow)
    → All (λ c. is_code permissions c ≡ true) (granted permissions rps)
unfolding granted
granted-is_code permissions [] = tt
granted-is_code permissions (rp ∷ rps) =
    add_code-is_code permissions (code_of rp.permission_id permissions) (granted permissions rps)
      (code_of-is_code rp.permission_id permissions) (granted-is_code permissions rps)

map-is_code :
    (all ps : List PermissionRow)
    → All (λ p. is_code all p.code ≡ true) ps
    → All (λ c. is_code all c ≡ true) (map (λ p. p.code) ps)
map-is_code all [] h = tt
map-is_code all (p ∷ ps) h = (h.0, map-is_code all ps h.1)

weaken :
    (x : PermissionRow) (all ps : List PermissionRow)
    → All (λ p. is_code all p.code ≡ true) ps
    → All (λ p. is_code (x ∷ all) p.code ≡ true) ps
weaken x all [] h = tt
weaken x all (p ∷ ps) h = (ground (arith, h.0), weaken x all ps h.1)

all-is_code : (ps : List PermissionRow) → All (λ p. is_code ps p.code ≡ true) ps
all-is_code [] = tt
all-is_code (p ∷ ps) = (ground (arith, text_eq_refl p.code), weaken p ps ps (all-is_code ps))

-- Whatever the tables hold, every permission that a session gets is the code of a permission of the
-- table, and a super admin gets all of them in the order of the table.
resolved_permissions-is_code :
    (user : UserRow) (s : Accounts)
    → All (λ c. is_code s.permissions c ≡ true) (resolved_permissions user s)
      × ((is_super_admin (find_role user.role_id s.roles) ≡ false)
          ⊎ (resolved_permissions user s ≡ map (λ p. p.code) s.permissions))
unfolding resolved_permissions
resolved_permissions-is_code user s =
    elim (Bool-cases (is_super_admin (find_role user.role_id s.roles))) [
      | inl e ↦ rw e (map-is_code s.permissions s.permissions (all-is_code s.permissions), inr refl)
      | inr e ↦
          rw e (granted-is_code s.permissions (of_role user.role_id s.role_permissions), inl refl)
    ]
