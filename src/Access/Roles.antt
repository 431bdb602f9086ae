-- ===== src/Access/Roles.antt =====
-- src/lib/rbac.ts: the roles (Prisma's `UserRole` with the portal's CUSTOMER) and the role tests.
use my_detail_os_backend.Prelude.{
  ℕ, Bool, true, false, List, [], ◌∷◌, Option, none, some, ◌||◌, ◌≡◌, ◌≢◌, arith, eqb, any,
  if◌then◌else◌,
}

-- `AppRole`
pub data AppRole : Type 0 where
  platform_owner super_admin admin branch_manager manager supervisor receptionist mechanic : AppRole
  customer : AppRole

abbrev role_index : AppRole → ℕ
role_index platform_owner = 0
role_index super_admin = 1
role_index admin = 2
role_index branch_manager = 3
role_index manager = 4
role_index supervisor = 5
role_index receptionist = 6
role_index mechanic = 7
role_index customer = 8

-- `===` on roles
abbrev pub role_is : AppRole → AppRole → Bool
role_is a b = eqb (role_index a) (role_index b)

-- `roles.includes(role)`
abbrev pub role_in : AppRole → List AppRole → Bool
role_in r rs = any (role_is r) rs

abbrev pub staff_management_roles : List AppRole
staff_management_roles = super_admin ∷ admin ∷ branch_manager ∷ manager ∷ []

abbrev pub role_assignment_roles : List AppRole
role_assignment_roles = super_admin ∷ []

abbrev pub branch_mutation_roles : List AppRole
branch_mutation_roles = super_admin ∷ admin ∷ branch_manager ∷ manager ∷ []

abbrev pub payroll_access_roles : List AppRole
payroll_access_roles = super_admin ∷ admin ∷ manager ∷ branch_manager ∷ []

unfoldable pub is_staff_manager : AppRole → Bool
is_staff_manager role = role_in role staff_management_roles

unfoldable pub can_assign_user_role : AppRole → AppRole → Bool
can_assign_user_role actor target =
    if role_is target platform_owner then false else role_is actor super_admin

-- `undefined` is no platform owner.
unfoldable pub is_platform_owner : Option AppRole → Bool
is_platform_owner none = false
is_platform_owner (some role) = role_is role platform_owner

unfoldable pub can_change_roles : AppRole → Bool
can_change_roles actor = role_in actor role_assignment_roles

unfoldable pub can_create_staff_accounts : AppRole → Bool
can_create_staff_accounts actor = role_is actor super_admin || role_is actor admin

pub role_is_sound : (a b : AppRole) → role_is a b ≡ true → role_index a ≡ role_index b
role_is_sound a b h = ground arith

-- Nobody can hand out the platform owner's role, and whoever can assign any role is a staff
-- manager who can change roles and create staff accounts.
pub can_assign_user_role_sound :
    (actor target : AppRole)
    → can_assign_user_role actor target ≡ true
    → (target ≢ platform_owner)
      × (can_change_roles actor ≡ true)
      × (is_staff_manager actor ≡ true)
      × (can_create_staff_accounts actor ≡ true)
unfolding can_assign_user_role can_change_roles is_staff_manager can_create_staff_accounts
can_assign_user_role_sound actor target h = ground arith
