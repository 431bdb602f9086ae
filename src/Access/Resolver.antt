-- ===== src/Access/Resolver.antt =====
-- The method-aware permission resolver of src/middleware/auth.ts, and what it guarantees.
use my_detail_os_backend.Prelude.{
  Bool, true, false, not, ◌&&◌, ◌||◌, String, List, [], ◌∷◌, Option, none, some, ◌≡◌, arith,
  includes, get_or, to_upper, ◌==◌, if◌then◌else◌,
}
use my_detail_os_backend.Access.Roles.{AppRole, platform_owner, super_admin, admin, role_is}
use my_detail_os_backend.Access.Keys.{
  GranularAction, create, view, edit, delete, granular_permission_key,
  is_granular_permission_module,
}

-- `AuthUser`
pub record AuthUser : Type 0 where
  pub id : String
  pub email : String
  pub role : AppRole
  pub branch_id : String
  pub organization_id : Option String
  pub customer_id : Option String
  pub name : String
  pub permissions : Option (List String)

-- The `switch` of `actionFromHttpMethod`, on the method in upper case.
action_of_upper : String → Option GranularAction
action_of_upper m =
    if m == "GET" || m == "HEAD"
    then some view
    else if m == "POST"
    then some create
    else if m == "PUT" || m == "PATCH"
    then some edit
    else if m == "DELETE"
    then some delete
    else none

unfoldable pub action_from_http_method : String → Option GranularAction
unfolding action_of_upper to_upper
action_from_http_method method = action_of_upper (to_upper method)

abbrev upsert_via_put_modules : List String
upsert_via_put_modules =
    "JOB_CARDS" ∷ "BOOKINGS" ∷ "APPOINTMENTS" ∷ "QUOTATIONS" ∷ "PICKUP_DROP" ∷ "BILLING"
    ∷ "MEMBERSHIP" ∷ "REFERRALS" ∷ "EXPENSES" ∷ "INVENTORY" ∷ "ATTENDANCE" ∷ []

unfoldable pub is_upsert_via_put_module : String → Bool
is_upsert_via_put_module permission = includes permission upsert_via_put_modules

abbrev is_edit : GranularAction → Bool
is_edit edit = true
is_edit _ = false

-- The roles that pass every check.
abbrev pub bypasses : AppRole → Bool
bypasses role = role_is role super_admin || role_is role admin || role_is role platform_owner

-- `held.includes(...)` for the key of an action
abbrev pub holds : List String → String → GranularAction → Bool
holds held permission action = includes (granular_permission_key permission action) held

-- The part of the resolver behind `if (!action) return false`.
pub permits_action : List String → String → GranularAction → Bool
permits_action held permission action =
    if holds held permission action
    then true
    else if is_edit action && is_upsert_via_put_module permission && holds held permission create
    then true
    else if not (is_granular_permission_module permission)
    then holds held permission view
      || holds held permission create
      || holds held permission edit
      || holds held permission delete
    else false

unfoldable pub has_permission_for_method : AuthUser → String → String → Bool
unfolding permits_action
has_permission_for_method auth permission method =
    if bypasses auth.role
    then true
    else if includes permission (get_or auth.permissions [])
    then true
    else elim (action_from_http_method method) [
      | none ↦ false
      | some action ↦ permits_action (get_or auth.permissions []) permission action
    ]

-- `held'` has every key of `held`.
abbrev pub IsSubset : List String → List String → Type 0
IsSubset held held' = (key : String) → includes key held ≡ true → includes key held' ≡ true

-- A larger set of keys, for the same role, never loses access.
pub has_permission_for_method_mono :
    (auth : AuthUser) (held' : List String) (permission method : String)
    → IsSubset (get_or auth.permissions []) held'
    → has_permission_for_method auth permission method ≡ true
    → has_permission_for_method (record auth { permissions = some held' }) permission method ≡ true
unfolding has_permission_for_method
has_permission_for_method_mono auth held' permission method sub = ground (
  arith,
  sub permission,
  sub (granular_permission_key permission create),
  sub (granular_permission_key permission view),
  sub (granular_permission_key permission edit),
  sub (granular_permission_key permission delete),
)

-- Of a granular module, a user outside the bypassing roles with neither the base key nor a key
-- to create, edit or delete passes only for a method that views.
pub view_only_cannot_write :
    (auth : AuthUser) (permission method : String)
    → let held = get_or auth.permissions [] in
      bypasses auth.role ≡ false
      → is_granular_permission_module permission ≡ true
      → includes permission held ≡ false
      → holds held permission create ≡ false
      → holds held permission edit ≡ false
      → holds held permission delete ≡ false
      → has_permission_for_method auth permission method ≡ true
      → action_from_http_method method ≡ some view
unfolding has_permission_for_method
view_only_cannot_write auth permission method = ground arith

-- A user outside the bypassing roles who holds no key is refused, whatever is asked.
pub no_keys_denied :
    (auth : AuthUser) (permission method : String)
    → bypasses auth.role ≡ false
    → get_or auth.permissions [] ≡ []
    → has_permission_for_method auth permission method ≡ false
unfolding has_permission_for_method
no_keys_denied auth permission method role none_held = rw (role, none_held) (ground arith)
