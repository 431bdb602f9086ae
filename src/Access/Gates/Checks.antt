-- ===== src/Access/Gates/Checks.antt =====
-- The gates of src/middleware/auth.ts and the collection gate of
-- src/modules/collections/collection.routes.ts. What the JWT library verifies and what the database
-- holds of an organization are parameters.
use Prim.Native.Nat.{ℕ}
use my_detail_os_backend.Prelude.{
  Bool, true, false, not, ◌&&◌, ◌||◌, String, List, [], Option, none, some, any, get_or, is_empty,
  strip_prefix, ends_with, trim, before, ◌==◌, if◌then◌else◌,
}
use my_detail_os_backend.Access.Roles.{AppRole, platform_owner, customer, role_is}
use my_detail_os_backend.Access.Resolver.{
  AuthUser, has_permission_for_method, bypasses, holds, action_from_http_method,
}
use my_detail_os_backend.Access.Keys.{view, create, edit, delete}
use Prim.Native.String.{◌++◌ as append}
use my_detail_os_backend.Access.Collections.{Permission, own, inherited, get_collection_permission}

-- The claims of a decoded token.
pub record Claims : Type 0 where
  pub sub : String
  pub email : Option String
  pub role : AppRole
  pub branch_id : Option String
  pub organization_id : Option String
  pub customer_id : Option String
  pub name : String
  pub permissions : Option (List String)

-- What `assertOrganizationAccess` selects of an organization.
pub record Org : Type 0 where
  pub is_active : Bool
  pub subscription_status : Option String

pub record Request : Type 0 where
  pub authorization : Option String
  pub original_url : String
  pub path : String
  pub method : String

-- A gate passes the request on with its user, or answers with a status.
pub data Gate : Type 0 where
  pass : AuthUser → Gate
  refuse : ℕ → Gate

-- `a || b` on texts
abbrev or_else : String → String → String
or_else a b = if is_empty a then b else a

unfoldable pub is_logout : Request → Bool
is_logout req =
    let path = before b'?' (or_else req.original_url req.path) in
    path == "/api/auth/logout" || ends_with "/auth/logout" path

-- A studio that may still work: the row is there, active, and its subscription is not cancelled.
abbrev pub is_open : Org → Bool
is_open org = org.is_active && not (get_or org.subscription_status "" == "CANCELLED")

abbrev pub open_row : Option Org → Bool
open_row none = false
open_row (some org) = is_open org

-- `const orgId = auth.organizationId?.trim()`, where "" is falsy as well
unfoldable pub org_id_of : AuthUser → String
org_id_of auth = trim (get_or auth.organization_id "")

abbrev pub user_of : Claims → AuthUser
user_of c = record {
  id = c.sub;
  email = get_or c.email "";
  role = c.role;
  branch_id = get_or c.branch_id "";
  organization_id = c.organization_id;
  customer_id = c.customer_id;
  name = c.name;
  permissions = some (get_or c.permissions []);
}

abbrev pub bearer : Option String → Option String
bearer none = none
bearer (some h) = strip_prefix "Bearer " h

module _ (verify : String → Option Claims) (find_org : String → Option Org) where
  unfoldable pub assert_organization_access : Request → AuthUser → Bool
  assert_organization_access req auth =
      if role_is auth.role platform_owner
      then true
      else if is_logout req
      then true
      else if is_empty (org_id_of auth)
      then true
      else open_row (find_org (org_id_of auth))

  -- behind a verified token
  unfoldable pub admit : Request → AuthUser → Gate
  admit req auth = if assert_organization_access req auth then pass auth else refuse 403

  unfoldable pub require_auth : Request → Gate
  unfolding admit
  require_auth req = elim (bearer req.authorization) [
    | none ↦ refuse 401
    | some token ↦
        if is_empty token
        then refuse 401
        else elim (verify token) [ none ↦ refuse 401 | some claims ↦ admit req (user_of claims) ]
  ]

-- `requireCustomerAuth`
unfoldable pub require_customer_auth : Option AuthUser → Gate
require_customer_auth none = refuse 401
require_customer_auth (some auth) =
    if not (role_is auth.role customer) || is_empty (get_or auth.customer_id "")
    then refuse 401
    else pass auth

-- `requirePermission(permission)`
unfoldable pub require_permission : String → String → Option AuthUser → Gate
require_permission permission method none = refuse 401
require_permission permission method (some auth) =
    if has_permission_for_method auth permission method then pass auth else refuse 403

-- `requireAnyPermission(permissions)`
unfoldable pub require_any_permission : List String → String → Option AuthUser → Gate
require_any_permission permissions method none = refuse 401
require_any_permission permissions method (some auth) =
    if any (λ p. has_permission_for_method auth p method) permissions then pass auth else refuse 403

-- `String(value)` of what an object inherits, as V8 prints it: native functions, and the prototype of
-- objects.
unfoldable pub inherited_text : String → String
inherited_text name =
    if name == "__proto__"
    then "[object Object]"
    else if name == "constructor"
    then "function Object() { [native code] }"
    else append "function " (append name "() { [native code] }")

-- `hasPermissionForMethod` on what indexing the map gave. No text equals a value that is no text, and
-- no set of modules has it, so there is no base key and the module is not granular; only where it
-- stands in the key of an action is the value turned into a text.
unfoldable pub has_collection_permission : AuthUser → Permission → String → Bool
unfolding inherited_text
has_collection_permission auth (own permission) method =
    has_permission_for_method auth permission method
has_collection_permission auth (inherited name) method =
    if bypasses auth.role then true else elim (action_from_http_method method) [
      | none ↦ false
      | some action ↦
          let held = get_or auth.permissions [] in
          let permission = inherited_text name in
          holds held permission action
          || (holds held permission view
              || holds held permission create
              || holds held permission edit
              || holds held permission delete)
    ]

-- `!permission`
abbrev no_permission : Permission → Bool
no_permission (own s) = is_empty s
no_permission (inherited _) = false

-- `requireCollectionPermission`, on a text parameter
unfoldable pub require_collection_permission : String → String → Option AuthUser → Gate
require_collection_permission collection method none = refuse 401
require_collection_permission collection method (some auth) =
    elim (get_collection_permission collection) [
      | none ↦ refuse 403
      | some permission ↦
          if no_permission permission
          then refuse 403
          else if has_collection_permission auth permission method
          then pass auth
          else refuse 403
    ]

-- A route of the collections' router: `collectionRouter.use(requireAuth)`, then the gate.
unfoldable pub collection_route :
    (String → Option Claims) → (String → Option Org) → String → Request → Gate
collection_route verify find_org collection req = elim (require_auth verify find_org req) [
  | refuse status ↦ refuse status
  | pass auth ↦ require_collection_permission collection req.method (some auth)
]
