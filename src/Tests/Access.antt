-- ===== src/Tests/Access.antt =====
-- Roles, permissions and gates at concrete users (src/lib/rbac.ts, src/lib/staff-access.ts,
-- src/middleware/auth.ts, src/constants/collection-permissions.ts).
use my_detail_os_backend.Prelude.{
  String, true, ◌||◌, List, [], ◌∷◌, Option, none, some, ◌≡◌, ◌↔◌, ◌⊎◌, refl, is_some, before,
  ends_with, strip_prefix, trim, lookup,
}
use my_detail_os_backend.Access.Roles.{supervisor, admin}
use my_detail_os_backend.Access.Resolver.{
  AuthUser, has_permission_for_method, action_from_http_method,
}
use my_detail_os_backend.Access.Collections.{
  get_collection_permission, get_collection_permission_iff, is_array_collection,
  is_singleton_collection, is_inherited,
}
use my_detail_os_backend.Access.Gates.{
  Claims, Org, Request, pass, IsServed, IsAuthentic, IsPermitted, SlipsThrough,
  has_collection_permission, require_auth, collection_route, collection_route_sound,
  assert_organization_access, is_logout, org_id_of, require_collection_permission,
}

abbrev user : List String → AuthUser
user held = record {
  id = "u1";
  email = "a@b.c";
  role = supervisor;
  branch_id = "b1";
  organization_id = some "o1";
  customer_id = none;
  name = "Asha";
  permissions = some held;
}

get_collection_permission_iff_example : (is_some (get_collection_permission "jobCards") ≡ true) ↔ (
    ((is_array_collection "jobCards" || is_singleton_collection "jobCards")
      || is_inherited "jobCards")
    ≡ true)
get_collection_permission_iff_example = get_collection_permission_iff "jobCards"

abbrev editor : List String
editor = "JOB_CARDS" ∷ "BILLING_EDIT" ∷ "BILLING_VIEW" ∷ []

abbrev claims : Claims
claims = record {
  sub = "u1";
  email = some "a@b.c";
  role = supervisor;
  branch_id = some "b1";
  organization_id = some "o1";
  customer_id = none;
  name = "Asha";
  permissions = some ("JOB_CARDS_VIEW" ∷ []);
}

-- A library that verifies every token, and a database where every organization is open.
abbrev verify : String → Option Claims
verify _ = some claims

abbrev find_org : String → Option Org
find_org _ = some (record { is_active = true; subscription_status = some "ACTIVE" })

abbrev request : Request
request = record {
  authorization = some "Bearer t";
  original_url = "/api/collections/jobCards";
  path = "/jobCards";
  method = "GET";
}

abbrev reader : AuthUser
reader = user ("JOB_CARDS_VIEW" ∷ [])

authenticates : require_auth verify find_org request ≡ pass reader
unfolding assert_organization_access before ends_with is_logout org_id_of require_auth strip_prefix
    trim
authenticates = refl

routes : collection_route verify find_org "jobCards" request ≡ pass reader
unfolding action_from_http_method assert_organization_access before collection_route ends_with
    get_collection_permission has_collection_permission has_permission_for_method is_logout lookup
    org_id_of require_auth require_collection_permission strip_prefix trim
routes = refl

-- The owner of a studio passes for a collection that is none.
abbrev head : AuthUser
head = record reader { role = admin }

slips_through : require_collection_permission "constructor" "GET" (some head) ≡ pass head
unfolding get_collection_permission has_collection_permission is_inherited lookup
    require_collection_permission
slips_through = refl

collection_route_sound_example :
    IsAuthentic verify request reader
    × IsServed find_org request reader
    × (IsPermitted "jobCards" "GET" reader ⊎ SlipsThrough "jobCards" reader)
collection_route_sound_example =
    collection_route_sound verify find_org "jobCards" request reader routes
