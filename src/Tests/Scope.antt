-- ===== src/Tests/Scope.antt =====
-- Branch scope at concrete payloads (src/lib/data-scope.ts).
use my_detail_os_backend.Prelude.{String, List, [], ◌∷◌, Option, none, some, ◌≡◌, refl, All, trim}
use my_detail_os_backend.Json.{
  Fields, Json, str, arr, obj, nil, cons, end, field, get, named_fields,
}
use my_detail_os_backend.Access.Roles.{supervisor}
use my_detail_os_backend.Access.Resolver.{AuthUser}
use my_detail_os_backend.Scope.{
  BranchScope, apply_collection_branch_scope, filter_nested_singleton_payload, resolve_branch_scope,
  intersect_query_branch_id, filter_payloads_by_branch, is_payload_in_branch_scope,
  can_use_org_wide_branch_scope,
}
use my_detail_os_backend.Scope.Hidden.{Kept, apply_collection_branch_scope-Kept}
use my_detail_os_backend.Scope.Nested.{Shown, is_nested, filter_nested_singleton_payload-fields}
use my_detail_os_backend.Scope.Caller.{branch_bound_caller}
use my_detail_os_backend.Access.Collections.{is_array_collection}

abbrev at_branch : String → Json
at_branch id = obj (field "branchId" (str id) end)

abbrev cards : List Json
cards = at_branch "b1" ∷ at_branch "b2" ∷ obj end ∷ []

hides :
    apply_collection_branch_scope "jobCards" cards (some ("b1" ∷ []))
    ≡ at_branch "b1" ∷ obj end ∷ []
unfolding apply_collection_branch_scope filter_payloads_by_branch get is_array_collection
    is_payload_in_branch_scope trim
hides = refl

apply_collection_branch_scope-Kept_example :
    Kept ("b1" ∷ []) cards (apply_collection_branch_scope "jobCards" cards (some ("b1" ∷ [])))
unfolding is_array_collection
apply_collection_branch_scope-Kept_example =
    apply_collection_branch_scope-Kept "jobCards" cards ("b1" ∷ []) refl

abbrev bank : Fields
bank =
    field "note" (str "x")
      (field "accounts" (arr (cons (at_branch "b1") (cons (at_branch "b2") nil))) end)

filter_nested_singleton_payload-fields_example :
    Shown ("b1" ∷ []) (is_nested "cashBank" "accounts") (get "accounts" bank) (
      get "accounts"
        (named_fields (filter_nested_singleton_payload "cashBank" (obj bank) (some ("b1" ∷ [])))))
filter_nested_singleton_payload-fields_example =
    filter_nested_singleton_payload-fields "cashBank" bank ("b1" ∷ []) "accounts"

abbrev settings : Json
settings = obj (field "secret" (str "s") (field "businessName" (str "Shine") end))

abbrev user : AuthUser
user = record {
  id = "u1";
  email = "";
  role = supervisor;
  branch_id = "b1";
  organization_id = some "o1";
  customer_id = none;
  name = "Asha";
  permissions = none;
}

abbrev no_user_row : String → Option String
no_user_row _ = none

abbrev two_branches : String → List String
two_branches _ = "b1" ∷ "b2" ∷ []

abbrev scope : BranchScope
scope = record { organization_id = "o1"; allowed_branch_ids = some ("b1" ∷ []) }

resolves : resolve_branch_scope no_user_row two_branches user ≡ some scope
unfolding can_use_org_wide_branch_scope resolve_branch_scope
resolves = refl

branch_bound_caller_example :
    (ids : List String) × (intersect_query_branch_id scope (some "b2") ≡ some ids)
    × All (λ id. id ≡ "b1") ids
unfolding can_use_org_wide_branch_scope
branch_bound_caller_example =
    branch_bound_caller no_user_row two_branches user scope (some "b2") refl resolves
