-- ===== src/Scope.antt =====
-- Branch scope (src/lib/data-scope.ts): which branches a user may see, and what of a collection
-- stays visible. The tables of users and branches are parameters. The children hold the proofs.
pub mod Hidden
pub mod Nested
pub mod Caller
pub mod Referenced
use my_detail_os_backend.Prelude.{
  String, Bool, true, false, not, ◌&&◌, ◌||◌, List, [], ◌∷◌, map, Option, none, some, includes,
  filter, is_some, is_empty, is_blank, trim, get_or, length, ◌==◌, if◌then◌else◌, Dict, insert,
  lookup,
}
use my_detail_os_backend.Json.{
  Json, null, bool, num, str, arr, obj, Items, Fields, to_list, from_list, get, put, own_fields,
  named_fields, is_object, as_text,
}
use my_detail_os_backend.Access.Roles.{
  AppRole, super_admin, admin, manager, branch_manager, role_in,
}
use my_detail_os_backend.Access.Resolver.{AuthUser}
use my_detail_os_backend.Access.Collections.{is_array_collection, is_singleton_collection}

abbrev org_wide_branch_roles : List AppRole
org_wide_branch_roles = super_admin ∷ admin ∷ manager ∷ branch_manager ∷ []

abbrev branch_nested_singletons : List String
branch_nested_singletons = "payroll" ∷ "cashBank" ∷ "membership" ∷ "leaveConfig" ∷ []

abbrev pub payroll_nested_keys : List String
payroll_nested_keys =
    "salaryStructures" ∷ "payrollRecords" ∷ "salaryAdvances" ∷ "salaryAdvanceRecoveries" ∷ []

abbrev pub cash_bank_nested_keys : List String
cash_bank_nested_keys = "accounts" ∷ "transactions" ∷ []

abbrev pub membership_nested_keys : List String
membership_nested_keys = "packages" ∷ "subscriptions" ∷ []

-- `BranchScope`; `none` for `allowedBranchIds: null`, every branch of the organization.
pub record BranchScope : Type 0 where
  pub organization_id : String
  pub allowed_branch_ids : Option (List String)

unfoldable pub can_use_org_wide_branch_scope : AppRole → Bool
can_use_org_wide_branch_scope role = role_in role org_wide_branch_roles

-- `typeof id === "string" && id.trim() ? id : undefined`
abbrev non_blank : Option String → Option String
non_blank none = none
non_blank (some s) = if is_blank s then none else some s

unfoldable pub payload_branch_id : Json → Option String
payload_branch_id payload = non_blank (as_text (get "branchId" (named_fields payload)))

-- `id != null && allowed.includes(id)`
abbrev pub allows : List String → Option String → Bool
allows allowed none = false
allows allowed (some id) = includes id allowed

-- A truthy text.
abbrev pub filled : Option String → Bool
filled none = false
filled (some s) = not (is_empty s)

-- The end of `isPayloadInBranchScope`, on the two branches of a transfer.
unfoldable pub transfer_in_scope : List String → Option String → Option String → Bool
transfer_in_scope allowed from to =
    if filled from || filled to then allows allowed from || allows allowed to else true

unfoldable pub is_payload_in_branch_scope : Json → Option (List String) → Bool
unfolding payload_branch_id transfer_in_scope
is_payload_in_branch_scope payload none = true
is_payload_in_branch_scope payload (some allowed) = elim (payload_branch_id payload) [
  | some id ↦ includes id allowed
  | none ↦
      if not (is_object payload)
      then true
      else transfer_in_scope allowed (as_text (get "fromBranchId" (named_fields payload)))
          (as_text (get "toBranchId" (named_fields payload)))
]

unfoldable pub filter_payloads_by_branch : List Json → Option (List String) → List Json
filter_payloads_by_branch items none = items
filter_payloads_by_branch items (some allowed) =
    filter (λ item. is_payload_in_branch_scope item (some allowed)) items

-- `filterNestedArrayByBranch`, as a value
unfoldable pub filter_nested_array_by_branch : Json → Option (List String) → Json
filter_nested_array_by_branch (arr vs) allowed =
    arr (from_list (filter_payloads_by_branch (to_list vs) allowed))
filter_nested_array_by_branch _ allowed = arr Items.nil

-- The loop `for (const key of keys) if (key in src) next[key] = ...`.
unfoldable pub filter_keys : List String → Fields → Option (List String) → Fields → Fields
filter_keys [] src allowed next = next
filter_keys (key ∷ keys) src allowed next = filter_keys keys src allowed (elim (get key src) [
  | none ↦ next
  | some v ↦ put key (filter_nested_array_by_branch v allowed) next
])

-- The nested arrays of a singleton; `none` where the payload stays as it is.
unfoldable pub nested_keys : String → Option (List String)
nested_keys collection =
    if collection == "payroll"
    then some payroll_nested_keys
    else if collection == "cashBank"
    then some cash_bank_nested_keys
    else if collection == "leaveConfig"
    then some ("balances" ∷ [])
    else if collection == "membership"
    then some membership_nested_keys
    else none

unfoldable pub filter_nested_singleton_payload : String → Json → Option (List String) → Json
unfolding nested_keys filter_keys
filter_nested_singleton_payload collection payload none = payload
filter_nested_singleton_payload collection payload (some allowed) =
    if not (is_object payload) then payload else elim (nested_keys collection) [
      | none ↦ payload
      | some keys ↦ obj (filter_keys keys (own_fields payload) (some allowed) (own_fields payload))
    ]

unfoldable pub apply_collection_branch_scope : String → List Json → Option (List String) → List Json
apply_collection_branch_scope collection items none = items
apply_collection_branch_scope collection items (some allowed) =
    if is_array_collection collection
    then filter_payloads_by_branch items (some allowed)
    else if is_singleton_collection collection && includes collection branch_nested_singletons
    then map (λ p. filter_nested_singleton_payload collection p (some allowed)) items
    else items

abbrev pub branding_keys : List String
branding_keys =
    "businessName" ∷ "businessLogo" ∷ "businessTagline" ∷ "businessPhone" ∷ "businessWhatsApp"
    ∷ "businessEmail" ∷ "businessAddress" ∷ "businessWebsite" ∷ "brandPrimary"
    ∷ "gstRegistrationStatus" ∷ []

-- The loop of `extractBranding`.
unfoldable pub brand_onto : List String → Fields → Dict String → Dict String
brand_onto [] src out = out
brand_onto (key ∷ keys) src out =
    brand_onto keys src (elim (as_text (get key src)) [ none ↦ out | some v ↦ insert key v out ])

unfoldable pub extract_branding : Json → Dict String
unfolding brand_onto
extract_branding app_settings =
    if not (is_object app_settings)
    then []
    else brand_onto branding_keys (named_fields app_settings) []

-- `home && orgBranchIds.includes(home) ? [home] : orgBranchIds.length ? [] : home ? [home] : []`
unfoldable pub home_branches : List String → String → List String
home_branches org_branch_ids home =
    if not (is_empty home) && includes home org_branch_ids
    then home ∷ []
    else elim org_branch_ids [ b ∷ bs ↦ [] | [] ↦ if not (is_empty home) then home ∷ [] else [] ]

-- `auth.organizationId`, or the user's row
abbrev pub organization_of : (String → Option String) → AuthUser → String
organization_of find_user_org auth =
    let claimed = get_or auth.organization_id "" in
    if is_empty claimed then get_or (find_user_org auth.id) "" else claimed

unfoldable pub resolve_branch_scope :
    (String → Option String) → (String → List String) → AuthUser → Option BranchScope
unfolding home_branches
resolve_branch_scope find_user_org list_org_branch_ids auth =
    let organization = organization_of find_user_org auth in
    if is_empty organization
    then none
    else if can_use_org_wide_branch_scope auth.role
    then some (record { organization_id = organization; allowed_branch_ids = none })
    else some (record {
      organization_id = organization;
      allowed_branch_ids = some (home_branches (list_org_branch_ids organization) auth.branch_id);
    })

unfoldable pub intersect_query_branch_id : BranchScope → Option String → Option (List String)
intersect_query_branch_id scope query =
    let id = trim (get_or query "") in
    if is_empty id then scope.allowed_branch_ids else elim scope.allowed_branch_ids [
      | none ↦ some (id ∷ [])
      | some allowed ↦ if not (includes id allowed) then some [] else some (id ∷ [])
    ]
