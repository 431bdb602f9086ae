-- ===== src/Scope/Referenced.antt =====
-- `collectReferencedCustomerVehicleIds` of src/lib/data-scope.ts: the customers and vehicles that a
-- branch-bound user reaches through the documents of the branches. A set is a list without
-- repetitions.
use my_detail_os_backend.Prelude.{
  String, List, [], ◌∷◌, ◌++◌, Option, none, some, not, ◌||◌, includes, is_empty, if◌then◌else◌,
}
use my_detail_os_backend.Json.{Json, get, named_fields, as_text, is_object}
use my_detail_os_backend.Scope.{is_payload_in_branch_scope}

-- `set.add(id)`
unfoldable pub add_id : String → List String → List String
add_id id ids = if includes id ids then ids else ids ++ (id ∷ [])

-- `if (typeof id === "string" && id) set.add(id)`
unfoldable pub add_field : String → Json → List String → List String
unfolding add_id
add_field key payload ids = elim (as_text (get key (named_fields payload))) [
  | none ↦ ids
  | some id ↦ if is_empty id then ids else add_id id ids
]

-- `null` sets for an organization-wide user: no filter
pub record Referenced : Type 0 where
  pub customer_ids : Option (List String)
  pub vehicle_ids : Option (List String)

-- The loop over the payloads of job cards, appointments and pickup requests.
unfoldable pub collect_payloads : List Json → List String → String → List String → List String
unfolding add_field
collect_payloads [] allowed key ids = ids
collect_payloads (payload ∷ rest) allowed key ids =
    let next =
      if not (is_payload_in_branch_scope payload (some allowed)) || not (is_object payload)
      then ids
      else add_field key payload ids in
    collect_payloads rest allowed key next

unfoldable pub collect_referenced_customer_vehicle_ids :
    List Json → Option (List String) → Referenced
unfolding collect_payloads
collect_referenced_customer_vehicle_ids payloads none = record {
  customer_ids = none;
  vehicle_ids = none;
}
collect_referenced_customer_vehicle_ids payloads (some []) = record {
  customer_ids = some [];
  vehicle_ids = some [];
}
collect_referenced_customer_vehicle_ids payloads (some (b ∷ bs)) = record {
  customer_ids = some (collect_payloads payloads (b ∷ bs) "customerId" []);
  vehicle_ids = some (collect_payloads payloads (b ∷ bs) "vehicleId" []);
}
