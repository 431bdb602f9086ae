-- ===== src/Inspections/Guards.antt =====
-- What the service checks before it writes a report, and the payload that it keeps
-- (src/modules/inspections/inspection.service.ts).
use my_detail_os_backend.Prelude.{
  String, Bool, false, not, ◌&&◌, ◌||◌, List, [], ◌∷◌, Option, none, some, includes, is_empty,
  is_some, trim, get_or, ◌==◌, if◌then◌else◌,
}
use my_detail_os_backend.Errors.{
  Result, ok, validation_error, forbidden_error, throw_if, ◌>>=◌, ◌>>◌,
}
use my_detail_os_backend.Json.{
  Json, null, Fields, get, remove, spread_onto, named_fields, is_object, as_text, truthy,
}
use my_detail_os_backend.Scope.{BranchScope}
use my_detail_os_backend.Scope.Referenced.{collect_referenced_customer_vehicle_ids}
use my_detail_os_backend.Inspections.Conditions.{normalize_inspection_conditions}
use my_detail_os_backend.Inspections.Ratings.{string_or_empty}
use my_detail_os_backend.Inspections.Records.{Env, reaches}

-- `branchId?.trim() || (allowedBranchIds?.length === 1 ? allowedBranchIds[0] : "")`
unfoldable pub chosen_branch : BranchScope → Option String → String
chosen_branch scope branch =
    let asked = trim (get_or branch "") in
    if not (is_empty asked) then asked else elim scope.allowed_branch_ids [
      | none ↦ ""
      | some [] ↦ ""
      | some (b ∷ []) ↦ b
      | some (b ∷ c ∷ bs) ↦ ""
    ]

unfoldable pub assert_branch : Env → BranchScope → Option String → Result String
unfolding chosen_branch
assert_branch env scope branch =
    let resolved = chosen_branch scope branch in
    throw_if (is_empty resolved) (validation_error "A branch must be selected.")
    >> (throw_if (not (reaches scope resolved))
          (forbidden_error "You do not have access to this branch.")
        >> (throw_if (not (is_some (env.find_branch resolved scope.organization_id)))
              (forbidden_error "The selected branch is not part of your organization.")
            >> ok resolved))

-- `set && !set.has(id)`
abbrev misses : Option (List String) → String → Bool
misses none id = false
misses (some ids) id = not (includes id ids)

-- `value && value !== id`, for a field of the job card
abbrev contradicts : Option Json → String → Bool
contradicts v id = truthy v && not (elim (as_text v) [ none ↦ false | some s ↦ s == id ])

-- The part of `assertRelatedRecords` behind `if (!jobCardId) return`
unfoldable pub assert_job_card :
    Option Json → (branch customer vehicle : String) → Result (Unit {0})
assert_job_card job branch customer vehicle =
    let fs = named_fields (get_or job null) in
    throw_if
      (not (is_object (get_or job null))
        || not (elim (as_text (get "branchId" fs)) [ none ↦ false | some b ↦ b == branch ]))
      (validation_error "The linked job card must belong to the inspection branch.")
    >> throw_if
        (contradicts (get "customerId" fs) customer || contradicts (get "vehicleId" fs) vehicle)
        (validation_error "The linked job card must match the selected customer and vehicle.")

abbrev pub job_card_id : Fields → String
job_card_id payload = trim (get_or (as_text (get "jobCardId" payload)) "")

unfoldable pub assert_related_records : Env → BranchScope → String → Fields → Result (Unit {0})
unfolding assert_job_card
assert_related_records env scope branch payload =
    let org = scope.organization_id in
    let customer = string_or_empty (get "customerId" payload) in
    let vehicle = string_or_empty (get "vehicleId" payload) in
    let referenced =
      collect_referenced_customer_vehicle_ids (env.branch_documents org) scope.allowed_branch_ids in
    throw_if (not (is_some (env.find_customer customer org)))
      (validation_error "The selected customer does not belong to this organization.")
    >> (throw_if (not (is_some (env.find_vehicle vehicle customer org))) (
          validation_error
            "The selected vehicle does not belong to this customer and organization.")
        >> (throw_if
              (misses referenced.customer_ids customer || misses referenced.vehicle_ids vehicle)
              (forbidden_error "The selected customer or vehicle is outside your branch access.")
            >> (if is_empty (job_card_id payload)
                then ok tt
                else assert_job_card (env.find_job_card (job_card_id payload) org) branch customer
                    vehicle)))

abbrev pub server_fields : List String
server_fields =
    "id" ∷ "reportNumber" ∷ "revision" ∷ "status" ∷ "createdAt" ∷ "updatedAt" ∷ "createdBy"
    ∷ "updatedBy" ∷ "inspectorId" ∷ "finalizedBy" ∷ "finalizedAt" ∷ "branchId" ∷ []

-- `for (const field of fields) delete clean[field]`
unfoldable pub remove_all : List String → Fields → Fields
remove_all [] fs = fs
remove_all (k ∷ ks) fs = remove_all ks (remove k fs)

unfoldable pub sanitize_draft_payload : Fields → Result Fields
unfolding remove_all
sanitize_draft_payload payload =
    normalize_inspection_conditions payload
    >>= (λ conditions. ok (remove_all server_fields (spread_onto payload conditions)))
