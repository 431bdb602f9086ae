-- ===== src/Inspections/Ratings.antt =====
-- Completeness, computed ratings and the snapshot of a report
-- (src/modules/inspections/inspection-validation.ts).
pub mod Worst
use my_detail_os_backend.Prelude.{
  ℕ, String, Bool, true, false, not, ◌&&◌, List, [], ◌∷◌, map, filter, Option, none, some, includes,
  get_or, trim, is_blank, to_upper, ◌==◌, if◌then◌else◌,
}
use my_detail_os_backend.Errors.{
  Result, ok, err, validation_error, plain_error, throw_if, ◌>>=◌, ◌>>◌,
}
use my_detail_os_backend.Json.{
  Json, null, bool, num, str, arr, obj, Fields, to_list, from_list, get, put, spread_onto,
  own_fields, named_fields, is_object, truthy,
}
use my_detail_os_backend.Json.Print.{to_text}
use my_detail_os_backend.Inspections.Conditions.{normalize_inspection_conditions}
use my_detail_os_backend.Inspections.Validation.{rating_values}

abbrev checkpoint_rating_keys : List String
checkpoint_rating_keys = "rating" ∷ "conditionRating" ∷ "severity" ∷ "status" ∷ "result" ∷ []

-- The rating that one field of a checkpoint gives.
abbrev rating_in : Option Json → Option String
rating_in (some (str s)) =
    if includes (to_upper (trim s)) rating_values then some (to_upper (trim s)) else none
rating_in _ = none

-- The loop of `ratingForCheckpoint` over the keys.
unfoldable pub first_rating : List String → Fields → Option String
first_rating [] fs = none
first_rating (key ∷ keys) fs = elim (rating_in (get key fs)) [
  | some r ↦ some r
  | none ↦ first_rating keys fs
]

-- `ratingForCheckpoint`
unfoldable pub rating_for_checkpoint : Json → Option String
unfolding first_rating
rating_for_checkpoint checkpoint = first_rating checkpoint_rating_keys (named_fields checkpoint)

-- `Array.isArray(value) ? value : undefined`
abbrev pub as_array : Option Json → Option (List Json)
as_array (some (arr vs)) = some (to_list vs)
as_array _ = none

-- The checkpoints of a section, under either name.
unfoldable pub section_checkpoints : Fields → List Json
section_checkpoints section = elim (as_array (get "checkpoints" section)) [
  | some vs ↦ vs
  | none ↦ get_or (as_array (get "items" section)) []
]

unfoldable pub is_incomplete : Json → Bool
is_incomplete checkpoint = elim (rating_for_checkpoint checkpoint) [
  | none ↦ true
  | some r ↦ r == "NOT_CHECKED"
]

unfoldable pub check_checkpoints : List Json → Result (Unit {0})
check_checkpoints [] = ok tt
check_checkpoints (c ∷ cs) =
    throw_if (is_incomplete c)
      (validation_error "Complete every inspection checkpoint before finalizing.")
    >> check_checkpoints cs

abbrev no_items {ℓ} : {A : Type ℓ} → List A → Bool
no_items [] = true
no_items (_ ∷ _) = false

unfoldable pub check_section : Json → Result (Unit {0})
unfolding check_checkpoints
check_section section =
    throw_if (not (is_object section))
      (validation_error "Inspection sections must contain checkpoints.")
    >> (throw_if (no_items (section_checkpoints (named_fields section)))
          (validation_error "Empty inspection sections cannot be finalized.")
        >> check_checkpoints (section_checkpoints (named_fields section)))

unfoldable pub check_sections : List Json → Result (Unit {0})
check_sections [] = ok tt
check_sections (s ∷ ss) = check_section s >> check_sections ss

-- `String(value ?? "")`
abbrev pub string_or_empty : Option Json → String
string_or_empty none = ""
string_or_empty (some null) = ""
string_or_empty (some v) = to_text v

-- `assertInspectionComplete`
unfoldable pub assert_inspection_complete : Fields → Result (Unit {0})
assert_inspection_complete payload =
    let sections = get_or (as_array (get "sections" payload)) [] in
    throw_if (no_items sections)
      (validation_error "Add at least one inspection section before finalizing.")
    >> (check_sections sections
        >> throw_if
            (truthy (get "overallRatingOverride" payload)
              && is_blank (string_or_empty (get "overrideReason" payload)))
            (validation_error "An overall rating override requires a reason."))

-- The ratings that are there.
unfoldable pub keep_ratings : List (Option String) → List String
keep_ratings [] = []
keep_ratings (none ∷ rs) = keep_ratings rs
keep_ratings (some r ∷ rs) = r ∷ keep_ratings rs

-- `checkpointRatings`
unfoldable pub checkpoint_ratings : Fields → List String
unfolding keep_ratings
checkpoint_ratings section = keep_ratings (map rating_for_checkpoint (section_checkpoints section))

abbrev pub is_applicable : String → Bool
is_applicable r = not (includes r ("N/A" ∷ "NA" ∷ "NOT_APPLICABLE" ∷ []))

-- `worstRating`
unfoldable pub worst_rating : List String → String
worst_rating ratings =
    let applicable = filter is_applicable ratings in
    if no_items applicable
    then "N/A"
    else if includes "BAD" applicable
    then "BAD"
    else if includes "AVERAGE" applicable
    then "AVERAGE"
    else "GOOD"

-- `{ ...section, computedRating: worstRating(checkpointRatings(section)) }`
unfoldable pub rate_section : Json → Fields
unfolding worst_rating checkpoint_ratings
rate_section section =
    put "computedRating" (str (worst_rating (checkpoint_ratings (named_fields section))))
      (own_fields section)

-- `String(value)`
unfoldable pub shown : Option Json → String
shown none = "undefined"
shown (some v) = to_text v

-- `String(section.computedRating)`
unfoldable pub computed_rating : Fields → String
unfolding shown
computed_rating section = shown (get "computedRating" section)

-- `computedOverallRating`
unfoldable pub overall_rating : Fields → List Fields → String
overall_rating payload rated =
    if truthy (get "overallRatingOverride" payload)
    then to_upper (trim (string_or_empty (get "overallRatingOverride" payload)))
    else worst_rating (map computed_rating rated)

-- `snapshotInspectionPayload`; a `TypeError` where the sections are no array
unfoldable pub snapshot_inspection_payload : Fields → Result Fields
unfolding overall_rating rate_section
snapshot_inspection_payload payload = elim (as_array (get "sections" payload)) [
  | none ↦ err (plain_error "sections.map is not a function")
  | some sections ↦ normalize_inspection_conditions payload >>= (λ conditions. ok (
      put "computedOverallRating" (str (overall_rating payload (map rate_section sections))) (
        put "sections" (arr (from_list (map obj (map rate_section sections))))
          (spread_onto payload conditions))))
]
