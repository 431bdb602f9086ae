-- ===== src/Inspections/Validation.antt =====
-- `validateInspectionPayload` of src/modules/inspections/inspection-validation.ts. The size of the
-- serialized payload in bytes is a parameter.
pub mod Exact
use my_detail_os_backend.Prelude.{
  ℕ, ◌+◌, ◌*◌, ◌%◌, String, Bool, true, false, not, ◌&&◌, ◌||◌, List, [], ◌∷◌, includes, trim,
  to_upper, to_lower, contains, utf16_length, length, ltb, eqb, if◌then◌else◌,
}
use my_detail_os_backend.Prelude.Int.{ℤ, pos}
use my_detail_os_backend.Errors.{Result, ok, err, validation_error, throw_if, ◌>>=◌, ◌>>◌}
use my_detail_os_backend.Json.{
  Json, null, num, str, arr, obj, Items, nil, cons, Fields, end, field, to_list,
}
use my_detail_os_backend.Inspections.Conditions.{parse_conditions}

abbrev pub rating_values : List String
rating_values = "GOOD" ∷ "AVERAGE" ∷ "BAD" ∷ "N/A" ∷ "NA" ∷ "NOT_APPLICABLE" ∷ "NOT_CHECKED" ∷ []

abbrev pub max_report_bytes : ℕ
max_report_bytes = 1024 * 1024

abbrev pub max_checkpoints : ℕ
max_checkpoints = 500

abbrev pub max_string_length : ℕ
max_string_length = 4000

abbrev rating_keys : List String
rating_keys = "rating" ∷ "conditionRating" ∷ "severity" ∷ "overallRatingOverride" ∷ []

-- A field that rates, with a text that is no rating.
unfoldable pub is_bad_rating : String → Json → Bool
is_bad_rating key (str s) =
    includes key rating_keys && not (includes (to_upper (trim s)) rating_values)
is_bad_rating key _ = false

-- An odometer field that is neither `null` nor a whole number from zero.
unfoldable pub is_bad_odometer : String → Json → Bool
is_bad_odometer key null = false
is_bad_odometer key (num (pos n)) = contains "odometer" (to_lower key) && not (eqb (n % 10000) 0)
is_bad_odometer key _ = contains "odometer" (to_lower key)

-- A field that lists checkpoints.
unfoldable pub lists_checkpoints : String → Json → Bool
lists_checkpoints key (arr vs) = includes key ("checkpoints" ∷ "items" ∷ [])
lists_checkpoints key _ = false

abbrev pub array_length : Json → ℕ
array_length (arr vs) = length (to_list vs)
array_length _ = 0

-- How many checkpoints a field adds.
unfoldable pub checkpoints_in : String → Json → ℕ
checkpoints_in key child = if lists_checkpoints key child then array_length child else 0

-- What the loop of `visit` does with a field before it visits the value: the count behind it.
unfoldable pub check_field : String → Json → ℕ → Result ℕ
check_field key child count =
    throw_if (is_bad_rating key child) (validation_error "Invalid inspection rating")
    >> (throw_if (is_bad_odometer key child)
          (validation_error "Odometer readings must be non-negative whole numbers.")
        >> (throw_if
              (lists_checkpoints key child && ltb max_checkpoints (count + array_length child))
              (validation_error "Inspection reports may contain at most 500 checkpoints.")
            >> ok (count + checkpoints_in key child)))

-- `visit`, with `checkpointCount` before and behind it
unfoldable mutual
  pub visit : Json → ℕ → Result ℕ
  visit (str s) count =
      throw_if (ltb max_string_length (utf16_length s))
        (validation_error "Inspection text fields must be 4,000 characters or fewer.")
      >> ok count
  visit (arr vs) count = visit_items vs count
  visit (obj fs) count = visit_fields fs count
  visit _ count = ok count

  pub visit_items : Items → ℕ → Result ℕ
  visit_items nil count = ok count
  visit_items (cons v vs) count = visit v count >>= (λ next. visit_items vs next)

  pub visit_fields : Fields → ℕ → Result ℕ
  visit_fields end count = ok count
  visit_fields (field key child fs) count =
      check_field key child count >>= (λ next. visit child next >>= (λ last. visit_fields fs last))

unfoldable pub validate_inspection_payload : (Json → ℕ) → Fields → Result (Unit {0})
validate_inspection_payload json_bytes payload = parse_conditions payload >>= (λ conditions.
    throw_if (ltb max_report_bytes (json_bytes (obj payload)))
      (validation_error "Inspection report exceeds the 1 MB limit.")
    >> (visit (obj payload) 0 >>= (λ count. ok tt)))
