-- ===== src/Inspections/Conditions.antt =====
-- `inspectionConditionSchema` of src/modules/inspections/inspection-validation.ts: what the schema
-- accepts of the condition before the drive and of the pins on the vehicle, and what it gives.
use my_detail_os_backend.Prelude.{
  ℕ, ◌*◌, ◌%◌, String, Bool, true, false, not, ◌&&◌, ◌||◌, List, [], ◌∷◌, Option, none, some,
  includes, trim, utf16_length, length, map, leb, ltb, eqb, ◌==◌, if◌then◌else◌, get_or,
}
use my_detail_os_backend.Prelude.Int.{pos}
use my_detail_os_backend.Errors.{
  AppError, Result, ok, err, app_error, validation, throw_if, ◌>>=◌, ◌>>◌,
}
use my_detail_os_backend.Json.{
  Json, null, num, str, arr, obj, Fields, end, field, to_list, from_list, get,
}

-- A `ZodError`, as the error handler answers it.
abbrev pub schema_error : AppError
schema_error = app_error validation 400 "Validation failed"

-- What the schema gives; `none` for a field that is not there.
pub record Conditions : Type 0 where
  pub overall : Option Json
  pub pins : Option (List Json)

-- `z.enum([...]).nullable().optional()`
unfoldable pub parse_overall : Option Json → Result (Option Json)
parse_overall none = ok none
parse_overall (some null) = ok (some null)
parse_overall (some (str s)) =
    if includes s ("GOOD" ∷ "FAIR" ∷ "POOR" ∷ []) then ok (some (str s)) else err schema_error
parse_overall (some _) = err schema_error

-- `z.string().trim().min(1).max(limit)`
unfoldable pub parse_name : ℕ → Option Json → Result String
parse_name limit (some (str s)) =
    let units = utf16_length (trim s) in
    if leb 1 units && leb units limit then ok (trim s) else err schema_error
parse_name limit _ = err schema_error

-- `z.number().int().positive()`, a number of ten-thousandths
unfoldable pub parse_positive : Option Json → Result ℕ
parse_positive (some (num (pos n))) =
    if ltb 0 n && eqb (n % 10000) 0 then ok n else err schema_error
parse_positive _ = err schema_error

-- `z.number().min(0).max(100)`
unfoldable pub parse_percent : Option Json → Result ℕ
parse_percent (some (num (pos n))) = if leb n (100 * 10000) then ok n else err schema_error
parse_percent _ = err schema_error

unfoldable pub parse_pin_type : Option Json → Result String
parse_pin_type (some (str s)) =
    if includes s ("SCRATCH" ∷ "DENT" ∷ "CRACK" ∷ "PAINT_CHIP" ∷ "OTHER" ∷ [])
    then ok s
    else err schema_error
parse_pin_type _ = err schema_error

-- `z.string().max(4000).optional()`, as the fields that it gives
unfoldable pub parse_notes : Option Json → Result Fields
parse_notes none = ok end
parse_notes (some (str s)) =
    if leb (utf16_length s) 4000 then ok (field "notes" (str s) end) else err schema_error
parse_notes _ = err schema_error

-- A pin on the vehicle.
pub record Pin : Type 0 where
  pub id : String
  pub number : ℕ
  pub item : Json

unfoldable pub parse_pin : Json → Result Pin
unfolding parse_name parse_positive parse_percent parse_pin_type parse_notes
parse_pin (obj fs) = parse_name 120 (get "id" fs) >>= (λ id.
    parse_positive (get "number" fs) >>= (λ number. parse_pin_type (get "type" fs) >>= (λ kind.
      parse_percent (get "x" fs) >>= (λ x. parse_percent (get "y" fs) >>= (λ y.
        parse_name 200 (get "area" fs) >>= (λ area. parse_notes (get "notes" fs) >>= (λ notes.
          ok (record {
            id = id;
            number = number;
            item = obj (
                field "id" (str id) (
                  field "number" (num (pos number)) (
                    field "type" (str kind) (
                      field "x" (num (pos x))
                        (field "y" (num (pos y)) (field "area" (str area) notes))))));
          }))))))))
parse_pin _ = err schema_error

unfoldable pub parse_all_pins : List Json → Result (List Pin)
unfolding parse_pin
parse_all_pins [] = ok []
parse_all_pins (v ∷ vs) = parse_pin v >>= (λ pin. parse_all_pins vs >>= (λ pins. ok (pin ∷ pins)))

has_number : ℕ → List Pin → Bool
has_number n [] = false
has_number n (p ∷ ps) = eqb p.number n || has_number n ps

has_id : String → List Pin → Bool
has_id i [] = false
has_id i (p ∷ ps) = p.id == i || has_id i ps

-- `new Set(ids).size === pins.length`, and the same for the numbers
unfoldable pub pins_differ : List Pin → Bool
unfolding has_number has_id
pins_differ [] = true
pins_differ (p ∷ ps) = not (has_id p.id ps) && not (has_number p.number ps) && pins_differ ps

unfoldable pub parse_pins : Option Json → Result (Option (List Json))
unfolding parse_all_pins pins_differ
parse_pins none = ok none
parse_pins (some (arr vs)) =
    throw_if (ltb 200 (length (to_list vs))) schema_error
    >> (parse_all_pins (to_list vs) >>= (λ pins.
        throw_if (not (pins_differ pins)) schema_error
        >> ok (some (map (λ (p : Pin). p.item) pins))))
parse_pins (some _) = err schema_error

-- `inspectionConditionSchema.parse`
unfoldable pub parse_conditions : Fields → Result Conditions
unfolding parse_overall parse_pins
parse_conditions payload = parse_overall (get "overallPreDriveCondition" payload) >>= (λ overall.
    parse_pins (get "vehicleConditions" payload)
    >>= (λ pins. ok (record { overall = overall; pins = pins })))

-- `normalizeInspectionConditions`
unfoldable pub normalize_inspection_conditions : Fields → Result Fields
normalize_inspection_conditions payload = parse_conditions payload >>= (λ c. ok (
    field "overallPreDriveCondition" (get_or c.overall null)
      (field "vehicleConditions" (arr (from_list (get_or c.pins []))) end)))
