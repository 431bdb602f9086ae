-- ===== src/Inspections/Validation/Exact.antt =====
-- What `visit` of src/modules/inspections/inspection-validation.ts accepts, against a description
-- that keeps no count.
use my_detail_os_backend.Prelude.{
  ℕ, ◌+◌, ◌≤◌, String, Bool, true, false, not, ◌&&◌, ◌≡◌, ◌↔◌, refl, arith, ltb, leb, utf16_length,
  and_split,
}
use my_detail_os_backend.Errors.{
  Result, ok, err, absurd_err, ◌>>=◌, >>=-eq-ok, guard-eq-ok, validation_error,
}
use my_detail_os_backend.Json.{
  Json, null, bool, num, str, arr, obj, Items, nil, cons, Fields, end, field,
}
use my_detail_os_backend.Inspections.Validation.{
  visit, visit_items, visit_fields, check_field, is_bad_rating, is_bad_odometer, checkpoints_in,
  max_checkpoints, max_string_length, max_report_bytes, validate_inspection_payload,
}
use my_detail_os_backend.Inspections.Conditions.{Conditions, parse_conditions}

-- How many checkpoints a value lists, at any depth.
unfoldable mutual
  pub checkpoints : Json → ℕ
  checkpoints (arr vs) = checkpoints_items vs
  checkpoints (obj fs) = checkpoints_fields fs
  checkpoints _ = 0

  pub checkpoints_items : Items → ℕ
  checkpoints_items nil = 0
  checkpoints_items (cons v vs) = checkpoints v + checkpoints_items vs

  pub checkpoints_fields : Fields → ℕ
  checkpoints_fields end = 0
  checkpoints_fields (field key child fs) =
      checkpoints_in key child + (checkpoints child + checkpoints_fields fs)

-- Every text is short, every rating is known, and every odometer reading is whole, at any depth.
unfoldable mutual
  pub is_clean : Json → Bool
  is_clean (str s) = leb (utf16_length s) max_string_length
  is_clean (arr vs) = is_clean_items vs
  is_clean (obj fs) = is_clean_fields fs
  is_clean _ = true

  pub is_clean_items : Items → Bool
  is_clean_items nil = true
  is_clean_items (cons v vs) = is_clean v && is_clean_items vs

  pub is_clean_fields : Fields → Bool
  is_clean_fields end = true
  is_clean_fields (field key child fs) =
      not (is_bad_rating key child)
      && not (is_bad_odometer key child)
      && (is_clean child && is_clean_fields fs)

-- The answer that the description gives.
abbrev Answers : Bool → ℕ → ℕ → Result ℕ → Type 0
Answers clean added count answer =
    (next : ℕ)
    → count ≤ max_checkpoints
    → (answer ≡ ok next)
      ↔ ((clean ≡ true) × (next ≡ count + added) × (count + added ≤ max_checkpoints))

check_field_lem :
    (key : String) (child : Json) (count : ℕ)
    → Answers
        (not (is_bad_rating key child) && not (is_bad_odometer key child))
        (checkpoints_in key child)
        count
        (check_field key child count)
unfolding check_field checkpoints_in
check_field_lem key child count next h = ground arith

-- Two loops behind each other answer as the two descriptions together do.
>>=-Answers :
    (clean clean' : Bool) (added added' count : ℕ) (first : Result ℕ) (second : ℕ → Result ℕ)
    → Answers clean added count first
    → ((middle : ℕ) → Answers clean' added' middle (second middle))
    → Answers (clean && clean') (added + added') count (first >>= second)
>>=-Answers clean clean' added added' count (err e) second h k next bound =
    let none_left = h (count + added) bound in
    (
      λ p. absurd_err p,
      λ (c, e, b). absurd_err (none_left.1 ((and_split _ _ c).0, refl, omega arith)),
    )
>>=-Answers clean clean' added added' count (ok middle) second h k next bound =
    let (c, e, b) = (h middle bound).0 refl in
    let rest = k middle next (omega arith) in
    (
      λ p. let (c', e', b') = rest.0 p in (rw (c, c') refl, omega arith, omega arith),
      λ (both, e', b'). rest.1 ((and_split _ _ both).1, omega arith, omega arith),
    )

ok-Answers : (count : ℕ) → Answers true 0 count (ok count)
ok-Answers count next bound = ground arith

mutual
  unfolding visit visit_items visit_fields is_clean is_clean_items is_clean_fields checkpoints
      checkpoints_items checkpoints_fields

  visit_lem : (v : Json) (count : ℕ) → Answers (is_clean v) (checkpoints v) count (visit v count)
  visit_lem null count = ok-Answers count
  visit_lem (bool b) count = ok-Answers count
  visit_lem (num n) count = ok-Answers count
  visit_lem (str s) count = λ next bound. ground arith
  visit_lem (arr vs) count = visit_items_lem vs count
  visit_lem (obj fs) count = visit_fields_lem fs count

  visit_items_lem :
      (vs : Items) (count : ℕ)
      → Answers (is_clean_items vs) (checkpoints_items vs) count (visit_items vs count)
  visit_items_lem nil count = ok-Answers count
  visit_items_lem (cons v vs) count =
      >>=-Answers (is_clean v) (is_clean_items vs) (checkpoints v) (checkpoints_items vs) count
        (visit v count) (λ next. visit_items vs next) (visit_lem v count) (visit_items_lem vs)

  visit_fields_lem :
      (fs : Fields) (count : ℕ)
      → Answers (is_clean_fields fs) (checkpoints_fields fs) count (visit_fields fs count)
  visit_fields_lem end count = ok-Answers count
  visit_fields_lem (field key child fs) count =
      >>=-Answers (not (is_bad_rating key child) && not (is_bad_odometer key child))
        (is_clean child && is_clean_fields fs) (checkpoints_in key child)
        (checkpoints child + checkpoints_fields fs) count (check_field key child count)
        (λ next. visit child next >>= (λ last. visit_fields fs last))
        (check_field_lem key child count)
        (λ next.
          >>=-Answers (is_clean child) (is_clean_fields fs) (checkpoints child)
            (checkpoints_fields fs) next (visit child next) (λ last. visit_fields fs last)
            (visit_lem child next) (visit_fields_lem fs))

-- A payload is accepted exactly when its conditions fit the schema, it has at most 1 MB, all its
-- texts, ratings and odometer readings are right at every depth, and it lists at most 500
-- checkpoints in all.
pub validate_inspection_payload_iff :
    (json_bytes : Json → ℕ) (payload : Fields)
    → (validate_inspection_payload json_bytes payload ≡ ok tt) ↔ (
        ((c : Conditions) × (parse_conditions payload ≡ ok c))
        × (json_bytes (obj payload) ≤ max_report_bytes)
        × (is_clean (obj payload) ≡ true)
        × (checkpoints (obj payload) ≤ max_checkpoints))
unfolding validate_inspection_payload
validate_inspection_payload_iff json_bytes payload =
    let exact = visit_lem (obj payload) 0 in
    (
      λ h.
          (let (c, parsed, rest) = >>=-eq-ok (parse_conditions payload) _ h in
            let (small, visited) =
              guard-eq-ok (ltb max_report_bytes (json_bytes (obj payload)))
                (validation_error "Inspection report exceeds the 1 MB limit.") _ rest in
            let (next, done, last) = >>=-eq-ok (visit (obj payload) 0) (λ count. ok tt) visited in
            let (clean, sum, bound) = (exact next (omega arith)).0 done in
            ((c, parsed), ground arith, clean, omega arith)),
      λ ((c, parsed), small, clean, bound).
          (let done =
              (exact (checkpoints (obj payload)) (omega arith)).1
                (clean, omega arith, omega arith) in
            let fits : ltb max_report_bytes (json_bytes (obj payload)) ≡ false = ground arith in
            rw (parsed, fits, done) refl),
    )
