-- ===== src/JobCards/Pricing.antt =====
-- The guard of a job card's prices (src/lib/job-card-pricing-guard.ts). `estimatedAmount` and
-- `incentiveAmount` are derived, and not guarded.
use my_detail_os_backend.Prelude.{
  String, Bool, false, not, ◌&&◌, ◌||◌, List, [], ◌∷◌, Option, none, some, any, is_some, ltb, ◌+◌,
  ◌==◌, Dict, lookup, insert, if◌then◌else◌,
}
use my_detail_os_backend.Prelude.Int.{ℤ, pos_part, neg_part, ◌-ℤ◌}
use my_detail_os_backend.Json.{
  Json, null, bool, num, str, arr, Fields, get, named_fields, to_list, as_text, truthy,
}
use my_detail_os_backend.Json.Print.{to_text}
use Prim.Native.String.{◌++◌ as append}

abbrev as_number : Option Json → Option ℤ
as_number (some (num n)) = some n
as_number _ = none

-- `numEq`: two numbers less than 0.001 apart, or none on either side
unfoldable pub num_eq : Option Json → Option Json → Bool
num_eq a b = elim (as_number a) [
  | none ↦ not (is_some (as_number b))
  | some m ↦ elim (as_number b) [
    | none ↦ false
    | some n ↦ ltb (pos_part (m -ℤ n) + neg_part (m -ℤ n)) 10
  ]
]

-- `String(value ?? "")`
abbrev pub text_or_empty : Option Json → String
text_or_empty none = ""
text_or_empty (some null) = ""
text_or_empty (some v) = to_text v

-- `value === "..."` for a text
abbrev pub is_text : String → Option Json → Bool
is_text s v = elim (as_text v) [ none ↦ false | some x ↦ x == s ]

abbrev pub is_true : Option Json → Bool
is_true (some (bool b)) = b
is_true _ = false

abbrev pub top_keys : List String
top_keys =
    "highEndAdvanceAmountInr" ∷ "highEndAdvanceHintPercent" ∷ "waiveHighEndAdvance"
    ∷ "highEndAdvanceCollectedAt" ∷ "highEndAdvanceMethod" ∷ "highEndAdvanceReference" ∷ []

unfoldable pub same_flag : Option Json → Option Json → Bool
same_flag a b = if truthy a then truthy b else not (truthy b)

-- One round of the loop over the top keys: the field differs.
unfoldable pub top_differs : Fields → Fields → String → Bool
unfolding same_flag
top_differs prev next key =
    if key == "waiveHighEndAdvance"
    then not (same_flag (get key prev) (get key next))
    else if key == "highEndAdvanceMethod"
        || key == "highEndAdvanceReference"
        || key == "highEndAdvanceCollectedAt"
    then not (text_or_empty (get key prev) == text_or_empty (get key next))
    else not (num_eq (get key prev) (get key next))

-- A key of the maps of lines. A text and a number or a flag that prints like it are different keys, as
-- they are for `Map`; an object or array, which the type of a line excludes, is known by its text.
abbrev pub line_key : Option Json → String
line_key none = "text:"
line_key (some (str s)) = append "text:" s
line_key (some v) = append "other:" (to_text v)

-- `serviceLineKey`: the id, or the catalog id, where neither missing nor empty
unfoldable pub service_line_key : Fields → String
service_line_key s =
    if truthy (get "id" s)
    then line_key (get "id" s)
    else if truthy (get "serviceCatalogId" s)
    then line_key (get "serviceCatalogId" s)
    else "text:"

-- `services ?? []`, for a card whose services are a list, as its type says
abbrev pub as_services : Option Json → List Json
as_services (some (arr vs)) = to_list vs
as_services _ = []

abbrev pub services_of : Fields → List Json
services_of card = as_services (get "services" card)

-- `new Map(services.map((s) => [serviceLineKey(s), s]))`, onto the entries so far
unfoldable pub index_services : List Json → Dict Fields → Dict Fields
index_services [] seen = seen
index_services (s ∷ ss) seen =
    index_services ss (insert (service_line_key (named_fields s)) (named_fields s) seen)

-- One round of the loop over the new lines: a custom line that is new, or a line whose price, custom
-- flag or custom source differs from the line that it replaces.
unfoldable pub line_differs : Option Fields → Fields → Bool
unfolding same_flag
line_differs none n = is_true (get "isCustomPrice" n) || is_text "CUSTOM" (get "priceSource" n)
line_differs (some p) n =
    not (num_eq (get "price" p) (get "price" n))
    || not (same_flag (get "isCustomPrice" p) (get "isCustomPrice" n))
    || (not (text_or_empty (get "priceSource" p) == text_or_empty (get "priceSource" n))
        && (is_text "CUSTOM" (get "priceSource" n)
            || is_text "CUSTOM" (get "priceSource" p)
            || truthy (get "isCustomPrice" n)
            || truthy (get "isCustomPrice" p)))

-- `jobCardHasPricingDelta`
unfoldable pub job_card_has_pricing_delta : Fields → Fields → Bool
job_card_has_pricing_delta prev next =
    let prev_by_key = index_services (services_of prev) [] in
    let next_by_key = index_services (services_of next) [] in
    any (top_differs prev next) top_keys
    || any (λ e. line_differs (lookup e.0 prev_by_key) e.1) next_by_key

-- `jobCardPricingEditable`
unfoldable pub job_card_pricing_editable : Option Json → Bool → Bool
job_card_pricing_editable status has_invoice =
    if is_text "DELIVERED" status || is_text "CANCELLED" status then false else not has_invoice

-- `JobCardPricingWriteDecision`, the reasons with their messages
pub data Decision : Type 0 where
  allowed : Decision
  missing_permission : String → Decision
  status_or_invoice_lock : String → Decision

-- `evaluateJobCardPricingWrite`
unfoldable pub evaluate_job_card_pricing_write : Bool → Fields → Fields → Bool → Decision
evaluate_job_card_pricing_write has_pricing_permission prev next has_invoice =
    if not (job_card_has_pricing_delta prev next)
    then allowed
    else if not has_pricing_permission
    then missing_permission "Forbidden: Missing permission JOB_CARD_PRICING"
    else if not (job_card_pricing_editable (get "status" prev) has_invoice)
    then status_or_invoice_lock (
        if has_invoice
        then "Job card pricing is locked because an invoice already exists"
        else "Job card pricing is locked for this status")
    else allowed
