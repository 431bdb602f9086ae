-- ===== src/JobCards.antt =====
-- The write of a job card, behind the guard of its prices
-- (src/modules/job-cards/job-cards.service.ts).
mod Pricing
pub mod Delta
pub mod Guarded
use my_detail_os_backend.Prelude.{
  String, Bool, true, false, not, ◌&&◌, ◌||◌, List, [], ◌∷◌, Option, none, some, any, is_empty,
  is_some, includes, ltb, ◌+◌, ◌==◌, Dict, lookup, insert, get_or, if◌then◌else◌,
}
use my_detail_os_backend.Prelude.Int.{ℤ, pos_part, neg_part, ◌-ℤ◌, eqb_ℤ}
use my_detail_os_backend.Errors.{Result, ok, ◌>>=◌, ◌>>◌, throw_if, forbidden_error}
use my_detail_os_backend.Json.{
  Json, null, bool, num, str, arr, obj, Fields, get, named_fields, to_list, is_object, as_text,
  truthy,
}
use my_detail_os_backend.Json.Print.{to_text}
use my_detail_os_backend.Store.Rows.{Table, Row, owned}
use my_detail_os_backend.Store.{
  Env, WriteContext, user_of, get_collection_item, upsert_collection_item, log_business_activity,
}
unfoldable pub use Pricing.*

-- `payload->>'jobCardId' = id`, for an id that is text
abbrev pub bills_job_card : String → Row → Bool
bills_job_card id r = is_text id (get "jobCardId" (named_fields r.payload))

-- `invoiceExistsForJobCard`
unfoldable pub invoice_exists_for_job_card : String → String → Table → Bool
invoice_exists_for_job_card organization_id job_card_id t =
    any (λ r. r.collection == "invoices" && owned organization_id r && bills_job_card job_card_id r)
      t

-- The id that the guard looks for an invoice with.
abbrev pub job_id : Fields → Fields → String
job_id prev next = get_or (as_text (get "id" next)) (get_or (as_text (get "id" prev)) "")

abbrev pub has_invoice_for : String → String → Table → Bool
has_invoice_for organization_id id t =
    if is_empty id then false else invoice_exists_for_job_card organization_id id t

decide : Decision → Result (Unit {0})
decide allowed = ok tt
decide (missing_permission m) = throw_if true (forbidden_error m)
decide (status_or_invoice_lock m) = throw_if true (forbidden_error m)

abbrev pub object_or_none : Option Json → Option Json
object_or_none none = none
object_or_none (some v) = if is_object v then some v else none

-- `assertJobCardPricingAllowed`
unfoldable pub assert_job_card_pricing_allowed :
    String → Option Json → Json → Bool → Table → Result (Unit {0})
unfolding decide
assert_job_card_pricing_allowed organization_id prev next has_pricing_permission t =
    elim (object_or_none prev) [
      | none ↦ ok tt
      | some p ↦
          if not (is_object next)
          then ok tt
          else decide (
              evaluate_job_card_pricing_write has_pricing_permission (named_fields p)
                (named_fields next)
                (has_invoice_for organization_id (job_id (named_fields p) (named_fields next)) t))
    ]

-- `===` on two values that were read apart: objects are never the same.
abbrev identical : Option Json → Option Json → Bool
identical none none = true
identical (some null) (some null) = true
identical (some (bool a)) (some (bool b)) = if a then b else not b
identical (some (num a)) (some (num b)) = eqb_ℤ a b
identical (some (str a)) (some (str b)) = a == b
identical _ _ = false

-- `JobCardWriteContext`
pub record JobCardWriteContext : Type 0 where
  pub write : WriteContext
  pub has_pricing_permission : Bool

-- `didChangeStatus`
unfoldable pub did_change_status : Option Json → Json → WriteContext → Bool
did_change_status prev payload ctx = elim (object_or_none prev) [
  | none ↦ false
  | some p ↦
      is_object payload
      && not (identical (get "status" (named_fields p)) (get "status" (named_fields payload)))
      && is_some (user_of (some ctx))
]

-- `upsertJobCard` behind the guard: the entry on a changed status, and the card. The entry is written
-- before the card, and stays if the write of the card then fails; such a failure is `err` here, and
-- its entry is left out.
unfoldable pub write_job_card :
    Env → String → Json → WriteContext → Option Json → Table → Result Table
write_job_card env entity_id payload ctx prev t =
    let changed = did_change_status prev payload ctx in
    let logged =
      if changed
      then log_business_activity env ctx "UPDATE_JOB_CARD_STATUS" "jobCards" entity_id t
      else t in
    let write_ctx = if changed then record ctx { skip_generic_activity_log = true } else ctx in
    upsert_collection_item env "jobCards" entity_id payload ctx.organization_id (some write_ctx)
      logged

-- `upsertJobCard`
unfoldable pub upsert_job_card : Env → String → Json → JobCardWriteContext → Table → Result Table
upsert_job_card env entity_id payload ctx t =
    let org = ctx.write.organization_id in
    let prev = get_collection_item t "jobCards" entity_id (some org) in
    do
      assert_job_card_pricing_allowed org prev payload ctx.has_pricing_permission t
      write_job_card env entity_id payload ctx.write prev t
