-- ===== src/Tests/JobCards.antt =====
-- Writes of job cards at a concrete card (src/modules/job-cards/job-cards.service.ts).
use my_detail_os_backend.Prelude.{
  ◌+◌, ◌<◌, some, String, true, false, [], ◌∷◌, none, ◌≡◌, ◌⊎◌, refl, lookup, insert, to_lower,
  to_upper, trim,
}
use my_detail_os_backend.Prelude.Int.{ℤ, pos, pos_part, neg_part, ◌-ℤ◌}
use my_detail_os_backend.Errors.{ok, err, forbidden_error}
use my_detail_os_backend.Json.{
  str, num, arr, obj, nil, cons, Fields, end, field, get, own_fields, put, show,
}
use my_detail_os_backend.Store.{
  Env, assert_collection_write_allowed, get_collection_item, is_pickup_drop_write_blocked,
  log_business_activity, log_write, migrate_legacy, store_item, track_user, upsert_collection_item,
}
use my_detail_os_backend.Store.Rows.{Row, delete_row, find_row, upsert_row}
use my_detail_os_backend.JobCards.{
  job_card_has_pricing_delta, job_card_pricing_editable, num_eq, index_services,
  JobCardWriteContext, upsert_job_card, assert_job_card_pricing_allowed, did_change_status,
  evaluate_job_card_pricing_write, invoice_exists_for_job_card, line_differs, service_line_key,
  top_differs, write_job_card,
}
use my_detail_os_backend.JobCards.Guarded.{
  IsUnlocked, upsert_job_card_guarded, upsert_job_card_keeps_prices,
}
use my_detail_os_backend.Access.Collections.{is_singleton_collection, singleton_storage_entity_id}
use my_detail_os_backend.Json.Print.{number_text, to_text}

abbrev env : Env
env = record {
  block_pickup_drop_writes = none;
  now = 1000;
  uuid = "log-1";
  parse_date = λ _. none;
  activity_payload = λ user action entity_type entity_id. obj (field "action" (str action) end);
}

abbrev ctx : JobCardWriteContext
ctx = record {
  write = record { organization_id = "o1"; user_id = none; skip_generic_activity_log = false };
  has_pricing_permission = false;
}

abbrev line : Fields
line = field "id" (str "s1") (field "price" (num (pos 5000000)) end)

abbrev card : String → Fields
card status = field "status" (str status) (field "services" (arr (cons (obj line) nil)) end)

abbrev dearer : Fields
dearer =
    field "services"
      (arr (cons (obj (field "id" (str "s1") (field "price" (num (pos 9000000)) end))) nil)) end

abbrev row : Fields → Row
row fs = record {
  collection = "jobCards";
  entity_id = "j1";
  organization_id = "o1";
  payload = obj fs;
  created_at = 7;
}

saves_status :
    upsert_job_card env "j1" (obj (card "READY")) ctx (row (card "OPEN") ∷ [])
    ≡ ok (row (card "READY") ∷ [])
unfolding assert_collection_write_allowed assert_job_card_pricing_allowed delete_row
    did_change_status evaluate_job_card_pricing_write find_row get get_collection_item
    index_services insert invoice_exists_for_job_card is_pickup_drop_write_blocked
    is_singleton_collection job_card_has_pricing_delta job_card_pricing_editable line_differs
    log_business_activity log_write lookup migrate_legacy num_eq number_text own_fields put
    service_line_key show singleton_storage_entity_id store_item to_lower to_text to_upper
    top_differs track_user trim upsert_collection_item upsert_job_card upsert_row write_job_card
    ◌-ℤ◌
saves_status = refl

refuses_price :
    upsert_job_card env "j1" (obj dearer) ctx (row (card "OPEN") ∷ [])
    ≡ err (forbidden_error "Forbidden: Missing permission JOB_CARD_PRICING")
unfolding assert_collection_write_allowed assert_job_card_pricing_allowed delete_row
    did_change_status evaluate_job_card_pricing_write find_row get get_collection_item
    index_services insert invoice_exists_for_job_card is_pickup_drop_write_blocked
    is_singleton_collection job_card_has_pricing_delta job_card_pricing_editable line_differs
    log_business_activity log_write lookup migrate_legacy num_eq number_text own_fields put
    service_line_key show singleton_storage_entity_id store_item to_lower to_text to_upper
    top_differs track_user trim upsert_collection_item upsert_job_card upsert_row write_job_card
    ◌-ℤ◌
refuses_price = refl

-- The caller may set prices, and the card is open and without an invoice.
abbrev cashier : JobCardWriteContext
cashier = record ctx { has_pricing_permission = true }

saves_price :
    upsert_job_card env "j1" (obj dearer) cashier (row (card "OPEN") ∷ []) ≡ ok (row dearer ∷ [])
unfolding assert_collection_write_allowed assert_job_card_pricing_allowed delete_row
    did_change_status evaluate_job_card_pricing_write find_row get get_collection_item
    index_services insert invoice_exists_for_job_card is_pickup_drop_write_blocked
    is_singleton_collection job_card_has_pricing_delta job_card_pricing_editable line_differs
    log_business_activity log_write lookup migrate_legacy num_eq number_text own_fields put
    service_line_key show singleton_storage_entity_id store_item to_lower to_text to_upper
    top_differs track_user trim upsert_collection_item upsert_job_card upsert_row write_job_card
    ◌-ℤ◌
saves_price = refl

upsert_job_card_guarded_example :
    (job_card_has_pricing_delta (card "OPEN") dearer ≡ false)
    ⊎ ((true ≡ true) × IsUnlocked "o1" (card "OPEN") dearer (row (card "OPEN") ∷ []))
unfolding find_row get_collection_item is_singleton_collection
upsert_job_card_guarded_example =
    upsert_job_card_guarded env "j1" (obj (card "OPEN")) (obj dearer) cashier
      (row (card "OPEN") ∷ []) saves_price refl refl refl

upsert_job_card_keeps_prices_example :
    (price : ℤ) × (get "price" line ≡ some (num price))
    × (pos_part (pos 5000000 -ℤ price) + neg_part (pos 5000000 -ℤ price) < 10)
unfolding find_row get get_collection_item index_services insert is_singleton_collection lookup
    service_line_key to_text
upsert_job_card_keeps_prices_example =
    upsert_job_card_keeps_prices env "j1" (obj (card "OPEN")) (obj (card "READY")) ctx
      (row (card "OPEN") ∷ []) "text:s1" line line (pos 5000000) saves_status refl refl refl refl
      refl refl refl
