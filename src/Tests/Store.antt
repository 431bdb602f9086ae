-- ===== src/Tests/Store.antt =====
-- The JSON store and the cash and bank singleton at concrete tables
-- (src/modules/collections/app-json-store.ts, src/modules/collections/cash-bank.service.ts).
use my_detail_os_backend.Prelude.{
  String, false, List, [], ◌∷◌, none, some, ◌≡◌, ◌≢◌, refl, filter, map, to_upper, insert, to_lower,
  trim,
}
use my_detail_os_backend.Prelude.Int.{pos}
use my_detail_os_backend.Errors.{ok, err, conflict_error}
use my_detail_os_backend.Json.{
  Json, num, str, arr, obj, nil, cons, Fields, end, field, own_fields, get, put, show,
}
use my_detail_os_backend.Store.{
  Env, WriteContext, upsert_collection_item, delete_collection_item, get_collection_item,
  replace_collection_array, in_collection, track_user, snapshot_row, by_id,
  assert_collection_write_allowed, log_write, migrate_legacy, store_item, assert_non_empty_snapshot,
  clobbers, creator_of, is_financial, is_pickup_drop_write_blocked, log_business_activity,
  track_replaced, write_snapshot,
}
use my_detail_os_backend.Store.Rows.{
  Row, Table, foreign, find_row, upsert_row, create_many, delete_many, delete_row,
}
use my_detail_os_backend.Store.{is_pickup_drop_write_blocked}
use my_detail_os_backend.Prelude.{◌⊎◌}
use my_detail_os_backend.Store.Isolation.{
  upsert_keeps_foreign, delete_keeps_foreign, replace_keeps_foreign,
}
use my_detail_os_backend.Store.ReadBack.{get-upsert}
use my_detail_os_backend.Store.Snapshot.{replace-snapshot, financial_never_emptied}
use my_detail_os_backend.CashBank.{
  upsert_cash_bank, get_cash_bank, has_items, field_of, merged, preserved,
}
use my_detail_os_backend.CashBank.History.{IsFilled, filled, upsert_cash_bank_keeps}
use my_detail_os_backend.Access.Collections.{
  is_singleton_collection, is_array_collection, singleton_storage_entity_id,
}

abbrev env : Env
env = record {
  block_pickup_drop_writes = none;
  now = 1000;
  uuid = "log-1";
  parse_date = λ _. none;
  activity_payload = λ user action entity_type entity_id. obj (field "action" (str action) end);
}

abbrev ctx : WriteContext
ctx = record { organization_id = "o1"; user_id = some "u1"; skip_generic_activity_log = false }

abbrev row : String → String → String → Fields → Row
row collection id org fs = record {
  collection = collection;
  entity_id = id;
  organization_id = org;
  payload = obj fs;
  created_at = 7;
}

abbrev table : Table
table =
    row "expenses" "e1" "o1" (field "amount" (num (pos 50000)) end)
    ∷ row "expenses" "e2" "o2" (field "amount" (num (pos 70000)) end)
    ∷ []

abbrev edited : Json
edited = obj (field "amount" (num (pos 60000)) end)

-- The row of an activity entry.
abbrev entry : String → Row
entry action = record {
  collection = "activityLogs";
  entity_id = "log-1";
  organization_id = "o1";
  payload = obj (field "action" (str action) end);
  created_at = 1000;
}

abbrev other_row : Row
other_row = row "expenses" "e2" "o2" (field "amount" (num (pos 70000)) end)

abbrev edited_table : Table
edited_table =
    row "expenses" "e1" "o1"
      (field "amount" (num (pos 60000)) (field "updatedByUserId" (str "u1") end))
    ∷ other_row
    ∷ entry "UPDATE_EXPENSES"
    ∷ []

edits : upsert_collection_item env "expenses" "e1" edited "o1" (some ctx) table ≡ ok edited_table
unfolding assert_collection_write_allowed find_row get is_singleton_collection log_write
    migrate_legacy own_fields put store_item to_upper track_user upsert_collection_item upsert_row
edits = refl

upsert_keeps_foreign_example : foreign "o1" edited_table ≡ foreign "o1" table
unfolding find_row
upsert_keeps_foreign_example =
    upsert_keeps_foreign env "expenses" "e1" edited "o1" (some ctx) table refl refl edits

get-upsert_example :
    get_collection_item edited_table "expenses" "e1" (some "o1")
    ≡ some (obj (field "amount" (num (pos 60000)) (field "updatedByUserId" (str "u1") end)))
unfolding find_row get is_singleton_collection own_fields put track_user upsert_collection_item
get-upsert_example = get-upsert env "expenses" "e1" edited "o1" (some ctx) table refl edits

refuses_foreign :
    upsert_collection_item env "expenses" "e2" edited "o1" (some ctx) table
    ≡ err (conflict_error "Document id already exists in another organization")
unfolding assert_collection_write_allowed find_row is_singleton_collection upsert_collection_item
refuses_foreign = refl

delete_keeps_foreign_example :
    let (done, t') = delete_collection_item env "expenses" "e1" "o1" (some ctx) table in
    (foreign "o1" t' ≡ foreign "o1" table) × (done ≡ false → t' ≡ table)
unfolding find_row
delete_keeps_foreign_example =
    delete_keeps_foreign env "expenses" "e1" "o1" (some ctx) table refl refl

abbrev snapshot : List Json
snapshot = obj (field "id" (str " e3 ") end) ∷ obj (field "id" (str "") end) ∷ []

abbrev replaced_table : Table
replaced_table =
    other_row
    ∷ record {
      collection = "expenses";
      entity_id = "e3";
      organization_id = "o1";
      payload = obj (
          field "id" (str "e3")
            (field "createdByUserId" (str "u1") (field "updatedByUserId" (str "u1") end)));
      created_at = 1000;
    }
    ∷ entry "REPLACE_EXPENSES"
    ∷ []

replaces :
    replace_collection_array env "expenses" snapshot "o1" (some ctx) table ≡ ok replaced_table
unfolding assert_collection_write_allowed assert_non_empty_snapshot by_id clobbers create_many
    creator_of delete_many delete_row find_row get insert is_array_collection is_financial
    is_pickup_drop_write_blocked is_singleton_collection log_business_activity log_write
    migrate_legacy own_fields put replace_collection_array show singleton_storage_entity_id
    store_item to_lower to_upper track_replaced track_user trim upsert_collection_item upsert_row
    write_snapshot
replaces = refl

replace_keeps_foreign_example : foreign "o1" replaced_table ≡ foreign "o1" table
unfolding find_row
replace_keeps_foreign_example =
    replace_keeps_foreign env "expenses" snapshot "o1" (some ctx) table refl refl replaces

replace-snapshot_example :
    filter (in_collection "expenses" "o1") replaced_table
    ≡ map (snapshot_row env "expenses" "o1" (some ctx) table) (by_id snapshot [])
replace-snapshot_example = replace-snapshot env "expenses" snapshot "o1" (some ctx) table replaces

financial_never_emptied_example : filter (in_collection "expenses" "o1") replaced_table ≢ []
unfolding is_financial upsert_collection_item
financial_never_emptied_example =
    financial_never_emptied env "expenses" snapshot "o1" (some ctx) table refl (λ e. cc e) replaces

abbrev bank : Fields
bank = field "accounts" (arr (cons (str "cash") nil)) end

abbrev bank_table : Table
bank_table = row "cashBank" "o1::default" "o1" bank ∷ []

abbrev saved_table : Table
saved_table =
    row "cashBank" "o1::default" "o1" (
      field "note" (str "x")
        (field "accounts" (arr (cons (str "cash") nil)) (field "transactions" (arr nil) end)))
    ∷ []

abbrev bank_payload : Json
bank_payload = obj (field "note" (str "x") end)

saves : upsert_cash_bank env "o1" bank_payload bank_table ≡ ok saved_table
unfolding assert_collection_write_allowed delete_row find_row get get_cash_bank get_collection_item
    has_items is_pickup_drop_write_blocked is_singleton_collection log_business_activity log_write
    merged migrate_legacy own_fields preserved put show singleton_storage_entity_id store_item
    to_lower to_upper track_user trim upsert_cash_bank upsert_collection_item upsert_row
saves = refl

upsert_cash_bank_keeps_example :
    (IsFilled (field_of "accounts" (some bank_payload))
      × (field_of "accounts" (get_cash_bank "o1" saved_table)
          ≡ field_of "accounts" (some bank_payload)))
    ⊎ ((¬ IsFilled (field_of "accounts" (some bank_payload)))
        × (field_of "accounts" (get_cash_bank "o1" saved_table)
            ≡ field_of "accounts" (get_cash_bank "o1" bank_table)))
unfolding find_row get get_cash_bank get_collection_item is_singleton_collection
    singleton_storage_entity_id upsert_collection_item
upsert_cash_bank_keeps_example =
    upsert_cash_bank_keeps env "o1" bank_payload bank_table "accounts" refl refl refl saves
      (filled (str "cash") nil)
