-- ===== src/CashBank.antt =====
-- The cash and bank singleton (src/modules/collections/cash-bank.service.ts): a save with an empty
-- list of accounts or transactions keeps the stored list.
use my_detail_os_backend.Prelude.{String, Bool, true, false, not, Option, none, some, if◌then◌else◌}
use my_detail_os_backend.Errors.{Result}
use my_detail_os_backend.Json.{
  Json, null, arr, nil, cons, obj, Fields, get, put, own_fields, named_fields, is_object,
}
use my_detail_os_backend.Access.Collections.{singleton_entity_id}
use my_detail_os_backend.Store.Rows.{Table}
use my_detail_os_backend.Store.{Env, get_collection_item, upsert_collection_item}
pub mod History

-- `hasItems`
unfoldable pub has_items : Option Json → Bool
has_items (some (arr (cons v vs))) = true
has_items _ = false

-- `value ?? []`
abbrev pub or_empty : Option Json → Json
or_empty none = arr nil
or_empty (some null) = arr nil
or_empty (some v) = v

-- `existing?.[key]`
abbrev pub field_of : String → Option Json → Option Json
field_of key none = none
field_of key (some v) = get key (named_fields v)

-- The incoming list, or the stored one if the incoming one has no items.
unfoldable pub preserved : String → Json → Option Json → Json
preserved key incoming existing =
    if has_items (field_of key (some incoming))
    then or_empty (field_of key (some incoming))
    else or_empty (field_of key existing)

-- `{ ...incoming, accounts, transactions }`
unfoldable pub merged : Json → Option Json → Fields
merged incoming existing =
    put "transactions" (preserved "transactions" incoming existing)
      (put "accounts" (preserved "accounts" incoming existing) (own_fields incoming))

abbrev pub cash_bank : String
cash_bank = "cashBank"

-- `getCashBank`
unfoldable pub get_cash_bank : String → Table → Option Json
get_cash_bank organization_id t =
    get_collection_item t cash_bank singleton_entity_id (some organization_id)

-- `upsertCashBank`
unfoldable pub upsert_cash_bank : Env → String → Json → Table → Result Table
upsert_cash_bank env organization_id payload t =
    if not (is_object payload)
    then upsert_collection_item env cash_bank singleton_entity_id payload organization_id none t
    else upsert_collection_item env cash_bank singleton_entity_id
        (obj (merged payload (get_cash_bank organization_id t))) organization_id none t
