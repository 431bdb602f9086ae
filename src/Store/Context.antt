-- ===== src/Store/Context.antt =====
-- What a write of the JSON store stands in: its environment, its context, the guards on a whole
-- collection (src/modules/collections/app-json-store.ts), and the activity entry
-- (src/services/activity-logger.service.ts).
use Prim.Native.String.{◌++◌ as append}
use my_detail_os_backend.Prelude.{
  ℕ, String, Bool, true, false, not, ◌&&◌, ◌||◌, List, [], ◌∷◌, Option, none, some, includes,
  is_some, is_empty, get_or, trim, to_lower, length, ltb, filter, ◌==◌, if◌then◌else◌,
}
use my_detail_os_backend.Errors.{Result, throw_if, forbidden_error, conflict_error}
use my_detail_os_backend.Json.{Json, Fields, show}
use my_detail_os_backend.Store.Rows.{Row, Table, upsert_row, owned}

-- What a call reads from outside: the environment variable BLOCK_PICKUP_DROP_WRITES, the clock, a
-- fresh id, the engine's date parser, and the text of an activity entry.
pub record Env : Type 0 where
  pub block_pickup_drop_writes : Option String
  pub now : ℕ
  pub uuid : String
  pub parse_date : String → Option ℕ
  pub activity_payload : (user action entity_type entity_id : String) → Json

-- `CollectionWriteContext`, without the job cards' flag
pub record WriteContext : Type 0 where
  pub organization_id : String
  pub user_id : Option String
  pub skip_generic_activity_log : Bool

-- `if (ctx?.userId)`: the user's id, unless it is empty
abbrev pub user_of : Option WriteContext → Option String
user_of none = none
user_of (some ctx) = elim ctx.user_id [ none ↦ none | some u ↦ if is_empty u then none else some u ]

unfoldable pub is_pickup_drop_write_blocked : Env → Bool
is_pickup_drop_write_blocked env =
    let raw = to_lower (trim (get_or env.block_pickup_drop_writes "")) in
    raw == "1" || raw == "true" || raw == "yes"

unfoldable pub assert_collection_write_allowed : Env → String → Result (Unit {0})
assert_collection_write_allowed env collection =
    throw_if (collection == "pickupDropRequests" && is_pickup_drop_write_blocked env)
      (forbidden_error "Pickup/Drop writes are temporarily blocked.")

abbrev pub financial_collections : List String
financial_collections =
    "productPurchases" ∷ "stockMovements" ∷ "expenses" ∷ "walletTransactions" ∷ "staffRewardLedger"
    ∷ []

unfoldable pub is_financial : String → Bool
is_financial collection = includes collection financial_collections

abbrev pub in_collection : String → String → Row → Bool
in_collection collection organization_id r = r.collection == collection && owned organization_id r

abbrev no_items {ℓ} : {A : Type ℓ} → List A → Bool
no_items [] = true
no_items (_ ∷ _) = false

unfoldable pub assert_non_empty_snapshot :
    String → List (String × Fields) → String → Table → Result (Unit {0})
assert_non_empty_snapshot collection items organization_id t =
    let existing = length (filter (in_collection collection organization_id) t) in
    throw_if (is_financial collection && no_items items && ltb 0 existing) (
      conflict_error (
        append "Cannot replace " (
          append collection (
            append " with an empty snapshot — " (
              append (show existing) (
                append " existing record(s) would be lost. "
                  "Delete records individually or send the full dataset."))))))

-- `logBusinessActivity`: nothing without a user and an organization. The id is new, so that the
-- upsert creates the row.
unfoldable pub log_business_activity : Env → WriteContext → String → String → String → Table → Table
log_business_activity env ctx action entity_type entity_id t = elim (user_of (some ctx)) [
  | none ↦ t
  | some u ↦
      if is_empty ctx.organization_id
      then t
      else upsert_row
          (record {
            collection = "activityLogs";
            entity_id = env.uuid;
            organization_id = ctx.organization_id;
            payload = env.activity_payload u action entity_type entity_id;
            created_at = env.now;
          })
          t
]

-- `if (ctx && ctx.userId && collection !== "activityLogs" && !ctx.skipGenericActivityLog)`
unfoldable pub log_write : Env → Option WriteContext → String → String → String → Table → Table
unfolding log_business_activity
log_write env none collection action entity_id t = t
log_write env (some ctx) collection action entity_id t =
    if is_some (user_of (some ctx))
      && not (collection == "activityLogs")
      && not ctx.skip_generic_activity_log
    then log_business_activity env ctx action collection entity_id t
    else t
