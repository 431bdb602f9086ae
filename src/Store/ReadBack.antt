-- ===== src/Store/ReadBack.antt =====
-- What is read after a write (src/modules/collections/app-json-store.ts).
use my_detail_os_backend.Prelude.{
  String, false, ◌&&◌, not, Option, none, some, ◌≡◌, refl, ap, ◌∙◌, inl, inr, arith, Bool-cases,
  Option-cases, is_empty, is_some, eq_iff, ◌==◌,
}
use mathlib.Core.Path.{subst}
use my_detail_os_backend.Errors.{ok}
use my_detail_os_backend.Json.{Json, obj, own_fields}
use my_detail_os_backend.Access.Collections.{is_singleton_collection, singleton_entity_id}
use my_detail_os_backend.Store.Rows.{
  Row, Table, find_row, upsert_row, find_row-upsert_row, find_row-upsert_self,
}
use my_detail_os_backend.Store.{
  Env, WriteContext, user_of, log_business_activity, log_write, get_collection_item, track_user,
  row_to_store, migrate_legacy, store_item, upsert_collection_item, upsert-eq-ok, storage_id,
}

find_row-log_activity :
    (env : Env) (ctx : WriteContext) (action collection id e : String) (t : Table)
    → (collection == "activityLogs") ≡ false
    → find_row collection e (log_business_activity env ctx action collection id t)
      ≡ find_row collection e t
unfolding log_business_activity
find_row-log_activity env ctx action collection id e t other =
    let off : ("activityLogs" == collection) ≡ false =
      ground (arith, eq_iff "activityLogs" collection, eq_iff collection "activityLogs") in
    elim (Option-cases (user_of (some ctx))) [
      | inl u ↦ rw (u, log_business_activity)
      | inr (name, u) ↦ elim (Bool-cases (is_empty ctx.organization_id)) [
        | inl b ↦ rw (u, b, log_business_activity)
        | inr b ↦ rw (u, b, log_business_activity) (find_row-upsert_row _ collection e t (rw off))
      ]
    ]

find_row-log_write :
    (env : Env) (ctx : Option WriteContext) (collection action id e : String) (t : Table)
    → find_row collection e (log_write env ctx collection action id t) ≡ find_row collection e t
unfolding log_write
find_row-log_write env none collection action id e t = refl
find_row-log_write env (some ctx) collection action id e t =
    elim (Bool-cases (
      is_some (user_of (some ctx))
      && not (collection == "activityLogs")
      && not ctx.skip_generic_activity_log)) [
        | inl g ↦ rw g (find_row-log_activity env ctx action collection id e t (ground arith))
        | inr g ↦ rw g
      ]

get-stored :
    (collection entity_id org : String) (t : Table) (r : Row)
    → is_empty org ≡ false
    → find_row collection (storage_id collection entity_id org) t ≡ some r
    → r.organization_id ≡ org
    → get_collection_item t collection entity_id (some org) ≡ some r.payload
unfolding get_collection_item
get-stored collection entity_id org t r full found own =
    elim (Bool-cases (is_singleton_collection collection && entity_id == singleton_entity_id)) [
      | inl e ↦ ground (arith, e, found, eq_iff r.organization_id org)
      | inr e ↦ ground (arith, e, found, eq_iff r.organization_id org)
    ]

-- A document that an organization with a non-empty id has upserted with success is what it reads
-- next under the same id: the payload's fields with the tracking of its creator and its last
-- writer. This holds of singletons and of array collections, with or without an activity entry.
pub get-upsert :
    (env : Env) (collection entity_id : String) (payload : Json) (org : String)
    (ctx : Option WriteContext) (t : Table) {t' : Table}
    → is_empty org ≡ false
    → upsert_collection_item env collection entity_id payload org ctx t ≡ ok t'
    → get_collection_item t' collection entity_id (some org)
      ≡ some (
          obj (
            track_user
              (user_of ctx)
              (find_row collection (storage_id collection entity_id org) t)
              (own_fields payload)))
unfolding store_item
get-upsert env collection entity_id payload org ctx t full e =
    let sid = storage_id collection entity_id org in
    let existing = find_row collection sid t in
    let row = row_to_store env collection entity_id payload org ctx existing in
    let migrated = migrate_legacy collection entity_id org existing t in
    let (mine, stored) = upsert-eq-ok env collection entity_id payload org ctx t e in
    let (r, found, same, own) = find_row-upsert_self row migrated in
    subst (λ x. get_collection_item x collection entity_id (some org) ≡ some row.payload) stored
      (get-stored collection entity_id org _ r full
          (find_row-log_write env ctx collection _ _ sid (upsert_row row migrated) ∙ found) own
        ∙ ap some same)
