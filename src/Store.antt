-- ===== src/Store.antt =====
-- The JSON store (src/modules/collections/app-json-store.ts): get, upsert, delete and replace of
-- documents, with the rows of every organization in one table.
mod Context
pub mod Rows
pub mod Isolation
pub mod ReadBack
pub mod Snapshot
use Prim.Native.String.{◌++◌ as append}
use my_detail_os_backend.Prelude.{
  ℕ, String, Bool, true, false, not, ◌&&◌, ◌||◌, List, [], ◌∷◌, map, Option, none, some, includes,
  any, ◌≡◌, arith, is_some, is_empty, get_or, trim, to_lower, to_upper, length, ltb, filter, ◌==◌,
  if◌then◌else◌, Dict, insert, lookup,
}
use my_detail_os_backend.Errors.{
  Result, ok, err, ◌>>=◌, ◌>>◌, throw_if, forbidden_error, conflict_error, plain_error,
}
use my_detail_os_backend.Json.{
  Json, str, obj, Fields, get, put, own_fields, named_fields, is_object, as_text, truthy, show,
}
use my_detail_os_backend.Access.Collections.{
  is_array_collection, is_singleton_collection, singleton_entity_id, singleton_storage_entity_id,
}
use my_detail_os_backend.Store.Rows.{
  Row, Table, find_row, delete_row, upsert_row, delete_many, create_many, owned,
}
unfoldable pub use Context.*

-- The payload of a row, if the row belongs to the organization.
abbrev pub payload_in : String → Option Row → Option Json
payload_in organization_id none = none
payload_in organization_id (some r) = if owned organization_id r then some r.payload else none

abbrev payload_of : Option Row → Option Json
payload_of none = none
payload_of (some r) = some r.payload

-- `getCollectionItem`; an organization that is left out, or empty, does not restrict.
unfoldable pub get_collection_item : Table → String → String → Option String → Option Json
get_collection_item t collection entity_id organization_id =
    let org = get_or organization_id "" in
    if is_singleton_collection collection && entity_id == singleton_entity_id && not (is_empty org)
    then elim (payload_in org (find_row collection (singleton_storage_entity_id org) t)) [
      | some p ↦ some p
      | none ↦ payload_in org (find_row collection singleton_entity_id t)
    ]
    else if is_empty org
    then payload_of (find_row collection entity_id t)
    else payload_in org (find_row collection entity_id t)

-- The entity id under which a document is stored.
abbrev pub storage_id : String → String → String → String
storage_id collection entity_id organization_id =
    if is_singleton_collection collection && entity_id == singleton_entity_id
    then singleton_storage_entity_id organization_id
    else entity_id

-- The user tracking of an upsert: who created the document, and who wrote it last.
unfoldable pub track_user : Option String → Option Row → Fields → Fields
track_user none existing fs = fs
track_user (some u) none fs = put "updatedByUserId" (str u) (put "createdByUserId" (str u) fs)
track_user (some u) (some r) fs =
    let creator = get "createdByUserId" (named_fields r.payload) in
    put "updatedByUserId" (str u)
      (if truthy creator then put "createdByUserId" (get_or creator Json.null) fs else fs)

-- The creation time of a new row: the payload's, if it is a date, and else the clock's.
abbrev created_at_of : Env → Fields → ℕ
created_at_of env fs = elim (as_text (get "createdAt" fs)) [
  | none ↦ env.now
  | some raw ↦ if is_empty raw then env.now else get_or (env.parse_date raw) env.now
]

-- The row that an upsert stores.
abbrev pub row_to_store :
    Env → String → String → Json → String → Option WriteContext → Option Row → Row
row_to_store env collection entity_id payload organization_id ctx existing =
    let fs = track_user (user_of ctx) existing (own_fields payload) in
    record {
      collection = collection;
      entity_id = storage_id collection entity_id organization_id;
      organization_id = organization_id;
      payload = obj fs;
      created_at = created_at_of env fs;
    }

-- A legacy "default" row of this organization goes, on the first write under the scoped id.
unfoldable pub migrate_legacy : String → String → String → Option Row → Table → Table
migrate_legacy collection entity_id organization_id existing t =
    if is_singleton_collection collection
      && entity_id == singleton_entity_id
      && not (is_some existing)
    then elim (payload_in organization_id (find_row collection singleton_entity_id t)) [
      | none ↦ t
      | some _ ↦ delete_row collection singleton_entity_id t
    ]
    else t

abbrev pub is_foreign : String → Option Row → Bool
is_foreign organization_id none = false
is_foreign organization_id (some r) = not (owned organization_id r)

-- What an upsert that is allowed does: migrate, store, log.
unfoldable pub store_item :
    Env → String → String → Json → String → Option WriteContext → Table → Table
store_item env collection entity_id payload organization_id ctx t =
    let existing = find_row collection (storage_id collection entity_id organization_id) t in
    log_write env ctx collection
      (append (if is_some existing then "UPDATE_" else "CREATE_") (to_upper collection))
      (if is_singleton_collection collection then singleton_entity_id else entity_id)
      (upsert_row (row_to_store env collection entity_id payload organization_id ctx existing)
        (migrate_legacy collection entity_id organization_id existing t))

-- `upsertCollectionItem`, as one atomic step: the source checks who owns the row before the
-- transaction that writes it.
unfoldable pub upsert_collection_item :
    Env → String → String → Json → String → Option WriteContext → Table → Result Table
upsert_collection_item env collection entity_id payload organization_id ctx t = do
  assert_collection_write_allowed env collection
  throw_if
      (is_foreign organization_id
        (find_row collection (storage_id collection entity_id organization_id) t))
      (conflict_error "Document id already exists in another organization")
  ok (store_item env collection entity_id payload organization_id ctx t)

pub upsert-eq-ok :
    (env : Env) (collection entity_id : String) (payload : Json) (org : String)
    (ctx : Option WriteContext) (t : Table) {t' : Table}
    → upsert_collection_item env collection entity_id payload org ctx t ≡ ok t'
    → (is_foreign org (find_row collection (storage_id collection entity_id org) t) ≡ false)
      × (store_item env collection entity_id payload org ctx t ≡ t')
unfolding upsert_collection_item
upsert-eq-ok env collection entity_id payload org ctx t h = ground arith

unfoldable pub delete_collection_item :
    Env → String → String → String → Option WriteContext → Table → Bool × Table
delete_collection_item env collection entity_id organization_id ctx t =
    elim (find_row collection entity_id t) [
      | none ↦ (false, t)
      | some r ↦ if not (owned organization_id r) then (false, t) else (
        true,
        log_write env ctx collection (append "DELETE_" (to_upper collection)) entity_id
            (delete_row collection entity_id t),
      )
    ]

-- The loop that builds `byId`: trimmed ids that are not empty, the last item of an id in the
-- place of the first.
unfoldable pub by_id : List Json → Dict Fields → Dict Fields
by_id [] seen = seen
by_id (item ∷ items) seen = by_id items (elim (as_text (get "id" (named_fields item))) [
  | none ↦ seen
  | some raw ↦
      if is_empty (trim raw)
      then seen
      else insert (trim raw) (put "id" (str (trim raw)) (own_fields item)) seen
])

-- `createdByMap`, over the rows of the collection that the transaction reads
unfoldable pub creator_of : String → String → Table → String → Option String
creator_of collection organization_id [] id = none
creator_of collection organization_id (r ∷ t) id =
    let later = creator_of collection organization_id t id in
    elim later [
      | some u ↦ some u
      | none ↦
          if in_collection collection organization_id r && r.entity_id == id
          then as_text (get "createdByUserId" (named_fields r.payload))
          else none
    ]

-- Who is to stand as the creator of a replaced document.
unfoldable pub track_replaced : Option String → Option String → Fields → Fields
track_replaced user creator fs = elim user [
  | some u ↦
      let by = get_or creator "" in
      put "updatedByUserId" (str u) (put "createdByUserId" (str (if is_empty by then u else by)) fs)
  | none ↦
      let by = get_or creator "" in if is_empty by then fs else put "createdByUserId" (str by) fs
]

abbrev pub snapshot_row :
    Env → String → String → Option WriteContext → Table → String × Fields → Row
snapshot_row env collection organization_id ctx t (id, item) =
    let fs = track_replaced (user_of ctx) (creator_of collection organization_id t id) item in
    record {
      collection = collection;
      entity_id = id;
      organization_id = organization_id;
      payload = obj fs;
      created_at = created_at_of env fs;
    }

-- `prisma.appJsonRow.findMany` for an id of the snapshot in another organization
unfoldable pub clobbers : String → String → List (String × Fields) → Table → Bool
clobbers collection organization_id items t =
    any
      (λ r.
        r.collection == collection
        && includes r.entity_id (map (λ e. e.0) items)
        && not (owned organization_id r))
      t

-- The transaction: wipe, create, log. An empty snapshot returns before the log.
unfoldable pub write_snapshot :
    Env → String → String → Option WriteContext → List (String × Fields) → Table → Table
write_snapshot env collection organization_id ctx [] t = delete_many collection organization_id t
write_snapshot env collection organization_id ctx (item ∷ items) t =
    log_write env ctx collection (append "REPLACE_" (to_upper collection)) "BULK" (
      create_many (map (snapshot_row env collection organization_id ctx t) (item ∷ items))
        (delete_many collection organization_id t))

-- `replaceCollectionArray`, as one atomic step: the source runs its guards before the transaction that
-- writes.
unfoldable pub replace_collection_array :
    Env → String → List Json → String → Option WriteContext → Table → Result Table
replace_collection_array env collection items organization_id ctx t =
    let unique_items = by_id items [] in
    do
      assert_collection_write_allowed env collection
      throw_if (not (is_array_collection collection))
          (plain_error "replaceCollectionArray only for array collections")
      assert_non_empty_snapshot collection unique_items organization_id t
      throw_if (clobbers collection organization_id unique_items t)
          (conflict_error "Snapshot contains ids owned by another organization")
      ok (write_snapshot env collection organization_id ctx unique_items t)

pub replace-eq-ok :
    (env : Env) (collection : String) (items : List Json) (org : String) (ctx : Option WriteContext)
    (t : Table) {t' : Table}
    → replace_collection_array env collection items org ctx t ≡ ok t'
    → (is_array_collection collection ≡ true)
      × (assert_non_empty_snapshot collection (by_id items []) org t ≡ ok tt)
      × (clobbers collection org (by_id items []) t ≡ false)
      × (write_snapshot env collection org ctx (by_id items []) t ≡ t')
unfolding replace_collection_array
replace-eq-ok env collection items org ctx t h = ground arith

unfoldable pub upsert_singleton :
    Env → String → Json → String → Option WriteContext → Table → Result Table
upsert_singleton env collection payload organization_id ctx t = do
  throw_if (not (is_singleton_collection collection)) (plain_error "Not a singleton collection")
  upsert_collection_item env collection singleton_entity_id payload organization_id ctx t
