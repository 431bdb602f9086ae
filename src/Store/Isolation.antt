-- ===== src/Store/Isolation.antt =====
-- Tenant isolation of the store: no call for an organization reads, changes or removes a row of
-- another one (src/modules/collections/app-json-store.ts).
use mathlib.Core.Path.{subst}
use text.Mathlib.TextPositions.{eq_refl}
use my_detail_os_backend.Prelude.{
  String, true, false, List, [], ◌∷◌, map, Option, none, some, ◌≡◌, refl, ◌∙◌, inl, inr, arith, All,
  Bool-cases, Option-cases, is_empty, is_some, eq_iff, not, ◌&&◌, ◌==◌,
}
use my_detail_os_backend.Errors.{ok}
use my_detail_os_backend.Json.{Json, Fields}
use my_detail_os_backend.Access.Collections.{
  singleton_entity_id, singleton_storage_entity_id, storage_id-ne-legacy, is_singleton_collection,
}
use my_detail_os_backend.Store.Rows.{
  Row, Table, find_row, delete_row, upsert_row, delete_many, create_many, owned, foreign, OwnedBy,
  foreign-upsert_row, foreign-delete_row, foreign-delete_many, foreign-create_many, free-upsert_row,
  free-delete_row, free-delete_many, free-create_many, has_key, find_row-delete_row,
}
use my_detail_os_backend.Store.{
  Env, WriteContext, user_of, log_business_activity, log_write, payload_in, row_to_store,
  snapshot_row, migrate_legacy, upsert_collection_item, delete_collection_item, store_item,
  upsert-eq-ok, replace-eq-ok, by_id, write_snapshot, replace_collection_array, is_foreign,
  storage_id,
}

-- The context of a write is that of the organization that is written.
abbrev pub IsFor : String → Option WriteContext → Type 0
IsFor org none = Unit
IsFor org (some ctx) = ctx.organization_id ≡ org

-- `randomUUID` gives the activity entry an id that no entry has.
abbrev pub IsFresh : Env → Table → Type 0
IsFresh env t = find_row "activityLogs" env.uuid t ≡ none

foreign-log_business_activity :
    (env : Env) (ctx : WriteContext) (action collection id org : String) (t : Table)
    → ctx.organization_id ≡ org
    → IsFresh env t
    → foreign org (log_business_activity env ctx action collection id t) ≡ foreign org t
unfolding log_business_activity
foreign-log_business_activity env ctx action collection id org t h fresh =
    elim (Option-cases (user_of (some ctx))) [
      | inl e ↦ rw (e, log_business_activity)
      | inr (u, e) ↦ elim (Bool-cases (is_empty ctx.organization_id)) [
        | inl b ↦ rw (e, b, log_business_activity)
        | inr b ↦ rw (e, b, log_business_activity) (rw (← h) (foreign-upsert_row _ t (rw fresh tt)))
      ]
    ]

foreign-log_write :
    (env : Env) (ctx : Option WriteContext) (collection action id org : String) (t : Table)
    → IsFor org ctx
    → ((collection == "activityLogs") ≡ false → IsFresh env t)
    → foreign org (log_write env ctx collection action id t) ≡ foreign org t
unfolding log_write
foreign-log_write env none collection action id org t h fresh = refl
foreign-log_write env (some ctx) collection action id org t h fresh =
    elim (Bool-cases (
      is_some (user_of (some ctx))
      && not (collection == "activityLogs")
      && not ctx.skip_generic_activity_log)) [
        | inl e ↦ rw e (
            foreign-log_business_activity env ctx action collection id org t h
              (fresh (ground arith)))
        | inr e ↦ rw e
      ]

payload_in-OwnedBy :
    (org : String) (o : Option Row) (p : Json) → payload_in org o ≡ some p → OwnedBy org o
payload_in-OwnedBy org none p h = tt
payload_in-OwnedBy org (some r) p h = ground (arith, eq_iff r.organization_id org)

foreign-migrate_legacy :
    (collection entity_id org : String) (existing : Option Row) (t : Table)
    → foreign org (migrate_legacy collection entity_id org existing t) ≡ foreign org t
unfolding migrate_legacy
foreign-migrate_legacy collection entity_id org existing t =
    let legacy = find_row collection singleton_entity_id t in
    elim (Option-cases (payload_in org legacy)) [
      | inl e ↦ ground (arith, e)
      | inr (p, e) ↦ ground (
        arith,
        e,
        foreign-delete_row collection singleton_entity_id org t (payload_in-OwnedBy org legacy p e),
      )
    ]

IsFresh-migrate_legacy :
    (env : Env) (collection entity_id org : String) (existing : Option Row) (t : Table)
    → IsFresh env t
    → IsFresh env (migrate_legacy collection entity_id org existing t)
unfolding migrate_legacy
IsFresh-migrate_legacy env collection entity_id org existing t h =
    ground (arith, free-delete_row collection singleton_entity_id "activityLogs" env.uuid t h)

not_foreign : (org : String) (o : Option Row) → is_foreign org o ≡ false → OwnedBy org o
not_foreign org none h = tt
not_foreign org (some r) h = ground (arith, eq_iff r.organization_id org)

OwnedBy-migrate_legacy :
    (collection entity_id org : String) (existing : Option Row) (t : Table)
    → OwnedBy org (find_row collection (storage_id collection entity_id org) t)
    → OwnedBy org (
        find_row collection
          (storage_id collection entity_id org)
          (migrate_legacy collection entity_id org existing t))
unfolding migrate_legacy
OwnedBy-migrate_legacy collection entity_id org existing t h =
    elim (Bool-cases (is_singleton_collection collection && entity_id == singleton_entity_id)) [
      | inl e ↦ ground (
        arith,
        e,
        h,
        eq_refl collection,
        storage_id-ne-legacy org,
        find_row-delete_row collection singleton_entity_id collection
            (singleton_storage_entity_id org) t,
      )
      | inr e ↦ ground (arith, e, h)
    ]

-- An upsert for an organization that succeeds, with a context of that organization if any and a
-- new id for the activity entry, leaves the rows of every other organization as they are.
pub upsert_keeps_foreign :
    (env : Env) (collection entity_id : String) (payload : Json) (org : String)
    (ctx : Option WriteContext) (t : Table) {t' : Table}
    → IsFor org ctx
    → IsFresh env t
    → upsert_collection_item env collection entity_id payload org ctx t ≡ ok t'
    → foreign org t' ≡ foreign org t
unfolding store_item
upsert_keeps_foreign env collection entity_id payload org ctx t h fresh e =
    let sid = storage_id collection entity_id org in
    let existing = find_row collection sid t in
    let row = row_to_store env collection entity_id payload org ctx existing in
    let migrated = migrate_legacy collection entity_id org existing t in
    let (mine, stored) = upsert-eq-ok env collection entity_id payload org ctx t e in
    let fresh' = IsFresh-migrate_legacy env collection entity_id org existing t fresh in
    subst (λ x. foreign org x ≡ foreign org t) stored
      (foreign-log_write env ctx collection _ _ org (upsert_row row migrated) h
          (λ other. free-upsert_row row "activityLogs" env.uuid migrated (rw other) fresh')
        ∙ foreign-upsert_row row migrated (
            OwnedBy-migrate_legacy collection entity_id org existing t
              (not_foreign org existing mine))
        ∙ foreign-migrate_legacy collection entity_id org existing t)

-- A delete for an organization, with a context of that organization if any and a new id for the
-- activity entry, leaves the rows of every other organization as they are, and where it answers
-- false it leaves the whole table as it is.
pub delete_keeps_foreign :
    (env : Env) (collection entity_id org : String) (ctx : Option WriteContext) (t : Table)
    → IsFor org ctx
    → IsFresh env t
    → let (done, t') = delete_collection_item env collection entity_id org ctx t in
      (foreign org t' ≡ foreign org t) × (done ≡ false → t' ≡ t)
unfolding delete_collection_item
delete_keeps_foreign env collection entity_id org ctx t h fresh =
    elim (Option-cases (find_row collection entity_id t)) [
      | inl e ↦ rw (e, delete_collection_item) (refl, λ _. refl)
      | inr (r, e) ↦ elim (Bool-cases (owned org r)) [
        | inr b ↦ rw (e, b, delete_collection_item) (refl, λ _. refl)
        | inl b ↦
            rw (e, b, delete_collection_item)
              (
                foreign-log_write env ctx collection _ entity_id org
                      (delete_row collection entity_id t) h
                      (λ _. free-delete_row collection entity_id "activityLogs" env.uuid t fresh)
                    ∙ foreign-delete_row collection entity_id org t
                        (rw e ((eq_iff r.organization_id org).0 b)),
                λ (absurd_case : true ≡ false). cc,
              )
      ]
    ]

snapshot_rows-owned :
    (env : Env) (collection org : String) (ctx : Option WriteContext) (t : Table)
    (items : List (String × Fields))
    → All (λ n. n.organization_id ≡ org) (map (snapshot_row env collection org ctx t) items)
snapshot_rows-owned env collection org ctx t [] = tt
snapshot_rows-owned env collection org ctx t ((id, item) ∷ items) =
    (refl, snapshot_rows-owned env collection org ctx t items)

snapshot_rows-other :
    (env : Env) (collection org : String) (ctx : Option WriteContext) (t : Table)
    (items : List (String × Fields)) (c e : String)
    → (collection == c) ≡ false
    → All (λ n. has_key c e n ≡ false) (map (snapshot_row env collection org ctx t) items)
snapshot_rows-other env collection org ctx t [] c e h = tt
snapshot_rows-other env collection org ctx t ((id, item) ∷ items) c e h =
    (rw h, snapshot_rows-other env collection org ctx t items c e h)

foreign-write_snapshot :
    (env : Env) (collection org : String) (ctx : Option WriteContext)
    (items : List (String × Fields)) (t : Table)
    → IsFor org ctx
    → IsFresh env t
    → foreign org (write_snapshot env collection org ctx items t) ≡ foreign org t
unfolding write_snapshot
foreign-write_snapshot env collection org ctx [] t h fresh = foreign-delete_many collection org t
foreign-write_snapshot env collection org ctx (item ∷ items) t h fresh =
    let rows = map (snapshot_row env collection org ctx t) (item ∷ items) in
    let wiped = delete_many collection org t in
    foreign-log_write env ctx collection _ "BULK" org (create_many rows wiped) h (λ other.
      free-create_many "activityLogs" env.uuid rows wiped
        (snapshot_rows-other env collection org ctx t (item ∷ items) "activityLogs" env.uuid other)
        (free-delete_many collection org "activityLogs" env.uuid t fresh))
    ∙ foreign-create_many org rows wiped
        (snapshot_rows-owned env collection org ctx t (item ∷ items))
    ∙ foreign-delete_many collection org t

-- Replacing an organization's snapshot, where it succeeds, with a context of that organization if
-- any and a new id for the activity entry, leaves the rows of every other organization as they
-- are.
pub replace_keeps_foreign :
    (env : Env) (collection : String) (items : List Json) (org : String) (ctx : Option WriteContext)
    (t : Table) {t' : Table}
    → IsFor org ctx
    → IsFresh env t
    → replace_collection_array env collection items org ctx t ≡ ok t'
    → foreign org t' ≡ foreign org t
replace_keeps_foreign env collection items org ctx t h fresh e =
    let (_, _, _, stored) = replace-eq-ok env collection items org ctx t e in
    subst (λ x. foreign org x ≡ foreign org t) stored
      (foreign-write_snapshot env collection org ctx (by_id items []) t h fresh)
