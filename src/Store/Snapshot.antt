-- ===== src/Store/Snapshot.antt =====
-- What a successful snapshot leaves in the table (`replaceCollectionArray` of
-- src/modules/collections/app-json-store.ts).
use my_detail_os_backend.Prelude.{
  String, Bool, true, false, not, ◌&&◌, List, [], ◌∷◌, ◌++◌, map, Option, none, some, ◌≡◌, ◌≢◌,
  refl, ap, sym, ◌∙◌, inl, inr, arith, All, Bool-cases, Option-cases, is_empty, is_some, eq_iff,
  ◌==◌, filter, ltb, includes, trim, Dict, insert, length,
}
use mathlib.Core.Path.{subst, ap₂}
use mathlib.Core.List.{append-nil, append_assoc}
use text.Mathlib.TextPositions.{eq_refl}
use my_detail_os_backend.Errors.{ok}
use my_detail_os_backend.Json.{Json, Fields, get, named_fields, as_text}
use my_detail_os_backend.Store.Rows.{
  Row, Table, find_row, upsert_row, delete_many, create_many, has_key,
}
use my_detail_os_backend.Store.{
  Env, WriteContext, user_of, log_business_activity, log_write, in_collection, by_id, clobbers,
  snapshot_row, write_snapshot, replace_collection_array, replace-eq-ok, is_financial,
  assert_non_empty_snapshot,
}

-- No two entries of a dictionary have one key.
abbrev IsDistinct {ℓ} : {V : Type ℓ} → List (String × V) → Type 0
IsDistinct [] = Unit
IsDistinct (e ∷ d) = All (λ x. (e.0 == x.0) ≡ false) d × IsDistinct d

All-insert :
    (i k : String) (v : Fields) (d : Dict Fields)
    → (i == k) ≡ false
    → All (λ x. (i == x.0) ≡ false) d
    → All (λ x. (i == x.0) ≡ false) (insert k v d)
unfolding insert
All-insert i k v [] h a = (h, tt)
All-insert i k v ((j, w) ∷ d) h a = elim (Bool-cases (j == k)) [
  | inl e ↦ rw e a
  | inr e ↦ rw e (a.0, All-insert i k v d h a.1)
]

insert-IsDistinct :
    (k : String) (v : Fields) (d : Dict Fields) → IsDistinct d → IsDistinct (insert k v d)
unfolding insert
insert-IsDistinct k v [] h = (tt, tt)
insert-IsDistinct k v ((j, w) ∷ d) h = elim (Bool-cases (j == k)) [
  | inl e ↦ rw e h
  | inr e ↦ rw e (All-insert j k v d e h.0, insert-IsDistinct k v d h.1)
]

by_id-IsDistinct :
    (items : List Json) (seen : Dict Fields) → IsDistinct seen → IsDistinct (by_id items seen)
unfolding by_id
by_id-IsDistinct [] seen h = h
by_id-IsDistinct (item ∷ items) seen h =
    elim (Option-cases (as_text (get "id" (named_fields item)))) [
      | inl e ↦ rw e (by_id-IsDistinct items seen h)
      | inr (raw, e) ↦ elim (Bool-cases (is_empty (trim raw))) [
        | inl b ↦ rw (e, b) (by_id-IsDistinct items seen h)
        | inr b ↦ rw (e, b) (by_id-IsDistinct items _ (insert-IsDistinct (trim raw) _ seen h))
      ]
    ]

-- After the wipe no id of the snapshot is taken.
wiped_free :
    (collection org id : String) (items : List (String × Fields)) (t : Table)
    → clobbers collection org items t ≡ false
    → includes id (map (λ e. e.0) items) ≡ true
    → find_row collection id (delete_many collection org t) ≡ none
unfolding clobbers find_row delete_many
wiped_free collection org id items [] h m = refl
wiped_free collection org id items (r ∷ t) h m = ground (
  arith,
  eq_iff r.entity_id id,
  eq_iff r.collection collection,
  wiped_free collection org id items t,
)

-- Rows with keys that are free and differ are all created.
abbrev AreNew : List Row → Table → Type 0
AreNew [] t = Unit
AreNew (n ∷ ns) t =
    (find_row n.collection n.entity_id t ≡ none)
    × All (λ m. has_key m.collection m.entity_id n ≡ false) ns
    × AreNew ns t

find_row-concat :
    (n : Row) (c e : String) (t : Table)
    → has_key c e n ≡ false
    → find_row c e t ≡ none
    → find_row c e (t ++ (n ∷ [])) ≡ none
unfolding find_row
find_row-concat n c e [] k h = rw k
find_row-concat n c e (r ∷ t) k h = ground (arith, find_row-concat n c e t k)

AreNew-concat :
    (n : Row) (ns : List Row) (t : Table)
    → All (λ m. has_key m.collection m.entity_id n ≡ false) ns
    → AreNew ns t
    → AreNew ns (t ++ (n ∷ []))
AreNew-concat n [] t h k = tt
AreNew-concat n (m ∷ ms) t h k =
    (find_row-concat n m.collection m.entity_id t h.0 k.0, k.1, AreNew-concat n ms t h.1 k.2)

create_many-append : (ns : List Row) (t : Table) → AreNew ns t → create_many ns t ≡ t ++ ns
unfolding create_many
create_many-append [] t h = sym (append-nil t)
create_many-append (n ∷ ns) t h = rw h.0 (
    create_many-append ns (t ++ (n ∷ [])) (AreNew-concat n ns t h.1 h.2)
    ∙ append_assoc t (n ∷ []) ns)

All-keys :
    (P : String → Type 0) (items : List (String × Fields))
    → ((k : String) → includes k (map (λ e. e.0) items) ≡ true → P k)
    → All (λ e. P e.0) items
All-keys P [] h = tt
All-keys P ((k, v) ∷ items) h =
    (h k (rw (eq_refl k)), All-keys P items (λ j m. h j (ground (arith, m))))

snapshot-AreNew :
    (env : Env) (collection org : String) (ctx : Option WriteContext) (old t : Table)
    (items : List (String × Fields))
    → IsDistinct items
    → All (λ e. find_row collection e.0 t ≡ none) items
    → AreNew (map (snapshot_row env collection org ctx old) items) t
snapshot-AreNew env collection org ctx old t [] d h = tt
snapshot-AreNew env collection org ctx old t ((k, v) ∷ items) d h =
    (h.0, apart items d.0, snapshot-AreNew env collection org ctx old t items d.1 h.1)
  where
    apart :
        (es : List (String × Fields))
        → All (λ x. (k == x.0) ≡ false) es
        → All
            (λ m.
              has_key m.collection m.entity_id (snapshot_row env collection org ctx old (k, v))
              ≡ false)
            (map (snapshot_row env collection org ctx old) es)
    apart [] a = tt
    apart ((j, w) ∷ es) a = (rw a.0 (ground arith), apart es a.1)

filter-append {ℓ} :
    {A : Type ℓ} (p : A → Bool) (xs ys : List A) → filter p (xs ++ ys) ≡ filter p xs ++ filter p ys
filter-append p [] ys = refl
filter-append p (x ∷ xs) ys = elim (Bool-cases (p x)) [
  | inl e ↦ rw (e, filter-append p xs ys)
  | inr e ↦ rw (e, filter-append p xs ys)
]

in_collection-wiped :
    (collection org : String) (t : Table)
    → filter (in_collection collection org) (delete_many collection org t) ≡ []
unfolding delete_many
in_collection-wiped collection org [] = refl
in_collection-wiped collection org (r ∷ t) = ground (arith, in_collection-wiped collection org t)

in_collection-snapshot :
    (env : Env) (collection org : String) (ctx : Option WriteContext) (t : Table)
    (items : List (String × Fields))
    → filter (in_collection collection org) (map (snapshot_row env collection org ctx t) items)
      ≡ map (snapshot_row env collection org ctx t) items
in_collection-snapshot env collection org ctx t [] = refl
in_collection-snapshot env collection org ctx t ((k, v) ∷ items) =
    rw (eq_refl collection, eq_refl org, in_collection-snapshot env collection org ctx t items)

-- A row of another collection makes no difference to the rows of this one.
in_collection-upsert_row :
    (n : Row) (collection org : String) (t : Table)
    → (n.collection == collection) ≡ false
    → filter (in_collection collection org) (upsert_row n t)
      ≡ filter (in_collection collection org) t
unfolding upsert_row
in_collection-upsert_row n collection org [] h = rw h
in_collection-upsert_row n collection org (r ∷ t) h = ground (
  arith,
  eq_iff r.collection n.collection,
  eq_iff r.collection collection,
  eq_iff n.collection collection,
  in_collection-upsert_row n collection org t h,
)

in_collection-log_activity :
    (env : Env) (ctx : WriteContext) (action collection id org : String) (t : Table)
    → (collection == "activityLogs") ≡ false
    → filter (in_collection collection org) (log_business_activity env ctx action collection id t)
      ≡ filter (in_collection collection org) t
unfolding log_business_activity
in_collection-log_activity env ctx action collection id org t other =
    let off : ("activityLogs" == collection) ≡ false =
      ground (arith, eq_iff "activityLogs" collection, eq_iff collection "activityLogs") in
    elim (Option-cases (user_of (some ctx))) [
      | inl u ↦ rw (u, log_business_activity)
      | inr (name, u) ↦ elim (Bool-cases (is_empty ctx.organization_id)) [
        | inl b ↦ rw (u, b, log_business_activity)
        | inr b ↦ rw (u, b, log_business_activity) (in_collection-upsert_row _ collection org t off)
      ]
    ]

in_collection-log_write :
    (env : Env) (ctx : Option WriteContext) (collection action id org : String) (t : Table)
    → filter (in_collection collection org) (log_write env ctx collection action id t)
      ≡ filter (in_collection collection org) t
unfolding log_write
in_collection-log_write env none collection action id org t = refl
in_collection-log_write env (some ctx) collection action id org t =
    elim (Bool-cases (
      is_some (user_of (some ctx))
      && not (collection == "activityLogs")
      && not ctx.skip_generic_activity_log)) [
        | inl g ↦
            rw g (in_collection-log_activity env ctx action collection id org t (ground arith))
        | inr g ↦ rw g
      ]

in_collection-write_snapshot :
    (env : Env) (collection org : String) (ctx : Option WriteContext)
    (items : List (String × Fields)) (t : Table)
    → IsDistinct items
    → All (λ e. find_row collection e.0 (delete_many collection org t) ≡ none) items
    → filter (in_collection collection org) (write_snapshot env collection org ctx items t)
      ≡ map (snapshot_row env collection org ctx t) items
unfolding write_snapshot
in_collection-write_snapshot env collection org ctx [] t d h = in_collection-wiped collection org t
in_collection-write_snapshot env collection org ctx (item ∷ items) t d h =
    let rows = map (snapshot_row env collection org ctx t) (item ∷ items) in
    let wiped = delete_many collection org t in
    in_collection-log_write env ctx collection _ "BULK" org (create_many rows wiped)
    ∙ ap (filter (in_collection collection org)) (
        create_many-append rows wiped
          (snapshot-AreNew env collection org ctx t wiped (item ∷ items) d h))
    ∙ filter-append (in_collection collection org) wiped rows
    ∙ ap₂ (λ a b. a ++ b) (in_collection-wiped collection org t)
        (in_collection-snapshot env collection org ctx t (item ∷ items))

-- After a snapshot that is accepted, the rows of the organization in the collection are exactly
-- those of the snapshot, in its order, one for each trimmed id that is not empty.
pub replace-snapshot :
    (env : Env) (collection : String) (items : List Json) (org : String) (ctx : Option WriteContext)
    (t : Table) {t' : Table}
    → replace_collection_array env collection items org ctx t ≡ ok t'
    → filter (in_collection collection org) t'
      ≡ map (snapshot_row env collection org ctx t) (by_id items [])
replace-snapshot env collection items org ctx t e =
    let (_, _, apart, stored) = replace-eq-ok env collection items org ctx t e in
    let unique = by_id items [] in
    subst
      (λ x.
        filter (in_collection collection org) x
        ≡ map (snapshot_row env collection org ctx t) unique)
      stored
      (in_collection-write_snapshot env collection org ctx unique t (by_id-IsDistinct items [] tt) (
        All-keys (λ k. find_row collection k (delete_many collection org t) ≡ none) unique
          (λ k m. wiped_free collection org k unique t apart m)))

length-pos : (t : Table) → t ≢ [] → ltb 0 (length t) ≡ true
length-pos [] h = absurd (h refl)
length-pos (r ∷ t) h = ground arith

guard_holds :
    (collection org : String) (t : Table) (f : String × Fields → Row)
    (items : List (String × Fields))
    → is_financial collection ≡ true
    → filter (in_collection collection org) t ≢ []
    → assert_non_empty_snapshot collection items org t ≡ ok tt
    → map f items ≢ []
unfolding assert_non_empty_snapshot
guard_holds collection org t f [] financial rows guarded =
    cc (rw (financial, length-pos (filter (in_collection collection org) t) rows) at guarded)
guard_holds collection org t f (item ∷ items) financial rows guarded = cc

-- Of a financial collection in which the organization has rows, no snapshot that is accepted
-- leaves the organization without rows.
pub financial_never_emptied :
    (env : Env) (collection : String) (items : List Json) (org : String) (ctx : Option WriteContext)
    (t : Table) {t' : Table}
    → is_financial collection ≡ true
    → filter (in_collection collection org) t ≢ []
    → replace_collection_array env collection items org ctx t ≡ ok t'
    → filter (in_collection collection org) t' ≢ []
financial_never_emptied env collection items org ctx t financial rows e left =
    let (_, guarded, _, _) = replace-eq-ok env collection items org ctx t e in
    guard_holds collection org t (snapshot_row env collection org ctx t) (by_id items []) financial
      rows guarded (sym (replace-snapshot env collection items org ctx t e) ∙ left)
