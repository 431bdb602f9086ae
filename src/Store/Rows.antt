-- ===== src/Store/Rows.antt =====
-- The table AppJsonRow (prisma/schema.prisma), keyed by collection and entity id, and the Prisma
-- calls that the store makes on it. Rows stand in the order of their creation.
use mathlib.Core.List.{append-nil}
use text.Mathlib.TextPositions.{eq_refl}
use my_detail_os_backend.Prelude.{
  ℕ, String, Bool, false, not, ◌&&◌, List, [], ◌∷◌, ◌++◌, Option, none, some, ◌≡◌, ◌∙◌, refl, arith,
  inl, inr, filter, is_some, ◌==◌, eq_iff, All, if◌then◌else◌, Bool-cases,
}
use my_detail_os_backend.Json.{Json}

-- `AppJsonRow`
pub record Row : Type 0 where
  pub collection : String
  pub entity_id : String
  pub organization_id : String
  pub payload : Json
  pub created_at : ℕ

abbrev pub Table : Type 0
Table = List Row

abbrev pub has_key : String → String → Row → Bool
has_key collection entity_id r = r.collection == collection && r.entity_id == entity_id

abbrev pub owned : String → Row → Bool
owned organization_id r = r.organization_id == organization_id

-- `findUnique`
unfoldable pub find_row : String → String → Table → Option Row
find_row c e [] = none
find_row c e (r ∷ t) = if has_key c e r then some r else find_row c e t

-- `delete` of the row with this key
unfoldable pub delete_row : String → String → Table → Table
delete_row c e [] = []
delete_row c e (r ∷ t) = let rest = delete_row c e t in if has_key c e r then t else r ∷ rest

-- `upsert`: an old row gets the payload and the organization, and else the row is created.
unfoldable pub upsert_row : Row → Table → Table
upsert_row n [] = n ∷ []
upsert_row n (r ∷ t) =
    let rest = upsert_row n t in
    if has_key n.collection n.entity_id r
    then record r { payload = n.payload; organization_id = n.organization_id } ∷ t
    else r ∷ rest

-- `deleteMany({ where: { collection, organizationId } })`
unfoldable pub delete_many : String → String → Table → Table
delete_many c org t = filter (λ r. not (r.collection == c && owned org r)) t

-- `createMany({ skipDuplicates: true })`
unfoldable pub create_many : List Row → Table → Table
create_many [] t = t
create_many (n ∷ ns) t =
    create_many ns (if is_some (find_row n.collection n.entity_id t) then t else t ++ (n ∷ []))

-- The rows of other organizations.
abbrev pub foreign : String → Table → Table
foreign org t = filter (λ r. not (owned org r)) t

pub find_row-key :
    (c e : String) (t : Table) {r : Row}
    → find_row c e t ≡ some r
    → (r.collection ≡ c) × (r.entity_id ≡ e)
unfolding find_row
find_row-key c e [] h = cc
find_row-key c e (x ∷ t) {r} h =
    ground (arith, eq_iff x.collection c, eq_iff x.entity_id e, find_row-key c e t {r = r})

pub find_row-upsert_row :
    (n : Row) (c e : String) (t : Table)
    → has_key c e n ≡ false
    → find_row c e (upsert_row n t) ≡ find_row c e t
unfolding find_row upsert_row
find_row-upsert_row n c e [] h = ground arith
find_row-upsert_row n c e (r ∷ t) h = ground (
  arith,
  eq_iff r.collection n.collection,
  eq_iff r.entity_id n.entity_id,
  find_row-upsert_row n c e t h,
)

-- The payload and the organization that a row holds, whatever its age.
pub find_row-upsert_self :
    (n : Row) (t : Table)
    → (r : Row) × (find_row n.collection n.entity_id (upsert_row n t) ≡ some r)
      × (r.payload ≡ n.payload)
      × (r.organization_id ≡ n.organization_id)
unfolding find_row upsert_row
find_row-upsert_self n [] = (n, rw (eq_refl n.collection, eq_refl n.entity_id), refl, refl)
find_row-upsert_self n (r ∷ t) = elim (Bool-cases (has_key n.collection n.entity_id r)) [
  | inl e ↦ (
    record r { payload = n.payload; organization_id = n.organization_id },
    rw e (rw e refl),
    refl,
    refl,
  )
  | inr e ↦ rw e (rw e (find_row-upsert_self n t))
]

-- A row that is there belongs to the organization.
abbrev pub OwnedBy : String → Option Row → Type 0
OwnedBy org none = Unit
OwnedBy org (some r) = r.organization_id ≡ org

pub foreign-upsert_row :
    (n : Row) (t : Table)
    → OwnedBy n.organization_id (find_row n.collection n.entity_id t)
    → foreign n.organization_id (upsert_row n t) ≡ foreign n.organization_id t
unfolding find_row upsert_row
foreign-upsert_row n [] h = rw (eq_refl n.organization_id)
foreign-upsert_row n (r ∷ t) h = elim (Bool-cases (has_key n.collection n.entity_id r)) [
  | inl e ↦
      let own : r.organization_id ≡ n.organization_id = rw e at h in
      rw e (rw (own, eq_refl n.organization_id))
  | inr e ↦ rw e (ground (arith, foreign-upsert_row n t (rw e at h)))
]

pub foreign-delete_row :
    (c e org : String) (t : Table)
    → OwnedBy org (find_row c e t)
    → foreign org (delete_row c e t) ≡ foreign org t
unfolding find_row delete_row
foreign-delete_row c e org [] h = refl
foreign-delete_row c e org (r ∷ t) h = elim (Bool-cases (has_key c e r)) [
  | inl k ↦ rw k (ground (arith, eq_iff r.organization_id org, rw k at h))
  | inr k ↦ rw k (ground (arith, foreign-delete_row c e org t (rw k at h)))
]

pub find_row-delete_row :
    (c e c' e' : String) (t : Table)
    → (c == c' && e == e') ≡ false
    → find_row c' e' (delete_row c e t) ≡ find_row c' e' t
unfolding find_row delete_row
find_row-delete_row c e c' e' [] h = refl
find_row-delete_row c e c' e' (r ∷ t) h = ground (
  arith,
  eq_iff r.collection c,
  eq_iff r.entity_id e,
  eq_iff r.collection c',
  eq_iff r.entity_id e',
  eq_iff c c',
  eq_iff e e',
  find_row-delete_row c e c' e' t h,
)

pub foreign-delete_many :
    (c org : String) (t : Table) → foreign org (delete_many c org t) ≡ foreign org t
unfolding delete_many
foreign-delete_many c org [] = refl
foreign-delete_many c org (r ∷ t) = ground (arith, foreign-delete_many c org t)

pub foreign-append :
    (org : String) (t u : Table) → foreign org (t ++ u) ≡ foreign org t ++ foreign org u
foreign-append org [] u = refl
foreign-append org (r ∷ t) u = ground (arith, foreign-append org t u)

pub foreign-create_many :
    (org : String) (ns : List Row) (t : Table)
    → All (λ n. n.organization_id ≡ org) ns
    → foreign org (create_many ns t) ≡ foreign org t
unfolding create_many
foreign-create_many org [] t h = refl
foreign-create_many org (n ∷ ns) t h =
    elim (Bool-cases (is_some (find_row n.collection n.entity_id t))) [
      | inl e ↦ rw e (foreign-create_many org ns t h.1)
      | inr e ↦
          rw (e, foreign-create_many org ns (t ++ (n ∷ [])) h.1, foreign-append org t (n ∷ []))
            (rw ((eq_iff n.organization_id org).1 h.0) (append-nil (foreign org t)))
    ]

-- A key that is free stays free, whatever else is deleted or written.
pub free-upsert_row :
    (n : Row) (c e : String) (t : Table)
    → has_key c e n ≡ false
    → find_row c e t ≡ none
    → find_row c e (upsert_row n t) ≡ none
free-upsert_row n c e t k h = rw (find_row-upsert_row n c e t k) h

pub free-delete_row :
    (c e c' e' : String) (t : Table)
    → find_row c' e' t ≡ none
    → find_row c' e' (delete_row c e t) ≡ none
unfolding find_row delete_row
free-delete_row c e c' e' [] h = refl
free-delete_row c e c' e' (r ∷ t) h = ground (arith, free-delete_row c e c' e' t)

pub free-delete_many :
    (c org c' e' : String) (t : Table)
    → find_row c' e' t ≡ none
    → find_row c' e' (delete_many c org t) ≡ none
unfolding find_row delete_many
free-delete_many c org c' e' [] h = refl
free-delete_many c org c' e' (r ∷ t) h = ground (arith, free-delete_many c org c' e' t)

find_row-append :
    (c e : String) (t u : Table) → find_row c e t ≡ none → find_row c e (t ++ u) ≡ find_row c e u
unfolding find_row
find_row-append c e [] u h = refl
find_row-append c e (r ∷ t) u h = ground (arith, find_row-append c e t u)

find_row-one : (c e : String) (n : Row) → has_key c e n ≡ false → find_row c e (n ∷ []) ≡ none
unfolding find_row
find_row-one c e n h = rw h

pub free-create_many :
    (c e : String) (ns : List Row) (t : Table)
    → All (λ n. has_key c e n ≡ false) ns
    → find_row c e t ≡ none
    → find_row c e (create_many ns t) ≡ none
unfolding create_many
free-create_many c e [] t k h = h
free-create_many c e (n ∷ ns) t k h =
    elim (Bool-cases (is_some (find_row n.collection n.entity_id t))) [
      | inl old ↦ rw old (free-create_many c e ns t k.1 h)
      | inr new ↦ rw new (
          free-create_many c e ns (t ++ (n ∷ [])) k.1
            (find_row-append c e t (n ∷ []) h ∙ find_row-one c e n k.0))
    ]
