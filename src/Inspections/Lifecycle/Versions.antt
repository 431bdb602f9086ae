-- ===== src/Inspections/Lifecycle/Versions.antt =====
-- What one write does to the versions of inspection reports
-- (src/modules/inspections/inspection.service.ts).
use text.Mathlib.TextPositions.{eq_refl}
use my_detail_os_backend.Prelude.{
  ℕ, ◌≤◌, String, List, ◌∷◌, none, some, find, ◌≡◌, ◌⊎◌, arith, Bool-cases, and_split, eq_iff, inl,
  inr, ◌==◌,
}
use my_detail_os_backend.Inspections.Records.{Version, Tables, find_version, is_version}
use my_detail_os_backend.Inspections.Lifecycle.{
  Move, opened, edited, closed, reopened, discarded, quiet,
}

-- A version that is there.
abbrev pub Keeps : Tables → Tables → Type 0
Keeps db db' =
    (id : String) (revision : ℕ) (v : Version)
    → find_version id revision db ≡ some v
    → find_version id revision db' ≡ some v

-- A version that is put before the others, under a key that is free, hides none of them.
find_version-cons :
    (n : Version) (versions : List Version) (id : String) (revision : ℕ) (v : Version)
    → find (is_version n.report_id n.revision) versions ≡ none
    → find (is_version id revision) versions ≡ some v
    → find (is_version id revision) (n ∷ versions) ≡ some v
find_version-cons n versions id revision v free found =
    elim (Bool-cases (is_version id revision n)) [
      | inl e ↦
          let (same_id, same_revision) = and_split (n.report_id == id) _ e in
          let revision_eq : n.revision ≡ revision = ground arith in
          cc (rw ((eq_iff n.report_id id).0 same_id, revision_eq) at free, found)
      | inr e ↦ rw e found
    ]

pub find_version-head :
    (db db' : Tables) (n : Version)
    → db'.versions ≡ n ∷ db.versions
    → find_version n.report_id n.revision db' ≡ some n
unfolding find_version
find_version-head db db' n h = rw h (rw (eq_refl n.report_id) (ground arith))

pub find_version-new :
    (db db' : Tables) (n : Version) (id : String) (revision : ℕ) (v : Version)
    → db'.versions ≡ n ∷ db.versions
    → find_version id revision db' ≡ some v
    → ((n.report_id ≡ id) × (revision ≤ n.revision)) ⊎ (find_version id revision db ≡ some v)
unfolding find_version
find_version-new db db' n id revision v h found = elim (Bool-cases (is_version id revision n)) [
  | inl e ↦
      let (same_id, same_revision) = and_split (n.report_id == id) _ e in
      inl ((eq_iff n.report_id id).0 same_id, ground arith)
  | inr e ↦ inr (rw (h, e) at found)
]

pub same-Keeps : (db db' : Tables) → db'.versions ≡ db.versions → Keeps db db'
unfolding find_version
same-Keeps db db' h id revision v found = rw h found

pub Move-Keeps : (org : String) (db db' : Tables) → Move org db db' → Keeps db db'
unfolding find_version
Move-Keeps org db db' (quiet a b) = same-Keeps db db' b
Move-Keeps org db db' (opened id r a b c d e f) = same-Keeps db db' f
Move-Keeps org db db' (edited id r r' a b c d e f) = same-Keeps db db' f
Move-Keeps org db db' (reopened id r r' a b c d e f) = same-Keeps db db' f
Move-Keeps org db db' (discarded id r r' a b c d e) = same-Keeps db db' e
Move-Keeps org db db' (closed id r r' key a b c change free d e) =
    λ id' revision' v found. rw e (find_version-cons _ db.versions id' revision' v free found)
