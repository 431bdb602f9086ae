-- ===== src/Inspections/Lifecycle/Sound.antt =====
-- The invariant of inspection reports and their versions
-- (src/modules/inspections/inspection.service.ts), and that every write keeps it.
use mathlib.Core.Bool.{false≢true}
use my_detail_os_backend.Prelude.{
  ℕ, ◌+◌, ◌≤◌, String, false, [], none, some, lookup, lookup-insert, ◌≡◌, ◌⊎◌, refl, ap, sym, ◌∙◌,
  arith, Option-cases, Bool-cases, some_inj, eq_iff, inl, inr, ◌==◌, if◌then◌else◌,
}
use my_detail_os_backend.Inspections.Records.{
  Report, Version, Tables, Status, draft, final, find_version,
}
use my_detail_os_backend.Inspections.Lifecycle.{
  Move, Writes, Redrafts, opened, edited, closed, reopened, discarded, quiet,
}
use my_detail_os_backend.Inspections.Lifecycle.Versions.{
  Keeps, Move-Keeps, same-Keeps, find_version-head, find_version-new,
}

-- What holds of every state: a version is of a report that is there, and not of a later revision;
-- a draft has no version of its revision, and a final report has one with its content.
pub record IsSound (db : Tables) : Type 0 where
  pub versions_bounded :
      (id : String) (revision : ℕ) (v : Version)
      → find_version id revision db ≡ some v
      → (r : Report) × (lookup id db.reports ≡ some r) × (revision ≤ r.revision)
  pub drafts_open :
      (id : String) (r : Report)
      → lookup id db.reports ≡ some r
      → r.status ≡ draft
      → find_version id r.revision db ≡ none
  pub finals_recorded :
      (id : String) (r : Report)
      → lookup id db.reports ≡ some r
      → r.status ≡ final
      → (v : Version) × (find_version id r.revision db ≡ some v) × (v.content ≡ r.content)

-- One report is written, and perhaps a version of it is added.
module _ (db db' : Tables) (id : String) (r : Report) (s : IsSound db) (writes : Writes id r db db')
    (keeps : Keeps db db')
    (grows : (j : String) (revision : ℕ) (v : Version)
      → find_version j revision db' ≡ some v
      → ((id ≡ j) × (revision ≤ r.revision)) ⊎ (find_version j revision db ≡ some v))
    (bounded : (revision : ℕ) (v : Version)
      → find_version id revision db ≡ some v
      → revision ≤ r.revision)
    (is_open : r.status ≡ draft → find_version id r.revision db' ≡ none)
    (is_recorded : r.status ≡ final
      → (v : Version) × (find_version id r.revision db' ≡ some v) × (v.content ≡ r.content)) where
  lookup-written :
      (j : String) → lookup j db'.reports ≡ (if id == j then some r else lookup j db.reports)
  lookup-written j = rw writes (lookup-insert id j r db.reports)

  written_cases :
      (j : String) (r' : Report)
      → lookup j db'.reports ≡ some r'
      → ((id ≡ j) × (r ≡ r')) ⊎ (((id == j) ≡ false) × (lookup j db.reports ≡ some r'))
  written_cases j r' h = elim (Bool-cases (id == j)) [
    | inl e ↦ inl ((eq_iff id j).0 e, some_inj (sym (rw (lookup-written j, e) refl) ∙ h))
    | inr e ↦ inr (e, sym (rw (lookup-written j, e) refl) ∙ h)
  ]

  written_bounded :
      (j : String) (revision : ℕ) (v : Version)
      → find_version j revision db' ≡ some v
      → (r' : Report) × (lookup j db'.reports ≡ some r') × (revision ≤ r'.revision)
  written_bounded j revision v h = elim (Bool-cases (id == j)) [
    | inl e ↦
        let le : revision ≤ r.revision = elim (grows j revision v h) [
          | inl (same, le) ↦ le
          | inr old ↦ bounded revision v (rw ((eq_iff id j).0 e) old)
        ] in
        (r, rw (lookup-written j, e) refl, le)
    | inr e ↦ elim (grows j revision v h) [
      | inl (same, le) ↦ absurd (false≢true (sym e ∙ (eq_iff id j).1 same))
      | inr old ↦
          let (r', found, le) = s.versions_bounded j revision v old in
          (r', rw (lookup-written j, e) found, le)
    ]
  ]

  written-IsSound : IsSound db'
  written-IsSound = record {
    versions_bounded = written_bounded;
    drafts_open = λ j r' found status. elim (written_cases j r' found) [
      | inl (e, f) ↦ rw (← e, ← f) (is_open (ap (λ x. x.status) f ∙ status))
      | inr (e, f) ↦ elim (Option-cases (find_version j r'.revision db')) [
        | inl g ↦ g
        | inr (v, g) ↦ elim (grows j r'.revision v g) [
          | inl (same, le) ↦ absurd (false≢true (sym e ∙ (eq_iff id j).1 same))
          | inr old ↦ cc (sym (s.drafts_open j r' f status) ∙ old)
        ]
      ]
    ];
    finals_recorded = λ j r' found status. elim (written_cases j r' found) [
      | inl (e, f) ↦ rw (← e, ← f) (is_recorded (ap (λ x. x.status) f ∙ status))
      | inr (e, f) ↦
          let (v, recorded, same) = s.finals_recorded j r' f status in
          (v, keeps j r'.revision v recorded, same)
    ];
  }

abbrev pub no_reports : Tables
no_reports = record { reports = []; versions = []; uploads = [] }

pub empty-IsSound : IsSound no_reports
unfolding find_version lookup
empty-IsSound = record {
  versions_bounded = λ id revision v h. cc;
  drafts_open = λ id r h k. cc;
  finals_recorded = λ id r h k. cc;
}

same_versions :
    (db db' : Tables) (id : String) (revision : ℕ)
    → db'.versions ≡ db.versions
    → find_version id revision db' ≡ find_version id revision db
unfolding find_version
same_versions db db' id revision h = rw h refl

bounded_at :
    {db : Tables} (s : IsSound db) (id : String) (r : Report) (revision : ℕ) (v : Version)
    → lookup id db.reports ≡ some r
    → find_version id revision db ≡ some v
    → revision ≤ r.revision
bounded_at s id r revision v found h =
    let (r', found', le) = s.versions_bounded id revision v h in
    rw (some_inj (sym found ∙ found')) le

none_later :
    {db : Tables} (s : IsSound db) (id : String) (r : Report)
    → lookup id db.reports ≡ some r
    → find_version id (r.revision + 1) db ≡ none
none_later {db} s id r found = elim (Option-cases (find_version id (r.revision + 1) db)) [
  | inl e ↦ e
  | inr (v, e) ↦ let le = bounded_at s id r (r.revision + 1) v found e in absurd (omega arith)
]

none_new :
    {db : Tables} (s : IsSound db) (id : String) (revision : ℕ)
    → lookup id db.reports ≡ none
    → find_version id revision db ≡ none
none_new {db} s id revision free = elim (Option-cases (find_version id revision db)) [
  | inl e ↦ e
  | inr (v, e) ↦ let (r, found, le) = s.versions_bounded id revision v e in cc (sym free ∙ found)
]

-- One report is written, and the versions stay.
module _ (db db' : Tables) (id : String) (r : Report) (s : IsSound db) (writes : Writes id r db db')
    (kept : db'.versions ≡ db.versions) where
  kept-IsSound :
      ((revision : ℕ) (v : Version) → find_version id revision db ≡ some v → revision ≤ r.revision)
      → (r.status ≡ draft → find_version id r.revision db ≡ none)
      → (r.status ≡ final
          → (v : Version) × (find_version id r.revision db ≡ some v) × (v.content ≡ r.content))
      → IsSound db'
  kept-IsSound bounded is_open is_recorded =
      written-IsSound db db' id r s writes (same-Keeps db db' kept)
        (λ j revision v h. inr (same-Keeps db' db (sym kept) j revision v h)) bounded
        (λ status. same_versions db db' id r.revision kept ∙ is_open status)
        (λ status.
          let (v, found, same) = is_recorded status in
          (v, same_versions db db' id r.revision kept ∙ found, same))

draft_not_final {ℓ} : {P : Type ℓ} {status : Status} → status ≡ draft → status ≡ final → P
draft_not_final h k = cc (sym h ∙ k)

-- A report is written as a draft at the next revision.
redraft-IsSound :
    (db db' : Tables) (id : String) (r r' : Report)
    → IsSound db
    → lookup id db.reports ≡ some r
    → Redrafts r r'
    → Writes id r' db db'
    → db'.versions ≡ db.versions
    → IsSound db'
redraft-IsSound db db' id r r' s found change writes kept =
    let next = change.next_is in
    kept-IsSound db db' id r' s writes kept
      (λ revision v h. let le = bounded_at s id r revision v found h in omega arith)
      (λ e. rw next (none_later s id r found)) (λ e. draft_not_final change.status_is e)

pub Move-IsSound : (org : String) (db db' : Tables) → Move org db db' → IsSound db → IsSound db'
Move-IsSound org db db' (quiet reports kept) s = record {
  versions_bounded = λ id revision v h.
      rw reports (s.versions_bounded id revision v (same-Keeps db' db (sym kept) id revision v h));
  drafts_open = λ id r found status.
      same_versions db db' id r.revision kept ∙ s.drafts_open id r (rw reports at found) status;
  finals_recorded = λ id r found status.
      (let (v, stored, same) = s.finals_recorded id r (rw reports at found) status in
        (v, same-Keeps db db' kept id r.revision v stored, same));
}
Move-IsSound org db db' (opened id r free live status first writes kept) s =
    kept-IsSound db db' id r s writes kept
      (λ revision v h. cc (sym (none_new s id revision free) ∙ h))
      (λ e. none_new s id r.revision free) (λ e. draft_not_final status e)
Move-IsSound org db db' (edited id r r' found live status change writes kept) s =
    redraft-IsSound db db' id r r' s found change writes kept
Move-IsSound org db db' (reopened id r r' found live status change writes kept) s =
    redraft-IsSound db db' id r r' s found change writes kept
Move-IsSound org db db' (discarded id r r' found live change writes kept) s =
    let same = change.revision_is in
    kept-IsSound db db' id r' s writes kept
      (λ revision v h. let le = bounded_at s id r revision v found h in omega arith)
      (λ e. rw same (s.drafts_open id r found (sym change.status_is ∙ e)))
      (λ e.
        let (v, recorded, content) = s.finals_recorded id r found (sym change.status_is ∙ e) in
        (v, rw same recorded, content ∙ sym change.content_is))
Move-IsSound org db db' (closed id r r' key found live status change free writes kept) s =
    let keeps =
      Move-Keeps org db db' (closed id r r' key found live status change free writes kept) in
    let same = change.revision_is in
    let v : Version = record {
      report_id = id;
      revision = r'.revision;
      content = r'.content;
      document_key = key;
      finalized_by = r'.updated_by;
    } in
    written-IsSound db db' id r' s writes keeps
      (λ j revision w h. find_version-new db db' v j revision w kept h)
      (λ revision w h. let le = bounded_at s id r revision w found h in omega arith)
      (λ e. draft_not_final e change.status_is) (λ e. (v, find_version-head db db' v kept, refl))
