-- ===== src/Inspections/Lifecycle.antt =====
-- The contract of the inspection tables: what one call may do to the reports and their versions, and
-- that every operation of src/modules/inspections keeps to it.
pub mod Moves
pub mod Versions
pub mod Sound
pub mod History
pub mod Reports
pub mod Photos
use my_detail_os_backend.Prelude.{
  ℕ, ◌+◌, String, Bool, true, false, not, ◌&&◌, ◌∷◌, Option, none, some, lookup, insert, is_some,
  eqb, ◌≡◌, refl, arith, Option-cases, Bool-cases, some_inj, and_split, eq_iff, inl, inr, ◌==◌,
  if◌then◌else◌,
}
use my_detail_os_backend.Errors.{
  Result, ok, err, ok_inj, absurd_err, >>=-eq-ok, guard-eq-ok, throw_if, ◌>>=◌, ◌>>◌, AppError,
}
use my_detail_os_backend.Json.{Fields}
use my_detail_os_backend.Scope.{BranchScope}
use my_detail_os_backend.Inspections.Records.{
  Env, Report, Version, Tables, Status, draft, final, is_draft, is_final, is_live, find_report,
  update_report, find_version, is_version,
}
use my_detail_os_backend.Inspections.Drafts.{
  new_report, commit_create, create_inspection, edit, commit_update, update_inspection, is_visible,
  is_editable, in_branch, soft_delete_inspection, prepare,
}
use my_detail_os_backend.Inspections.Final.{
  close, commit_final, finish, finalize_inspection, reopen, create_inspection_revision, is_at,
}

-- A report that a call of the organization may touch.
abbrev pub IsLive : String → Report → Type 0
IsLive org r = (r.organization_id ≡ org) × (r.deleted_at ≡ none)

-- One row of the reports is written.
abbrev pub Writes : String → Report → Tables → Tables → Type 0
Writes id r db db' = db'.reports ≡ insert id r db.reports

-- The same report before and behind a write: what never changes of it.
pub record IsSame (r r' : Report) : Type 0 where
  pub organization : r'.organization_id ≡ r.organization_id
  pub branch : r'.branch_id ≡ r.branch_id
  pub number : r'.report_number ≡ r.report_number
  pub creator : r'.created_by ≡ r.created_by

-- A live draft at the next revision.
pub record Redrafts (r r' : Report) : Type 0 where
  pub same : IsSame r r'
  pub live : r'.deleted_at ≡ none
  pub status_is : r'.status ≡ draft
  pub next_is : r'.revision ≡ r.revision + 1

-- A live final report, at the same revision.
pub record Closes (r r' : Report) : Type 0 where
  pub same : IsSame r r'
  pub live : r'.deleted_at ≡ none
  pub status_is : r'.status ≡ final
  pub revision_is : r'.revision ≡ r.revision

-- A deleted report, otherwise as it was but for who wrote it last.
pub record Discards (r r' : Report) : Type 0 where
  pub same : IsSame r r'
  pub deleted : is_some r'.deleted_at ≡ true
  pub status_is : r'.status ≡ r.status
  pub revision_is : r'.revision ≡ r.revision
  pub content_is : r'.content ≡ r.content

-- What a call of an organization does to the reports and versions.
pub data Move (org : String) (db db' : Tables) : Type 0 where
  quiet : db'.reports ≡ db.reports → db'.versions ≡ db.versions → Move org db db'
  opened :
      (id : String) (r : Report)
      → lookup id db.reports ≡ none
      → IsLive org r
      → r.status ≡ draft
      → r.revision ≡ 1
      → Writes id r db db'
      → db'.versions ≡ db.versions
      → Move org db db'
  edited :
      (id : String) (r r' : Report)
      → lookup id db.reports ≡ some r
      → IsLive org r
      → r.status ≡ draft
      → Redrafts r r'
      → Writes id r' db db'
      → db'.versions ≡ db.versions
      → Move org db db'
  closed :
      (id : String) (r r' : Report) (key : String)
      → lookup id db.reports ≡ some r
      → IsLive org r
      → r.status ≡ draft
      → Closes r r'
      → find_version id r'.revision db ≡ none
      → Writes id r' db db'
      → db'.versions
        ≡ record {
          report_id = id;
          revision = r'.revision;
          content = r'.content;
          document_key = key;
          finalized_by = r'.updated_by;
        }
          ∷ db.versions
      → Move org db db'
  reopened :
      (id : String) (r r' : Report)
      → lookup id db.reports ≡ some r
      → IsLive org r
      → r.status ≡ final
      → Redrafts r r'
      → Writes id r' db db'
      → db'.versions ≡ db.versions
      → Move org db db'
  discarded :
      (id : String) (r r' : Report)
      → lookup id db.reports ≡ some r
      → IsLive org r
      → Discards r r'
      → Writes id r' db db'
      → db'.versions ≡ db.versions
      → Move org db db'

pub edit-Redrafts :
    (actor : String) (content : Fields) (r : Report)
    → r.deleted_at ≡ none
    → r.status ≡ draft
    → Redrafts r (edit actor content r)
edit-Redrafts actor content r live status = record {
  same = record { organization = refl; branch = refl; number = refl; creator = refl };
  live = live;
  status_is = status;
  next_is = refl;
}

pub reopen-Redrafts :
    (actor : String) (content : Fields) (r : Report)
    → r.deleted_at ≡ none
    → Redrafts r (reopen actor content r)
reopen-Redrafts actor content r live = record {
  same = record { organization = refl; branch = refl; number = refl; creator = refl };
  live = live;
  status_is = refl;
  next_is = refl;
}

pub close-Closes :
    (env : Env) (actor : String) (content : Fields) (r : Report)
    → r.deleted_at ≡ none
    → Closes r (close env actor content r)
close-Closes env actor content r live = record {
  same = record { organization = refl; branch = refl; number = refl; creator = refl };
  live = live;
  status_is = refl;
  revision_is = refl;
}

pub discard-Discards :
    (actor : String) (at : ℕ) (r : Report)
    → Discards r (record r { deleted_at = some at; updated_by = actor })
discard-Discards actor at r = record {
  same = record { organization = refl; branch = refl; number = refl; creator = refl };
  deleted = refl;
  status_is = refl;
  revision_is = refl;
  content_is = refl;
}

pub find_report_cases :
    (id : String) (where_ : Report → Bool) (db : Tables) {r : Report}
    → find_report id where_ db ≡ some r
    → (lookup id db.reports ≡ some r) × (where_ r ≡ true)
unfolding find_report
find_report_cases id where_ db h = elim (Option-cases (lookup id db.reports)) [
  | inl e ↦ cc (rw (find_report, e) at h)
  | inr (r', e) ↦ elim (Bool-cases (where_ r')) [
    | inl f ↦ ground arith
    | inr f ↦ cc (rw (find_report, e, f) at h)
  ]
]

pub update_report_cases :
    (id : String) (where_ : Report → Bool) (change : Report → Report) (db : Tables) {db' : Tables}
    → update_report id where_ change db ≡ some db'
    → (r : Report) × (lookup id db.reports ≡ some r)
      × (where_ r ≡ true)
      × (record db { reports = insert id (change r) db.reports } ≡ db')
unfolding update_report
update_report_cases id where_ change db h = elim (Option-cases (find_report id where_ db)) [
  | inl e ↦ cc (rw (update_report, e) at h)
  | inr (r, e) ↦
      let (found, holds) = find_report_cases id where_ db e in
      (r, found, holds, some_inj (rw (update_report, e) at h))
]

is_live-IsLive :
    (scope : BranchScope) (r : Report) → is_live scope r ≡ true → IsLive scope.organization_id r
is_live-IsLive scope r h =
    ground (arith, eq_iff r.organization_id scope.organization_id, Option-cases r.deleted_at)

is_draft-eq : (s : Status) → is_draft s ≡ true → s ≡ draft
is_draft-eq draft h = refl
is_draft-eq final h = cc

is_final-eq : (s : Status) → is_final s ≡ true → s ≡ final
is_final-eq draft h = cc
is_final-eq final h = refl
