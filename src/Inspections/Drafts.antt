-- ===== src/Inspections/Drafts.antt =====
-- Drafts of inspection reports: `createInspection`, `updateInspection`, `getInspection` and
-- `softDeleteInspection` of src/modules/inspections/inspection.service.ts. A call reads the state
-- `seen` first, and commits onto `db`.
use my_detail_os_backend.Prelude.{
  ℕ, ◌+◌, String, Bool, true, false, not, ◌&&◌, Option, none, some, lookup, insert, is_some, eqb,
  ◌==◌,
}
use my_detail_os_backend.Errors.{
  Result, ok, err, not_found_error, conflict_error, plain_error, throw_if, ◌>>=◌, ◌>>◌,
}
use my_detail_os_backend.Json.{Fields, get, as_text}
use my_detail_os_backend.Scope.{BranchScope}
use my_detail_os_backend.Inspections.Validation.{validate_inspection_payload}
use my_detail_os_backend.Inspections.Guards.{
  assert_branch, assert_related_records, sanitize_draft_payload,
}
use my_detail_os_backend.Inspections.Records.{
  Env, Report, Tables, draft, is_draft, is_live, reaches, find_report, update_report,
}
use my_detail_os_backend.Inspections.Uploads.{link_pending_uploads, expire_detached_draft_uploads}

-- What `createInspection` and `updateInspection` check and prepare: the branch, and the content.
unfoldable pub prepare : Env → BranchScope → Fields → Result (String × Fields)
prepare env scope payload =
    validate_inspection_payload env.json_bytes payload
    >> (assert_branch env scope (as_text (get "branchId" payload)) >>= (λ branch.
        assert_related_records env scope branch payload
        >> (sanitize_draft_payload payload >>= (λ content. ok (branch, content)))))

abbrev pub new_report : Env → BranchScope → (actor branch : String) → Fields → Report
new_report env scope actor branch content = record {
  organization_id = scope.organization_id;
  branch_id = branch;
  report_number = env.report_number;
  revision = 1;
  status = draft;
  content = content;
  finalized_at = none;
  deleted_at = none;
  created_by = actor;
  updated_by = actor;
}

-- The transaction of `createInspection`; an id that is taken violates the primary key.
unfoldable pub commit_create :
    Env → BranchScope → (actor branch : String) → Fields → (seen db : Tables) → Result Tables
commit_create env scope actor branch content seen db =
    throw_if (is_some (lookup env.fresh_id db.reports)) (plain_error "Unique constraint failed")
    >> (link_pending_uploads scope branch env.fresh_id content seen.uploads db.uploads
        >>= (λ uploads. ok (record db {
          reports = insert env.fresh_id (new_report env scope actor branch content) db.reports;
          uploads = uploads;
        })))

unfoldable pub create_inspection :
    Env → BranchScope → (actor : String) → Fields → (seen db : Tables) → Result Tables
create_inspection env scope actor payload seen db =
    prepare env scope payload >>= (λ p. commit_create env scope actor p.0 p.1 seen db)

abbrev pub edit : (actor : String) → Fields → Report → Report
edit actor content r = record r { content = content; revision = r.revision + 1; updated_by = actor }

-- A live report in a branch.
abbrev pub in_branch : BranchScope → String → Report → Bool
in_branch scope branch r = is_live scope r && r.branch_id == branch

-- The condition of the update: the expected revision, and still a draft.
abbrev pub is_editable : BranchScope → String → ℕ → Report → Bool
is_editable scope branch expected r =
    in_branch scope branch r && (eqb r.revision expected && is_draft r.status)

-- The transaction of `updateInspection`
unfoldable pub commit_update :
    Env → BranchScope → (actor branch id : String) → ℕ → Fields → (seen db : Tables) → Result Tables
commit_update env scope actor branch id expected content seen db =
    elim (find_report id (in_branch scope branch) seen) [
      | none ↦ err (not_found_error "Inspection report not found.")
      | some current ↦
          throw_if (not (eqb current.revision expected))
            (conflict_error "Inspection report revision is stale.")
          >> (throw_if (not (is_draft current.status))
                (conflict_error "Finalized inspection reports are read-only.")
              >> elim (update_report id (is_editable scope branch expected) (edit actor content)
                  db) [
                    | none ↦ err (conflict_error "Inspection report revision is stale.")
                    | some changed ↦
                        link_pending_uploads scope branch id content seen.uploads changed.uploads
                        >>= (λ uploads. ok (record changed {
                          uploads =
                              expire_detached_draft_uploads env.now id content
                                (record changed { uploads = uploads });
                        }))
                  ])
    ]

unfoldable pub update_inspection :
    Env → BranchScope → (actor id : String) → ℕ → Fields → (seen db : Tables) → Result Tables
update_inspection env scope actor id expected payload seen db =
    prepare env scope payload >>= (λ p. commit_update env scope actor p.0 id expected p.1 seen db)

-- A live report of a branch that the caller reaches.
abbrev pub is_visible : BranchScope → Report → Bool
is_visible scope r = is_live scope r && reaches scope r.branch_id

unfoldable pub get_inspection : BranchScope → String → Tables → Option Report
get_inspection scope id db = find_report id (is_visible scope) db

unfoldable pub soft_delete_inspection :
    Env → BranchScope → (actor id : String) → Tables → Bool × Tables
soft_delete_inspection env scope actor id db =
    elim (update_report id (is_visible scope)
      (λ r. record r { deleted_at = some env.now; updated_by = actor }) db) [
        | none ↦ (false, db)
        | some changed ↦ (true, changed)
      ]
