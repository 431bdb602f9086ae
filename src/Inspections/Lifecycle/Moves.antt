-- ===== src/Inspections/Lifecycle/Moves.antt =====
-- Every operation on reports of src/modules/inspections/inspection.service.ts keeps to the contract.
use my_detail_os_backend.Prelude.{
  ℕ, String, true, false, not, Option, none, some, lookup, insert, is_some, eqb, ◌≡◌, refl, ap, sym,
  ◌∙◌, arith, Option-cases, and_split, inl, inr,
}
use my_detail_os_backend.Errors.{
  Result, ok, err, ok_inj, absurd_err, >>=-eq-ok, guard-eq-ok, ◌>>=◌, plain_error, conflict_error,
}
use my_detail_os_backend.Json.{Fields}
use my_detail_os_backend.Scope.{BranchScope}
use my_detail_os_backend.Inspections.Records.{
  Env, Report, Tables, is_draft, is_final, is_live, find_report, update_report, find_version,
}
use my_detail_os_backend.Inspections.Uploads.{link_pending_uploads, expire_detached_draft_uploads}
use my_detail_os_backend.Inspections.Conditions.{parse_conditions}
use my_detail_os_backend.Inspections.Validation.{validate_inspection_payload}
use my_detail_os_backend.Inspections.Ratings.{assert_inspection_complete}
use my_detail_os_backend.Inspections.Guards.{assert_related_records}
use my_detail_os_backend.Inspections.Drafts.{
  new_report, commit_create, create_inspection, edit, commit_update, update_inspection, is_visible,
  is_editable, in_branch, soft_delete_inspection, prepare,
}
use my_detail_os_backend.Inspections.Final.{
  close, commit_final, finish, finalize_inspection, reopen, create_inspection_revision, is_at,
  take_snapshot, make_document, with_conditions, latest_version,
}
use my_detail_os_backend.Inspections.Lifecycle.{
  Move, opened, edited, closed, reopened, discarded, quiet, update_report_cases, is_live-IsLive,
  is_draft-eq, is_final-eq, edit-Redrafts, reopen-Redrafts, close-Closes, discard-Discards,
}

not_some : {A : Type 0} (o : Option A) → is_some o ≡ false → o ≡ none
not_some none h = refl
not_some (some a) h = cc

no_version :
    (id : String) (revision expected : ℕ) (changed db : Tables)
    → eqb revision expected ≡ true
    → changed.versions ≡ db.versions
    → is_some (find_version id expected changed) ≡ false
    → find_version id revision db ≡ none
unfolding find_version
no_version id revision expected changed db same kept h =
    let e : revision ≡ expected = ground arith in
    rw (e, ← kept) (not_some (find_version id expected changed) h)

module _ (env : Env) (scope : BranchScope) (actor : String) where
  commit_create-Move :
      (branch : String) (content : Fields) (seen db : Tables) {db' : Tables}
      → commit_create env scope actor branch content seen db ≡ ok db'
      → Move scope.organization_id db db'
  unfolding commit_create
  commit_create-Move branch content seen db h =
      let (free, rest) =
        guard-eq-ok (is_some (lookup env.fresh_id db.reports))
          (plain_error "Unique constraint failed") _ h in
      let (uploads, linked, done) =
        >>=-eq-ok (link_pending_uploads scope branch env.fresh_id content seen.uploads db.uploads) _
          rest in
      opened env.fresh_id (new_report env scope actor branch content)
        (not_some (lookup env.fresh_id db.reports) free) (refl, refl) refl refl
        (ap (λ d. d.reports) (sym (ok_inj done))) (ap (λ d. d.versions) (sym (ok_inj done)))

  pub create_inspection-Move :
      (payload : Fields) (seen db : Tables) {db' : Tables}
      → create_inspection env scope actor payload seen db ≡ ok db'
      → Move scope.organization_id db db'
  unfolding create_inspection
  create_inspection-Move payload seen db h =
      let (p, ready, done) = >>=-eq-ok (prepare env scope payload) _ h in
      commit_create-Move p.0 p.1 seen db done

  -- A call that writes has found the report.
  module _ (id : String) (expected : ℕ) (branch : String) (content : Fields) where
    abbrev pub write_draft : (seen db : Tables) → Result Tables
    write_draft seen db =
        elim (update_report id (is_editable scope branch expected) (edit actor content) db) [
          | none ↦ err (conflict_error "Inspection report revision is stale.")
          | some changed ↦
              link_pending_uploads scope branch id content seen.uploads changed.uploads
              >>= (λ uploads. ok (record changed {
                uploads =
                    expire_detached_draft_uploads env.now id content
                      (record changed { uploads = uploads });
              }))
        ]

    pub commit_update_cases :
        (seen db : Tables) {db' : Tables}
        → commit_update env scope actor branch id expected content seen db ≡ ok db'
        → write_draft seen db ≡ ok db'
    unfolding commit_update
    commit_update_cases seen db h =
        elim (Option-cases (find_report id (in_branch scope branch) seen)) [
          | inl e ↦ absurd_err (rw (commit_update, e) at h)
          | inr (current, e) ↦
              let (fresh, rest) =
                guard-eq-ok (not (eqb current.revision expected))
                  (conflict_error "Inspection report revision is stale.") _
                  (rw (commit_update, e) at h) in
              let (open_, done) =
                guard-eq-ok (not (is_draft current.status))
                  (conflict_error "Finalized inspection reports are read-only.") _ rest in
              done
        ]

    pub write_draft_cases :
        (seen db : Tables) {db' : Tables}
        → write_draft seen db ≡ ok db'
        → (r : Report) × (lookup id db.reports ≡ some r)
          × (is_editable scope branch expected r ≡ true)
          × (db'.reports ≡ insert id (edit actor content r) db.reports)
          × (db'.versions ≡ db.versions)
    write_draft_cases seen db h =
        elim (Option-cases
          (update_report id (is_editable scope branch expected) (edit actor content) db)) [
            | inl e ↦ absurd_err (rw (write_draft, e) at h)
            | inr (changed, e) ↦
                let (r, found, holds, same) =
                  update_report_cases id (is_editable scope branch expected) (edit actor content) db
                    e in
                let (uploads, linked, done) =
                  >>=-eq-ok
                    (link_pending_uploads scope branch id content seen.uploads changed.uploads) _
                    (rw (write_draft, e) at h) in
                let last = ok_inj done in
                (
                  r,
                  found,
                  holds,
                  ap (λ d. d.reports) (sym last) ∙ ap (λ d. d.reports) (sym same),
                  ap (λ d. d.versions) (sym last) ∙ ap (λ d. d.versions) (sym same),
                )
          ]

  -- What the update of a report that it finds establishes.
  pub commit_update_found :
      (branch id : String) (expected : ℕ) (content : Fields) (seen db : Tables) {db' : Tables}
      → commit_update env scope actor branch id expected content seen db ≡ ok db'
      → (r : Report) × (lookup id db.reports ≡ some r)
        × (is_editable scope branch expected r ≡ true)
        × (db'.reports ≡ insert id (edit actor content r) db.reports)
        × (db'.versions ≡ db.versions)
  commit_update_found branch id expected content seen db h =
      write_draft_cases id expected branch content seen db
        (commit_update_cases id expected branch content seen db h)

  pub update_inspection-Move :
      (id : String) (expected : ℕ) (payload : Fields) (seen db : Tables) {db' : Tables}
      → update_inspection env scope actor id expected payload seen db ≡ ok db'
      → Move scope.organization_id db db'
  unfolding update_inspection
  update_inspection-Move id expected payload seen db h =
      let (p, ready, done) = >>=-eq-ok (prepare env scope payload) _ h in
      let (r, found, holds, reports, versions) =
        commit_update_found p.0 id expected p.1 seen db done in
      let (live, at) = and_split (in_branch scope p.0 r) _ holds in
      let is_live_now = is_live-IsLive scope r (and_split _ _ live).0 in
      let is_draft_now = is_draft-eq r.status (and_split (eqb r.revision expected) _ at).1 in
      edited id r (edit actor p.1 r) found is_live_now is_draft_now
        (edit-Redrafts actor p.1 r is_live_now.1 is_draft_now) reports versions

  finish_commits :
      (id : String) (revision : ℕ) (current : Report) (content : Fields) (seen db : Tables)
      {db' : Tables}
      → finish env scope actor id revision current content seen db ≡ ok db'
      → (snapshot : Fields) × (key : String) × (commit_final env scope actor id revision snapshot
            key db
          ≡ ok db')
  unfolding finish
  finish_commits id revision current content seen db h =
      let (u, valid, h1) = >>=-eq-ok (validate_inspection_payload env.json_bytes content) _ h in
      let (u', complete, h2) = >>=-eq-ok (assert_inspection_complete content) _ h1 in
      let (u'', related, h3) =
        >>=-eq-ok (assert_related_records env scope current.branch_id content) _ h2 in
      let (snapshot, taken, h4) =
        >>=-eq-ok (take_snapshot env scope actor current.branch_id content) _ h3 in
      let (key, made, h5) =
        >>=-eq-ok
          (make_document env scope current.branch_id id revision content snapshot seen.uploads) _
          h4 in
      (snapshot, key, h5)

  -- A call that returns has committed a snapshot and the key of its document.
  pub finalize_inspection_commits :
      (id : String) (revision : ℕ) (input : Fields) (seen db : Tables) {db' : Tables}
      → finalize_inspection env scope actor id revision input seen db ≡ ok db'
      → (snapshot : Fields) × (key : String) × (commit_final env scope actor id revision snapshot
            key db
          ≡ ok db')
  unfolding finalize_inspection
  finalize_inspection_commits id revision input seen db h =
      let (conditions, parsed, rest) = >>=-eq-ok (parse_conditions input) _ h in
      elim (Option-cases (find_report id (is_visible scope) seen)) [
        | inl e ↦ absurd_err (rw e at rest)
        | inr (current, e) ↦
            let (fresh, h1) =
              guard-eq-ok (not (eqb current.revision revision))
                (conflict_error "Inspection report revision is stale.") _ (rw e at rest) in
            let (open_, h2) =
              guard-eq-ok (not (is_draft current.status))
                (conflict_error "Only draft reports can be finalized.") _ h1 in
            finish_commits id revision current (with_conditions conditions current.content) seen db
              h2
      ]

  commit_final-Move :
      (id : String) (revision : ℕ) (snapshot : Fields) (key : String) (db : Tables) {db' : Tables}
      → commit_final env scope actor id revision snapshot key db ≡ ok db'
      → Move scope.organization_id db db'
  unfolding commit_final
  commit_final-Move id revision snapshot key db h =
      elim (Option-cases
        (update_report id (is_at scope revision is_draft) (close env actor snapshot) db)) [
          | inl e ↦ absurd_err (rw (commit_final, e) at h)
          | inr (changed, e) ↦
              let (r, found, holds, same) =
                update_report_cases id (is_at scope revision is_draft) (close env actor snapshot) db
                  e in
              let (live, at) = and_split (is_live scope r) _ holds in
              let (revision_is, status_is) = and_split (eqb r.revision revision) _ at in
              let (unique, done) =
                guard-eq-ok (is_some (find_version id revision changed))
                  (plain_error "Unique constraint failed") _ (rw (commit_final, e) at h) in
              let kept = ap (λ d. d.versions) (sym same) in
              let last = ok_inj done in
              let revision_eq : r.revision ≡ revision = ground arith in
              let is_live_now = is_live-IsLive scope r live in
              closed id r (close env actor snapshot r) key found is_live_now
                (is_draft-eq r.status status_is) (close-Closes env actor snapshot r is_live_now.1)
                (no_version id r.revision revision changed db revision_is kept unique)
                (ap (λ d. d.reports) (sym last) ∙ ap (λ d. d.reports) (sym same))
                (ap (λ d. d.versions) (sym last) ∙ rw (kept, revision_eq) refl)
        ]

  pub finalize_inspection-Move :
      (id : String) (revision : ℕ) (input : Fields) (seen db : Tables) {db' : Tables}
      → finalize_inspection env scope actor id revision input seen db ≡ ok db'
      → Move scope.organization_id db db'
  finalize_inspection-Move id revision input seen db h =
      let (snapshot, key, done) = finalize_inspection_commits id revision input seen db h in
      commit_final-Move id revision snapshot key db done

  pub create_inspection_revision-Move :
      (id : String) (revision : ℕ) (seen db : Tables) {db' : Tables}
      → create_inspection_revision scope actor id revision seen db ≡ ok db'
      → Move scope.organization_id db db'
  unfolding create_inspection_revision
  create_inspection_revision-Move id revision seen db h =
      elim (Option-cases (find_report id (is_visible scope) seen)) [
        | inl e ↦ absurd_err (rw (create_inspection_revision, e) at h)
        | inr (current, e) ↦
            let (fresh, h1) =
              guard-eq-ok (not (eqb current.revision revision))
                (conflict_error "Inspection report revision is stale.") _
                (rw (create_inspection_revision, e) at h) in
            elim (Option-cases (latest_version id seen.versions)) [
              | inl f ↦ absurd_err (rw f at h1)
              | inr (v, f) ↦
                  let (closed_, h2) =
                    guard-eq-ok (is_draft current.status)
                      (conflict_error "Only finalized reports can be revised.") _ (rw f at h1) in
                  elim (Option-cases (
                    update_report id (is_at scope revision is_final) (reopen actor v.content) db)) [
                      | inl g ↦ absurd_err (rw g at h2)
                      | inr (changed, g) ↦
                          let (r, found, holds, same) =
                            update_report_cases id (is_at scope revision is_final)
                              (reopen actor v.content) db g in
                          let (live, at) = and_split (is_live scope r) _ holds in
                          let last = ok_inj (rw g at h2) in
                          let is_live_now = is_live-IsLive scope r live in
                          reopened id r (reopen actor v.content r) found is_live_now
                            (is_final-eq r.status (and_split (eqb r.revision revision) _ at).1)
                            (reopen-Redrafts actor v.content r is_live_now.1)
                            (ap (λ d. d.reports) (sym last) ∙ ap (λ d. d.reports) (sym same))
                            (ap (λ d. d.versions) (sym last) ∙ ap (λ d. d.versions) (sym same))
                    ]
            ]
      ]

  pub soft_delete_inspection-Move :
      (id : String) (db : Tables)
      → Move scope.organization_id db (soft_delete_inspection env scope actor id db).1
  unfolding soft_delete_inspection
  soft_delete_inspection-Move id db =
      let discard : Report → Report =
        λ r. record r { deleted_at = some env.now; updated_by = actor } in
      elim (Option-cases (update_report id (is_visible scope) discard db)) [
        | inl e ↦ rw (soft_delete_inspection, e) (quiet refl refl)
        | inr (changed, e) ↦
            let (r, found, holds, same) = update_report_cases id (is_visible scope) discard db e in
            rw (soft_delete_inspection, e)
              (discarded id r (discard r) found
                (is_live-IsLive scope r (and_split (is_live scope r) _ holds).0)
                (discard-Discards actor env.now r) (ap (λ d. d.reports) (sym same))
                (ap (λ d. d.versions) (sym same)))
      ]
