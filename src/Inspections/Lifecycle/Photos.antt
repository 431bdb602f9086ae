-- ===== src/Inspections/Lifecycle/Photos.antt =====
-- The photos of inspection reports along any sequence of calls
-- (src/modules/inspections/inspection.service.ts).
use my_detail_os_backend.Prelude.{
  ℕ, ◌≤◌, String, Bool, some, Dict, lookup, is_some, ◌≡◌, refl, ap, sym, arith, Option-cases, inl,
  inr,
}
use my_detail_os_backend.Errors.{
  ok, ok_inj, absurd_err, >>=-eq-ok, guard-eq-ok, plain_error, Result-cases,
}
use my_detail_os_backend.Json.{Fields}
use my_detail_os_backend.Scope.{BranchScope}
use my_detail_os_backend.Inspections.Records.{
  Env, Report, Upload, Tables, update_report, find_report,
}
use my_detail_os_backend.Inspections.Uploads.{link_pending_uploads, max_photos, count_uploads}
use my_detail_os_backend.Inspections.Uploads.Bound.{
  linked, IsBounded, link_pending_uploads-IsBounded, expire-IsBounded, claim_upload-IsBounded,
  remove_claimed-IsBounded, release_claim-IsBounded, insert-IsBounded, erase-IsBounded,
}
use my_detail_os_backend.Inspections.Drafts.{
  create_inspection, commit_create, update_inspection, soft_delete_inspection, prepare, edit,
  is_editable,
}
use my_detail_os_backend.Inspections.Final.{commit_final, create_inspection_revision}
use my_detail_os_backend.Inspections.Photos.{
  Picture, accept_photo, photo_key, new_upload, upload_inspection_photo,
}
use my_detail_os_backend.Inspections.Lifecycle.{update_report_cases}
use my_detail_os_backend.Inspections.Lifecycle.Moves.{
  finalize_inspection_commits, commit_update_cases, write_draft,
}
use my_detail_os_backend.Inspections.Lifecycle.Sound.{no_reports}
use my_detail_os_backend.Inspections.Lifecycle.History.{
  Step, create, update, finalize, revise, discard, upload, claim, remove, release, Reach, here,
  next,
}

update_report-uploads :
    (id : String) (where_ : Report → Bool) (change : Report → Report) (db : Tables) {db' : Tables}
    → update_report id where_ change db ≡ some db'
    → db'.uploads ≡ db.uploads
update_report-uploads id where_ change db h =
    let (r, found, holds, same) = update_report_cases id where_ change db h in
    ap (λ d. d.uploads) (sym same)

commit_final-uploads :
    (env : Env) (scope : BranchScope) (actor id : String) (revision : ℕ) (snapshot : Fields)
    (key : String) (db : Tables) {db' : Tables}
    → commit_final env scope actor id revision snapshot key db ≡ ok db'
    → db'.uploads ≡ db.uploads
unfolding commit_final update_report find_report
commit_final-uploads env scope actor id revision snapshot key db h =
    ground (arith, Option-cases (lookup id db.reports))

create_inspection_revision-uploads :
    (scope : BranchScope) (actor id : String) (revision : ℕ) (seen db : Tables) {db' : Tables}
    → create_inspection_revision scope actor id revision seen db ≡ ok db'
    → db'.uploads ≡ db.uploads
unfolding create_inspection_revision update_report find_report
create_inspection_revision-uploads scope actor id revision seen db h =
    ground (arith, Option-cases (lookup id db.reports))

soft_delete_inspection-uploads :
    (env : Env) (scope : BranchScope) (actor id : String) (db : Tables)
    → (soft_delete_inspection env scope actor id db).1.uploads ≡ db.uploads
unfolding soft_delete_inspection update_report find_report
soft_delete_inspection-uploads env scope actor id db =
    ground (arith, Option-cases (lookup id db.reports))

create_inspection-IsBounded :
    (env : Env) (scope : BranchScope) (actor : String) (payload : Fields) (seen db : Tables)
    {db' : Tables}
    → create_inspection env scope actor payload seen db ≡ ok db'
    → IsBounded db.uploads
    → IsBounded db'.uploads
unfolding create_inspection commit_create
create_inspection-IsBounded env scope actor payload seen db h bound =
    let (p, ready, done) = >>=-eq-ok (prepare env scope payload) _ h in
    let (free, rest) =
      guard-eq-ok (is_some (lookup env.fresh_id db.reports))
        (plain_error "Unique constraint failed") _ done in
    let (us, linked_, last) =
      >>=-eq-ok (link_pending_uploads scope p.0 env.fresh_id p.1 seen.uploads db.uploads) _ rest in
    rw (← ok_inj last) (
      link_pending_uploads-IsBounded scope p.0 env.fresh_id p.1 seen.uploads db.uploads linked_
        bound)

update_inspection-IsBounded :
    (env : Env) (scope : BranchScope) (actor id : String) (expected : ℕ) (payload : Fields)
    (seen db : Tables) {db' : Tables}
    → update_inspection env scope actor id expected payload seen db ≡ ok db'
    → IsBounded db.uploads
    → IsBounded db'.uploads
unfolding update_inspection
update_inspection-IsBounded env scope actor id expected payload seen db h bound =
    let (p, ready, done) = >>=-eq-ok (prepare env scope payload) _ h in
    let write = commit_update_cases env scope actor id expected p.0 p.1 seen db done in
    elim (Option-cases (update_report id (is_editable scope p.0 expected) (edit actor p.1) db)) [
      | inl e ↦ absurd_err (rw (write_draft, e) at write)
      | inr (changed, e) ↦
          let (us, linked_, last) =
            >>=-eq-ok (link_pending_uploads scope p.0 id p.1 seen.uploads changed.uploads) _
              (rw (write_draft, e) at write) in
          let before : IsBounded changed.uploads =
            rw (update_report-uploads id (is_editable scope p.0 expected) (edit actor p.1) db e)
              bound in
          let after =
            link_pending_uploads-IsBounded scope p.0 id p.1 seen.uploads changed.uploads linked_
              before in
          rw (← ok_inj last)
            (expire-IsBounded env.now id p.1 (record changed { uploads = us }) after)
    ]

upload_inspection_photo-IsBounded :
    (env : Env) (scope : BranchScope) (actor branch : String) (size : ℕ) (picture : Picture)
    (declared : String) (us : Dict Upload)
    → IsBounded us
    → IsBounded (upload_inspection_photo env scope actor branch size picture declared us).1
unfolding upload_inspection_photo
upload_inspection_photo-IsBounded env scope actor branch size picture declared us bound =
    elim (Result-cases (accept_photo env scope branch size picture declared us)) [
      | inl (e, h) ↦ rw (upload_inspection_photo, h) bound
      | inr (image, h) ↦
          let key = photo_key env scope branch image.extension in
          let kept =
            insert-IsBounded env.fresh_id (new_upload env scope actor branch key image.mime_type) us
              refl bound in
          elim (Result-cases (env.persist_asset key)) [
            | inl (e, k) ↦ rw (upload_inspection_photo, h, k) (erase-IsBounded env.fresh_id _ kept)
            | inr (u, k) ↦ rw (upload_inspection_photo, h, k) kept
          ]
    ]

Step-IsBounded : {db db' : Tables} → Step db db' → IsBounded db.uploads → IsBounded db'.uploads
Step-IsBounded (create env scope actor payload seen h) bound =
    create_inspection-IsBounded env scope actor payload seen _ h bound
Step-IsBounded (update env scope actor id expected payload seen h) bound =
    update_inspection-IsBounded env scope actor id expected payload seen _ h bound
Step-IsBounded (finalize env scope actor id revision input seen h) bound =
    let (snapshot, key, done) =
      finalize_inspection_commits env scope actor id revision input seen _ h in
    rw (commit_final-uploads env scope actor id revision snapshot key _ done) bound
Step-IsBounded (revise env scope actor id revision seen h) bound =
    rw (create_inspection_revision-uploads scope actor id revision seen _ h) bound
Step-IsBounded (discard env scope actor id h) bound =
    rw (h, soft_delete_inspection-uploads env scope actor id _) bound
Step-IsBounded (upload env scope actor branch size picture declared h) bound =
    rw h (upload_inspection_photo-IsBounded env scope actor branch size picture declared _ bound)
Step-IsBounded (claim now id found h) bound = rw h (claim_upload-IsBounded now id _ found bound)
Step-IsBounded (remove id h) bound = rw h (remove_claimed-IsBounded id _ bound)
Step-IsBounded (release id h) bound = rw h (release_claim-IsBounded id _ bound)

no_reports-IsBounded : IsBounded no_reports.uploads
unfolding linked count_uploads
no_reports-IsBounded j = omega arith

Reach-IsBounded : {db : Tables} → Reach no_reports db → IsBounded db.uploads
Reach-IsBounded here = no_reports-IsBounded
Reach-IsBounded (next reach s) = Step-IsBounded s (Reach-IsBounded reach)

-- No report ever has more than 24 photos, whatever is called from the empty tables on, in any
-- interleaving.
pub at_most_24_photos :
    (report : String) {db : Tables} → Reach no_reports db → linked report db.uploads ≤ max_photos
at_most_24_photos report reach = Reach-IsBounded reach report
