-- ===== src/Inspections/Lifecycle/History.antt =====
-- Sequences of calls on inspection reports, by any callers and in any interleaving of their commits:
-- what every reachable state keeps (src/modules/inspections/inspection.service.ts).
use my_detail_os_backend.Prelude.{ℕ, String, List, some, ◌≡◌, ap}
use my_detail_os_backend.Errors.{ok}
use my_detail_os_backend.Json.{Fields}
use my_detail_os_backend.Scope.{BranchScope}
use my_detail_os_backend.Inspections.Records.{Env, Version, Upload, Tables, find_version}
use my_detail_os_backend.Inspections.Drafts.{
  create_inspection, update_inspection, soft_delete_inspection,
}
use my_detail_os_backend.Inspections.Final.{finalize_inspection, create_inspection_revision}
use my_detail_os_backend.Inspections.Photos.{
  Picture, upload_inspection_photo, claim_upload, remove_claimed, release_claim,
}
use my_detail_os_backend.Inspections.Lifecycle.{Move, quiet}
use my_detail_os_backend.Inspections.Lifecycle.Moves.{
  create_inspection-Move, update_inspection-Move, finalize_inspection-Move,
  create_inspection_revision-Move, soft_delete_inspection-Move,
}
use my_detail_os_backend.Inspections.Lifecycle.Versions.{Move-Keeps}
use my_detail_os_backend.Inspections.Lifecycle.Sound.{
  IsSound, no_reports, empty-IsSound, Move-IsSound,
}

-- One commit onto `db`. What the call read before, `seen`, is any state: it may be long out of date.
pub data Step (db db' : Tables) : Type 0 where
  create :
      (env : Env) (scope : BranchScope) (actor : String) (payload : Fields) (seen : Tables)
      → create_inspection env scope actor payload seen db ≡ ok db'
      → Step db db'
  update :
      (env : Env) (scope : BranchScope) (actor id : String) (expected : ℕ) (payload : Fields)
      (seen : Tables)
      → update_inspection env scope actor id expected payload seen db ≡ ok db'
      → Step db db'
  finalize :
      (env : Env) (scope : BranchScope) (actor id : String) (revision : ℕ) (input : Fields)
      (seen : Tables)
      → finalize_inspection env scope actor id revision input seen db ≡ ok db'
      → Step db db'
  revise :
      (env : Env) (scope : BranchScope) (actor id : String) (revision : ℕ) (seen : Tables)
      → create_inspection_revision scope actor id revision seen db ≡ ok db'
      → Step db db'
  discard :
      (env : Env) (scope : BranchScope) (actor id : String)
      → db' ≡ (soft_delete_inspection env scope actor id db).1
      → Step db db'
  upload :
      (env : Env) (scope : BranchScope) (actor branch : String) (size : ℕ) (picture : Picture)
      (declared : String)
      → db' ≡ record db {
        uploads =
            (upload_inspection_photo env scope actor branch size picture declared db.uploads).1;
      }
      → Step db db'
  claim :
      (now : ℕ) (id : String) {uploads : List (String × Upload)}
      → claim_upload now id db.uploads ≡ some uploads
      → db' ≡ record db { uploads = uploads }
      → Step db db'
  remove : (id : String) → db' ≡ record db { uploads = remove_claimed id db.uploads } → Step db db'
  release : (id : String) → db' ≡ record db { uploads = release_claim id db.uploads } → Step db db'

pub data Reach (start : Tables) : Tables → Type 0 where
  here : Reach start start
  next : {db db' : Tables} → Reach start db → Step db db' → Reach start db'

-- The organization that a commit is for.
abbrev pub caller_of : {db db' : Tables} → Step db db' → String
caller_of (create env scope actor payload seen h) = scope.organization_id
caller_of (update env scope actor id expected payload seen h) = scope.organization_id
caller_of (finalize env scope actor id revision input seen h) = scope.organization_id
caller_of (revise env scope actor id revision seen h) = scope.organization_id
caller_of (discard env scope actor id h) = scope.organization_id
caller_of (upload env scope actor branch size picture declared h) = scope.organization_id
caller_of (claim now id found h) = ""
caller_of (remove id h) = ""
caller_of (release id h) = ""

-- Every commit does one of six things, for the organization of its caller. It opens a live draft at
-- revision 1 under an id that is free; turns a live draft, or a live final report, into a live draft
-- whose revision is one higher; turns a live draft into a live final report of the same revision, and
-- adds, under a key that is free, a version with that revision and the content of the report; marks a
-- live report as deleted and keeps its status, revision and content; or leaves all reports and versions
-- alone. A report that is there keeps its organization, branch, number and creator; no other report
-- changes, and no other version.
pub Step-Move : {db db' : Tables} (s : Step db db') → Move (caller_of s) db db'
Step-Move (create env scope actor payload seen h) =
    create_inspection-Move env scope actor payload seen _ h
Step-Move (update env scope actor id expected payload seen h) =
    update_inspection-Move env scope actor id expected payload seen _ h
Step-Move (finalize env scope actor id revision input seen h) =
    finalize_inspection-Move env scope actor id revision input seen _ h
Step-Move (revise env scope actor id revision seen h) =
    create_inspection_revision-Move env scope actor id revision seen _ h
Step-Move (discard env scope actor id h) = rw h (soft_delete_inspection-Move env scope actor id _)
Step-Move (upload env scope actor branch size picture declared h) =
    quiet (ap (λ d. d.reports) h) (ap (λ d. d.versions) h)
Step-Move (claim now id found h) = quiet (ap (λ d. d.reports) h) (ap (λ d. d.versions) h)
Step-Move (remove id h) = quiet (ap (λ d. d.reports) h) (ap (λ d. d.versions) h)
Step-Move (release id h) = quiet (ap (λ d. d.reports) h) (ap (λ d. d.versions) h)

-- A version of a report is final: whatever is called after, in any interleaving, the version of a
-- revision stays as it was stored, with its document.
pub version_stays :
    (id : String) (revision : ℕ) {v : Version} {db db' : Tables}
    → Reach db db'
    → find_version id revision db ≡ some v
    → find_version id revision db' ≡ some v
version_stays id revision here found = found
version_stays id revision (next r s) found =
    Move-Keeps (caller_of s) _ _ (Step-Move s) id revision _ (version_stays id revision r found)

-- Whatever is called, in any interleaving, from the empty tables on: a version is of a report that
-- is there, and not of a later revision; a draft has no version of its revision; and a final report
-- has a version of its revision with its content.
pub reachable-IsSound : {db : Tables} → Reach no_reports db → IsSound db
reachable-IsSound here = empty-IsSound
reachable-IsSound (next r s) = Move-IsSound (caller_of s) _ _ (Step-Move s) (reachable-IsSound r)
