-- ===== src/Inspections/Uploads.antt =====
-- Photos of inspection reports (src/modules/inspections/inspection.service.ts): which a report names,
-- and how they are linked to it and let go.
pub mod Bound
use my_detail_os_backend.Prelude.{
  ℕ, zero, ◌+◌, ◌*◌, String, Bool, true, false, not, ◌&&◌, ◌||◌, List, [], ◌∷◌, ◌++◌, map, filter,
  any, all, length, Option, none, some, Dict, includes, is_some, get_or, ltb, eqb, ◌==◌,
  if◌then◌else◌,
}
use my_detail_os_backend.Errors.{
  Result, ok, err, validation_error, forbidden_error, conflict_error, throw_if, ◌>>=◌, ◌>>◌,
}
use my_detail_os_backend.Json.{
  Json, null, bool, num, str, arr, obj, Items, nil, cons, Fields, end, field, to_list, get,
  named_fields, is_object, as_text, truthy,
}
use my_detail_os_backend.Json.Print.{to_text}
use my_detail_os_backend.Scope.{BranchScope}
use my_detail_os_backend.Scope.Referenced.{add_id}
use my_detail_os_backend.Inspections.Ratings.{as_array, section_checkpoints}
use my_detail_os_backend.Inspections.Records.{Upload, Version, Tables}

abbrev photo_keys : List String
photo_keys = "photos" ∷ "attachments" ∷ "inspectionPhotos" ∷ []

abbrev add_text : Option Json → List String → List String
add_text (some (str s)) ids = add_id s ids
add_text _ ids = ids

-- `collectUploadIds`: the ids of photos in a value that stands under a key
unfoldable mutual
  unfolding add_id

  pub collect_upload_ids : Json → String → List String → List String
  collect_upload_ids (arr vs) parent ids = collect_items vs parent ids
  collect_upload_ids (obj fs) parent ids =
      collect_fields fs (if includes parent photo_keys then add_text (get "id" fs) ids else ids)
  collect_upload_ids _ parent ids = ids

  pub collect_items : Items → String → List String → List String
  collect_items nil parent ids = ids
  collect_items (cons v vs) parent ids = collect_items vs parent (collect_upload_ids v parent ids)

  pub collect_fields : Fields → List String → List String
  collect_fields end ids = ids
  collect_fields (field key child fs) ids = collect_fields fs (
      collect_upload_ids child key
        (if includes key ("photoId" ∷ "uploadId" ∷ []) then add_text (some child) ids else ids))

abbrev pub upload_ids : Fields → List String
upload_ids payload = collect_upload_ids (obj payload) "" []

abbrev add_checkpoint : Json → List String → List String
add_checkpoint (obj fs) ids = add_text (get "id" fs) ids
add_checkpoint _ ids = ids

unfoldable pub add_checkpoints : List Json → List String → List String
unfolding add_id
add_checkpoints [] ids = ids
add_checkpoints (c ∷ cs) ids = add_checkpoints cs (add_checkpoint c ids)

-- `checkpointIds`
unfoldable pub checkpoint_ids : List Json → List String → List String
unfolding add_checkpoints
checkpoint_ids [] ids = ids
checkpoint_ids (section ∷ sections) ids =
    checkpoint_ids sections (add_checkpoints (section_checkpoints (named_fields section)) ids)

-- `validatePhotoAssociations`: no value at any depth names a checkpoint outside the report.
unfoldable mutual
  pub is_associated : List String → Json → Bool
  is_associated ids (arr vs) = is_associated_items ids vs
  is_associated ids (obj fs) =
      (not (truthy (get "checkpointId" fs))
        || includes (to_text (get_or (get "checkpointId" fs) null)) ids)
      && is_associated_fields ids fs
  is_associated ids _ = true

  pub is_associated_items : List String → Items → Bool
  is_associated_items ids nil = true
  is_associated_items ids (cons v vs) = is_associated ids v && is_associated_items ids vs

  pub is_associated_fields : List String → Fields → Bool
  is_associated_fields ids end = true
  is_associated_fields ids (field key child fs) =
      is_associated ids child && is_associated_fields ids fs

abbrev pub max_photos : ℕ
max_photos = 24

-- Whether an upload is linked to the report.
abbrev pub links_to : String → Upload → Bool
links_to report u = elim u.report_id [ none ↦ false | some r ↦ r == report ]

abbrev is_pending : Upload → Bool
is_pending u = not (is_some u.report_id)

-- An upload that may be linked: of this organization and branch, not being cleaned up, and of no
-- other report.
unfoldable pub is_linkable : BranchScope → String → String → Upload → Bool
is_linkable scope branch report u =
    u.organization_id == scope.organization_id
    && u.branch_id == branch
    && not u.cleaning
    && (is_pending u || links_to report u)

-- How many uploads satisfy a condition.
unfoldable pub count_uploads : (String → Upload → Bool) → Dict Upload → ℕ
count_uploads p [] = 0
count_uploads p ((id, u) ∷ us) = (if p id u then 1 else 0) + count_uploads p us

-- `updateMany` on the uploads.
unfoldable pub update_uploads :
    (String → Upload → Bool) → (Upload → Upload) → Dict Upload → Dict Upload
update_uploads p change [] = []
update_uploads p change ((id, u) ∷ us) =
    (id, if p id u then change u else u) ∷ update_uploads p change us

abbrev pub takes : List String → String → Upload → Bool
takes ids id u = includes id ids && (is_pending u && not u.cleaning)

abbrev pub link : String → Upload → Upload
link report u = record u { report_id = some report; expires_at = none }

-- `linkPendingUploads`. The uploads are read from `seen`, and `db` is the state that is changed. The
-- links of the report are counted in it as well: the transaction has written the report's row before,
-- which keeps other calls from linking to that report until it ends.
unfoldable pub link_pending_uploads :
    BranchScope → (branch report : String) → Fields → (seen db : Dict Upload) → Result (Dict Upload)
unfolding is_linkable count_uploads update_uploads checkpoint_ids
link_pending_uploads scope branch report payload seen db =
    let ids = upload_ids payload in
    let sections = get_or (as_array (get "sections" payload)) [] in
    let found = λ (id : String) (u : Upload). includes id ids in
    let pending = count_uploads (λ id u. includes id ids && is_pending u) seen in
    if eqb (length ids) 0
    then ok db
    else throw_if (ltb max_photos (length ids))
        (validation_error "Inspection reports may contain at most 24 photos.")
      >> (throw_if (not (is_associated (checkpoint_ids sections []) (obj payload)))
            (validation_error "A photo references a checkpoint outside this report.")
          >> (throw_if
                (not (eqb (count_uploads found seen) (length ids))
                  || not (
                      eqb
                        (count_uploads
                          (λ id u. includes id ids && not (is_linkable scope branch report u)) seen)
                        0))
                (forbidden_error
                  "One or more inspection photos are unavailable or belong to another report.")
              >> (throw_if (ltb max_photos (count_uploads (λ id u. links_to report u) db + pending))
                    (validation_error "Inspection reports may contain at most 24 photos.")
                  >> (throw_if (not (eqb (count_uploads (takes ids) db) pending)) (
                        conflict_error
                          "One or more inspection photos expired while the report was saving.")
                      >> ok (update_uploads (takes ids) (link report) db)))))

abbrev pub day_ms : ℕ
day_ms = 24 * 60 * 60 * 1000

abbrev pub detach : ℕ → Upload → Upload
detach now u = record u { report_id = none; expires_at = some (now + day_ms) }

-- `retainedPhotoIds`: the photos of the versions of a report
unfoldable pub retained_ids : String → List Version → List String → List String
retained_ids report [] ids = ids
retained_ids report (v ∷ vs) ids =
    retained_ids report vs
      (if v.report_id == report then collect_upload_ids (obj v.content) "" ids else ids)

-- `expireDetachedDraftUploads`
unfoldable pub expire_detached_draft_uploads : ℕ → String → Fields → Tables → Dict Upload
unfolding retained_ids update_uploads
expire_detached_draft_uploads now report payload db =
    let current = upload_ids payload in
    let retained = retained_ids report db.versions [] in
    update_uploads
      (λ id u. links_to report u && (not (includes id current) && not (includes id retained)))
      (detach now) db.uploads
