-- ===== src/Inspections/Final.antt =====
-- The end of a draft and its reopening: `finalizeInspection` and `createInspectionRevision` of
-- src/modules/inspections/inspection.service.ts. A call reads the state `seen` first, and commits
-- onto `db`; what a failed call leaves in the file storage is not modelled.
use Prim.Native.String.{◌++◌ as append}
use my_detail_os_backend.Prelude.{
  ℕ, ◌+◌, String, Bool, not, ◌&&◌, ◌||◌, List, [], ◌∷◌, Option, none, some, Dict, length, includes,
  trim, is_some, ltb, eqb, ◌==◌, if◌then◌else◌,
}
use my_detail_os_backend.Errors.{
  Result, ok, err, validation_error, not_found_error, conflict_error, plain_error, throw_if, ◌>>=◌,
  ◌>>◌,
}
use my_detail_os_backend.Json.{
  Json, null, str, arr, obj, Fields, end, field, get, put, from_list, named_fields, as_text, show,
}
use my_detail_os_backend.Scope.{BranchScope}
use my_detail_os_backend.Inspections.Conditions.{Conditions, parse_conditions}
use my_detail_os_backend.Inspections.Validation.{validate_inspection_payload}
use my_detail_os_backend.Inspections.Ratings.{
  assert_inspection_complete, snapshot_inspection_payload, shown,
}
use my_detail_os_backend.Inspections.Guards.{assert_related_records}
use my_detail_os_backend.Inspections.Records.{
  Env, Report, Version, Upload, Tables, Customer, Vehicle, Branch, Status, draft, final, is_draft,
  is_final, is_live, find_report, find_version, update_report,
}
use my_detail_os_backend.Inspections.Uploads.{upload_ids, max_photos, links_to}
use my_detail_os_backend.Inspections.Drafts.{is_visible}

-- `...(value !== undefined ? { key: value } : {})`
abbrev pub put_defined : String → Option Json → Fields → Fields
put_defined key none fs = fs
put_defined key (some v) fs = put key v fs

-- The content with the conditions that the call brings.
abbrev pub with_conditions : Conditions → Fields → Fields
with_conditions c fs =
    put_defined "vehicleConditions"
      (elim c.pins [ none ↦ none | some pins ↦ some (arr (from_list pins)) ])
      (put_defined "overallPreDriveCondition" c.overall fs)

abbrev report_branding_keys : List String
report_branding_keys =
    "businessName" ∷ "businessLogo" ∷ "businessTagline" ∷ "businessPhone" ∷ "businessWhatsApp"
    ∷ "businessEmail" ∷ "businessAddress" ∷ "businessWebsite" ∷ "brandPrimary" ∷ []

-- `organizationBranding`: the texts of the settings under the branding keys
unfoldable pub branding_of : List String → Fields → Fields
branding_of [] settings = end
branding_of (key ∷ keys) settings = elim (as_text (get key settings)) [
  | none ↦ branding_of keys settings
  | some text ↦ field key (str text) (branding_of keys settings)
]

abbrev text_or_null : Option String → Json
text_or_null none = null
text_or_null (some s) = str s

-- What the snapshot is made of: the content, and the names of everything it refers to.
unfoldable pub snapshot_source :
    (actor : String) → Option Json → Customer → Vehicle → Branch → Fields → Fields
unfolding branding_of
snapshot_source actor settings customer vehicle branch content =
    let branding =
      branding_of report_branding_keys (elim settings [ none ↦ end | some s ↦ named_fields s ]) in
    let make_model = trim (append vehicle.make (append " " vehicle.model)) in
    put "finalizedBy" (str actor) (
      put "organizationBranding" (obj branding) (
        put "branchAddress" (str branch.address) (
          put "branchName" (str branch.name) (
            put "vehicleMakeModel" (str make_model) (
              put "vehicleModel" (str vehicle.model) (
                put "vehicleMake" (str vehicle.make) (
                  put "registrationNumber" (str vehicle.registration_number) (
                    put "vehicleRegistration" (str vehicle.registration_number) (
                      put "customerEmail" (text_or_null customer.email) (
                        put "customerPhone" (str customer.phone)
                          (put "customerName" (str customer.name) content)))))))))))

-- The uploads that a report has linked, of those that it names.
unfoldable pub report_photos :
    BranchScope → (branch id : String) → List String → Dict Upload → List Upload
report_photos scope branch id ids [] = []
report_photos scope branch id ids ((key, u) ∷ us) =
    let rest = report_photos scope branch id ids us in
    if includes key ids
      && (links_to id u && (u.organization_id == scope.organization_id && u.branch_id == branch))
    then u ∷ rest
    else rest

unfoldable pub read_photos : (String → Option String) → List Upload → Result (List String)
read_photos read [] = ok []
read_photos read (u ∷ us) = elim (read u.object_key) [
  | none ↦ err (validation_error "An inspection photo is no longer available.")
  | some buffer ↦ read_photos read us >>= (λ rest. ok (buffer ∷ rest))
]

-- `snapshotInspectionPayload` of what a report refers to, where all of it is still there.
unfoldable pub take_snapshot : Env → BranchScope → (actor branch : String) → Fields → Result Fields
unfolding snapshot_source
take_snapshot env scope actor branch content =
    let customer_id = shown (get "customerId" content) in
    let gone = err (validation_error "Customer, vehicle, or branch is no longer available.") in
    elim (env.find_customer customer_id scope.organization_id) [
      | none ↦ gone
      | some customer ↦
          elim (env.find_vehicle (shown (get "vehicleId" content)) customer_id
            scope.organization_id) [
              | none ↦ gone
              | some vehicle ↦ elim (env.find_branch branch scope.organization_id) [
                | none ↦ gone
                | some place ↦
                    snapshot_inspection_payload
                      (snapshot_source actor env.app_settings customer vehicle place content)
              ]
            ]
    ]

-- The document of a snapshot: its photos are read, and it is rendered and stored.
unfoldable pub make_document :
    Env
    → BranchScope
    → (branch id : String) → ℕ
    → (content snapshot : Fields) → Dict Upload
    → Result String
unfolding report_photos read_photos
make_document env scope branch id revision content snapshot uploads =
    let ids = upload_ids content in
    let photos = report_photos scope branch id ids uploads in
    let key = append "inspection-reports/" (
      append id (
        append "/revision-"
          (append (show revision) (append "-" (append env.document_uuid ".pdf"))))) in
    throw_if (not (eqb (length photos) (length ids)) || ltb max_photos (length photos))
      (validation_error "Inspection photos are incomplete or exceed the 24-photo limit.")
    >> (read_photos env.read_asset photos >>= (λ buffers.
        env.render_pdf snapshot buffers >>= (λ pdf. env.persist_asset key >> ok key)))

abbrev pub close : Env → (actor : String) → Fields → Report → Report
close env actor snapshot r = record r {
  status = final;
  content = snapshot;
  finalized_at = some env.now;
  updated_by = actor;
}

-- A live report of the organization, at a revision and in a status.
abbrev pub is_at : BranchScope → ℕ → (Status → Bool) → Report → Bool
is_at scope revision status_is r =
    is_live scope r && (eqb r.revision revision && status_is r.status)

-- The writes of `finalizeInspection`: the report, and its version under the unique key.
unfoldable pub commit_final :
    Env → BranchScope → (actor id : String) → ℕ → Fields → String → Tables → Result Tables
commit_final env scope actor id revision snapshot key db =
    elim (update_report id (is_at scope revision is_draft) (close env actor snapshot) db) [
      | none ↦ err (conflict_error "Inspection report revision is stale.")
      | some changed ↦
          throw_if (is_some (find_version id revision changed))
            (plain_error "Unique constraint failed")
          >> ok (record changed {
            versions =
                (record {
                  report_id = id;
                  revision = revision;
                  content = snapshot;
                  document_key = key;
                  finalized_by = actor;
                })
                ∷ changed.versions;
          })
    ]

-- `finalizeInspection`, from the content that it finds
unfoldable pub finish :
    Env
    → BranchScope
    → (actor id : String) → ℕ
    → Report
    → Fields
    → (seen db : Tables) → Result Tables
finish env scope actor id revision current content seen db =
    validate_inspection_payload env.json_bytes content
    >> (assert_inspection_complete content
        >> (assert_related_records env scope current.branch_id content
            >> (take_snapshot env scope actor current.branch_id content >>= (λ snapshot.
                make_document env scope current.branch_id id revision content snapshot seen.uploads
                >>= (λ key. commit_final env scope actor id revision snapshot key db)))))

unfoldable pub finalize_inspection :
    Env
    → BranchScope
    → (actor id : String) → ℕ
    → (conditions : Fields) → (seen db : Tables) → Result Tables
unfolding finish
finalize_inspection env scope actor id revision input seen db =
    parse_conditions input >>= (λ conditions. elim (find_report id (is_visible scope) seen) [
      | none ↦ err (not_found_error "Inspection report not found.")
      | some current ↦
          throw_if (not (eqb current.revision revision))
            (conflict_error "Inspection report revision is stale.")
          >> (throw_if (not (is_draft current.status))
                (conflict_error "Only draft reports can be finalized.")
              >> finish env scope actor id revision current
                  (with_conditions conditions current.content) seen db)
    ])

-- `versions: { orderBy: { revision: "desc" }, take: 1 }`
unfoldable pub latest_version : String → List Version → Option Version
latest_version id [] = none
latest_version id (v ∷ vs) =
    let rest = latest_version id vs in
    if not (v.report_id == id)
    then rest
    else elim rest [ none ↦ some v | some w ↦ if ltb v.revision w.revision then some w else some v ]

abbrev pub reopen : (actor : String) → Fields → Report → Report
reopen actor content r = record r {
  revision = r.revision + 1;
  status = draft;
  content = content;
  finalized_at = none;
  updated_by = actor;
}

unfoldable pub create_inspection_revision :
    BranchScope → (actor id : String) → ℕ → (seen db : Tables) → Result Tables
unfolding latest_version
create_inspection_revision scope actor id revision seen db =
    elim (find_report id (is_visible scope) seen) [
      | none ↦ err (not_found_error "Inspection report not found.")
      | some current ↦
          throw_if (not (eqb current.revision revision))
            (conflict_error "Inspection report revision is stale.")
          >> elim (latest_version id seen.versions) [
            | none ↦ err (conflict_error "Only finalized reports can be revised.")
            | some v ↦
                throw_if (is_draft current.status)
                  (conflict_error "Only finalized reports can be revised.")
                >> elim (update_report id (is_at scope revision is_final) (reopen actor v.content)
                    db) [
                      | none ↦ err (conflict_error "Inspection report revision is stale.")
                      | some changed ↦ ok changed
                    ]
          ]
    ]
