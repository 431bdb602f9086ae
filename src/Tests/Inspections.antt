-- ===== src/Tests/Inspections.antt =====
-- Inspection reports at concrete data (src/modules/inspections).
use mathlib.Core.Bool.{false≢true}
use my_detail_os_backend.Prelude.{
  if◌then◌else◌, ◌==◌, not, eq_iff, ◌≤◌, sym, ◌∙◌, String, true, false, [], ◌∷◌, Option, none, some,
  lookup, map, ◌≡◌, ◌↔◌, refl, contains, insert, to_lower, to_upper, trim, utf16_length,
}
use my_detail_os_backend.Errors.{Result, ok, err}
use my_detail_os_backend.Json.{
  Json, str, arr, obj, nil, cons, Fields, end, field, get, truthy, put, remove, show, spread_onto,
  own_fields,
}
use my_detail_os_backend.Scope.{
  BranchScope, is_payload_in_branch_scope, payload_branch_id, transfer_in_scope,
}
use my_detail_os_backend.Inspections.Records.{
  Env, Report, Version, Tables, draft, find_version, find_report, update_report,
}
use my_detail_os_backend.Inspections.Conditions.{
  Conditions, parse_conditions, normalize_inspection_conditions, parse_all_pins, parse_name,
  parse_notes, parse_overall, parse_percent, parse_pin, parse_pin_type, parse_pins, parse_positive,
  pins_differ,
}
use my_detail_os_backend.Inspections.Validation.{
  validate_inspection_payload, max_report_bytes, max_checkpoints, check_field, checkpoints_in,
  is_bad_odometer, is_bad_rating, lists_checkpoints, visit,
}
use my_detail_os_backend.Inspections.Validation.Exact.{
  is_clean, checkpoints, validate_inspection_payload_iff,
}
use my_detail_os_backend.Inspections.Ratings.{
  overall_rating, rate_section, worst_rating, section_checkpoints, assert_inspection_complete,
  check_checkpoints, check_section, check_sections, checkpoint_ratings, computed_rating,
  first_rating, is_incomplete, keep_ratings, rating_for_checkpoint, shown,
  snapshot_inspection_payload,
}
use my_detail_os_backend.Inspections.Ratings.Worst.{
  some_checkpoint, is_not_applicable, overall_rating-all,
}
use my_detail_os_backend.Inspections.Drafts.{
  soft_delete_inspection, create_inspection, update_inspection, commit_create, prepare,
  commit_update,
}
use my_detail_os_backend.Inspections.Final.{
  create_inspection_revision, finalize_inspection, branding_of, commit_final, finish, make_document,
  read_photos, report_photos, snapshot_source, take_snapshot, latest_version,
}
use my_detail_os_backend.Inspections.Uploads.{
  max_photos, add_checkpoints, checkpoint_ids, collect_upload_ids, count_uploads, is_associated,
  is_linkable, link_pending_uploads, update_uploads, expire_detached_draft_uploads, retained_ids,
}
use my_detail_os_backend.Inspections.Uploads.Bound.{linked}
use my_detail_os_backend.Inspections.Lifecycle.{Move}
use my_detail_os_backend.Inspections.Lifecycle.Sound.{IsSound, no_reports}
use my_detail_os_backend.Inspections.Lifecycle.History.{
  Step, create, update, finalize, revise, discard, here, next, Step-Move, version_stays,
  reachable-IsSound,
}
use my_detail_os_backend.Inspections.Lifecycle.Reports.{
  deleted_report_stays, foreign_report_stays, update_once,
}
use my_detail_os_backend.Inspections.Lifecycle.Photos.{at_most_24_photos}
use my_detail_os_backend.Inspections.Guards.{
  assert_branch, assert_job_card, assert_related_records, chosen_branch, remove_all,
  sanitize_draft_payload,
}
use my_detail_os_backend.Json.Print.{number_text, to_text}
use my_detail_os_backend.Scope.Referenced.{
  add_field, add_id, collect_payloads, collect_referenced_customer_vehicle_ids,
}

abbrev here_env : Env
here_env = record {
  now = 1000;
  fresh_id = "r1";
  report_number = "INSP-1";
  document_uuid = "u1";
  json_bytes = λ v. 500;
  find_branch = λ id org. some (record { name = "Main"; address = "Road 1" });
  find_customer = λ id org. some (record { name = "Asha"; phone = "99"; email = none });
  find_vehicle = λ id customer org.
      some (record { registration_number = "KA01"; make = "Tata"; model = "Nexon" });
  find_job_card = λ id org. none;
  branch_documents = λ org. [];
  app_settings = none;
  read_asset = λ key. some "photo";
  render_pdf = λ snapshot photos. ok "pdf";
  persist_asset = λ key. ok tt;
}

abbrev owner : BranchScope
owner = record { organization_id = "o1"; allowed_branch_ids = none }

abbrev rated : String → Json
rated r = obj (field "rating" (str r) end)

abbrev section : Json
section = obj (field "checkpoints" (arr (cons (rated "good") (cons (rated "BAD") nil))) end)

abbrev payload : Fields
payload = field "branchId" (str "b1") (
    field "customerId" (str "c1")
      (field "vehicleId" (str "v1") (field "sections" (arr (cons section nil)) end)))

abbrev tables_of : Result Tables → Tables
tables_of (ok db) = db
tables_of (err e) = no_reports

abbrev created : Tables
created = tables_of (create_inspection here_env owner "u1" payload no_reports no_reports)

abbrev saved : Tables
saved = tables_of (update_inspection here_env owner "u1" "r1" 1 payload created created)

abbrev finished : Tables
finished = tables_of (finalize_inspection here_env owner "u1" "r1" 2 end saved saved)

abbrev revised : Tables
revised = tables_of (create_inspection_revision owner "u2" "r1" 2 finished finished)

creates : create_inspection here_env owner "u1" payload no_reports no_reports ≡ ok created
unfolding add_checkpoints add_field add_id assert_branch assert_job_card assert_related_records
    check_field checkpoint_ids checkpoints_in chosen_branch collect_payloads
    collect_referenced_customer_vehicle_ids collect_upload_ids commit_create contains count_uploads
    create_inspection get insert is_associated is_bad_odometer is_bad_rating is_linkable
    is_payload_in_branch_scope link_pending_uploads lists_checkpoints lookup
    normalize_inspection_conditions number_text parse_all_pins parse_conditions parse_name
    parse_notes parse_overall parse_percent parse_pin parse_pin_type parse_pins parse_positive
    payload_branch_id pins_differ prepare put remove remove_all sanitize_draft_payload
    section_checkpoints show spread_onto to_lower to_text to_upper transfer_in_scope trim
    update_uploads utf16_length validate_inspection_payload visit
creates = refl

saves : update_inspection here_env owner "u1" "r1" 1 payload created created ≡ ok saved
unfolding add_checkpoints add_field add_id assert_branch assert_job_card assert_related_records
    check_field checkpoint_ids checkpoints_in chosen_branch collect_payloads
    collect_referenced_customer_vehicle_ids collect_upload_ids commit_create commit_update contains
    count_uploads create_inspection expire_detached_draft_uploads find_report get insert
    is_associated is_bad_odometer is_bad_rating is_linkable is_payload_in_branch_scope
    link_pending_uploads lists_checkpoints lookup normalize_inspection_conditions number_text
    parse_all_pins parse_conditions parse_name parse_notes parse_overall parse_percent parse_pin
    parse_pin_type parse_pins parse_positive payload_branch_id pins_differ prepare put remove
    remove_all retained_ids sanitize_draft_payload section_checkpoints show spread_onto to_lower
    to_text to_upper transfer_in_scope trim update_inspection update_report update_uploads
    utf16_length validate_inspection_payload visit
saves = refl

finishes : finalize_inspection here_env owner "u1" "r1" 2 end saved saved ≡ ok finished
unfolding add_checkpoints add_field add_id assert_branch assert_inspection_complete assert_job_card
    assert_related_records branding_of check_checkpoints check_field check_section check_sections
    checkpoint_ids checkpoint_ratings checkpoints_in chosen_branch collect_payloads
    collect_referenced_customer_vehicle_ids collect_upload_ids commit_create commit_final
    commit_update computed_rating contains count_uploads create_inspection
    expire_detached_draft_uploads finalize_inspection find_report find_version finish first_rating
    get insert is_associated is_bad_odometer is_bad_rating is_incomplete is_linkable
    is_payload_in_branch_scope keep_ratings link_pending_uploads lists_checkpoints lookup
    make_document normalize_inspection_conditions number_text overall_rating own_fields
    parse_all_pins parse_conditions parse_name parse_notes parse_overall parse_percent parse_pin
    parse_pin_type parse_pins parse_positive payload_branch_id pins_differ prepare put rate_section
    rating_for_checkpoint read_photos remove remove_all report_photos retained_ids
    sanitize_draft_payload section_checkpoints show shown snapshot_inspection_payload
    snapshot_source spread_onto take_snapshot to_lower to_text to_upper transfer_in_scope trim
    update_inspection update_report update_uploads utf16_length validate_inspection_payload visit
    worst_rating
finishes = refl

revises : create_inspection_revision owner "u2" "r1" 2 finished finished ≡ ok revised
unfolding add_checkpoints add_field add_id assert_branch assert_inspection_complete assert_job_card
    assert_related_records branding_of check_checkpoints check_field check_section check_sections
    checkpoint_ids checkpoint_ratings checkpoints_in chosen_branch collect_payloads
    collect_referenced_customer_vehicle_ids collect_upload_ids commit_create commit_final
    commit_update computed_rating contains count_uploads create_inspection
    create_inspection_revision expire_detached_draft_uploads finalize_inspection find_report
    find_version finish first_rating get insert is_associated is_bad_odometer is_bad_rating
    is_incomplete is_linkable is_payload_in_branch_scope keep_ratings latest_version
    link_pending_uploads lists_checkpoints lookup make_document normalize_inspection_conditions
    number_text overall_rating own_fields parse_all_pins parse_conditions parse_name parse_notes
    parse_overall parse_percent parse_pin parse_pin_type parse_pins parse_positive payload_branch_id
    pins_differ prepare put rate_section rating_for_checkpoint read_photos remove remove_all
    report_photos retained_ids sanitize_draft_payload section_checkpoints show shown
    snapshot_inspection_payload snapshot_source spread_onto take_snapshot to_lower to_text to_upper
    transfer_in_scope trim update_inspection update_report update_uploads utf16_length
    validate_inspection_payload visit worst_rating
revises = refl

abbrev version_or : Option Version → Version
version_or (some v) = v
version_or none = record {
  report_id = "";
  revision = 0;
  content = end;
  document_key = "";
  finalized_by = "";
}

abbrev first_version : Version
first_version = version_or (find_version "r1" 2 finished)

is_stored : find_version "r1" 2 finished ≡ some first_version
unfolding add_checkpoints add_field add_id assert_branch assert_inspection_complete assert_job_card
    assert_related_records branding_of check_checkpoints check_field check_section check_sections
    checkpoint_ids checkpoint_ratings checkpoints_in chosen_branch collect_payloads
    collect_referenced_customer_vehicle_ids collect_upload_ids commit_create commit_final
    commit_update computed_rating contains count_uploads create_inspection
    expire_detached_draft_uploads finalize_inspection find_report find_version finish first_rating
    get insert is_associated is_bad_odometer is_bad_rating is_incomplete is_linkable
    is_payload_in_branch_scope keep_ratings link_pending_uploads lists_checkpoints lookup
    make_document normalize_inspection_conditions number_text overall_rating own_fields
    parse_all_pins parse_conditions parse_name parse_notes parse_overall parse_percent parse_pin
    parse_pin_type parse_pins parse_positive payload_branch_id pins_differ prepare put rate_section
    rating_for_checkpoint read_photos remove remove_all report_photos retained_ids
    sanitize_draft_payload section_checkpoints show shown snapshot_inspection_payload
    snapshot_source spread_onto take_snapshot to_lower to_text to_upper transfer_in_scope trim
    update_inspection update_report update_uploads utf16_length validate_inspection_payload visit
    worst_rating
is_stored = refl

abbrev report_or : Option Report → Report
report_or (some r) = r
report_or none = record {
  organization_id = "";
  branch_id = "";
  report_number = "";
  revision = 0;
  status = draft;
  content = end;
  finalized_at = none;
  deleted_at = none;
  created_by = "";
  updated_by = "";
}

abbrev stranger : BranchScope
stranger = record { organization_id = "o2"; allowed_branch_ids = none }

is_created : lookup "r1" created.reports ≡ some (report_or (lookup "r1" created.reports))
unfolding add_checkpoints add_field add_id assert_branch assert_job_card assert_related_records
    check_field checkpoint_ids checkpoints_in chosen_branch collect_payloads
    collect_referenced_customer_vehicle_ids collect_upload_ids commit_create contains count_uploads
    create_inspection get insert is_associated is_bad_odometer is_bad_rating is_linkable
    is_payload_in_branch_scope link_pending_uploads lists_checkpoints lookup
    normalize_inspection_conditions number_text parse_all_pins parse_conditions parse_name
    parse_notes parse_overall parse_percent parse_pin parse_pin_type parse_pins parse_positive
    payload_branch_id pins_differ prepare put remove remove_all sanitize_draft_payload
    section_checkpoints show spread_onto to_lower to_text to_upper transfer_in_scope trim
    update_uploads utf16_length validate_inspection_payload visit
is_created = refl

is_owners : (report_or (lookup "r1" created.reports)).organization_id ≡ "o1"
unfolding add_checkpoints add_field add_id assert_branch assert_job_card assert_related_records
    check_field checkpoint_ids checkpoints_in chosen_branch collect_payloads
    collect_referenced_customer_vehicle_ids collect_upload_ids commit_create contains count_uploads
    create_inspection get insert is_associated is_bad_odometer is_bad_rating is_linkable
    is_payload_in_branch_scope link_pending_uploads lists_checkpoints lookup
    normalize_inspection_conditions number_text parse_all_pins parse_conditions parse_name
    parse_notes parse_overall parse_percent parse_pin parse_pin_type parse_pins parse_positive
    payload_branch_id pins_differ prepare put remove remove_all sanitize_draft_payload
    section_checkpoints show spread_onto to_lower to_text to_upper transfer_in_scope trim
    update_uploads utf16_length validate_inspection_payload visit
is_owners = refl

abbrev deleted : Tables
deleted = (soft_delete_inspection here_env owner "u1" "r1" created).1

is_deleted : lookup "r1" deleted.reports ≡ some (report_or (lookup "r1" deleted.reports))
unfolding add_checkpoints add_field add_id assert_branch assert_job_card assert_related_records
    check_field checkpoint_ids checkpoints_in chosen_branch collect_payloads
    collect_referenced_customer_vehicle_ids collect_upload_ids commit_create contains count_uploads
    create_inspection find_report get insert is_associated is_bad_odometer is_bad_rating is_linkable
    is_payload_in_branch_scope link_pending_uploads lists_checkpoints lookup
    normalize_inspection_conditions number_text parse_all_pins parse_conditions parse_name
    parse_notes parse_overall parse_percent parse_pin parse_pin_type parse_pins parse_positive
    payload_branch_id pins_differ prepare put remove remove_all sanitize_draft_payload
    section_checkpoints show soft_delete_inspection spread_onto to_lower to_text to_upper
    transfer_in_scope trim update_report update_uploads utf16_length validate_inspection_payload
    visit
is_deleted = refl

is_gone : (report_or (lookup "r1" deleted.reports)).deleted_at ≡ some 1000
unfolding add_checkpoints add_field add_id assert_branch assert_job_card assert_related_records
    check_field checkpoint_ids checkpoints_in chosen_branch collect_payloads
    collect_referenced_customer_vehicle_ids collect_upload_ids commit_create contains count_uploads
    create_inspection find_report get insert is_associated is_bad_odometer is_bad_rating is_linkable
    is_payload_in_branch_scope link_pending_uploads lists_checkpoints lookup
    normalize_inspection_conditions number_text parse_all_pins parse_conditions parse_name
    parse_notes parse_overall parse_percent parse_pin parse_pin_type parse_pins parse_positive
    payload_branch_id pins_differ prepare put remove remove_all sanitize_draft_payload
    section_checkpoints show soft_delete_inspection spread_onto to_lower to_text to_upper
    transfer_in_scope trim update_report update_uploads utf16_length validate_inspection_payload
    visit
is_gone = refl

validate_inspection_payload_iff_example :
    (validate_inspection_payload (λ v. 500) payload ≡ ok tt) ↔ (
      ((c : Conditions) × (parse_conditions payload ≡ ok c))
      × (500 ≤ max_report_bytes)
      × (is_clean (obj payload) ≡ true)
      × (checkpoints (obj payload) ≤ max_checkpoints))
validate_inspection_payload_iff_example = validate_inspection_payload_iff (λ v. 500) payload

no_override : truthy (get "overallRatingOverride" payload) ≡ false
unfolding get
no_override = refl

overall_rating-all_example : overall_rating payload (map rate_section (section ∷ [])) ≡ (
    if not (some_checkpoint (λ r. not (is_not_applicable r)) (section ∷ []))
    then "N/A"
    else if some_checkpoint (λ r. r == "BAD") (section ∷ [])
    then "BAD"
    else if some_checkpoint (λ r. r == "AVERAGE") (section ∷ [])
    then "AVERAGE"
    else "GOOD")
overall_rating-all_example = overall_rating-all payload (section ∷ []) no_override

Step-Move_example : Move "o1" no_reports created
Step-Move_example = Step-Move (create here_env owner "u1" payload no_reports creates)

reachable-IsSound_example : IsSound finished
reachable-IsSound_example = reachable-IsSound (
    next
      (next (next here (create here_env owner "u1" payload no_reports creates))
        (update here_env owner "u1" "r1" 1 payload created saves))
      (finalize here_env owner "u1" "r1" 2 end saved finishes))

version_stays_example : find_version "r1" 2 revised ≡ some first_version
version_stays_example =
    version_stays "r1" 2 (next here (revise here_env owner "u2" "r1" 2 finished revises)) is_stored

abbrev stranger_discards :
    Step created (soft_delete_inspection here_env stranger "u9" "r1" created).1
stranger_discards = discard here_env stranger "u9" "r1" refl

foreign_report_stays_example :
    lookup "r1" (soft_delete_inspection here_env stranger "u9" "r1" created).1.reports
    ≡ some (report_or (lookup "r1" created.reports))
foreign_report_stays_example =
    foreign_report_stays stranger_discards "r1" (report_or (lookup "r1" created.reports))
      (λ h. absurd (false≢true ((eq_iff "o1" "o2").1 (sym is_owners ∙ h)))) is_created

deleted_report_stays_example :
    lookup "r1" (soft_delete_inspection here_env owner "u1" "r1" deleted).1.reports
    ≡ some (report_or (lookup "r1" deleted.reports))
deleted_report_stays_example =
    deleted_report_stays "r1" (report_or (lookup "r1" deleted.reports)) 1000 is_gone
      (next here (discard here_env owner "u1" "r1" refl)) is_deleted

update_once_example :
    ¬ (update_inspection here_env owner "u2" "r1" 1 payload created finished ≡ ok finished)
update_once_example =
    update_once here_env here_env owner owner "u1" "u2" "r1" 1 payload payload created created
      created finished saves (next here (finalize here_env owner "u1" "r1" 2 end saved finishes))

at_most_24_photos_example : linked "r1" created.uploads ≤ max_photos
at_most_24_photos_example =
    at_most_24_photos "r1" (next here (create here_env owner "u1" payload no_reports creates))
