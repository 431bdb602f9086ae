-- ===== src/Inspections/Photos.antt =====
-- Uploaded photos outside a save: src/modules/inspections/inspection-assets.service.ts, and
-- `inspectionUploadAccess`, `customerInspectionUploadAccess` and `cleanupExpiredInspectionUploads` of
-- src/modules/inspections/inspection.service.ts. What sharp reads of an image is a parameter.
use Prim.Native.Char.{code}
use Prim.Native.String.{◌++◌ as append}
use my_detail_os_backend.Prelude.{
  ℕ, zero, suc, ◌+◌, ◌*◌, String, Bool, true, false, not, ◌&&◌, ◌||◌, List, [], ◌∷◌, Option, none,
  some, Dict, lookup, insert, erase, to_lower, trim, is_some, get_or, ltb, leb, eqb, ◌==◌,
  if◌then◌else◌,
}
use my_detail_os_backend.Errors.{
  AppError, Result, ok, err, validation_error, forbidden_error, plain_error, throw_if, ◌>>=◌, ◌>>◌,
}
use my_detail_os_backend.Json.{Fields, get, as_text}
use my_detail_os_backend.Scope.{BranchScope}
use my_detail_os_backend.Inspections.Records.{
  Env, Report, Upload, Tables, is_final, reaches, find_report,
}
use my_detail_os_backend.Inspections.Uploads.{day_ms}

abbrev pub max_photo_bytes : ℕ
max_photo_bytes = 10 * 1024 * 1024

-- `expectedMime`, for the formats that sharp names
unfoldable pub expected_mime : String → Option String
expected_mime format =
    if format == "jpeg"
    then some "image/jpeg"
    else if format == "png"
    then some "image/png"
    else if format == "webp"
    then some "image/webp"
    else none

unfoldable pub mime_of : Option String → Option String
unfolding expected_mime
mime_of none = none
mime_of (some format) = expected_mime format

-- `EXTENSIONS`
unfoldable pub extension_of : String → String
extension_of mime =
    if mime == "image/jpeg" then "jpg" else if mime == "image/png" then "png" else "webp"

-- What sharp gives: the format of the picture, and the bytes of its cleaned copy.
pub record Picture : Type 0 where
  pub format : Option String
  pub cleaned : Option String

pub record SanitizedImage : Type 0 where
  pub buffer : String
  pub mime_type : String
  pub extension : String

abbrev no_picture : Result SanitizedImage
no_picture =
    err
      (validation_error "Photo contents must be a valid JPEG, PNG, or WebP matching the file type.")

unfoldable pub sanitize_inspection_image : Picture → String → Result SanitizedImage
unfolding mime_of extension_of
sanitize_inspection_image picture declared = elim (mime_of picture.format) [
  | none ↦ no_picture
  | some mime ↦ if not (to_lower declared == mime) then no_picture else elim picture.cleaned [
    | none ↦ no_picture
    | some bytes ↦ ok (record { buffer = bytes; mime_type = mime; extension = extension_of mime })
  ]
]

is_path_char : ℕ → Bool
is_path_char c =
    leb b'a' c && leb c b'z'
    || leb b'A' c && leb c b'Z'
    || leb b'0' c && leb c b'9'
    || eqb c b'_'
    || eqb c b'-'

-- `value.replace(/[^a-zA-Z0-9_-]/g, "_")`; a character beyond the first plane is two units.
replace_unsafe : String → String
unfolding is_path_char
replace_unsafe String.[] = ""
replace_unsafe (String.◌∷◌ c s) =
    let rest = replace_unsafe s in
    if is_path_char (code c)
    then String.◌∷◌ c rest
    else append (if leb 0x10000 (code c) then "__" else "_") rest

-- `s.slice(0, n)`, of a text without characters beyond the first plane
take_text : ℕ → String → String
take_text zero s = ""
take_text (suc n) String.[] = ""
take_text (suc n) (String.◌∷◌ c s) = String.◌∷◌ c (take_text n s)

unfoldable pub safe_path_segment : String → String
unfolding replace_unsafe take_text
safe_path_segment s = take_text 100 (replace_unsafe s)

-- What `uploadInspectionPhoto` checks before it writes; an id that is taken violates the primary key.
unfoldable pub accept_photo :
    Env
    → BranchScope
    → (branch : String) → ℕ
    → Picture
    → (declared : String) → Dict Upload
    → Result SanitizedImage
unfolding sanitize_inspection_image
accept_photo env scope branch size picture declared uploads =
    throw_if (eqb size 0) (validation_error "Choose a photo to upload.")
    >> (throw_if (ltb max_photo_bytes size) (validation_error "Photo must be 10 MB or smaller.")
        >> (sanitize_inspection_image picture declared >>= (λ image.
            throw_if
              (not (reaches scope branch)
                || not (is_some (env.find_branch branch scope.organization_id)))
              (forbidden_error "You do not have access to this branch.")
            >> (throw_if (is_some (lookup env.fresh_id uploads))
                  (plain_error "Unique constraint failed")
                >> ok image))))

abbrev pub photo_key : Env → BranchScope → (branch extension : String) → String
photo_key env scope branch extension = append "inspection-assets/" (
    append (safe_path_segment scope.organization_id) (
      append "/" (
        append (safe_path_segment branch)
          (append "/" (append env.fresh_id (append "." extension))))))

abbrev pub new_upload : Env → BranchScope → (actor branch key mime : String) → Upload
new_upload env scope actor branch key mime = record {
  organization_id = scope.organization_id;
  branch_id = branch;
  report_id = none;
  object_key = key;
  mime_type = mime;
  expires_at = some (env.now + day_ms);
  cleaning = false;
  created_by = actor;
}

-- `uploadInspectionPhoto`: the id of the photo, and the uploads. The row is taken back where its
-- file cannot be stored.
unfoldable pub upload_inspection_photo :
    Env
    → BranchScope
    → (actor branch : String) → ℕ
    → Picture
    → (declared : String) → Dict Upload
    → Result String × Dict Upload
unfolding accept_photo safe_path_segment
upload_inspection_photo env scope actor branch size picture declared uploads =
    elim (accept_photo env scope branch size picture declared uploads) [
      | err e ↦ (err e, uploads)
      | ok image ↦
          let key = photo_key env scope branch image.extension in
          let stored =
            insert env.fresh_id (new_upload env scope actor branch key image.mime_type) uploads in
          elim (env.persist_asset key) [
            | err e ↦ (err e, erase env.fresh_id stored)
            | ok done ↦ (ok env.fresh_id, stored)
          ]
    ]

-- `inspectionCustomerId` of a record
abbrev pub inspection_customer_id : Fields → String
inspection_customer_id content = trim (get_or (as_text (get "customerId" content)) "")

-- A final report of a customer, that is not deleted.
abbrev pub is_customers : (organization customer : String) → Report → Bool
is_customers organization customer r =
    r.organization_id == organization
    && is_final r.status
    && not (is_some r.deleted_at)
    && inspection_customer_id r.content == customer

-- `getCustomerInspection`
unfoldable pub get_customer_inspection :
    (organization customer id : String) → Tables → Option Report
get_customer_inspection organization customer id db =
    find_report id (is_customers organization customer) db

-- `expiresAt: { lte: now }`
abbrev pub is_expired : ℕ → Upload → Bool
is_expired now u =
    not (is_some u.report_id)
    && not u.cleaning
    && elim u.expires_at [ none ↦ false | some at ↦ leb at now ]

-- Changes one upload under a condition: `none` where the count is not 1.
unfoldable pub update_upload :
    String → (Upload → Bool) → (Upload → Upload) → Dict Upload → Option (Dict Upload)
update_upload id where_ change uploads = elim (lookup id uploads) [
  | none ↦ none
  | some u ↦ if where_ u then some (insert id (change u) uploads) else none
]

-- The claim of `cleanupExpiredInspectionUploads` on one photo
unfoldable pub claim_upload : ℕ → String → Dict Upload → Option (Dict Upload)
unfolding update_upload
claim_upload now id uploads =
    update_upload id (is_expired now) (λ u. record u { cleaning = true }) uploads

-- `deleteMany`, behind the removal of the file
unfoldable pub remove_claimed : String → Dict Upload → Dict Upload
remove_claimed id uploads = elim (lookup id uploads) [
  | none ↦ uploads
  | some u ↦ if u.cleaning && not (is_some u.report_id) then erase id uploads else uploads
]

-- The claim is taken back where the file cannot be removed.
unfoldable pub release_claim : String → Dict Upload → Dict Upload
unfolding update_upload
release_claim id uploads =
    get_or (update_upload id (λ u. u.cleaning) (λ u. record u { cleaning = false }) uploads) uploads

-- The loop of `cleanupExpiredInspectionUploads` over the photos that it found expired.
unfoldable pub cleanup_uploads :
    ℕ
    → (String → Option AppError)
    → List (String × String)
    → Dict Upload
    → Result (Unit {0}) × Dict Upload
unfolding claim_upload remove_claimed release_claim
cleanup_uploads now failure [] uploads = (ok tt, uploads)
cleanup_uploads now failure ((id, key) ∷ found) uploads = elim (claim_upload now id uploads) [
  | none ↦ cleanup_uploads now failure found uploads
  | some claimed ↦ elim (failure key) [
    | some e ↦ (err e, release_claim id claimed)
    | none ↦ cleanup_uploads now failure found (remove_claimed id claimed)
  ]
]
