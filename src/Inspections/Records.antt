-- ===== src/Inspections/Records.antt =====
-- The tables of inspection reports (prisma/schema.prisma: InspectionReport, InspectionReportVersion,
-- InspectionUpload), and what the service reads from outside them: branches, customers, vehicles
-- and documents, the clock, fresh ids and the storage. A table with a primary key is keyed by it.
use my_detail_os_backend.Prelude.{
  ℕ, String, Bool, true, false, not, ◌&&◌, List, Option, none, some, Dict, lookup, insert, includes,
  eqb, find, ◌==◌, if◌then◌else◌, is_some,
}
use my_detail_os_backend.Json.{Json, Fields}
use my_detail_os_backend.Errors.{Result}
use my_detail_os_backend.Scope.{BranchScope}

pub data Status : Type 0 where
  draft : Status
  final : Status

-- `InspectionReport`, without its time stamps of creation and change
pub record Report : Type 0 where
  pub organization_id : String
  pub branch_id : String
  pub report_number : String
  pub revision : ℕ
  pub status : Status
  pub content : Fields
  pub finalized_at : Option ℕ
  pub deleted_at : Option ℕ
  pub created_by : String
  pub updated_by : String

-- `InspectionReportVersion`, without its id and time stamps
pub record Version : Type 0 where
  pub report_id : String
  pub revision : ℕ
  pub content : Fields
  pub document_key : String
  pub finalized_by : String

-- `InspectionUpload`, without its size and time of creation
pub record Upload : Type 0 where
  pub organization_id : String
  pub branch_id : String
  pub report_id : Option String
  pub object_key : String
  pub mime_type : String
  pub expires_at : Option ℕ
  pub cleaning : Bool
  pub created_by : String

pub record Tables : Type 0 where
  pub reports : Dict Report
  pub versions : List Version
  pub uploads : Dict Upload

pub record Customer : Type 0 where
  pub name : String
  pub phone : String
  pub email : Option String

pub record Vehicle : Type 0 where
  pub registration_number : String
  pub make : String
  pub model : String

pub record Branch : Type 0 where
  pub name : String
  pub address : String

-- What a call reads besides the tables above.
pub record Env : Type 0 where
  pub now : ℕ
  pub fresh_id : String
  pub report_number : String
  pub document_uuid : String
  pub json_bytes : Json → ℕ
  pub find_branch : (id organization : String) → Option Branch
  pub find_customer : (id organization : String) → Option Customer
  pub find_vehicle : (id customer organization : String) → Option Vehicle
  pub find_job_card : (id organization : String) → Option Json
  pub branch_documents : String → List Json
  pub app_settings : Option Json
  pub read_asset : String → Option String
  pub render_pdf : Fields → List String → Result String
  pub persist_asset : String → Result (Unit {0})

abbrev pub is_draft : Status → Bool
is_draft draft = true
is_draft final = false

abbrev pub is_final : Status → Bool
is_final s = not (is_draft s)

-- `branchId: { in: allowedBranchIds }`, and no condition where the scope is organization-wide
abbrev pub reaches : BranchScope → String → Bool
reaches scope branch = elim scope.allowed_branch_ids [
  | none ↦ true
  | some ids ↦ includes branch ids
]

-- A report of the organization that is not deleted.
abbrev pub is_live : BranchScope → Report → Bool
is_live scope r = r.organization_id == scope.organization_id && not (is_some r.deleted_at)

-- `findFirst` by id, under a condition.
unfoldable pub find_report : String → (Report → Bool) → Tables → Option Report
find_report id where_ db = elim (lookup id db.reports) [
  | none ↦ none
  | some r ↦ if where_ r then some r else none
]

-- `updateMany` by id, under a condition: `none` where the count is not 1.
unfoldable pub update_report : String → (Report → Bool) → (Report → Report) → Tables → Option Tables
unfolding find_report
update_report id where_ change db = elim (find_report id where_ db) [
  | none ↦ none
  | some r ↦ some (record db { reports = insert id (change r) db.reports })
]

abbrev pub is_version : String → ℕ → Version → Bool
is_version id revision v = v.report_id == id && eqb v.revision revision

-- `findUnique` by `reportId_revision`
unfoldable pub find_version : String → ℕ → Tables → Option Version
find_version id revision db = find (is_version id revision) db.versions
