-- ===== src/Tests/Delivery.antt =====
-- Sends of a finalized report at concrete data
-- (src/modules/inspections/inspection-delivery.service.ts).
use my_detail_os_backend.Prelude.{false, List, [], ◌∷◌, none, some, ◌≡◌, refl, lookup}
use my_detail_os_backend.Errors.{ok}
use my_detail_os_backend.Json.{end}
use my_detail_os_backend.Scope.{BranchScope}
use my_detail_os_backend.Inspections.Records.{
  Report, Version, Tables, Status, find_report, find_version,
}
use my_detail_os_backend.Inspections.Delivery.{
  SendInput, SendLog, Channel, started, new_log, accept_send, update_inspection_whatsapp_status,
  record_failure,
}
use my_detail_os_backend.Inspections.Delivery.Settled.{Extends, Signal, Signal-Extends}
use my_detail_os_backend.Inspections.Delivery.Requests.{here, next, signalled, send_once}

abbrev final_report : Report
final_report = record {
  organization_id = "o1";
  branch_id = "b1";
  report_number = "INSP-1";
  revision = 2;
  status = Status.final;
  content = end;
  finalized_at = some 10;
  deleted_at = none;
  created_by = "u1";
  updated_by = "u1";
}

abbrev final_version : Version
final_version = record {
  report_id = "r1";
  revision = 2;
  content = end;
  document_key = "k1";
  finalized_by = "u1";
}

abbrev tables : Tables
tables = record { reports = ("r1", final_report) ∷ []; versions = final_version ∷ []; uploads = [] }

abbrev manager_scope : BranchScope
manager_scope = record { organization_id = "o1"; allowed_branch_ids = some ("b1" ∷ []) }

abbrev request : SendInput
request = record {
  scope = manager_scope;
  actor_id = "u1";
  report_id = "r1";
  revision = 2;
  request_id = "q1";
  channel = Channel.whatsapp;
  recipient = "+919900000000";
}

abbrev first_log : SendLog
first_log = new_log "s1" "k1" request

starts : accept_send false "s1" request tables [] [] ≡ ok (started first_log, first_log ∷ [])
unfolding accept_send find_report find_version lookup
starts = refl

abbrev delivered_log : List SendLog
delivered_log =
    (update_inspection_whatsapp_status "s1" "m1" "Delivered" none (first_log ∷ [])
      (first_log ∷ [])).1

abbrev failed_log : List SendLog
failed_log = record_failure "s1" "Invalid parameter" (first_log ∷ [])

abbrev fails : Signal (first_log ∷ []) failed_log
fails = Signal.threw "s1" "Invalid parameter" refl

abbrev delivers : Signal (first_log ∷ []) delivered_log
delivers = Signal.whatsapp "s1" "m1" "Delivered" none (first_log ∷ []) refl

Signal-Extends_example : Extends none (first_log ∷ []) delivered_log
Signal-Extends_example = Signal-Extends delivers

send_once_example :
    ¬ (accept_send false "s2" request tables [] failed_log ≡ ok (started first_log, []))
send_once_example =
    send_once false false "s1" "s2" request request tables tables [] [] [] (first_log ∷ [])
      failed_log [] first_log first_log starts (next here (signalled fails)) refl refl
