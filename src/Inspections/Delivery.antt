-- ===== src/Inspections/Delivery.antt =====
-- Sending a finalized report (src/modules/inspections/inspection-delivery.service.ts): the log of
-- sends, its request ids, and the status that the providers report. What a provider answers is an
-- argument.
pub mod Settled
pub mod Requests
use my_detail_os_backend.Prelude.{
  ℕ, String, Bool, true, false, not, ◌&&◌, ◌||◌, List, [], ◌∷◌, Option, none, some, find, any,
  includes, is_some, is_empty, get_or, to_lower, length, filter, eqb, ltb, ◌==◌, if◌then◌else◌,
}
use my_detail_os_backend.Errors.{
  Result, ok, err, forbidden_error, conflict_error, throw_if, ◌>>=◌, ◌>>◌,
}
use my_detail_os_backend.Scope.{BranchScope}
use my_detail_os_backend.Inspections.Records.{
  Report, Version, Tables, find_report, find_version, is_final, reaches,
}
use my_detail_os_backend.Inspections.Drafts.{is_visible}

pub data Channel : Type 0 where
  whatsapp email : Channel

pub data SendStatus : Type 0 where
  queued sent delivered failed : SendStatus

-- `InspectionSendLog`, without its time stamps
pub record SendLog : Type 0 where
  pub id : String
  pub organization_id : String
  pub report_id : String
  pub revision : ℕ
  pub request_id : String
  pub channel : Channel
  pub recipient : String
  pub status : SendStatus
  pub document_key : String
  pub provider_message_id : Option String
  pub provider_error : Option String
  pub sent_by : String

-- The input of `sendInspectionReport`.
pub record SendInput : Type 0 where
  pub scope : BranchScope
  pub actor_id : String
  pub report_id : String
  pub revision : ℕ
  pub request_id : String
  pub channel : Channel
  pub recipient : String

abbrev pub is_whatsapp : Channel → Bool
is_whatsapp whatsapp = true
is_whatsapp email = false

abbrev pub same_channel : Channel → Channel → Bool
same_channel whatsapp c = is_whatsapp c
same_channel email c = not (is_whatsapp c)

abbrev pub is_queued : SendStatus → Bool
is_queued queued = true
is_queued _ = false

abbrev pub is_sent : SendStatus → Bool
is_sent sent = true
is_sent _ = false

-- The unique key of a send.
abbrev pub has_request : String → String → SendLog → Bool
has_request org request l = l.organization_id == org && l.request_id == request

-- `report: { branchId: { in: allowedBranchIds } }`, where the scope is bound to branches
abbrev pub log_visible : SendInput → Tables → SendLog → Bool
log_visible input db l =
    has_request input.scope.organization_id input.request_id l
    && (not (is_some input.scope.allowed_branch_ids)
        || is_some (find_report l.report_id (λ (r : Report). reaches input.scope r.branch_id) db))

abbrev pub is_same_send : SendInput → SendLog → Bool
is_same_send input l =
    l.report_id == input.report_id
    && (eqb l.revision input.revision
        && (same_channel l.channel input.channel && l.recipient == input.recipient))

-- The answer to a request whose id is in the log.
unfoldable pub replay : SendInput → SendLog → Result SendLog
replay input l =
    throw_if (not (is_same_send input l))
      (conflict_error "This request ID was already used for a different send.")
    >> ok l

abbrev pub new_log : String → String → SendInput → SendLog
new_log id key input = record {
  id = id;
  organization_id = input.scope.organization_id;
  report_id = input.report_id;
  revision = input.revision;
  request_id = input.request_id;
  channel = input.channel;
  recipient = input.recipient;
  status = queued;
  document_key = key;
  provider_message_id = none;
  provider_error = none;
  sent_by = input.actor_id;
}

-- Whether the send is new, or is answered from the log.
pub data Accepted : Type 0 where
  replayed : SendLog → Accepted
  started : SendLog → Accepted

abbrev pub from_log : List SendLog → SendLog → Result (Accepted × List SendLog)
from_log logs l = ok (replayed l, logs)

-- The creation of the log under its unique key; where another call was first, its log answers.
unfoldable pub create_log :
    String → String → SendInput → List SendLog → Result (Accepted × List SendLog)
unfolding replay
create_log id key input logs =
    elim (find (has_request input.scope.organization_id input.request_id) logs) [
      | some raced ↦ replay input raced >>= (from_log logs)
      | none ↦ ok (started (new_log id key input), new_log id key input ∷ logs)
    ]

abbrev pub is_sendable : SendInput → Report → Bool
is_sendable input r =
    is_visible input.scope r && (is_final r.status && eqb r.revision input.revision)

-- `sendInspectionReport`, up to the call of the provider. The reports, versions and the log are read
-- from `db` and `seen`, and the new log is written onto `logs`.
unfoldable pub accept_send :
    (export_locked : Bool)
    → String
    → SendInput
    → Tables
    → (seen logs : List SendLog) → Result (Accepted × List SendLog)
unfolding create_log
accept_send export_locked id input db seen logs = elim (find (log_visible input db) seen) [
  | some existing ↦ replay input existing >>= (from_log logs)
  | none ↦ elim (find_report input.report_id (is_sendable input) db) [
    | none ↦ err (conflict_error "Only an accessible finalized revision can be sent.")
    | some r ↦ elim (find_version input.report_id input.revision db) [
      | none ↦ err (conflict_error "The finalized inspection PDF is unavailable.")
      | some v ↦
          throw_if (is_empty v.document_key)
            (conflict_error "The finalized inspection PDF is unavailable.")
          >> (throw_if export_locked (
                forbidden_error
                  "Inspection PDF sending is locked by the organization subscription.")
              >> create_log id v.document_key input logs)
    ]
  ]
]

-- `normalizeTwilioStatus`
unfoldable pub normalize_twilio_status : String → SendStatus
normalize_twilio_status status =
    let normalized = to_lower status in
    if includes normalized ("failed" ∷ "undelivered" ∷ "canceled" ∷ [])
    then failed
    else if normalized == "sent"
    then sent
    else queued

-- `updateMany` on the log: the rows that satisfy a condition are changed.
unfoldable pub update_logs : (SendLog → Bool) → (SendLog → SendLog) → List SendLog → List SendLog
update_logs p change [] = []
update_logs p change (l ∷ ls) = (if p l then change l else l) ∷ update_logs p change ls

abbrev pub count_is_one : (SendLog → Bool) → List SendLog → Bool
count_is_one p logs = eqb (length (filter p logs)) 1

-- The provider took the message: `status` is SENT for mail, and the normalized status for WhatsApp.
unfoldable pub record_sent :
    (id : String) → SendStatus → (message_id : String) → List SendLog → List SendLog
unfolding update_logs
record_sent id status message_id logs =
    update_logs (λ l. l.id == id && is_queued l.status)
      (λ l. record l {
        status = status;
        provider_message_id = some message_id;
        provider_error = none;
      })
      logs

-- The `catch` of `sendInspectionReport`: it does not look at the status.
unfoldable pub record_failure : (id message : String) → List SendLog → List SendLog
unfolding update_logs
record_failure id message logs =
    update_logs (λ l. l.id == id) (λ l. record l { status = failed; provider_error = some message })
      logs

-- The status that a WhatsApp callback reports.
unfoldable pub whatsapp_status : String → SendStatus
whatsapp_status provider_status =
    let normalized = to_lower provider_status in
    if includes normalized ("delivered" ∷ "read" ∷ [])
    then delivered
    else if normalized == "sent"
    then sent
    else if includes normalized ("failed" ∷ "undelivered" ∷ "canceled" ∷ [])
    then failed
    else queued

-- The statuses that a reported status may follow.
unfoldable pub may_follow : SendStatus → SendStatus → Bool
may_follow failed old = is_queued old || is_sent old
may_follow delivered old = is_queued old || is_sent old
may_follow sent old = is_queued old
may_follow queued old = is_queued old

-- `existing.providerMessageId && existing.providerMessageId !== input.providerMessageId`
abbrev pub other_message : Option String → String → Bool
other_message known message_id =
    let m = get_or known "" in not (is_empty m) && not (m == message_id)

-- `updateInspectionWhatsAppStatus`: whether it changed the log, and the log. The row is looked up in
-- `seen`.
unfoldable pub update_inspection_whatsapp_status :
    (id message_id provider_status : String)
    → Option String
    → (seen logs : List SendLog) → Bool × List SendLog
unfolding whatsapp_status may_follow update_logs
update_inspection_whatsapp_status id message_id provider_status error seen logs =
    let status = whatsapp_status provider_status in
    let change = λ (l : SendLog). record l {
      status = status;
      provider_message_id = some message_id;
      provider_error = error;
    } in
    let fits = λ (l : SendLog). l.id == id && may_follow status l.status in
    elim (find (λ (l : SendLog). l.id == id) seen) [
      | none ↦ (false, logs)
      | some existing ↦
          if not (is_whatsapp existing.channel)
            || other_message existing.provider_message_id message_id
          then (false, logs)
          else (count_is_one fits logs, update_logs fits change logs)
    ]

-- The status that a mail event reports, if any.
unfoldable pub email_status : String → Option SendStatus
email_status event_type =
    let event = to_lower event_type in
    if event == "email.delivered"
    then some delivered
    else if includes event ("email.bounced" ∷ "email.failed" ∷ "email.complained" ∷ [])
    then some failed
    else if event == "email.sent"
    then some sent
    else none

abbrev pub is_message : String → Option String → Bool
is_message message_id none = false
is_message message_id (some m) = m == message_id

-- `{ id: sendLogId }` with its message id, or `{ providerMessageId }` where no id is given
unfoldable pub is_addressed : Option String → String → SendLog → Bool
is_addressed send_log_id message_id l =
    let id = get_or send_log_id "" in
    let same = is_message message_id l.provider_message_id in
    if is_empty id then same else l.id == id && (not (is_some l.provider_message_id) || same)

-- `providerError` of a mail event
abbrev email_error : SendStatus → Option String → String → Option String
email_error failed error event = some (get_or error event)
email_error _ error event = none

unfoldable pub update_inspection_email_status :
    (message_id : String)
    → Option String
    → (event_type : String) → Option String
    → List SendLog
    → Bool × List SendLog
unfolding email_status is_addressed may_follow update_logs
update_inspection_email_status message_id send_log_id event_type error logs =
    elim (email_status event_type) [
      | none ↦ (false, logs)
      | some status ↦
          let change = λ (l : SendLog). record l {
            status = status;
            provider_message_id = some message_id;
            provider_error = email_error status error (to_lower event_type);
          } in
          let fits = λ (l : SendLog).
            is_addressed send_log_id message_id l
            && (not (is_whatsapp l.channel) && may_follow status l.status) in
          (count_is_one fits logs, update_logs fits change logs)
    ]
