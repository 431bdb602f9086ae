-- ===== src/Inspections/Delivery/Settled.antt =====
-- What the log of sends keeps (src/modules/inspections/inspection-delivery.service.ts).
use my_detail_os_backend.Prelude.{
  String, Bool, true, false, not, ◌||◌, List, [], ◌∷◌, Option, none, some, find, ◌≡◌, refl, arith,
  inl, inr, Bool-cases, Option-cases, and_split, eq_iff, ◌==◌,
}
use my_detail_os_backend.Inspections.Delivery.{
  SendLog, SendStatus, queued, sent, delivered, failed, is_queued, is_sent, may_follow, update_logs,
  record_sent, record_failure, update_inspection_whatsapp_status, update_inspection_email_status,
  whatsapp_status, email_status, is_addressed, is_whatsapp, other_message,
}

-- A send that is delivered or failed.
abbrev pub is_settled : SendStatus → Bool
is_settled s = not (is_queued s || is_sent s)

-- What may become of one row where the calls of `failing`, if any, fail: it stays as it is; it changes
-- while it is not settled, and keeps its id, organization and request id; or it is the row of the call
-- that failed, and only its status and its error are set.
pub data Change (failing : Option String) (l : SendLog) : SendLog → Type 0 where
  same : Change failing l l
  moved :
      {m : SendLog}
      → is_settled l.status ≡ false
      → m.id ≡ l.id
      → m.organization_id ≡ l.organization_id
      → m.request_id ≡ l.request_id
      → Change failing l m
  overwritten :
      {message : String}
      → failing ≡ some l.id
      → Change failing l (record l { status = failed; provider_error = some message })

-- The rows of the log before stand in the log behind in place, each with a change that is allowed.
pub data Extends (failing : Option String) : List SendLog → List SendLog → Type 0 where
  nil : Extends failing [] []
  row :
      {l m : SendLog} {ls ms : List SendLog}
      → Change failing l m
      → Extends failing ls ms
      → Extends failing (l ∷ ls) (m ∷ ms)

update_logs-Extends :
    (failing : Option String) (p : SendLog → Bool) (change : SendLog → SendLog)
    (logs : List SendLog)
    → ((l : SendLog) → p l ≡ true → Change failing l (change l))
    → Extends failing logs (update_logs p change logs)
unfolding update_logs
update_logs-Extends failing p change [] allowed = nil
update_logs-Extends failing p change (l ∷ ls) allowed = elim (Bool-cases (p l)) [
  | inl e ↦ rw e (row (allowed l e) (update_logs-Extends failing p change ls allowed))
  | inr e ↦ rw e (row same (update_logs-Extends failing p change ls allowed))
]

refl-Extends : (failing : Option String) (logs : List SendLog) → Extends failing logs logs
refl-Extends failing [] = nil
refl-Extends failing (l ∷ ls) = row same (refl-Extends failing ls)

may_follow_open : (new old : SendStatus) → may_follow new old ≡ true → is_settled old ≡ false
unfolding may_follow
may_follow_open queued old h = ground arith
may_follow_open sent old h = ground arith
may_follow_open delivered old h = ground arith
may_follow_open failed old h = ground arith

queued_open : (s : SendStatus) → is_queued s ≡ true → is_settled s ≡ false
queued_open s h = ground arith

-- What a call does to the log behind the start of a send: the provider took the message, the call of
-- the provider or a later step threw, or a callback came.
pub data Signal (logs logs' : List SendLog) : Type 0 where
  took :
      (id message_id : String) (status : SendStatus)
      → logs' ≡ record_sent id status message_id logs
      → Signal logs logs'
  threw : (id message : String) → logs' ≡ record_failure id message logs → Signal logs logs'
  whatsapp :
      (id message_id provider_status : String) (error : Option String) (seen : List SendLog)
      → logs' ≡ (update_inspection_whatsapp_status id message_id provider_status error seen logs).1
      → Signal logs logs'
  email :
      (message_id event_type : String) (id error : Option String)
      → logs' ≡ (update_inspection_email_status message_id id event_type error logs).1
      → Signal logs logs'

-- The send whose call threw.
abbrev pub failing : {logs logs' : List SendLog} → Signal logs logs' → Option String
failing (took id message_id status h) = none
failing (threw id message h) = some id
failing (whatsapp id message_id provider_status error seen h) = none
failing (email message_id event_type id error h) = none

record_sent-Extends :
    (id message_id : String) (status : SendStatus) (logs : List SendLog)
    → Extends none logs (record_sent id status message_id logs)
unfolding record_sent
record_sent-Extends id message_id status logs =
    update_logs-Extends none _ _ logs
      (λ l h. moved (queued_open l.status (and_split (l.id == id) _ h).1) refl refl refl)

record_failure-Extends :
    (id message : String) (logs : List SendLog)
    → Extends (some id) logs (record_failure id message logs)
unfolding record_failure
record_failure-Extends id message logs =
    update_logs-Extends (some id) _ _ logs (λ l h. overwritten (rw ((eq_iff l.id id).0 h) refl))

whatsapp-Extends :
    (id message_id provider_status : String) (error : Option String) (seen logs : List SendLog)
    → Extends none logs
        (update_inspection_whatsapp_status id message_id provider_status error seen logs).1
unfolding update_inspection_whatsapp_status
whatsapp-Extends id message_id provider_status error seen logs =
    elim (Option-cases (find (λ (l : SendLog). l.id == id) seen)) [
      | inl e ↦ rw (update_inspection_whatsapp_status, e) (refl-Extends none logs)
      | inr (existing, e) ↦
          elim (Bool-cases (
            not (is_whatsapp existing.channel)
            || other_message existing.provider_message_id message_id)) [
              | inl f ↦ rw (update_inspection_whatsapp_status, e, f) (refl-Extends none logs)
              | inr f ↦
                  rw (update_inspection_whatsapp_status, e, f)
                    (update_logs-Extends none _ _ logs (λ l h.
                      moved
                        (may_follow_open (whatsapp_status provider_status) l.status
                          (and_split (l.id == id) _ h).1)
                        refl refl refl))
            ]
    ]

email-Extends :
    (message_id event_type : String) (id error : Option String) (logs : List SendLog)
    → Extends none logs (update_inspection_email_status message_id id event_type error logs).1
unfolding update_inspection_email_status
email-Extends message_id event_type id error logs = elim (Option-cases (email_status event_type)) [
  | inl e ↦ rw (update_inspection_email_status, e) (refl-Extends none logs)
  | inr (status, e) ↦
      rw (update_inspection_email_status, e)
        (update_logs-Extends none _ _ logs (λ l h.
          moved
            (may_follow_open status l.status
              (and_split (not (is_whatsapp l.channel)) _
                (and_split (is_addressed id message_id l) _ h).1).1)
            refl refl refl))
]

-- Every answer of a provider, every callback and every failed call leaves each row of the log in its
-- place. A send that is delivered or failed stays as it is, whatever is repeated, late or reordered,
-- but for one case: where the call of its own send threw, its status is set to FAILED, with the error,
-- whatever the status was, also where it was delivered. A row keeps its id, organization and request id.
pub Signal-Extends :
    {logs logs' : List SendLog} (s : Signal logs logs') → Extends (failing s) logs logs'
Signal-Extends (took id message_id status h) = rw h (record_sent-Extends id message_id status _)
Signal-Extends (threw id message h) = rw h (record_failure-Extends id message _)
Signal-Extends (whatsapp id message_id provider_status error seen h) =
    rw h (whatsapp-Extends id message_id provider_status error seen _)
Signal-Extends (email message_id event_type id error h) =
    rw h (email-Extends message_id event_type id error _)
