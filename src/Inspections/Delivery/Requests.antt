-- ===== src/Inspections/Delivery/Requests.antt =====
-- A request to send starts one send at most (src/modules/inspections/inspection-delivery.service.ts).
use mathlib.Core.Bool.{or-true}
use text.Mathlib.TextPositions.{eq_refl}
use my_detail_os_backend.Prelude.{
  String, Bool, true, Option, ◌⊎◌, List, [], ◌∷◌, some, find, any, is_empty, ◌≡◌, refl, ap, ◌∙◌,
  inl, inr, Bool-cases, Option-cases,
}
use my_detail_os_backend.Errors.{
  ok, ok_inj, absurd_err, guard-eq-ok, >>=-eq-ok, conflict_error, forbidden_error, ◌>>=◌,
}
use my_detail_os_backend.Inspections.Records.{Tables, find_report, find_version}
use my_detail_os_backend.Inspections.Delivery.{
  SendLog, SendInput, Accepted, new_log, started, replayed, accept_send, create_log, from_log,
  replay, has_request, log_visible, is_sendable,
}
use my_detail_os_backend.Inspections.Delivery.Settled.{
  Change, same, moved, overwritten, Extends, nil, row, Signal, failing, Signal-Extends,
}

replayed_not_started : {a b : SendLog} → replayed a ≡ started b → ⊥
replayed_not_started h = cc

-- An answer from the log starts nothing.
not_replayed :
    (input : SendInput) (raced l : SendLog) (logs logs' : List SendLog)
    → ¬ ((replay input raced >>= from_log logs) ≡ ok (started l, logs'))
not_replayed input raced l logs logs' h =
    let (r, answer, done) = >>=-eq-ok (replay input raced) (from_log logs) h in
    absurd (replayed_not_started (ap (λ x. x.0) (ok_inj done)))

create_log_known :
    (id key : String) (input : SendInput) (logs logs' : List SendLog) (raced l : SendLog)
    → find (has_request input.scope.organization_id input.request_id) logs ≡ some raced
    → ¬ (create_log id key input logs ≡ ok (started l, logs'))
unfolding create_log
create_log_known id key input logs logs' raced l found h =
    not_replayed input raced l logs logs' (rw (create_log, found) at h)

-- A call that is accepted is answered from the log, or goes on to create a log.
accept_send_cases :
    (locked : Bool) (id : String) (input : SendInput) (db : Tables) (seen logs logs' : List SendLog)
    (a : Accepted)
    → accept_send locked id input db seen logs ≡ ok (a, logs')
    → ((existing : SendLog) × ((replay input existing >>= from_log logs) ≡ ok (a, logs')))
      ⊎ ((key : String) × (create_log id key input logs ≡ ok (a, logs')))
unfolding accept_send
accept_send_cases locked id input db seen logs logs' a h =
    elim (Option-cases (find (log_visible input db) seen)) [
      | inr (existing, e) ↦ inl (existing, rw (accept_send, e) at h)
      | inl e ↦ elim (Option-cases (find_report input.report_id (is_sendable input) db)) [
        | inl f ↦ absurd_err (rw (accept_send, e, f) at h)
        | inr (r, f) ↦ elim (Option-cases (find_version input.report_id input.revision db)) [
          | inl g ↦ absurd_err (rw (accept_send, e, f, g) at h)
          | inr (v, g) ↦
              let (has_key, h1) =
                guard-eq-ok (is_empty v.document_key)
                  (conflict_error "The finalized inspection PDF is unavailable.") _
                  (rw (accept_send, e, f, g) at h) in
              let (unlocked, h2) =
                guard-eq-ok locked
                  (forbidden_error
                    "Inspection PDF sending is locked by the organization subscription.")
                  _ h1 in
              inr (v.document_key, h2)
        ]
      ]
    ]

-- A started send has created its log.
accept_send_started :
    (locked : Bool) (id : String) (input : SendInput) (db : Tables) (seen logs logs' : List SendLog)
    (l : SendLog)
    → accept_send locked id input db seen logs ≡ ok (started l, logs')
    → (key : String) × (create_log id key input logs ≡ ok (started l, logs'))
accept_send_started locked id input db seen logs logs' l h =
    elim (accept_send_cases locked id input db seen logs logs' (started l) h) [
      | inl (existing, answer) ↦ absurd (not_replayed input existing l logs logs' answer)
      | inr created ↦ created
    ]

-- A request id that is in the log starts no other send, whoever asks, and whatever the call has read.
known_request_not_started :
    (locked : Bool) (id : String) (input : SendInput) (db : Tables) (seen logs logs' : List SendLog)
    (raced l : SendLog)
    → find (has_request input.scope.organization_id input.request_id) logs ≡ some raced
    → ¬ (accept_send locked id input db seen logs ≡ ok (started l, logs'))
known_request_not_started locked id input db seen logs logs' raced l found h =
    let (key, done) = accept_send_started locked id input db seen logs logs' l h in
    create_log_known id key input logs logs' raced l found done

Change-has_request :
    (org request : String) (failing : Option String) {l m : SendLog}
    → Change failing l m
    → has_request org request m ≡ has_request org request l
Change-has_request org request failing same = refl
Change-has_request org request failing (moved open_ same_id same_org same_request) =
    rw (same_org, same_request) refl
Change-has_request org request failing (overwritten h) = refl

-- The keys of a log are kept.
Extends-has_request :
    (org request : String) (failing : Option String) {logs logs' : List SendLog}
    → Extends failing logs logs'
    → any (has_request org request) logs' ≡ any (has_request org request) logs
Extends-has_request org request failing nil = refl
Extends-has_request org request failing (row change e) =
    rw (Change-has_request org request failing change, Extends-has_request org request failing e)
      refl

from_log_keeps :
    (input : SendInput) (raced : SendLog) (logs logs' : List SendLog) (a : Accepted)
    → (replay input raced >>= from_log logs) ≡ ok (a, logs')
    → logs ≡ logs'
from_log_keeps input raced logs logs' a h =
    let (r, answer, done) = >>=-eq-ok (replay input raced) (from_log logs) h in
    ap (λ x. x.1) (ok_inj done)

create_log_keeps :
    (org request id key : String) (input : SendInput) (logs logs' : List SendLog) (a : Accepted)
    → create_log id key input logs ≡ ok (a, logs')
    → any (has_request org request) logs ≡ true
    → any (has_request org request) logs' ≡ true
unfolding create_log
create_log_keeps org request id key input logs logs' a h known =
    elim (Option-cases (find (has_request input.scope.organization_id input.request_id) logs)) [
      | inr (raced, e) ↦
          rw (← from_log_keeps input raced logs logs' a (rw (create_log, e) at h)) known
      | inl e ↦
          let done = ap (λ x. x.1) (ok_inj (rw (create_log, e) at h)) in
          rw (← done, known) (or-true (has_request org request (new_log id key input)))
    ]

accept_send_keeps :
    (org request : String) (locked : Bool) (id : String) (input : SendInput) (db : Tables)
    (seen logs logs' : List SendLog) (a : Accepted)
    → accept_send locked id input db seen logs ≡ ok (a, logs')
    → any (has_request org request) logs ≡ true
    → any (has_request org request) logs' ≡ true
accept_send_keeps org request locked id input db seen logs logs' a h known =
    elim (accept_send_cases locked id input db seen logs logs' a h) [
      | inl (existing, answer) ↦ rw (← from_log_keeps input existing logs logs' a answer) known
      | inr (key, done) ↦ create_log_keeps org request id key input logs logs' a done known
    ]

-- What happens to the log: a call that is accepted, a request of any organization and by anyone, or
-- what follows on one.
pub data Event (logs logs' : List SendLog) : Type 0 where
  accepted :
      (locked : Bool) (id : String) (input : SendInput) (db : Tables) (seen : List SendLog)
      (a : Accepted)
      → accept_send locked id input db seen logs ≡ ok (a, logs')
      → Event logs logs'
  signalled : Signal logs logs' → Event logs logs'

-- Events in any order.
pub data Events (start : List SendLog) : List SendLog → Type 0 where
  here : Events start start
  next : {logs logs' : List SendLog} → Events start logs → Event logs logs' → Events start logs'

Event-has_request :
    (org request : String) {logs logs' : List SendLog}
    → Event logs logs'
    → any (has_request org request) logs ≡ true
    → any (has_request org request) logs' ≡ true
Event-has_request org request (accepted locked id input db seen a h) known =
    accept_send_keeps org request locked id input db seen _ _ a h known
Event-has_request org request (signalled s) known =
    Extends-has_request org request (failing s) (Signal-Extends s) ∙ known

Events-has_request :
    (org request : String) {logs logs' : List SendLog}
    → Events logs logs'
    → any (has_request org request) logs ≡ true
    → any (has_request org request) logs' ≡ true
Events-has_request org request here h = h
Events-has_request org request (next before e) h =
    Event-has_request org request e (Events-has_request org request before h)

find-any :
    (p : SendLog → Bool) (logs : List SendLog)
    → any p logs ≡ true
    → (l : SendLog) × (find p logs ≡ some l)
find-any p [] h = cc
find-any p (l ∷ ls) h = elim (Bool-cases (p l)) [
  | inl e ↦ (l, rw e refl)
  | inr e ↦ let (m, found) = find-any p ls (rw e at h) in (m, rw e found)
]

create_log_started :
    (id key : String) (input : SendInput) (logs logs' : List SendLog) (l : SendLog)
    → create_log id key input logs ≡ ok (started l, logs')
    → any (has_request input.scope.organization_id input.request_id) logs' ≡ true
unfolding create_log
create_log_started id key input logs logs' l h =
    let org = input.scope.organization_id in
    elim (Option-cases (find (has_request org input.request_id) logs)) [
      | inr (raced, e) ↦ absurd (not_replayed input raced l logs logs' (rw (create_log, e) at h))
      | inl e ↦
          let same = ap (λ x. x.1) (ok_inj (rw (create_log, e) at h)) in
          rw (← same, eq_refl org, eq_refl input.request_id) refl
    ]

-- A request is sent at most once: once it has started a send, the same request id of the organization
-- never starts another one, whoever asks, and whatever the call has read. In between, in any number and
-- order, other requests may be accepted, providers may answer, calls of them may fail, and callbacks may
-- come.
pub send_once :
    (locked locked' : Bool) (id id' : String) (input input' : SendInput) (db db' : Tables)
    (seen seen' logs logs' later last : List SendLog) (l l' : SendLog)
    → accept_send locked id input db seen logs ≡ ok (started l, logs')
    → Events logs' later
    → input'.scope.organization_id ≡ input.scope.organization_id
    → input'.request_id ≡ input.request_id
    → ¬ (accept_send locked' id' input' db' seen' later ≡ ok (started l', last))
send_once locked locked' id id' input input' db db' seen seen' logs logs' later last l l' h between
      same_org same_request again =
    let (key, done) = accept_send_started locked id input db seen logs logs' l h in
    let known =
      Events-has_request input.scope.organization_id input.request_id between
        (create_log_started id key input logs logs' l done) in
    let (raced, found) =
      find-any (has_request input.scope.organization_id input.request_id) later known in
    known_request_not_started locked' id' input' db' seen' later last raced l'
      (rw (same_org, same_request) found) again
