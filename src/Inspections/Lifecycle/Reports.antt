-- ===== src/Inspections/Lifecycle/Reports.antt =====
-- What later calls may still do to one report: nothing from another organization, nothing behind its
-- deletion, and nothing under an old revision (src/modules/inspections/inspection.service.ts).
use text.Mathlib.TextPositions.{eq_refl}
use my_detail_os_backend.Prelude.{
  ℕ, ◌+◌, ◌≤◌, String, some, lookup, lookup-insert, eqb, ◌≡◌, ◌≢◌, ◌⊎◌, refl, ap, sym, ◌∙◌, arith,
  Bool-cases, and_split, some_inj, eq_iff, inl, inr, ◌==◌,
}
use my_detail_os_backend.Errors.{ok}
use my_detail_os_backend.Json.{Fields}
use my_detail_os_backend.Scope.{BranchScope}
use my_detail_os_backend.Inspections.Records.{Env, Report, Tables}
use my_detail_os_backend.Inspections.Drafts.{update_inspection, edit}
use my_detail_os_backend.Inspections.Lifecycle.{
  Move, Writes, IsLive, opened, edited, closed, reopened, discarded, quiet,
}
use my_detail_os_backend.Inspections.Drafts.{prepare, in_branch}
use my_detail_os_backend.Inspections.Lifecycle.Moves.{commit_update_found}
use my_detail_os_backend.Inspections.Lifecycle.History.{
  Step, Reach, here, next, caller_of, Step-Move,
}
use my_detail_os_backend.Errors.{>>=-eq-ok}

-- A report before and behind a commit for an organization: it is as it was, or it was live and of
-- that organization, stays with it, and its revision is not lower.
Changes : String → Report → Report → Type 0
Changes org r r' =
    (r ≡ r') ⊎ (IsLive org r × (r'.organization_id ≡ org) × (r.revision ≤ r'.revision))

write-Changes :
    (org : String) (db db' : Tables) (id j : String) (r r' t : Report)
    → lookup id db.reports ≡ some r
    → IsLive org r
    → (r'.organization_id ≡ r.organization_id)
    → (r.revision ≤ r'.revision)
    → Writes id r' db db'
    → lookup j db.reports ≡ some t
    → (t' : Report) × (lookup j db'.reports ≡ some t') × Changes org t t'
unfolding Changes
write-Changes org db db' id j r r' t found live stays le writes h = elim (Bool-cases (id == j)) [
  | inl e ↦
      let same : r ≡ t = some_inj (sym found ∙ rw ((eq_iff id j).0 e) h) in
      (
        r',
        rw (writes, lookup-insert id j r' db.reports, e) refl,
        inr (rw (← same) (live, stays ∙ live.0, le)),
      )
  | inr e ↦ (t, rw (writes, lookup-insert id j r' db.reports, e) h, inl refl)
]

Move-Changes :
    (org : String) (db db' : Tables) (j : String) (t : Report)
    → Move org db db'
    → lookup j db.reports ≡ some t
    → (t' : Report) × (lookup j db'.reports ≡ some t') × Changes org t t'
unfolding Changes
Move-Changes org db db' j t (quiet reports kept) h = (t, rw reports h, inl refl)
Move-Changes org db db' j t (opened id r free live status first writes kept) h = (
  t,
  elim (Bool-cases (id == j)) [
    | inl e ↦ cc (rw ((eq_iff id j).0 e) at free, h)
    | inr e ↦ rw (writes, lookup-insert id j r db.reports, e) h
  ],
  inl refl,
)
Move-Changes org db db' j t (edited id r r' found live status change writes kept) h =
    let next = change.next_is in
    write-Changes org db db' id j r r' t found live change.same.organization (omega arith) writes h
Move-Changes org db db' j t (reopened id r r' found live status change writes kept) h =
    let next = change.next_is in
    write-Changes org db db' id j r r' t found live change.same.organization (omega arith) writes h
Move-Changes org db db' j t (discarded id r r' found live change writes kept) h =
    let same = change.revision_is in
    write-Changes org db db' id j r r' t found live change.same.organization (omega arith) writes h
Move-Changes org db db' j t (closed id r r' key found live status change free writes kept) h =
    let same = change.revision_is in
    write-Changes org db db' id j r r' t found live change.same.organization (omega arith) writes h

-- No commit changes a report of another organization than its caller's.
pub foreign_report_stays :
    {db db' : Tables} (s : Step db db') (id : String) (r : Report)
    → r.organization_id ≢ caller_of s
    → lookup id db.reports ≡ some r
    → lookup id db'.reports ≡ some r
unfolding Changes
foreign_report_stays s id r foreign h =
    let (r', found, change) = Move-Changes (caller_of s) _ _ id r (Step-Move s) h in
    elim change [ inl same ↦ rw same found | inr (live, stays, le) ↦ absurd (foreign live.0) ]

-- A deleted report never changes again, whatever is called after.
pub deleted_report_stays :
    (id : String) (r : Report) (at : ℕ) {db db' : Tables}
    → r.deleted_at ≡ some at
    → Reach db db'
    → lookup id db.reports ≡ some r
    → lookup id db'.reports ≡ some r
unfolding Changes
deleted_report_stays id r at gone here h = h
deleted_report_stays id r at gone (next reach s) h =
    let (r', found, change) =
      Move-Changes (caller_of s) _ _ id r (Step-Move s)
        (deleted_report_stays id r at gone reach h) in
    elim change [ inl same ↦ rw same found | inr (live, stays, le) ↦ cc (sym gone ∙ live.1) ]

revision_grows :
    (id : String) (r : Report) {db db' : Tables}
    → Reach db db'
    → lookup id db.reports ≡ some r
    → (r' : Report) × (lookup id db'.reports ≡ some r') × (r.revision ≤ r'.revision)
unfolding Changes
revision_grows id r here h = (r, h, omega arith)
revision_grows id r (next reach s) h =
    let (r', found, le) = revision_grows id r reach h in
    let (r'', found', change) = Move-Changes (caller_of s) _ _ id r' (Step-Move s) found in
    elim change [
      | inl same ↦ (r', rw same found', le)
      | inr (live, stays, le') ↦ (r'', found', omega arith)
    ]

-- What a successful update found, and the revision that it leaves.
update_found :
    (env : Env) (scope : BranchScope) (actor id : String) (expected : ℕ) (payload : Fields)
    (seen db : Tables) {db' : Tables}
    → update_inspection env scope actor id expected payload seen db ≡ ok db'
    → (r r' : Report) × (lookup id db.reports ≡ some r)
      × (r.revision ≡ expected)
      × (lookup id db'.reports ≡ some r')
      × (r'.revision ≡ expected + 1)
unfolding update_inspection
update_found env scope actor id expected payload seen db h =
    let (p, ready, done) = >>=-eq-ok (prepare env scope payload) _ h in
    let (r, found, holds, reports, versions) =
      commit_update_found env scope actor p.0 id expected p.1 seen db done in
    let (live, at) = and_split (in_branch scope p.0 r) _ holds in
    let (revision_is, status_is) = and_split (eqb r.revision expected) _ at in
    (
      r,
      edit actor p.1 r,
      found,
      ground arith,
      rw (reports, lookup-insert id id (edit actor p.1 r) db.reports, eq_refl id) refl,
      ground arith,
    )

-- No update is lost: once an update from a revision has been committed, no later update from the same
-- revision ever is, whoever calls it, whatever it read before, and whatever happened in between.
pub update_once :
    (env env' : Env) (scope scope' : BranchScope) (actor actor' id : String) (expected : ℕ)
    (payload payload' : Fields) (seen seen' db last : Tables) {db' later : Tables}
    → update_inspection env scope actor id expected payload seen db ≡ ok db'
    → Reach db' later
    → ¬ (update_inspection env' scope' actor' id expected payload' seen' later ≡ ok last)
update_once env env' scope scope' actor actor' id expected payload payload' seen seen' db last h
      between again =
    let (r, r', found, at, found', next_) =
      update_found env scope actor id expected payload seen db h in
    let (q, q', early, old, early', n) =
      update_found env' scope' actor' id expected payload' seen' _ again in
    let (t, now, le) = revision_grows id r' between found' in
    let same : t ≡ q = some_inj (sym now ∙ early) in
    let le' = ap (λ (x : Report). x.revision) same in absurd (omega arith)
