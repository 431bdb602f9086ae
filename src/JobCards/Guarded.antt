-- ===== src/JobCards/Guarded.antt =====
-- What a write of a job card may change (src/modules/job-cards/job-cards.service.ts).
use mathlib.Core.Path.{subst}
use text.Mathlib.TextPositions.{eq_refl}
use my_detail_os_backend.Prelude.{
  ◌+◌, ◌<◌, String, Bool, true, false, ◌&&◌, ◌==◌, ◌≡◌, ◌≢◌, refl, Option, none, some, any, inl,
  inr, ◌⊎◌, [], ◌∷◌, arith, lookup, is_empty, Bool-cases,
}
use my_detail_os_backend.Errors.{ok, >>=-eq-ok}
use my_detail_os_backend.Prelude.Int.{ℤ, pos_part, neg_part, ◌-ℤ◌}
use my_detail_os_backend.Json.{
  Json, null, bool, num, str, arr, obj, Fields, get, named_fields, is_object,
}
use my_detail_os_backend.Store.{Env, get_collection_item}
use my_detail_os_backend.Store.Rows.{Table, owned}
use my_detail_os_backend.JobCards.{
  is_text, bills_job_card, invoice_exists_for_job_card, num_eq, services_of, index_services,
  job_card_has_pricing_delta, job_card_pricing_editable, evaluate_job_card_pricing_write, job_id,
  has_invoice_for, assert_job_card_pricing_allowed, JobCardWriteContext, upsert_job_card,
  write_job_card,
}
use my_detail_os_backend.JobCards.Delta.{no_delta_price}

-- The guard of a card that passes.
assert_passed :
    (org : String) (prev next : Json) (permission : Bool) (t : Table)
    → is_object prev ≡ true
    → is_object next ≡ true
    → assert_job_card_pricing_allowed org (some prev) next permission t ≡ ok tt
    → (job_card_has_pricing_delta (named_fields prev) (named_fields next) ≡ false)
      ⊎ ((permission ≡ true)
          × (job_card_pricing_editable
                (get "status" (named_fields prev))
                (has_invoice_for org (job_id (named_fields prev) (named_fields next)) t)
              ≡ true))
unfolding assert_job_card_pricing_allowed evaluate_job_card_pricing_write
assert_passed org prev next permission t was is h = ground arith

is_empty-eq : (s : String) → is_empty s ≡ true → s ≡ ""
is_empty-eq String.[] h = refl
is_empty-eq (String.◌∷◌ c s) h = cc

-- What the lock of prices asks of a card: its status is not one of the two that are locked, and no
-- invoice of the organization is for the id, where there is an id.
pub record IsUnlocked (org : String) (prev next : Fields) (t : Table) : Type 0 where
  pub not_delivered : get "status" prev ≢ some (str "DELIVERED")
  pub not_cancelled : get "status" prev ≢ some (str "CANCELLED")
  pub not_invoiced :
      (id : String)
      → id ≢ ""
      → job_id prev next ≡ id
      → any (λ r. r.collection == "invoices" && owned org r && bills_job_card id r) t ≡ false

not_text : (s : String) (v : Option Json) → is_text s v ≡ false → v ≢ some (str s)
not_text s v h e = cc (rw (e, eq_refl s) at h)

no_invoice :
    (org id : String) (t : Table)
    → has_invoice_for org id t ≡ false
    → id ≢ ""
    → any (λ r. r.collection == "invoices" && owned org r && bills_job_card id r) t ≡ false
unfolding invoice_exists_for_job_card
no_invoice org id t h full = elim (Bool-cases (is_empty id)) [
  | inl e ↦ absurd (full (is_empty-eq id e))
  | inr e ↦ rw e at h
]

editable-IsUnlocked :
    (org : String) (prev next : Fields) (t : Table)
    → job_card_pricing_editable (get "status" prev) (has_invoice_for org (job_id prev next) t)
      ≡ true
    → IsUnlocked org prev next t
unfolding job_card_pricing_editable
editable-IsUnlocked org prev next t h =
    let delivered : is_text "DELIVERED" (get "status" prev) ≡ false = ground arith in
    let cancelled : is_text "CANCELLED" (get "status" prev) ≡ false = ground arith in
    let invoiced : has_invoice_for org (job_id prev next) t ≡ false = ground arith in
    record {
      not_delivered = not_text "DELIVERED" (get "status" prev) delivered;
      not_cancelled = not_text "CANCELLED" (get "status" prev) cancelled;
      not_invoiced = λ id full same.
          no_invoice org id t (subst (λ x. has_invoice_for org x t ≡ false) same invoiced) full;
    }

-- Where a stored job card and its new payload are objects, a write that succeeds has no pricing
-- delta; or its caller has the pricing permission, the status of the stored card is neither DELIVERED
-- nor CANCELLED, and no invoice of the organization is for the id that the payload gives, or, where it
-- gives none, for the id in the stored card.
pub upsert_job_card_guarded :
    (env : Env) (id : String) (prev payload : Json) (ctx : JobCardWriteContext) (t : Table)
    {t' : Table}
    → upsert_job_card env id payload ctx t ≡ ok t'
    → get_collection_item t "jobCards" id (some ctx.write.organization_id) ≡ some prev
    → is_object prev ≡ true
    → is_object payload ≡ true
    → (job_card_has_pricing_delta (named_fields prev) (named_fields payload) ≡ false)
      ⊎ ((ctx.has_pricing_permission ≡ true)
          × IsUnlocked ctx.write.organization_id (named_fields prev) (named_fields payload) t)
unfolding upsert_job_card
upsert_job_card_guarded env id prev payload ctx t h found was is =
    let org = ctx.write.organization_id in
    let (u, passed, rest) =
      >>=-eq-ok
        (assert_job_card_pricing_allowed org (get_collection_item t "jobCards" id (some org))
          payload ctx.has_pricing_permission t)
        (λ (_ : Unit {0}).
          write_job_card env id payload ctx.write (get_collection_item t "jobCards" id (some org))
            t)
        h in
    let passed' : assert_job_card_pricing_allowed org (some prev) payload ctx.has_pricing_permission
          t
        ≡ ok tt =
      subst
        (λ x. assert_job_card_pricing_allowed org x payload ctx.has_pricing_permission t ≡ ok tt)
        found passed in
    elim (assert_passed org prev payload ctx.has_pricing_permission t was is passed') [
      | inl same ↦ inl same
      | inr (allowed_, editable) ↦
          inr (
            allowed_,
            editable-IsUnlocked org (named_fields prev) (named_fields payload) t editable,
          )
    ]

-- Two prices that count as the same, one of which is a number.
num_eq_near :
    (m : ℤ) (v : Option Json)
    → num_eq (some (num m)) v ≡ true
    → (n : ℤ) × (v ≡ some (num n)) × (pos_part (m -ℤ n) + neg_part (m -ℤ n) < 10)
unfolding num_eq
num_eq_near m none h = cc
num_eq_near m (some null) h = cc
num_eq_near m (some (bool b)) h = cc
num_eq_near m (some (num n)) h = (n, refl, ground arith)
num_eq_near m (some (str s)) h = cc
num_eq_near m (some (arr vs)) h = cc
num_eq_near m (some (obj fs)) h = cc

-- Where a stored job card and its new payload are objects, a write that succeeds without the
-- pricing permission keeps numeric prices: where the last stored service line of a key has a price that
-- is a number, and the payload has lines of that key, the price of the last of them is a number that is
-- less than 0.001 away.
pub upsert_job_card_keeps_prices :
    (env : Env) (id : String) (prev payload : Json) (ctx : JobCardWriteContext) (t : Table)
    (k : String) (p n : Fields) (price : ℤ) {t' : Table}
    → upsert_job_card env id payload ctx t ≡ ok t'
    → ctx.has_pricing_permission ≡ false
    → get_collection_item t "jobCards" id (some ctx.write.organization_id) ≡ some prev
    → is_object prev ≡ true
    → is_object payload ≡ true
    → lookup k (index_services (services_of (named_fields prev)) []) ≡ some p
    → lookup k (index_services (services_of (named_fields payload)) []) ≡ some n
    → get "price" p ≡ some (num price)
    → (price' : ℤ) × (get "price" n ≡ some (num price'))
      × (pos_part (price -ℤ price') + neg_part (price -ℤ price') < 10)
upsert_job_card_keeps_prices env id prev payload ctx t k p n price h denied found was is old new
      priced =
    let same : job_card_has_pricing_delta (named_fields prev) (named_fields payload) ≡ false =
      elim (upsert_job_card_guarded env id prev payload ctx t h found was is) [
        | inl same ↦ same
        | inr (allowed_, _) ↦ cc (denied, allowed_)
      ] in
    num_eq_near price (get "price" n) (
      subst (λ x. num_eq x (get "price" n) ≡ true) priced
        (no_delta_price (named_fields prev) (named_fields payload) k p n same old new))
