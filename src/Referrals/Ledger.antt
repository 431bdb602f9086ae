-- ===== src/Referrals/Ledger.antt =====
-- The ledger of referral points adds up to the wallets, and no wallet is overdrawn
-- (src/modules/organization/referral-wallet.service.ts).
use mathlib.Core.Path.{subst}
use text.Mathlib.TextPositions.{eq_refl}
use my_detail_os_backend.Prelude.{
  ℕ, String, true, false, List, [], ◌∷◌, map, filter, length, Option, none, some, ◌≡◌, ◌⊎◌, refl,
  sym, ◌∙◌, inl, inr, arith, Bool-cases, Option-cases, All, ◌==◌, eq_iff, if◌then◌else◌,
}
use my_detail_os_backend.Prelude.Int.{
  ℤ, pos, ◌+ℤ◌, ◌-ℤ◌, ◌≤ℤ◌, leb_ℤ, +ℤ_parts, -ℤ_parts, eq_of_parts,
}
use my_detail_os_backend.Errors.{ok}
use my_detail_os_backend.Referrals.{
  Database, ReferralWallet, ReferralTransaction, Breakdown, can_pay, debit, redeem_row,
  points_applied, redeem_wallet_points, create_transaction, create_discount, credit_row,
  upsert_wallet, add_points, credit_referrer_wallet, find_wallet, referrer_points_on_paid,
  referrer_points,
}
use my_detail_os_backend.Referrals.Commit.{redeem_cases, credit_cases, commit_credit_cases}

-- The points that a wallet's ledger rows add up to.
unfoldable pub sum_of : String → List ReferralTransaction → ℤ
sum_of id [] = pos 0
sum_of id (t ∷ ts) = let rest = sum_of id ts in if t.wallet_id == id then t.points +ℤ rest else rest

abbrev IsSoundWallet : List ReferralTransaction → ReferralWallet → Type 0
IsSoundWallet ts w = (pos 0 ≤ℤ w.points) × (w.points ≡ sum_of w.id ts)

-- Every wallet has the points that its ledger adds up to, and not fewer than none.
abbrev pub IsSound : Database → Type 0
IsSound db = All (IsSoundWallet db.transactions) db.wallets

-- An id that no wallet has, and no ledger row.
abbrev pub IsFresh : String → Database → Type 0
IsFresh id db =
    All (λ w. (w.id == id) ≡ false) db.wallets
    × All (λ t. (t.wallet_id == id) ≡ false) db.transactions

-- A wallet that can pay has a ledger that adds up to what it pays.
payer_covers :
    (id : String) (applied : ℕ) (ts : List ReferralTransaction) (ws : List ReferralWallet)
    → All (IsSoundWallet ts) ws
    → length (filter (can_pay id applied) ws) ≡ 1
    → leb_ℤ (pos applied) (sum_of id ts) ≡ true
payer_covers id applied ts [] h one = absurd (omega arith)
payer_covers id applied ts (w ∷ ws) h one = elim (Bool-cases (can_pay id applied w)) [
  | inl e ↦ ground (arith, eq_iff w.id id, h.0.1)
  | inr e ↦ payer_covers id applied ts ws h.1 (rw e at one)
]

debit-IsSoundWallet :
    (id : String) (applied : ℕ) (discount : ℤ) (org payment : String)
    (ts : List ReferralTransaction) (w : ReferralWallet)
    → leb_ℤ (pos applied) (sum_of id ts) ≡ true
    → IsSoundWallet ts w
    → IsSoundWallet (redeem_row id applied discount org payment ∷ ts) (debit id applied w)
unfolding sum_of
debit-IsSoundWallet id applied discount org payment ts w covers (h, s) =
    let facts : (id ≡ w.id) ⊎ ((id == w.id) ≡ false) = ground (arith, eq_iff id w.id) in
    elim facts [
      | inl e ↦ ground (
        arith,
        eq_iff w.id id,
        -ℤ_parts w.points (pos applied),
        -ℤ_parts (pos 0) (pos applied),
        +ℤ_parts (pos 0 -ℤ pos applied) (sum_of w.id ts),
        eq_of_parts (w.points -ℤ pos applied) ((pos 0 -ℤ pos applied) +ℤ sum_of w.id ts),
      )
      | inr e ↦ ground (arith, eq_iff w.id id, eq_iff id w.id)
    ]

debit-IsSound :
    (id : String) (applied : ℕ) (discount : ℤ) (org payment : String)
    (ts : List ReferralTransaction) (ws : List ReferralWallet)
    → leb_ℤ (pos applied) (sum_of id ts) ≡ true
    → All (IsSoundWallet ts) ws
    → All
        (IsSoundWallet (redeem_row id applied discount org payment ∷ ts))
        (map (debit id applied) ws)
unfolding sum_of
debit-IsSound id applied discount org payment ts [] covers h = tt
debit-IsSound id applied discount org payment ts (w ∷ ws) covers h = (
  debit-IsSoundWallet id applied discount org payment ts w covers h.0,
  debit-IsSound id applied discount org payment ts ws covers h.1,
)

-- Redeeming points, where the call returns, keeps every wallet equal to its ledger, and never
-- overdraws one, whatever other calls commit between the reads of the redemption and its
-- transaction.
pub redeem-IsSound :
    (org payment : String) (b : Option Breakdown) (seen db : Database) {db' : Database}
    → IsSound db
    → redeem_wallet_points org payment b seen db ≡ ok db'
    → IsSound db'
redeem-IsSound org payment b seen db h e = elim (redeem_cases org payment b seen db e) [
  | inl same ↦ subst IsSound same h
  | inr (id, _, one, done) ↦ subst IsSound done (
      debit-IsSound id (points_applied b) _ org payment db.transactions db.wallets
        (payer_covers id (points_applied b) db.transactions db.wallets h one) h)
]

zero_add : (a : ℤ) → pos 0 +ℤ a ≡ a
unfolding ◌+ℤ◌
zero_add a = ground arith

-- A ledger row without points adds nothing.
sum_of-create_discount :
    (id : String) (discount : ℤ) (c referee payment w : String) (ts : List ReferralTransaction)
    {ts' : List ReferralTransaction}
    → create_discount id discount c referee payment ts ≡ some ts'
    → sum_of w ts' ≡ sum_of w ts
unfolding create_discount create_transaction sum_of
sum_of-create_discount id discount c referee payment w ts {ts'} h =
    ground (arith, zero_add (sum_of w ts))

-- The wallets are sound for ledgers with the same sums.
IsSoundWallet-sums :
    (ts ts' : List ReferralTransaction) (ws : List ReferralWallet)
    → ((w : String) → sum_of w ts' ≡ sum_of w ts)
    → All (IsSoundWallet ts) ws
    → All (IsSoundWallet ts') ws
IsSoundWallet-sums ts ts' [] same h = tt
IsSoundWallet-sums ts ts' (w ∷ ws) same h =
    ((h.0.0, h.0.1 ∙ sym (same w.id)), IsSoundWallet-sums ts ts' ws same h.1)

abbrev paid_row : String → String → String → String → ReferralTransaction
paid_row id c referee payment =
    credit_row id referrer_points referrer_points_on_paid (pos 0) c referee payment

add_points-IsSound :
    (id c referee payment : String) (ts : List ReferralTransaction) (ws : List ReferralWallet)
    → All (IsSoundWallet ts) ws
    → All
        (IsSoundWallet (paid_row id c referee payment ∷ ts))
        (map (add_points id referrer_points_on_paid) ws)
unfolding sum_of
add_points-IsSound id c referee payment ts [] h = tt
add_points-IsSound id c referee payment ts (w ∷ ws) h = (
  ground (
    arith,
    h.0.0,
    h.0.1,
    eq_iff w.id id,
    eq_iff id w.id,
    +ℤ_parts w.points (pos 500),
    +ℤ_parts (pos 500) (sum_of w.id ts),
    eq_of_parts (w.points +ℤ pos 500) (pos 500 +ℤ sum_of w.id ts),
  ),
  add_points-IsSound id c referee payment ts ws h.1,
)

sum_of_fresh :
    (id : String) (ts : List ReferralTransaction)
    → All (λ t. (t.wallet_id == id) ≡ false) ts
    → sum_of id ts ≡ pos 0
unfolding sum_of
sum_of_fresh id [] h = refl
sum_of_fresh id (t ∷ ts) h = rw h.0 (sum_of_fresh id ts h.1)

others-IsSound :
    (id c referee payment : String) (ts : List ReferralTransaction) (ws : List ReferralWallet)
    → All (λ w. (w.id == id) ≡ false) ws
    → All (IsSoundWallet ts) ws
    → All (IsSoundWallet (paid_row id c referee payment ∷ ts)) ws
unfolding sum_of
others-IsSound id c referee payment ts [] new h = tt
others-IsSound id c referee payment ts (w ∷ ws) new h = (
  ground (arith, h.0.0, h.0.1, new.0, eq_iff w.id id, eq_iff id w.id),
  others-IsSound id c referee payment ts ws new.1 h.1,
)

-- The wallets that an upsert may leave, with the id of the one that has the points.
abbrev IsSoundUpsert : String → String → String → Database → String × List ReferralWallet → Type 0
IsSoundUpsert c referee payment db u =
    All (IsSoundWallet (paid_row u.0 c referee payment ∷ db.transactions)) u.1

upsert_new :
    (fresh referrer : String) (db : Database)
    → find_wallet referrer db ≡ none
    → upsert_wallet fresh referrer db ≡ (
      fresh,
      record { id = fresh; organization_id = referrer; points = pos referrer_points_on_paid }
          ∷ db.wallets,
    )
unfolding upsert_wallet
upsert_new fresh referrer db e = rw (e, upsert_wallet)

upsert_old :
    (fresh referrer : String) (db : Database) (w : ReferralWallet)
    → find_wallet referrer db ≡ some w
    → upsert_wallet fresh referrer db
      ≡ (w.id, map (add_points w.id referrer_points_on_paid) db.wallets)
unfolding upsert_wallet
upsert_old fresh referrer db w e = rw (e, upsert_wallet)

upsert_wallet-IsSound :
    (fresh referrer c referee payment : String) (db : Database)
    → IsFresh fresh db
    → IsSound db
    → IsSoundUpsert c referee payment db (upsert_wallet fresh referrer db)
unfolding sum_of ◌+ℤ◌
upsert_wallet-IsSound fresh referrer c referee payment db new h =
    elim (Option-cases (find_wallet referrer db)) [
      | inl e ↦ subst (IsSoundUpsert c referee payment db) (sym (upsert_new fresh referrer db e)) (
        (omega arith, rw (eq_refl fresh, sum_of_fresh fresh db.transactions new.1)),
        others-IsSound fresh c referee payment db.transactions db.wallets new.0 h,
      )
      | inr (w, e) ↦
          subst (IsSoundUpsert c referee payment db) (sym (upsert_old fresh referrer db w e))
            (add_points-IsSound w.id c referee payment db.transactions db.wallets h)
    ]

-- Crediting a referrer keeps every wallet equal to its ledger, and none below zero, whatever other
-- calls commit between the reads of the credit and its transaction, if the id of a new wallet is
-- new.
pub credit-IsSound :
    (fresh referee payment : String) (b : Option Breakdown) (fallback : Option String)
    (seen db : Database)
    → IsFresh fresh db
    → IsSound db
    → IsSound (credit_referrer_wallet fresh referee payment b fallback seen db)
credit-IsSound fresh referee payment b fallback seen db new h =
    elim (credit_cases fresh referee payment b fallback seen db) [
      | inl same ↦ subst IsSound (sym same) h
      | inr (c, _, _, due) ↦
          elim (commit_credit_cases fresh c.referrer c.discount c.code referee payment db) [
            | inl same ↦ subst IsSound (sym (due ∙ same)) h
            | inr (_, ts, rows, done) ↦ subst IsSound (sym (due ∙ done)) (
                IsSoundWallet-sums _ ts _
                  (λ w.
                    sum_of-create_discount (upsert_wallet fresh c.referrer db).0 c.discount c.code
                      referee payment w _ rows)
                  (upsert_wallet-IsSound fresh c.referrer c.code referee payment db new h))
          ]
    ]
