-- ===== src/Referrals/Commit.antt =====
-- What the two transactions on referral points may commit
-- (src/modules/organization/referral-wallet.service.ts).
use my_detail_os_backend.Prelude.{
  ℕ, String, false, List, ◌∷◌, map, filter, length, Option, some, ◌≡◌, ◌⊎◌, inl, inr, arith,
  Bool-cases, Option-cases, eqb, ◌||◌, ◌==◌,
}
use my_detail_os_backend.Prelude.Int.{ℤ, pos, ltb_ℤ}
use my_detail_os_backend.Errors.{ok, ok_inj, absurd_err}
use my_detail_os_backend.Referrals.{
  Database, ReferralTransaction, Breakdown, points_redeem, referrer_points, is_booked,
  create_transaction, can_pay, debit, redeem_row, commit_redeem, points_applied, discount_of,
  redeem_wallet_points, find_wallet, create_discount, credit_row, commit_credit, upsert_wallet,
  referrer_points_on_paid, credit_for, credit_referrer_wallet, Credit,
}

-- The state behind a redemption that is booked.
abbrev pub redeemed : String → ℕ → ℤ → String → String → Database → Database
redeemed wallet_id applied discount org payment db = record db {
  wallets = map (debit wallet_id applied) db.wallets;
  transactions = redeem_row wallet_id applied discount org payment ∷ db.transactions;
}

pub commit_redeem_cases :
    (id : String) (applied : ℕ) (discount : ℤ) (org payment : String) (db : Database)
    {db' : Database}
    → commit_redeem id applied discount org payment db ≡ ok db'
    → (db ≡ db')
      ⊎ ((is_booked payment points_redeem db.transactions ≡ false)
          × (length (filter (can_pay id applied) db.wallets) ≡ 1)
          × (redeemed id applied discount org payment db ≡ db'))
unfolding commit_redeem create_transaction
commit_redeem_cases id applied discount org payment db h = ground arith

-- A call that returns changes nothing, or books a redemption on a wallet that can pay it.
pub redeem_cases :
    (org payment : String) (b : Option Breakdown) (seen db : Database) {db' : Database}
    → redeem_wallet_points org payment b seen db ≡ ok db'
    → (db ≡ db')
      ⊎ ((id : String) × (is_booked payment points_redeem db.transactions ≡ false)
          × (length (filter (can_pay id (points_applied b)) db.wallets) ≡ 1)
          × (redeemed id (points_applied b) (discount_of b) org payment db ≡ db'))
unfolding redeem_wallet_points
redeem_cases org payment b seen db h =
    elim (Bool-cases
      (eqb (points_applied b) 0 || is_booked payment points_redeem seen.transactions)) [
        | inl e ↦ inl (ok_inj (rw e at h))
        | inr e ↦ elim (Option-cases (find_wallet org seen)) [
          | inl f ↦ absurd_err (rw (e, f) at h)
          | inr (w, f) ↦ elim (Bool-cases (ltb_ℤ w.points (pos (points_applied b)))) [
            | inl g ↦ absurd_err (rw (e, f, g) at h)
            | inr g ↦
                elim (commit_redeem_cases w.id (points_applied b) (discount_of b) org payment db
                  (rw (e, f, g) at h)) [
                    | inl same ↦ inl same
                    | inr (free, one, done) ↦ inr (w.id, free, one, done)
                  ]
          ]
        ]
      ]

-- A credit changes nothing, or books the points of the referrer and then the referee's discount.
pub commit_credit_cases :
    (fresh referrer : String) (discount : ℤ) (c referee payment : String) (db : Database)
    → (commit_credit fresh referrer discount c referee payment db ≡ db)
      ⊎ ((is_booked payment referrer_points db.transactions ≡ false)
          × (ts : List ReferralTransaction) × (create_discount
                (upsert_wallet fresh referrer db).0
                discount
                c
                referee
                payment
                (credit_row
                    (upsert_wallet fresh referrer db).0
                    referrer_points
                    referrer_points_on_paid
                    (pos 0)
                    c
                    referee
                    payment
                  ∷ db.transactions)
              ≡ some ts)
          × (commit_credit fresh referrer discount c referee payment db
              ≡ record db { wallets = (upsert_wallet fresh referrer db).1; transactions = ts }))
unfolding commit_credit create_transaction
commit_credit_cases fresh referrer discount c referee payment db =
    let id = (upsert_wallet fresh referrer db).0 in
    let row = credit_row id referrer_points referrer_points_on_paid (pos 0) c referee payment in
    elim (Bool-cases (is_booked payment referrer_points db.transactions)) [
      | inl e ↦ inl (rw e)
      | inr e ↦
          elim (Option-cases
            (create_discount id discount c referee payment (row ∷ db.transactions))) [
              | inl f ↦ inl (rw (e, f))
              | inr (ts, f) ↦ inr (e, ts, f, rw (e, f))
            ]
    ]

-- A call books the credit that it finds to be due, or changes nothing.
pub credit_cases :
    (fresh referee payment : String) (b : Option Breakdown) (fallback : Option String)
    (seen db : Database)
    → (credit_referrer_wallet fresh referee payment b fallback seen db ≡ db)
      ⊎ ((c : Credit) × (credit_for b fallback referee seen.codes ≡ some c)
          × ((c.referrer == referee) ≡ false)
          × (credit_referrer_wallet fresh referee payment b fallback seen db
              ≡ commit_credit fresh c.referrer c.discount c.code referee payment db))
unfolding credit_referrer_wallet
credit_cases fresh referee payment b fallback seen db =
    elim (Option-cases (credit_for b fallback referee seen.codes)) [
      | inl e ↦ inl (rw (e, credit_referrer_wallet))
      | inr (c, e) ↦ elim (Bool-cases (c.referrer == referee)) [
        | inl f ↦ inl (rw (e, f, credit_referrer_wallet))
        | inr f ↦ elim (Bool-cases (is_booked payment referrer_points seen.transactions)) [
          | inl g ↦ inl (rw (e, f, g, credit_referrer_wallet))
          | inr g ↦ inr (c, e, f, rw (e, f, g, credit_referrer_wallet))
        ]
      ]
    ]
