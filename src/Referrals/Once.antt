-- ===== src/Referrals/Once.antt =====
-- A payment is settled once (src/modules/organization/referral-wallet.service.ts).
use my_detail_os_backend.Prelude.{String, true, Option, ◌≡◌, sym, inl, inr, ◌∙◌}
use my_detail_os_backend.Errors.{ok}
use my_detail_os_backend.Referrals.{
  Database, Breakdown, points_redeem, is_booked, redeem_wallet_points, referrer_points,
  credit_referrer_wallet,
}
use my_detail_os_backend.Referrals.Commit.{redeem_cases, credit_cases, commit_credit_cases}

-- Once the redemption of a payment is booked, a later call for this payment that returns changes
-- nothing, even one whose reads are older than the booking.
pub redeem_once :
    (org payment : String) (b : Option Breakdown) (seen db : Database) {db' : Database}
    → is_booked payment points_redeem db.transactions ≡ true
    → redeem_wallet_points org payment b seen db ≡ ok db'
    → db' ≡ db
redeem_once org payment b seen db booked e = elim (redeem_cases org payment b seen db e) [
  | inl same ↦ sym same
  | inr (id, free, _, _) ↦ cc (free, booked)
]

-- Once the credit of a payment is booked, a later call for this payment changes nothing, even one
-- whose reads are older than the booking.
pub credit_once :
    (fresh referee payment : String) (b : Option Breakdown) (fallback : Option String)
    (seen db : Database)
    → is_booked payment referrer_points db.transactions ≡ true
    → credit_referrer_wallet fresh referee payment b fallback seen db ≡ db
credit_once fresh referee payment b fallback seen db booked =
    elim (credit_cases fresh referee payment b fallback seen db) [
      | inl same ↦ same
      | inr (c, _, _, due) ↦
          elim (commit_credit_cases fresh c.referrer c.discount c.code referee payment db) [
            | inl same ↦ due ∙ same
            | inr (free, _, _, _) ↦ cc (free, booked)
          ]
    ]
