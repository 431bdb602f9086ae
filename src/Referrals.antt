-- ===== src/Referrals.antt =====
-- The points that referrals earn and pay with
-- (src/modules/organization/referral-wallet.service.ts). A call reads the database
-- first and writes it in a transaction later, and other calls may commit between the two: each
-- operation takes the state that it reads, `seen`, apart from the state that it commits to. The
-- notes of a ledger row are left out.
mod Codes
pub mod Commit
pub mod Ledger
pub mod Once
use Prim.Native.Char.{code}
use my_detail_os_backend.Prelude.{
  ℕ, suc, ◌/◌, ◌*◌, String, Bool, true, false, not, ◌&&◌, ◌||◌, List, [], ◌∷◌, ◌++◌, map, Option,
  none, some, find, any, filter, length, is_empty, is_some, get_or, trim, to_upper, to_lower, leb,
  eqb, ◌==◌, if◌then◌else◌,
}
use my_detail_os_backend.Prelude.Int.{ℤ, pos, pos_part, ◌+ℤ◌, ◌-ℤ◌, ltb_ℤ, leb_ℤ}
use my_detail_os_backend.Errors.{Result, ok, err, ◌>>=◌, ◌>>◌, throw_if, plain_error}
use my_detail_os_backend.Money.{at_least_zero, rupee}
use my_detail_os_backend.Json.{Json, obj, Fields, get, as_text}
unfoldable pub use Codes.*

-- `getOrgReferralWalletPoints`
abbrev pub find_wallet : String → Database → Option ReferralWallet
find_wallet organization_id db = find (λ w. w.organization_id == organization_id) db.wallets

unfoldable pub get_org_referral_wallet_points : String → Database → ℤ
get_org_referral_wallet_points organization_id db = elim (find_wallet organization_id db) [
  | none ↦ pos 0
  | some w ↦ w.points
]

abbrev pub same_type : TransactionType → TransactionType → Bool
same_type points_redeem points_redeem = true
same_type referrer_points referrer_points = true
same_type referee_discount referee_discount = true
same_type _ _ = false

-- A ledger row for this payment and of this type; the schema allows one.
abbrev pub is_booked : String → TransactionType → List ReferralTransaction → Bool
is_booked payment_id type ts = any (λ t. t.payment_id == payment_id && same_type t.type type) ts

-- `referralTransaction.create`: `none` for the violation P2002 of the unique key
unfoldable pub create_transaction :
    ReferralTransaction → List ReferralTransaction → Option (List ReferralTransaction)
create_transaction t ts = if is_booked t.payment_id t.type ts then none else some (t ∷ ts)

-- The `catch` of P2002: the transaction is rolled back, and the call returns.
abbrev pub commit_or_keep : Database → Option Database → Database
commit_or_keep db none = db
commit_or_keep db (some db') = db'

abbrev pub can_pay : String → ℕ → ReferralWallet → Bool
can_pay wallet_id applied w = w.id == wallet_id && leb_ℤ (pos applied) w.points

abbrev pub debit : String → ℕ → ReferralWallet → ReferralWallet
debit wallet_id applied w =
    if can_pay wallet_id applied w then record w { points = w.points -ℤ pos applied } else w

abbrev pub redeem_row : String → ℕ → ℤ → String → String → ReferralTransaction
redeem_row wallet_id applied discount organization_id payment_id = record {
  wallet_id = wallet_id;
  type = points_redeem;
  points = pos 0 -ℤ pos applied;
  amount_inr = discount;
  referral_code = "WALLET";
  source_organization_id = organization_id;
  payment_id = payment_id;
}

-- The transaction of a redemption: the guarded debit, and the ledger row.
unfoldable pub commit_redeem : String → ℕ → ℤ → String → String → Database → Result Database
commit_redeem wallet_id applied discount organization_id payment_id db = do
  throw_if (not (eqb (length (filter (can_pay wallet_id applied) db.wallets)) 1))
      (plain_error "Insufficient referral wallet points.")
  ok (
      commit_or_keep db
        (elim (create_transaction (redeem_row wallet_id applied discount organization_id payment_id)
          db.transactions) [
            | none ↦ none
            | some ts ↦ some (record db {
              wallets = map (debit wallet_id applied) db.wallets;
              transactions = ts;
            })
          ]))

-- `Math.max(0, Math.floor(breakdown?.walletPointsApplied ?? 0))`
unfoldable pub points_applied : Option Breakdown → ℕ
points_applied none = 0
points_applied (some b) = pos_part (get_or b.wallet_points_applied (pos 0)) / rupee

abbrev pub discount_of : Option Breakdown → ℤ
discount_of none = pos 0
discount_of (some b) = at_least_zero (get_or b.wallet_points_discount (pos 0))

-- `redeemWalletPointsForPaidSubscription`; the amounts are left out of the message.
unfoldable pub redeem_wallet_points :
    String → String → Option Breakdown → Database → Database → Result Database
redeem_wallet_points organization_id payment_id breakdown seen db =
    let applied = points_applied breakdown in
    if eqb applied 0 || is_booked payment_id points_redeem seen.transactions
    then ok db
    else elim (find_wallet organization_id seen) [
      | none ↦ err (plain_error "Insufficient referral wallet points")
      | some w ↦ do
        throw_if (ltb_ℤ w.points (pos applied)) (plain_error "Insufficient referral wallet points")
        commit_redeem w.id applied (discount_of breakdown) organization_id payment_id db
    ]

abbrev pub add_points : String → ℕ → ReferralWallet → ReferralWallet
add_points wallet_id n w = if w.id == wallet_id then record w { points = w.points +ℤ pos n } else w

-- `referralWallet.upsert`: the id of the organization's wallet, and the wallets
unfoldable pub upsert_wallet : String → String → Database → String × List ReferralWallet
upsert_wallet fresh organization_id db = elim (find_wallet organization_id db) [
  | some w ↦ (w.id, map (add_points w.id referrer_points_on_paid) db.wallets)
  | none ↦ (
    fresh,
    record { id = fresh; organization_id = organization_id; points = pos referrer_points_on_paid }
        ∷ db.wallets,
  )
]

abbrev pub credit_row :
    String → TransactionType → ℕ → ℤ → String → String → String → ReferralTransaction
credit_row wallet_id type points amount code referee payment_id = record {
  wallet_id = wallet_id;
  type = type;
  points = pos points;
  amount_inr = amount;
  referral_code = code;
  source_organization_id = referee;
  payment_id = payment_id;
}

-- `if (discount > 0) ...create`
unfoldable pub create_discount :
    String
    → ℤ
    → String
    → String
    → String
    → List ReferralTransaction
    → Option (List ReferralTransaction)
create_discount wallet_id discount code referee payment_id ts =
    if ltb_ℤ (pos 0) discount
    then create_transaction
        (credit_row wallet_id referee_discount 0 discount code referee payment_id) ts
    else some ts

-- The transaction of a credit: the wallet, the points, and the referee's discount.
unfoldable pub commit_credit : String → String → ℤ → String → String → String → Database → Database
commit_credit fresh referrer discount code referee payment_id db =
    let upserted = upsert_wallet fresh referrer db in
    commit_or_keep db
      (elim (create_transaction
        (credit_row upserted.0 referrer_points referrer_points_on_paid (pos 0) code referee
          payment_id)
        db.transactions) [
          | none ↦ none
          | some ts ↦ elim (create_discount upserted.0 discount code referee payment_id ts) [
            | none ↦ none
            | some ts' ↦ some (record db { wallets = upserted.1; transactions = ts' })
          ]
        ])

-- A credit that is due: the referrer, the code, and the referee's discount.
pub record Credit : Type 0 where
  pub referrer : String
  pub code : String
  pub discount : ℤ

-- `value || null` on texts
abbrev filled : Option String → Option String
filled none = none
filled (some s) = if is_empty s then none else some s

abbrev credit_by : Option String → String → ℤ → Option Credit
credit_by referrer code discount = elim (filled referrer) [
  | none ↦ none
  | some r ↦ some (record { referrer = r; code = code; discount = discount })
]

-- The code as it resolves, with the discount of the breakdown if there is one.
unfoldable pub resolve_credit : Option ℤ → String → String → List ReferralCode → Option Credit
resolve_credit discount code referee codes =
    let resolved = resolve_platform_referral (some code) (some referee) codes in
    if is_some (filled resolved.message) then none else elim (filled resolved.code) [
      | none ↦ none
      | some c ↦
          credit_by resolved.referrer_organization_id c (get_or discount resolved.discount_amount)
    ]

-- `fromBreakdown`, with the code that is its guard
abbrev from_breakdown : Option Breakdown → Option (String × Breakdown)
from_breakdown none = none
from_breakdown (some b) =
    if b.referral_applied
    then elim (filled b.referral_code) [ none ↦ none | some c ↦ some (c, b) ]
    else none

-- Who is to be credited, before the test that a referee does not refer itself.
unfoldable pub credit_for :
    Option Breakdown → Option String → String → List ReferralCode → Option Credit
credit_for breakdown fallback referee codes = elim (from_breakdown breakdown) [
  | some (c, b) ↦
      if is_some (filled b.referrer_organization_id)
      then credit_by b.referrer_organization_id c b.referral_discount
      else resolve_credit (some b.referral_discount) c referee codes
  | none ↦ elim (filled (some (to_upper (trim (get_or fallback ""))))) [
    | none ↦ none
    | some c ↦ resolve_credit none c referee codes
  ]
]

-- `creditReferrerWalletForPaidSubscription`; `fresh` is the id of a wallet that is created.
unfoldable pub credit_referrer_wallet :
    String → String → String → Option Breakdown → Option String → Database → Database → Database
credit_referrer_wallet fresh referee payment_id breakdown fallback seen db =
    elim (credit_for breakdown fallback referee seen.codes) [
      | none ↦ db
      | some c ↦
          if c.referrer == referee || is_booked payment_id referrer_points seen.transactions
          then db
          else commit_credit fresh c.referrer c.discount c.code referee payment_id db
    ]

-- A row of the audit log that tells of a provisioned organization, in the order of creation.
pub record AuditEntry : Type 0 where
  pub organization_id : String
  pub action : String
  pub after : Option Json

-- `inheritedSignupReferralCode`
unfoldable pub inherited_signup_referral_code : String → List AuditEntry → Option String
inherited_signup_referral_code organization_id log =
    elim (find (λ e. e.organization_id == organization_id && e.action == "organization.provisioned")
      log) [
        | none ↦ none
        | some e ↦ elim e.after [
          | some (obj fs) ↦ elim (as_text (get "referralCode" fs)) [
            | none ↦ none
            | some code ↦ filled (some (to_upper (trim code)))
          ]
          | _ ↦ none
        ]
      ]
