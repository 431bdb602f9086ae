-- ===== src/Tests/Referrals.antt =====
-- Referral points at a concrete database (src/modules/organization/referral-wallet.service.ts).
use my_detail_os_backend.Prelude.{arith, true, [], ◌∷◌, none, some, ◌≡◌, refl}
use my_detail_os_backend.Prelude.Int.{pos, negsuc, ◌-ℤ◌, ◌+ℤ◌}
use my_detail_os_backend.Errors.{ok}
use my_detail_os_backend.Referrals.{
  Database, ReferralTransaction, Breakdown, points_redeem, referrer_points, redeem_wallet_points,
  credit_referrer_wallet, commit_redeem, create_transaction, points_applied,
}
use my_detail_os_backend.Referrals.Ledger.{IsSound, redeem-IsSound, credit-IsSound, sum_of}
use my_detail_os_backend.Referrals.Once.{redeem_once, credit_once}
use my_detail_os_backend.Money.{at_least_zero}

abbrev earned : ReferralTransaction
earned = record {
  wallet_id = "w1";
  type = referrer_points;
  points = pos 500;
  amount_inr = pos 0;
  referral_code = "SHINE";
  source_organization_id = "o2";
  payment_id = "pay-1";
}

abbrev spent : ReferralTransaction
spent = record {
  wallet_id = "w1";
  type = points_redeem;
  points = negsuc 199;
  amount_inr = pos 2000000;
  referral_code = "WALLET";
  source_organization_id = "o1";
  payment_id = "pay-2";
}

abbrev start : Database
start = record {
  codes = [];
  wallets = record { id = "w1"; organization_id = "o1"; points = pos 500 } ∷ [];
  transactions = earned ∷ [];
}

abbrev end : Database
end = record {
  codes = [];
  wallets = record { id = "w1"; organization_id = "o1"; points = pos 300 } ∷ [];
  transactions = spent ∷ earned ∷ [];
}

abbrev breakdown : Breakdown
breakdown = record {
  wallet_points_applied = some (pos 2000000);
  wallet_points_discount = some (pos 2000000);
  referral_applied = true;
  referral_code = some "SHINE";
  referral_discount = pos 10000000;
  referrer_organization_id = some "o1";
}

redeems : redeem_wallet_points "o1" "pay-2" (some breakdown) start start ≡ ok end
unfolding at_least_zero commit_redeem create_transaction points_applied redeem_wallet_points ◌-ℤ◌
redeems = refl

redeem-IsSound_example : IsSound end
unfolding sum_of ◌+ℤ◌
redeem-IsSound_example =
    redeem-IsSound "o1" "pay-2" (some breakdown) start start ((omega arith, refl), tt) redeems

-- The second call has read the database before the first one committed.
redeems_late : redeem_wallet_points "o1" "pay-2" (some breakdown) start end ≡ ok end
unfolding commit_redeem create_transaction points_applied redeem_wallet_points
redeems_late = refl

redeem_once_example : end ≡ end
redeem_once_example = redeem_once "o1" "pay-2" (some breakdown) start end refl redeems_late

credit-IsSound_example :
    IsSound (credit_referrer_wallet "w2" "o2" "pay-3" (some breakdown) none start start)
unfolding sum_of ◌+ℤ◌
credit-IsSound_example =
    credit-IsSound "w2" "o2" "pay-3" (some breakdown) none start start ((refl, tt), (refl, tt))
      ((omega arith, refl), tt)

credit_once_example :
    credit_referrer_wallet "w2" "o2" "pay-1" (some breakdown) none end start ≡ start
credit_once_example = credit_once "w2" "o2" "pay-1" (some breakdown) none end start refl
