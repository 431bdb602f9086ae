-- ===== src/Subscription/Pricing.antt =====
-- Prices of subscriptions and add-ons (src/lib/subscription-pricing.ts). Prices and percentages are
-- taken as not negative, and count ten-thousandths; plans, currencies and texts that are only passed
-- on are left out. `none` is a limit of `null`: no limit.
pub mod Quotes
use my_detail_os_backend.Prelude.{
  ℕ, ◌+◌, ◌-◌, ◌*◌, ◌/◌, String, Bool, true, false, not, ◌&&◌, ◌||◌, Option, none, some, is_some,
  get_or, is_empty, trim, to_upper, ltb, leb, eqb, Dict, lookup, if◌then◌else◌,
}
use my_detail_os_backend.Prelude.Int.{ℤ, pos, pos_part, ltb_ℤ}
use my_detail_os_backend.Errors.{Result, ok, err, plain_error, throw_if, ◌>>=◌, ◌>>◌}
use my_detail_os_backend.Json.{show}
use my_detail_os_backend.Referrals.{ResolvedReferral, is_referral_code}
use Prim.Native.String.{◌++◌ as append}

-- `round2` of an amount that is not negative
unfoldable pub round2 : ℕ → ℕ
round2 n = (n + 50) / 100 * 100

-- `round2` of an exact fraction
unfoldable pub round2_ratio : ℕ → ℕ → ℕ
round2_ratio n d = (n + 50 * d) / (100 * d) * 100

-- `clampNonNegativeInt`; `none` is a value that is no finite number
unfoldable pub clamp_non_negative_int : Option ℤ → ℕ
clamp_non_negative_int none = 0
clamp_non_negative_int (some n) = pos_part n / 10000

abbrev min : ℕ → ℕ → ℕ
min a b = if leb a b then a else b

pub record TermBasePrices : Type 0 where
  pub months_1 : ℕ
  pub months_3 : ℕ
  pub months_12 : ℕ
  pub months_24 : ℕ
  pub months_36 : ℕ
  pub months_60 : ℕ

-- `SubscriptionPricingConfig`, its prices
pub record PricingConfig : Type 0 where
  pub term_base_prices : TermBasePrices
  pub plan_multipliers : Dict ℕ
  pub extra_branch_price : ℕ
  pub extra_user_price : ℕ
  pub onboarding_fee : ℕ
  pub referral_discount : ℕ
  pub gst_percent : ℕ

unfoldable pub base_term : ℕ → TermBasePrices → ℕ
base_term term prices =
    if eqb term 1
    then prices.months_1
    else if eqb term 3
    then prices.months_3
    else if eqb term 24
    then prices.months_24
    else if eqb term 36
    then prices.months_36
    else if eqb term 60
    then prices.months_60
    else prices.months_12

unfoldable pub is_allowed_term : ℕ → Bool
is_allowed_term term =
    eqb term 1 || eqb term 3 || eqb term 12 || eqb term 24 || eqb term 36 || eqb term 60

-- `TERM_LABELS[termMonths] ?? termMonths + " months"`
unfoldable pub term_label : ℕ → String
term_label term =
    if eqb term 1
    then "1 month"
    else if eqb term 3
    then "3 months"
    else if eqb term 12
    then "1 year"
    else if eqb term 24
    then "2 years"
    else if eqb term 36
    then "3 years"
    else if eqb term 60
    then "5 years"
    else append (show term) " months"

-- `addCapacity`, of a limit that is `null` or a whole number
unfoldable pub add_capacity : Option ℕ → ℕ → Option ℕ
add_capacity none extra = none
add_capacity (some limit) extra = some (limit + extra)

-- The wallet points of a quote: available, and applied, at a rupee a point.
pub record WalletRedeem : Type 0 where
  pub available : ℕ
  pub applied : ℕ

-- The request for wallet points: whether to use them, how many there are, and a cap.
pub record PointsRequest : Type 0 where
  pub available_points : Option ℤ
  pub use_wallet_points : Bool
  pub wallet_points : Option ℤ

-- The cap on the points, or all that are available.
abbrev pub requested_points : Option ℤ → ℕ → ℕ
requested_points none available = available
requested_points (some n) available = clamp_non_negative_int (some n)

unfoldable pub resolve_wallet_points_redeem : PointsRequest → ℕ → WalletRedeem
resolve_wallet_points_redeem request taxable_before =
    let available = clamp_non_negative_int request.available_points in
    let taxable = round2 taxable_before in
    let requested = requested_points request.wallet_points available in
    if not request.use_wallet_points || eqb available 0 || eqb taxable 0
    then record { available = available; applied = 0 }
    else record { available = available; applied = min (min available requested) (taxable / 10000) }

-- A quote. Amounts count ten-thousandths, and points count points.
pub record Quote : Type 0 where
  pub pre_wallet : ℕ
  pub points_applied : ℕ
  pub gst_amount : ℕ
  pub sub_total_before_tax : ℕ
  pub final_amount : ℕ

-- From the amount before the wallet to the final amount: points, then tax.
unfoldable pub settle_quote : PricingConfig → PointsRequest → ℕ → Quote
unfolding resolve_wallet_points_redeem
settle_quote cfg request pre_wallet =
    let wallet = resolve_wallet_points_redeem request pre_wallet in
    let taxable = round2 (pre_wallet - round2 (wallet.applied * 10000)) in
    let gst = round2_ratio (taxable * cfg.gst_percent) (100 * 10000) in
    record {
      pre_wallet = pre_wallet;
      points_applied = wallet.applied;
      gst_amount = gst;
      sub_total_before_tax = taxable;
      final_amount = round2 (taxable + gst);
    }

-- `SubscriptionAddOnBreakdown`
pub record AddOnBreakdown : Type 0 where
  pub extra_branches : ℕ
  pub extra_users : ℕ
  pub extra_branch_cost : ℕ
  pub extra_user_cost : ℕ
  pub quote : Quote
  pub final_allowed_branches : Option ℕ
  pub final_allowed_users : Option ℕ

unfoldable pub calculate_add_on_pricing :
    PricingConfig
    → (branches users : Option ℕ) → (extra_branches extra_users : Option ℤ) → PointsRequest
    → Result AddOnBreakdown
unfolding settle_quote
calculate_add_on_pricing cfg branches users extra_branches extra_users request =
    let more_branches = clamp_non_negative_int extra_branches in
    let more_users = clamp_non_negative_int extra_users in
    let branch_cost = round2 (more_branches * cfg.extra_branch_price) in
    let user_cost = round2 (more_users * cfg.extra_user_price) in
    throw_if (eqb more_branches 0 && eqb more_users 0)
      (plain_error "Add at least one extra branch or user.")
    >> (throw_if (not (is_some branches) && ltb 0 more_branches)
          (plain_error "This plan already has unlimited branches.")
        >> (throw_if (not (is_some users) && ltb 0 more_users)
              (plain_error "This plan already has unlimited users.")
            >> ok (record {
              extra_branches = more_branches;
              extra_users = more_users;
              extra_branch_cost = branch_cost;
              extra_user_cost = user_cost;
              quote = settle_quote cfg request (round2 (branch_cost + user_cost));
              final_allowed_branches = add_capacity branches more_branches;
              final_allowed_users = add_capacity users more_users;
            })))

-- `validateReferralCode`: the code, and a message
unfoldable pub validate_referral_code : Option String → Option String × Option String
validate_referral_code raw =
    let code = to_upper (trim (get_or raw "")) in
    if is_empty code
    then (none, none)
    else if not (is_referral_code code)
    then (none, some "Invalid referral code format.")
    else (some code, none)

-- What a quote asks for: `SubscriptionPricingInput`, with the plan and the resolved referral.
pub record PricingInput : Type 0 where
  pub plan_code : String
  pub max_branches : Option ℕ
  pub max_staff : Option ℕ
  pub is_first_subscription : Bool
  pub term_months : ℕ
  pub extra_branches : Option ℤ
  pub extra_users : Option ℤ
  pub referral_code : Option String
  pub resolved_referral : Option ResolvedReferral

abbrev is_filled : Option String → Bool
is_filled none = false
is_filled (some s) = not (is_empty s)

-- The referral code of a quote, and what is wrong with it.
unfoldable pub quoted_referral : PricingInput → Option String × Option String
unfolding validate_referral_code
quoted_referral input = elim input.resolved_referral [
  | some r ↦ (r.code, r.message)
  | none ↦ validate_referral_code input.referral_code
]

-- `referralEligible`, and `referralApplied`
unfoldable pub is_referral_applied : PricingInput → Bool
unfolding quoted_referral
is_referral_applied input =
    let (code, message) = quoted_referral input in
    input.is_first_subscription && is_filled code && not (is_filled message)

-- `discountSource`
unfoldable pub discount_source : PricingConfig → Option ResolvedReferral → ℕ
discount_source cfg none = cfg.referral_discount
discount_source cfg (some r) =
    if not (is_filled r.message) && ltb_ℤ (pos 0) r.discount_amount
    then pos_part r.discount_amount
    else cfg.referral_discount

-- `SubscriptionPricingBreakdown`
pub record PricingBreakdown : Type 0 where
  pub base_amount : ℕ
  pub extra_branch_cost : ℕ
  pub extra_user_cost : ℕ
  pub onboarding_fee : ℕ
  pub referral_applied : Bool
  pub referral_discount : ℕ
  pub referrer_organization_id : Option String
  pub quote : Quote
  pub final_allowed_branches : Option ℕ
  pub final_allowed_users : Option ℕ

abbrev referrer_of : Option ResolvedReferral → Option String
referrer_of none = none
referrer_of (some r) = r.referrer_organization_id

-- `calculateSubscriptionPricing`. The amount before the wallet is used only where it is positive, so
-- that the subtraction of the discount may stop at zero.
unfoldable pub calculate_subscription_pricing :
    PricingConfig → PricingInput → PointsRequest → Result PricingBreakdown
unfolding is_referral_applied discount_source settle_quote
calculate_subscription_pricing cfg input request =
    let more_branches = clamp_non_negative_int input.extra_branches in
    let more_users = clamp_non_negative_int input.extra_users in
    let multiplier = get_or (lookup input.plan_code cfg.plan_multipliers) 10000 in
    let base = round2_ratio (base_term input.term_months cfg.term_base_prices * multiplier) 10000 in
    let branch_cost = round2 (more_branches * cfg.extra_branch_price) in
    let user_cost = round2 (more_users * cfg.extra_user_price) in
    let onboarding = if input.is_first_subscription then round2 cfg.onboarding_fee else 0 in
    let applied = is_referral_applied input in
    let discount = if applied then round2 (discount_source cfg input.resolved_referral) else 0 in
    throw_if (not (is_allowed_term input.term_months))
      (plain_error "Unsupported term. Allowed: 1, 3, 12, 24, 36, 60 months.")
    >> ok (record {
      base_amount = base;
      extra_branch_cost = branch_cost;
      extra_user_cost = user_cost;
      onboarding_fee = onboarding;
      referral_applied = applied;
      referral_discount = discount;
      referrer_organization_id = if applied then referrer_of input.resolved_referral else none;
      quote =
          settle_quote cfg request
            (round2 (base + branch_cost + user_cost + onboarding - discount));
      final_allowed_branches = add_capacity input.max_branches more_branches;
      final_allowed_users = add_capacity input.max_staff more_users;
    })
