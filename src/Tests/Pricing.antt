-- ===== src/Tests/Pricing.antt =====
-- A quote at concrete amounts (src/lib/subscription-pricing.ts).
use my_detail_os_backend.Prelude.{◌%◌, ◌<◌, ◌+◌, ◌*◌, ◌≤◌, true, [], none, some, ◌≡◌, refl}
use my_detail_os_backend.Prelude.Int.{pos}
use my_detail_os_backend.Subscription.Pricing.{
  PricingConfig, PointsRequest, settle_quote, clamp_non_negative_int,
}
use my_detail_os_backend.Subscription.Pricing.Quotes.{settle_quote_lem}

abbrev prices : PricingConfig
prices = record {
  term_base_prices = record {
    months_1 = 9990000;
    months_3 = 24990000;
    months_12 = 99990000;
    months_24 = 189990000;
    months_36 = 269990000;
    months_60 = 419990000;
  };
  plan_multipliers = [];
  extra_branch_price = 25000000;
  extra_user_price = 7500000;
  onboarding_fee = 15000000;
  referral_discount = 10000000;
  gst_percent = 180000;
}

abbrev points : PointsRequest
points = record {
  available_points = some (pos 5000000);
  use_wallet_points = true;
  wallet_points = none;
}

settle_quote_lem_example :
    ((settle_quote prices points 99990000).points_applied
      ≤ clamp_non_negative_int points.available_points)
    × ((settle_quote prices points 99990000).sub_total_before_tax
          + (settle_quote prices points 99990000).points_applied * 10000
        ≡ 99990000)
    × ((settle_quote prices points 99990000).gst_amount % 100 ≡ 0)
    × ((settle_quote prices points 99990000).gst_amount * 1000000
        ≤ (settle_quote prices points 99990000).sub_total_before_tax * prices.gst_percent
          + 50000000)
    × ((settle_quote prices points 99990000).sub_total_before_tax * prices.gst_percent
        < (settle_quote prices points 99990000).gst_amount * 1000000 + 50000000)
    × ((settle_quote prices points 99990000).final_amount
        ≡ (settle_quote prices points 99990000).sub_total_before_tax
          + (settle_quote prices points 99990000).gst_amount)
settle_quote_lem_example = settle_quote_lem prices points 99990000 refl
