-- ===== src/Subscription/Pricing/Quotes.antt =====
-- What a quote adds up to (src/lib/subscription-pricing.ts).
use my_detail_os_backend.Prelude.{ℕ, ◌+◌, ◌-◌, ◌*◌, ◌%◌, ◌≤◌, ◌<◌, ◌≡◌, arith, Option-cases}
use my_detail_os_backend.Subscription.Pricing.{
  PricingConfig, PointsRequest, resolve_wallet_points_redeem, settle_quote, round2, round2_ratio,
  clamp_non_negative_int,
}

round2_whole : (n : ℕ) → n % 100 ≡ 0 → round2 n ≡ n
unfolding round2
round2_whole n h = omega arith

round2-whole : (n : ℕ) → round2 n % 100 ≡ 0
unfolding round2
round2-whole n = omega arith

applied_bounds :
    (request : PointsRequest) (amount : ℕ)
    → amount % 100 ≡ 0
    → ((resolve_wallet_points_redeem request amount).applied
        ≤ clamp_non_negative_int request.available_points)
      × ((resolve_wallet_points_redeem request amount).applied * 10000 ≤ amount)
unfolding resolve_wallet_points_redeem round2
applied_bounds request amount h = ground (arith, Option-cases request.wallet_points)

round2_ratio-whole : (n d : ℕ) → round2_ratio n d % 100 ≡ 0
unfolding round2_ratio
round2_ratio-whole n d = omega arith

take_off :
    (amount points : ℕ)
    → amount % 100 ≡ 0
    → points * 10000 ≤ amount
    → round2 (amount - round2 (points * 10000)) + points * 10000 ≡ amount
unfolding round2
take_off amount points h k = omega arith

round2_sum : (a b : ℕ) → a % 100 ≡ 0 → b % 100 ≡ 0 → round2 (a + b) ≡ a + b
unfolding round2
round2_sum a b h k = omega arith

-- The rounding of a millionth: it is within half a paisa.
round2_ratio_near :
    (n : ℕ)
    → (round2_ratio n 1000000 * 1000000 ≤ n + 50000000)
      × (n < round2_ratio n 1000000 * 1000000 + 50000000)
unfolding round2_ratio
round2_ratio_near n = (omega arith, omega arith)

-- A quote on a whole number of paise adds up: the points applied are at most those available; what is
-- left to tax and the points, at a rupee each, make up the amount; the tax is a whole number of paise,
-- and at most half a paisa from the tax percentage of what is left; and the final amount is what is
-- left and that tax, to the paisa.
pub settle_quote_lem :
    (cfg : PricingConfig) (request : PointsRequest) (amount : ℕ)
    → amount % 100 ≡ 0
    → ((settle_quote cfg request amount).points_applied
        ≤ clamp_non_negative_int request.available_points)
      × ((settle_quote cfg request amount).sub_total_before_tax
            + (settle_quote cfg request amount).points_applied * 10000
          ≡ amount)
      × ((settle_quote cfg request amount).gst_amount % 100 ≡ 0)
      × ((settle_quote cfg request amount).gst_amount * 1000000
          ≤ (settle_quote cfg request amount).sub_total_before_tax * cfg.gst_percent + 50000000)
      × ((settle_quote cfg request amount).sub_total_before_tax * cfg.gst_percent
          < (settle_quote cfg request amount).gst_amount * 1000000 + 50000000)
      × ((settle_quote cfg request amount).final_amount
          ≡ (settle_quote cfg request amount).sub_total_before_tax
            + (settle_quote cfg request amount).gst_amount)
unfolding settle_quote
settle_quote_lem cfg request amount h =
    let (few, fits) = applied_bounds request amount h in
    let points = (resolve_wallet_points_redeem request amount).applied in
    let (low, high) =
      round2_ratio_near (round2 (amount - round2 (points * 10000)) * cfg.gst_percent) in
    (
      few,
      take_off amount points h fits,
      round2_ratio-whole _ _,
      low,
      high,
      round2_sum _ _ (round2-whole (amount - round2 (points * 10000))) (round2_ratio-whole _ _),
    )
