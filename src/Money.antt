-- ===== src/Money.antt =====
-- Amounts of money, counted in ten-thousandths of a rupee, and the rounding to whole paise that the
-- source writes as `Math.round(x * 100) / 100`: to the nearest multiple of 100 units, and up from
-- the middle. Amounts with at most four decimals are exact here; binary fractions are left out.
use my_detail_os_backend.Prelude.{ℕ, ◌+◌, ◌*◌, ◌/◌, ◌%◌, ◌≡◌, arith}
use my_detail_os_backend.Prelude.Int.{ℤ, pos, negsuc, pos_part, neg_part, sub_ℕ, ◌+ℤ◌, ◌-ℤ◌, ◌≤ℤ◌}

-- One rupee.
abbrev pub rupee : ℕ
rupee = 10000

unfoldable pub round_money : ℤ → ℤ
round_money (pos n) = pos ((n + 50) / 100 * 100)
round_money (negsuc n) = sub_ℕ 0 ((n + 50) / 100 * 100)

-- A whole number of paise.
abbrev pub IsWhole : ℤ → Type 0
IsWhole a = (pos_part a + neg_part a) % 100 ≡ 0

-- `Math.abs`
unfoldable pub abs : ℤ → ℤ
abs a = pos (pos_part a + neg_part a)

-- `Math.max(0, a)`
unfoldable pub at_least_zero : ℤ → ℤ
at_least_zero a = pos (pos_part a)

pub round_money-IsWhole : (a : ℤ) → IsWhole (round_money a)
unfolding round_money
round_money-IsWhole (pos n) = omega arith
round_money-IsWhole (negsuc n) = ground arith

pub round_money_whole : (a : ℤ) → IsWhole a → round_money a ≡ a
unfolding round_money
round_money_whole (pos n) h = ground arith
round_money_whole (negsuc n) h = ground arith

pub round_money_nonneg : (a : ℤ) → pos 0 ≤ℤ a → pos 0 ≤ℤ round_money a
unfolding round_money
round_money_nonneg (pos n) h = omega arith
round_money_nonneg (negsuc n) h = absurd (omega arith)

pub +ℤ-IsWhole : (a b : ℤ) → IsWhole a → IsWhole b → IsWhole (a +ℤ b)
unfolding ◌+ℤ◌
+ℤ-IsWhole (pos m) (pos n) h k = ground arith
+ℤ-IsWhole (pos m) (negsuc n) h k = ground arith
+ℤ-IsWhole (negsuc m) (pos n) h k = ground arith
+ℤ-IsWhole (negsuc m) (negsuc n) h k = ground arith

pub -ℤ-IsWhole : (a b : ℤ) → IsWhole a → IsWhole b → IsWhole (a -ℤ b)
unfolding ◌-ℤ◌
-ℤ-IsWhole (pos m) (pos n) h k = ground arith
-ℤ-IsWhole (pos m) (negsuc n) h k = ground arith
-ℤ-IsWhole (negsuc m) (pos n) h k = ground arith
-ℤ-IsWhole (negsuc m) (negsuc n) h k = ground arith
