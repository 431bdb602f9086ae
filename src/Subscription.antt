-- ===== src/Subscription.antt =====
-- The lock of exports before a subscription ends (src/lib/subscription-lock.ts). Times are in
-- milliseconds, and `none` is a subscription without an end.
pub mod Pricing
use my_detail_os_backend.Prelude.{
  ℕ, ◌+◌, ◌-◌, ◌*◌, ◌/◌, ◌≤◌, Bool, true, false, not, Option, none, some, ◌≡◌, ◌↔◌, arith, leb, eqb,
  ◌||◌, if◌then◌else◌,
}
use my_detail_os_backend.Prelude.Int.{ℤ, pos, ltb_ℤ, leb_ℤ, sub_ℕ}

pub data GraceOrLockStatus : Type 0 where
  ok export_locked expired : GraceOrLockStatus

abbrev pub ms_per_day : ℕ
ms_per_day = 24 * 60 * 60 * 1000

abbrev pub export_lock_days_before_expiry : ℕ
export_lock_days_before_expiry = 30

-- `Math.ceil((expiresAt - now) / MS_PER_DAY)`
unfoldable pub days_between : ℕ → ℕ → ℤ
days_between expires_at now =
    if leb now expires_at
    then pos ((expires_at - now + (ms_per_day - 1)) / ms_per_day)
    else sub_ℕ 0 ((now - expires_at) / ms_per_day)

-- `daysUntilExpiry`
unfoldable pub days_until_expiry : Option ℕ → ℕ → Option ℤ
days_until_expiry none now = none
days_until_expiry (some expires_at) now = some (days_between expires_at now)

status_of : Option ℤ → GraceOrLockStatus
status_of none = ok
status_of (some days) =
    if ltb_ℤ days (pos 0)
    then expired
    else if leb_ℤ days (pos export_lock_days_before_expiry)
    then export_locked
    else ok

-- `graceOrLockStatus`
unfoldable pub grace_or_lock_status : Option ℕ → ℕ → GraceOrLockStatus
unfolding status_of
grace_or_lock_status expires_at now = status_of (days_until_expiry expires_at now)

abbrev is_ok : GraceOrLockStatus → Bool
is_ok ok = true
is_ok _ = false

-- `isExportLocked`
unfoldable pub is_export_locked : Option ℕ → ℕ → Bool
is_export_locked expires_at now = not (is_ok (grace_or_lock_status expires_at now))

-- `normalizeTermMonths`
unfoldable pub normalize_term_months : Option ℕ → ℕ
normalize_term_months none = 12
normalize_term_months (some raw) =
    if eqb raw 1 || eqb raw 3 || eqb raw 12 || eqb raw 24 || eqb raw 36 || eqb raw 60
    then raw
    else 12

-- Exports are locked exactly from thirty days before the end, to the millisecond, and ever after.
pub is_export_locked_iff :
    (expires_at now : ℕ)
    → (is_export_locked (some expires_at) now ≡ true) ↔ (expires_at ≤ now + 30 * ms_per_day)
unfolding is_export_locked grace_or_lock_status days_until_expiry days_between
is_export_locked_iff expires_at now = (λ h. ground arith, λ h. ground arith)
