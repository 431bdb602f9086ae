-- ===== src/Tests/Subscription.antt =====
-- The lock of exports at concrete times (src/lib/subscription-lock.ts).
use my_detail_os_backend.Prelude.{◌+◌, ◌*◌, ◌≤◌, some, true, ◌≡◌, ◌↔◌}
use my_detail_os_backend.Subscription.{ms_per_day, is_export_locked, is_export_locked_iff}

is_export_locked_iff_example :
    (is_export_locked (some 2592000001) 0 ≡ true) ↔ (2592000001 ≤ 0 + 30 * ms_per_day)
is_export_locked_iff_example = is_export_locked_iff 2592000001 0
