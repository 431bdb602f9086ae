-- ===== src/Tests/Gst.antt =====
-- The guard of invoice taxes at a concrete invoice (src/lib/gst-settings.ts).
use my_detail_os_backend.Prelude.{arith, String, Option, none, ◌≡◌, refl}
use my_detail_os_backend.Prelude.Int.{ℤ, pos, ◌≤ℤ◌, ◌-ℤ◌}
use my_detail_os_backend.Json.{Json, num, obj, end, field, named_fields, get, own_fields, put}
use my_detail_os_backend.Gst.{
  not_registered, number_at, apply_invoice_gst_guard, strip_tax, taxable, to_finite_number,
}
use my_detail_os_backend.Gst.Guard.{guard_untaxed}
use my_detail_os_backend.Money.{at_least_zero, round_money}

-- An engine that reads no text as a number.
abbrev parse_number : String → Option ℤ
parse_number _ = none

abbrev invoice : Json
invoice = obj (
    field "subtotal" (num (pos 1000000))
      (field "taxRate" (num (pos 180000)) (field "taxAmount" (num (pos 180000)) end)))

strips :
    apply_invoice_gst_guard parse_number invoice none not_registered
    ≡ obj (
        field "subtotal" (num (pos 1000000)) (
          field "taxRate"
            (num (pos 0))
            (field "taxAmount" (num (pos 0)) (field "grandTotal" (num (pos 1000000)) end))))
unfolding apply_invoice_gst_guard at_least_zero get number_at own_fields put round_money strip_tax
    taxable to_finite_number ◌-ℤ◌
strips = refl

guard_untaxed_example :
    (number_at parse_number "taxAmount"
        (named_fields (apply_invoice_gst_guard parse_number invoice none not_registered))
      ≤ℤ pos 0)
    × (number_at parse_number "taxRate"
          (named_fields (apply_invoice_gst_guard parse_number invoice none not_registered))
        ≤ℤ pos 0)
guard_untaxed_example = guard_untaxed parse_number invoice none (omega arith)
