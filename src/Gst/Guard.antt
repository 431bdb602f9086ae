-- ===== src/Gst/Guard.antt =====
-- What the guard of invoice taxes gives (src/lib/gst-settings.ts).
use my_detail_os_backend.Prelude.{String, Option, ◌≡◌, refl, ap, arith}
use my_detail_os_backend.Prelude.Int.{ℤ, pos, ◌≤ℤ◌}
use my_detail_os_backend.Json.{
  Json, Items, null, bool, num, str, arr, obj, Fields, get, own_fields, named_fields, get-put,
}
use my_detail_os_backend.Gst.{
  GstRegistrationStatus, registered, not_registered, to_finite_number, number_at, previous_tax,
  strip_tax, apply_invoice_gst_guard,
}

module _ (parse_number : String → Option ℤ) where
  tax-strip_tax :
      (fs : Fields) → number_at parse_number "taxAmount" (strip_tax parse_number fs) ≡ pos 0
  unfolding number_at strip_tax to_finite_number
  tax-strip_tax fs = rw (get-put "grandTotal" "taxAmount" _ _, get-put "taxAmount" "taxAmount" _ _)

  rate-strip_tax :
      (fs : Fields) → number_at parse_number "taxRate" (strip_tax parse_number fs) ≡ pos 0
  unfolding number_at strip_tax to_finite_number
  rate-strip_tax fs = rw (
    get-put "grandTotal" "taxRate" _ _,
    get-put "taxAmount" "taxRate" _ _,
    get-put "taxRate" "taxRate" _ _,
  )

  -- An organization that is not registered writes no tax: an invoice that had no tax before has
  -- none behind the guard, and no rate.
  pub guard_untaxed :
      (payload : Json) (previous : Option Json)
      → previous_tax parse_number previous ≤ℤ pos 0
      → (number_at parse_number "taxAmount"
            (named_fields (apply_invoice_gst_guard parse_number payload previous not_registered))
          ≤ℤ pos 0)
        × (number_at parse_number "taxRate"
              (named_fields (apply_invoice_gst_guard parse_number payload previous not_registered))
            ≤ℤ pos 0)
  unfolding apply_invoice_gst_guard number_at to_finite_number get own_fields
  guard_untaxed null previous h = (omega arith, omega arith)
  guard_untaxed (bool b) previous h = (omega arith, omega arith)
  guard_untaxed (num n) previous h = (omega arith, omega arith)
  guard_untaxed (str s) previous h = (omega arith, omega arith)
  guard_untaxed (arr vs) previous h = (omega arith, omega arith)
  guard_untaxed (obj fs) previous h = ground (arith, tax-strip_tax fs, rate-strip_tax fs)

  guard_array :
      (vs : Items) (previous : Option Json)
      → apply_invoice_gst_guard parse_number (arr vs) previous not_registered ≡ arr vs
  unfolding apply_invoice_gst_guard number_at to_finite_number get
  guard_array vs previous = refl

  -- The guard has nothing left to do on its own result.
  pub guard_again :
      (payload : Json) (previous : Option Json) (status : GstRegistrationStatus)
      → apply_invoice_gst_guard parse_number
          (apply_invoice_gst_guard parse_number payload previous status)
          previous
          status
        ≡ apply_invoice_gst_guard parse_number payload previous status
  unfolding apply_invoice_gst_guard own_fields
  guard_again payload previous registered = refl
  guard_again null previous not_registered = refl
  guard_again (bool b) previous not_registered = refl
  guard_again (num n) previous not_registered = refl
  guard_again (str s) previous not_registered = refl
  guard_again (arr vs) previous not_registered =
      ap (λ x. apply_invoice_gst_guard parse_number x previous not_registered)
        (guard_array vs previous)
  guard_again (obj fs) previous not_registered = ground (arith, tax-strip_tax fs, rate-strip_tax fs)
