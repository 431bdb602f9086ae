-- ===== src/Gst.antt =====
-- GST registration and the guard of invoice taxes (src/lib/gst-settings.ts).
pub mod Guard
use my_detail_os_backend.Prelude.{
  ℕ, String, Bool, true, false, not, ◌&&◌, ◌||◌, Option, none, some, get_or, is_blank,
  if◌then◌else◌,
}
use my_detail_os_backend.Prelude.Int.{ℤ, pos, ◌-ℤ◌, ltb_ℤ, leb_ℤ}
use my_detail_os_backend.Money.{round_money, at_least_zero}
use my_detail_os_backend.Json.{
  Json, num, str, obj, Fields, get, put, own_fields, named_fields, is_object,
}
use my_detail_os_backend.Access.Collections.{singleton_entity_id}
use my_detail_os_backend.Store.{get_collection_item}
use my_detail_os_backend.Store.Rows.{Table}
use my_detail_os_backend.Cache.{SimpleCache, get_or_load, invalidate}
use my_detail_os_backend.JobCards.{is_text}

pub data GstRegistrationStatus : Type 0 where
  registered not_registered : GstRegistrationStatus

-- The loader of `getOrgGstRegistrationStatus`
unfoldable pub load_gst_status : String → Table → GstRegistrationStatus
load_gst_status organization_id t =
    elim (get_collection_item t "appSettings" singleton_entity_id (some organization_id)) [
      | none ↦ registered
      | some settings ↦
          if is_text "NOT_REGISTERED" (get "gstRegistrationStatus" (named_fields settings))
          then not_registered
          else registered
    ]

abbrev pub gst_status_ttl : ℕ
gst_status_ttl = 60000

-- `getOrgGstRegistrationStatus`, with the cache that it leaves
unfoldable pub get_org_gst_registration_status :
    ℕ
    → ℕ
    → String
    → Table
    → SimpleCache GstRegistrationStatus
    → GstRegistrationStatus × SimpleCache GstRegistrationStatus
get_org_gst_registration_status now loaded organization_id t cache =
    get_or_load gst_status_ttl now loaded organization_id (load_gst_status organization_id t) cache

-- `invalidateGstStatusCache`
unfoldable pub invalidate_gst_status_cache :
    String → SimpleCache GstRegistrationStatus → SimpleCache GstRegistrationStatus
invalidate_gst_status_cache organization_id cache = invalidate organization_id cache

-- `parse_number` is the engine's `Number(text)`, with `none` where the result is not finite.
module _ (parse_number : String → Option ℤ) where
  -- `toFiniteNumber`
  unfoldable pub to_finite_number : Option Json → ℤ
  to_finite_number (some (num n)) = n
  to_finite_number (some (str s)) = if is_blank s then pos 0 else get_or (parse_number s) (pos 0)
  to_finite_number _ = pos 0

  unfoldable pub number_at : String → Fields → ℤ
  number_at key fs = to_finite_number (get key fs)

  -- `prevTax`
  abbrev pub previous_tax : Option Json → ℤ
  previous_tax none = pos 0
  previous_tax (some p) = if is_object p then number_at "taxAmount" (named_fields p) else pos 0

  -- `taxable`
  unfoldable pub taxable : Fields → ℤ
  taxable fs = at_least_zero (
      number_at "subtotal" fs
      -ℤ number_at "discountAmount" fs
      -ℤ number_at "rewardDiscount" fs
      -ℤ number_at "referralDiscount" fs)

  -- `next`: the invoice without its tax
  unfoldable pub strip_tax : Fields → Fields
  strip_tax fs =
      put "grandTotal" (num (round_money (taxable fs)))
        (put "taxAmount" (num (pos 0)) (put "taxRate" (num (pos 0)) fs))

  -- `applyInvoiceGstGuard`
  unfoldable pub apply_invoice_gst_guard : Json → Option Json → GstRegistrationStatus → Json
  apply_invoice_gst_guard payload previous registered = payload
  apply_invoice_gst_guard payload previous not_registered =
      let inv = named_fields payload in
      if not (is_object payload)
      then payload
      else if leb_ℤ (number_at "taxAmount" inv) (pos 0) && leb_ℤ (number_at "taxRate" inv) (pos 0)
      then payload
      else if ltb_ℤ (pos 0) (previous_tax previous)
      then payload
      else obj (strip_tax (own_fields payload))
