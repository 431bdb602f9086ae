-- ===== src/Referrals/Codes.antt =====
-- The referral codes of the platform (src/lib/platform-referral.ts), with the records of the points
-- that they earn (src/modules/organization/referral-wallet.service.ts).
use Prim.Native.Char.{code}
use my_detail_os_backend.Prelude.{
  ℕ, suc, String, Bool, true, false, not, ◌&&◌, ◌||◌, List, Option, none, some, find, is_empty,
  get_or, trim, to_upper, to_lower, leb, eqb, ◌==◌, if◌then◌else◌,
}
use my_detail_os_backend.Prelude.Int.{ℤ, pos}
use my_detail_os_backend.Money.{at_least_zero}

-- `PlatformReferralCode`
pub record ReferralCode : Type 0 where
  pub code : String
  pub organization_id : Option String
  pub is_active : Bool
  pub discount_amount : ℤ

pub data TransactionType : Type 0 where
  points_redeem referrer_points referee_discount : TransactionType

-- `ReferralWallet`
pub record ReferralWallet : Type 0 where
  pub id : String
  pub organization_id : String
  pub points : ℤ

-- `ReferralTransaction`
pub record ReferralTransaction : Type 0 where
  pub wallet_id : String
  pub type : TransactionType
  pub points : ℤ
  pub amount_inr : ℤ
  pub referral_code : String
  pub source_organization_id : String
  pub payment_id : String

-- The tables; the newest ledger row comes first.
pub record Database : Type 0 where
  pub codes : List ReferralCode
  pub wallets : List ReferralWallet
  pub transactions : List ReferralTransaction

abbrev pub referrer_points_on_paid : ℕ
referrer_points_on_paid = 500

is_code_char : ℕ → Bool
is_code_char c = leb b'A' c && leb c b'Z' || leb b'0' c && leb c b'9' || eqb c b'-'

all_code_chars : String → Bool
all_code_chars String.[] = true
all_code_chars (String.◌∷◌ c s) = is_code_char (code c) && all_code_chars s

size : String → ℕ
size String.[] = 0
size (String.◌∷◌ c s) = suc (size s)

-- `REFERRAL_CODE_REGEX.test(code)`
unfoldable pub is_referral_code : String → Bool
unfolding all_code_chars is_code_char size
is_referral_code s = all_code_chars s && leb 4 (size s) && leb (size s) 24

-- `ResolvedPlatformReferral`
pub record ResolvedReferral : Type 0 where
  pub code : Option String
  pub message : Option String
  pub discount_amount : ℤ
  pub referrer_organization_id : Option String

abbrev pub unresolved : Option String → Option String → Option String → ResolvedReferral
unresolved code message referrer = record {
  code = code;
  message = message;
  discount_amount = pos 0;
  referrer_organization_id = referrer;
}

abbrev pub same_organization : Option String → Option String → Bool
same_organization a b = elim a [ none ↦ false | some x ↦ elim b [ none ↦ false | some y ↦ x == y ] ]

-- `findFirst`, with the code compared without regard to case
abbrev pub find_code : String → List ReferralCode → Option ReferralCode
find_code code codes = find (λ r. to_lower r.code == to_lower code) codes

-- `resolvePlatformReferral`
unfoldable pub resolve_platform_referral :
    Option String → Option String → List ReferralCode → ResolvedReferral
resolve_platform_referral raw referee codes =
    let code = to_upper (trim (get_or raw "")) in
    if is_empty code
    then unresolved none none none
    else if not (is_referral_code code)
    then unresolved none (some "Invalid referral code format.") none
    else elim (find_code code codes) [
      | none ↦ unresolved (some code) (some "Unknown or inactive referral code.") none
      | some row ↦
          if not row.is_active
          then unresolved (some code) (some "Unknown or inactive referral code.") none
          else if not (is_empty (get_or referee ""))
              && same_organization row.organization_id referee
          then unresolved (some row.code) (some "You cannot use your own referral code.")
              row.organization_id
          else record {
            code = some row.code;
            message = none;
            discount_amount = at_least_zero row.discount_amount;
            referrer_organization_id = row.organization_id;
          }
    ]

-- The fields that the services read of a stored price breakdown.
pub record Breakdown : Type 0 where
  pub wallet_points_applied : Option ℤ
  pub wallet_points_discount : Option ℤ
  pub referral_applied : Bool
  pub referral_code : Option String
  pub referral_discount : ℤ
  pub referrer_organization_id : Option String
