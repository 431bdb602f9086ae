-- ===== src/Otp.antt =====
-- One-time passwords of the login (src/modules/auth/login-otp.service.ts). Times are in
-- milliseconds, and the random number below 9000 is given.
use mathlib.Core.Path.{subst}
use text.Mathlib.TextPositions.{eq_refl}
use Prim.Native.Char.{code}
use mathlib.Core.Bool.{false≢true}
use my_detail_os_backend.Prelude.{
  ℕ, suc, ◌+◌, ◌*◌, String, Bool, true, false, not, ◌&&◌, List, Option, none, some, find, ◌≡◌, refl,
  ap, sym, ◌∙◌, inl, inr, arith, ltb, leb, eqb, ends_with, ◌==◌, Dict, lookup, insert, erase,
  lookup-insert, lookup-erase, Option-cases, if◌then◌else◌,
}
use my_detail_os_backend.Json.{show}

-- The fields of a `User` that the lookup reads.
pub record OtpUser : Type 0 where
  pub id : String
  pub phone : String
  pub is_active : Bool

is_digit : ℕ → Bool
is_digit c = leb b'0' c && leb c b'9'

-- `digitsOnly`
unfoldable pub digits_only : String → String
unfolding is_digit
digits_only String.[] = String.[]
digits_only (String.◌∷◌ c s) =
    let rest = digits_only s in if is_digit (code c) then String.◌∷◌ c rest else rest

size : String → ℕ
size String.[] = 0
size (String.◌∷◌ c s) = suc (size s)

-- `findActiveUserByTenDigitPhone`
unfoldable pub find_active_user_by_ten_digit_phone : String → List OtpUser → Option OtpUser
unfolding size
find_active_user_by_ten_digit_phone ten users =
    if not (eqb (size ten) 10)
    then none
    else find (λ u. u.is_active && ends_with ten (digits_only u.phone)) users

pub record OtpEntry : Type 0 where
  pub otp_code : String
  pub expires_at : ℕ

-- `otpByPhone`
abbrev pub OtpStore : Type 0
OtpStore = Dict OtpEntry

abbrev pub otp_ttl_ms : ℕ
otp_ttl_ms = 10 * 60 * 1000

-- `issueLoginOtp`, with the store that it leaves
unfoldable pub issue_login_otp : (random now : ℕ) → String → OtpStore → String × OtpStore
issue_login_otp random now phone store = (
  show (1000 + random),
  insert phone (record { otp_code = show (1000 + random); expires_at = now + otp_ttl_ms }) store,
)

-- `consumeLoginOtpIfValid`, with the store that it leaves
unfoldable pub consume_login_otp_if_valid : ℕ → String → String → OtpStore → Bool × OtpStore
consume_login_otp_if_valid now phone entered store = elim (lookup phone store) [
  | none ↦ (false, store)
  | some entry ↦
      if ltb entry.expires_at now
      then (false, erase phone store)
      else if not (entry.otp_code == entered)
      then (false, store)
      else (true, erase phone store)
]

-- `isDemoLoginOtp`, for the environment variable LOGIN_OTP_DEMO_CODE
unfoldable pub is_demo_login_otp : Option String → String → Bool
is_demo_login_otp none entered = entered == "1234"
is_demo_login_otp (some raw) entered = if raw == "" then false else entered == raw

consume-at :
    (now : ℕ) (phone entered : String) (store : OtpStore) (entry : OtpEntry)
    → lookup phone store ≡ some entry
    → consume_login_otp_if_valid now phone entered store ≡ (
        if ltb entry.expires_at now
        then (false, erase phone store)
        else if not (entry.otp_code == entered)
        then (false, store)
        else (true, erase phone store))
unfolding consume_login_otp_if_valid
consume-at now phone entered store entry e = rw (e, consume_login_otp_if_valid)

consume-none :
    (now : ℕ) (phone entered : String) (store : OtpStore)
    → lookup phone store ≡ none
    → consume_login_otp_if_valid now phone entered store ≡ (false, store)
unfolding consume_login_otp_if_valid
consume-none now phone entered store e = rw (e, consume_login_otp_if_valid)

-- For ten minutes, the last issued code is accepted, and no other text; behind them, none is.
pub consume-issue :
    (random since now : ℕ) (phone entered : String) (store : OtpStore)
    → (consume_login_otp_if_valid now phone entered (issue_login_otp random since phone store).1).0
      ≡ (leb now (since + otp_ttl_ms) && (issue_login_otp random since phone store).0 == entered)
unfolding issue_login_otp
consume-issue random since now phone entered store =
    let entry : OtpEntry = record {
      otp_code = show (1000 + random);
      expires_at = since + otp_ttl_ms;
    } in
    let found : lookup phone (insert phone entry store) ≡ some entry =
      rw (lookup-insert phone phone entry store, eq_refl phone) in
    ap (λ x. x.0) (consume-at now phone entered (insert phone entry store) entry found)
    ∙ ground arith

abbrev answer : Bool → Bool → OtpStore → OtpStore → Bool × OtpStore
answer late wrong kept erased =
    if late then (false, erased) else if wrong then (false, kept) else (true, erased)

erased_if_accepted :
    (late wrong : Bool) (kept erased : OtpStore)
    → (answer late wrong kept erased).0 ≡ true
    → (answer late wrong kept erased).1 ≡ erased
erased_if_accepted true wrong kept erased h = refl
erased_if_accepted false true kept erased h = absurd (false≢true h)
erased_if_accepted false false kept erased h = refl

-- An accepted code is used up: whatever is entered next for this phone is refused.
pub consume_once :
    (now later : ℕ) (phone entered again : String) (store : OtpStore)
    → (consume_login_otp_if_valid now phone entered store).0 ≡ true
    → (consume_login_otp_if_valid later phone again
        (consume_login_otp_if_valid now phone entered store).1).0
      ≡ false
consume_once now later phone entered again store h = elim (Option-cases (lookup phone store)) [
  | inl e ↦ absurd (false≢true (sym (ap (λ x. x.0) (consume-none now phone entered store e)) ∙ h))
  | inr (entry, e) ↦
      let result = consume-at now phone entered store entry e in
      let used : (consume_login_otp_if_valid now phone entered store).1 ≡ erase phone store =
        ap (λ x. x.1) result
        ∙ erased_if_accepted (ltb entry.expires_at now) (not (entry.otp_code == entered)) store
            (erase phone store) (sym (ap (λ x. x.0) result) ∙ h) in
      let gone : lookup phone (erase phone store) ≡ none =
        rw (lookup-erase phone phone store, eq_refl phone) in
      subst (λ x. (consume_login_otp_if_valid later phone again x).0 ≡ false) (sym used)
        (ap (λ x. x.0) (consume-none later phone again (erase phone store) gone))
]
