-- ===== src/Tests/Otp.antt =====
-- The cache and the login codes at concrete times (src/lib/simple-cache.ts,
-- src/modules/auth/login-otp.service.ts).
use my_detail_os_backend.Prelude.{String, true, false, [], ◌≡◌, refl, insert, lookup}
use my_detail_os_backend.Cache.{SimpleCache}
use my_detail_os_backend.Otp.{OtpStore, issue_login_otp, consume_login_otp_if_valid, consume_once}
use my_detail_os_backend.Json.{show}

abbrev empty_cache : SimpleCache String
empty_cache = []

abbrev no_codes : OtpStore
no_codes = []

accepts :
    (consume_login_otp_if_valid 500 "9876543210" "1234"
      (issue_login_otp 234 100 "9876543210" no_codes).1).0
    ≡ true
unfolding consume_login_otp_if_valid insert issue_login_otp lookup show
accepts = refl

consume_once_example :
    (consume_login_otp_if_valid 600 "9876543210" "1234"
      (consume_login_otp_if_valid 500 "9876543210" "1234"
        (issue_login_otp 234 100 "9876543210" no_codes).1).1).0
    ≡ false
consume_once_example =
    consume_once 500 600 "9876543210" "1234" "1234"
      (issue_login_otp 234 100 "9876543210" no_codes).1 accepts
