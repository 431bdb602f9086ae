-- ===== src/Json/Print.antt =====
-- `String(value)` of a JSON value, as JavaScript prints it; numbers with four decimals at most.
use Prim.Native.String.{◌++◌ as append}
use my_detail_os_backend.Prelude.{
  ℕ, suc, ◌/◌, ◌%◌, String, true, false, eqb, refl, ◌≡◌, if◌then◌else◌,
}
use my_detail_os_backend.Prelude.Int.{ℤ, pos, negsuc}
use my_detail_os_backend.Json.{Json, null, bool, num, str, arr, obj, Items, nil, cons, digit, show}

-- The decimals of a number of ten-thousandths below one, without zeros at the end.
fraction : ℕ → String
fraction n =
    if eqb n 0
    then ""
    else if eqb (n % 1000) 0
    then append "." (digit (n / 1000))
    else if eqb (n % 100) 0
    then append "." (append (digit (n / 1000)) (digit (n / 100 % 10)))
    else if eqb (n % 10) 0
    then append "."
        (append (digit (n / 1000)) (append (digit (n / 100 % 10)) (digit (n / 10 % 10))))
    else append "." (
        append (digit (n / 1000))
          (append (digit (n / 100 % 10)) (append (digit (n / 10 % 10)) (digit (n % 10)))))

unfoldable pub number_text : ℤ → String
unfolding fraction
number_text (pos n) = append (show (n / 10000)) (fraction (n % 10000))
number_text (negsuc n) = append "-" (append (show (suc n / 10000)) (fraction (suc n % 10000)))

unfoldable mutual
  pub to_text : Json → String
  to_text null = "null"
  to_text (bool true) = "true"
  to_text (bool false) = "false"
  to_text (num n) = number_text n
  to_text (str s) = s
  to_text (arr vs) = items_text vs
  to_text (obj fs) = "[object Object]"

  -- An array is its items between commas, with nothing for `null`.
  pub items_text : Items → String
  items_text nil = ""
  items_text (cons v nil) = item_text v
  items_text (cons v (cons w vs)) = append (item_text v) (append "," (items_text (cons w vs)))

  pub item_text : Json → String
  item_text null = ""
  item_text (bool true) = "true"
  item_text (bool false) = "false"
  item_text (num n) = number_text n
  item_text (str s) = s
  item_text (arr vs) = items_text vs
  item_text (obj fs) = "[object Object]"

print_tests :
    (to_text (num (pos 1234500)) ≡ "123.45")
    × (to_text (num (negsuc 4999)) ≡ "-0.5")
    × (to_text (arr (cons (str "a") (cons null (cons (num (pos 20000)) nil)))) ≡ "a,,2")
unfolding to_text items_text item_text number_text show fraction
print_tests = (refl, refl, refl)
