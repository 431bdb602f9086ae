-- ===== src/Json.antt =====
-- Values of the type `unknown` that come from JSON: what `typeof`, `Array.isArray`, property reads,
-- object spreads and `delete` do to them. A number is counted in ten-thousandths, as an integer.
pub mod Print
use Prim.Native.String.{◌++◌ as append}
use my_detail_os_backend.Prelude.{
  ℕ, zero, suc, ◌+◌, ◌/◌, ◌%◌, String, Bool, true, false, not, List, [], ◌∷◌, Option, none, some,
  ◌≡◌, refl, arith, ltb, eqb, ◌==◌, eq_iff, is_empty, if◌then◌else◌,
}
use my_detail_os_backend.Prelude.Int.{ℤ}

mutual
  pub data Json : Type 0 where
    null : Json
    bool : Bool → Json
    num : ℤ → Json
    str : String → Json
    arr : Items → Json
    obj : Fields → Json

  pub data Items : Type 0 where
    nil : Items
    cons : Json → Items → Items

  pub data Fields : Type 0 where
    end : Fields
    field : String → Json → Fields → Fields

abbrev pub to_list : Items → List Json
to_list nil = []
to_list (cons v vs) = v ∷ to_list vs

abbrev pub from_list : List Json → Items
from_list [] = nil
from_list (v ∷ vs) = cons v (from_list vs)

pub to_list-from_list : (vs : List Json) → to_list (from_list vs) ≡ vs
to_list-from_list [] = refl
to_list-from_list (v ∷ vs) = rw (to_list-from_list vs)

-- `obj[key]`, with `none` for `undefined`
unfoldable pub get : String → Fields → Option Json
get k end = none
get k (field j v fs) = if j == k then some v else get k fs

-- `obj[key] = value`, and `{ ...obj, key: value }`
unfoldable pub put : String → Json → Fields → Fields
put k v end = field k v end
put k v (field j w fs) = let rest = put k v fs in if j == k then field j v fs else field j w rest

-- `delete obj[key]`
unfoldable pub remove : String → Fields → Fields
remove k end = end
remove k (field j w fs) = let rest = remove k fs in if j == k then rest else field j w rest

-- `{ ...base, ...over }`
unfoldable pub spread_onto : Fields → Fields → Fields
spread_onto base end = base
spread_onto base (field k v over) = spread_onto (put k v base) over

pub get-put :
    (k j : String) (v : Json) (fs : Fields)
    → get j (put k v fs) ≡ (if k == j then some v else get j fs)
unfolding get put
get-put k j v end = refl
get-put k j v (field i w fs) = ground (arith, eq_iff k j, eq_iff i k, eq_iff i j, get-put k j v fs)

pub get-remove :
    (k j : String) (fs : Fields) → get j (remove k fs) ≡ (if k == j then none else get j fs)
unfolding get remove
get-remove k j end = ground arith
get-remove k j (field i w fs) =
    ground (arith, eq_iff k j, eq_iff i k, eq_iff i j, get-remove k j fs)

abbrev pub digit : ℕ → String
digit n =
    if eqb n 0
    then "0"
    else if eqb n 1
    then "1"
    else if eqb n 2
    then "2"
    else if eqb n 3
    then "3"
    else if eqb n 4
    then "4"
    else if eqb n 5
    then "5"
    else if eqb n 6
    then "6"
    else if eqb n 7
    then "7"
    else if eqb n 8
    then "8"
    else "9"

show_fuel : ℕ → ℕ → String
show_fuel zero n = ""
show_fuel (suc f) n =
    let rest = append (show_fuel f (n / 10)) (digit (n % 10)) in if ltb n 10 then digit n else rest

-- A number in decimal digits; `n` has fewer than `n + 1` of them.
unfoldable pub show : ℕ → String
unfolding show_fuel
show n = show_fuel (n + 1) n

index_fields : ℕ → Items → Fields
index_fields i nil = end
index_fields i (cons v vs) = field (show i) v (index_fields (i + 1) vs)

-- The own fields that `{ ...value }` copies. Those of an array are its indices, and a text's,
-- which the source never spreads, are left out.
unfoldable pub own_fields : Json → Fields
unfolding index_fields show
own_fields (obj fs) = fs
own_fields (arr vs) = index_fields 0 vs
own_fields _ = end

-- The fields that are read by a name that is no index.
abbrev pub named_fields : Json → Fields
named_fields (obj fs) = fs
named_fields _ = end

-- `value && typeof value === "object"`; arrays are objects as well.
abbrev pub is_object : Json → Bool
is_object (obj fs) = true
is_object (arr vs) = true
is_object _ = false

-- `typeof value === "string" ? value : undefined`
abbrev pub as_text : Option Json → Option String
as_text (some (str s)) = some s
as_text _ = none

-- Truthiness of a value.
abbrev pub truthy : Option Json → Bool
truthy none = false
truthy (some null) = false
truthy (some (bool b)) = b
truthy (some (num (ℤ.pos zero))) = false
truthy (some (num _)) = true
truthy (some (str s)) = not (is_empty s)
truthy (some _) = true

json_tests : (show 1203 ≡ "1203") × (get "a" (put "a" null (field "b" null end)) ≡ some null)
unfolding show get put
json_tests = (refl, refl)
