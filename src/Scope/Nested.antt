-- ===== src/Scope/Nested.antt =====
-- What the branch filter does to the nested arrays of a singleton, and what branding shows
-- (src/lib/data-scope.ts).
use mathlib.Core.Bool.{or-false}
use mathlib.Core.Path.{subst}
use my_detail_os_backend.Prelude.{
  String, Bool, true, false, ◌||◌, ◌==◌, sym, Bool-cases, ◌&&◌, List, [], ◌∷◌, Option, none, some,
  ◌≡◌, ◌∙◌, refl, inl, inr, arith, includes, is_some, Option-cases, if◌then◌else◌, lookup, Dict,
  insert, lookup-insert, eq_iff,
}
use my_detail_os_backend.Json.{
  Json, null, bool, num, str, arr, obj, Items, to_list, from_list, Fields, get, put, get-put,
  own_fields, named_fields, as_text, is_object,
}
use my_detail_os_backend.Scope.Hidden.{Kept, filter_payloads-Kept}
use my_detail_os_backend.Scope.{
  filter_payloads_by_branch, filter_nested_array_by_branch, filter_keys, nested_keys,
  filter_nested_singleton_payload, branding_keys, brand_onto, extract_branding,
}

-- A field of the result: filtered, if it is one of the nested arrays, and else as it was.
abbrev filtered_field :
    List String → Option (List String) → String → Option Json → Option Json → Option Json
filtered_field keys allowed k (some v) old =
    if includes k keys then some (filter_nested_array_by_branch v allowed) else old
filtered_field keys allowed k none old = old

get-filter_keys :
    (keys : List String) (src : Fields) (allowed : Option (List String)) (next : Fields)
    (k : String)
    → get k (filter_keys keys src allowed next)
      ≡ filtered_field keys allowed k (get k src) (get k next)
unfolding filter_keys
get-filter_keys [] src allowed next k = elim (Option-cases (get k src)) [
  | inl e ↦ rw e
  | inr (v, e) ↦ rw e
]
get-filter_keys (key ∷ keys) src allowed next k = elim (Option-cases (get key src)) [
  | inl e ↦ ground (arith, e, eq_iff key k, get-filter_keys keys src allowed next k)
  | inr (v, e) ↦
      let put_v = put key (filter_nested_array_by_branch v allowed) next in
      ground (
        arith,
        e,
        eq_iff key k,
        get-filter_keys keys src allowed put_v k,
        get-put key k (filter_nested_array_by_branch v allowed) next,
      )
]

-- `Array.isArray`
abbrev pub is_array : Json → Bool
is_array (arr vs) = true
is_array _ = false

-- The nested arrays of the singletons, by name.
abbrev pub is_nested : String → String → Bool
is_nested collection k =
    (collection == "payroll"
      && includes k (
          "salaryStructures" ∷ "payrollRecords" ∷ "salaryAdvances" ∷ "salaryAdvanceRecoveries"
          ∷ []))
    || ((collection == "cashBank" && includes k ("accounts" ∷ "transactions" ∷ []))
        || ((collection == "leaveConfig" && includes k ("balances" ∷ []))
            || (collection == "membership" && includes k ("packages" ∷ "subscriptions" ∷ []))))

-- A field before and behind the filter: what is no nested array is as it was; a nested array keeps
-- exactly the visible payloads, in their order; and a value in its place that is no array is emptied.
pub data Shown (allowed : List String) : Bool → Option Json → Option Json → Type 0 where
  as_it_was : {v : Option Json} → Shown allowed false v v
  missing : Shown allowed true none none
  listed :
      {vs : Items} {ys : List Json}
      → Kept allowed (to_list vs) ys
      → Shown allowed true (some (arr vs)) (some (arr (from_list ys)))
  emptied : {v : Json} → is_array v ≡ false → Shown allowed true (some v) (some (arr Items.nil))

nested_keys_of : Option (List String) → String → Bool
nested_keys_of none k = false
nested_keys_of (some keys) k = includes k keys

nested_keys-is_nested :
    (collection k : String) → nested_keys_of (nested_keys collection) k ≡ is_nested collection k
unfolding nested_keys_of nested_keys
nested_keys-is_nested collection k = elim (Bool-cases (collection == "payroll")) [
  | inl e ↦ rw ((eq_iff collection "payroll").0 e) (sym (or-false _))
  | inr e ↦ elim (Bool-cases (collection == "cashBank")) [
    | inl f ↦ rw ((eq_iff collection "cashBank").0 f) (sym (or-false _))
    | inr f ↦ elim (Bool-cases (collection == "leaveConfig")) [
      | inl g ↦ rw ((eq_iff collection "leaveConfig").0 g) (sym (or-false _))
      | inr g ↦ elim (Bool-cases (collection == "membership")) [
        | inl m ↦ rw (e, f, g, m) refl
        | inr m ↦ rw (e, f, g, m) refl
      ]
    ]
  ]
]

filter_nested-Shown :
    (allowed : List String) (v : Json)
    → Shown allowed true (some v) (some (filter_nested_array_by_branch v (some allowed)))
unfolding filter_nested_array_by_branch filter_payloads_by_branch
filter_nested-Shown allowed (arr vs) = listed (filter_payloads-Kept allowed (to_list vs))
filter_nested-Shown allowed null = emptied refl
filter_nested-Shown allowed (bool b) = emptied refl
filter_nested-Shown allowed (num n) = emptied refl
filter_nested-Shown allowed (str s) = emptied refl
filter_nested-Shown allowed (obj fs) = emptied refl

filtered-Shown :
    (allowed keys : List String) (k : String) (v : Option Json)
    → Shown allowed (includes k keys) v (filtered_field keys (some allowed) k v v)
filtered-Shown allowed keys k none = elim (Bool-cases (includes k keys)) [
  | inl e ↦ rw e missing
  | inr e ↦ rw e as_it_was
]
filtered-Shown allowed keys k (some v) = elim (Bool-cases (includes k keys)) [
  | inl e ↦ rw e (filter_nested-Shown allowed v)
  | inr e ↦ rw e as_it_was
]

-- Of a singleton whose payload is an object, no list, a user restricted to the branches `allowed` is
-- given the nested branch-tagged arrays of that singleton with exactly their visible entries, in order,
-- where such a field that holds no array is emptied, and every other field as it was stored.
pub filter_nested_singleton_payload-fields :
    (collection : String) (fs : Fields) (allowed : List String) (k : String)
    → Shown allowed
        (is_nested collection k)
        (get k fs)
        (get k (named_fields (filter_nested_singleton_payload collection (obj fs) (some allowed))))
unfolding filter_nested_singleton_payload nested_keys_of get own_fields
filter_nested_singleton_payload-fields collection fs allowed k =
    subst
      (λ x.
        Shown allowed x (get k fs) (
          get k
            (named_fields (filter_nested_singleton_payload collection (obj fs) (some allowed)))))
      (nested_keys-is_nested collection k)
      (elim (Option-cases (nested_keys collection)) [
        | inl e ↦ rw (e, filter_nested_singleton_payload) as_it_was
        | inr (keys, e) ↦
            rw (e, filter_nested_singleton_payload, get-filter_keys keys fs (some allowed) fs k)
              (filtered-Shown allowed keys k (get k fs))
      ])

lookup-brand_onto :
    (keys : List String) (src : Fields) (out : Dict String) (k : String)
    → lookup k (brand_onto keys src out) ≡ (
        if includes k keys && is_some (as_text (get k src))
        then as_text (get k src)
        else lookup k out)
unfolding brand_onto
lookup-brand_onto [] src out k = refl
lookup-brand_onto (key ∷ keys) src out k = elim (Option-cases (as_text (get key src))) [
  | inl e ↦ ground (arith, e, eq_iff key k, lookup-brand_onto keys src out k)
  | inr (v, e) ↦ ground (
    arith,
    e,
    eq_iff key k,
    lookup-brand_onto keys src (insert key v out) k,
    lookup-insert key k v out,
  )
]

given_if :
    (b : Bool) (o : Option String) → (if b && is_some o then o else none) ≡ (if b then o else none)
given_if b none = ground arith
given_if b (some v) = ground arith

-- Branding shows, of settings that are an object, the fields of the branding list that hold texts,
-- unchanged, and no other field.
pub lookup-extract_branding :
    (app_settings : Json) (k : String)
    → is_object app_settings ≡ true
    → lookup k (extract_branding app_settings)
      ≡ (if includes k branding_keys then as_text (get k (named_fields app_settings)) else none)
unfolding extract_branding lookup
lookup-extract_branding app_settings k object = rw object (
    lookup-brand_onto branding_keys (named_fields app_settings) [] k
    ∙ given_if (includes k branding_keys) (as_text (get k (named_fields app_settings))))
