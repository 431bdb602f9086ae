-- ===== src/Access/Staff.antt =====
-- src/lib/staff-access.ts: the simplified staff access levels on top of permission keys.
use mathlib.Core.Option
use Prim.Native.String.{◌++◌ as append}
use my_detail_os_backend.Prelude.{
  Bool, true, false, not, ◌&&◌, ◌||◌, String, List, [], ◌∷◌, ◌++◌, ◌≡◌, Option, none, some, arith,
  includes, any, filter, get_or, is_empty, strip_suffix, ends_with, if◌then◌else◌, All, All-filter,
  All-filter_of_All, any-eq-false,
}
use my_detail_os_backend.Access.Keys.{permission_keys}

pub data StaffAccessLevel : Type 0 where
  with_edit_access without_edit_access : StaffAccessLevel

-- `MODULE_KEYS.has(perm)`
unfoldable pub is_module_key : String → Bool
is_module_key perm = includes perm permission_keys

-- `set.add(x)`, on a set in insertion order
abbrev pub add : String → List String → List String
add x xs = if includes x xs then xs else xs ++ (x ∷ [])

-- The loop of `expandLegacyBaseKeys`, with the set so far.
expand_onto : List String → List String → List String
expand_onto out [] = out
expand_onto out (perm ∷ perms) =
    expand_onto
      (if is_module_key perm
        then add (append perm "_EDIT") (add (append perm "_VIEW") (add (append perm "_CREATE") out))
        else add perm out)
      perms

unfoldable pub expand_legacy_base_keys : List String → List String
unfolding expand_onto is_module_key
expand_legacy_base_keys perms = expand_onto [] perms

unfoldable pub derive_staff_access_level : Option (List String) → StaffAccessLevel
derive_staff_access_level permissions =
    let perms = get_or permissions [] in
    if any (ends_with "_EDIT") perms
    then with_edit_access
    else if any is_module_key perms
    then with_edit_access
    else without_edit_access

-- The group 1 of /^(.+)_(CREATE|VIEW|EDIT)$/. Keys hold no line terminator, which `.` leaves out.
unfoldable pub module_of : String → Option String
module_of perm =
    let non_empty = λ (m : String). if is_empty m then none else some m in
    elim (Option.bind (strip_suffix "_CREATE" perm) non_empty) [
      | some m ↦ some m
      | none ↦ elim (Option.bind (strip_suffix "_VIEW" perm) non_empty) [
        | some m ↦ some m
        | none ↦ Option.bind (strip_suffix "_EDIT" perm) non_empty
      ]
    ]

-- The first loop over `next`, which collects the modules.
modules_onto : List String → List String → List String
modules_onto modules [] = modules
modules_onto modules (perm ∷ perms) =
    modules_onto (elim (module_of perm) [ none ↦ modules | some m ↦ add m modules ]) perms

-- The second loop, over the modules: `_EDIT` joins `_CREATE` or `_VIEW`.
add_edits : List String → List String → List String
add_edits next [] = next
add_edits next (m ∷ modules) =
    add_edits
      (if includes (append m "_CREATE") next || includes (append m "_VIEW") next
        then add (append m "_EDIT") next
        else next)
      modules

unfoldable pub permissions_for_staff_access_level :
    Option (List String) → StaffAccessLevel → List String
unfolding modules_onto add_edits module_of
permissions_for_staff_access_level current without_edit_access =
    filter (λ p. not (ends_with "_EDIT" p) && not (is_module_key p))
      (filter (λ p. not (ends_with "_DELETE" p)) (expand_legacy_base_keys (get_or current [])))
permissions_for_staff_access_level current with_edit_access =
    let expanded =
      filter (λ p. not (ends_with "_DELETE" p)) (expand_legacy_base_keys (get_or current [])) in
    let next = filter (λ p. not (is_module_key p)) expanded in add_edits next (modules_onto [] next)

-- What a staff member without edit access may hold.
abbrev pub IsReadOnlyKey : String → Type 0
IsReadOnlyKey p =
    (ends_with "_EDIT" p ≡ false) × (ends_with "_DELETE" p ≡ false) × (is_module_key p ≡ false)

All-map {ℓ κ μ} :
    {A : Type ℓ} (P : A → Type κ) (Q : A → Type μ)
    → ((a : A) → P a → Q a)
    → (xs : List A) → All P xs
    → All Q xs
All-map P Q f [] h = tt
All-map P Q f (x ∷ xs) h = (f x h.0, All-map P Q f xs h.1)

All-both {ℓ κ μ} :
    {A : Type ℓ} (P : A → Type κ) (Q : A → Type μ) (xs : List A)
    → All P xs
    → All Q xs
    → All (λ a. P a × Q a) xs
All-both P Q [] h k = tt
All-both P Q (x ∷ xs) h k = ((h.0, k.0), All-both P Q xs h.1 k.1)

read_only_key :
    (p : String)
    → ((not (ends_with "_EDIT" p) && not (is_module_key p)) ≡ true)
      × (not (ends_with "_DELETE" p) ≡ true)
    → IsReadOnlyKey p
read_only_key p h = ground arith

-- Without edit access no key is left that edits or deletes, nor a base key, which implies every
-- action; and the level that is derived from the keys is the level that they were made for.
pub without_edit_access_keys :
    (current : Option (List String))
    → let keys = permissions_for_staff_access_level current without_edit_access in
      All IsReadOnlyKey keys × (derive_staff_access_level (some keys) ≡ without_edit_access)
unfolding permissions_for_staff_access_level derive_staff_access_level
without_edit_access_keys current =
    let deletable = λ (p : String). not (ends_with "_DELETE" p) in
    let editable = λ (p : String). not (ends_with "_EDIT" p) && not (is_module_key p) in
    let expanded = expand_legacy_base_keys (get_or current []) in
    let keys = filter editable (filter deletable expanded) in
    let clean : All IsReadOnlyKey keys = All-map _ IsReadOnlyKey read_only_key keys (
      All-both (λ p. editable p ≡ true) (λ p. deletable p ≡ true) keys
        (All-filter editable (filter deletable expanded))
        (All-filter_of_All (λ p. deletable p ≡ true) editable (filter deletable expanded)
          (All-filter deletable expanded))) in
    (
      clean,
      rw (
        any-eq-false (ends_with "_EDIT") keys (All-map IsReadOnlyKey _ (λ p h. h.0) keys clean),
        any-eq-false is_module_key keys (All-map IsReadOnlyKey _ (λ p h. h.2) keys clean),
      ),
    )
