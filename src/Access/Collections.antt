-- ===== src/Access/Collections.antt =====
-- src/constants/json-collections.ts and src/constants/collection-permissions.ts: the registered
-- collections and the permission that each one needs. An object is indexed as the source does it: its
-- own keys, then the names that it inherits from `Object.prototype`.
use Prim.Native.String.{◌++◌ as append, count}
use mathlib.Core.Bool.{or-true}
use text.Mathlib.TextLemmas.{length-append}
use my_detail_os_backend.Prelude.{
  Bool, true, false, not, ◌&&◌, ◌||◌, String, List, [], ◌∷◌, ◌++◌, ◌≡◌, refl, ◌↔◌, Option, none,
  some, includes, is_some, is_empty, all, map, length, eqb, Dict, lookup, ◌==◌, all-includes,
  eq_iff, or_split, some_inj, sym, ◌⊎◌, Option-cases, if◌then◌else◌, and_split, inl, inr, arith, ap,
  Bool-cases,
}

abbrev pub array_json_collections : List String
array_json_collections =
    "jobCards" ∷ "invoices" ∷ "quotations" ∷ "appointments" ∷ "expenses" ∷ "activityLogs"
    ∷ "serviceReminders" ∷ "walletTransactions" ∷ "serviceCatalog" ∷ "parts" ∷ "stockMovements"
    ∷ "productPurchases" ∷ "branchStocks" ∷ "stockTransfers" ∷ "partCategories" ∷ "followUps"
    ∷ "offers" ∷ "supportTickets" ∷ "demoRequests" ∷ "serviceCategories" ∷ "notifications"
    ∷ "pickupDropRequests" ∷ "communications" ∷ "leaveRequests" ∷ "staffRewardLedger"
    ∷ "staffTargets" ∷ []

abbrev pub singleton_collections : List String
singleton_collections =
    "dashboardStats" ∷ "expenseMeta" ∷ "cashBank" ∷ "payroll" ∷ "membership" ∷ "appSettings"
    ∷ "referralProgram" ∷ "balanceSheetManual" ∷ "highEndServices" ∷ "reportSchedules"
    ∷ "vehicleCatalog" ∷ "leaveConfig" ∷ "staffRewardSettings" ∷ "customerRewardSettings" ∷ []

abbrev pub singleton_entity_id : String
singleton_entity_id = "default"

unfoldable pub is_array_collection : String → Bool
is_array_collection name = includes name array_json_collections

unfoldable pub is_singleton_collection : String → Bool
is_singleton_collection name = includes name singleton_collections

-- `{organizationId}::default`
unfoldable pub singleton_storage_entity_id : String → String
singleton_storage_entity_id organization_id =
    append organization_id (append "::" singleton_entity_id)

unfoldable pub is_singleton_storage_entity_id_for_org : String → String → Bool
unfolding singleton_storage_entity_id
is_singleton_storage_entity_id_for_org entity_id organization_id =
    entity_id == singleton_storage_entity_id organization_id || entity_id == singleton_entity_id

abbrev pub collection_permission_map : Dict String
collection_permission_map =
    ("jobCards", "JOB_CARDS")
    ∷ ("invoices", "BILLING")
    ∷ ("quotations", "QUOTATIONS")
    ∷ ("appointments", "APPOINTMENTS")
    ∷ ("expenses", "EXPENSES")
    ∷ ("activityLogs", "ACTIVITY")
    ∷ ("serviceReminders", "REMINDERS")
    ∷ ("walletTransactions", "REFERRALS")
    ∷ ("serviceCatalog", "SERVICES")
    ∷ ("parts", "INVENTORY")
    ∷ ("stockMovements", "INVENTORY")
    ∷ ("productPurchases", "INVENTORY")
    ∷ ("branchStocks", "INVENTORY")
    ∷ ("stockTransfers", "INVENTORY")
    ∷ ("partCategories", "INVENTORY")
    ∷ ("followUps", "FOLLOW_UPS")
    ∷ ("offers", "OFFERS")
    ∷ ("supportTickets", "SUPPORT")
    ∷ ("demoRequests", "SUPPORT")
    ∷ ("serviceCategories", "SERVICES")
    ∷ ("notifications", "DASHBOARD")
    ∷ ("pickupDropRequests", "PICKUP_DROP")
    ∷ ("communications", "MESSAGES")
    ∷ ("dashboardStats", "DASHBOARD")
    ∷ ("expenseMeta", "EXPENSES")
    ∷ ("cashBank", "CASH_BANK")
    ∷ ("payroll", "PAYROLL")
    ∷ ("membership", "MEMBERSHIP")
    ∷ ("appSettings", "SETTINGS")
    ∷ ("referralProgram", "REFERRALS")
    ∷ ("balanceSheetManual", "SHARED_LEDGER")
    ∷ ("highEndServices", "SERVICES")
    ∷ ("reportSchedules", "ADVANCED_REPORTS")
    ∷ ("vehicleCatalog", "VEHICLES")
    ∷ ("leaveRequests", "LEAVE")
    ∷ ("leaveConfig", "LEAVE")
    ∷ ("staffRewardLedger", "STAFF_REWARDS")
    ∷ ("staffTargets", "STAFF_REWARDS")
    ∷ ("staffRewardSettings", "STAFF_REWARDS")
    ∷ ("customerRewardSettings", "MEMBERSHIP")
    ∷ []

-- The names that every object inherits from `Object.prototype`.
abbrev pub object_prototype : List String
object_prototype =
    "constructor" ∷ "__defineGetter__" ∷ "__defineSetter__" ∷ "hasOwnProperty" ∷ "__lookupGetter__"
    ∷ "__lookupSetter__" ∷ "isPrototypeOf" ∷ "propertyIsEnumerable" ∷ "toString" ∷ "valueOf"
    ∷ "__proto__" ∷ "toLocaleString" ∷ []

unfoldable pub is_inherited : String → Bool
is_inherited name = includes name object_prototype

-- What indexing the map gives: the permission key of an own entry, or the value of an inherited name,
-- which is a function or an object, and no text.
pub data Permission : Type 0 where
  own : String → Permission
  inherited : String → Permission

-- `getCollectionPermission`
unfoldable pub get_collection_permission : String → Option Permission
unfolding is_inherited
get_collection_permission collection = elim (lookup collection collection_permission_map) [
  | some permission ↦ some (own permission)
  | none ↦ if is_inherited collection then some (inherited collection) else none
]

-- A key's permission is there and is not empty.
abbrev truthy : Option Permission → Bool
truthy none = false
truthy (some (own s)) = not (is_empty s)
truthy (some (inherited _)) = true

abbrev pub all_registered_collections : List String
all_registered_collections = array_json_collections ++ singleton_collections

unfoldable pub collection_permission_map_is_complete : Bool
unfolding get_collection_permission
collection_permission_map_is_complete =
    eqb (length (map (λ e. e.0) collection_permission_map)) (length all_registered_collections)
    && all
        (λ name.
          includes name all_registered_collections && truthy (get_collection_permission name))
        (map (λ e. e.0) collection_permission_map)
    && all (λ name. truthy (get_collection_permission name)) all_registered_collections

is_complete : collection_permission_map_is_complete ≡ true
unfolding collection_permission_map_is_complete lookup
is_complete = refl

abbrev has_permission : String → Bool
has_permission c = is_some (get_collection_permission c)

-- A key that a dictionary finds passes each test that all of its keys pass.
lookup_keys :
    (q : String → Bool) (c : String) (d : Dict String)
    → all q (map (λ e. e.0) d) ≡ true
    → is_some (lookup c d) ≡ true
    → q c ≡ true
unfolding lookup
lookup_keys q c [] h m = cc
lookup_keys q c ((k, v) ∷ d) h m = elim (Bool-cases (k == c)) [
  | inl e ↦ rw (← (eq_iff k c).0 e) (and_split _ _ h).0
  | inr e ↦ lookup_keys q c d (and_split _ _ h).1 (rw e at m)
]

abbrev registered : String → Bool
registered c = includes c array_json_collections || includes c singleton_collections

-- The name of what is inherited.
abbrev name_of : Permission → String
name_of (own _) = ""
name_of (inherited name) = name

inherited_inj : {a b : String} → inherited a ≡ inherited b → a ≡ b
inherited_inj h = ap name_of h

pub own-registered :
    (c p : String)
    → get_collection_permission c ≡ some (own p)
    → (is_array_collection c || is_singleton_collection c) ≡ true
unfolding get_collection_permission is_array_collection is_singleton_collection
own-registered c p h = elim (Option-cases (lookup c collection_permission_map)) [
  | inr (q, e) ↦ lookup_keys registered c collection_permission_map refl (rw e refl)
  | inl e ↦ elim (Bool-cases (is_inherited c)) [
    | inl i ↦ cc (rw (get_collection_permission, e, i) at h)
    | inr i ↦ cc (rw (get_collection_permission, e, i) at h)
  ]
]

get_collection_permission_cases :
    (c : String)
    → is_some (get_collection_permission c) ≡ true
    → (registered c ≡ true) ⊎ (is_inherited c ≡ true)
unfolding get_collection_permission
get_collection_permission_cases c h = elim (Option-cases (lookup c collection_permission_map)) [
  | inr (q, e) ↦ inl (lookup_keys registered c collection_permission_map refl (rw e refl))
  | inl e ↦ elim (Bool-cases (is_inherited c)) [
    | inl i ↦ inr i
    | inr i ↦ cc (rw (get_collection_permission, e, i) at h)
  ]
]

-- A permission that is inherited is that of its own name.
pub inherited-name :
    (c name : String)
    → get_collection_permission c ≡ some (inherited name)
    → (is_inherited c ≡ true) × (name ≡ c)
unfolding get_collection_permission
inherited-name c name h = elim (Option-cases (lookup c collection_permission_map)) [
  | inr (q, e) ↦ cc (rw (get_collection_permission, e) at h)
  | inl e ↦ elim (Bool-cases (is_inherited c)) [
    | inl i ↦ (i, inherited_inj (some_inj (sym (rw (get_collection_permission, e, i) at h))))
    | inr i ↦ cc (rw (get_collection_permission, e, i) at h)
  ]
]

-- A collection has a permission exactly when it is registered or is named like something that every
-- object inherits: any other name is denied.
pub get_collection_permission_iff :
    (c : String)
    → (is_some (get_collection_permission c) ≡ true)
      ↔ (((is_array_collection c || is_singleton_collection c) || is_inherited c) ≡ true)
unfolding get_collection_permission is_array_collection is_singleton_collection is_inherited lookup
get_collection_permission_iff c = (
  λ h. elim (get_collection_permission_cases c h) [
    | inl r ↦ rw r refl
    | inr i ↦ rw i (or-true (registered c))
  ],
  λ h. elim (or_split _ _ h) [
    | inl r ↦ elim (or_split _ _ r) [
      | inl a ↦ all-includes has_permission c array_json_collections refl a
      | inr s ↦ all-includes has_permission c singleton_collections refl s
    ]
    | inr i ↦ all-includes has_permission c object_prototype refl i
  ],
)

-- The id under which an organization's singleton is stored is not the legacy id.
pub storage_id-ne-legacy :
    (org : String) → (singleton_entity_id == singleton_storage_entity_id org) ≡ false
unfolding singleton_storage_entity_id
storage_id-ne-legacy org = elim (Bool-cases ("default" == append org "::default")) [
  | inl e ↦ absurd (
      omega (
        arith,
        ap count ((eq_iff "default" (append org "::default")).0 e),
        length-append org "::default",
      ))
  | inr e ↦ e
]
