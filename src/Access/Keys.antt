-- ===== src/Access/Keys.antt =====
-- src/constants/permission-keys.ts: permission keys, and their forms for one action.
use Prim.Native.String.{◌++◌}
use my_detail_os_backend.Prelude.{Bool, not, String, List, [], ◌∷◌, includes, filter}

abbrev pub permission_keys : List String
permission_keys =
    "DASHBOARD" ∷ "JOB_CARDS" ∷ "JOB_CARD_PRICING" ∷ "BOOKINGS" ∷ "PICKUP_DROP" ∷ "QUOTATIONS"
    ∷ "APPOINTMENTS" ∷ "CUSTOMERS" ∷ "MEMBERSHIP" ∷ "VEHICLES" ∷ "REMINDERS" ∷ "FOLLOW_UPS"
    ∷ "REFERRALS" ∷ "OFFERS" ∷ "SUPPORT" ∷ "BILLING" ∷ "REPORTS" ∷ "CASH_BANK" ∷ "PARTIES"
    ∷ "SHARED_LEDGER" ∷ "EXPENSES" ∷ "VENDORS" ∷ "STAFF" ∷ "ATTENDANCE" ∷ "LEAVE" ∷ "PAYROLL"
    ∷ "STAFF_REWARDS" ∷ "SERVICES" ∷ "INVENTORY" ∷ "BRANCHES" ∷ "PERFORMANCE" ∷ "MECHANICS"
    ∷ "ANALYTICS" ∷ "ADVANCED_REPORTS" ∷ "ACTIVITY" ∷ "MESSAGES" ∷ "SETTINGS" ∷ []

abbrev pub granular_permission_modules : List String
granular_permission_modules =
    "JOB_CARDS" ∷ "BOOKINGS" ∷ "PICKUP_DROP" ∷ "QUOTATIONS" ∷ "APPOINTMENTS" ∷ "CUSTOMERS"
    ∷ "VEHICLES" ∷ "MEMBERSHIP" ∷ "BILLING" ∷ "EXPENSES" ∷ "INVENTORY" ∷ "STAFF" ∷ "ATTENDANCE"
    ∷ "REFERRALS" ∷ []

pub data GranularAction : Type 0 where
  create view edit delete : GranularAction

-- An action's part of a key, with the underscore before it.
abbrev pub action_suffix : GranularAction → String
action_suffix create = "_CREATE"
action_suffix view = "_VIEW"
action_suffix edit = "_EDIT"
action_suffix delete = "_DELETE"

unfoldable pub is_granular_permission_module : String → Bool
is_granular_permission_module permission = includes permission granular_permission_modules

abbrev pub simple_permissions_for_ui : List String
unfolding is_granular_permission_module
simple_permissions_for_ui = filter (λ key. not (is_granular_permission_module key)) permission_keys

abbrev pub granular_permission_key : String → GranularAction → String
granular_permission_key module_key action = module_key ++ action_suffix action
