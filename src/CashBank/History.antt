-- ===== src/CashBank/History.antt =====
-- What a save of the cash and bank singleton keeps
-- (src/modules/collections/cash-bank.service.ts).
use mathlib.Core.Bool.{false≢true}
use my_detail_os_backend.Prelude.{
  String, true, false, ◌==◌, ◌||◌, Option, none, some, ◌≡◌, refl, sym, ◌∙◌, ◌⊎◌, inl, inr, arith,
  is_empty, eq_iff, Bool-cases,
}
use my_detail_os_backend.Errors.{ok}
use my_detail_os_backend.Json.{
  Json, null, bool, num, str, arr, obj, Items, nil, cons, get, put, is_object, own_fields, get-put,
}
use my_detail_os_backend.Store.{Env, track_user}
use my_detail_os_backend.Store.Rows.{Table}
use my_detail_os_backend.Store.ReadBack.{get-upsert}
use my_detail_os_backend.CashBank.{
  or_empty, has_items, field_of, preserved, merged, get_cash_bank, upsert_cash_bank, cash_bank,
}

get-merged :
    (key : String) (incoming : Json) (existing : Option Json)
    → (key == "accounts" || key == "transactions") ≡ true
    → get key (merged incoming existing) ≡ some (preserved key incoming existing)
unfolding merged
get-merged key incoming existing h = ground (
  arith,
  eq_iff key "accounts",
  eq_iff key "transactions",
  eq_iff "accounts" key,
  eq_iff "transactions" key,
  get-put "transactions" key (preserved "transactions" incoming existing)
      (put "accounts" (preserved "accounts" incoming existing) (own_fields incoming)),
  get-put "accounts" key (preserved "accounts" incoming existing) (own_fields incoming),
)

get-saved :
    (env : Env) (org : String) (payload : Json) (t : Table) {t' : Table}
    → is_empty org ≡ false
    → is_object payload ≡ true
    → upsert_cash_bank env org payload t ≡ ok t'
    → get_cash_bank org t' ≡ some (obj (merged payload (get_cash_bank org t)))
unfolding upsert_cash_bank get_cash_bank track_user merged own_fields
get-saved env org payload t full object e =
    get-upsert env cash_bank _ (obj (merged payload (get_cash_bank org t))) org none t full
      (rw object at e)

-- A list with items, in a field.
pub data IsFilled : Option Json → Type 0 where
  filled : (v : Json) (vs : Items) → IsFilled (some (arr (cons v vs)))

has_items-IsFilled : (v : Option Json) → has_items v ≡ true → IsFilled v
unfolding has_items
has_items-IsFilled none h = cc
has_items-IsFilled (some null) h = cc
has_items-IsFilled (some (bool b)) h = cc
has_items-IsFilled (some (num n)) h = cc
has_items-IsFilled (some (str s)) h = cc
has_items-IsFilled (some (obj fs)) h = cc
has_items-IsFilled (some (arr nil)) h = cc
has_items-IsFilled (some (arr (cons v vs))) h = filled v vs

IsFilled-has_items : (v : Option Json) → IsFilled v → has_items v ≡ true
unfolding has_items
IsFilled-has_items _ (filled v vs) = refl

given : (v : Option Json) → IsFilled v → some (or_empty v) ≡ v
given _ (filled v vs) = refl

preserved-IsFilled :
    (key : String) (incoming : Json) (existing : Option Json)
    → IsFilled (field_of key existing)
    → (IsFilled (field_of key (some incoming))
        × (some (preserved key incoming existing) ≡ field_of key (some incoming)))
      ⊎ ((¬ IsFilled (field_of key (some incoming)))
          × (some (preserved key incoming existing) ≡ field_of key existing))
unfolding preserved
preserved-IsFilled key incoming existing stored =
    elim (Bool-cases (has_items (field_of key (some incoming)))) [
      | inl e ↦
          let full = has_items-IsFilled (field_of key (some incoming)) e in
          inl (full, rw e (given (field_of key (some incoming)) full))
      | inr e ↦ inr (
        λ full. false≢true (sym e ∙ IsFilled-has_items (field_of key (some incoming)) full),
        rw e (given (field_of key existing) stored),
      )
    ]

-- Stored accounts and transactions are preserved under a save that brings none: for an organization
-- with a non-empty id, and a stored list with items, whatever object is saved with success, either the
-- payload has a list with items, and exactly that list is stored behind, or it has none, whether it
-- is missing, empty or no list, and exactly the list that was stored is stored behind.
pub upsert_cash_bank_keeps :
    (env : Env) (org : String) (payload : Json) (t : Table) (key : String) {t' : Table}
    → is_empty org ≡ false
    → is_object payload ≡ true
    → (key == "accounts" || key == "transactions") ≡ true
    → upsert_cash_bank env org payload t ≡ ok t'
    → IsFilled (field_of key (get_cash_bank org t))
    → (IsFilled (field_of key (some payload))
        × (field_of key (get_cash_bank org t') ≡ field_of key (some payload)))
      ⊎ ((¬ IsFilled (field_of key (some payload)))
          × (field_of key (get_cash_bank org t') ≡ field_of key (get_cash_bank org t)))
upsert_cash_bank_keeps env org payload t key full object h e stored =
    rw (get-saved env org payload t full object e, get-merged key payload (get_cash_bank org t) h)
      (preserved-IsFilled key payload (get_cash_bank org t) stored)
