-- ===== src/Scope/Hidden.antt =====
-- What the branch filter of a list hides, and what it keeps (src/lib/data-scope.ts).
use my_detail_os_backend.Prelude.{
  String, true, ◌||◌, List, [], ◌∷◌, Option, none, some, ◌≡◌, inl, inr, arith, includes, filter,
  Bool-cases, Option-cases,
}
use my_detail_os_backend.Json.{Json, get, named_fields, as_text, is_object}
use my_detail_os_backend.Access.Collections.{is_array_collection}
use my_detail_os_backend.Scope.{
  payload_branch_id, allows, filled, is_payload_in_branch_scope, filter_payloads_by_branch,
  apply_collection_branch_scope,
}

-- A branch of a transfer, named by a field of the payload.
abbrev pub branch_field : String → Json → Option String
branch_field key payload = as_text (get key (named_fields payload))

-- A payload that may be seen with the branches `allowed`: its branch is one of them, and where it
-- has no branch, it is no transfer or one end of it is one of them.
pub record IsVisible (allowed : List String) (payload : Json) : Type 0 where
  pub own_branch : (id : String) → payload_branch_id payload ≡ some id → includes id allowed ≡ true
  pub transfer :
      payload_branch_id payload ≡ none
      → is_object payload ≡ true
      → (filled (branch_field "fromBranchId" payload) || filled (branch_field "toBranchId" payload))
        ≡ true
      → (allows allowed (branch_field "fromBranchId" payload)
          || allows allowed (branch_field "toBranchId" payload))
        ≡ true

-- The list without what the test refuses, in order.
pub data Kept (allowed : List String) : List Json → List Json → Type 0 where
  done : Kept allowed [] []
  keep :
      {p : Json} {xs ys : List Json}
      → IsVisible allowed p
      → Kept allowed xs ys
      → Kept allowed (p ∷ xs) (p ∷ ys)
  skip :
      {p : Json} {xs ys : List Json}
      → ¬ IsVisible allowed p
      → Kept allowed xs ys
      → Kept allowed (p ∷ xs) ys

in_scope-IsVisible :
    (allowed : List String) (p : Json)
    → is_payload_in_branch_scope p (some allowed) ≡ true
    → IsVisible allowed p
unfolding is_payload_in_branch_scope
in_scope-IsVisible allowed p h = record {
  own_branch = λ id e. rw (e, is_payload_in_branch_scope) at h;
  transfer = λ e o f. ground arith;
}

IsVisible-in_scope :
    (allowed : List String) (p : Json)
    → IsVisible allowed p
    → is_payload_in_branch_scope p (some allowed) ≡ true
unfolding is_payload_in_branch_scope
IsVisible-in_scope allowed p v = elim (Option-cases (payload_branch_id p)) [
  | inl e ↦ ground (arith, v.transfer e)
  | inr (id, e) ↦ rw (e, is_payload_in_branch_scope) (v.own_branch id e)
]

pub filter_payloads-Kept :
    (allowed : List String) (items : List Json)
    → Kept allowed items (filter (λ item. is_payload_in_branch_scope item (some allowed)) items)
filter_payloads-Kept allowed [] = done
filter_payloads-Kept allowed (p ∷ ps) =
    elim (Bool-cases (is_payload_in_branch_scope p (some allowed))) [
      | inl e ↦ rw e (keep (in_scope-IsVisible allowed p e) (filter_payloads-Kept allowed ps))
      | inr e ↦
          rw e
            (skip (λ v. cc (e, IsVisible-in_scope allowed p v)) (filter_payloads-Kept allowed ps))
    ]

-- Of an array collection a user restricted to the branches `allowed` is given exactly the visible
-- payloads, in their order.
pub apply_collection_branch_scope-Kept :
    (collection : String) (items : List Json) (allowed : List String)
    → is_array_collection collection ≡ true
    → Kept allowed items (apply_collection_branch_scope collection items (some allowed))
unfolding apply_collection_branch_scope filter_payloads_by_branch
apply_collection_branch_scope-Kept collection items allowed h =
    rw h (filter_payloads-Kept allowed items)
