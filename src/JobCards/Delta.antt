-- ===== src/JobCards/Delta.antt =====
-- The comparison of two versions of a job card (src/lib/job-card-pricing-guard.ts).
use mathlib.Core.Path.{subst}
use text.Mathlib.TextPositions.{eq_refl}
use my_detail_os_backend.Prelude.{
  String, Bool, true, false, List, [], ◌∷◌, Option, none, some, ◌≡◌, refl, sym, inl, inr, arith,
  any, All, Bool-cases, Dict, lookup, insert, lookup-insert, eq_iff, ◌==◌, any-eq-false,
}
use my_detail_os_backend.Prelude.Int.{◌-ℤ◌}
use my_detail_os_backend.Json.{Json, Fields, get, named_fields}
use my_detail_os_backend.JobCards.{
  num_eq, same_flag, top_keys, top_differs, text_or_empty, line_differs, service_line_key,
  services_of, as_services, index_services, job_card_has_pricing_delta,
}

num_eq_same : (a : Option Json) → num_eq a a ≡ true
unfolding num_eq ◌-ℤ◌
num_eq_same a = ground arith

flag_same : (a : Option Json) → same_flag a a ≡ true
unfolding same_flag
flag_same a = ground arith

top_same :
    (prev next : Fields) (key : String)
    → get key prev ≡ get key next
    → top_differs prev next key ≡ false
unfolding top_differs
top_same prev next key e =
    rw
      (
        e,
        num_eq_same (get key next),
        flag_same (get key next),
        eq_refl (text_or_empty (get key next)),
      )
      (ground arith)

tops_same :
    (prev next : Fields) (keys : List String)
    → All (λ key. get key prev ≡ get key next) keys
    → All (λ key. top_differs prev next key ≡ false) keys
tops_same prev next [] h = tt
tops_same prev next (key ∷ keys) h = (top_same prev next key h.0, tops_same prev next keys h.1)

line_same : (s : Fields) → line_differs (some s) s ≡ false
unfolding line_differs
line_same s = rw (
  num_eq_same (get "price" s),
  flag_same (get "isCustomPrice" s),
  eq_refl (text_or_empty (get "priceSource" s)),
)

-- The keys of a dictionary stand in it once.
IsKeyed : Dict Fields → Type 0
IsKeyed [] = Unit
IsKeyed ((k, v) ∷ d) = (lookup k d ≡ none) × IsKeyed d

insert-IsKeyed : (k : String) (v : Fields) (d : Dict Fields) → IsKeyed d → IsKeyed (insert k v d)
unfolding IsKeyed insert lookup
insert-IsKeyed k v [] h = (refl, tt)
insert-IsKeyed k v ((j, w) ∷ d) h = elim (Bool-cases (j == k)) [
  | inl e ↦ rw (e, insert) h
  | inr e ↦
      rw (e, insert)
        (
          ground (arith, eq_iff k j, eq_iff j k, lookup-insert k j v d, h.0),
          insert-IsKeyed k v d h.1,
        )
]

index_services-IsKeyed :
    (ss : List Json) (d : Dict Fields) → IsKeyed d → IsKeyed (index_services ss d)
unfolding index_services
index_services-IsKeyed [] d h = h
index_services-IsKeyed (s ∷ ss) d h =
    index_services-IsKeyed ss _
      (insert-IsKeyed (service_line_key (named_fields s)) (named_fields s) d h)

-- No entry has a key that is not found.
absent_key : (k : String) (d : Dict Fields) → lookup k d ≡ none → All (λ e. (k == e.0) ≡ false) d
unfolding lookup
absent_key k [] h = tt
absent_key k ((j, w) ∷ d) h = elim (Bool-cases (j == k)) [
  | inl e ↦ cc (rw e at h)
  | inr e ↦ (ground (arith, eq_iff k j, eq_iff j k), absent_key k d (rw e at h))
]

found_past :
    (k : String) (v : Fields) (d xs : Dict Fields)
    → All (λ e. (k == e.0) ≡ false) xs
    → All (λ e. lookup e.0 d ≡ some e.1) xs
    → All (λ e. lookup e.0 ((k, v) ∷ d) ≡ some e.1) xs
unfolding lookup
found_past k v d [] h g = tt
found_past k v d (e ∷ xs) h g = (rw h.0 g.0, found_past k v d xs h.1 g.1)

entries_found : (d : Dict Fields) → IsKeyed d → All (λ e. lookup e.0 d ≡ some e.1) d
unfolding lookup IsKeyed
entries_found [] h = tt
entries_found ((k, v) ∷ d) h =
    (rw (eq_refl k), found_past k v d d (absent_key k d h.0) (entries_found d h.1))

lines_same :
    (d xs : Dict Fields)
    → All (λ e. lookup e.0 d ≡ some e.1) xs
    → any (λ e. line_differs (lookup e.0 d) e.1) xs ≡ false
lines_same d [] h = refl
lines_same d (e ∷ xs) h = rw (h.0, line_same e.1) (lines_same d xs h.1)

-- The inputs that the guard protects.
abbrev pub protected : List String
protected = "services" ∷ top_keys

-- A save that leaves the protected inputs as they are has no pricing delta, whatever else of the
-- card it changes: its status, its totals, its notes.
pub no_delta_unless_protected :
    (prev next : Fields)
    → All (λ key. get key prev ≡ get key next) protected
    → job_card_has_pricing_delta prev next ≡ false
unfolding job_card_has_pricing_delta IsKeyed
no_delta_unless_protected prev next (services, tops) =
    let keyed = index_services (services_of next) [] in
    let same : any (top_differs prev next) top_keys ≡ false =
      any-eq-false (top_differs prev next) top_keys (tops_same prev next top_keys tops) in
    let lines : any (λ e. line_differs (lookup e.0 (index_services (services_of prev) [])) e.1)
          keyed
        ≡ false =
      subst
        (λ x.
          any (λ e. line_differs (lookup e.0 (index_services (as_services x) [])) e.1) keyed
          ≡ false)
        (sym services)
        (lines_same keyed keyed
          (entries_found keyed (index_services-IsKeyed (services_of next) [] tt))) in
    rw (same, lines)

any-at :
    (f : String × Fields → Bool) (k : String) (n : Fields) (d : Dict Fields)
    → any f d ≡ false
    → lookup k d ≡ some n
    → f (k, n) ≡ false
unfolding lookup
any-at f k n [] h e = cc
any-at f k n ((j, w) ∷ d) h e = elim (Bool-cases (j == k)) [
  | inl s ↦ ground (arith, eq_iff j k)
  | inr s ↦ any-at f k n d (ground arith) (rw s at e)
]

-- Without a pricing delta, a line that replaces a line of the same key has its price.
pub no_delta_price :
    (prev next : Fields) (k : String) (p n : Fields)
    → job_card_has_pricing_delta prev next ≡ false
    → lookup k (index_services (services_of prev) []) ≡ some p
    → lookup k (index_services (services_of next) []) ≡ some n
    → num_eq (get "price" p) (get "price" n) ≡ true
unfolding job_card_has_pricing_delta line_differs
no_delta_price prev next k p n h was is =
    let differs : line_differs (some p) n ≡ false =
      subst (λ x. line_differs x n ≡ false) was
        (any-at (λ e. line_differs (lookup e.0 (index_services (services_of prev) [])) e.1) k n
          (index_services (services_of next) []) (ground arith) is) in
    ground arith
