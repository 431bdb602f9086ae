-- ===== src/Inspections/Ratings/Worst.antt =====
-- What the computed ratings say of the checkpoints
-- (src/modules/inspections/inspection-validation.ts).
use mathlib.Core.Bool.{false≢true, or-true}
use my_detail_os_backend.Prelude.{
  Option, none, some, String, Bool, true, false, not, ◌||◌, List, [], ◌∷◌, ◌++◌, map, filter, any,
  includes, ◌≡◌, refl, or_split, ap, ◌∙◌, sym, arith, eq_iff, Bool-cases, inl, inr, ◌==◌,
  if◌then◌else◌,
}
use my_detail_os_backend.Json.{Json, str, Fields, get, get-put, own_fields, named_fields, truthy}
use my_detail_os_backend.Json.Print.{to_text}
use my_detail_os_backend.Inspections.Ratings.{
  worst_rating, is_applicable, no_items, rate_section, computed_rating, overall_rating,
  checkpoint_ratings, shown, keep_ratings, rating_for_checkpoint, section_checkpoints,
}

-- The rating that follows from three facts about a list of ratings.
abbrev verdict : Bool → Bool → Bool → String
verdict applicable bad average =
    if not applicable then "N/A" else if bad then "BAD" else if average then "AVERAGE" else "GOOD"

no_items-any : (rs : List String) → no_items (filter is_applicable rs) ≡ not (any is_applicable rs)
no_items-any [] = refl
no_items-any (r ∷ rs) = elim (Bool-cases (is_applicable r)) [
  | inl e ↦ rw e refl
  | inr e ↦ rw e (no_items-any rs)
]

includes-filter :
    (p : String → Bool) (c : String) (rs : List String)
    → p c ≡ true
    → includes c (filter p rs) ≡ includes c rs
includes-filter p c [] h = refl
includes-filter p c (r ∷ rs) h = elim (Bool-cases (p r)) [
  | inl e ↦ rw (e, includes-filter p c rs h) refl
  | inr e ↦ elim (Bool-cases (r == c)) [
    | inl same ↦ absurd (false≢true (sym e ∙ ap p ((eq_iff r c).0 same) ∙ h))
    | inr f ↦ rw (e, f) (includes-filter p c rs h)
  ]
]

worst_rating-verdict :
    (rs : List String)
    → worst_rating rs ≡ verdict (any is_applicable rs) (includes "BAD" rs) (includes "AVERAGE" rs)
unfolding worst_rating
worst_rating-verdict rs =
    rw
      (
        no_items-any rs,
        includes-filter is_applicable "BAD" rs refl,
        includes-filter is_applicable "AVERAGE" rs refl,
      )
      refl

any-append : (p : String → Bool) (xs ys : List String) → any p (xs ++ ys) ≡ (any p xs || any p ys)
any-append p [] ys = refl
any-append p (x ∷ xs) ys = ground (arith, any-append p xs ys)

any-applicable :
    (c : String) (rs : List String)
    → is_applicable c ≡ true
    → includes c rs ≡ true
    → any is_applicable rs ≡ true
any-applicable c [] h m = cc
any-applicable c (r ∷ rs) h m = elim (or_split (r == c) _ m) [
  | inl e ↦ rw ((eq_iff r c).0 e, h) refl
  | inr e ↦ rw (any-applicable c rs h e) (or-true (is_applicable r))
]

-- A verdict that stands in a list counts as the ratings that it stands for.
worst-verdict :
    (a b c : Bool) (ss : List String)
    → (b ≡ true → a ≡ true)
    → (c ≡ true → a ≡ true)
    → worst_rating (verdict a b c ∷ ss)
      ≡ verdict (a || any is_applicable ss) (b || includes "BAD" ss) (c || includes "AVERAGE" ss)
worst-verdict true true c ss h k = worst_rating-verdict ("BAD" ∷ ss)
worst-verdict true false true ss h k = worst_rating-verdict ("AVERAGE" ∷ ss)
worst-verdict true false false ss h k = worst_rating-verdict ("GOOD" ∷ ss)
worst-verdict false true c ss h k = absurd (false≢true (h refl))
worst-verdict false false true ss h k = absurd (false≢true (k refl))
worst-verdict false false false ss h k = worst_rating-verdict ("N/A" ∷ ss)

-- A list that stands in place of its worst rating changes no verdict.
worst-append : (rs ss : List String) → worst_rating (worst_rating rs ∷ ss) ≡ worst_rating (rs ++ ss)
worst-append rs ss =
    rw
      (
        worst_rating-verdict rs,
        worst_rating-verdict (rs ++ ss),
        any-append is_applicable rs ss,
        any-append (λ x. x == "BAD") rs ss,
        any-append (λ x. x == "AVERAGE") rs ss,
      )
      (worst-verdict _ _ _ ss (any-applicable "BAD" rs refl) (any-applicable "AVERAGE" rs refl))

-- The ratings of every checkpoint of a report, section by section.
unfoldable pub all_ratings : List Json → List String
all_ratings [] = []
all_ratings (s ∷ ss) = checkpoint_ratings (named_fields s) ++ all_ratings ss

verdict-swap :
    (a b c d e f : Bool) → verdict (a || b) (c || d) (e || f) ≡ verdict (b || a) (d || c) (f || e)
verdict-swap a b c d e f = ground arith

computed-rate_section :
    (section : Json)
    → computed_rating (rate_section section)
      ≡ worst_rating (checkpoint_ratings (named_fields section))
unfolding computed_rating rate_section to_text shown
computed-rate_section section =
    let rating = str (worst_rating (checkpoint_ratings (named_fields section))) in
    ap shown (get-put "computedRating" "computedRating" rating (own_fields section))

worst-swap : (rs ss : List String) → worst_rating (rs ++ ss) ≡ worst_rating (ss ++ rs)
worst-swap rs ss =
    rw
      (
        worst_rating-verdict (rs ++ ss),
        worst_rating-verdict (ss ++ rs),
        any-append is_applicable rs ss,
        any-append (λ x. x == "BAD") rs ss,
        any-append (λ x. x == "AVERAGE") rs ss,
        any-append is_applicable ss rs,
        any-append (λ x. x == "BAD") ss rs,
        any-append (λ x. x == "AVERAGE") ss rs,
      )
      (verdict-swap (any is_applicable rs) (any is_applicable ss) (includes "BAD" rs)
        (includes "BAD" ss) (includes "AVERAGE" rs) (includes "AVERAGE" ss))

-- Lists with the same worst rating serve alike behind any ratings.
worst-behind :
    (rs a b : List String)
    → worst_rating a ≡ worst_rating b
    → worst_rating (rs ++ a) ≡ worst_rating (rs ++ b)
worst-behind rs a b h =
    worst-swap rs a
    ∙ sym (worst-append a rs)
    ∙ ap (λ w. worst_rating (w ∷ rs)) h
    ∙ worst-append b rs
    ∙ worst-swap b rs

worst-sections :
    (sections : List Json)
    → worst_rating (map computed_rating (map rate_section sections))
      ≡ worst_rating (all_ratings sections)
unfolding all_ratings
worst-sections [] = refl
worst-sections (s ∷ ss) =
    let ratings = checkpoint_ratings (named_fields s) in
    let rest = map computed_rating (map rate_section ss) in
    rw (computed-rate_section s)
      (worst-append ratings rest ∙ worst-behind ratings rest (all_ratings ss) (worst-sections ss))

-- The test of a rating, where there is one.
abbrev pub passes : (String → Bool) → Option String → Bool
passes p none = false
passes p (some r) = p r

-- The test of the rating of a checkpoint.
abbrev pub has_rating : (String → Bool) → Json → Bool
has_rating p checkpoint = passes p (rating_for_checkpoint checkpoint)

-- Some checkpoint of some section has a rating that passes the test.
unfoldable pub some_checkpoint : (String → Bool) → List Json → Bool
some_checkpoint p sections =
    any (λ section. any (has_rating p) (section_checkpoints (named_fields section))) sections

any-keep :
    (p : String → Bool) (r : Option String) (rs : List (Option String))
    → any p (keep_ratings (r ∷ rs)) ≡ (passes p r || any p (keep_ratings rs))
unfolding keep_ratings
any-keep p none rs = refl
any-keep p (some r) rs = refl

any-keep_ratings :
    (p : String → Bool) (cs : List Json)
    → any p (keep_ratings (map rating_for_checkpoint cs)) ≡ any (has_rating p) cs
unfolding keep_ratings
any-keep_ratings p [] = refl
any-keep_ratings p (c ∷ cs) =
    any-keep p (rating_for_checkpoint c) (map rating_for_checkpoint cs)
    ∙ ap (λ x. has_rating p c || x) (any-keep_ratings p cs)

any-all_ratings :
    (p : String → Bool) (sections : List Json)
    → any p (all_ratings sections) ≡ some_checkpoint p sections
unfolding all_ratings some_checkpoint checkpoint_ratings
any-all_ratings p [] = refl
any-all_ratings p (s ∷ ss) =
    let cs = section_checkpoints (named_fields s) in
    any-append p (checkpoint_ratings (named_fields s)) (all_ratings ss)
    ∙ ap (λ x. x || any p (all_ratings ss)) (any-keep_ratings p cs)
    ∙ ap (λ x. any (has_rating p) cs || x) (any-all_ratings p ss)

-- A rating that says that the checkpoint does not apply.
abbrev pub is_not_applicable : String → Bool
is_not_applicable r = includes r ("N/A" ∷ "NA" ∷ "NOT_APPLICABLE" ∷ [])

worst-all_ratings :
    (sections : List Json)
    → worst_rating (all_ratings sections)
      ≡ verdict
          (some_checkpoint is_applicable sections)
          (some_checkpoint (λ r. r == "BAD") sections)
          (some_checkpoint (λ r. r == "AVERAGE") sections)
worst-all_ratings sections =
    rw
      (
        ← any-all_ratings is_applicable sections,
        ← any-all_ratings (λ r. r == "BAD") sections,
        ← any-all_ratings (λ r. r == "AVERAGE") sections,
      )
      (worst_rating-verdict (all_ratings sections))

-- Without an override, the overall rating of a snapshot is N/A where no checkpoint of any section has
-- an applicable rating; otherwise BAD where a checkpoint is rated BAD; otherwise AVERAGE where a
-- checkpoint is rated AVERAGE; and otherwise GOOD, wherever the section boundaries are.
pub overall_rating-all :
    (payload : Fields) (sections : List Json)
    → truthy (get "overallRatingOverride" payload) ≡ false
    → overall_rating payload (map rate_section sections) ≡ (
        if not (some_checkpoint (λ r. not (is_not_applicable r)) sections)
        then "N/A"
        else if some_checkpoint (λ r. r == "BAD") sections
        then "BAD"
        else if some_checkpoint (λ r. r == "AVERAGE") sections
        then "AVERAGE"
        else "GOOD")
unfolding overall_rating
overall_rating-all payload sections h = rw h (worst-sections sections ∙ worst-all_ratings sections)
