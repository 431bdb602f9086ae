-- ===== src/Inspections/Uploads/Bound.antt =====
-- How many photos a report may have (src/modules/inspections/inspection.service.ts).
use my_detail_os_backend.Prelude.{
  ℕ, ◌+◌, ◌≤◌, String, Bool, false, List, [], ◌∷◌, none, some, Dict, lookup, insert, erase, ◌≡◌,
  ◌⊎◌, refl, sym, inl, inr, arith, Option-cases, Bool-cases, some_inj, eq_iff, ◌==◌, if◌then◌else◌,
}
use my_detail_os_backend.Errors.{ok}
use my_detail_os_backend.Json.{Fields}
use my_detail_os_backend.Scope.{BranchScope}
use my_detail_os_backend.Inspections.Records.{Upload, Tables}
use my_detail_os_backend.Inspections.Uploads.{
  count_uploads, update_uploads, links_to, takes, link, detach, link_pending_uploads, upload_ids,
  max_photos, expire_detached_draft_uploads,
}
use my_detail_os_backend.Inspections.Photos.{
  update_upload, claim_upload, remove_claimed, release_claim,
}

-- The number of photos that are linked to a report.
unfoldable pub linked : String → Dict Upload → ℕ
linked report uploads = count_uploads (λ id u. links_to report u) uploads

linked-link :
    (ids : List String) (report j : String) (us : Dict Upload)
    → linked j (update_uploads (takes ids) (link report) us)
      ≡ (if report == j then count_uploads (takes ids) us else 0) + linked j us
unfolding linked count_uploads update_uploads
linked-link ids report j [] = ground arith
linked-link ids report j ((id, u) ∷ us) =
    ground (arith, linked-link ids report j us, Option-cases u.report_id)

linked-detach :
    (p : String → Upload → Bool) (now : ℕ) (j : String) (us : Dict Upload)
    → linked j (update_uploads p (detach now) us) ≤ linked j us
unfolding linked count_uploads update_uploads
linked-detach p now j [] = ground arith
linked-detach p now j ((id, u) ∷ us) =
    ground (arith, linked-detach p now j us, Option-cases u.report_id)

linked-insert :
    (j id : String) (u : Upload) (us : Dict Upload)
    → links_to j u ≡ false
    → linked j (insert id u us) ≤ linked j us
unfolding linked count_uploads insert
linked-insert j id u [] h = ground arith
linked-insert j id u ((i, w) ∷ us) h = ground (arith, linked-insert j id u us h)

linked-erase : (j id : String) (us : Dict Upload) → linked j (erase id us) ≤ linked j us
unfolding linked count_uploads erase
linked-erase j id [] = ground arith
linked-erase j id ((i, w) ∷ us) = ground (arith, linked-erase j id us)

linked-replace :
    (j id : String) (u w : Upload) (us : Dict Upload)
    → lookup id us ≡ some w
    → links_to j u ≡ links_to j w
    → linked j (insert id u us) ≤ linked j us
unfolding linked count_uploads insert lookup
linked-replace j id u w [] h k = ground arith
linked-replace j id u w ((i, v) ∷ us) h k =
    ground (arith, linked-replace j id u w us, Option-cases (lookup id us))

link_cases :
    (scope : BranchScope) (branch report : String) (payload : Fields) (seen db : Dict Upload)
    {us : Dict Upload}
    → link_pending_uploads scope branch report payload seen db ≡ ok us
    → (us ≡ db)
      ⊎ ((us ≡ update_uploads (takes (upload_ids payload)) (link report) db)
          × (linked report db + count_uploads (takes (upload_ids payload)) db ≤ max_photos))
unfolding link_pending_uploads linked
link_cases scope branch report payload seen db h = ground arith

le_both : {l m n : ℕ} → l ≤ m → m ≤ n → l ≤ n
le_both h k = omega arith

-- At most 24 photos of every report.
abbrev pub IsBounded : Dict Upload → Type 0
IsBounded us = (j : String) → linked j us ≤ max_photos

pub link_pending_uploads-IsBounded :
    (scope : BranchScope) (branch report : String) (payload : Fields) (seen db : Dict Upload)
    {us : Dict Upload}
    → link_pending_uploads scope branch report payload seen db ≡ ok us
    → IsBounded db
    → IsBounded us
link_pending_uploads-IsBounded scope branch report payload seen db h bound j =
    elim (link_cases scope branch report payload seen db h) [
      | inl same ↦ rw same (bound j)
      | inr (same, fits) ↦
          let count = linked-link (upload_ids payload) report j db in
          let old = bound j in rw same (ground (arith, eq_iff report j))
    ]

pub expire-IsBounded :
    (now : ℕ) (report : String) (payload : Fields) (db : Tables)
    → IsBounded db.uploads
    → IsBounded (expire_detached_draft_uploads now report payload db)
unfolding expire_detached_draft_uploads
expire-IsBounded now report payload db bound j =
    le_both (linked-detach _ now j db.uploads) (bound j)

update_upload-linked :
    (id : String) (where_ : Upload → Bool) (change : Upload → Upload) (us : Dict Upload)
    {us' : Dict Upload} (j : String)
    → ((u : Upload) → links_to j (change u) ≡ links_to j u)
    → update_upload id where_ change us ≡ some us'
    → linked j us' ≤ linked j us
unfolding update_upload
update_upload-linked id where_ change us j same h = elim (Option-cases (lookup id us)) [
  | inl e ↦ cc (rw (update_upload, e) at h)
  | inr (u, e) ↦ elim (Bool-cases (where_ u)) [
    | inl f ↦
        rw (some_inj (sym (rw (update_upload, e, f) at h)))
          (linked-replace j id (change u) u us e (same u))
    | inr f ↦ cc (rw (update_upload, e, f) at h)
  ]
]

pub claim_upload-IsBounded :
    (now : ℕ) (id : String) (us : Dict Upload) {us' : Dict Upload}
    → claim_upload now id us ≡ some us'
    → IsBounded us
    → IsBounded us'
unfolding claim_upload
claim_upload-IsBounded now id us h bound j =
    let fewer = update_upload-linked id _ _ us j (λ u. refl) h in let old = bound j in omega arith

pub remove_claimed-IsBounded :
    (id : String) (us : Dict Upload) → IsBounded us → IsBounded (remove_claimed id us)
unfolding remove_claimed
remove_claimed-IsBounded id us bound j =
    ground (arith, linked-erase j id us, bound j, Option-cases (lookup id us))

pub release_claim-IsBounded :
    (id : String) (us : Dict Upload) → IsBounded us → IsBounded (release_claim id us)
unfolding release_claim
release_claim-IsBounded id us bound j =
    elim (Option-cases
      (update_upload id (λ u. u.cleaning) (λ u. record u { cleaning = false }) us)) [
        | inl e ↦ rw (release_claim, e) (bound j)
        | inr (us', e) ↦
            let fewer = update_upload-linked id _ _ us j (λ u. refl) e in
            let old = bound j in rw (release_claim, e) (omega arith)
      ]

-- A photo that is put in or taken out again, and is linked to no report.
pub insert-IsBounded :
    (id : String) (u : Upload) (us : Dict Upload)
    → u.report_id ≡ none
    → IsBounded us
    → IsBounded (insert id u us)
insert-IsBounded id u us h bound j =
    let fewer = linked-insert j id u us (rw h refl) in let old = bound j in omega arith

pub erase-IsBounded : (id : String) (us : Dict Upload) → IsBounded us → IsBounded (erase id us)
erase-IsBounded id us bound j = let fewer = linked-erase j id us in let old = bound j in omega arith
