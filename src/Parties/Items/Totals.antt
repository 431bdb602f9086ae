-- ===== src/Parties/Items/Totals.antt =====
-- Items add up to the lines of the documents (`buildPartyItemWise` of src/lib/party-ledger.ts).
use my_detail_os_backend.Prelude.{
  String, true, false, List, [], ◌∷◌, none, some, get_or, filter, trim, is_empty, Dict, lookup,
  insert, ◌==◌, ◌≡◌, refl, ap, sym, ◌∙◌, inl, inr, Bool-cases, Option-cases, some_inj,
}
use my_detail_os_backend.Prelude.Int.{
  ℤ, pos, pos_part, neg_part, ◌+ℤ◌, leb_ℤ, eq_of_parts, int_laws,
}
use my_detail_os_backend.Parties.{
  SalesInvoice, InvoiceLineItem, Party, is_customer, party_documents_for_party,
}
use my_detail_os_backend.Parties.Net.{+ℤ_assoc, +ℤ_zero}
use my_detail_os_backend.Parties.Statement.{Calendar}
use my_detail_os_backend.Parties.Items.{
  ItemRow, add_line_item, add_line_items, add_invoice_items, insert_item, sort_items,
  build_party_item_wise, row_total, text_or_else, empty_item_wise_row,
}

-- The sales of rows that are kept by name.
unfoldable pub sales_of : Dict ItemRow → ℤ
sales_of [] = pos 0
sales_of ((key, r) ∷ rs) = r.sales_amount +ℤ sales_of rs

-- The sales of a list of rows.
unfoldable pub row_sales : List ItemRow → ℤ
row_sales [] = pos 0
row_sales (r ∷ rs) = r.sales_amount +ℤ row_sales rs

-- What the lines of documents come to.
unfoldable pub lines_total : List InvoiceLineItem → ℤ
lines_total [] = pos 0
lines_total (l ∷ ls) = l.total +ℤ lines_total ls

unfoldable pub invoices_lines_total : List SalesInvoice → ℤ
unfolding lines_total
invoices_lines_total [] = pos 0
invoices_lines_total (i ∷ is) = lines_total i.line_items +ℤ invoices_lines_total is

sales_of-insert_new :
    (k : String) (r : ItemRow) (d : Dict ItemRow)
    → lookup k d ≡ none
    → sales_of (insert k r d) ≡ sales_of d +ℤ r.sales_amount
unfolding sales_of insert lookup
sales_of-insert_new k r [] h = eq_of_parts _ _ (omega (int_laws))
sales_of-insert_new k r ((j, q) ∷ d) h = elim (Bool-cases (j == k)) [
  | inl e ↦ cc (rw (lookup, e) at h)
  | inr e ↦
      let rest = sales_of-insert_new k r d (rw e at h) in
      rw (e, rest) (eq_of_parts _ _ (omega (int_laws)))
]

sales_of-insert_old :
    (k : String) (q r : ItemRow) (d : Dict ItemRow)
    → lookup k d ≡ some q
    → sales_of (insert k r d) +ℤ q.sales_amount ≡ sales_of d +ℤ r.sales_amount
unfolding sales_of insert lookup
sales_of-insert_old k q r [] h = cc
sales_of-insert_old k q r ((j, p) ∷ d) h = elim (Bool-cases (j == k)) [
  | inl e ↦
      let same : p ≡ q = some_inj (rw e at h) in rw (e, same) (eq_of_parts _ _ (omega (int_laws)))
  | inr e ↦
      let rest = sales_of-insert_old k q r d (rw e at h) in
      rw e (
        +ℤ_assoc p.sales_amount (sales_of (insert k r d)) q.sales_amount
        ∙ ap (λ n. p.sales_amount +ℤ n) rest
        ∙ sym (+ℤ_assoc p.sales_amount (sales_of d) r.sales_amount))
]

+ℤ_cancel : (a d q t : ℤ) → a +ℤ q ≡ d +ℤ (q +ℤ t) → a ≡ d +ℤ t
+ℤ_cancel a d q t h = eq_of_parts _ _ (omega (int_laws, ap pos_part h, ap neg_part h))

sales_of-add_line_item :
    (li : InvoiceLineItem) (rows : Dict ItemRow)
    → sales_of (add_line_item li rows) ≡ sales_of rows +ℤ li.total
unfolding add_line_item empty_item_wise_row
sales_of-add_line_item li rows =
    let key = text_or_else (trim li.description) "Item" in
    elim (Option-cases (lookup key rows)) [
      | inl e ↦ rw (add_line_item, e) (sales_of-insert_new key _ rows e)
      | inr (q, e) ↦
          rw (add_line_item, e)
            (+ℤ_cancel _ _ q.sales_amount li.total (sales_of-insert_old key q _ rows e))
    ]

sales_of-add_line_items :
    (ls : List InvoiceLineItem) (rows : Dict ItemRow)
    → sales_of (add_line_items ls rows) ≡ sales_of rows +ℤ lines_total ls
unfolding add_line_items lines_total
sales_of-add_line_items [] rows = sym (+ℤ_zero (sales_of rows))
sales_of-add_line_items (l ∷ ls) rows =
    sales_of-add_line_items ls (add_line_item l rows)
    ∙ ap (λ n. n +ℤ lines_total ls) (sales_of-add_line_item l rows)
    ∙ +ℤ_assoc (sales_of rows) l.total (lines_total ls)

abbrev pub in_period : Calendar → List SalesInvoice → List SalesInvoice
in_period calendar invs = filter (λ (i : SalesInvoice). calendar.in_period i.created_at) invs

sales_of-add_invoice_items :
    (calendar : Calendar) (invs : List SalesInvoice) (rows : Dict ItemRow)
    → sales_of (add_invoice_items calendar invs rows)
      ≡ sales_of rows +ℤ invoices_lines_total (in_period calendar invs)
unfolding add_invoice_items invoices_lines_total
sales_of-add_invoice_items calendar [] rows = sym (+ℤ_zero (sales_of rows))
sales_of-add_invoice_items calendar (i ∷ is) rows =
    elim (Bool-cases (calendar.in_period i.created_at)) [
      | inl e ↦
          let rest = sales_of-add_invoice_items calendar is (add_line_items i.line_items rows) in
          rw e (
            rest
            ∙ ap (λ n. n +ℤ invoices_lines_total (in_period calendar is))
                (sales_of-add_line_items i.line_items rows)
            ∙ +ℤ_assoc (sales_of rows) (lines_total i.line_items)
                (invoices_lines_total (in_period calendar is)))
      | inr e ↦ rw e (sales_of-add_invoice_items calendar is rows)
    ]

row_sales-insert_item :
    (r : ItemRow) (rs : List ItemRow)
    → row_sales (insert_item r rs) ≡ r.sales_amount +ℤ row_sales rs
unfolding row_sales insert_item
row_sales-insert_item r [] = refl
row_sales-insert_item r (q ∷ qs) = elim (Bool-cases (leb_ℤ (row_total q) (row_total r))) [
  | inl e ↦ rw e refl
  | inr e ↦ rw (e, row_sales-insert_item r qs) (eq_of_parts _ _ (omega (int_laws)))
]

row_sales-sort_items : (rows : Dict ItemRow) → row_sales (sort_items rows) ≡ sales_of rows
unfolding row_sales sort_items sales_of
row_sales-sort_items [] = refl
row_sales-sort_items ((key, r) ∷ rs) =
    row_sales-insert_item r (sort_items rs)
    ∙ ap (λ n. r.sales_amount +ℤ n) (row_sales-sort_items rs)

-- The rows of a customer's items together sell what the lines of the customer's invoices of the period
-- come to: grouping by name and sorting lose no amount.
pub item_sales_total :
    (calendar : Calendar) (party : Party) (invoices : List SalesInvoice)
    → is_customer party.kind ≡ true
    → is_empty (get_or party.customer_id "") ≡ false
    → row_sales (build_party_item_wise calendar party invoices [])
      ≡ invoices_lines_total
          (in_period calendar (party_documents_for_party party invoices []).invoices)
unfolding build_party_item_wise sales_of
item_sales_total calendar party invoices customer_ named =
    let invs = (party_documents_for_party party invoices []).invoices in
    rw (customer_, named)
      (row_sales-sort_items (add_invoice_items calendar invs [])
        ∙ sales_of-add_invoice_items calendar invs []
        ∙ eq_of_parts _ _ (omega (int_laws)))
