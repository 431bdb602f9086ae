-- ===== src/Parties/Items.antt =====
-- What a party bought or sold, by item (`buildPartyItemWise` of src/lib/party-ledger.ts).
pub mod Totals
use Prim.Native.String.{◌++◌ as append}
use my_detail_os_backend.Prelude.{
  ℕ, String, Bool, true, false, not, ◌&&◌, ◌||◌, List, [], ◌∷◌, ◌++◌, map, filter, Option, none,
  some, get_or, trim, is_empty, leb, Dict, lookup, insert, ◌==◌, if◌then◌else◌,
}
use my_detail_os_backend.Prelude.Int.{ℤ, pos, ◌+ℤ◌, ltb_ℤ, leb_ℤ}
use my_detail_os_backend.Money.{round_money}
use my_detail_os_backend.Parties.{
  SalesInvoice, InvoiceStatus, InvoicePayment, InvoiceLineItem, Expense, Party, PaymentStatus,
  is_paid, is_customer, invoice_outstanding, invoice_paid_total, invoices_outstanding,
  expense_outstanding, expenses_outstanding, party_documents_for_party, party_current_balance,
  payments_total,
}
use my_detail_os_backend.Parties.Statement.{Calendar, source_label, payment_ledger_timestamp}
use my_detail_os_backend.Parties.Summary.{expenses_in_period}

-- `PartyItemWiseRow`
pub record ItemRow : Type 0 where
  pub item_name : String
  pub item_code : String
  pub sales_quantity : ℤ
  pub sales_unit : String
  pub sales_amount : ℤ
  pub purchase_quantity : ℤ
  pub purchase_unit : String
  pub purchase_amount : ℤ

unfoldable pub empty_item_wise_row : (name item_code : String) → ItemRow
empty_item_wise_row name item_code = record {
  item_name = name;
  item_code = item_code;
  sales_quantity = pos 0;
  sales_unit = "—";
  sales_amount = pos 0;
  purchase_quantity = pos 0;
  purchase_unit = "—";
  purchase_amount = pos 0;
}

-- `text || fallback`
abbrev pub text_or_else : String → String → String
text_or_else text fallback = if is_empty text then fallback else text

abbrev pub unit_of : String → String
unit_of kind = if kind == "PARTS" then "PCS" else if kind == "SERVICE" then "JOB" else "—"

unfoldable pub add_line_item : InvoiceLineItem → Dict ItemRow → Dict ItemRow
unfolding empty_item_wise_row
add_line_item li rows =
    let key = text_or_else (trim li.description) "Item" in
    let item_code = text_or_else (trim (get_or li.hsn_sac "")) "—" in
    insert key
      (elim (lookup key rows) [
        | some row ↦ record row {
          sales_quantity = row.sales_quantity +ℤ li.quantity;
          sales_amount = row.sales_amount +ℤ li.total;
          item_code =
              if row.item_code == "—" && not (item_code == "—") then item_code else row.item_code;
        }
        | none ↦ record (empty_item_wise_row key item_code) {
          sales_quantity = li.quantity;
          sales_unit = unit_of li.item_type;
          sales_amount = li.total;
        }
      ])
      rows

unfoldable pub add_line_items : List InvoiceLineItem → Dict ItemRow → Dict ItemRow
unfolding add_line_item
add_line_items [] rows = rows
add_line_items (li ∷ lis) rows = add_line_items lis (add_line_item li rows)

unfoldable pub add_invoice_items : Calendar → List SalesInvoice → Dict ItemRow → Dict ItemRow
unfolding add_line_items
add_invoice_items calendar [] rows = rows
add_invoice_items calendar (inv ∷ invs) rows =
    add_invoice_items calendar invs
      (if calendar.in_period inv.created_at then add_line_items inv.line_items rows else rows)

unfoldable pub add_expense_item : Expense → Dict ItemRow → Dict ItemRow
unfolding empty_item_wise_row
add_expense_item e rows =
    let key = text_or_else (trim e.title) (text_or_else e.category "Expense") in
    let item_code = text_or_else (trim e.category) "—" in
    insert key
      (elim (lookup key rows) [
        | some row ↦ record row {
          purchase_quantity = row.purchase_quantity +ℤ pos 10000;
          purchase_amount = row.purchase_amount +ℤ e.amount;
        }
        | none ↦ record (empty_item_wise_row key item_code) {
          purchase_quantity = pos 10000;
          purchase_amount = e.amount;
        }
      ])
      rows

unfoldable pub add_expense_items : List Expense → Dict ItemRow → Dict ItemRow
unfolding add_expense_item
add_expense_items [] rows = rows
add_expense_items (e ∷ es) rows = add_expense_items es (add_expense_item e rows)

abbrev pub row_total : ItemRow → ℤ
row_total r = r.sales_amount +ℤ r.purchase_amount

-- Largest total first; the order of equal totals is kept.
unfoldable pub insert_item : ItemRow → List ItemRow → List ItemRow
insert_item r [] = r ∷ []
insert_item r (q ∷ qs) =
    let rest = q ∷ insert_item r qs in
    if leb_ℤ (row_total q) (row_total r) then r ∷ q ∷ qs else rest

unfoldable pub sort_items : Dict ItemRow → List ItemRow
unfolding insert_item
sort_items [] = []
sort_items ((key, r) ∷ rs) = insert_item r (sort_items rs)

unfoldable pub build_party_item_wise :
    Calendar → Party → List SalesInvoice → List Expense → List ItemRow
unfolding add_invoice_items add_expense_items sort_items
build_party_item_wise calendar party invoices expenses =
    let documents = party_documents_for_party party invoices expenses in
    if is_customer party.kind && not (is_empty (get_or party.customer_id ""))
    then sort_items (add_invoice_items calendar documents.invoices [])
    else if not (is_customer party.kind)
    then sort_items (add_expense_items (expenses_in_period calendar documents.expenses) [])
    else []
