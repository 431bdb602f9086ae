-- ===== src/Parties.antt =====
-- Balances of customers and suppliers (src/lib/party-ledger.ts, types of src/types/party.ts and
-- src/types/finance-documents.ts): what is paid and open on a document, and a party's balance. Only
-- the fields that the ledger reads are kept.
pub mod Statement
pub mod PublicStatement
pub mod Summary
pub mod Items
pub mod Net
pub mod Regular
pub mod Reconcile
use my_detail_os_backend.Prelude.{
  ℕ, String, Bool, true, false, not, ◌&&◌, ◌||◌, List, [], ◌∷◌, Option, none, some, filter, get_or,
  trim, is_empty, ◌==◌, if◌then◌else◌,
}
use my_detail_os_backend.Prelude.Int.{ℤ, pos, ◌+ℤ◌, ◌-ℤ◌, ltb_ℤ, leb_ℤ}
use my_detail_os_backend.Money.{round_money, at_least_zero, abs}

pub data InvoiceStatus : Type 0 where
  draft issued partially_paid paid : InvoiceStatus

pub data PaymentStatus : Type 0 where
  paid pending partial overdue : PaymentStatus

pub record InvoicePayment : Type 0 where
  pub id : String
  pub amount : ℤ
  pub method : String
  pub reference_number : Option String
  pub paid_at : Option String

pub record InvoiceLineItem : Type 0 where
  pub description : String
  pub item_type : String
  pub quantity : ℤ
  pub total : ℤ
  pub hsn_sac : Option String

pub record SalesInvoice : Type 0 where
  pub id : String
  pub invoice_number : String
  pub customer_id : String
  pub line_items : List InvoiceLineItem
  pub wallet_amount_used : Option ℤ
  pub grand_total : ℤ
  pub status : InvoiceStatus
  pub payments : List InvoicePayment
  pub created_at : String
  pub source : Option String

pub record Expense : Type 0 where
  pub id : String
  pub title : String
  pub category : String
  pub amount : ℤ
  pub amount_paid : Option ℤ
  pub date : String
  pub vendor_name : Option String
  pub payment_status : PaymentStatus
  pub payment_method : String

pub data PartyKind : Type 0 where
  customer supplier : PartyKind

pub data OpeningBalanceSide : Type 0 where
  to_collect to_pay : OpeningBalanceSide

pub record Party : Type 0 where
  pub kind : PartyKind
  pub opening_balance : Option ℤ
  pub opening_balance_side : Option OpeningBalanceSide
  pub credit_period_days : Option ℕ
  pub customer_id : Option String
  pub vendor_key : Option String

-- `inv.payments.reduce((s, p) => s + p.amount, 0)`
unfoldable pub payments_total : List InvoicePayment → ℤ
payments_total [] = pos 0
payments_total (p ∷ ps) = p.amount +ℤ payments_total ps

-- `inv.walletAmountUsed || 0`
abbrev pub wallet_used : SalesInvoice → ℤ
wallet_used inv = get_or inv.wallet_amount_used (pos 0)

unfoldable pub invoice_paid_total : SalesInvoice → ℤ
unfolding payments_total
invoice_paid_total inv = payments_total inv.payments +ℤ wallet_used inv

unfoldable pub invoice_outstanding : SalesInvoice → ℤ
invoice_outstanding inv = at_least_zero (round_money (inv.grand_total -ℤ invoice_paid_total inv))

abbrev pub is_paid : PaymentStatus → Bool
is_paid paid = true
is_paid _ = false

unfoldable pub expense_outstanding : Expense → ℤ
expense_outstanding e =
    if is_paid e.payment_status
    then pos 0
    else at_least_zero (round_money (e.amount -ℤ get_or e.amount_paid (pos 0)))

abbrev pub is_customer : PartyKind → Bool
is_customer customer = true
is_customer supplier = false

-- The documents of a party.
pub record Documents : Type 0 where
  pub invoices : List SalesInvoice
  pub expenses : List Expense

abbrev no_documents : Documents
no_documents = record { invoices = []; expenses = [] }

-- `e.vendorName?.trim() === key`
abbrev is_of_vendor : String → Expense → Bool
is_of_vendor key e = elim e.vendor_name [ none ↦ false | some name ↦ trim name == key ]

unfoldable pub party_documents_for_party : Party → List SalesInvoice → List Expense → Documents
party_documents_for_party party invoices expenses =
    let customer_id = get_or party.customer_id "" in
    let key = trim (get_or party.vendor_key "") in
    if is_customer party.kind && not (is_empty customer_id)
    then record {
      invoices = filter (λ (i : SalesInvoice). i.customer_id == customer_id) invoices;
      expenses = [];
    }
    else if not (is_customer party.kind) && not (is_empty key)
    then record { invoices = []; expenses = filter (is_of_vendor key) expenses }
    else no_documents

abbrev is_to_collect : OpeningBalanceSide → Bool
is_to_collect to_collect = true
is_to_collect to_pay = false

-- The side that stands where none is stored.
abbrev usual_side : PartyKind → OpeningBalanceSide
usual_side customer = to_collect
usual_side supplier = to_pay

unfoldable pub signed_opening_balance : Party → ℤ
signed_opening_balance party =
    let amount = at_least_zero (get_or party.opening_balance (pos 0)) in
    let collects = is_to_collect (get_or party.opening_balance_side (usual_side party.kind)) in
    if is_customer party.kind
    then (if collects then amount else pos 0 -ℤ amount)
    else if collects
    then pos 0 -ℤ amount
    else amount

unfoldable pub invoices_outstanding : List SalesInvoice → ℤ
invoices_outstanding [] = pos 0
invoices_outstanding (i ∷ is) = invoice_outstanding i +ℤ invoices_outstanding is

unfoldable pub expenses_outstanding : List Expense → ℤ
expenses_outstanding [] = pos 0
expenses_outstanding (e ∷ es) = expense_outstanding e +ℤ expenses_outstanding es

unfoldable pub party_current_balance : Party → List SalesInvoice → List Expense → ℤ
unfolding invoices_outstanding expenses_outstanding
party_current_balance party invoices expenses =
    let documents = party_documents_for_party party invoices expenses in
    let open_documents =
      if is_customer party.kind
      then invoices_outstanding documents.invoices
      else expenses_outstanding documents.expenses in
    round_money (signed_opening_balance party +ℤ open_documents)

pub data BalanceFlow : Type 0 where
  flow_in flow_out zero : BalanceFlow

unfoldable pub balance_flow : PartyKind → ℤ → BalanceFlow
balance_flow kind balance =
    if ltb_ℤ (abs balance) (pos 100)
    then zero
    else if is_customer kind
    then (if ltb_ℤ (pos 0) balance then flow_in else flow_out)
    else if ltb_ℤ (pos 0) balance
    then flow_out
    else flow_in
