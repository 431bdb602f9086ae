-- ===== src/Parties/Summary.antt =====
-- The transactions and the totals of a party (src/lib/party-ledger.ts).
use my_detail_os_backend.Prelude.{
  String, Bool, true, false, not, ◌&&◌, ◌||◌, List, [], ◌∷◌, ◌++◌, map, filter, Option, none, some,
  get_or, leb, ◌==◌, if◌then◌else◌,
}
use my_detail_os_backend.Prelude.Int.{ℤ, pos, ◌+ℤ◌, ltb_ℤ}
use my_detail_os_backend.Money.{round_money}
use my_detail_os_backend.Parties.{
  SalesInvoice, InvoiceStatus, InvoicePayment, Expense, Party, PaymentStatus, is_paid, is_customer,
  invoice_outstanding, invoice_paid_total, invoices_outstanding, expense_outstanding,
  expenses_outstanding, party_documents_for_party, party_current_balance, payments_total,
}
use my_detail_os_backend.Parties.Statement.{Calendar, source_label, payment_ledger_timestamp}

-- `PartyTransactionRow`, without its link
pub record TransactionRow : Type 0 where
  pub id : String
  pub at : String
  pub type_label : String
  pub reference : String
  pub amount : ℤ
  pub unpaid_amount : Option ℤ
  pub status : String
  pub status_tone : String

abbrev is_paid_invoice : InvoiceStatus → Bool
is_paid_invoice InvoiceStatus.paid = true
is_paid_invoice _ = false

abbrev is_partial : PaymentStatus → Bool
is_partial PaymentStatus.partial = true
is_partial _ = false

-- The status that a row shows.
unfoldable pub row_status : (settled partly : Bool) → String
row_status settled partly =
    if settled then "Paid" else if partly then "Partially paid" else "Outstanding"

unfoldable pub tone_of : String → String
tone_of status =
    if status == "Paid"
    then "success"
    else if status == "Partially paid"
    then "warning"
    else "muted"

abbrev cent : ℤ
cent = pos 100

unfoldable pub invoice_row : SalesInvoice → TransactionRow
unfolding row_status tone_of
invoice_row inv =
    let out = invoice_outstanding inv in
    let status =
      row_status (is_paid_invoice inv.status || ltb_ℤ out cent)
        (ltb_ℤ (pos 0) (invoice_paid_total inv)) in
    record {
      id = inv.id;
      at = inv.created_at;
      type_label = source_label "Sales Invoices" inv.source;
      reference = inv.invoice_number;
      amount = inv.grand_total;
      unpaid_amount = if ltb_ℤ cent out then some out else none;
      status = status;
      status_tone = tone_of status;
    }

unfoldable pub payment_rows : Calendar → SalesInvoice → List InvoicePayment → List TransactionRow
payment_rows calendar inv [] = []
payment_rows calendar inv (p ∷ ps) =
    let at = payment_ledger_timestamp p.paid_at inv.created_at in
    let rest = payment_rows calendar inv ps in
    if not (calendar.in_period at)
    then rest
    else (record {
      id = p.id;
      at = at;
      type_label = "Payment In";
      reference = inv.invoice_number;
      amount = p.amount;
      unpaid_amount = none;
      status = "";
      status_tone = "muted";
    })
      ∷ rest

unfoldable pub invoice_rows : Calendar → List SalesInvoice → List TransactionRow
unfolding invoice_row payment_rows
invoice_rows calendar [] = []
invoice_rows calendar (inv ∷ invs) =
    let rest = payment_rows calendar inv inv.payments ++ invoice_rows calendar invs in
    if calendar.in_period inv.created_at then invoice_row inv ∷ rest else rest

unfoldable pub expense_row : Expense → TransactionRow
unfolding row_status tone_of
expense_row e =
    let out = expense_outstanding e in
    let status =
      row_status (is_paid e.payment_status || ltb_ℤ out cent) (is_partial e.payment_status) in
    record {
      id = e.id;
      at = e.date;
      type_label = "Purchase / expense";
      reference = e.title;
      amount = e.amount;
      unpaid_amount = none;
      status = status;
      status_tone = tone_of status;
    }

-- Latest first; the order of equal times is kept.
unfoldable pub insert_row : Calendar → TransactionRow → List TransactionRow → List TransactionRow
insert_row calendar r [] = r ∷ []
insert_row calendar r (q ∷ qs) =
    let rest = q ∷ insert_row calendar r qs in
    if leb (calendar.time q.at) (calendar.time r.at) then r ∷ q ∷ qs else rest

unfoldable pub sort_rows : Calendar → List TransactionRow → List TransactionRow
unfolding insert_row
sort_rows calendar [] = []
sort_rows calendar (r ∷ rs) = insert_row calendar r (sort_rows calendar rs)

abbrev pub expenses_in_period : Calendar → List Expense → List Expense
expenses_in_period calendar es = filter (λ (e : Expense). calendar.in_period e.date) es

unfoldable pub build_party_transactions :
    Calendar → Party → List SalesInvoice → List Expense → List TransactionRow
unfolding invoice_rows sort_rows expense_row
build_party_transactions calendar party invoices expenses =
    let documents = party_documents_for_party party invoices expenses in
    if is_customer party.kind
    then sort_rows calendar (invoice_rows calendar documents.invoices)
    else sort_rows calendar (map expense_row (expenses_in_period calendar documents.expenses))

-- `PartyLedgerSummary`
pub record LedgerSummary : Type 0 where
  pub total_receivable_or_payable : ℤ
  pub overdue_amount : ℤ
  pub total_sales_or_purchases : ℤ
  pub total_received_or_paid : ℤ

unfoldable pub total_sales : List SalesInvoice → ℤ
total_sales [] = pos 0
total_sales (i ∷ is) = i.grand_total +ℤ total_sales is

unfoldable pub total_purchases : List Expense → ℤ
total_purchases [] = pos 0
total_purchases (e ∷ es) = e.amount +ℤ total_purchases es

abbrev is_received : Calendar → SalesInvoice → InvoicePayment → Bool
is_received calendar inv p = calendar.in_period (payment_ledger_timestamp p.paid_at inv.created_at)

-- The payments of the period, on invoices of any date.
unfoldable pub total_received : Calendar → List SalesInvoice → ℤ
total_received calendar [] = pos 0
total_received calendar (i ∷ is) =
    payments_total (filter (is_received calendar i) i.payments) +ℤ total_received calendar is

abbrev expense_settled : Expense → ℤ
expense_settled e =
    if is_paid e.payment_status
    then e.amount
    else if is_partial e.payment_status
    then get_or e.amount_paid (pos 0)
    else pos 0

unfoldable pub total_settled : List Expense → ℤ
total_settled [] = pos 0
total_settled (e ∷ es) = expense_settled e +ℤ total_settled es

abbrev is_overdue : SalesInvoice → Bool
is_overdue i = ltb_ℤ cent (invoice_outstanding i) && not (is_paid_invoice i.status)

unfoldable pub build_party_summary :
    Calendar → Party → List SalesInvoice → List Expense → LedgerSummary
unfolding total_sales total_purchases total_received total_settled
build_party_summary calendar party invoices expenses =
    let documents = party_documents_for_party party invoices expenses in
    let current = party_current_balance party invoices expenses in
    let sales = filter (λ (i : SalesInvoice). calendar.in_period i.created_at) documents.invoices in
    let purchases = expenses_in_period calendar documents.expenses in
    if is_customer party.kind
    then record {
      total_receivable_or_payable = current;
      overdue_amount = round_money (invoices_outstanding (filter is_overdue documents.invoices));
      total_sales_or_purchases = round_money (total_sales sales);
      total_received_or_paid = round_money (total_received calendar documents.invoices);
    }
    else record {
      total_receivable_or_payable = current;
      overdue_amount = round_money (
          expenses_outstanding
            (filter (λ e. ltb_ℤ cent (expense_outstanding e)) documents.expenses));
      total_sales_or_purchases = round_money (total_purchases purchases);
      total_received_or_paid = round_money (total_settled purchases);
    }
