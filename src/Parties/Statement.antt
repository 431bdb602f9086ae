-- ===== src/Parties/Statement.antt =====
-- Statements of a party (src/lib/party-ledger.ts): its documents and payments by date, with a running
-- balance. The calendar is a parameter: the period of `dateInPreset`, the engine's date parser, and
-- the text of a date.
use Prim.Native.Char.{code}
use Prim.Native.String.{◌++◌ as append}
use my_detail_os_backend.Prelude.{
  ℕ, String, Bool, true, false, not, ◌||◌, List, [], ◌∷◌, ◌++◌, Option, none, some, get_or, trim,
  is_empty, is_blank, leb, eqb, utf16_length, ◌==◌, if◌then◌else◌,
}
use my_detail_os_backend.Prelude.Int.{ℤ, pos, ◌+ℤ◌, ◌-ℤ◌, ltb_ℤ}
use my_detail_os_backend.Money.{round_money}
use my_detail_os_backend.Parties.{
  SalesInvoice, InvoicePayment, Expense, Party, is_paid, is_customer, invoice_outstanding,
  party_documents_for_party, signed_opening_balance,
}

-- What is read of the calendar: whether a date lies in the period, its time, its text, and the text of
-- the date some days later.
pub record Calendar : Type 0 where
  pub in_period : String → Bool
  pub time : String → ℕ
  pub format_date : String → String
  pub format_days_later : ℕ → String → String

-- `PartyStatementLine`
pub record Line : Type 0 where
  pub id : String
  pub date : String
  pub voucher : String
  pub serial_no : String
  pub payment_mode : String
  pub debit : Option ℤ
  pub credit : Option ℤ
  pub balance : ℤ
  pub invoice_due : Option ℤ
  pub due_label : Option String
  pub is_summary : Bool

-- An entry: the time that it is sorted by, and its line, with no balance yet.
pub record Posting : Type 0 where
  pub at : String
  pub line : Line

-- A line with no amounts.
abbrev pub plain_line : (id date voucher serial mode : String) → Line
plain_line id date voucher serial mode = record {
  id = id;
  date = date;
  voucher = voucher;
  serial_no = serial;
  payment_mode = mode;
  debit = none;
  credit = none;
  balance = pos 0;
  invoice_due = none;
  due_label = none;
  is_summary = false;
}

abbrev pub summary_line : (id voucher : String) → Option ℤ → ℤ → Line
summary_line id voucher debit balance = record (plain_line id "—" voucher "—" "—") {
  debit = debit;
  balance = balance;
  is_summary = true;
}

unfoldable pub source_label : (sales : String) → Option String → String
source_label sales none = sales
source_label sales (some s) =
    if s == "COUNTER_SALE"
    then "Counter Sale"
    else if s == "MEMBERSHIP"
    then "Membership"
    else sales

-- `paymentLedgerTimestamp`
unfoldable pub payment_ledger_timestamp : Option String → String → String
payment_ledger_timestamp none fallback = fallback
payment_ledger_timestamp (some at) fallback = if is_blank at then fallback else trim at

-- `method.replace(/_/g, " ")`
unfoldable pub payment_mode_label : String → String
payment_mode_label String.[] = ""
payment_mode_label (String.◌∷◌ c s) =
    let rest = payment_mode_label s in
    if eqb (code c) b'_' then append " " rest else String.◌∷◌ c rest

-- `id.slice(-6)`, of a text without characters beyond the first plane
unfoldable pub last_six : String → String
last_six String.[] = ""
last_six (String.◌∷◌ c s) =
    let rest = last_six s in if leb (utf16_length (String.◌∷◌ c s)) 6 then String.◌∷◌ c s else rest

-- `method + (referenceNumber ? " (" + referenceNumber + ")" : "")`
abbrev mode_of : InvoicePayment → String
mode_of p =
    let reference = get_or p.reference_number "" in
    let mode = payment_mode_label p.method in
    if is_empty reference then mode else append mode (append " (" (append reference ")"))

module _ (calendar : Calendar) where
  -- The entry of a payment, with the amount to credit.
  abbrev pub payment_entry : SalesInvoice → InvoicePayment → ℤ → Posting
  payment_entry inv p credit =
      let paid_at = payment_ledger_timestamp p.paid_at inv.created_at in
      record {
        at = paid_at;
        line =
            record (plain_line (append "pay-" p.id) (calendar.format_date paid_at)
              (append "Payment In · " inv.invoice_number) inv.invoice_number (mode_of p)) {
                credit = some credit;
              };
      }

  -- The entries of the payments, each with an amount that is rounded by `amount_of`.
  unfoldable pub payment_entries : (ℤ → ℤ) → SalesInvoice → List InvoicePayment → List Posting
  payment_entries amount_of inv [] = []
  payment_entries amount_of inv (p ∷ ps) =
      let rest = payment_entries amount_of inv ps in
      if calendar.in_period (payment_ledger_timestamp p.paid_at inv.created_at)
      then payment_entry inv p (amount_of p.amount) ∷ rest
      else rest

  abbrev pub invoice_entry : SalesInvoice → Posting
  invoice_entry inv = record {
    at = inv.created_at;
    line =
        record (plain_line (append "inv-" inv.id) (calendar.format_date inv.created_at)
          (source_label "Sales Invoices" inv.source) inv.invoice_number "—") {
            debit = some inv.grand_total;
            due_label =
                if ltb_ℤ (pos 100) (invoice_outstanding inv)
                then some (append (calendar.format_date inv.created_at) " (unpaid)")
                else none;
          };
  }

  unfoldable pub customer_entries : List SalesInvoice → List Posting
  unfolding payment_entries source_label
  customer_entries [] = []
  customer_entries (inv ∷ invs) =
      let rest = payment_entries (λ a. a) inv inv.payments ++ customer_entries invs in
      if calendar.in_period inv.created_at then invoice_entry inv ∷ rest else rest

  abbrev pub expense_entry : Expense → Posting
  expense_entry e = record {
    at = e.date;
    line =
        record (plain_line (append "exp-" e.id) (calendar.format_date e.date) "Purchase / expense"
          (last_six e.id) (payment_mode_label e.payment_method)) { debit = some e.amount };
  }

  abbrev pub expense_paid : Expense → ℤ
  expense_paid e = if is_paid e.payment_status then e.amount else get_or e.amount_paid (pos 0)

  abbrev pub expense_payment_entry : Expense → Posting
  expense_payment_entry e = record {
    at = e.date;
    line =
        record (plain_line (append "exp-pay-" e.id) (calendar.format_date e.date) "Payment Out"
          (last_six e.id) (payment_mode_label e.payment_method)) { credit = some (expense_paid e) };
  }

  unfoldable pub supplier_entries : List Expense → List Posting
  unfolding last_six payment_mode_label
  supplier_entries [] = []
  supplier_entries (e ∷ es) =
      let rest = supplier_entries es in
      if not (calendar.in_period e.date)
      then rest
      else if is_paid e.payment_status || ltb_ℤ (pos 0) (get_or e.amount_paid (pos 0))
      then expense_entry e ∷ expense_payment_entry e ∷ rest
      else expense_entry e ∷ rest

  -- `entries.sort((a, b) => time(a.at) - time(b.at))`, which keeps the order of equal times
  unfoldable pub insert_entry : Posting → List Posting → List Posting
  insert_entry e [] = e ∷ []
  insert_entry e (f ∷ fs) =
      let rest = f ∷ insert_entry e fs in
      if leb (calendar.time e.at) (calendar.time f.at) then e ∷ f ∷ fs else rest

  unfoldable pub sort_entries : List Posting → List Posting
  unfolding insert_entry
  sort_entries [] = []
  sort_entries (e ∷ es) = insert_entry e (sort_entries es)

-- The balance behind a line.
unfoldable pub next_balance : ℤ → Line → ℤ
next_balance balance line =
    round_money ((balance +ℤ get_or line.debit (pos 0)) -ℤ get_or line.credit (pos 0))

-- The loop over the entries: the lines with their balances, and the last balance.
unfoldable pub running : ℤ → List Posting → List Line × ℤ
unfolding next_balance
running balance [] = ([], balance)
running balance (e ∷ es) =
    let next = next_balance balance e.line in
    let rest = running next es in (record e.line { balance = next } ∷ rest.0, rest.1)

unfoldable pub build_party_statement :
    Calendar → Party → List SalesInvoice → List Expense → List Line
unfolding running customer_entries supplier_entries sort_entries
build_party_statement calendar party invoices expenses =
    let start = signed_opening_balance party in
    let documents = party_documents_for_party party invoices expenses in
    let entries =
      if is_customer party.kind
      then customer_entries calendar documents.invoices
      else supplier_entries calendar documents.expenses in
    let lines = running start (sort_entries calendar entries) in
    summary_line "opening" "Opening Balance" none start
    ∷ (lines.0 ++ (summary_line "closing" "Closing Balance" none lines.1 ∷ []))
