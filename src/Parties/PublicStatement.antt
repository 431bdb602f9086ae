-- ===== src/Parties/PublicStatement.antt =====
-- The statement that is shared with a customer (`buildPublicCustomerStatement` of
-- src/lib/party-ledger.ts): amounts are rounded, and money from the wallet is a payment of its own.
use Prim.Native.String.{◌++◌ as append, compare}
use Prim.Native.Nat.{Ordering}
use my_detail_os_backend.Prelude.{
  ℕ, String, ◌&&◌, List, [], ◌∷◌, ◌++◌, Option, none, some, get_or, if◌then◌else◌,
}
use my_detail_os_backend.Prelude.Int.{ℤ, pos, ltb_ℤ}
use my_detail_os_backend.Money.{round_money}
use my_detail_os_backend.Parties.{
  SalesInvoice, InvoicePayment, Party, invoice_outstanding, invoice_paid_total, wallet_used,
  party_documents_for_party, signed_opening_balance,
}
use my_detail_os_backend.Parties.Statement.{
  Calendar, Line, Posting, plain_line, summary_line, source_label, payment_ledger_timestamp,
  payment_entries, sort_entries, running,
}

-- The later of two time stamps, by the order of texts.
abbrev later : String → String → String
later a b = elim (compare a b) [ Ordering.lt ↦ b | Ordering.eq ↦ b | Ordering.gt ↦ a ]

-- `.map((p) => paymentLedgerTimestamp(p.paidAt, inv.createdAt)).sort().at(-1)`
unfoldable pub latest_payment_at : String → List InvoicePayment → Option String
latest_payment_at created [] = none
latest_payment_at created (p ∷ ps) =
    let at = payment_ledger_timestamp p.paid_at created in
    elim (latest_payment_at created ps) [ none ↦ some at | some last ↦ some (later at last) ]

module _ (calendar : Calendar) where
  unfoldable pub public_due_label : String → (outstanding credit : ℤ) → Option ℕ → String
  public_due_label created outstanding credit days =
      let due = calendar.format_days_later (get_or days 0) created in
      if ltb_ℤ outstanding (pos 100)
      then "Paid"
      else if ltb_ℤ (pos 100) credit
      then append due " Partially Paid"
      else append due " Unpaid"

  abbrev pub public_invoice_entry : Option ℕ → SalesInvoice → Posting
  public_invoice_entry days inv =
      let outstanding = invoice_outstanding inv in
      let collected = invoice_paid_total inv in
      record {
        at = inv.created_at;
        line =
            record (plain_line (append "inv-" inv.id) (calendar.format_date inv.created_at)
              (source_label "Sales Invoice" inv.source) inv.invoice_number "—") {
                debit = some (round_money inv.grand_total);
                invoice_due =
                    if ltb_ℤ (pos 100) collected && ltb_ℤ (pos 100) outstanding
                    then some outstanding
                    else none;
                due_label = some (public_due_label inv.created_at outstanding collected days);
              };
      }

  abbrev pub wallet_at : SalesInvoice → String
  wallet_at inv = get_or (latest_payment_at inv.created_at inv.payments) inv.created_at

  abbrev pub wallet_entry : SalesInvoice → Posting
  wallet_entry inv = record {
    at = wallet_at inv;
    line =
        record (plain_line (append "wallet-" inv.id) (calendar.format_date (wallet_at inv))
          (append "Payment In · " inv.invoice_number) inv.invoice_number "WALLET") {
            credit = some (round_money (wallet_used inv));
          };
  }

  -- The entry of the wallet money of an invoice, if there is any in the period.
  unfoldable pub wallet_entries : SalesInvoice → List Posting
  unfolding latest_payment_at
  wallet_entries inv =
      if ltb_ℤ (pos 100) (wallet_used inv) && calendar.in_period (wallet_at inv)
      then wallet_entry inv ∷ []
      else []

  unfoldable pub public_entries : Option ℕ → List SalesInvoice → List Posting
  unfolding wallet_entries public_due_label
  public_entries days [] = []
  public_entries days (inv ∷ invs) =
      let rest =
        payment_entries calendar round_money inv inv.payments
        ++ (wallet_entries inv ++ public_entries days invs) in
      if calendar.in_period inv.created_at then public_invoice_entry days inv ∷ rest else rest

unfoldable pub build_public_customer_statement : Calendar → Party → List SalesInvoice → List Line
unfolding public_entries
build_public_customer_statement calendar party invoices =
    let start = signed_opening_balance party in
    let documents = party_documents_for_party party invoices [] in
    let entries = public_entries calendar party.credit_period_days documents.invoices in
    let lines = running start (sort_entries calendar entries) in
    summary_line "opening" "Opening Balance" (some (pos 0)) start
    ∷ (lines.0 ++ (summary_line "closing" "Closing Balance" (some lines.1) lines.1 ∷ []))
