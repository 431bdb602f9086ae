-- ===== src/Tests/Parties.antt =====
-- The ledger of a party at concrete data (src/lib/party-ledger.ts).
use my_detail_os_backend.Prelude.{
  true, false, [], ◌∷◌, none, some, get_or, is_empty, ◌≡◌, ◌==◌, if◌then◌else◌, refl, inr, arith,
  trim,
}
use my_detail_os_backend.Prelude.Int.{pos, ◌+ℤ◌, ◌-ℤ◌}
use my_detail_os_backend.Money.{IsWhole, at_least_zero, round_money}
use my_detail_os_backend.Parties.{
  SalesInvoice, InvoicePayment, InvoiceLineItem, Party, customer, is_customer, partially_paid,
  signed_opening_balance, party_current_balance, party_documents_for_party, invoice_paid_total,
}
use my_detail_os_backend.Parties.Statement.{
  Calendar, build_party_statement, payment_entries, payment_ledger_timestamp, running, sort_entries,
}
use my_detail_os_backend.Parties.PublicStatement.{build_public_customer_statement}
use my_detail_os_backend.Parties.Regular.{IsRegular}
use my_detail_os_backend.Parties.Reconcile.{
  closing_balance, invoices_of, wallets_used, public_statement_reconciles, party_statement_gap,
}
use my_detail_os_backend.Parties.Items.{build_party_item_wise}
use my_detail_os_backend.Parties.Items.Totals.{
  row_sales, invoices_lines_total, in_period, item_sales_total,
}

abbrev always : Calendar
always = record {
  in_period = λ at. true;
  time = λ at. if at == "2026-02-01" then 1 else 2;
  format_date = λ at. at;
  format_days_later = λ days at. at;
}

abbrev visit_payment : InvoicePayment
visit_payment = record {
  id = "p1";
  amount = pos 5000000;
  method = "BANK_TRANSFER";
  reference_number = some "77";
  paid_at = some "2026-02-03";
}

abbrev wash : InvoiceLineItem
wash = record {
  description = " Wash ";
  item_type = "SERVICE";
  quantity = pos 10000;
  total = pos 10000000;
  hsn_sac = none;
}

abbrev first_visit : SalesInvoice
first_visit = record {
  id = "i1";
  invoice_number = "INV-1";
  customer_id = "c1";
  line_items = wash ∷ wash ∷ [];
  wallet_amount_used = some (pos 1000000);
  grand_total = pos 20000000;
  status = partially_paid;
  payments = visit_payment ∷ [];
  created_at = "2026-02-01";
  source = none;
}

abbrev asha : Party
asha = record {
  kind = customer;
  opening_balance = some (pos 300000);
  opening_balance_side = none;
  credit_period_days = some 7;
  customer_id = some "c1";
  vendor_key = none;
}

asha_is_customer : is_customer asha.kind ≡ true
asha_is_customer = refl

asha_is_named : is_empty (get_or asha.customer_id "") ≡ false
asha_is_named = refl

opening-IsWhole : IsWhole (signed_opening_balance asha)
unfolding at_least_zero signed_opening_balance
opening-IsWhole = omega arith

first_visit-IsRegular : IsRegular first_visit
unfolding invoice_paid_total ◌+ℤ◌
first_visit-IsRegular = record {
  grand_whole = omega arith;
  payments_whole = (omega arith, tt);
  wallet_whole = omega arith;
  wallet_shown = inr refl;
  not_overpaid = omega arith;
}

public_statement_reconciles_example :
    closing_balance (build_public_customer_statement always asha (first_visit ∷ []))
    ≡ party_current_balance asha (first_visit ∷ []) []
public_statement_reconciles_example =
    public_statement_reconciles always asha (first_visit ∷ []) (λ at. refl) asha_is_customer
      opening-IsWhole (first_visit-IsRegular, tt)

party_statement_gap_example :
    closing_balance (build_party_statement always asha (first_visit ∷ []) [])
    ≡ party_current_balance asha (first_visit ∷ []) []
      +ℤ wallets_used (invoices_of asha (first_visit ∷ []))
party_statement_gap_example =
    party_statement_gap always asha (first_visit ∷ []) (λ at. refl) asha_is_customer opening-IsWhole
      (first_visit-IsRegular, tt)

-- The closing balances: 1,430 rupees, and 1,530 where the wallet is left out.
closes :
    (closing_balance (build_public_customer_statement always asha (first_visit ∷ []))
      ≡ pos 14300000)
    × (closing_balance (build_party_statement always asha (first_visit ∷ []) []) ≡ pos 15300000)
unfolding at_least_zero build_party_statement build_public_customer_statement closing_balance
    party_documents_for_party payment_entries payment_ledger_timestamp round_money running
    signed_opening_balance sort_entries trim ◌+ℤ◌ ◌-ℤ◌
closes = (refl, refl)

item_sales_total_example :
    row_sales (build_party_item_wise always asha (first_visit ∷ []) [])
    ≡ invoices_lines_total
        (in_period always (party_documents_for_party asha (first_visit ∷ []) []).invoices)
item_sales_total_example =
    item_sales_total always asha (first_visit ∷ []) asha_is_customer asha_is_named
