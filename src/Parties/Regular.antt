-- ===== src/Parties/Regular.antt =====
-- Regular invoices, and what their payments add to a statement (src/lib/party-ledger.ts).
use my_detail_os_backend.Prelude.{String, true, List, [], ◌∷◌, All, ◌≡◌, ◌⊎◌, ap, ◌∙◌, arith}
use my_detail_os_backend.Prelude.Int.{ℤ, pos, ◌-ℤ◌, ◌≤ℤ◌, ltb_ℤ, eq_of_parts, int_laws}
use my_detail_os_backend.Money.{at_least_zero, IsWhole, round_money_whole, +ℤ-IsWhole, -ℤ-IsWhole}
use my_detail_os_backend.Parties.{
  SalesInvoice, InvoicePayment, payments_total, wallet_used, invoice_paid_total,
  invoice_outstanding,
}
use my_detail_os_backend.Parties.Statement.{Calendar, payment_entries, payment_ledger_timestamp}
use my_detail_os_backend.Parties.Net.{net, IsWholeEntry}

-- An invoice in whole paise that is not overpaid, and whose wallet money, if any, is more than a
-- paisa.
pub record IsRegular (inv : SalesInvoice) : Type 0 where
  pub grand_whole : IsWhole inv.grand_total
  pub payments_whole : All (λ (p : InvoicePayment). IsWhole p.amount) inv.payments
  pub wallet_whole : IsWhole (wallet_used inv)
  pub wallet_shown : (wallet_used inv ≡ pos 0) ⊎ (ltb_ℤ (pos 100) (wallet_used inv) ≡ true)
  pub not_overpaid : invoice_paid_total inv ≤ℤ inv.grand_total

pub payments_total-IsWhole :
    (ps : List InvoicePayment)
    → All (λ (p : InvoicePayment). IsWhole p.amount) ps
    → IsWhole (payments_total ps)
unfolding payments_total
payments_total-IsWhole [] h = omega arith
payments_total-IsWhole (p ∷ ps) h =
    +ℤ-IsWhole p.amount (payments_total ps) h.0 (payments_total-IsWhole ps h.1)

pub invoice_paid_total-IsWhole :
    (inv : SalesInvoice) → IsRegular inv → IsWhole (invoice_paid_total inv)
unfolding invoice_paid_total
invoice_paid_total-IsWhole inv r =
    +ℤ-IsWhole (payments_total inv.payments) (wallet_used inv)
      (payments_total-IsWhole inv.payments r.payments_whole) r.wallet_whole

pub at_least_zero_nonneg : (a : ℤ) → pos 0 ≤ℤ a → at_least_zero a ≡ a
unfolding at_least_zero
at_least_zero_nonneg a h = eq_of_parts _ _ (ground arith)

-- What is open on a regular invoice is what it has over its payments.
pub invoice_outstanding-regular :
    (inv : SalesInvoice)
    → IsRegular inv
    → invoice_outstanding inv ≡ inv.grand_total -ℤ invoice_paid_total inv
unfolding invoice_outstanding
invoice_outstanding-regular inv r =
    let total = invoice_paid_total inv in
    let le = r.not_overpaid in
    let whole = -ℤ-IsWhole inv.grand_total total r.grand_whole (invoice_paid_total-IsWhole inv r) in
    ap at_least_zero (round_money_whole (inv.grand_total -ℤ total) whole)
    ∙ at_least_zero_nonneg (inv.grand_total -ℤ total) (omega (int_laws))

module _ (calendar : Calendar) (unlimited : (at : String) → calendar.in_period at ≡ true) where
  pub net-payment_entries :
      (f : ℤ → ℤ) (exact : (a : ℤ) → IsWhole a → f a ≡ a) (inv : SalesInvoice)
      (ps : List InvoicePayment)
      → All (λ (p : InvoicePayment). IsWhole p.amount) ps
      → net (payment_entries calendar f inv ps) ≡ pos 0 -ℤ payments_total ps
  unfolding net payment_entries payments_total
  net-payment_entries f exact inv [] h = eq_of_parts _ _ (omega (int_laws))
  net-payment_entries f exact inv (p ∷ ps) h =
      rw
        (
          unlimited (payment_ledger_timestamp p.paid_at inv.created_at),
          net-payment_entries f exact inv ps h.1,
          exact p.amount h.0,
        )
        (eq_of_parts _ _ (omega (int_laws)))

  pub All-payment_entries :
      (f : ℤ → ℤ) (exact : (a : ℤ) → IsWhole a → f a ≡ a) (inv : SalesInvoice)
      (ps : List InvoicePayment)
      → All (λ (p : InvoicePayment). IsWhole p.amount) ps
      → All IsWholeEntry (payment_entries calendar f inv ps)
  unfolding payment_entries
  All-payment_entries f exact inv [] h = tt
  All-payment_entries f exact inv (p ∷ ps) h =
      rw (unlimited (payment_ledger_timestamp p.paid_at inv.created_at), exact p.amount h.0)
        ((omega arith, h.0), All-payment_entries f exact inv ps h.1)
