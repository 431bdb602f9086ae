-- ===== src/Parties/Reconcile.antt =====
-- The statements of a party against its balance (src/lib/party-ledger.ts).
use my_detail_os_backend.Prelude.{
  ℕ, String, true, not, ◌&&◌, List, [], ◌∷◌, ◌++◌, Option, none, some, get_or, trim, is_empty, ◌==◌,
  All, All-append, All-filter_of_All, ◌≡◌, inl, inr, refl, ap, sym, ◌∙◌, arith, Bool-cases,
}
use my_detail_os_backend.Prelude.Int.{ℤ, pos, ◌+ℤ◌, ◌-ℤ◌, eq_of_parts, int_laws}
use my_detail_os_backend.Money.{round_money, IsWhole, round_money_whole, +ℤ-IsWhole, -ℤ-IsWhole}
use my_detail_os_backend.Parties.{
  SalesInvoice, Expense, Party, is_customer, wallet_used, invoice_paid_total, invoice_outstanding,
  invoices_outstanding, party_documents_for_party, signed_opening_balance, party_current_balance,
}
use my_detail_os_backend.Parties.Statement.{
  Calendar, Line, running, sort_entries, payment_entries, customer_entries, build_party_statement,
  summary_line,
}
use my_detail_os_backend.Parties.PublicStatement.{
  public_entries, wallet_entries, wallet_at, build_public_customer_statement,
}
use my_detail_os_backend.Parties.Net.{
  net, IsWholeEntry, +ℤ_assoc, net-sort_entries, All-sort_entries, running-net, net-append,
}
use my_detail_os_backend.Parties.Regular.{
  IsRegular, invoice_paid_total-IsWhole, invoice_outstanding-regular, net-payment_entries,
  All-payment_entries,
}

-- All wallet money that invoices have used.
unfoldable pub wallets_used : List SalesInvoice → ℤ
wallets_used [] = pos 0
wallets_used (inv ∷ invs) = wallet_used inv +ℤ wallets_used invs

module _ (calendar : Calendar) (unlimited : (at : String) → calendar.in_period at ≡ true) where
  net-wallet_entries :
      (inv : SalesInvoice)
      → IsRegular inv
      → net (wallet_entries calendar inv) ≡ pos 0 -ℤ wallet_used inv
  unfolding net wallet_entries
  net-wallet_entries inv r = elim r.wallet_shown [
    | inl none_ ↦ rw none_ (eq_of_parts _ _ (omega (int_laws)))
    | inr some_ ↦
        rw
          (
            some_,
            unlimited (wallet_at calendar inv),
            round_money_whole (wallet_used inv) r.wallet_whole,
          )
          (eq_of_parts _ _ (omega (int_laws)))
  ]

  All-wallet_entries :
      (inv : SalesInvoice) → IsRegular inv → All IsWholeEntry (wallet_entries calendar inv)
  unfolding wallet_entries
  All-wallet_entries inv r = elim r.wallet_shown [
    | inl none_ ↦ rw none_ tt
    | inr some_ ↦
        rw
          (
            some_,
            unlimited (wallet_at calendar inv),
            round_money_whole (wallet_used inv) r.wallet_whole,
          )
          ((omega arith, r.wallet_whole), tt)
  ]

  -- Entries of the public statement add up to what is open.
  net-public_entries :
      (days : Option ℕ) (invs : List SalesInvoice)
      → All IsRegular invs
      → net (public_entries calendar days invs) ≡ invoices_outstanding invs
  unfolding net public_entries invoices_outstanding invoice_paid_total
  net-public_entries days [] h = refl
  net-public_entries days (inv ∷ invs) h =
      rw
        (
          unlimited inv.created_at,
          net-append (payment_entries calendar round_money inv inv.payments)
              (wallet_entries calendar inv ++ public_entries calendar days invs),
          net-append (wallet_entries calendar inv) (public_entries calendar days invs),
          net-payment_entries calendar unlimited round_money round_money_whole inv inv.payments
              h.0.payments_whole,
          net-wallet_entries inv h.0,
          net-public_entries days invs h.1,
          round_money_whole inv.grand_total h.0.grand_whole,
          invoice_outstanding-regular inv h.0,
        )
        (eq_of_parts _ _ (omega (int_laws)))

  All-public_entries :
      (days : Option ℕ) (invs : List SalesInvoice)
      → All IsRegular invs
      → All IsWholeEntry (public_entries calendar days invs)
  unfolding public_entries
  All-public_entries days [] h = tt
  All-public_entries days (inv ∷ invs) h =
      rw (unlimited inv.created_at, round_money_whole inv.grand_total h.0.grand_whole)
        (
          (h.0.grand_whole, omega arith),
          All-append IsWholeEntry (payment_entries calendar round_money inv inv.payments) _
              (All-payment_entries calendar unlimited round_money round_money_whole inv inv.payments
                h.0.payments_whole)
              (All-append IsWholeEntry (wallet_entries calendar inv) _ (All-wallet_entries inv h.0)
                (All-public_entries days invs h.1)),
        )

  -- The entries of the statement in the app leave the wallet out.
  net-customer_entries :
      (invs : List SalesInvoice)
      → All IsRegular invs
      → net (customer_entries calendar invs) ≡ invoices_outstanding invs +ℤ wallets_used invs
  unfolding net customer_entries invoices_outstanding invoice_paid_total wallets_used
  net-customer_entries [] h = eq_of_parts _ _ (omega (int_laws))
  net-customer_entries (inv ∷ invs) h =
      rw
        (
          unlimited inv.created_at,
          net-append (payment_entries calendar (λ a. a) inv inv.payments)
              (customer_entries calendar invs),
          net-payment_entries calendar unlimited (λ a. a) (λ a w. refl) inv inv.payments
              h.0.payments_whole,
          net-customer_entries invs h.1,
          invoice_outstanding-regular inv h.0,
        )
        (eq_of_parts _ _ (omega (int_laws)))

  All-customer_entries :
      (invs : List SalesInvoice)
      → All IsRegular invs
      → All IsWholeEntry (customer_entries calendar invs)
  unfolding customer_entries
  All-customer_entries [] h = tt
  All-customer_entries (inv ∷ invs) h = rw (unlimited inv.created_at) (
    (h.0.grand_whole, omega arith),
    All-append IsWholeEntry (payment_entries calendar (λ a. a) inv inv.payments) _
        (All-payment_entries calendar unlimited (λ a. a) (λ a w. refl) inv inv.payments
          h.0.payments_whole)
        (All-customer_entries invs h.1),
  )

invoices_outstanding-IsWhole :
    (invs : List SalesInvoice) → All IsRegular invs → IsWhole (invoices_outstanding invs)
unfolding invoices_outstanding
invoices_outstanding-IsWhole [] h = omega arith
invoices_outstanding-IsWhole (inv ∷ invs) h =
    +ℤ-IsWhole (invoice_outstanding inv) (invoices_outstanding invs)
      (rw (invoice_outstanding-regular inv h.0) (
        -ℤ-IsWhole inv.grand_total (invoice_paid_total inv) h.0.grand_whole
          (invoice_paid_total-IsWhole inv h.0)))
      (invoices_outstanding-IsWhole invs h.1)

documents-IsRegular :
    (party : Party) (invoices : List SalesInvoice) (expenses : List Expense)
    → All IsRegular invoices
    → All IsRegular (party_documents_for_party party invoices expenses).invoices
unfolding party_documents_for_party
documents-IsRegular party invoices expenses h =
    let customer_id = get_or party.customer_id "" in
    let key = trim (get_or party.vendor_key "") in
    elim (Bool-cases (is_customer party.kind && not (is_empty customer_id))) [
      | inl e ↦
          rw (party_documents_for_party, e)
            (All-filter_of_All IsRegular (λ (i : SalesInvoice). i.customer_id == customer_id)
              invoices h)
      | inr e ↦ elim (Bool-cases (not (is_customer party.kind) && not (is_empty key))) [
        | inl f ↦ rw (party_documents_for_party, e, f) tt
        | inr f ↦ rw (party_documents_for_party, e, f) tt
      ]
    ]

-- The balance of the last line of a statement.
unfoldable pub closing_balance : List Line → ℤ
closing_balance [] = pos 0
closing_balance (l ∷ []) = l.balance
closing_balance (l ∷ m ∷ ls) = closing_balance (m ∷ ls)

closing_balance-append :
    (l last : Line) (ls : List Line) → closing_balance (l ∷ (ls ++ (last ∷ []))) ≡ last.balance
unfolding closing_balance
closing_balance-append l last [] = refl
closing_balance-append l last (m ∷ ls) = closing_balance-append m last ls

-- The invoices that belong to a party.
abbrev pub invoices_of : Party → List SalesInvoice → List SalesInvoice
invoices_of party invoices = (party_documents_for_party party invoices []).invoices

-- The public statement of a customer over an unlimited period ends at the customer's balance: where
-- the opening balance and all amounts are whole paise, no invoice is overpaid, and the wallet money of
-- an invoice, if any, is more than a paisa.
pub public_statement_reconciles :
    (calendar : Calendar) (party : Party) (invoices : List SalesInvoice)
    → ((at : String) → calendar.in_period at ≡ true)
    → is_customer party.kind ≡ true
    → IsWhole (signed_opening_balance party)
    → All IsRegular invoices
    → closing_balance (build_public_customer_statement calendar party invoices)
      ≡ party_current_balance party invoices []
unfolding build_public_customer_statement party_current_balance
public_statement_reconciles calendar party invoices unlimited customer_ whole regular =
    let start = signed_opening_balance party in
    let invs = invoices_of party invoices in
    let ok = documents-IsRegular party invoices [] regular in
    let entries = public_entries calendar party.credit_period_days invs in
    let due = invoices_outstanding-IsWhole invs ok in
    let lines = running start (sort_entries calendar entries) in
    closing_balance-append _ (summary_line "closing" "Closing Balance" (some lines.1) lines.1)
      lines.0
    ∙ running-net start (sort_entries calendar entries) whole (
        All-sort_entries calendar entries
          (All-public_entries calendar unlimited party.credit_period_days invs ok))
    ∙ ap (λ n. start +ℤ n) (net-sort_entries calendar entries)
    ∙ ap (λ n. start +ℤ n) (net-public_entries calendar unlimited party.credit_period_days invs ok)
    ∙ sym (
        round_money_whole (start +ℤ invoices_outstanding invs)
          (+ℤ-IsWhole start (invoices_outstanding invs) whole due))
    ∙ rw customer_ refl

-- Under the same conditions, the statement that the app shows ends above the balance, by all money
-- from the wallet that the customer's invoices have used.
pub party_statement_gap :
    (calendar : Calendar) (party : Party) (invoices : List SalesInvoice)
    → ((at : String) → calendar.in_period at ≡ true)
    → is_customer party.kind ≡ true
    → IsWhole (signed_opening_balance party)
    → All IsRegular invoices
    → closing_balance (build_party_statement calendar party invoices [])
      ≡ party_current_balance party invoices [] +ℤ wallets_used (invoices_of party invoices)
unfolding build_party_statement party_current_balance
party_statement_gap calendar party invoices unlimited customer_ whole regular =
    let start = signed_opening_balance party in
    let invs = invoices_of party invoices in
    let ok = documents-IsRegular party invoices [] regular in
    let entries = customer_entries calendar invs in
    let due = invoices_outstanding-IsWhole invs ok in
    let lines = running start (sort_entries calendar entries) in
    rw customer_ (
      closing_balance-append _ (summary_line "closing" "Closing Balance" none lines.1) lines.0
      ∙ running-net start (sort_entries calendar entries) whole
          (All-sort_entries calendar entries (All-customer_entries calendar unlimited invs ok))
      ∙ ap (λ n. start +ℤ n) (net-sort_entries calendar entries)
      ∙ ap (λ n. start +ℤ n) (net-customer_entries calendar unlimited invs ok)
      ∙ sym (+ℤ_assoc start (invoices_outstanding invs) (wallets_used invs))
      ∙ ap (λ n. n +ℤ wallets_used invs)
          (sym (
            round_money_whole (start +ℤ invoices_outstanding invs)
              (+ℤ-IsWhole start (invoices_outstanding invs) whole due))))
