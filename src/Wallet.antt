-- ===== src/Wallet.antt =====
-- The customer's wallet and its ledger, as an invoice is saved
-- (`handleInvoiceWalletSync` of src/modules/invoices/wallet-sync.service.ts). An invoice is read at
-- the fields that the function uses. A failed call leaves the database as it was, since the writes
-- stand in one transaction; `err` stands for that, with the amounts left out of the message.
pub mod Balance
pub mod Ledger
pub mod Resync
use Prim.Native.String.{◌++◌ as append}
use my_detail_os_backend.Prelude.{
  ℕ, String, Bool, true, false, not, ◌&&◌, List, [], ◌∷◌, ◌++◌, Option, none, some, any, length,
  is_empty, get_or, ◌==◌, if◌then◌else◌,
}
use my_detail_os_backend.Prelude.Int.{ℤ, pos, ◌+ℤ◌, ◌-ℤ◌, ltb_ℤ}
use my_detail_os_backend.Errors.{Result, ok, err, ◌>>=◌, ◌>>◌, throw_if, plain_error}
use my_detail_os_backend.Money.{round_money, abs}

pub record Payment : Type 0 where
  pub id : String
  pub wallet_transaction_id : Option String
  pub add_extra_to_wallet : Bool
  pub extra_amount : ℤ

pub record Invoice : Type 0 where
  pub customer_id : Option String
  pub wallet_amount_used : Option ℤ
  pub payments : Option (List Payment)

pub data EntryType : Type 0 where
  debit credit : EntryType

pub data EntrySource : Type 0 where
  invoice_payment refund : EntrySource

-- A row of `walletTransactions`.
pub record Entry : Type 0 where
  pub id : String
  pub type : EntryType
  pub amount : ℤ
  pub source : EntrySource
  pub balance_after : ℤ

-- The wallet in the transaction: the balance so far, and the ledger rows written so far.
pub record Wallet : Type 0 where
  pub balance : ℤ
  pub entries : List Entry

-- Writes a ledger row with the new balance. The id is a prefix and what the clock and the random
-- numbers give for the n-th row.
abbrev pub book : (ℕ → String) → String → EntryType → EntrySource → ℤ → ℤ → Wallet → Wallet
book fresh prefix type source amount balance w = record {
  balance = balance;
  entries =
      w.entries
      ++ (record {
        id = append prefix (fresh (length w.entries));
        type = type;
        amount = amount;
        source = source;
        balance_after = balance;
      }
          ∷ []);
}

-- `walletUsedDiff`
unfoldable pub wallet_used_diff : Option Invoice → Invoice → ℤ
wallet_used_diff old new =
    let old_used : ℤ = elim old [ none ↦ pos 0 | some o ↦ get_or o.wallet_amount_used (pos 0) ] in
    round_money (get_or new.wallet_amount_used (pos 0) -ℤ old_used)

-- 1. Process walletAmountUsed changes.
unfoldable pub use_wallet : (ℕ → String) → ℤ → Wallet → Result Wallet
use_wallet fresh diff w =
    if ltb_ℤ (pos 0) diff
    then (do
      throw_if (ltb_ℤ w.balance diff) (plain_error "Insufficient wallet balance")
      ok (book fresh "wtx-deb-" debit invoice_payment diff (round_money (w.balance -ℤ diff)) w))
    else if ltb_ℤ diff (pos 0)
    then ok (book fresh "wtx-crd-" credit refund (abs diff) (round_money (w.balance +ℤ abs diff)) w)
    else ok w

-- A payment that was booked before has a stamp.
abbrev pub is_stamped : Payment → Bool
is_stamped p = not (is_empty (get_or p.wallet_transaction_id ""))

abbrev pub has_extra : Payment → Bool
has_extra p = p.add_extra_to_wallet && ltb_ℤ (pos 0) p.extra_amount

-- One round of the loop over the new payments.
unfoldable pub credit_payment : (ℕ → String) → Payment → Wallet → Wallet × Payment
credit_payment fresh p w =
    if is_stamped p
    then (w, p)
    else if has_extra p
    then (
      book fresh "wtx-pay-" credit invoice_payment p.extra_amount
          (round_money (w.balance +ℤ p.extra_amount)) w,
      record p { wallet_transaction_id = some (append "wtx-pay-" (fresh (length w.entries))) },
    )
    else (w, p)

-- The loop, with the payments as it leaves them.
unfoldable pub credit_payments : (ℕ → String) → List Payment → Wallet → Wallet × List Payment
credit_payments fresh [] w = (w, [])
credit_payments fresh (p ∷ ps) w =
    let (w', p') = credit_payment fresh p w in
    let (w'', ps') = credit_payments fresh ps w' in (w'', p' ∷ ps')

-- `newPayments.some((np) => np.id === oldPay.id)`
abbrev pub still_present : Payment → List Payment → Bool
still_present p ps = any (λ np. np.id == p.id) ps

-- One round of the loop over the old payments.
unfoldable pub reverse_payment : (ℕ → String) → List Payment → Payment → Wallet → Result Wallet
reverse_payment fresh new_payments p w =
    if not (still_present p new_payments) && is_stamped p
    then if has_extra p
      then (do
        throw_if (ltb_ℤ w.balance p.extra_amount) (
            plain_error
              "Cannot delete payment: reversing wallet credit would make wallet negative.")
        ok (
            book fresh "wtx-rev-" debit refund p.extra_amount
              (round_money (w.balance -ℤ p.extra_amount)) w))
      else ok w
    else ok w

unfoldable pub reverse_payments :
    (ℕ → String) → List Payment → List Payment → Wallet → Result Wallet
reverse_payments fresh new_payments [] w = ok w
reverse_payments fresh new_payments (p ∷ ps) w = do
  w' ← reverse_payment fresh new_payments p w
  reverse_payments fresh new_payments ps w'

-- The wallet and the invoice behind a call.
pub record Synced : Type 0 where
  pub wallet : Wallet
  pub invoice : Invoice

abbrev pub payments_of : Option Invoice → List Payment
payments_of none = []
payments_of (some i) = get_or i.payments []

-- The invoice with the stamps of the loop, and the balance that is written to the customer.
abbrev pub synced : Invoice → List Payment → Wallet → Synced
synced new stamped w = record {
  wallet = w;
  invoice = record new { payments = elim new.payments [ none ↦ none | some _ ↦ some stamped ] };
}

-- 2. Process payments list changes, and the update of the customer.
unfoldable pub settle_payments : (ℕ → String) → Option Invoice → Invoice → Wallet → Result Synced
settle_payments fresh old new w = do
  let (credited, stamped) = credit_payments fresh (payments_of (some new)) w
  done ← reverse_payments fresh stamped (payments_of old) credited
  ok (synced new stamped done)

-- The transaction, for a customer that is found with this wallet.
unfoldable pub sync_wallet : (ℕ → String) → Option Invoice → Invoice → Wallet → Result Synced
unfolding settle_payments
sync_wallet fresh old new w = do
  used ← use_wallet fresh (wallet_used_diff old new) w
  settle_payments fresh old new used

-- The stored invoice: its organization and its payload.
abbrev pub InvoiceRow : Type 0
InvoiceRow = String × Invoice

abbrev belongs_to_another : String → Option InvoiceRow → Bool
belongs_to_another organization_id none = false
belongs_to_another organization_id (some row) = not (row.0 == organization_id)

abbrev payload_of : Option InvoiceRow → Option Invoice
payload_of none = none
payload_of (some row) = some row.1

sync_found : (ℕ → String) → Option InvoiceRow → Invoice → Option ℤ → Result (Option Synced)
sync_found fresh old_row new none = ok none
sync_found fresh old_row new (some balance) = do
  s ← sync_wallet fresh (payload_of old_row) new (record { balance = balance; entries = [] })
  ok (some s)

-- The whole function. `find_customer` is the balance of the organization's customer with an id.
unfoldable pub handle_invoice_wallet_sync :
    (ℕ → String)
    → (String → Option ℤ)
    → String
    → Option InvoiceRow
    → Invoice
    → Result (Option Synced)
unfolding sync_wallet sync_found
handle_invoice_wallet_sync fresh find_customer organization_id old_row new = do
  throw_if (belongs_to_another organization_id old_row)
      (plain_error "Invoice belongs to another organization")
  let customer = get_or new.customer_id ""
  if is_empty customer then ok none else sync_found fresh old_row new (find_customer customer)
