-- ===== src/Wallet/Balance.antt =====
-- The steps of a call that succeeds, and the sign of the balance
-- (src/modules/invoices/wallet-sync.service.ts).
use mathlib.Core.Path.{subst}
use my_detail_os_backend.Prelude.{ℕ, String, List, [], ◌∷◌, Option, some, ◌≡◌, ap, sym, ◌∙◌, arith}
use my_detail_os_backend.Prelude.Int.{ℤ, pos, ◌+ℤ◌, ◌-ℤ◌, ◌≤ℤ◌, +ℤ_parts, -ℤ_parts}
use my_detail_os_backend.Errors.{ok, >>=-eq-ok, ok_inj}
use my_detail_os_backend.Money.{abs, round_money_nonneg}
use my_detail_os_backend.Wallet.{
  Payment, Invoice, Wallet, Synced, wallet_used_diff, use_wallet, credit_payment, credit_payments,
  reverse_payment, reverse_payments, payments_of, sync_wallet, settle_payments, synced,
}

abbrev IsNonneg : Wallet → Type 0
IsNonneg w = pos 0 ≤ℤ w.balance

use_wallet-IsNonneg :
    (fresh : ℕ → String) (diff : ℤ) (w : Wallet) {w' : Wallet}
    → IsNonneg w
    → use_wallet fresh diff w ≡ ok w'
    → IsNonneg w'
unfolding use_wallet abs
use_wallet-IsNonneg fresh diff w h e = ground (
  arith,
  -ℤ_parts w.balance diff,
  +ℤ_parts w.balance (abs diff),
  round_money_nonneg (w.balance -ℤ diff),
  round_money_nonneg (w.balance +ℤ abs diff),
)

credit_payment-IsNonneg :
    (fresh : ℕ → String) (p : Payment) (w : Wallet)
    → IsNonneg w
    → IsNonneg (credit_payment fresh p w).0
unfolding credit_payment
credit_payment-IsNonneg fresh p w h =
    ground
      (arith, +ℤ_parts w.balance p.extra_amount, round_money_nonneg (w.balance +ℤ p.extra_amount))

credit_payments-IsNonneg :
    (fresh : ℕ → String) (ps : List Payment) (w : Wallet)
    → IsNonneg w
    → IsNonneg (credit_payments fresh ps w).0
unfolding credit_payments
credit_payments-IsNonneg fresh [] w h = h
credit_payments-IsNonneg fresh (p ∷ ps) w h =
    credit_payments-IsNonneg fresh ps (credit_payment fresh p w).0
      (credit_payment-IsNonneg fresh p w h)

reverse_payment-IsNonneg :
    (fresh : ℕ → String) (new : List Payment) (p : Payment) (w : Wallet) {w' : Wallet}
    → IsNonneg w
    → reverse_payment fresh new p w ≡ ok w'
    → IsNonneg w'
unfolding reverse_payment
reverse_payment-IsNonneg fresh new p w h e =
    ground
      (arith, -ℤ_parts w.balance p.extra_amount, round_money_nonneg (w.balance -ℤ p.extra_amount))

reverse_payments-IsNonneg :
    (fresh : ℕ → String) (new ps : List Payment) (w : Wallet) {w' : Wallet}
    → IsNonneg w
    → reverse_payments fresh new ps w ≡ ok w'
    → IsNonneg w'
unfolding reverse_payments
reverse_payments-IsNonneg fresh new [] w h e = subst IsNonneg (ok_inj e) h
reverse_payments-IsNonneg fresh new (p ∷ ps) w h e =
    let (w1, first, rest) =
      >>=-eq-ok (reverse_payment fresh new p w) (reverse_payments fresh new ps) e in
    reverse_payments-IsNonneg fresh new ps w1 (reverse_payment-IsNonneg fresh new p w h first) rest

-- The three steps of a call that succeeds.
pub sync_steps :
    (fresh : ℕ → String) (old : Option Invoice) (new : Invoice) (w : Wallet) {s : Synced}
    → sync_wallet fresh old new w ≡ ok s
    → (used : Wallet) × (use_wallet fresh (wallet_used_diff old new) w ≡ ok used)
      × (reverse_payments fresh
            (credit_payments fresh (payments_of (some new)) used).1
            (payments_of old)
            (credit_payments fresh (payments_of (some new)) used).0
          ≡ ok s.wallet)
      × (s.invoice
          ≡ (synced new (credit_payments fresh (payments_of (some new)) used).1 s.wallet).invoice)
unfolding sync_wallet
sync_steps fresh old new w {s} e =
    let (used, first, rest) =
      >>=-eq-ok (use_wallet fresh (wallet_used_diff old new) w) (settle_payments fresh old new) e in
    let credited = credit_payments fresh (payments_of (some new)) used in
    let (done, second, last) =
      >>=-eq-ok (reverse_payments fresh credited.1 (payments_of old) credited.0)
        (λ d. ok (synced new credited.1 d)) rest in
    (
      used,
      first,
      second ∙ ap (λ (x : Synced). ok x.wallet) (ok_inj last),
      ap (λ (x : Synced). x.invoice) (sym (ok_inj last)),
    )

-- A wallet that is not negative is not negative after a successful save, whatever invoice is saved
-- over whatever invoice.
pub sync_wallet_nonneg :
    (fresh : ℕ → String) (old : Option Invoice) (new : Invoice) (w : Wallet) {s : Synced}
    → pos 0 ≤ℤ w.balance
    → sync_wallet fresh old new w ≡ ok s
    → pos 0 ≤ℤ s.wallet.balance
sync_wallet_nonneg fresh old new w h e =
    let (used, first, second, _) = sync_steps fresh old new w e in
    let ps = payments_of (some new) in
    reverse_payments-IsNonneg fresh (credit_payments fresh ps used).1 (payments_of old)
      (credit_payments fresh ps used).0
      (credit_payments-IsNonneg fresh ps used (use_wallet-IsNonneg fresh _ w h first)) second
