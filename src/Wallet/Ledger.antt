-- ===== src/Wallet/Ledger.antt =====
-- The ledger of a wallet accounts for every change of its balance
-- (src/modules/invoices/wallet-sync.service.ts).
use mathlib.Core.Path.{subst}
use my_detail_os_backend.Prelude.{
  ℕ, String, not, ◌&&◌, List, [], ◌∷◌, ◌++◌, Option, some, ◌≡◌, ap, ◌∙◌, inl, inr, arith, All,
  Bool-cases,
}
use my_detail_os_backend.Prelude.Int.{ℤ, pos, ◌+ℤ◌, ◌-ℤ◌, ltb_ℤ, int_laws}
use my_detail_os_backend.Errors.{ok, >>=-eq-ok, ok_inj, absurd_err}
use my_detail_os_backend.Money.{
  round_money, abs, IsWhole, round_money-IsWhole, round_money_whole, +ℤ-IsWhole, -ℤ-IsWhole,
}
use my_detail_os_backend.Wallet.Balance.{sync_steps}
use my_detail_os_backend.Wallet.{
  Payment, Invoice, debit, credit, Entry, Wallet, Synced, wallet_used_diff, use_wallet, is_stamped,
  has_extra, credit_payment, credit_payments, still_present, reverse_payment, reverse_payments,
  payments_of, sync_wallet, book, EntrySource, invoice_payment, refund,
}

-- What a ledger row adds to the balance.
abbrev pub signed : Entry → ℤ
signed e = elim e.type [ credit ↦ e.amount | debit ↦ pos 0 -ℤ e.amount ]

-- The sum of a ledger.
unfoldable pub net : List Entry → ℤ
net [] = pos 0
net (e ∷ es) = signed e +ℤ net es

net-concat : (es : List Entry) (e : Entry) → net (es ++ (e ∷ [])) ≡ net es +ℤ signed e
unfolding net
net-concat [] e = omega int_laws
net-concat (x ∷ es) e = rw (net-concat es e) (omega int_laws)

-- The balance is a whole number of paise, and is the starting balance with the ledger added up.
abbrev IsBooked : ℤ → Wallet → Type 0
IsBooked base w = IsWhole w.balance × (w.balance ≡ base +ℤ net w.entries)

IsBooked-credit :
    (fresh : ℕ → String) (prefix : String) (source : EntrySource) (base amount : ℤ) (w : Wallet)
    → IsBooked base w
    → IsWhole amount
    → IsBooked base (book fresh prefix credit source amount (round_money (w.balance +ℤ amount)) w)
IsBooked-credit fresh prefix source base amount w h k =
    let whole = +ℤ-IsWhole w.balance amount h.0 k in
    rw (round_money_whole (w.balance +ℤ amount) whole)
      (whole, rw (net-concat w.entries) (ap (λ b. b +ℤ amount) h.1 ∙ omega int_laws))

IsBooked-debit :
    (fresh : ℕ → String) (prefix : String) (source : EntrySource) (base amount : ℤ) (w : Wallet)
    → IsBooked base w
    → IsWhole amount
    → IsBooked base (book fresh prefix debit source amount (round_money (w.balance -ℤ amount)) w)
IsBooked-debit fresh prefix source base amount w h k =
    let whole = -ℤ-IsWhole w.balance amount h.0 k in
    rw (round_money_whole (w.balance -ℤ amount) whole)
      (whole, rw (net-concat w.entries) (ap (λ b. b -ℤ amount) h.1 ∙ omega int_laws))

use_wallet-IsBooked :
    (fresh : ℕ → String) (diff base : ℤ) (w : Wallet) {w' : Wallet}
    → IsWhole diff
    → IsBooked base w
    → use_wallet fresh diff w ≡ ok w'
    → IsBooked base w'
unfolding use_wallet abs
use_wallet-IsBooked fresh diff base w k h e = elim (Bool-cases (ltb_ℤ (pos 0) diff)) [
  | inl more ↦ elim (Bool-cases (ltb_ℤ w.balance diff)) [
    | inl short ↦ absurd_err (rw (more, short, use_wallet) at e)
    | inr enough ↦
        subst (IsBooked base) (ok_inj (rw (more, enough, use_wallet) at e))
          (IsBooked-debit fresh "wtx-deb-" invoice_payment base diff w h k)
  ]
  | inr rest ↦ elim (Bool-cases (ltb_ℤ diff (pos 0))) [
    | inl less ↦
        subst (IsBooked base) (ok_inj (rw (rest, less, use_wallet) at e))
          (IsBooked-credit fresh "wtx-crd-" refund base (abs diff) w h (omega (arith, k)))
    | inr same ↦ subst (IsBooked base) (ok_inj (rw (rest, same, use_wallet) at e)) h
  ]
]

-- The amounts that a payment adds to the wallet are whole paise.
abbrev pub HasWholeExtra : Payment → Type 0
HasWholeExtra p = IsWhole p.extra_amount

credit_payment-IsBooked :
    (fresh : ℕ → String) (base : ℤ) (p : Payment) (w : Wallet)
    → HasWholeExtra p
    → IsBooked base w
    → IsBooked base (credit_payment fresh p w).0
unfolding credit_payment
credit_payment-IsBooked fresh base p w k h = elim (Bool-cases (is_stamped p)) [
  | inl e ↦ rw (e, credit_payment) h
  | inr e ↦ elim (Bool-cases (has_extra p)) [
    | inl x ↦
        rw (e, x, credit_payment)
          (IsBooked-credit fresh "wtx-pay-" invoice_payment base p.extra_amount w h k)
    | inr x ↦ rw (e, x, credit_payment) h
  ]
]

credit_payments-IsBooked :
    (fresh : ℕ → String) (base : ℤ) (ps : List Payment) (w : Wallet)
    → All HasWholeExtra ps
    → IsBooked base w
    → IsBooked base (credit_payments fresh ps w).0
unfolding credit_payments
credit_payments-IsBooked fresh base [] w k h = h
credit_payments-IsBooked fresh base (p ∷ ps) w k h =
    credit_payments-IsBooked fresh base ps (credit_payment fresh p w).0 k.1
      (credit_payment-IsBooked fresh base p w k.0 h)

reverse_payment-IsBooked :
    (fresh : ℕ → String) (new : List Payment) (base : ℤ) (p : Payment) (w : Wallet) {w' : Wallet}
    → HasWholeExtra p
    → IsBooked base w
    → reverse_payment fresh new p w ≡ ok w'
    → IsBooked base w'
unfolding reverse_payment
reverse_payment-IsBooked fresh new base p w k h e =
    elim (Bool-cases (not (still_present p new) && is_stamped p)) [
      | inr kept ↦ subst (IsBooked base) (ok_inj (rw (kept, reverse_payment) at e)) h
      | inl gone ↦ elim (Bool-cases (has_extra p)) [
        | inr none_booked ↦
            subst (IsBooked base) (ok_inj (rw (gone, none_booked, reverse_payment) at e)) h
        | inl x ↦ elim (Bool-cases (ltb_ℤ w.balance p.extra_amount)) [
          | inl short ↦ absurd_err (rw (gone, x, short, reverse_payment) at e)
          | inr enough ↦
              subst (IsBooked base) (ok_inj (rw (gone, x, enough, reverse_payment) at e))
                (IsBooked-debit fresh "wtx-rev-" refund base p.extra_amount w h k)
        ]
      ]
    ]

reverse_payments-IsBooked :
    (fresh : ℕ → String) (new : List Payment) (base : ℤ) (ps : List Payment) (w : Wallet)
    {w' : Wallet}
    → All HasWholeExtra ps
    → IsBooked base w
    → reverse_payments fresh new ps w ≡ ok w'
    → IsBooked base w'
unfolding reverse_payments
reverse_payments-IsBooked fresh new base [] w k h e = subst (IsBooked base) (ok_inj e) h
reverse_payments-IsBooked fresh new base (p ∷ ps) w k h e =
    let (w1, first, rest) =
      >>=-eq-ok (reverse_payment fresh new p w) (reverse_payments fresh new ps) e in
    reverse_payments-IsBooked fresh new base ps w1 k.1
      (reverse_payment-IsBooked fresh new base p w k.0 h first) rest

wallet_used_diff-IsWhole :
    (old : Option Invoice) (new : Invoice) → IsWhole (wallet_used_diff old new)
unfolding wallet_used_diff
wallet_used_diff-IsWhole old new = round_money-IsWhole _

-- Where the balance and the extra amounts are whole paise, the ledger rows that a successful save
-- writes add up to exactly the change of the balance: no money appears or is lost.
pub sync_wallet-net :
    (fresh : ℕ → String) (old : Option Invoice) (new : Invoice) (balance : ℤ) {s : Synced}
    → IsWhole balance
    → All HasWholeExtra (payments_of old)
    → All HasWholeExtra (payments_of (some new))
    → sync_wallet fresh old new (record { balance = balance; entries = [] }) ≡ ok s
    → s.wallet.balance ≡ balance +ℤ net s.wallet.entries
unfolding net
sync_wallet-net fresh old new balance whole olds news e =
    let (used, first, second, _) = sync_steps fresh old new _ e in
    let ps = payments_of (some new) in
    (reverse_payments-IsBooked fresh (credit_payments fresh ps used).1 balance (payments_of old)
      (credit_payments fresh ps used).0 olds
      (credit_payments-IsBooked fresh balance ps used news (
        use_wallet-IsBooked fresh (wallet_used_diff old new) balance _
          (wallet_used_diff-IsWhole old new) (whole, omega int_laws) first))
      second).1
