-- ===== src/Wallet/Resync.antt =====
-- Saving an invoice again, as the last save left it, moves no money
-- (src/modules/invoices/wallet-sync.service.ts).
use mathlib.Core.Path.{subst}
use text.Mathlib.TextPositions.{eq_refl}
use Prim.Native.String.append
use Prim.Native.String.{◌++◌ as append}
use my_detail_os_backend.Prelude.{
  ℕ, String, true, false, not, ◌&&◌, List, [], ◌∷◌, Option, none, some, ◌≡◌, refl, ap, sym, ◌∙◌,
  inl, inr, arith, All, Bool-cases, Option-cases, get_or, is_empty,
}
use my_detail_os_backend.Prelude.Int.{ℤ, pos, ◌-ℤ◌}
use my_detail_os_backend.Errors.{ok, ◌>>=◌}
use my_detail_os_backend.Money.{round_money}
use my_detail_os_backend.Wallet.{
  Payment, Invoice, Wallet, Synced, wallet_used_diff, use_wallet, is_stamped, has_extra,
  credit_payment, credit_payments, still_present, reverse_payment, reverse_payments, payments_of,
  synced, settle_payments, sync_wallet,
}
use my_detail_os_backend.Wallet.Balance.{sync_steps}

-- A payment that the loop over the new payments has nothing to do for.
abbrev IsSettled : Payment → Type 0
IsSettled p = (not (is_stamped p) && has_extra p) ≡ false

is_empty-append : (s t : String) → is_empty s ≡ false → is_empty (append s t) ≡ false
is_empty-append String.[] t h = cc
is_empty-append (String.◌∷◌ c s) t h = rw (append.cons c s t)

stamp-filled : (x : String) → is_empty (append "wtx-pay-" x) ≡ false
stamp-filled x = is_empty-append "wtx-pay-" x refl

credit_payment-IsSettled :
    (fresh : ℕ → String) (p : Payment) (w : Wallet) → IsSettled (credit_payment fresh p w).1
unfolding credit_payment
credit_payment-IsSettled fresh p w = elim (Bool-cases (is_stamped p)) [
  | inl e ↦ rw (e, credit_payment) (rw e)
  | inr e ↦ elim (Bool-cases (has_extra p)) [
    | inl x ↦ rw (e, x, credit_payment) (rw stamp-filled)
    | inr x ↦ rw (e, x, credit_payment) (rw (e, x))
  ]
]

credit_payments-IsSettled :
    (fresh : ℕ → String) (ps : List Payment) (w : Wallet)
    → All IsSettled (credit_payments fresh ps w).1
unfolding credit_payments
credit_payments-IsSettled fresh [] w = tt
credit_payments-IsSettled fresh (p ∷ ps) w = (
  credit_payment-IsSettled fresh p w,
  credit_payments-IsSettled fresh ps (credit_payment fresh p w).0,
)

credit_settled :
    (fresh : ℕ → String) (ps : List Payment) (w : Wallet)
    → All IsSettled ps
    → credit_payments fresh ps w ≡ (w, ps)
unfolding credit_payments credit_payment
credit_settled fresh [] w h = refl
credit_settled fresh (p ∷ ps) w h =
    let head : credit_payment fresh p w ≡ (w, p) = ground (arith, h.0) in
    rw head (rw (credit_settled fresh ps w h.1))

reverse_present :
    (fresh : ℕ → String) (new ps : List Payment) (w : Wallet)
    → All (λ p. still_present p new ≡ true) ps
    → reverse_payments fresh new ps w ≡ ok w
unfolding reverse_payments reverse_payment
reverse_present fresh new [] w h = refl
reverse_present fresh new (p ∷ ps) w h = rw h.0 (reverse_present fresh new ps w h.1)

All-present_cons :
    (p : Payment) (new ps : List Payment)
    → All (λ q. still_present q new ≡ true) ps
    → All (λ q. still_present q (p ∷ new) ≡ true) ps
All-present_cons p new [] h = tt
All-present_cons p new (q ∷ qs) h = (ground (arith, h.0), All-present_cons p new qs h.1)

All-present : (ps : List Payment) → All (λ p. still_present p ps ≡ true) ps
All-present [] = tt
All-present (p ∷ ps) = (rw (eq_refl p.id), All-present_cons p ps ps (All-present ps))

same_amount : (a : ℤ) → round_money (a -ℤ a) ≡ pos 0
unfolding round_money ◌-ℤ◌
same_amount a = ground arith

restamp :
    (o : Option (List Payment)) (ps : List Payment)
    → ps ≡ get_or o []
    → elim o [ none ↦ none | some _ ↦ some ps ] ≡ o
restamp none ps e = refl
restamp (some qs) ps e = ap some e

synced_again :
    (i : Invoice) (w : Wallet)
    → synced i (payments_of (some i)) w ≡ record { wallet = w; invoice = i }
synced_again i w =
    ap (λ (ps : Option (List Payment)). record { wallet = w; invoice = record i { payments = ps } })
      (restamp i.payments (payments_of (some i)) refl)

-- The payments that a save leaves are settled.
synced-IsSettled :
    (fresh : ℕ → String) (new : Invoice) (w w' : Wallet)
    → All IsSettled (
        payments_of
          (some (synced new (credit_payments fresh (payments_of (some new)) w).1 w').invoice))
synced-IsSettled fresh new w w' = elim (Option-cases new.payments) [
  | inl e ↦ rw e tt
  | inr (ps, e) ↦ rw e (credit_payments-IsSettled fresh (payments_of (some new)) w)
]

-- A call on settled payments, over the same invoice.
settled_again :
    (fresh : ℕ → String) (i : Invoice) (w : Wallet)
    → All IsSettled (payments_of (some i))
    → sync_wallet fresh (some i) i w ≡ ok (record { wallet = w; invoice = i })
unfolding sync_wallet settle_payments wallet_used_diff use_wallet
settled_again fresh i w h =
    let ps = payments_of (some i) in
    rw same_amount (
      ap
        (λ (c : Wallet × List Payment).
          reverse_payments fresh c.1 ps c.0 >>= (λ d. ok (synced i c.1 d)))
        (credit_settled fresh ps w h)
      ∙ rw (reverse_present fresh ps ps w (All-present ps)) (ap ok (synced_again i w)))

-- An invoice that a save has synced, saved again over itself, books nothing: the wallet, its ledger
-- and the invoice stay as they are.
pub sync_wallet_again :
    (fresh fresh' : ℕ → String) (old : Option Invoice) (new : Invoice) (w w' : Wallet) {s : Synced}
    → sync_wallet fresh old new w ≡ ok s
    → sync_wallet fresh' (some s.invoice) s.invoice w'
      ≡ ok (record { wallet = w'; invoice = s.invoice })
sync_wallet_again fresh fresh' old new w w' {s} e =
    let (used, _, _, left) = sync_steps fresh old new w e in
    settled_again fresh' s.invoice w' (
      subst (λ x. All IsSettled (payments_of (some x))) (sym left)
        (synced-IsSettled fresh new used s.wallet))
