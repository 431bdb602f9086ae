-- ===== src/Tests/Wallet.antt =====
-- Saved invoices at a concrete wallet (src/modules/invoices/wallet-sync.service.ts).
use my_detail_os_backend.Prelude.{
  arith, zero, suc, ℕ, String, true, [], ◌∷◌, Option, none, some, ◌≡◌, refl,
}
use my_detail_os_backend.Prelude.Int.{pos, ◌≤ℤ◌, ◌+ℤ◌, ◌-ℤ◌}
use my_detail_os_backend.Errors.{ok}
use my_detail_os_backend.Wallet.{
  Payment, Invoice, Wallet, Synced, debit, credit, invoice_payment, sync_wallet, credit_payment,
  credit_payments, reverse_payments, use_wallet, wallet_used_diff,
}
use my_detail_os_backend.Wallet.Balance.{sync_wallet_nonneg}
use my_detail_os_backend.Wallet.Ledger.{net, sync_wallet-net}
use my_detail_os_backend.Wallet.Resync.{sync_wallet_again}
use my_detail_os_backend.Money.{round_money}

abbrev fresh : ℕ → String
fresh zero = "a"
fresh (suc _) = "b"

-- A payment of which ten rupees more than due go to the wallet.
abbrev overpaid : Option String → Payment
overpaid stamp = record {
  id = "p1";
  wallet_transaction_id = stamp;
  add_extra_to_wallet = true;
  extra_amount = pos 100000;
}

abbrev invoice : Option String → Invoice
invoice stamp = record {
  customer_id = some "c1";
  wallet_amount_used = some (pos 200000);
  payments = some (overpaid stamp ∷ []);
}

abbrev before : Wallet
before = record { balance = pos 500000; entries = [] }

abbrev saved : Synced
saved = record {
  wallet = record {
    balance = pos 400000;
    entries =
        record {
          id = "wtx-deb-a";
          type = debit;
          amount = pos 200000;
          source = invoice_payment;
          balance_after = pos 300000;
        }
        ∷ record {
          id = "wtx-pay-b";
          type = credit;
          amount = pos 100000;
          source = invoice_payment;
          balance_after = pos 400000;
        }
        ∷ [];
  };
  invoice = invoice (some "wtx-pay-b");
}

saves : sync_wallet fresh none (invoice none) before ≡ ok saved
unfolding credit_payment credit_payments reverse_payments round_money sync_wallet use_wallet
    wallet_used_diff ◌+ℤ◌ ◌-ℤ◌
saves = refl

sync_wallet-net_example : pos 400000 ≡ pos 500000 +ℤ net saved.wallet.entries
sync_wallet-net_example =
    sync_wallet-net fresh none (invoice none) (pos 500000) refl tt (refl, tt) saves

sync_wallet_nonneg_example : pos 0 ≤ℤ pos 400000
sync_wallet_nonneg_example = sync_wallet_nonneg fresh none (invoice none) before (omega arith) saves

sync_wallet_again_example :
    sync_wallet fresh (some (invoice (some "wtx-pay-b"))) (invoice (some "wtx-pay-b")) before
    ≡ ok (record { wallet = before; invoice = invoice (some "wtx-pay-b") })
sync_wallet_again_example = sync_wallet_again fresh fresh none (invoice none) before before saves
