-- ===== src/Parties/Net.antt =====
-- What a running balance adds up to (`running` and the sorting of src/lib/party-ledger.ts).
use my_detail_os_backend.Prelude.{
  List, [], ◌∷◌, ◌++◌, get_or, All, leb, ◌≡◌, inl, inr, refl, ap, sym, ◌∙◌, Bool-cases,
}
use my_detail_os_backend.Prelude.Int.{ℤ, pos, ◌+ℤ◌, ◌-ℤ◌, eq_of_parts, int_laws}
use my_detail_os_backend.Money.{IsWhole, round_money_whole, +ℤ-IsWhole, -ℤ-IsWhole}
use my_detail_os_backend.Parties.Statement.{
  Calendar, Posting, running, next_balance, insert_entry, sort_entries,
}

-- What an entry adds to the balance.
abbrev pub amount_of : Posting → ℤ
amount_of e = get_or e.line.debit (pos 0) -ℤ get_or e.line.credit (pos 0)

-- What entries add to the balance, in any order.
unfoldable pub net : List Posting → ℤ
net [] = pos 0
net (e ∷ es) = amount_of e +ℤ net es

-- Whole paise on both sides.
abbrev pub IsWholeEntry : Posting → Type 0
IsWholeEntry e = IsWhole (get_or e.line.debit (pos 0)) × IsWhole (get_or e.line.credit (pos 0))

pub +ℤ_swap : (a b c : ℤ) → a +ℤ (b +ℤ c) ≡ b +ℤ (a +ℤ c)
+ℤ_swap a b c = eq_of_parts _ _ (omega (int_laws))

pub +ℤ_assoc : (a b c : ℤ) → (a +ℤ b) +ℤ c ≡ a +ℤ (b +ℤ c)
+ℤ_assoc a b c = eq_of_parts _ _ (omega (int_laws))

pub +ℤ-sub : (a d c n : ℤ) → ((a +ℤ d) -ℤ c) +ℤ n ≡ a +ℤ ((d -ℤ c) +ℤ n)
+ℤ-sub a d c n = eq_of_parts _ _ (omega (int_laws))

pub +ℤ_zero : (a : ℤ) → a +ℤ pos 0 ≡ a
+ℤ_zero a = eq_of_parts _ _ (omega (int_laws))

pub net-insert_entry :
    (calendar : Calendar) (e : Posting) (es : List Posting)
    → net (insert_entry calendar e es) ≡ amount_of e +ℤ net es
unfolding net insert_entry
net-insert_entry calendar e [] = refl
net-insert_entry calendar e (f ∷ fs) =
    elim (Bool-cases (leb (calendar.time e.at) (calendar.time f.at))) [
      | inl h ↦ rw h refl
      | inr h ↦
          rw (h, net-insert_entry calendar e fs) (+ℤ_swap (amount_of f) (amount_of e) (net fs))
    ]

pub net-sort_entries :
    (calendar : Calendar) (es : List Posting) → net (sort_entries calendar es) ≡ net es
unfolding net sort_entries
net-sort_entries calendar [] = refl
net-sort_entries calendar (e ∷ es) =
    net-insert_entry calendar e (sort_entries calendar es)
    ∙ ap (λ n. amount_of e +ℤ n) (net-sort_entries calendar es)

pub All-insert_entry :
    (calendar : Calendar) (e : Posting) (es : List Posting)
    → IsWholeEntry e
    → All IsWholeEntry es
    → All IsWholeEntry (insert_entry calendar e es)
unfolding insert_entry
All-insert_entry calendar e [] h k = (h, tt)
All-insert_entry calendar e (f ∷ fs) h k =
    elim (Bool-cases (leb (calendar.time e.at) (calendar.time f.at))) [
      | inl c ↦ rw c (h, k)
      | inr c ↦ rw c (k.0, All-insert_entry calendar e fs h k.1)
    ]

pub All-sort_entries :
    (calendar : Calendar) (es : List Posting)
    → All IsWholeEntry es
    → All IsWholeEntry (sort_entries calendar es)
unfolding sort_entries
All-sort_entries calendar [] h = tt
All-sort_entries calendar (e ∷ es) h =
    All-insert_entry calendar e (sort_entries calendar es) h.0 (All-sort_entries calendar es h.1)

-- On whole amounts the running balance loses nothing to rounding.
pub running-net :
    (balance : ℤ) (es : List Posting)
    → IsWhole balance
    → All IsWholeEntry es
    → (running balance es).1 ≡ balance +ℤ net es
unfolding net running next_balance
running-net balance [] h k = sym (+ℤ_zero balance)
running-net balance (e ∷ es) h k =
    let d = get_or e.line.debit (pos 0) in
    let c = get_or e.line.credit (pos 0) in
    let whole = -ℤ-IsWhole (balance +ℤ d) c (+ℤ-IsWhole balance d h k.0.0) k.0.1 in
    let exact = round_money_whole ((balance +ℤ d) -ℤ c) whole in
    ap (λ b. (running b es).1) exact
    ∙ running-net ((balance +ℤ d) -ℤ c) es whole k.1
    ∙ +ℤ-sub balance d c (net es)

pub net-append : (xs ys : List Posting) → net (xs ++ ys) ≡ net xs +ℤ net ys
unfolding net
net-append [] ys = eq_of_parts _ _ (omega (int_laws))
net-append (x ∷ xs) ys = rw (net-append xs ys) (sym (+ℤ_assoc (amount_of x) (net xs) (net ys)))
