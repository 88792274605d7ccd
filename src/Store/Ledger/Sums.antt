-- ===== src/Store/Ledger/Sums.antt =====
-- Sums over the ledger.
use idlegrid.Prelude.{◌≡◌, List, [], ◌∷◌, ◌++◌, ℤ, ◌+ℤ◌, int_laws, if_pos, if_neg}
use idlegrid.Store.Tables.{Account, EntryKey, Account-discrete}
use idlegrid.Store.Ledger.{balance, total}

pub total-append : (es l : List (EntryKey × ℤ)) → total (es ++ l) ≡ total es +ℤ total l
unfolding total
total-append [] l = omega int_laws
total-append (e ∷ es) l = rw (total-append es l) (omega int_laws)

pub balance-append :
    (a : Account) (es l : List (EntryKey × ℤ)) → balance a (es ++ l) ≡ balance a es +ℤ balance a l
unfolding balance
balance-append a [] l = omega int_laws
balance-append a (e ∷ es) l = elim (Account-discrete e.0.account a) [
  | yes same ↦ rw (if_pos _ same, if_pos _ same, balance-append a es l) (omega int_laws)
  | no other ↦ rw (if_neg _ other, if_neg _ other) (balance-append a es l)
]
