-- ===== src/Store/Ledger.antt =====
-- The double-entry ledger of coordinator/store/postgres.go: accounts, entries and balances.
pub mod Sums
pub mod Posting
use idlegrid.Prelude.{
  ℕ, ◌≡◌, Bool, true, false, Option, none, some, List, [], ◌∷◌, String, ite, ℤ, pos, ◌+ℤ◌, ◌-ℤ◌,
  ltb_ℤ, if◌then◌else◌, lookup, ℕ_discrete, string_discrete, arith,
}
use idlegrid.Store.Tables.{
  Db, User, Account, Kind, provider_earnings, platform_revenue, developer_balance, EntryKey,
  EntryType, RefType, Account-discrete, EntryKey-discrete, Kind-discrete, EntryType-discrete,
  RefType-discrete,
}
use idlegrid.Store.Tx.{
  Tx, Error, Result, ok, err, constraint, platform_user_missing, ◌>>=◌, ◌>>◌, pure, raise,
  statement, query, execute,
}

abbrev pub platform_email : String
platform_email = "platform@idlegrid.system"

-- SELECT id FROM users WHERE email = …, a unique column.
unfoldable pub user_by_email : String → List (ℕ × User) → Option ℕ
user_by_email email [] = none
user_by_email email ((id, u) ∷ us) =
    ite (string_discrete u.email email) (some id) (user_by_email email us)

unfoldable pub has_account : Account → List Account → Bool
unfolding Account-discrete
has_account a [] = false
has_account a (b ∷ bs) = ite (Account-discrete b a) true (has_account a bs)

-- INSERT INTO accounts … ON CONFLICT (user_id, kind) DO UPDATE … RETURNING id, which the foreign key
-- on users refuses for an unknown user.
unfoldable pub upsert_account : Account → Db → Result (Account × Db)
unfolding has_account
upsert_account a db = elim (lookup ℕ_discrete a.owner db.users) [
  | none ↦ err constraint
  | some _ ↦
      ok (a, if has_account a db.accounts then db else record db { accounts = a ∷ db.accounts })
]

abbrev platform_account : Kind → Option ℕ → Tx Account
platform_account kind none = raise platform_user_missing
platform_account kind (some p) = statement (upsert_account (record { owner = p; kind = kind }))

-- `ensureAccountTx`: the account of a user, or of the platform user if none is given.
unfoldable pub ensure_account : Option ℕ → Kind → Tx Account
unfolding upsert_account user_by_email statement query
ensure_account (some user) kind = statement (upsert_account (record { owner = user; kind = kind }))
ensure_account none kind = do
  platform ← query (λ db. user_by_email platform_email db.users)
  platform_account kind platform

-- INSERT INTO ledger_entries … ON CONFLICT DO NOTHING.
unfoldable pub add_entry : EntryKey → ℤ → List (EntryKey × ℤ) → List (EntryKey × ℤ)
add_entry k amount l = elim (lookup EntryKey-discrete k l) [ none ↦ (k, amount) ∷ l | some _ ↦ l ]

unfoldable pub post_entry : EntryKey → ℤ → Db → Db
unfolding add_entry
post_entry k amount db = record db { ledger = add_entry k amount db.ledger }

-- The sum of the entries of one account, and of all.
unfoldable pub balance : Account → List (EntryKey × ℤ) → ℤ
unfolding Account-discrete
balance a [] = pos 0
balance a (e ∷ es) = ite (Account-discrete e.0.account a) (e.1 +ℤ balance a es) (balance a es)

unfoldable pub total : List (EntryKey × ℤ) → ℤ
total [] = pos 0
total (e ∷ es) = e.1 +ℤ total es

-- The user columns that `AccountBalance` sums over: a user's account of a kind, or, where no user is
-- given, every account of the kind.
abbrev pub matches_account : Option ℕ → Kind → Account → Bool
matches_account none kind a = ite (Kind-discrete a.kind kind) true false
matches_account (some u) kind a =
    ite (Account-discrete a (record { owner = u; kind = kind })) true false

unfoldable pub sum_matching : Option ℕ → Kind → List (EntryKey × ℤ) → ℤ
sum_matching user kind [] = pos 0
sum_matching user kind (e ∷ es) =
    if matches_account user kind e.0.account
    then e.1 +ℤ sum_matching user kind es
    else sum_matching user kind es

-- `AccountBalance` of the Postgres store.
unfoldable pub account_balance : Option ℕ → Kind → Tx ℤ
unfolding sum_matching query
account_balance user kind = query λ db. sum_matching user kind db.ledger

-- The pair of statements that every posting makes: `ensureAccountTx`, then the entry.
unfoldable pub post_to : Option ℕ → Kind → EntryType → RefType → String → ℤ → Tx (Unit {0})
unfolding ensure_account post_entry execute
post_to user kind entry_type ref_type ref_id amount = do
  a ← ensure_account user kind
  execute (
      post_entry
        (record { account = a; entry_type = entry_type; ref_type = ref_type; ref_id = ref_id })
        amount)
