-- ===== src/Store/Ledger/Posting.antt =====
-- What a posting does to the database, for any driver faults.
use idlegrid.Prelude.{
  ℕ, ◌≡◌, ◌≢◌, refl, ap, ◌∙◌, Option, none, some, List, [], ◌∷◌, ◌++◌, String, ℤ, inl, inr,
  Option-cases, lookup, ℕ_discrete, arith, if◌then◌else◌,
}
use idlegrid.Store.Tables.{Db, User, Account, Kind, EntryKey, EntryType, RefType, EntryKey-discrete}
use idlegrid.Store.Tx.{ok, Runs, Runs-bind, Runs-statement, Runs-query, Runs-execute, statement}
use idlegrid.Store.Ledger.{
  platform_email, user_by_email, has_account, upsert_account, ensure_account, post_entry, post_to,
  add_entry,
}

-- The user whose account a posting goes to exists, and is the platform user where none is named.
abbrev pub Resolves : Option ℕ → List (ℕ × User) → ℕ → Type 0
Resolves (some u) users p = (u ≡ p) × (lookup ℕ_discrete p users ≢ none)
Resolves none users p =
    (user_by_email platform_email users ≡ some p) × (lookup ℕ_discrete p users ≢ none)

-- The database with more accounts and with new entries, and nothing else changed.
abbrev pub Posts : List (EntryKey × ℤ) → Db → Db → Type 0
Posts es db db' = db' ≡ record db { accounts = db'.accounts; ledger = es ++ db.ledger }

abbrev pub account_of : ℕ → Kind → Account
account_of p kind = record { owner = p; kind = kind }

upsert_account_lem :
    (a : Account) (db : Db)
    → lookup ℕ_discrete a.owner db.users ≢ none
    → (db' : Db) × (upsert_account a db ≡ ok (a, db')) × Posts [] db db'
unfolding upsert_account
upsert_account_lem a db known = elim (Option-cases (lookup ℕ_discrete a.owner db.users)) [
  | inl e ↦ absurd (known e)
  | inr (u, e) ↦ (
    if has_account a db.accounts then db else record db { accounts = a ∷ db.accounts },
    rw (e, upsert_account),
    ground arith,
  )
]

unfoldable pub Opened : Account → Db → Account → Db → Type 0
Opened a db a' db' = (a' ≡ a) × Posts [] db db'

upsert-Runs :
    (a : Account) (db : Db)
    → lookup ℕ_discrete a.owner db.users ≢ none
    → Runs (statement (upsert_account a)) db (Opened a db)
unfolding Opened
upsert-Runs a db known =
    let (db', e, posts) = upsert_account_lem a db known in
    Runs-statement (upsert_account a) a db' e (refl, posts)

pub ensure_account-Runs :
    (user : Option ℕ) (kind : Kind) (db : Db) (p : ℕ)
    → Resolves user db.users p
    → Runs (ensure_account user kind) db (Opened (account_of p kind) db)
unfolding ensure_account
ensure_account-Runs (some u) kind db p h = rw h.0 (upsert-Runs (account_of p kind) db h.1)
ensure_account-Runs none kind db p h =
    Runs-bind (λ o d. (o ≡ some p) × (d ≡ db)) (Runs-query _ (h.0, refl))
      (λ o d e. rw (e.0, e.1) (upsert-Runs (account_of p kind) db h.1))

-- No entry of this type for this reference, in any account.
abbrev pub IsFresh : EntryType → RefType → String → List (EntryKey × ℤ) → Type 0
IsFresh entry_type ref_type ref_id l =
    (a : Account)
    → lookup EntryKey-discrete
        (record { account = a; entry_type = entry_type; ref_type = ref_type; ref_id = ref_id }) l
      ≡ none

abbrev pub entry_key : ℕ → Kind → EntryType → RefType → String → EntryKey
entry_key p kind entry_type ref_type ref_id = record {
  account = account_of p kind;
  entry_type = entry_type;
  ref_type = ref_type;
  ref_id = ref_id;
}

pub add_entry_fresh :
    (k : EntryKey) (amount : ℤ) (l : List (EntryKey × ℤ))
    → lookup EntryKey-discrete k l ≡ none
    → add_entry k amount l ≡ (k, amount) ∷ l
unfolding add_entry
add_entry_fresh k amount l e = rw (e, add_entry)

pub add_entry_old :
    (k : EntryKey) (amount : ℤ) (l : List (EntryKey × ℤ))
    → lookup EntryKey-discrete k l ≢ none
    → add_entry k amount l ≡ l
unfolding add_entry
add_entry_old k amount l h = elim (Option-cases (lookup EntryKey-discrete k l)) [
  | inl e ↦ absurd (h e)
  | inr (v, e) ↦ rw (e, add_entry)
]

post_entry_lem :
    (k : EntryKey) (amount : ℤ) (db : Db)
    → lookup EntryKey-discrete k db.ledger ≡ none
    → post_entry k amount db ≡ record db { ledger = (k, amount) ∷ db.ledger }
unfolding post_entry
post_entry_lem k amount db e =
    ap (λ (l : List (EntryKey × ℤ)). record db { ledger = l })
      (add_entry_fresh k amount db.ledger e)

posted :
    (k : EntryKey) (amount : ℤ) (db d : Db)
    → lookup EntryKey-discrete k db.ledger ≡ none
    → Posts [] db d
    → Posts ((k, amount) ∷ []) db (post_entry k amount d)
posted k amount db d fresh e =
    let same : d.ledger ≡ db.ledger = ap (λ (x : Db). x.ledger) e in
    rw (post_entry_lem k amount d (ap (lookup EntryKey-discrete k) same ∙ fresh)) (ground arith)

-- A posting with a fresh key adds exactly its entry.
pub post_to-Runs :
    (user : Option ℕ) (kind : Kind) (entry_type : EntryType) (ref_type : RefType) (ref_id : String)
    (amount : ℤ) (db : Db) (p : ℕ)
    → Resolves user db.users p
    → lookup EntryKey-discrete (entry_key p kind entry_type ref_type ref_id) db.ledger ≡ none
    → Runs
        (post_to user kind entry_type ref_type ref_id amount)
        db
        (λ _ d. Posts ((entry_key p kind entry_type ref_type ref_id, amount) ∷ []) db d)
unfolding post_to Opened
post_to-Runs user kind entry_type ref_type ref_id amount db p h fresh =
    Runs-bind (Opened (account_of p kind) db) (ensure_account-Runs user kind db p h)
      (λ a d e. Runs-execute _ (rw e.0 (posted _ amount db d fresh e.1)))
