-- ===== src/Store/Tx.antt =====
-- A call of the database: each statement may be refused by a constraint, or fail in the driver, which
-- a list of faults says statement by statement (no more faults where it ends).
pub mod Quiet
pub mod Under
pub mod Keeps
pub mod Cases
pub mod Yields
use idlegrid.Prelude.{◌≡◌, refl, Bool, true, false, List, [], ◌∷◌, String}
use idlegrid.Store.Tables.{Db}

pub data Error : Type 0 where
  not_found driver constraint platform_user_missing : Error
  usage_event_missing : String → Error

pub data Result (A : Type 0) : Type 0 where
  ok : A → Result A
  err : Error → Result A

abbrev pub Outcome : Type 0 → Type 0
Outcome A = Result A × List Bool × Db

abbrev pub Tx : Type 0 → Type 0
Tx A = List Bool → Db → Outcome A

abbrev pub next : {A B : Type 0} → Outcome A → (A → Tx B) → Outcome B
next (ok a, fs, db) f = f a fs db
next (err e, fs, db) f = (err e, fs, db)

infixl 5 ◌>>=◌ ◌>>◌
unfoldable pub ◌>>=◌ : {A B : Type 0} → Tx A → (A → Tx B) → Tx B
◌>>=◌ m f fs db = next (m fs db) f

abbrev pub ◌>>◌ : {B : Type 0} → Tx (Unit {0}) → Tx B → Tx B
m >> k = m >>= λ _. k

unfoldable pub pure : {A : Type 0} → A → Tx A
pure a fs db = (ok a, fs, db)

unfoldable pub raise : {A : Type 0} → Error → Tx A
raise e fs db = (err e, fs, db)

abbrev pub outcome : {A : Type 0} → Result (A × Db) → List Bool → Db → Outcome A
outcome (ok (a, db')) fs db = (ok a, fs, db')
outcome (err e) fs db = (err e, fs, db)

-- One statement.
unfoldable pub statement : {A : Type 0} → (Db → Result (A × Db)) → Tx A
statement f [] db = outcome (f db) [] db
statement f (true ∷ fs) db = (err driver, fs, db)
statement f (false ∷ fs) db = outcome (f db) fs db

-- A SELECT, and an UPDATE, INSERT or DELETE that no constraint refuses.
unfoldable pub query : {A : Type 0} → (Db → A) → Tx A
unfolding statement
query f = statement λ db. ok (f db, db)

unfoldable pub execute : (Db → Db) → Tx (Unit {0})
unfolding statement
execute f = statement λ db. ok (tt, f db)

-- Begin and Commit reach the database too.
abbrev pub begin_tx : Tx (Unit {0})
begin_tx = execute λ db. db

abbrev pub commit : Tx (Unit {0})
commit = execute λ db. db

abbrev pub rolled_back : {A : Type 0} → Outcome A → Db → Outcome A
rolled_back (ok a, fs, db') db = (ok a, fs, db')
rolled_back (err e, fs, db') db = (err e, fs, db)

-- A transaction: after an error, the deferred Rollback leaves the database as it was.
unfoldable pub transact : {A : Type 0} → Tx A → Tx A
transact m fs db = rolled_back ((begin_tx >> m) fs db) db

-- Some statement that is still to come fails in the driver.
abbrev pub IsFaulty : List Bool → Type 0
IsFaulty [] = ⊥
IsFaulty (true ∷ fs) = Unit
IsFaulty (false ∷ fs) = IsFaulty fs

abbrev pub Post : {A : Type 0} → (A → Db → Type 0) → List Bool → Outcome A → Type 0
Post Q fs (ok a, fs', db') = Q a db' × (IsFaulty fs' → IsFaulty fs)
Post Q fs (err e, fs', db') = IsFaulty fs

-- Total correctness: whatever faults come, the call returns a result and a database that satisfy the
-- postcondition, or an error where the driver failed. With no fault it returns a result.
pub record Runs {A : Type 0} (m : Tx A) (db : Db) (Q : A → Db → Type 0) : Type 0 where
  pub from : (fs : List Bool) → Post Q fs (m fs db)

pub weaken :
    {A : Type 0} (Q : A → Db → Type 0) (fs fs' : List Bool) (r : Outcome A)
    → (IsFaulty fs' → IsFaulty fs)
    → Post Q fs' r
    → Post Q fs r
weaken Q fs fs' (ok a, gs, db) w p = (p.0, λ h. w (p.1 h))
weaken Q fs fs' (err e, gs, db) w p = w p

next-Post :
    {A B : Type 0} (Q : A → Db → Type 0) (R : B → Db → Type 0) (fs : List Bool) (r : Outcome A)
    (f : A → Tx B)
    → Post Q fs r
    → ((a : A) (db : Db) → Q a db → Runs (f a) db R)
    → Post R fs (next r f)
next-Post Q R fs (ok a, fs', db) f p k = weaken R fs fs' (f a fs' db) p.1 ((k a db p.0).from fs')
next-Post Q R fs (err e, fs', db) f p k = p

pub Runs-bind :
    {A B : Type 0} (Q : A → Db → Type 0) {m : Tx A} {f : A → Tx B} {db : Db} {R : B → Db → Type 0}
    → Runs m db Q
    → ((a : A) (db' : Db) → Q a db' → Runs (f a) db' R)
    → Runs (m >>= f) db R
unfolding ◌>>=◌
Runs-bind Q {m} {f} {db} {R} h k = record {
  from = λ fs. next-Post Q R fs (m fs db) f (h.from fs) k;
}

pub Runs-pure : {A : Type 0} {Q : A → Db → Type 0} (a : A) {db : Db} → Q a db → Runs (pure a) db Q
unfolding pure
Runs-pure a q = record { from = λ fs. (q, λ h. h) }

statement-Post :
    {A : Type 0} (Q : A → Db → Type 0) (f : Db → Result (A × Db)) (db : Db) (a : A) (db' : Db)
    → f db ≡ ok (a, db')
    → Q a db'
    → (fs : List Bool) → Post Q fs (statement f fs db)
unfolding statement
statement-Post Q f db a db' e q [] = rw e (q, λ h. h)
statement-Post Q f db a db' e q (true ∷ fs) = tt
statement-Post Q f db a db' e q (false ∷ fs) = rw e (q, λ h. h)

pub Runs-statement :
    {A : Type 0} {Q : A → Db → Type 0} (f : Db → Result (A × Db)) {db : Db} (a : A) (db' : Db)
    → f db ≡ ok (a, db')
    → Q a db'
    → Runs (statement f) db Q
Runs-statement {A} {Q} f {db} a db' e q = record { from = statement-Post Q f db a db' e q }

pub Runs-query :
    {A : Type 0} {Q : A → Db → Type 0} (f : Db → A) {db : Db} → Q (f db) db → Runs (query f) db Q
unfolding query
Runs-query f {db} q = Runs-statement (λ d. ok (f d, d)) (f db) db refl q

pub Runs-execute :
    {Q : Unit {0} → Db → Type 0} (f : Db → Db) {db : Db} → Q tt (f db) → Runs (execute f) db Q
unfolding execute
Runs-execute f {db} q = Runs-statement (λ d. ok (tt, f d)) tt (f db) refl q

rolled_back-Post :
    {A : Type 0} (Q : A → Db → Type 0) (fs : List Bool) (r : Outcome A) (db : Db)
    → Post Q fs r
    → Post Q fs (rolled_back r db)
rolled_back-Post Q fs (ok a, fs', db') db p = p
rolled_back-Post Q fs (err e, fs', db') db p = p

begun :
    {A : Type 0} {Q : A → Db → Type 0} {m : Tx A} {db : Db}
    → Runs m db Q
    → Runs (begin_tx >> m) db Q
begun {A} {Q} {m} {db} h = Runs-bind (λ _ d. d ≡ db) (Runs-execute _ refl) (λ _ d e. rw e h)

pub Runs-transact :
    {A : Type 0} {Q : A → Db → Type 0} {m : Tx A} {db : Db} → Runs m db Q → Runs (transact m) db Q
unfolding transact
Runs-transact {A} {Q} {m} {db} h = record {
  from = λ fs. rolled_back-Post Q fs ((begin_tx >> m) fs db) db ((begun h).from fs);
}

-- An error of a transaction leaves the database as it was.
abbrev pub Unchanged : {A : Type 0} → Db → Outcome A → Type 0
Unchanged db (ok a, fs, db') = Unit
Unchanged db (err e, fs, db') = db' ≡ db

rolled_back-Unchanged : {A : Type 0} (r : Outcome A) (db : Db) → Unchanged db (rolled_back r db)
rolled_back-Unchanged (ok a, fs', db') db = tt
rolled_back-Unchanged (err e, fs', db') db = refl

transact-Unchanged :
    {A : Type 0} (m : Tx A) (fs : List Bool) (db : Db) → Unchanged db (transact m fs db)
unfolding transact
transact-Unchanged m fs db = rolled_back-Unchanged ((begin_tx >> m) fs db) db

-- A call whose error the program drops: it goes on with a default.
abbrev pub recovered : {A : Type 0} → A → Outcome A → Outcome A
recovered d (ok a, fs, db) = (ok a, fs, db)
recovered d (err e, fs, db) = (ok d, fs, db)

unfoldable pub recover : {A : Type 0} → A → Tx A → Tx A
recover d m fs db = recovered d (m fs db)

recover-query-Post :
    {A : Type 0} (Q : A → Db → Type 0) (d : A) (f : Db → A) (db : Db)
    → Q (f db) db
    → Q d db
    → (fs : List Bool) → Post Q fs (recover d (query f) fs db)
unfolding recover query statement
recover-query-Post Q d f db q r [] = (q, λ h. h)
recover-query-Post Q d f db q r (true ∷ fs) = (r, λ h. tt)
recover-query-Post Q d f db q r (false ∷ fs) = (q, λ h. h)

pub Runs-recover-query :
    {A : Type 0} {Q : A → Db → Type 0} (d : A) (f : Db → A) {db : Db}
    → Q (f db) db
    → Q d db
    → Runs (recover d (query f)) db Q
Runs-recover-query {A} {Q} d f {db} q r = record { from = recover-query-Post Q d f db q r }

Post-mono :
    {A : Type 0} (Q R : A → Db → Type 0) (fs : List Bool) (r : Outcome A)
    → ((a : A) (db : Db) → Q a db → R a db)
    → Post Q fs r
    → Post R fs r
Post-mono Q R fs (ok a, fs', db) k p = (k a db p.0, p.1)
Post-mono Q R fs (err e, fs', db) k p = p

pub Runs-mono :
    {A : Type 0} (Q : A → Db → Type 0) {R : A → Db → Type 0} {m : Tx A} {db : Db}
    → Runs m db Q
    → ((a : A) (db : Db) → Q a db → R a db)
    → Runs m db R
Runs-mono Q {R} {m} {db} h k = record { from = λ fs. Post-mono Q R fs (m fs db) k (h.from fs) }
