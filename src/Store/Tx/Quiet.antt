-- ===== src/Store/Tx/Quiet.antt =====
-- Calls whose errors the program handles, and calls that meet no failure of the driver.
use idlegrid.Prelude.{◌≡◌, refl, Bool, true, false, List, [], ◌∷◌}
use idlegrid.Store.Tables.{Db}
use idlegrid.Store.Tx.{
  Result, ok, err, Tx, Outcome, next, ◌>>=◌, pure, statement, execute, query, outcome, recover,
  IsFaulty, Post, Runs, Unchanged,
}

abbrev pub attempted : {A : Type 0} → Outcome A → Outcome (Result A)
attempted (ok a, fs, db) = (ok (ok a), fs, db)
attempted (err e, fs, db) = (ok (err e), fs, db)

-- `if err := m; err != nil`: the error is a value.
unfoldable pub attempt : {A : Type 0} → Tx A → Tx (Result A)
attempt m fs db = attempted (m fs db)

abbrev QuietPost : {A : Type 0} → (A → Db → Type 0) → Outcome A → Type 0
QuietPost Q (ok a, fs, db) = Q a db × (IsFaulty fs → ⊥)
QuietPost Q (err e, fs, db) = ⊥

-- With no failure of the driver to come, the call returns a result that satisfies the postcondition.
pub record Quiet {A : Type 0} (m : Tx A) (db : Db) (Q : A → Db → Type 0) : Type 0 where
  pub from : (fs : List Bool) → (IsFaulty fs → ⊥) → QuietPost Q (m fs db)

pub of_Post :
    {A : Type 0} (Q : A → Db → Type 0) (fs : List Bool) (r : Outcome A)
    → (IsFaulty fs → ⊥)
    → Post Q fs r
    → QuietPost Q r
of_Post Q fs (ok a, fs', db) calm p = (p.0, λ h. calm (p.1 h))
of_Post Q fs (err e, fs', db) calm p = calm p

pub Quiet-Runs :
    {A : Type 0} {Q : A → Db → Type 0} {m : Tx A} {db : Db} → Runs m db Q → Quiet m db Q
Quiet-Runs {A} {Q} {m} {db} h = record { from = λ fs calm. of_Post Q fs (m fs db) calm (h.from fs) }

bound :
    {A B : Type 0} (Q : A → Db → Type 0) (R : B → Db → Type 0) (f : A → Tx B) (r : Outcome A)
    → QuietPost Q r
    → ((a : A) (db : Db) → Q a db → Quiet (f a) db R)
    → QuietPost R (next r f)
bound Q R f (ok a, fs, db) p k = (k a db p.0).from fs p.1
bound Q R f (err e, fs, db) p k = absurd p

pub Quiet-bind :
    {A B : Type 0} (Q : A → Db → Type 0) {m : Tx A} {f : A → Tx B} {db : Db} {R : B → Db → Type 0}
    → Quiet m db Q
    → ((a : A) (db' : Db) → Q a db' → Quiet (f a) db' R)
    → Quiet (m >>= f) db R
unfolding ◌>>=◌
Quiet-bind Q {m} {f} {db} {R} h k = record {
  from = λ fs calm. bound Q R f (m fs db) (h.from fs calm) k;
}

pub Quiet-pure : {A : Type 0} {Q : A → Db → Type 0} (a : A) {db : Db} → Q a db → Quiet (pure a) db Q
unfolding pure
Quiet-pure a q = record { from = λ fs calm. (q, calm) }

-- The call succeeded, with that postcondition.
abbrev pub Succeeds : {A : Type 0} → (A → Db → Type 0) → Result A → Db → Type 0
Succeeds Q (ok a) db = Q a db
Succeeds Q (err e) db = ⊥

succeeded :
    {A : Type 0} (Q : A → Db → Type 0) (r : Outcome A)
    → QuietPost Q r
    → QuietPost (Succeeds Q) (attempted r)
succeeded Q (ok a, fs, db) p = p
succeeded Q (err e, fs, db) p = absurd p

pub Quiet-attempt :
    {A : Type 0} {Q : A → Db → Type 0} {m : Tx A} {db : Db}
    → Quiet m db Q
    → Quiet (attempt m) db (Succeeds Q)
unfolding attempt
Quiet-attempt {A} {Q} {m} {db} h = record {
  from = λ fs calm. succeeded Q (m fs db) (h.from fs calm);
}

-- The call succeeded, or it left the database alone.
abbrev pub Attempted : {A : Type 0} → (A → Db → Type 0) → Db → Result A → Db → Type 0
Attempted Q db (ok a) d = Q a d
Attempted Q db (err e) d = d ≡ db

attempted-Post :
    {A : Type 0} (Q : A → Db → Type 0) (db : Db) (fs : List Bool) (r : Outcome A)
    → Post Q fs r
    → Unchanged db r
    → Post (Attempted Q db) fs (attempted r)
attempted-Post Q db fs (ok a, fs', d) p u = p
attempted-Post Q db fs (err e, fs', d) p u = (u, λ h. p)

pub Runs-attempt :
    {A : Type 0} {Q : A → Db → Type 0} {m : Tx A} {db : Db}
    → Runs m db Q
    → ((fs : List Bool) → Unchanged db (m fs db))
    → Runs (attempt m) db (Attempted Q db)
unfolding attempt
Runs-attempt {A} {Q} {m} {db} h u = record {
  from = λ fs. attempted-Post Q db fs (m fs db) (h.from fs) (u fs);
}

outcome-Unchanged :
    {A : Type 0} (r : Result (A × Db)) (fs : List Bool) (db : Db) → Unchanged db (outcome r fs db)
outcome-Unchanged (ok (a, d)) fs db = tt
outcome-Unchanged (err e) fs db = refl

statement-Unchanged :
    {A : Type 0} (f : Db → Result (A × Db)) (fs : List Bool) (db : Db)
    → Unchanged db (statement f fs db)
unfolding statement
statement-Unchanged f [] db = outcome-Unchanged (f db) [] db
statement-Unchanged f (true ∷ fs) db = refl
statement-Unchanged f (false ∷ fs) db = outcome-Unchanged (f db) fs db

pub execute-Unchanged : (f : Db → Db) (fs : List Bool) (db : Db) → Unchanged db (execute f fs db)
unfolding execute
execute-Unchanged f fs db = statement-Unchanged (λ d. ok (tt, f d)) fs db

recovered_query :
    {A : Type 0} (x : A) (f : Db → A) (db : Db) (Q : A → Db → Type 0)
    → Q (f db) db
    → (fs : List Bool) → (IsFaulty fs → ⊥)
    → QuietPost Q (recover x (query f) fs db)
unfolding recover query statement
recovered_query x f db Q q [] calm = (q, calm)
recovered_query x f db Q q (true ∷ fs) calm = absurd (calm tt)
recovered_query x f db Q q (false ∷ fs) calm = (q, calm)

pub Quiet-recover :
    {A : Type 0} {Q : A → Db → Type 0} (x : A) (f : Db → A) {db : Db}
    → Q (f db) db
    → Quiet (recover x (query f)) db Q
Quiet-recover {A} {Q} x f {db} q = record { from = recovered_query x f db Q q }

QuietPost-mono :
    {A : Type 0} (Q R : A → Db → Type 0) (r : Outcome A)
    → ((a : A) (db : Db) → Q a db → R a db)
    → QuietPost Q r
    → QuietPost R r
QuietPost-mono Q R (ok a, fs, db) k p = (k a db p.0, p.1)
QuietPost-mono Q R (err e, fs, db) k p = absurd p

pub Quiet-mono :
    {A : Type 0} (Q : A → Db → Type 0) {R : A → Db → Type 0} {m : Tx A} {db : Db}
    → Quiet m db Q
    → ((a : A) (db : Db) → Q a db → R a db)
    → Quiet m db R
Quiet-mono Q {R} {m} {db} h k = record {
  from = λ fs calm. QuietPost-mono Q R (m fs db) k (h.from fs calm);
}
