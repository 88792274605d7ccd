-- ===== src/Store/Tx/Under.antt =====
-- Calls that recover from a failure of the driver: what holds of them may depend on whether one can happen.
use idlegrid.Prelude.{◌≡◌, refl, Bool, true, false, List, [], ◌∷◌}
use idlegrid.Store.Tables.{Db}
use idlegrid.Store.Tx.{
  ok, err, Tx, Outcome, next, ◌>>=◌, ◌>>◌, query, statement, transact, begin_tx, rolled_back,
  recover, IsFaulty, Post, Runs, Runs-execute, weaken,
}
use idlegrid.Store.Tx.Quiet.{Quiet, of_Post}

-- For every list of faults that has none unless `F` holds, the call returns a result and a database that satisfy the
-- postcondition, or an error that the driver caused. With `⊥` for `F` no statement fails; with `IsFaulty fs` the list may
-- be `fs`.
pub record Under (F : Type 0) {A : Type 0} (m : Tx A) (db : Db) (Q : A → Db → Type 0) : Type 0 where
  pub from : (fs : List Bool) → (IsFaulty fs → F) → Post Q fs (m fs db)

pub Under-Runs :
    {F A : Type 0} {Q : A → Db → Type 0} {m : Tx A} {db : Db} → Runs m db Q → Under F m db Q
Under-Runs {F} {A} {Q} {m} {db} h = record { from = λ fs may. h.from fs }

pub Runs-Under :
    {A : Type 0} {Q : A → Db → Type 0} {m : Tx A} {db : Db} → Under Unit m db Q → Runs m db Q
Runs-Under {A} {Q} {m} {db} h = record { from = λ fs. h.from fs (λ w. tt) }

pub Quiet-Under :
    {A : Type 0} {Q : A → Db → Type 0} {m : Tx A} {db : Db} → Under ⊥ m db Q → Quiet m db Q
Quiet-Under {A} {Q} {m} {db} h = record {
  from = λ fs calm. of_Post Q fs (m fs db) calm (h.from fs calm);
}

bound :
    {F A B : Type 0} (Q : A → Db → Type 0) (R : B → Db → Type 0) (f : A → Tx B) (fs : List Bool)
    (r : Outcome A)
    → (IsFaulty fs → F)
    → Post Q fs r
    → ((a : A) (db : Db) → Q a db → Under F (f a) db R)
    → Post R fs (next r f)
bound Q R f fs (ok a, fs', db) may p k =
    weaken R fs fs' (f a fs' db) p.1 ((k a db p.0).from fs' (λ w. may (p.1 w)))
bound Q R f fs (err e, fs', db) may p k = p

pub Under-bind :
    {F A B : Type 0} (Q : A → Db → Type 0) {m : Tx A} {f : A → Tx B} {db : Db} {R : B → Db → Type 0}
    → Under F m db Q
    → ((a : A) (db' : Db) → Q a db' → Under F (f a) db' R)
    → Under F (m >>= f) db R
unfolding ◌>>=◌
Under-bind Q {m} {f} {db} {R} h k = record {
  from = λ fs may. bound Q R f fs (m fs db) may (h.from fs may) k;
}

recovered_query :
    {F A : Type 0} (Q : A → Db → Type 0) (d : A) (f : Db → A) (db : Db)
    → Q (f db) db
    → (F → Q d db)
    → (fs : List Bool) → (IsFaulty fs → F)
    → Post Q fs (recover d (query f) fs db)
unfolding recover query statement
recovered_query Q d f db q r [] may = (q, λ h. h)
recovered_query Q d f db q r (true ∷ fs) may = (r (may tt), λ h. tt)
recovered_query Q d f db q r (false ∷ fs) may = (q, λ h. h)

-- A query that the program replaces by a default: the default where a statement may fail, else the answer.
pub Under-recover :
    {F A : Type 0} {Q : A → Db → Type 0} (d : A) (f : Db → A) {db : Db}
    → Q (f db) db
    → (F → Q d db)
    → Under F (recover d (query f)) db Q
Under-recover {F} {A} {Q} d f {db} q r = record { from = recovered_query Q d f db q r }

rolled_back-Post :
    {A : Type 0} (Q : A → Db → Type 0) (fs : List Bool) (r : Outcome A) (db : Db)
    → Post Q fs r
    → Post Q fs (rolled_back r db)
rolled_back-Post Q fs (ok a, fs', db') db p = p
rolled_back-Post Q fs (err e, fs', db') db p = p

begun :
    {F A : Type 0} {Q : A → Db → Type 0} {m : Tx A} {db : Db}
    → Under F m db Q
    → Under F (begin_tx >> m) db Q
begun {F} {A} {Q} {m} {db} h =
    Under-bind (λ _ d. d ≡ db) (Under-Runs (Runs-execute _ refl)) (λ _ d e. rw e h)

pub Under-transact :
    {F A : Type 0} {Q : A → Db → Type 0} {m : Tx A} {db : Db}
    → Under F m db Q
    → Under F (transact m) db Q
unfolding transact
Under-transact {F} {A} {Q} {m} {db} h = record {
  from = λ fs may. rolled_back-Post Q fs ((begin_tx >> m) fs db) db ((begun h).from fs may);
}

mono :
    {A : Type 0} (Q R : A → Db → Type 0) (fs : List Bool) (r : Outcome A)
    → ((a : A) (db : Db) → Q a db → R a db)
    → Post Q fs r
    → Post R fs r
mono Q R fs (ok a, fs', db) k p = (k a db p.0, p.1)
mono Q R fs (err e, fs', db) k p = p

pub Under-mono :
    {F A : Type 0} (Q : A → Db → Type 0) {R : A → Db → Type 0} {m : Tx A} {db : Db}
    → Under F m db Q
    → ((a : A) (db : Db) → Q a db → R a db)
    → Under F m db R
Under-mono Q {R} {m} {db} h k = record { from = λ fs may. mono Q R fs (m fs db) k (h.from fs may) }
