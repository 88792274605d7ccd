-- ===== src/Store/Tx/Keeps.antt =====
-- What a call of the database keeps, whatever fails in the driver and whether it ends in an error or not.
use idlegrid.Prelude.{◌≡◌, refl, subst, Bool, true, false, List, [], ◌∷◌}
use idlegrid.Store.Tables.{Db}
use idlegrid.Store.Tx.{
  Error, Result, ok, err, Tx, Outcome, next, ◌>>=◌, pure, raise, recover, recovered, statement,
  query, execute, transact, outcome, begin_tx, rolled_back,
}
use idlegrid.Store.Tx.Quiet.{attempt, attempted}

abbrev pub final : {A : Type 0} → Outcome A → Db
final (r, fs, db) = db

pub record Keeps {A : Type 0} (I : Db → Type 0) (m : Tx A) : Type 0 where
  pub from : (fs : List Bool) (db : Db) → I db → I (final (m fs db))

pub ok-db :
    {A : Type 0} (a b : A) (d e : Db) → Path (Result (A × Db)) (ok (a, d)) (ok (b, e)) → d ≡ e
ok-db a b d e h = cc

module _ (I : Db → Type 0) where
  pub Keeps-pure : {A : Type 0} (a : A) → Keeps I (pure a)
  unfolding pure
  Keeps-pure a = record { from = λ fs db h. h }

  pub Keeps-raise : {A : Type 0} (e : Error) → Keeps I (raise {A = A} e)
  unfolding raise
  Keeps-raise e = record { from = λ fs db h. h }

  next-keeps :
      {A B : Type 0} (f : A → Tx B) (r : Outcome A)
      → ((a : A) → Keeps I (f a))
      → I (final r)
      → I (final (next r f))
  next-keeps f (ok a, fs, db) k h = (k a).from fs db h
  next-keeps f (err e, fs, db) k h = h

  pub Keeps-bind :
      {A B : Type 0} {m : Tx A} {f : A → Tx B}
      → Keeps I m
      → ((a : A) → Keeps I (f a))
      → Keeps I (m >>= f)
  unfolding ◌>>=◌
  Keeps-bind {A} {B} {m} {f} h k = record {
    from = λ fs db i. next-keeps f (m fs db) k (h.from fs db i);
  }

  outcome-keeps :
      {A : Type 0} (r : Result (A × Db)) (fs : List Bool) (db : Db)
      → I db
      → ((a : A) (d : Db) → r ≡ ok (a, d) → I d)
      → I (final (outcome r fs db))
  outcome-keeps (ok (a, d)) fs db h k = k a d refl
  outcome-keeps (err e) fs db h k = h

  statement-keeps :
      {A : Type 0} (f : Db → Result (A × Db))
      → ((db : Db) → I db → (a : A) (d : Db) → f db ≡ ok (a, d) → I d)
      → (fs : List Bool) (db : Db) → I db
      → I (final (statement f fs db))
  unfolding statement
  statement-keeps f k [] db h = outcome-keeps (f db) [] db h (k db h)
  statement-keeps f k (true ∷ fs) db h = h
  statement-keeps f k (false ∷ fs) db h = outcome-keeps (f db) fs db h (k db h)

  pub Keeps-statement :
      {A : Type 0} (f : Db → Result (A × Db))
      → ((db : Db) → I db → (a : A) (d : Db) → f db ≡ ok (a, d) → I d)
      → Keeps I (statement f)
  Keeps-statement f k = record { from = statement-keeps f k }

  pub Keeps-query : {A : Type 0} (f : Db → A) → Keeps I (query f)
  unfolding query
  Keeps-query f =
      Keeps-statement (λ db. ok (f db, db)) (λ db h a d e. subst I (ok-db (f db) a db d e) h)

  pub Keeps-execute : (f : Db → Db) → ((db : Db) → I db → I (f db)) → Keeps I (execute f)
  unfolding execute
  Keeps-execute f k =
      Keeps-statement (λ db. ok (tt, f db)) (λ db h a d e. subst I (ok-db tt a (f db) d e) (k db h))

  attempted-keeps : {A : Type 0} (r : Outcome A) → I (final r) → I (final (attempted r))
  attempted-keeps (ok a, fs, db) h = h
  attempted-keeps (err e, fs, db) h = h

  pub Keeps-attempt : {A : Type 0} {m : Tx A} → Keeps I m → Keeps I (attempt m)
  unfolding attempt
  Keeps-attempt {A} {m} h = record { from = λ fs db i. attempted-keeps (m fs db) (h.from fs db i) }

  recovered-keeps : {A : Type 0} (d : A) (r : Outcome A) → I (final r) → I (final (recovered d r))
  recovered-keeps d (ok a, fs, db) h = h
  recovered-keeps d (err e, fs, db) h = h

  pub Keeps-recover : {A : Type 0} (d : A) {m : Tx A} → Keeps I m → Keeps I (recover d m)
  unfolding recover
  Keeps-recover d {m} h = record { from = λ fs db i. recovered-keeps d (m fs db) (h.from fs db i) }

  rolled_back-keeps :
      {A : Type 0} (r : Outcome A) (db : Db) → I db → I (final r) → I (final (rolled_back r db))
  rolled_back-keeps (ok a, fs, d) db h k = k
  rolled_back-keeps (err e, fs, d) db h k = h

  pub Keeps-transact : {A : Type 0} {m : Tx A} → Keeps I m → Keeps I (transact m)
  unfolding transact
  Keeps-transact {A} {m} h = record {
    from = λ fs db i.
        rolled_back-keeps ((begin_tx >>= λ _. m) fs db) db i
          ((Keeps-bind (Keeps-execute (λ d. d) (λ d j. j)) (λ _. h)).from fs db i);
  }
