-- ===== src/Store/Tx/Cases.antt =====
-- The two ends of a statement: an error that leaves the database as it was, or its effect.
use idlegrid.Prelude.{◌≡◌, ◌⊎◌, inl, inr, refl, Bool, true, false, List, [], ◌∷◌}
use idlegrid.Store.Tables.{Db}
use idlegrid.Store.Tx.{Error, Result, ok, err, driver, Outcome, outcome, statement}

abbrev pub StatementEnd : {A : Type 0} → (Db → Result (A × Db)) → Db → Outcome A → Type 0
StatementEnd {A} f db r =
    ((e : Error) × (gs : List Bool) × (r ≡ (err e, gs, db)))
    ⊎ ((a : A) × (d : Db) × (gs : List Bool) × (f db ≡ ok (a, d)) × (r ≡ (ok a, gs, d)))

outcome-cases :
    {A : Type 0} (f : Db → Result (A × Db)) (fs : List Bool) (db : Db) (r : Result (A × Db))
    → f db ≡ r
    → StatementEnd f db (outcome r fs db)
outcome-cases f fs db (ok (a, d)) h = inr (a, d, fs, h, refl)
outcome-cases f fs db (err e) h = inl (e, fs, refl)

pub statement-cases :
    {A : Type 0} (f : Db → Result (A × Db)) (fs : List Bool) (db : Db)
    → StatementEnd f db (statement f fs db)
unfolding statement
statement-cases f [] db = outcome-cases f [] db (f db) refl
statement-cases f (true ∷ fs) db = inl (driver, fs, refl)
statement-cases f (false ∷ fs) db = outcome-cases f fs db (f db) refl
