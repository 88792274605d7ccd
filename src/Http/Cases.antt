-- ===== src/Http/Cases.antt =====
-- A handler's `if err != nil` after one statement of the store.
use idlegrid.Prelude.{◌≡◌, ◌⊎◌, inl, inr, refl, Bool, List}
use idlegrid.Store.Tables.{Db}
use idlegrid.Store.Tx.{Error, Result, ok, Tx, Outcome, statement, ◌>>=◌, pure}
use idlegrid.Store.Tx.Quiet.{attempt}
use idlegrid.Store.Tx.Cases.{statement-cases}
use idlegrid.Http.{Reply, fails, or_fail}

-- It answers 500 and leaves the database as it was, or goes on after the statement.
abbrev pub OrFail :
    {A B : Type 0} → (Db → Result (A × Db)) → (A → Tx (Reply B)) → Db → Outcome (Reply B) → Type 0
OrFail {A} f k db r =
    ((e : Error) × (gs : List Bool) × (r ≡ (ok (fails e), gs, db)))
    ⊎ ((a : A) × (d : Db) × (gs : List Bool) × (f db ≡ ok (a, d)) × (r ≡ k a gs d))

pub or_fail-cases :
    {A B : Type 0} (f : Db → Result (A × Db)) (k : A → Tx (Reply B)) (fs : List Bool) (db : Db)
    → OrFail f k db (or_fail (statement f) k fs db)
unfolding or_fail attempt ◌>>=◌ pure
or_fail-cases f k fs db = elim (statement-cases f fs db) [
  | inl (e, gs, h) ↦ rw h (inl (e, gs, refl))
  | inr (a, d, gs, h, q) ↦ rw q (inr (a, d, gs, h, refl))
]
