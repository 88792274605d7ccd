-- ===== src/Store/Migrate/Tests.antt =====
-- Runs of the migrations on tables that are a number.
use idlegrid.Prelude.{
  ℕ, ◌≡◌, refl, Bool, true, false, some, [], ◌∷◌, String, ite, string_discrete, ◌*◌, ◌+◌,
}
use idlegrid.Store.Migrate.{Migration, Schema, migrate, migrate_resumes}

abbrev init : Migration ℕ
init = record { name = "migrations/0001_init.sql"; version = some 1; sql = λ n. some (n + 2) }

abbrev settlement : Migration ℕ
settlement = record {
  name = "migrations/0002_settlement.sql";
  version = some 2;
  sql = λ n. some (n * 10);
}

abbrev before : String → String → Bool
before x y =
    ite (string_discrete x "migrations/0001_init.sql")
      (ite (string_discrete y "migrations/0001_init.sql") false true) false

abbrev fresh : Schema ℕ
fresh = record { tables = 0; versions = [] }

-- The driver fails for the second file; the entries are out of order.
interrupted_run :
    migrate true before (settlement ∷ init ∷ []) (false ∷ true ∷ []) fresh
    ≡ (false, record { tables = 2; versions = 1 ∷ [] })
unfolding migrate string_discrete
interrupted_run = refl

completed_run :
    migrate true before (settlement ∷ init ∷ []) [] (record { tables = 2; versions = 1 ∷ [] })
    ≡ (true, record { tables = 20; versions = 2 ∷ 1 ∷ [] })
unfolding migrate string_discrete
completed_run = refl

migrate_resumes_example :
    migrate true before
      (settlement ∷ init ∷ [])
      []
      (migrate true before (settlement ∷ init ∷ []) (false ∷ true ∷ []) fresh).1
    ≡ migrate true before (settlement ∷ init ∷ []) [] fresh
migrate_resumes_example =
    migrate_resumes true before (settlement ∷ init ∷ []) (false ∷ true ∷ []) fresh
