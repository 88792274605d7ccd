-- ===== src/Http.antt =====
-- What the HTTP handlers of coordinator/internal/server share: methods, replies, the store's guard
-- (`consoleStore`) and the functions of other packages that they call.
pub mod Cases
pub mod Text
use idlegrid.Prelude.{Bool, true, false, Option, String, ℕ, List, if◌then◌else◌}
use idlegrid.Store.Tx.{Tx, Result, ok, err, Error, ◌>>=◌, pure}
use idlegrid.Store.Tx.Quiet.{attempt}
use idlegrid.Gateway.Admit.{Config}

pub data Method : Type 0 where
  get post put delete : Method
  other_method : Method

-- A JSON reply: 200 with a value, another status with {"error": …}, or 500 with an error of the store.
pub data Reply (A : Type 0) : Type 0 where
  answers : A → Reply A
  refuses : ℕ → String → Reply A
  fails : Error → Reply A

-- Code that is not of the repository: SHA-256 under `HashKey`, bcrypt and the strings package.
pub record Library : Type 0 where
  pub hash_key : String → String
  pub compare_password : String → String → Bool
  pub generate_hash : String → Option String
  pub to_lower : String → String
  pub trim_space : String → String
  pub to_upper : String → String

abbrev pub checked : {A B : Type 0} → (A → Tx (Reply B)) → Result A → Tx (Reply B)
checked k (ok a) = k a
checked k (err e) = pure (fails e)

-- `if err != nil { writeJSON(500, err.Error()); return }`.
unfoldable pub or_fail : {A B : Type 0} → Tx A → (A → Tx (Reply B)) → Tx (Reply B)
unfolding attempt pure ◌>>=◌
or_fail m k = attempt m >>= checked k

abbrev pub no_store : {A : Type 0} → Reply A
no_store = refuses 503 "billing store unavailable (set DATABASE_URL)"

-- `consoleStore`: a store, where there is one, is the Postgres store (coordinator/cmd/coordinator/main.go).
unfoldable pub console_store : {A : Type 0} → Config → Tx (Reply A) → Tx (Reply A)
unfolding pure
console_store g m = if g.billing then m else pure no_store
