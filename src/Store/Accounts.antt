-- ===== src/Store/Accounts.antt =====
-- Users, API keys, prices and sessions of coordinator/store/postgres.go and billing.go, and the enrollment
-- code of a user. The clock and random codes are arguments.
pub mod Keys
use idlegrid.Prelude.{
  ℕ, ◌+◌, ltb, ◌==◌, ◌≡◌, Bool, true, false, not, ◌&&◌, Option, none, some, List, [], ◌∷◌, String,
  ite, ℤ, if◌then◌else◌, lookup, insert, erase, ℕ_discrete, string_discrete,
}
use idlegrid.Store.Tables.{Db, User, ApiKey, Session, NodeBinding}
use idlegrid.Store.Tx.{
  Tx, Error, Result, ok, err, not_found, constraint, ◌>>=◌, ◌>>◌, pure, raise, query, execute,
  statement, recover,
}
use idlegrid.Store.Tx.Quiet.{attempt}
use idlegrid.Store.Ledger.{user_by_email}
use idlegrid.Store.Enroll.{bind_node}

unfoldable pub update_user : ℕ → (User → User) → Db → Db
update_user id f db = elim (lookup ℕ_discrete id db.users) [
  | none ↦ db
  | some u ↦ record db { users = insert ℕ_discrete id (f u) db.users }
]

-- INSERT INTO users … ON CONFLICT (email) DO UPDATE SET role … RETURNING id.
unfoldable pub upsert_user : String → String → Db → Result (ℕ × Db)
unfolding user_by_email update_user
upsert_user email role db = elim (user_by_email email db.users) [
  | some id ↦ ok (id, update_user id (λ u. record u { role = role }) db)
  | none ↦ ok (
    db.next_user,
    record db {
      users =
          (
            db.next_user,
            record { email = email; role = role; password_hash = none; enrollment_code = none },
          )
          ∷ db.users;
      next_user = db.next_user + 1;
    },
  )
]

-- `EnsureUser`.
unfoldable pub ensure_user : String → String → Tx ℕ
unfolding upsert_user statement
ensure_user email role = statement (upsert_user email role)

-- INSERT INTO api_keys … RETURNING id: the hash is unique, the user a foreign key.
unfoldable pub insert_key : ℕ → String → String → Db → Result (ℕ × Db)
insert_key user key_hash label db = elim (lookup string_discrete key_hash db.api_keys) [
  | some _ ↦ err constraint
  | none ↦ elim (lookup ℕ_discrete user db.users) [
    | none ↦ err constraint
    | some _ ↦ ok (
      db.next_key,
      record db {
        api_keys =
            (key_hash, record { id = db.next_key; user_id = user; label = label; revoked = false })
            ∷ db.api_keys;
        next_key = db.next_key + 1;
      },
    )
  ]
]

-- `CreateAPIKeyWithID`.
unfoldable pub create_api_key_with_id : ℕ → String → String → Tx ℕ
unfolding insert_key statement
create_api_key_with_id user key_hash label = statement (insert_key user key_hash label)

-- `CreateAPIKey`.
unfoldable pub create_api_key : ℕ → String → String → Tx (Unit {0})
unfolding insert_key statement pure ◌>>=◌
create_api_key user key_hash label = do _ ← statement (insert_key user key_hash label); pure tt

-- `APIKeyAuth`: the user's id, email and role.
abbrev pub Auth : Type 0
Auth = ℕ × (String × String)

abbrev pub auth_of : ℕ → Option User → Option Auth
auth_of id none = none
auth_of id (some u) = some (id, (u.email, u.role))

unfoldable pub key_user : String → Db → Option Auth
key_user key_hash db = elim (lookup string_discrete key_hash db.api_keys) [
  | none ↦ none
  | some k ↦ if k.revoked then none else auth_of k.user_id (lookup ℕ_discrete k.user_id db.users)
]

-- `ResolveAPIKey`: an error counts as no match.
unfoldable pub resolve_api_key : String → Tx (Option Auth)
unfolding key_user query recover
resolve_api_key key_hash = recover none (query (key_user key_hash))

unfoldable pub revoke_rows : ℕ → ℕ → List (String × ApiKey) → List (String × ApiKey)
revoke_rows user id [] = []
revoke_rows user id ((h, k) ∷ ks) =
    (h, if k.id == id && k.user_id == user then record k { revoked = true } else k)
    ∷ revoke_rows user id ks

-- `RevokeAPIKey`.
unfoldable pub revoke_api_key : ℕ → ℕ → Tx (Unit {0})
unfolding revoke_rows execute
revoke_api_key user id = execute λ db. record db { api_keys = revoke_rows user id db.api_keys }

-- `UpsertModelPrice`.
unfoldable pub upsert_model_price : String → ℤ → ℤ → Tx (Unit {0})
unfolding execute
upsert_model_price model in_micro out_micro =
    execute
      λ db. record db { prices = insert string_discrete model (in_micro, out_micro) db.prices }

-- `SetPasswordHash`.
unfoldable pub set_password_hash : ℕ → String → Tx (Unit {0})
unfolding update_user execute
set_password_hash user hash = execute (update_user user λ u. record u { password_hash = some hash })

-- INSERT INTO sessions: the hash is the primary key, the user a foreign key.
unfoldable pub insert_session : String → ℕ → ℕ → Db → Result (Unit {0} × Db)
insert_session hash user expires db = elim (lookup string_discrete hash db.sessions) [
  | some _ ↦ err constraint
  | none ↦ elim (lookup ℕ_discrete user db.users) [
    | none ↦ err constraint
    | some _ ↦ ok (
      tt,
      record db {
        sessions = (hash, record { user_id = user; expires_at = expires }) ∷ db.sessions;
      },
    )
  ]
]

-- `CreateSession`.
unfoldable pub create_session : String → ℕ → ℕ → Tx (Unit {0})
unfolding insert_session statement
create_session hash user expires = statement (insert_session hash user expires)

unfoldable pub session_user : ℕ → String → Db → Option Auth
session_user now hash db = elim (lookup string_discrete hash db.sessions) [
  | none ↦ none
  | some s ↦
      if ltb now s.expires_at
      then auth_of s.user_id (lookup ℕ_discrete s.user_id db.users)
      else none
]

-- `ResolveSession`: an error counts as no session.
unfoldable pub resolve_session : ℕ → String → Tx (Option Auth)
unfolding session_user query recover
resolve_session now hash = recover none (query (session_user now hash))

-- `DeleteSession`.
unfoldable pub delete_session : String → Tx (Unit {0})
unfolding execute
delete_session hash = execute λ db. record db { sessions = erase string_discrete hash db.sessions }

-- SELECT enrollment_code FROM users, an error where no row has the id.
unfoldable pub code_row : ℕ → Db → Result (Option String × Db)
code_row user db = elim (lookup ℕ_discrete user db.users) [
  | none ↦ err not_found
  | some u ↦ ok (u.enrollment_code, db)
]

-- UPDATE … WHERE id=$1 AND enrollment_code IS NULL RETURNING id.
unfoldable pub set_code : ℕ → String → Db → Result (Unit {0} × Db)
set_code user code db = elim (lookup ℕ_discrete user db.users) [
  | none ↦ err not_found
  | some u ↦ elim u.enrollment_code [
    | some _ ↦ err not_found
    | none ↦ ok (
      tt,
      record db {
        users = insert ℕ_discrete user (record u { enrollment_code = some code }) db.users;
      },
    )
  ]
]

abbrev winner : Error → Result (Option String) → Tx String
winner e (ok (some code)) = pure code
winner e _ = raise e

abbrev after_set : ℕ → String → Result (Unit {0}) → Tx String
after_set user code (ok _) = pure code
after_set user code (err e) = attempt (statement (code_row user)) >>= winner e

abbrev has_code : Option String → Bool
has_code none = false
has_code (some c) = ite (string_discrete c "") false true

abbrev code_or : String → Option String → String
code_or d none = d
code_or d (some c) = c

-- `GetOrCreateEnrollmentCode`.
unfoldable pub get_or_create_enrollment_code : ℕ → String → Tx String
unfolding code_row set_code attempt statement pure raise ◌>>=◌
get_or_create_enrollment_code user new_code = do
  code ← statement (code_row user)
  (if has_code code
      then pure (code_or "" code)
      else attempt (statement (set_code user new_code)) >>= after_set user new_code)

unfoldable pub user_by_code : String → List (ℕ × User) → Option ℕ
user_by_code code [] = none
user_by_code code ((id, u) ∷ us) = elim u.enrollment_code [
  | none ↦ user_by_code code us
  | some c ↦ ite (string_discrete c code) (some id) (user_by_code code us)
]

abbrev enroll_found : ℕ → String → Option ℕ → Tx (Option ℕ)
enroll_found now node_id none = pure none
enroll_found now node_id (some user) = do bind_node now user node_id ""; pure (some user)

-- `EnrollNode`: the user whose code it is, if any; an error of the query counts as an unknown code.
unfoldable pub enroll_node : ℕ → String → String → Tx (Option ℕ)
unfolding user_by_code bind_node query recover pure ◌>>=◌
enroll_node now code node_id =
    recover none (query λ db. user_by_code code db.users) >>= enroll_found now node_id

abbrev touched : ℕ → NodeBinding → NodeBinding
touched now b = record b { last_seen = some now }

unfoldable pub touch_row : ℕ → String → Db → Db
touch_row now node_id db = elim (lookup string_discrete node_id db.nodes) [
  | none ↦ db
  | some b ↦ record db { nodes = insert string_discrete node_id (touched now b) db.nodes }
]

-- `TouchNode`.
unfoldable pub touch_node : ℕ → String → Tx (Unit {0})
unfolding touch_row execute
touch_node now node_id = execute (touch_row now node_id)
