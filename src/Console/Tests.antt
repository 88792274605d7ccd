-- ===== src/Console/Tests.antt =====
-- Runs of the console API on a store with an admin and a developer.
use text.Mathlib.Text.{◌==◌ as same_text}
use idlegrid.Prelude.{
  ℕ, ◌+◌, ◌≡◌, refl, true, false, none, some, [], ◌∷◌, lookup, insert, string_discrete, ℕ_discrete,
}
use idlegrid.Limit.{Limiter, allow, refill, put_bucket}
use idlegrid.Store.Tables.{Db, User, ApiKey}
use idlegrid.Store.Tx.{ok, pure}
use idlegrid.Store.Tx.Keeps.{final}
use idlegrid.Store.Tx.Quiet.{Quiet}
use idlegrid.Store.Ledger.{user_by_email}
use idlegrid.Store.Listing.{credentials}
use idlegrid.Gateway.Admit.{Config}
use idlegrid.Http.{Library, answers, delete}
use idlegrid.Console.Session.{
  Login, require_admin_session, handle_console_login, session_ttl, allow_login,
}
use idlegrid.Console.Access.{Guarded, AdminCall, require_admin_session-guards}
use idlegrid.Console.Password.{
  LoginChecked, Resolves, handle_console_login-checked, handle_console_login-Resolves,
}
use idlegrid.Console.Account.{handle_console_keys}
use idlegrid.Console.Isolation.{handle_console_keys-other_user}
use idlegrid.Console.Admin.{NewUser, created, create_user, role_of}
use idlegrid.Console.NewUser.{create_user-credentials}

-- Hashes that hide nothing.
abbrev lib : Library
lib = record {
  hash_key = λ s. s;
  compare_password = λ hash password. same_text hash password;
  generate_hash = λ password. some password;
  to_lower = λ s. s;
  trim_space = λ s. s;
  to_upper = λ s. s;
}

abbrev config : Config
config = record { api_keys = "root" ∷ []; billing = true; require_balance = true }

abbrev dev : User
dev = record {
  email = "dev@x.org";
  role = "developer";
  password_hash = some "secret42";
  enrollment_code = none;
}

abbrev chief : User
chief = record {
  email = "chief@x.org";
  role = "admin";
  password_hash = some "admin123";
  enrollment_code = none;
}

abbrev chief_key : ApiKey
chief_key = record { id = 1; user_id = 1; label = "ci"; revoked = false }

abbrev demo : Db
demo = record {
  users = (1, chief) ∷ (2, dev) ∷ [];
  next_user = 3;
  api_keys = ("k", chief_key) ∷ [];
  next_key = 2;
  nodes = [];
  usage = [];
  accounts = [];
  ledger = [];
  prices = [];
  payouts = [];
  next_payout = 1;
  payments = [];
  device_codes = [];
  tokens = [];
  sessions = ("t", record { user_id = 2; expires_at = 100 }) ∷ [];
}

-- A developer's session at an admin endpoint, with a failing driver.
require_admin_session-guards_example :
    Guarded
      (AdminCall lib config 50 "Bearer nope" "t" demo)
      (λ u. pure (answers u.0))
      demo
      (require_admin_session lib config 50 "Bearer nope" "t"
        (λ u. pure (answers u.0))
        (false ∷ true ∷ [])
        demo)
require_admin_session-guards_example =
    require_admin_session-guards lib config 50 "Bearer nope" "t" (λ u. pure (answers u.0))
      (false ∷ true ∷ []) demo

abbrev credentials_sent : Login
credentials_sent = record { email = "dev@x.org"; password = "secret42" }

abbrev limiter : Limiter
limiter = record { buckets = []; rate = 1; burst = 5 }

handle_console_login-checked_example :
    LoginChecked lib credentials_sent demo
      (handle_console_login lib config 50 "new" "1.2.3.4" (some credentials_sent) limiter [] demo)
handle_console_login-checked_example =
    handle_console_login-checked lib credentials_sent demo config 50 "new" "1.2.3.4" limiter []

handle_console_login-Resolves_example :
    Quiet
      (handle_console_login lib config 50 "new" "1.2.3.4" (some credentials_sent) limiter)
      demo
      (λ r d.
        (r.0 ≡ answers (record { token = "new"; id = 2; email = "dev@x.org"; role = "developer" }))
        × Resolves lib (50 + session_ttl) "new" 2 dev d
        × (r.1 ≡ (allow_login lib 50 credentials_sent "1.2.3.4" limiter).1))
unfolding lookup string_discrete ℕ_discrete user_by_email allow allow_login refill put_bucket insert
handle_console_login-Resolves_example =
    handle_console_login-Resolves lib credentials_sent demo 50 2 "new" "secret42" dev refl refl refl
      refl refl config "1.2.3.4" limiter refl refl refl

-- The developer tries to revoke the admin's key.
handle_console_keys-other_user_example :
    lookup string_discrete "k"
      (final (
        handle_console_keys lib config "raw" delete
          (2, ("dev@x.org", "developer"))
          none
          (some 1)
          []
          demo)).api_keys
    ≡ some chief_key
unfolding lookup string_discrete
handle_console_keys-other_user_example =
    handle_console_keys-other_user "k" chief_key (2, ("dev@x.org", "developer")) (λ w. cc) lib
      config "raw" delete none (some 1) [] demo refl

-- A POST under an admin's email.
abbrev newcomer : NewUser
newcomer = record { email = "chief@x.org"; password = "12345678"; role = "developer" }

create_user-credentials_example : Quiet (create_user lib (some newcomer)) demo (λ r d.
    (id : ℕ) × (r ≡ answers (created id "chief@x.org" (role_of "developer")))
    × (credentials "chief@x.org" d ≡ ok ((id, (role_of "developer", "12345678")), d)))
create_user-credentials_example = create_user-credentials lib newcomer "12345678" demo refl refl
