-- ===== src/DeviceFlow/Tests.antt =====
-- A device login on a store with one user.
use idlegrid.Prelude.{
  ℕ, ◌*◌, ◌≡◌, refl, arith, true, none, some, [], ◌∷◌, lookup, insert, string_discrete, ℕ_discrete,
}
use Prim.Native.String.{len}
use idlegrid.Limit.{allow, refill, put_bucket, new_rate_limiter}
use idlegrid.Store.Tables.{Db, User}
use idlegrid.Store.Device.{uses_code}
use idlegrid.Gateway.Admit.{Config}
use idlegrid.Http.{Library}
use idlegrid.DeviceFlow.Code.{new_user_code, stored_code, stripped_code, stored_code-new_user_code}
use idlegrid.DeviceFlow.Api.{device_limiter}
use idlegrid.DeviceFlow.Linking.{Linked, link, link-token_user}

abbrev lib : Library
lib = record {
  hash_key = λ s. s;
  compare_password = λ hash password. true;
  generate_hash = λ password. some password;
  to_lower = λ s. s;
  trim_space = λ s. s;
  to_upper = λ s. s;
}

abbrev config : Config
config = record { api_keys = []; billing = true; require_balance = true }

abbrev owner : User
owner = record {
  email = "owner@x.org";
  role = "provider_owner";
  password_hash = none;
  enrollment_code = none;
}

abbrev demo : Db
demo = record {
  users = (3, owner) ∷ [];
  next_user = 4;
  api_keys = [];
  next_key = 1;
  nodes = [];
  usage = [];
  accounts = [];
  ledger = [];
  prices = [];
  payouts = [];
  next_payout = 1;
  payments = [];
  device_codes = [];
  tokens = [];
  sessions = [];
}

-- The random bytes 0, 37, 74, ….
abbrev random : ℕ → ℕ
random i = 37 * i

stored_code-new_user_code_example :
    (stripped_code (new_user_code random) ≡ stored_code (new_user_code random))
    × (stripped_code (stored_code (new_user_code random)) ≡ stored_code (new_user_code random))
    × (len (stored_code (new_user_code random)) ≡ 8)
stored_code-new_user_code_example = stored_code-new_user_code random

-- The user types the code as it is shown.
link-token_user_example : Linked lib config "" random "device" "token" 3 owner (
    link lib config "" "1.2.3.4" random "device" "token" 10 20 30
      (3, ("owner@x.org", "provider_owner"))
      (new_user_code random)
      device_limiter
      []
      demo)
unfolding uses_code lookup insert string_discrete ℕ_discrete allow refill put_bucket device_limiter
    new_rate_limiter
link-token_user_example =
    link-token_user lib config "" "1.2.3.4" random "device" "token" 10 20 30
      (3, ("owner@x.org", "provider_owner")) owner demo device_limiter (new_user_code random) refl
      refl refl refl refl (stored_code-new_user_code random).0 refl refl refl refl (omega arith)
      (omega arith)
