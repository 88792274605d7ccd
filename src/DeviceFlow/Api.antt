-- ===== src/DeviceFlow/Api.antt =====
-- The endpoints of coordinator/internal/server/device.go. The random device code and token, the random bytes of the
-- user code and the clock are arguments; a body arrives decoded, `none` where that fails.
use Prim.Native.String.{◌++◌, len}
use idlegrid.Prelude.{
  ℕ, ◌+◌, ◌==◌, Bool, true, false, Option, none, some, String, ite, if◌then◌else◌, string_discrete,
}
use idlegrid.Limit.{Limiter, new_rate_limiter, allow}
use idlegrid.Store.Tx.{Tx, ◌>>=◌, pure}
use idlegrid.Store.Accounts.{Auth}
use idlegrid.Store.Device.{create_device_code, approve_device_code, redeem_device_code}
use idlegrid.Gateway.Admit.{Config}
use idlegrid.Http.{Method, post, Reply, answers, refuses, Library, or_fail, console_store}
use idlegrid.Http.Text.{trim_right}
use idlegrid.Console.Session.{is_empty}
use idlegrid.DeviceFlow.Code.{new_user_code, stored_code, stripped_code}

-- `deviceCodeTTL`, 10 minutes.
abbrev pub device_code_ttl : ℕ
device_code_ttl = 600_000_000_000

-- `deviceLimiter`: half a token a second, burst 5.
unfoldable pub device_limiter : Limiter
unfolding new_rate_limiter
device_limiter = new_rate_limiter 5 5

-- `consoleBaseURL`, of IDLEGRID_CONSOLE_URL (empty if it is not set).
unfoldable pub console_base_url : String → String
unfolding trim_right
console_base_url env = if is_empty env then "https://console.sqlguroo.com" else trim_right 47 env

pub record Started : Type 0 where
  pub device_code : String
  pub user_code : String
  pub verification_url : String
  pub expires_in : ℕ
  pub interval : ℕ

-- One request to a public endpoint: the address is limited, and the handler goes on or answers 429.
unfoldable pub paced :
    {A : Type 0} → ℕ → String → String → Limiter → Tx (Reply A) → Tx (Reply A × Limiter)
unfolding allow pure ◌>>=◌
paced now remote busy l m =
    let (allowed, l1) = allow now remote l in
    (if allowed then m else pure (refuses 429 busy)) >>= λ r. pure (r, l1)

abbrev pub started : String → String → (ℕ → ℕ) → Started
started env device_code random = record {
  device_code = device_code;
  user_code = new_user_code random;
  verification_url = console_base_url env ++ "/link";
  expires_in = 600;
  interval = 3;
}

abbrev pub start_login : Library → Config → String → ℕ → String → (ℕ → ℕ) → Tx (Reply Started)
start_login lib g env now device_code random = console_store g (
    or_fail
      (create_device_code (lib.hash_key device_code) (stored_code (new_user_code random))
        (now + device_code_ttl))
      λ _. pure (answers (started env device_code random)))

-- `HandleDeviceCode`.
unfoldable pub handle_device_code :
    Library
    → Config
    → String
    → ℕ
    → String
    → (ℕ → ℕ)
    → String
    → Method
    → Limiter
    → Tx (Reply Started × Limiter)
unfolding console_base_url create_device_code or_fail console_store paced pure new_user_code
handle_device_code lib g env now device_code random remote post l =
    paced now remote "slow down" l (start_login lib g env now device_code random)
handle_device_code lib g env now device_code random remote _ l = pure (refuses 405 "POST only", l)

abbrev is_text : String → String → Bool
is_text s t = ite (string_discrete s t) true false

abbrev pub redeem_reply : String → ℕ × String → Reply String
redeem_reply token (user, status) =
    if is_text status "pending"
    then refuses 400 "authorization_pending"
    else if is_text status "expired"
    then refuses 400 "expired_token"
    else if is_text status "invalid"
    then refuses 400 "invalid_grant"
    else answers token

abbrev pub poll : Library → Config → ℕ → String → Option String → Tx (Reply String)
poll lib g now token none = pure (refuses 400 "invalid_request")
poll lib g now token (some device_code) =
    if is_empty device_code
    then pure (refuses 400 "invalid_request")
    else console_store g (
        or_fail (redeem_device_code now (lib.hash_key device_code) (lib.hash_key token))
          λ r. pure (redeem_reply token r))

-- `HandleDeviceToken`: the provider token; `token` is the new random one.
unfoldable pub handle_device_token :
    Library
    → Config
    → ℕ
    → String
    → String
    → Method
    → Option String
    → Limiter
    → Tx (Reply String × Limiter)
unfolding redeem_device_code or_fail console_store paced pure
handle_device_token lib g now token remote post body l =
    paced now remote "slow_down" l (poll lib g now token body)
handle_device_token lib g now token remote _ body l = pure (refuses 405 "POST only", l)

abbrev pub approval : Bool → Reply (Unit {0})
approval true = answers tt
approval false = refuses 404 "unknown, expired, or already-approved code"

abbrev pub approve_code : Config → ℕ → Auth → String → Tx (Reply (Unit {0}))
approve_code g now u code =
    if len code == 8
    then console_store g (or_fail (approve_device_code now code u.0) λ done. pure (approval done))
    else pure (refuses 400 "code must be 8 characters")

-- `HandleConsoleDeviceApprove`, for the user that `requireSession` resolved.
unfoldable pub handle_console_device_approve :
    Library → Config → ℕ → Method → Auth → Option String → Tx (Reply (Unit {0}))
unfolding approve_device_code or_fail console_store pure
handle_console_device_approve lib g now post u none = pure (refuses 400 "user_code required")
handle_console_device_approve lib g now post u (some typed) =
    approve_code g now u (lib.to_upper (stripped_code typed))
handle_console_device_approve lib g now _ u body = pure (refuses 405 "POST only")
