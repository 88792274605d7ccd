-- ===== src/Console/Session.antt =====
-- Sessions of coordinator/internal/server/console.go: `sessionUser`, `requireSession`, `requireAdminSession`,
-- `HandleConsoleLogin` and `HandleConsoleLogout`.
use Prim.Native.String.{◌++◌, len, slice}
use text.Mathlib.Text.{starts_with}
use idlegrid.Prelude.{
  ℕ, ◌+◌, Bool, true, false, not, ◌&&◌, ◌||◌, Option, none, some, String, ite, if◌then◌else◌,
  string_discrete,
}
use idlegrid.Registry.{contains}
use idlegrid.Limit.{Limiter, allow}
use idlegrid.Store.Tx.{Tx, Result, ok, err, ◌>>=◌, pure}
use idlegrid.Store.Tx.Quiet.{attempt}
use idlegrid.Store.Accounts.{Auth, create_session, resolve_session, delete_session}
use idlegrid.Store.Listing.{get_user_by_email}
use idlegrid.Gateway.Admit.{Config}
use idlegrid.Http.{Reply, answers, refuses, Library, or_fail, console_store, no_store}

-- `sessionTTL`, 7 days.
abbrev pub session_ttl : ℕ
session_ttl = 604_800_000_000_000

abbrev pub is_empty : String → Bool
is_empty s = ite (string_discrete s "") true false

-- `sessionUser`, of the X-Session-Token header (empty if there is none).
unfoldable pub session_user : Library → Config → ℕ → String → Tx (Option Auth)
unfolding resolve_session pure
session_user lib g now token =
    if is_empty token || not g.billing then pure none else resolve_session now (lib.hash_key token)

abbrev pub as_user : {A : Type 0} → (Auth → Tx (Reply A)) → Option Auth → Tx (Reply A)
as_user next none = pure (refuses 401 "invalid or expired session")
as_user next (some u) = next u

-- `requireSession`.
unfoldable pub require_session :
    {A : Type 0} → Library → Config → ℕ → String → (Auth → Tx (Reply A)) → Tx (Reply A)
unfolding session_user pure ◌>>=◌
require_session lib g now token next = session_user lib g now token >>= as_user next

-- `strings.TrimPrefix(header, "Bearer ")`.
abbrev pub without_bearer : String → String
without_bearer h = if starts_with h "Bearer " then slice h 7 (len h) else h

abbrev pub as_admin : {A : Type 0} → (Auth → Tx (Reply A)) → Auth → Tx (Reply A)
as_admin next u =
    if ite (string_discrete u.1.1 "admin") true false
    then next u
    else pure (refuses 403 "admin only")

-- The caller that an environment key stands for.
abbrev pub key_admin : Auth
key_admin = (0, ("admin@api-key", "admin"))

-- `requireAdminSession`, of the Authorization header too.
unfoldable pub require_admin_session :
    {A : Type 0} → Library → Config → ℕ → String → String → (Auth → Tx (Reply A)) → Tx (Reply A)
unfolding require_session contains pure
require_admin_session lib g now authorization token next =
    let key = without_bearer authorization in
    if not (is_empty key) && contains key g.api_keys
    then next key_admin
    else require_session lib g now token (as_admin next)

pub record Login : Type 0 where
  pub email : String
  pub password : String

pub record LoggedIn : Type 0 where
  pub token : String
  pub id : ℕ
  pub email : String
  pub role : String

-- `loginLimiter.Allow(…) || …`: the second bucket is asked only where the first one allows.
unfoldable pub allow_login : Library → ℕ → Login → String → Limiter → Bool × Limiter
unfolding allow
allow_login lib now body remote l =
    let (first, l1) = allow now ("email:" ++ lib.to_lower body.email) l in
    if first then allow now ("ip:" ++ remote) l1 else (false, l1)

-- The end of the login, with the id, role and password hash that `GetUserByEmail` gives, or its error.
unfoldable pub open_session :
    Library → ℕ → String → Login → Result (ℕ × (String × String)) → Tx (Reply LoggedIn)
unfolding create_session or_fail pure
open_session lib now token body (err e) = pure (refuses 401 "invalid email or password")
open_session lib now token body (ok (id, (role, hash))) =
    if is_empty hash || not (lib.compare_password hash body.password)
    then pure (refuses 401 "invalid email or password")
    else or_fail (create_session (lib.hash_key token) id (now + session_ttl))
        λ _. pure (answers (record { token = token; id = id; email = body.email; role = role }))

abbrev pub limited : Library → ℕ → String → Login → Bool → Tx (Reply LoggedIn)
limited lib now token body false = pure (refuses 429 "too many attempts — wait a minute and retry")
limited lib now token body true =
    attempt (get_user_by_email body.email) >>= open_session lib now token body

abbrev pub keeping : {A : Type 0} → Limiter → Reply A → Tx (Reply A × Limiter)
keeping l r = pure (r, l)

abbrev pub is_incomplete : Login → Bool
is_incomplete body = is_empty body.email || is_empty body.password

abbrev pub try_login :
    Library → ℕ → String → String → Limiter → Option Login → Tx (Reply LoggedIn × Limiter)
try_login lib now token remote l none = pure (refuses 400 "email and password required", l)
try_login lib now token remote l (some body) =
    if is_incomplete body
    then pure (refuses 400 "email and password required", l)
    else let (allowed, l1) = allow_login lib now body remote l in
      limited lib now token body allowed >>= keeping l1

-- `HandleConsoleLogin`; `token` is the new random session token, `remote` the RemoteAddr, and the limiter is
-- `loginLimiter`.
unfoldable pub handle_console_login :
    Library → Config → ℕ → String → String → Option Login → Limiter → Tx (Reply LoggedIn × Limiter)
unfolding allow_login open_session get_user_by_email attempt pure ◌>>=◌
handle_console_login lib g now token remote body l =
    if g.billing then try_login lib now token remote l body else pure (no_store, l)

-- `HandleConsoleLogout`: an error of the store is dropped.
unfoldable pub handle_console_logout : Library → Config → String → Tx (Reply (Unit {0}))
unfolding delete_session console_store attempt pure ◌>>=◌
handle_console_logout lib g token = console_store g (
    if is_empty token
    then pure (answers tt)
    else (attempt (delete_session (lib.hash_key token)) >>= λ _. pure (answers tt)))
