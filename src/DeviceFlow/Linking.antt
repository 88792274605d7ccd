-- ===== src/DeviceFlow/Linking.antt =====
-- A device login from the command line's request to its token (coordinator/internal/server/device.go).

use idlegrid.Prelude.{
  ℕ, ◌+◌, ◌<◌, ◌≤◌, ◌≡◌, refl, ◌∙◌, Bool, true, false, none, some, List, [], String,
  string_discrete, ℕ_discrete, lookup, lookup-head,
}
use idlegrid.Limit.{Limiter, allow}
use idlegrid.Store.Tables.{Db, User}
use idlegrid.Store.Tx.{Tx, ok, err, Outcome, ◌>>=◌, pure}
use idlegrid.Store.Tx.Quiet.{attempt}
use idlegrid.Store.Accounts.{Auth}
use idlegrid.Store.Device.{uses_code, approve_device_code, token_user}
use idlegrid.Store.Device.Login.{
  created, approved, approved_db, redeemed, create_lem, approve_lem, redeem_lem, token_user_lem,
}
use idlegrid.Gateway.Admit.{Config}
use idlegrid.Http.{post, Reply, answers, Library, or_fail, console_store}
use idlegrid.Console.Session.{is_empty}
use idlegrid.DeviceFlow.Code.{new_user_code, stored_code, stripped_code, stored_code-new_user_code}
use idlegrid.DeviceFlow.Api.{
  device_code_ttl, Started, started, paced, handle_device_code, handle_device_token,
  handle_console_device_approve, start_login, poll, approval,
}

-- A call without a failure of the driver, of which one is known to succeed.
or_fail_ok :
    {A B : Type 0} (m : Tx A) (k : A → Tx (Reply B)) (db d : Db) (a : A)
    → m [] db ≡ (ok a, [], d)
    → or_fail m k [] db ≡ k a [] d
unfolding or_fail attempt ◌>>=◌
or_fail_ok m k db d a h = rw h refl

paced_ok :
    {A : Type 0} (now : ℕ) (remote busy : String) (l : Limiter) (m : Tx (Reply A)) (db d : Db)
    (r : Reply A)
    → (allow now remote l).0 ≡ true
    → m [] db ≡ (ok r, [], d)
    → paced now remote busy l m [] db ≡ (ok (r, (allow now remote l).1), [], d)
unfolding paced ◌>>=◌ pure
paced_ok now remote busy l m db d r allowed h = rw (allowed, paced) (rw h refl)

stored_ok :
    {A : Type 0} (g : Config) (m : Tx (Reply A)) (fs : List Bool) (db : Db)
    → g.billing ≡ true
    → console_store g m fs db ≡ m fs db
unfolding console_store
stored_ok g m fs db h = rw h refl

module _ (lib : Library) (g : Config) (env remote : String) (random : ℕ → ℕ)
    (device_code token : String) (t0 t1 t2 : ℕ) (caller : Auth) (u : User) (db : Db) (l : Limiter)
    (store : g.billing ≡ true) where
  abbrev code : String
  code = stored_code (new_user_code random)

  abbrev hash : String
  hash = lib.hash_key device_code

  abbrev expires : ℕ
  expires = t0 + device_code_ttl

  abbrev pending : Db
  pending = created hash code db expires

  abbrev linked : Db
  linked = approved_db hash code db t1 caller.0 expires

  start_lem :
      lookup string_discrete hash db.device_codes ≡ none
      → uses_code code db.device_codes ≡ false
      → start_login lib g env t0 device_code random [] db
        ≡ (ok (answers (started env device_code random)), [], pending)
  unfolding pure
  start_lem fresh unused =
      stored_ok g _ [] db store
      ∙ or_fail_ok _ _ db _ tt (create_lem hash code db expires fresh unused)

  typed_lem :
      (typed : String)
      → stripped_code typed ≡ code
      → lib.to_upper code ≡ code
      → uses_code code db.device_codes ≡ false
      → lookup ℕ_discrete caller.0 db.users ≡ some u
      → t1 < expires
      → handle_console_device_approve lib g t1 post caller (some typed) [] pending
        ≡ (ok (answers tt), [], linked)
  unfolding handle_console_device_approve pure
  typed_lem typed same upper unused known live =
      rw (same, upper, (stored_code-new_user_code random).2)
        (stored_ok g _ [] pending store
          ∙ or_fail_ok (approve_device_code t1 code caller.0) (λ done. pure (approval done)) pending
              linked true (approve_lem hash code db t1 caller.0 expires live unused u known))

  poll_lem :
      lookup string_discrete (lib.hash_key token) db.tokens ≡ none
      → lookup ℕ_discrete caller.0 db.users ≡ some u
      → t2 ≤ expires
      → is_empty device_code ≡ false
      → poll lib g t2 token (some device_code) [] linked ≡ (
        ok (answers token),
        [],
        redeemed t2 hash
            (lib.hash_key token)
            caller.0
            (approved hash code db t1 caller.0 expires)
            linked,
      )
  unfolding pure string_discrete
  poll_lem fresh known live named =
      let c = approved hash code db t1 caller.0 expires in
      rw named (
        stored_ok g _ [] linked store
        ∙ or_fail_ok _ _ linked _ (caller.0, "ok")
            (redeem_lem t2 hash (lib.hash_key token) linked c caller.0 u fresh known
              (lookup-head string_discrete hash c db.device_codes) refl refl live))

-- What the login command and the console do, in turn: start a login, approve it with what the user types, and poll.
abbrev pub link :
    Library
    → Config
    → String
    → String
    → (ℕ → ℕ)
    → String
    → String
    → ℕ
    → ℕ
    → ℕ
    → Auth
    → String
    → Limiter
    → Tx ((Reply Started × Reply (Unit {0})) × Reply String)
link lib g env remote random device_code token t0 t1 t2 caller typed l = do
  begun ← handle_device_code lib g env t0 device_code random remote post l
  done ← handle_console_device_approve lib g t1 post caller (some typed)
  token_reply ← handle_device_token lib g t2 token remote post (some device_code) begun.1
  pure ((begun.0, done), token_reply.0)

abbrev pub Linked :
    Library
    → Config
    → String
    → (ℕ → ℕ)
    → String
    → String
    → ℕ
    → User
    → Outcome ((Reply Started × Reply (Unit {0})) × Reply String)
    → Type 0
Linked lib g env random device_code token user u (ok r, fs, d) =
    (r ≡ ((answers (started env device_code random), answers tt), answers token))
    × (token_user (lib.hash_key token) d ≡ ((user, u.email), true))
Linked lib g env random device_code token user u (err e, fs, d) = ⊥

-- A user who types the code that is shown, in time and with no failure of the driver, gives the login command a
-- provider token that stands for that user. The code may be typed in any way that differs by dashes and spaces.
-- The hashes and the code are new, upper-casing leaves the code as it is, and the address is under its rate limit.
pub link-token_user :
    (lib : Library) (g : Config) (env remote : String) (random : ℕ → ℕ) (device_code token : String)
    (t0 t1 t2 : ℕ) (caller : Auth) (u : User) (db : Db) (l : Limiter) (typed : String)
    → g.billing ≡ true
    → lookup string_discrete (lib.hash_key device_code) db.device_codes ≡ none
    → uses_code (stored_code (new_user_code random)) db.device_codes ≡ false
    → lookup string_discrete (lib.hash_key token) db.tokens ≡ none
    → lookup ℕ_discrete caller.0 db.users ≡ some u
    → stripped_code typed ≡ stored_code (new_user_code random)
    → lib.to_upper (stored_code (new_user_code random)) ≡ stored_code (new_user_code random)
    → is_empty device_code ≡ false
    → (allow t0 remote l).0 ≡ true
    → (allow t2 remote (allow t0 remote l).1).0 ≡ true
    → t1 < t0 + device_code_ttl
    → t2 ≤ t0 + device_code_ttl
    → Linked lib g env random device_code token caller.0 u
        (link lib g env remote random device_code token t0 t1 t2 caller typed l [] db)
unfolding handle_device_code handle_device_token ◌>>=◌ pure
link-token_user lib g env remote random device_code token t0 t1 t2 caller u db l typed store fresh
      unused new known same upper named first second live alive =
    let start =
      start_lem lib g env remote random device_code token t0 t1 t2 caller u db l store fresh
        unused in
    let approve =
      typed_lem lib g env remote random device_code token t0 t1 t2 caller u db l store typed same
        upper unused known live in
    let redeem =
      poll_lem lib g env remote random device_code token t0 t1 t2 caller u db l store new known
        alive named in
    rw (paced_ok t0 remote "slow down" l _ db _ _ first start) (
      rw approve (
        rw (paced_ok t2 remote "slow_down" _ _ _ _ _ second redeem) (
          refl,
          token_user_lem t2 caller.0 (lib.hash_key device_code) (lib.hash_key token)
              (approved (lib.hash_key device_code) (stored_code (new_user_code random)) db t1
                caller.0 (t0 + device_code_ttl))
              u
              (approved_db (lib.hash_key device_code) (stored_code (new_user_code random)) db t1
                caller.0 (t0 + device_code_ttl))
              known,
        )))
