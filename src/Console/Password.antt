-- ===== src/Console/Password.antt =====
-- What a login checks (`HandleConsoleLogin` of coordinator/internal/server/console.go).
use idlegrid.Prelude.{
  ℕ, ◌+◌, ◌<◌, ◌≤◌, ◌≡◌, ◌≢◌, inl, inr, refl, ap, arith, Bool, true, false, not, ◌||◌, Option, none,
  some, List, String, string_discrete, ℕ_discrete, lookup,
}
use idlegrid.Limit.{Limiter}
use idlegrid.Store.Tables.{Db, User}
use idlegrid.Store.Tx.{
  Tx, Outcome, Result, ok, err, not_found, next, ◌>>=◌, pure, Runs, Runs-statement,
}
use idlegrid.Store.Tx.Quiet.{
  attempt, Quiet, Quiet-bind, Quiet-pure, Quiet-Runs, Quiet-attempt, Quiet-mono, Succeeds,
}
use idlegrid.Store.Ledger.{user_by_email}
use idlegrid.Store.Accounts.{session_user, insert_session, create_session}
use idlegrid.Store.Accounts.Keys.{create_session-resolves}
use idlegrid.Store.Listing.{credentials, credentials_of, text_or_empty, get_user_by_email}
use idlegrid.Gateway.Admit.{Config}
use idlegrid.Http.{Reply, answers, refuses, fails, Library, or_fail, checked}
use idlegrid.Store.Tx.Cases.{statement-cases}
use idlegrid.Http.Cases.{or_fail-cases}
use idlegrid.Console.Access.{nonempty}
use idlegrid.Console.Session.{
  is_empty, limited, keeping, is_incomplete, try_login, session_ttl, Login, LoggedIn, allow_login,
  open_session, handle_console_login,
}

-- The user of the reply is the one with that email, and the password is that user's.
abbrev pub Verified : Library → Login → Db → LoggedIn → Type 0
Verified lib body db r =
    (hash : String) × (credentials body.email db ≡ ok ((r.id, (r.role, hash)), db))
    × (hash ≢ "")
    × (lib.compare_password hash body.password ≡ true)

abbrev Checked : Library → Login → Db → Outcome (Reply LoggedIn) → Type 0
Checked lib body db (ok (answers r), fs, d) = Verified lib body db r
Checked lib body db (ok (refuses code msg), fs, d) = d ≡ db
Checked lib body db (ok (fails e), fs, d) = d ≡ db
Checked lib body db (err e, fs, d) = ⊥

-- A login answers a verified user, or leaves the database as it was.
abbrev pub LoginChecked : Library → Login → Db → Outcome (Reply LoggedIn × Limiter) → Type 0
LoginChecked lib body db (ok (answers r, l), fs, d) = Verified lib body db r
LoginChecked lib body db (ok (refuses code msg, l), fs, d) = d ≡ db
LoginChecked lib body db (ok (fails e, l), fs, d) = d ≡ db
LoginChecked lib body db (err e, fs, d) = ⊥

-- Reading a user's credentials changes nothing.
credentials_of-db :
    (id : ℕ) (o : Option User) (db : Db) (a : ℕ × (String × String)) (d : Db)
    → credentials_of id o db ≡ ok (a, d)
    → d ≡ db
credentials_of-db id none db a d h = absurd (cc)
credentials_of-db id (some u) db a d h = cc

found-db :
    (o : Option ℕ) (db : Db) (a : ℕ × (String × String)) (d : Db)
    → Path
        (Result ((ℕ × (String × String)) × Db))
        (elim o [
          | none ↦ err not_found
          | some id ↦ credentials_of id (lookup ℕ_discrete id db.users) db
        ])
        (ok (a, d))
    → d ≡ db
found-db none db a d h = absurd (cc)
found-db (some id) db a d h = credentials_of-db id (lookup ℕ_discrete id db.users) db a d h

credentials-db :
    (email : String) (db : Db) (a : ℕ × (String × String)) (d : Db)
    → credentials email db ≡ ok (a, d)
    → d ≡ db
unfolding credentials
credentials-db email db a d h = found-db (user_by_email email db.users) db a d h

module _ (lib : Library) (body : Login) (db : Db) where
  keeping-Checked :
      (l : Limiter) (r : Outcome (Reply LoggedIn))
      → Checked lib body db r
      → LoginChecked lib body db (next r (λ x. pure (x, l)))
  unfolding pure
  keeping-Checked l (ok (answers r), fs, d) h = h
  keeping-Checked l (ok (refuses code msg), fs, d) h = h
  keeping-Checked l (ok (fails e), fs, d) h = h
  keeping-Checked l (err e, fs, d) h = absurd h

  after_credentials :
      (now : ℕ) (token : String) (id : ℕ) (role hash : String) (fs : List Bool) (b : Bool)
      → credentials body.email db ≡ ok ((id, (role, hash)), db)
      → (is_empty hash || not (lib.compare_password hash body.password)) ≡ b
      → Checked lib body db (open_session lib now token body (ok (id, (role, hash))) fs db)
  unfolding open_session pure create_session
  after_credentials now token id role hash fs true found e = rw e refl
  after_credentials now token id role hash fs false found e =
      let f = insert_session (lib.hash_key token) id (now + session_ttl) in
      let k : Unit {0} → Tx (Reply LoggedIn) =
        λ _. pure (answers (record { token = token; id = id; email = body.email; role = role })) in
      rw e (elim (or_fail-cases f k fs db) [
        | inl (x, gs, q) ↦ rw q refl
        | inr (a, d, gs, h, q) ↦
            rw q (hash, found, nonempty hash (ground (arith, e)), ground (arith, e))
      ])

  logged_in :
      (now : ℕ) (token : String) (fs : List Bool)
      → Checked lib body db
          ((attempt (get_user_by_email body.email) >>= open_session lib now token body) fs db)
  unfolding get_user_by_email attempt ◌>>=◌ open_session pure
  logged_in now token fs = elim (statement-cases (credentials body.email) fs db) [
    | inl (e, gs, q) ↦ rw q refl
    | inr ((id, (role, hash)), d, gs, h, q) ↦
        let same = credentials-db body.email db _ d h in
        rw q (rw same (after_credentials now token id role hash gs _ (rw same at h) refl))
  ]

  limited-checked :
      (now : ℕ) (token : String) (l : Limiter) (b : Bool) (fs : List Bool)
      → LoginChecked lib body db ((limited lib now token body b >>= keeping l) fs db)
  unfolding ◌>>=◌ pure
  limited-checked now token l false fs = refl
  limited-checked now token l true fs = keeping-Checked l _ (logged_in now token fs)

  try_login-checked :
      (now : ℕ) (token remote : String) (l : Limiter) (b : Bool) (fs : List Bool)
      → is_incomplete body ≡ b
      → LoginChecked lib body db (try_login lib now token remote l (some body) fs db)
  unfolding pure
  try_login-checked now token remote l true fs e = rw e refl
  try_login-checked now token remote l false fs e = rw e (limited-checked now token _ _ fs)

  handle-checked :
      (g : Config) (now : ℕ) (token remote : String) (l : Limiter) (b : Bool) (fs : List Bool)
      → g.billing ≡ b
      → LoginChecked lib body db (handle_console_login lib g now token remote (some body) l fs db)
  unfolding handle_console_login pure
  handle-checked g now token remote l true fs e =
      rw e (try_login-checked now token remote l _ fs refl)
  handle-checked g now token remote l false fs e = rw e refl

  -- Whatever fails in the driver, a login that is answered gives the id and role of the user with that email, whose
  -- stored password hash is not empty and accepts the password; any other login leaves the database as it was.
  pub handle_console_login-checked :
      (g : Config) (now : ℕ) (token remote : String) (l : Limiter) (fs : List Bool)
      → LoginChecked lib body db (handle_console_login lib g now token remote (some body) l fs db)
  handle_console_login-checked g now token remote l fs =
      handle-checked g now token remote l _ fs refl

-- The user of the credentials.
user-credentials :
    (email hash : String) (id : ℕ) (u : User) (db : Db)
    → user_by_email email db.users ≡ some id
    → lookup ℕ_discrete id db.users ≡ some u
    → u.password_hash ≡ some hash
    → credentials email db ≡ ok ((id, (u.role, hash)), db)
unfolding credentials
user-credentials email hash id u db a b c =
    rw (a, credentials)
      (rw (b, credentials_of)
        (ap (λ (o : Option String). ok ((id, (u.role, text_or_empty o)), db)) c))

-- The token gives access to that user until the session ends.
abbrev pub Resolves : Library → ℕ → String → ℕ → User → Db → Type 0
Resolves lib expires token id u d =
    ((now : ℕ)
      → now < expires
      → session_user now (lib.hash_key token) d ≡ some (id, (u.email, u.role)))
    × ((now : ℕ) → expires ≤ now → session_user now (lib.hash_key token) d ≡ none)

module _ (lib : Library) (body : Login) (db : Db) (now id : ℕ) (token hash : String) (u : User)
    (fresh : lookup string_discrete (lib.hash_key token) db.sessions ≡ none)
    (owner : user_by_email body.email db.users ≡ some id)
    (known : lookup ℕ_discrete id db.users ≡ some u) (stored : u.password_hash ≡ some hash)
    (accepted : (is_empty hash || not (lib.compare_password hash body.password)) ≡ false) where
  abbrev Opened : Reply LoggedIn → Db → Type 0
  Opened r d =
      (r ≡ answers (record { token = token; id = id; email = body.email; role = u.role }))
      × Resolves lib (now + session_ttl) token id u d

  after_create :
      (r : Result (Unit {0})) (d : Db)
      → Succeeds (λ _ d. Resolves lib (now + session_ttl) token id u d) r d
      → Quiet
          (checked
            (λ _.
              pure (answers (record { token = token; id = id; email = body.email; role = u.role })))
            r)
          d
          Opened
  after_create (ok _) d h = Quiet-pure _ (refl, h)
  after_create (err e) d h = absurd h

  opened : Quiet (open_session lib now token body (ok (id, (u.role, hash)))) db Opened
  unfolding open_session or_fail
  opened = rw accepted (
      Quiet-bind _
        (Quiet-attempt (
          Quiet-Runs
            (create_session-resolves (lib.hash_key token) id (now + session_ttl) u db fresh known)))
        after_create)

  after_found :
      (r : Result (ℕ × (String × String))) (d : Db)
      → Succeeds (λ a d. (a ≡ (id, (u.role, hash))) × (d ≡ db)) r d
      → Quiet (open_session lib now token body r) d Opened
  after_found (ok a) d h = rw (h.0, h.1) opened
  after_found (err e) d h = absurd h

  found : Runs (get_user_by_email body.email) db (λ a d. (a ≡ (id, (u.role, hash))) × (d ≡ db))
  unfolding get_user_by_email
  found =
      Runs-statement _ (id, (u.role, hash)) db
        (user-credentials body.email hash id u db owner known stored) (refl, refl)

  logs_in : Quiet (limited lib now token body true) db Opened
  logs_in = Quiet-bind _ (Quiet-attempt (Quiet-Runs found)) after_found

  kept_limiter :
      (l : Limiter) (b : Bool)
      → b ≡ true
      → Quiet (limited lib now token body b >>= keeping l) db (λ r d. Opened r.0 d × (r.1 ≡ l))
  kept_limiter l b e = rw e (Quiet-bind Opened logs_in (λ r d h. Quiet-pure _ (h, refl)))

  -- With the email and password of a user, under the rate limit, and with no failure of the driver, a login answers
  -- a new token that resolves to that user for 7 days and to nobody after that.
  pub handle_console_login-Resolves :
      (g : Config) (remote : String) (l : Limiter)
      → g.billing ≡ true
      → is_incomplete body ≡ false
      → (allow_login lib now body remote l).0 ≡ true
      → Quiet (handle_console_login lib g now token remote (some body) l) db (λ r d.
        (r.0 ≡ answers (record { token = token; id = id; email = body.email; role = u.role }))
        × Resolves lib (now + session_ttl) token id u d
        × (r.1 ≡ (allow_login lib now body remote l).1))
  unfolding handle_console_login
  handle_console_login-Resolves g remote l store complete allowed = rw store (
      rw complete (
        Quiet-mono _
          (kept_limiter (allow_login lib now body remote l).1 (allow_login lib now body remote l).0
            allowed)
          (λ r d h. (h.0.0, h.0.1, h.1))))
