-- ===== src/Console/Access.antt =====
-- Who gets past `requireSession`, `requireAdminSession` and `HandleConsoleLogin`
-- (coordinator/internal/server/console.go).
use idlegrid.Prelude.{
  ℕ, ◌≡◌, ◌≢◌, ◌⊎◌, inl, inr, refl, arith, Bool, true, false, not, ◌&&◌, ◌||◌, Option, none, some,
  List, [], ◌∷◌, String, string_discrete, if_pos, if_neg,
}
use idlegrid.Registry.{contains}
use idlegrid.Store.Tables.{Db}
use idlegrid.Store.Tx.{Tx, Outcome, ok, err, next, ◌>>=◌, pure, query, recover, statement}
use idlegrid.Store.Accounts.{Auth, session_user, resolve_session}
use idlegrid.Gateway.Admit.{Config}
use idlegrid.Http.{Reply, answers, refuses, fails, Library}
use idlegrid.Console.Session.{
  is_empty, as_user, as_admin, key_admin, without_bearer, require_session, require_admin_session,
  session_user as caller,
}

-- The reply is 401 or 403, and the database is as it was.
abbrev pub Denied : {A : Type 0} → Db → Outcome (Reply A) → Type 0
Denied db (ok (refuses code msg), fs, d) = ((code ≡ 401) ⊎ (code ≡ 403)) × (d ≡ db)
Denied db (ok (answers a), fs, d) = ⊥
Denied db (ok (fails e), fs, d) = ⊥
Denied db (err e, fs, d) = ⊥

-- The call is refused, or is the handler's for a user who passes the test.
abbrev pub Guarded :
    {A : Type 0} → (Auth → Type 0) → (Auth → Tx (Reply A)) → Db → Outcome (Reply A) → Type 0
Guarded Passes handler db r =
    Denied db r ⊎ ((u : Auth) × (fs : List Bool) × Passes u × (r ≡ handler u fs db))

-- A lookup of a session ends with its user or, where the driver fails, with nobody.
resolve_session-cases :
    (now : ℕ) (hash : String) (fs : List Bool) (db : Db)
    → (gs : List Bool) × ((resolve_session now hash fs db ≡ (ok none, gs, db))
        ⊎ (resolve_session now hash fs db ≡ (ok (session_user now hash db), gs, db)))
unfolding resolve_session recover query statement
resolve_session-cases now hash [] db = ([], inr refl)
resolve_session-cases now hash (true ∷ fs) db = (fs, inl refl)
resolve_session-cases now hash (false ∷ fs) db = (fs, inr refl)

module _ {A : Type 0} (handler : Auth → Tx (Reply A)) (Passes : Auth → Type 0) (db : Db)
    (fs : List Bool) where
  as_user-nobody :
      Guarded Passes handler db (next {A = Option Auth} (ok none, fs, db) (as_user handler))
  unfolding pure
  as_user-nobody = inl (inl refl, refl)

  as_user-Guarded :
      (o : Option Auth)
      → ((u : Auth) → o ≡ some u → Passes u)
      → Guarded Passes handler db (next (ok o, fs, db) (as_user handler))
  unfolding pure
  as_user-Guarded none p = inl (inl refl, refl)
  as_user-Guarded (some u) p = inr (u, fs, p u refl, refl)

-- The session of the token is live and its user has passed the test.
abbrev pub Live : Library → Config → ℕ → String → Db → Auth → Type 0
Live lib g now token db u =
    (g.billing ≡ true) × (token ≢ "") × (session_user now (lib.hash_key token) db ≡ some u)

pub nonempty : (s : String) → is_empty s ≡ false → s ≢ ""
nonempty s h = λ e. absurd (ground arith)

-- The outcome of `require_session` by cases on the token and the store.
require_session-cases :
    {A : Type 0} (lib : Library) (g : Config) (now : ℕ) (token : String)
    (handler : Auth → Tx (Reply A)) (fs : List Bool) (db : Db) (b : Bool)
    → (is_empty token || not g.billing) ≡ b
    → Guarded (Live lib g now token db) handler db (require_session lib g now token handler fs db)
unfolding require_session caller ◌>>=◌ pure
require_session-cases lib g now token handler fs db true e = rw e (inl (inl refl, refl))
require_session-cases lib g now token handler fs db false e =
    let (gs, c) = resolve_session-cases now (lib.hash_key token) fs db in
    let Passes = Live lib g now token db in
    rw e (elim c [
      | inl q ↦ rw q (as_user-nobody handler Passes db gs)
      | inr q ↦ rw q (
          as_user-Guarded handler Passes db gs (session_user now (lib.hash_key token) db)
            (λ u found. (ground (arith, e), nonempty token (ground (arith, e)), found)))
    ])

-- Whatever fails in the driver, `require_session` answers 401 or 403 and leaves the database as it was, or runs the
-- handler on the database as it was, for a user whose session the token is, and live.
pub require_session-guards :
    {A : Type 0} (lib : Library) (g : Config) (now : ℕ) (token : String)
    (handler : Auth → Tx (Reply A)) (fs : List Bool) (db : Db)
    → Guarded (Live lib g now token db) handler db (require_session lib g now token handler fs db)
require_session-guards lib g now token handler fs db =
    require_session-cases lib g now token handler fs db _ refl

-- An environment key was sent, or the user of a live session is an admin.
abbrev pub AdminCall : Library → Config → ℕ → String → String → Db → Auth → Type 0
AdminCall lib g now authorization token db u =
    ((u ≡ key_admin) × (contains (without_bearer authorization) g.api_keys ≡ true))
    ⊎ ((u.1.1 ≡ "admin") × Live lib g now token db u)

module _ {A : Type 0} (handler : Auth → Tx (Reply A)) (Passes Admin : Auth → Type 0) (db : Db)
    (admit : (u : Auth) → u.1.1 ≡ "admin" → Passes u → Admin u) where
  role_checked :
      (u : Auth) (fs : List Bool) → Passes u → Guarded Admin handler db (as_admin handler u fs db)
  unfolding pure
  role_checked u fs p = elim (string_discrete u.1.1 "admin") [
    | yes e ↦
        rw (if_pos (string_discrete u.1.1 "admin") e true false) (inr (u, fs, admit u e p, refl))
    | no e ↦ rw (if_neg (string_discrete u.1.1 "admin") e true false) (inl (inr refl, refl))
  ]

  only_admins :
      (r : Outcome (Reply A)) → Guarded Passes (as_admin handler) db r → Guarded Admin handler db r
  only_admins r (inl d) = inl d
  only_admins r (inr (u, fs, p, e)) = rw e (role_checked u fs p)

admin_by_key :
    {A : Type 0} (lib : Library) (g : Config) (now : ℕ) (authorization token : String)
    (handler : Auth → Tx (Reply A)) (fs : List Bool) (db : Db) (b : Bool)
    → (not (is_empty (without_bearer authorization))
        && contains (without_bearer authorization) g.api_keys)
      ≡ b
    → Guarded
        (AdminCall lib g now authorization token db)
        handler
        db
        (require_admin_session lib g now authorization token handler fs db)
unfolding require_admin_session
admin_by_key lib g now authorization token handler fs db true e =
    rw e (inr (key_admin, fs, inl (refl, ground (arith, e)), refl))
admin_by_key lib g now authorization token handler fs db false e = rw e (
    only_admins handler (Live lib g now token db) (AdminCall lib g now authorization token db) db
      (λ u role live. inr (role, live)) _
      (require_session-guards lib g now token (as_admin handler) fs db))

-- Whatever fails in the driver, `require_admin_session` answers 401 or 403 and leaves the database as it was, or
-- runs the handler on the database as it was, for the caller with an environment key or for a user with the
-- role admin whose session the token is, and live.
pub require_admin_session-guards :
    {A : Type 0} (lib : Library) (g : Config) (now : ℕ) (authorization token : String)
    (handler : Auth → Tx (Reply A)) (fs : List Bool) (db : Db)
    → Guarded
        (AdminCall lib g now authorization token db)
        handler
        db
        (require_admin_session lib g now authorization token handler fs db)
require_admin_session-guards lib g now authorization token handler fs db =
    admin_by_key lib g now authorization token handler fs db _ refl
