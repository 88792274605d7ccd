-- ===== src/Console/NewUser.antt =====
-- What an admin's POST of a user does (`HandleConsoleAdminUsers` of coordinator/internal/server/console.go).
use idlegrid.Prelude.{
  ℕ, ◌+◌, ◌≡◌, inl, inr, refl, ap, arith, true, Option, Option-cases, none, some, List, [], ◌∷◌,
  String, if_pos, string_discrete, ℕ_discrete, lookup, insert, lookup-head, lookup-insert_self,
}
use idlegrid.Store.Tables.{Db, User}
use idlegrid.Store.Tx.{Result, ok, err, pure, Runs, Runs-statement, Runs-execute}
use idlegrid.Store.Tx.Quiet.{Quiet, Quiet-bind, Quiet-pure, Quiet-Runs, Quiet-attempt, Succeeds}
use idlegrid.Store.Ledger.{user_by_email}
use idlegrid.Store.Accounts.{update_user, upsert_user, ensure_user, set_password_hash}
use idlegrid.Store.Listing.{credentials, credentials_of, text_or_empty}
use idlegrid.Http.{Reply, answers, Library, or_fail, checked}
use idlegrid.Console.Admin.{
  UsersReply, created, NewUser, role_of, is_valid, set_password, create_user,
}

user_by_email-insert :
    (email : String) (id : ℕ) (u v : User) (us : List (ℕ × User))
    → lookup ℕ_discrete id us ≡ some u
    → v.email ≡ u.email
    → user_by_email email (insert ℕ_discrete id v us) ≡ user_by_email email us
unfolding lookup insert user_by_email
user_by_email-insert email id u v [] found same = absurd (cc)
user_by_email-insert email id u v ((i, w) ∷ us) found same =
    let rest = user_by_email-insert email id u v us in ground arith

user_by_email-lookup :
    (email : String) (id : ℕ) (us : List (ℕ × User))
    → user_by_email email us ≡ some id
    → (u : User) × (lookup ℕ_discrete id us ≡ some u)
unfolding lookup user_by_email
user_by_email-lookup email id [] found = absurd (cc)
user_by_email-lookup email id ((i, w) ∷ us) found = elim (ℕ_discrete i id) [
  | yes e ↦ (w, if_pos (ℕ_discrete i id) e (some w) (lookup ℕ_discrete id us))
  | no e ↦ let (u, h) = user_by_email-lookup email id us (ground arith) in (u, ground arith)
]

-- The row of the user, found by email.
abbrev UserIs : String → ℕ → (User → Type 0) → Db → Type 0
UserIs email id P db =
    (user_by_email email db.users ≡ some id)
    × (u : User) × (lookup ℕ_discrete id db.users ≡ some u)
    × P u

updated :
    (email : String) (id : ℕ) (f : User → User) (P Q : User → Type 0) (db : Db)
    → ((u : User) → (f u).email ≡ u.email)
    → ((u : User) → P u → Q (f u))
    → UserIs email id P db
    → UserIs email id Q (update_user id f db)
unfolding update_user
updated email id f P Q db same k (found, u, row, p) =
    rw (row, update_user)
      (
        rw (user_by_email-insert email id u (f u) db.users row (same u)) found,
        f u,
        lookup-insert_self ℕ_discrete id (f u) db.users,
        k u p,
      )

-- The upsert ends with the user of that email, who has the role.
upserted :
    (email role : String) (db : Db)
    → Runs (ensure_user email role) db (λ id d. UserIs email id (λ u. u.role ≡ role) d)
unfolding ensure_user upsert_user user_by_email
upserted email role db = elim (Option-cases (user_by_email email db.users)) [
  | inl e ↦
      let u : User = record {
        email = email;
        role = role;
        password_hash = none;
        enrollment_code = none;
      } in
      Runs-statement (upsert_user email role) db.next_user
        (record db {
          users =
              (
                db.next_user,
                record { email = email; role = role; password_hash = none; enrollment_code = none },
              )
              ∷ db.users;
          next_user = db.next_user + 1;
        })
        (rw (e, upsert_user) refl)
        (
          if_pos (string_discrete email email) refl _ _,
          u,
          lookup-head ℕ_discrete db.next_user u db.users,
          refl,
        )
  | inr (id, e) ↦
      let (u, row) = user_by_email-lookup email id db.users e in
      Runs-statement (upsert_user email role) id (update_user id (λ u. record u { role = role }) db)
        (rw (e, upsert_user) refl)
        (updated email id (λ u. record u { role = role }) (λ u. Unit) (λ u. u.role ≡ role) db
          (λ u. refl) (λ u _. refl) (e, u, row, tt))
]

abbrev HasLogin : String → String → User → Type 0
HasLogin role hash u = (u.role ≡ role) × (u.password_hash ≡ some hash)

UserIs-credentials :
    (email role hash : String) (id : ℕ) (db : Db)
    → UserIs email id (HasLogin role hash) db
    → credentials email db ≡ ok ((id, (role, hash)), db)
unfolding credentials
UserIs-credentials email role hash id db (found, u, row, h) =
    let same : (u.role, u.password_hash) ≡ (role, some hash) = cc in
    rw (found, credentials)
      (rw (row, credentials_of)
        (ap (λ (p : String × Option String). ok ((id, (p.0, text_or_empty p.1)), db)) same))

module _ (lib : Library) (b : NewUser) (hash : String) where
  abbrev Created : Reply UsersReply → Db → Type 0
  Created r d =
      (id : ℕ) × (r ≡ answers (created id b.email (role_of b.role)))
      × (credentials b.email d ≡ ok ((id, (role_of b.role, hash)), d))

  with_password :
      (id : ℕ) (r : Result (Unit {0})) (d : Db)
      → Succeeds (λ _ d. UserIs b.email id (HasLogin (role_of b.role) hash) d) r d
      → Quiet (checked (λ _. pure (answers (created id b.email (role_of b.role)))) r) d Created
  with_password id (ok _) d h =
      Quiet-pure _ (id, refl, UserIs-credentials b.email (role_of b.role) hash id d h)
  with_password id (err e) d h = absurd h

  password_set :
      (id : ℕ) (d : Db)
      → UserIs b.email id (λ u. u.role ≡ role_of b.role) d
      → Quiet (set_password id b (some hash)) d Created
  unfolding set_password_hash or_fail
  password_set id d h =
      Quiet-bind _
        (Quiet-attempt (
          Quiet-Runs (
            Runs-execute (update_user id (λ u. record u { password_hash = some hash })) (
              updated b.email id (λ u. record u { password_hash = some hash })
                (λ u. u.role ≡ role_of b.role) (HasLogin (role_of b.role) hash) d (λ u. refl)
                (λ u r. (r, refl)) h))))
        (with_password id)

  after_upsert :
      (r : Result ℕ) (d : Db)
      → Succeeds (λ id d. UserIs b.email id (λ u. u.role ≡ role_of b.role) d) r d
      → Quiet (checked (λ id. set_password id b (some hash)) r) d Created
  after_upsert (ok id) d h = password_set id d h
  after_upsert (err e) d h = absurd h

  -- With no failure of the driver, the POST of a valid user leaves a user with that email whose role and password hash
  -- are the ones of the body, whether or not a user had that email before: an existing one gets the new role and
  -- password.
  pub create_user-credentials :
      (db : Db)
      → is_valid b ≡ true
      → lib.generate_hash b.password ≡ some hash
      → Quiet (create_user lib (some b)) db (λ r d.
        (id : ℕ) × (r ≡ answers (created id b.email (role_of b.role)))
        × (credentials b.email d ≡ ok ((id, (role_of b.role, hash)), d)))
  unfolding create_user or_fail
  create_user-credentials db valid hashed = rw valid (
      rw hashed (
        Quiet-bind _ (Quiet-attempt (Quiet-Runs (upserted b.email (role_of b.role) db)))
          after_upsert))
