-- ===== src/Store/Accounts/Keys.antt =====
-- Keys and sessions give access to their user until they end (coordinator/store).
use idlegrid.Prelude.{
  ℕ, ◌<◌, ◌≤◌, ltb, lt→ltb, ◌≡◌, refl, arith, true, false, none, some, List, [], ◌∷◌, String,
  lookup, string_discrete, ℕ_discrete, lookup-head,
}
use idlegrid.Store.Tables.{Db, User, ApiKey, Session}
use idlegrid.Store.Tx.{Runs, Runs-execute, Runs-statement}
use idlegrid.Store.Accounts.{
  key_user, revoke_rows, revoke_api_key, insert_session, create_session, session_user,
}

le→ltb : (a b : ℕ) → b ≤ a → ltb a b ≡ false
le→ltb a b h = ground arith

lookup-revoke_rows :
    (user id : ℕ) (hash : String) (k : ApiKey) (ks : List (String × ApiKey))
    → lookup string_discrete hash ks ≡ some k
    → k.id ≡ id
    → k.user_id ≡ user
    → lookup string_discrete hash (revoke_rows user id ks) ≡ some (record k { revoked = true })
unfolding lookup revoke_rows
lookup-revoke_rows user id hash k [] found a b = absurd (cc)
lookup-revoke_rows user id hash k ((h, j) ∷ ks) found a b =
    let rest = lookup-revoke_rows user id hash k ks in ground arith

-- A session that is created for an existing user, under a new hash, resolves to that user's id, email and
-- role before it expires, and to nobody from then on.
pub create_session-resolves :
    (hash : String) (user expires : ℕ) (u : User) (db : Db)
    → lookup string_discrete hash db.sessions ≡ none
    → lookup ℕ_discrete user db.users ≡ some u
    → Runs (create_session hash user expires) db (λ _ d.
      ((now : ℕ) → now < expires → session_user now hash d ≡ some (user, (u.email, u.role)))
      × ((now : ℕ) → expires ≤ now → session_user now hash d ≡ none))
unfolding create_session insert_session session_user
create_session-resolves hash user expires u db fresh known =
    let s : Session = record { user_id = user; expires_at = expires } in
    Runs-statement _ tt
      (record db {
        sessions = (hash, record { user_id = user; expires_at = expires }) ∷ db.sessions;
      })
      (rw (fresh, known, insert_session))
      (
        λ now live.
            rw (lookup-head string_discrete hash s db.sessions, session_user)
              (rw (lt→ltb now expires live, known) refl),
        λ now late.
            rw (lookup-head string_discrete hash s db.sessions, session_user)
              (rw (le→ltb now expires late) refl),
      )

-- After a key of a user is revoked by its id, it resolves to nobody.
pub revoke_api_key-key_user :
    (hash : String) (k : ApiKey) (db : Db)
    → lookup string_discrete hash db.api_keys ≡ some k
    → Runs (revoke_api_key k.user_id k.id) db (λ _ d. key_user hash d ≡ none)
unfolding revoke_api_key key_user
revoke_api_key-key_user hash k db found =
    Runs-execute _
      (rw (lookup-revoke_rows k.user_id k.id hash k db.api_keys found refl refl, key_user) refl)
