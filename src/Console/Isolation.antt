-- ===== src/Console/Isolation.antt =====
-- What a user's requests leave alone (coordinator/internal/server/console.go).
use idlegrid.Prelude.{
  ℕ, ◌==◌, ◌≡◌, ◌≢◌, inl, inr, subst, ap, ◌∙◌, arith, Bool, true, false, Option-cases, Option, none,
  some, List, [], ◌∷◌, String, if_neg, if◌then◌else◌, string_discrete, ℕ_discrete, lookup,
}
use idlegrid.Store.Tables.{Db, ApiKey}
use idlegrid.Store.Tx.{Tx, Result, ok, err, pure}
use idlegrid.Store.Tx.Keeps.{
  ok-db, final, Keeps, Keeps-pure, Keeps-bind, Keeps-statement, Keeps-query, Keeps-execute,
  Keeps-attempt,
}
use idlegrid.Store.Accounts.{Auth, insert_key, create_api_key_with_id, revoke_rows, revoke_api_key}
use idlegrid.Store.Listing.{list_api_keys}
use idlegrid.Gateway.Admit.{Config}
use idlegrid.Http.{
  Method, get, post, put, delete, other_method, Reply, fails, Library, or_fail, checked, no_store,
  console_store,
}
use idlegrid.Console.Account.{keys_by_method, revoke_key, handle_console_keys}

Keeps-checked :
    {A B : Type 0} (I : Db → Type 0) (k : A → Tx (Reply B)) (r : Result A)
    → ((a : A) → Keeps I (k a))
    → Keeps I (checked k r)
Keeps-checked I k (ok a) h = h a
Keeps-checked I k (err e) h = Keeps-pure I (fails e)

pub Keeps-or_fail :
    {A B : Type 0} (I : Db → Type 0) (m : Tx A) (k : A → Tx (Reply B))
    → Keeps I m
    → ((a : A) → Keeps I (k a))
    → Keeps I (or_fail m k)
unfolding or_fail
Keeps-or_fail I m k h t = Keeps-bind I (Keeps-attempt I h) (λ r. Keeps-checked I k r t)

Keeps-if :
    {A : Type 0} (I : Db → Type 0) (b : Bool) (m k : Tx A)
    → Keeps I m
    → Keeps I k
    → Keeps I (if b then m else k)
Keeps-if I true m k h j = h
Keeps-if I false m k h j = j

pub Keeps-console_store :
    {A : Type 0} (I : Db → Type 0) (g : Config) (m : Tx (Reply A))
    → Keeps I m
    → Keeps I (console_store g m)
unfolding console_store
Keeps-console_store I g m h = Keeps-if I g.billing m (pure no_store) h (Keeps-pure I no_store)

-- The row of another user's key.
abbrev KeyRowIs : String → ApiKey → Db → Type 0
KeyRowIs hash k db = lookup string_discrete hash db.api_keys ≡ some k

lookup-revoke_rows_other :
    (user id : ℕ) (hash : String) (k : ApiKey) (ks : List (String × ApiKey))
    → k.user_id ≢ user
    → lookup string_discrete hash ks ≡ some k
    → lookup string_discrete hash (revoke_rows user id ks) ≡ some k
unfolding lookup revoke_rows
lookup-revoke_rows_other user id hash k [] other found = found
lookup-revoke_rows_other user id hash k ((h, j) ∷ ks) other found =
    let rest = lookup-revoke_rows_other user id hash k ks other in ground arith

fresh_key :
    (hash new : String) (k : ApiKey) (j : ApiKey) (ks : List (String × ApiKey))
    → lookup string_discrete hash ks ≡ some k
    → lookup string_discrete new ks ≡ none
    → lookup string_discrete hash ((new, j) ∷ ks) ≡ some k
fresh_key hash new k j ks found fresh = elim (string_discrete new hash) [
  | yes e ↦ absurd (cc (found, fresh, ap (λ s. lookup string_discrete s ks) e))
  | no e ↦
      unfold lookup in
      (if_neg (string_discrete new hash) e (some j) (lookup string_discrete hash ks) ∙ found)
]

keeps_inserted :
    (hash : String) (k : ApiKey) (user : ℕ) (new label : String) (db : Db)
    → KeyRowIs hash k db
    → (a : ℕ) (d : Db) → insert_key user new label db ≡ ok (a, d)
    → KeyRowIs hash k d
unfolding insert_key
keeps_inserted hash k user new label db found a d h =
    elim (Option-cases (lookup string_discrete new db.api_keys)) [
      | inr (x, e) ↦ absurd (cc (rw (e, insert_key) at h))
      | inl e ↦ elim (Option-cases (lookup ℕ_discrete user db.users)) [
        | inl w ↦ absurd (cc (rw (w, insert_key) at (rw (e, insert_key) at h)))
        | inr (x, w) ↦
            let eq = rw (w, insert_key) at (rw (e, insert_key) at h) in
            subst (KeyRowIs hash k) (ok-db _ _ _ _ eq) (fresh_key hash new k _ db.api_keys found e)
      ]
    ]

module _ (hash : String) (k : ApiKey) (u : Auth) (other : k.user_id ≢ u.0) where
  abbrev Kept : Db → Type 0
  Kept = KeyRowIs hash k

  Keeps-revoked : (id : ℕ) → Keeps Kept (revoke_api_key u.0 id)
  unfolding revoke_api_key
  Keeps-revoked id =
      Keeps-execute Kept _
        (λ db found. lookup-revoke_rows_other u.0 id hash k db.api_keys other found)

  Keeps-revoke_key : (id : Option ℕ) → Keeps Kept (revoke_key u id)
  Keeps-revoke_key none = Keeps-pure Kept _
  Keeps-revoke_key (some id) =
      Keeps-if Kept (id == 0) _ _ (Keeps-pure Kept _)
        (Keeps-or_fail Kept _ _ (Keeps-revoked id) (λ _. Keeps-pure Kept _))

  Keeps-created : (new label : String) → Keeps Kept (create_api_key_with_id u.0 new label)
  unfolding create_api_key_with_id
  Keeps-created new label =
      Keeps-statement Kept _ (λ db found. keeps_inserted hash k u.0 new label db found)

  Keeps-listed : Keeps Kept (list_api_keys u.0)
  unfolding list_api_keys
  Keeps-listed = Keeps-query Kept _

  Keeps-by_method :
      (lib : Library) (raw : String) (label : Option String) (id : Option ℕ) (method : Method)
      → Keeps Kept (keys_by_method lib raw u label id method)
  Keeps-by_method lib raw label id get =
      Keeps-or_fail Kept _ _ Keeps-listed (λ rows. Keeps-pure Kept _)
  Keeps-by_method lib raw label id post =
      Keeps-or_fail Kept _ _ (Keeps-created _ _) (λ n. Keeps-pure Kept _)
  Keeps-by_method lib raw label id put = Keeps-pure Kept _
  Keeps-by_method lib raw label id delete = Keeps-revoke_key id
  Keeps-by_method lib raw label id other_method = Keeps-pure Kept _

  -- A request of one user to the keys endpoint, of any method and whatever fails in the driver, leaves every key row of
  -- another user as it was.
  pub handle_console_keys-other_user :
      (lib : Library) (g : Config) (raw : String) (method : Method) (label : Option String)
      (id : Option ℕ) (fs : List Bool) (db : Db)
      → lookup string_discrete hash db.api_keys ≡ some k
      → lookup string_discrete hash
          (final (handle_console_keys lib g raw method u label id fs db)).api_keys
        ≡ some k
  unfolding handle_console_keys
  handle_console_keys-other_user lib g raw method label id fs db found =
      (Keeps-console_store Kept g _ (Keeps-by_method lib raw label id method)).from fs db found
