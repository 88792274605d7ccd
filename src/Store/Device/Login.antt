-- ===== src/Store/Device/Login.antt =====
-- The login of coordinator/store/postgres.go: a device code is created, approved and redeemed for a
-- provider token.
use idlegrid.Prelude.{
  ℕ, ◌≤◌, ◌<◌, ltb, lt→ltb, ◌≡◌, ◌≢◌, refl, ap, ◌∙◌, Bool, true, false, Bool-cases, Option,
  Option-cases, none, some, List, [], ◌∷◌, String, if_pos, if◌then◌else◌, inl, inr, ◌⊎◌, lookup,
  insert, ℕ_discrete, string_discrete, arith, lookup-insert_self, lookup-head,
}
use idlegrid.Store.Tables.{Db, User, DeviceCode}
use idlegrid.Store.Tx.{
  Tx, ok, ◌>>=◌, pure, recover, query, statement, execute, transact, Runs, Runs-bind, Runs-pure,
  Runs-statement, Runs-execute,
}
use idlegrid.Store.Tx.Under.{Under, Under-bind, Under-Runs, Under-transact, Under-recover}
use idlegrid.Store.Device.{
  uses_code, pending_code, create_device_code, insert_device_code, approvable, approve_rows,
  approved_count, update_approved, approve_device_code, insert_token, consumed, consume_code,
  issue_token, redeem_row, redeem_fresh, redeem_device_code, token_user, user_of_token,
  resolve_provider_token,
}

-- The database after the code is redeemed.
abbrev pub redeemed : ℕ → String → String → ℕ → DeviceCode → Db → Db
redeemed now hash token user c db = record db {
  device_codes = insert string_discrete hash (consumed now c) db.device_codes;
  tokens = (token, record { user_id = user; revoked = false }) ∷ db.tokens;
}

insert_token_lem :
    (token : String) (user : ℕ) (db : Db)
    → lookup string_discrete token db.tokens ≡ none
    → lookup ℕ_discrete user db.users ≢ none
    → insert_token token user db
      ≡ ok (
        tt,
        record db { tokens = (token, record { user_id = user; revoked = false }) ∷ db.tokens },
      )
unfolding insert_token
insert_token_lem token user db fresh known = elim (Option-cases (lookup ℕ_discrete user db.users)) [
  | inl e ↦ absurd (known e)
  | inr (u, e) ↦ rw (fresh, e, insert_token)
]

-- Why a code is not redeemed.
abbrev pub IsRefused : ℕ → DeviceCode → Type 0
IsRefused now c = (c.consumed_at ≢ none) ⊎ ((c.expires_at < now) ⊎ (c.user_id ≡ none))

module _ (now : ℕ) (hash token : String) (c : DeviceCode) (db : Db) where
  -- The token is issued to the user who approved the code, or nothing is written, because the code is refused or because
  -- a statement may fail (`F`).
  abbrev pub Redeemed : Type 0 → ℕ × String → Db → Type 0
  Redeemed F r d =
      ((r.1 ≡ "ok")
        × (c.user_id ≡ some r.0)
        × (c.consumed_at ≡ none)
        × (now ≤ c.expires_at)
        × (d ≡ redeemed now hash token r.0 c db))
      ⊎ ((r.1 ≢ "ok") × (d ≡ db) × (IsRefused now c ⊎ F))

module _ (F : Type 0) (now : ℕ) (hash token : String) (c : DeviceCode) (db : Db) where
  issue_token-Runs :
      (user : ℕ)
      → c.user_id ≡ some user
      → c.consumed_at ≡ none
      → now ≤ c.expires_at
      → lookup string_discrete token db.tokens ≡ none
      → lookup ℕ_discrete user db.users ≢ none
      → Runs (issue_token now hash token c (some user)) db (Redeemed now hash token c db F)
  unfolding issue_token consume_code
  issue_token-Runs user owner unused live fresh known =
      Runs-bind (λ _ d. d ≡ consume_code now hash c db) (Runs-execute _ refl)
        (λ _ d1 e1. rw e1 (
          Runs-bind (λ _ d. d ≡ redeemed now hash token user c db)
            (Runs-statement _ tt _
              (insert_token_lem token user (consume_code now hash c db) fresh known) refl)
            (λ _ d2 e2.
              Runs-bind (λ _ d. d ≡ redeemed now hash token user c db) (Runs-execute _ e2)
                (λ _ d3 e3. Runs-pure (user, "ok") (inl (refl, owner, unused, live, e3))))))

  rejected :
      (s : String)
      → s ≢ "ok"
      → IsRefused now c ⊎ F
      → Runs (pure (0, s)) db (Redeemed now hash token c db F)
  rejected s h why = Runs-pure (0, s) (inr (h, refl, why))

  unconsumed :
      c.consumed_at ≡ none
      → lookup string_discrete token db.tokens ≡ none
      → ((user : ℕ) → c.user_id ≡ some user → lookup ℕ_discrete user db.users ≢ none)
      → Runs
          (if ltb c.expires_at now
            then pure (0, "expired")
            else issue_token now hash token c c.user_id)
          db
          (Redeemed now hash token c db F)
  unfolding issue_token
  unconsumed unused fresh known = elim (Bool-cases (ltb c.expires_at now)) [
    | inl late ↦ rw late (rejected "expired" (λ w. cc) (inl (inr (inl (ground arith)))))
    | inr live ↦ rw live (by_user c.user_id refl live)
  ]
    where
      by_user :
          (o : Option ℕ)
          → c.user_id ≡ o
          → ltb c.expires_at now ≡ false
          → Runs (issue_token now hash token c o) db (Redeemed now hash token c db F)
      by_user none e live = rejected "pending" (λ w. cc) (inl (inr (inr e)))
      by_user (some u) e live = issue_token-Runs u e unused (ground arith) fresh (known u e)

  of_used :
      (o : Option ℕ)
      → c.consumed_at ≡ o
      → lookup string_discrete token db.tokens ≡ none
      → ((user : ℕ) → c.user_id ≡ some user → lookup ℕ_discrete user db.users ≢ none)
      → Runs (redeem_fresh now hash token c o) db (Redeemed now hash token c db F)
  of_used none e fresh known = unconsumed e fresh known
  of_used (some t) e fresh known = rejected "invalid" (λ w. cc) (inl (inl (λ w. cc)))

  -- Redeeming a stored code issues the token to the user who approved the code, and consumes the code, if it is approved,
  -- not consumed and not expired; it writes nothing and reports no success where it is not, or where a statement may fail
  -- and the code is not found. The token's hash is new, and the approving user exists.
  pub redeem_device_code-Redeemed :
      lookup string_discrete hash db.device_codes ≡ some c
      → lookup string_discrete token db.tokens ≡ none
      → ((user : ℕ) → c.user_id ≡ some user → lookup ℕ_discrete user db.users ≢ none)
      → Under F (redeem_device_code now hash token) db (Redeemed now hash token c db F)
  unfolding redeem_device_code
  redeem_device_code-Redeemed row fresh known = Under-transact (
      Under-bind (λ r d. ((r ≡ some c) ⊎ (F × (r ≡ none))) × (d ≡ db))
        (Under-recover none _ (inl row, refl) (λ w. (inr (w, refl), refl)))
        (λ r d e. rw e.1 (Under-Runs (of_row r e.0))))
    where
      of_row :
          (r : Option DeviceCode)
          → (r ≡ some c) ⊎ (F × (r ≡ none))
          → Runs (redeem_row now hash token r) db (Redeemed now hash token c db F)
      of_row r (inl e) = rw e (of_used c.consumed_at refl fresh known)
      of_row r (inr (w, e)) = rw e (rejected "invalid" (λ w. cc) (inr w))

uses_code_lem :
    (now user : ℕ) (code : String) (rows : List (String × DeviceCode))
    → uses_code code rows ≡ false
    → (approved_count now code rows ≡ 0) × (approve_rows now code user rows ≡ rows)
unfolding uses_code approved_count approve_rows approvable
uses_code_lem now user code [] h = (refl, refl)
uses_code_lem now user code ((k, d) ∷ rows) h =
    let rest = uses_code_lem now user code rows in ground arith

not_late : (a b : ℕ) → b ≤ a → ltb a b ≡ false
not_late a b h = ground arith

-- The calls of a login, each without a failure of the driver.
module _ (hash code : String) (db : Db) where
  abbrev pub created : ℕ → Db
  created expires = record db { device_codes = (hash, pending_code code expires) ∷ db.device_codes }

  pub create_lem :
      (expires : ℕ)
      → lookup string_discrete hash db.device_codes ≡ none
      → uses_code code db.device_codes ≡ false
      → create_device_code hash code expires [] db ≡ (ok tt, [], created expires)
  unfolding create_device_code insert_device_code statement
  create_lem expires fresh unused = rw (fresh, unused, insert_device_code) refl

  abbrev pub approved : ℕ → ℕ → ℕ → DeviceCode
  approved now user expires = record {
    user_code = code;
    user_id = some user;
    expires_at = expires;
    approved_at = some now;
    consumed_at = none;
  }

  abbrev pub approved_db : ℕ → ℕ → ℕ → Db
  approved_db now user expires = record db {
    device_codes = (hash, approved now user expires) ∷ db.device_codes;
  }

  approvable_lem :
      (now expires : ℕ) → now < expires → approvable now code (pending_code code expires) ≡ true
  unfolding approvable
  approvable_lem now expires live =
      rw (if_pos (string_discrete code code) refl) (lt→ltb now expires live)

  module _ (now user expires : ℕ) (live : now < expires)
      (unused : uses_code code db.device_codes ≡ false) where
    count_lem : approved_count now code (created expires).device_codes ≡ 1
    unfolding approved_count
    count_lem = rw (
      approvable_lem now expires live,
      (uses_code_lem now user code db.device_codes unused).0,
      approved_count,
    )

    rows_lem :
        approve_rows now code user (created expires).device_codes
        ≡ (approved_db now user expires).device_codes
    unfolding approve_rows
    rows_lem = rw (
      approvable_lem now expires live,
      (uses_code_lem now user code db.device_codes unused).1,
      approve_rows,
    )

    update_lem :
        (u : User)
        → lookup ℕ_discrete user db.users ≡ some u
        → update_approved now code user (created expires) ≡ ok (1, approved_db now user expires)
    unfolding update_approved
    update_lem u known = rw (update_approved, count_lem, known, rows_lem) (rw count_lem refl)

    pub approve_lem :
        (u : User)
        → lookup ℕ_discrete user db.users ≡ some u
        → approve_device_code now code user [] (created expires)
          ≡ (ok true, [], approved_db now user expires)
    unfolding approve_device_code statement pure ◌>>=◌
    approve_lem u known = rw (update_lem u known, approve_device_code)

module _ (now : ℕ) (hash token : String) (db : Db) where
  redeem_used_lem :
      (c : DeviceCode) (t : ℕ)
      → lookup string_discrete hash db.device_codes ≡ some c
      → c.consumed_at ≡ some t
      → redeem_device_code now hash token [] db ≡ (ok (0, "invalid"), [], db)
  unfolding redeem_device_code query execute recover statement transact ◌>>=◌ pure
  redeem_used_lem c t row used =
      rw (row, redeem_device_code)
        (ap (λ (o : Option ℕ). transact (redeem_fresh now hash token c o) [] db) used)

  module _ (c : DeviceCode) (user : ℕ) (u : User)
      (fresh : lookup string_discrete token db.tokens ≡ none)
      (known : lookup ℕ_discrete user db.users ≡ some u) where
    issue_lem :
        issue_token now hash token c (some user) [] db
        ≡ (ok (user, "ok"), [], redeemed now hash token user c db)
    unfolding issue_token consume_code execute statement pure ◌>>=◌
    issue_lem = rw (
      insert_token_lem token user (consume_code now hash c db) fresh (rw known (λ w. absurd (cc))),
      issue_token,
    )

    row_lem :
        c.consumed_at ≡ none
        → c.user_id ≡ some user
        → now ≤ c.expires_at
        → redeem_row now hash token (some c) [] db
          ≡ (ok (user, "ok"), [], redeemed now hash token user c db)
    row_lem unused owner live =
        ap (λ (o : Option ℕ). redeem_fresh now hash token c o [] db) unused
        ∙ ap
            (λ (b : Bool).
              (if b then pure (0, "expired") else issue_token now hash token c c.user_id) [] db)
            (not_late c.expires_at now live)
        ∙ ap (λ (o : Option ℕ). issue_token now hash token c o [] db) owner
        ∙ issue_lem

    pub redeem_lem :
        lookup string_discrete hash db.device_codes ≡ some c
        → c.consumed_at ≡ none
        → c.user_id ≡ some user
        → now ≤ c.expires_at
        → redeem_device_code now hash token [] db
          ≡ (ok (user, "ok"), [], redeemed now hash token user c db)
    unfolding redeem_device_code query execute recover statement transact ◌>>=◌
    redeem_lem row unused owner live =
        rw (row, redeem_device_code) (rw (row_lem unused owner live) refl)

module _ (now user : ℕ) (hash token : String) (c : DeviceCode) (u : User) (db : Db)
    (known : lookup ℕ_discrete user db.users ≡ some u) where
  pub token_user_lem :
      token_user token (redeemed now hash token user c db) ≡ ((user, u.email), true)
  unfolding token_user
  token_user_lem =
      rw
        (
          lookup-head string_discrete token (record { user_id = user; revoked = false }) db.tokens,
          token_user,
        )
        (rw (known, user_of_token) refl)

  resolve_lem :
      resolve_provider_token token [] (redeemed now hash token user c db)
      ≡ (ok ((user, u.email), true), [], redeemed now hash token user c db)
  unfolding resolve_provider_token query recover statement
  resolve_lem = rw (token_user_lem, resolve_provider_token)

-- What the login command, the console and the coordinator do, in turn: ask for a code, approve it,
-- redeem it, present the token, and redeem the code once more.
abbrev pub login :
    (hash code token other : String) (expires t1 t2 t3 user : ℕ)
    → Tx (((ℕ × String) × ((ℕ × String) × Bool)) × (ℕ × String))
login hash code token other expires t1 t2 t3 user = do
  _ ← create_device_code hash code expires
  _ ← approve_device_code t1 code user
  issued ← redeem_device_code t2 hash token
  resolved ← resolve_provider_token token
  again ← redeem_device_code t3 hash other
  pure ((issued, resolved), again)

-- A login whose code and token are new, approved before the code expires by a user who exists and redeemed
-- no later than it expires, issues a token that resolves to that user and the user's email; the same code
-- is invalid afterwards. No statement fails in the driver.
pub login_once :
    (hash code token other : String) (expires t1 t2 t3 user : ℕ) (u : User) (db : Db)
    → lookup string_discrete hash db.device_codes ≡ none
    → uses_code code db.device_codes ≡ false
    → lookup string_discrete token db.tokens ≡ none
    → lookup ℕ_discrete user db.users ≡ some u
    → t1 < expires
    → t2 ≤ expires
    → (login hash code token other expires t1 t2 t3 user [] db).0
      ≡ ok (((user, "ok"), ((user, u.email), true)), (0, "invalid"))
unfolding ◌>>=◌ pure
login_once hash code token other expires t1 t2 t3 user u db fresh unused new known live alive =
    let d = approved_db hash code db t1 user expires in
    let c = approved hash code db t1 user expires in
    let row : lookup string_discrete hash d.device_codes ≡ some c =
      lookup-head string_discrete hash c db.device_codes in
    rw (create_lem hash code db expires fresh unused) (
      rw (approve_lem hash code db t1 user expires live unused u known) (
        rw (redeem_lem t2 hash token d c user u new known row refl refl alive) (
          rw (resolve_lem t2 user hash token c u d known) (
            rw
              (redeem_used_lem t3 hash other (redeemed t2 hash token user c d) (consumed t2 c) t2
                (lookup-insert_self string_discrete hash (consumed t2 c) d.device_codes) refl)
              refl))))
