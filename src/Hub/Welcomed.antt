-- ===== src/Hub/Welcomed.antt =====
-- Which providers are let in, and whom they are enrolled to (`HandleWS` of coordinator/internal/server/hub.go).
use idlegrid.Prelude.{
  ℕ, ◌≡◌, ◌⊎◌, inl, inr, refl, subst, arith, Bool, true, false, not, ◌&&◌, Bool-cases, Option, none,
  some, List, [], ◌∷◌, String, ite, if◌then◌else◌, string_discrete,
}
use idlegrid.Hub.{Hub, connect}
use idlegrid.Store.Tables.{Db}
use idlegrid.Store.Tx.{Result, ok, err, Outcome, next, ◌>>=◌, pure, recover, query, statement}
use idlegrid.Store.Tx.Quiet.{attempt}
use idlegrid.Store.Tx.Yields.{Yields, Yields-pure, Yields-bind}
use idlegrid.Store.Enroll.{bind_node}
use idlegrid.Store.Accounts.{enroll_node}
use idlegrid.Store.Device.{token_user, resolve_provider_token}
use idlegrid.Hub.Register.{
  Registration, Welcome, hung_up, denied, accepted, is_blank, bound, with_token, enroll, node_id_of,
  handle_ws,
}

-- The email of a token's user, or none.
abbrev EmailOf : (ℕ × String) × Bool → String → Type 0
EmailOf t email = (email ≡ "") ⊎ ((owner : ℕ) × (t ≡ ((owner, email), true)))

bound_email :
    (owner : ℕ) (email : String) (r : Result (Unit {0}))
    → Yields (EmailOf ((owner, email), true)) (bound email r)
bound_email owner email (ok _) = Yields-pure _ email (inr (owner, refl))
bound_email owner email (err e) = Yields-pure _ "" (inl refl)

token_email :
    (now : ℕ) (node_id token_hash : String) (t : (ℕ × String) × Bool)
    → Yields (EmailOf t) (with_token now node_id token_hash (ok t))
token_email now node_id token_hash ((owner, email), true) =
    Yields-bind _ (attempt (bind_node now owner node_id token_hash)) (bound_email owner email)
token_email now node_id token_hash ((owner, email), false) = Yields-pure _ "" (inl refl)

resolved_cases :
    (hash : String) (fs : List Bool) (db : Db)
    → (gs : List Bool) × ((attempt (resolve_provider_token hash) fs db
          ≡ (ok (ok ((0, ""), false)), gs, db))
        ⊎ (attempt (resolve_provider_token hash) fs db ≡ (ok (ok (token_user hash db)), gs, db)))
unfolding attempt resolve_provider_token recover query statement
resolved_cases hash [] db = ([], inr refl)
resolved_cases hash (true ∷ fs) db = (fs, inl refl)
resolved_cases hash (false ∷ fs) db = (fs, inr refl)

no_email :
    (t : (ℕ × String) × Bool) (email : String) → EmailOf ((0, ""), false) email → EmailOf t email
no_email t email (inl e) = inl e
no_email t email (inr (owner, e)) = absurd (cc)

module _ (hash_key : String → String) (now : ℕ) (node_id : String) (reg : Registration)
    (db : Db) where
  abbrev token : (ℕ × String) × Bool
  token = token_user (hash_key reg.auth_token) db

  by_token :
      (fs : List Bool) (email : String)
      → ((attempt (resolve_provider_token (hash_key reg.auth_token))
            >>= with_token now node_id (hash_key reg.auth_token))
          fs db).0
        ≡ ok email
      → EmailOf token email
  unfolding ◌>>=◌
  by_token fs email h =
      let (gs, c) = resolved_cases (hash_key reg.auth_token) fs db in
      elim c [
        | inl q ↦ no_email token email (
            (token_email now node_id (hash_key reg.auth_token) ((0, ""), false)).from gs db email
              (rw q at h))
        | inr q ↦
            (token_email now node_id (hash_key reg.auth_token) token).from gs db email (rw q at h)
      ]

  by_code :
      (b : Bool) (fs : List Bool) (email : String)
      → ((if b
            then (attempt (enroll_node now reg.enrollment_code node_id) >>= λ _. pure "")
            else pure "")
          fs db).0
        ≡ ok email
      → EmailOf token email
  unfolding pure
  by_code true fs email h =
      (Yields-bind (EmailOf token) (attempt (enroll_node now reg.enrollment_code node_id))
          (λ _. Yields-pure (EmailOf token) "" (inl refl))).from
        fs db email h
  by_code false fs email h = inl (cc)

  enroll_email :
      (billing : Bool) (fs : List Bool) (email : String)
      → (enroll hash_key billing now node_id reg fs db).0 ≡ ok email
      → EmailOf token email
  unfolding enroll pure
  enroll_email false fs email h = inl (cc)
  enroll_email true fs email h = elim (Bool-cases (is_blank reg.auth_token)) [
    | inr e ↦ by_token fs email (rw e at h)
    | inl e ↦ by_code (not (is_blank reg.enrollment_code)) fs email (rw e at h)
  ]

-- What `HandleWS` makes of a first frame.
abbrev pub Welcomed :
    (String → String)
    → String
    → ℕ
    → String
    → Option Registration
    → Hub
    → Db
    → Welcome × Hub
    → Type 0
Welcomed hash_key join_code now new_id reg h db (hung_up, h') = h' ≡ h
Welcomed hash_key join_code now new_id reg h db (denied, h') = h' ≡ h
Welcomed hash_key join_code now new_id none h db (accepted id email, h') = ⊥
Welcomed hash_key join_code now new_id (some reg) h db (accepted id email, h') =
    ((join_code ≡ "") ⊎ (reg.join_code ≡ join_code))
    × (id ≡ node_id_of new_id reg)
    × (h' ≡ connect now id reg.profile h)
    × ((email ≡ "")
        ⊎ ((owner : ℕ) × (token_user (hash_key reg.auth_token) db ≡ ((owner, email), true))))

module _ (hash_key : String → String) (billing : Bool) (join_code : String) (now seconds : ℕ)
    (new_id : String) (reg : Registration) (h : Hub) where
  abbrev Fits : Db → Welcome × Hub → Type 0
  Fits db w = Welcomed hash_key join_code now new_id (some reg) h db w

  after_enroll :
      (db : Db) (r : Outcome String) (w : Welcome × Hub)
      → ((join_code ≡ "") ⊎ (reg.join_code ≡ join_code))
      → ((email : String)
          → r.0 ≡ ok email
          → EmailOf (token_user (hash_key reg.auth_token) db) email)
      → (next r (λ email. pure (
        accepted (node_id_of new_id reg) email,
        connect now (node_id_of new_id reg) reg.profile h,
      ))).0
        ≡ ok w
      → Fits db w
  unfolding pure
  after_enroll db (ok email, fs, d) w joined k ends =
      let same : Path (Welcome × Hub)
          (
            accepted (node_id_of new_id reg) email,
            connect now (node_id_of new_id reg) reg.profile h,
          )
          w =
        cc in
      subst (Fits db) same (joined, refl, refl, k email refl)
  after_enroll db (err x, fs, d) w joined k ends = absurd (cc)

  join_cases :
      (b c : Bool)
      → is_blank join_code ≡ b
      → ite (string_discrete reg.join_code join_code) true false ≡ c
      → (not b && not c) ≡ false
      → (join_code ≡ "") ⊎ (reg.join_code ≡ join_code)
  join_cases true c e f k = inl (ground arith)
  join_cases false true e f k = inr (ground arith)
  join_cases false false e f k = absurd (cc)

  -- A connection with a wrong join code leaves the hub alone, whatever fails in the driver. A provider that is let in gave the
  -- join code, where there is one, and is connected under its node id, or under the new one if it gave none; the account it
  -- is told of, if any, is the one of its provider token.
  pub handle_ws-Welcomed :
      (fs : List Bool) (db : Db) (w : Welcome × Hub)
      → (handle_ws hash_key billing join_code now seconds new_id (some reg) h fs db).0 ≡ ok w
      → Welcomed hash_key join_code now new_id (some reg) h db w
  unfolding handle_ws ◌>>=◌ pure
  handle_ws-Welcomed fs db w ends =
      elim (Bool-cases (
        not (is_blank join_code)
        && not (ite (string_discrete reg.join_code join_code) true false))) [
          | inl e ↦
              let same : Path (Welcome × Hub) (denied, h) w = cc (rw e at ends) in
              subst (Fits db) same refl
          | inr e ↦
              after_enroll db (enroll hash_key billing seconds (node_id_of new_id reg) reg fs db) w
                (join_cases _ _ refl refl e)
                (λ email.
                  enroll_email hash_key seconds (node_id_of new_id reg) reg db billing fs email)
                (rw e at ends)
        ]
