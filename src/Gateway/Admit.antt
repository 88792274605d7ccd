-- ===== src/Gateway/Admit.antt =====
-- Who may send a request, and on what terms: `withAuth` and the beginning of `handleChatCompletions` in
-- coordinator/internal/server/gateway.go. A request body arrives decoded.
use idlegrid.Prelude.{
  ℕ, ◌+◌, ◌≡◌, ◌≢◌, refl, arith, Bool, true, false, Bool-cases, Option, none, some, List, [], ◌∷◌,
  String, ℤ, pos, negsuc, ltb_ℤ, ◌||◌, ◌&&◌, ◌≤ℤ◌, if◌then◌else◌, ite, inl, inr, string_discrete,
  if_neg,
}
use idlegrid.Registry.{contains}
use idlegrid.Limit.{Caller, admin, user}
use idlegrid.Store.Tables.{Db, developer_balance}
use idlegrid.Store.Tx.{Tx, Result, ok, err, ◌>>=◌, pure, Runs-query}
use idlegrid.Store.Tx.Quiet.{
  attempt, Quiet, Quiet-bind, Quiet-pure, Quiet-Runs, Quiet-attempt, Succeeds,
}
use idlegrid.Store.Ledger.{account_balance, sum_matching}
use idlegrid.Store.Accounts.{Auth, resolve_api_key}

-- What of `Gateway` decides here; `billing` says whether there is a store.
pub record Config : Type 0 where
  pub api_keys : List String
  pub billing : Bool
  pub require_balance : Bool

abbrev caller_of : Option Auth → Option Caller
caller_of none = none
caller_of (some a) = some (user a.0)

-- `withAuth`, of a header that has the key after "Bearer " (`none` for another header), with the hash of keys
-- as `hash_key`: the caller, or `none` for the answer 401.
unfoldable pub with_auth : (String → String) → Config → Option String → Tx (Option Caller)
unfolding resolve_api_key contains pure ◌>>=◌
with_auth hash_key g none = pure none
with_auth hash_key g (some key) =
    if contains key g.api_keys
    then pure (some admin)
    else if g.billing
    then (do found ← resolve_api_key (hash_key key); pure (caller_of found))
    else pure none

-- `chatRequest`, as far as it is read here; a message is its length in bytes.
pub record ChatRequest : Type 0 where
  pub model : String
  pub messages : List ℕ
  pub stream : Bool
  pub max_tokens : Option ℤ

-- How a request goes on: an HTTP status, or the estimate to reserve and the length of the input.
pub data Admission : Type 0 where
  rejected : ℕ → Admission
  admitted : ℤ → ℕ → Admission

abbrev asked_tokens : Option ℤ → ℤ
asked_tokens none = pos 512
asked_tokens (some n) = if ltb_ℤ (pos 0) n then n else pos 512

-- The estimate of output tokens: 512 if unset, and 4096 at most.
unfoldable pub est_tokens : Option ℤ → ℤ
est_tokens o = if ltb_ℤ (pos 4096) (asked_tokens o) then pos 4096 else asked_tokens o

unfoldable pub input_chars : List ℕ → ℕ
input_chars [] = 0
input_chars (n ∷ ms) = n + input_chars ms

-- `bal < -store.MinChargeMicro`, of a balance that was read without an error.
abbrev pub is_overdrawn : Result ℤ → Bool
is_overdrawn (ok bal) = ltb_ℤ bal (negsuc 99)
is_overdrawn (err e) = false

abbrev pub after_guard : ChatRequest → Result ℤ → Tx Admission
after_guard req bal =
    if is_overdrawn bal
    then pure (rejected 402)
    else pure (admitted (est_tokens req.max_tokens) (input_chars req.messages))

abbrev pub guard : Config → Caller → ChatRequest → Tx Admission
guard g (user id) req =
    if g.require_balance && g.billing
    then attempt (account_balance (some id) developer_balance) >>= after_guard req
    else pure (admitted (est_tokens req.max_tokens) (input_chars req.messages))
guard g _ req = pure (admitted (est_tokens req.max_tokens) (input_chars req.messages))

abbrev pub no_messages : List ℕ → Bool
no_messages [] = true
no_messages (_ ∷ _) = false

-- The beginning of `handleChatCompletions`, up to the reservation; `none` is a body that does not decode.
unfoldable pub admit : Config → Caller → Option ChatRequest → Tx Admission
unfolding est_tokens input_chars account_balance attempt pure ◌>>=◌
admit g caller none = pure (rejected 400)
admit g caller (some req) =
    if ite (string_discrete req.model "") true false || no_messages req.messages
    then pure (rejected 400)
    else guard g caller req

-- The estimate that is reserved lies between 1 and 4096, whatever the request asks for.
pub est_tokens_bounds : (o : Option ℤ) → (pos 1 ≤ℤ est_tokens o) × (est_tokens o ≤ℤ pos 4096)
unfolding est_tokens
est_tokens_bounds none = (omega arith, omega arith)
est_tokens_bounds (some n) = ground arith

module _ (g : Config) (id : ℕ) (req : ChatRequest) (db : Db) where
  abbrev pub verdict : Admission
  verdict =
      if ltb_ℤ (sum_matching (some id) developer_balance db.ledger) (negsuc 99)
      then rejected 402
      else admitted (est_tokens req.max_tokens) (input_chars req.messages)

  read-Quiet :
      Quiet
        (attempt (account_balance (some id) developer_balance))
        db
        (Succeeds (λ b d. (b ≡ sum_matching (some id) developer_balance db.ledger) × (d ≡ db)))
  unfolding account_balance
  read-Quiet = Quiet-attempt (Quiet-Runs (Runs-query _ (refl, refl)))

  judged :
      (r : Result ℤ) (d : Db)
      → Succeeds (λ b d'. (b ≡ sum_matching (some id) developer_balance db.ledger) × (d' ≡ db)) r d
      → Quiet (after_guard req r) d (λ a d'. (a ≡ verdict) × (d' ≡ db))
  judged (err e) d h = absurd h
  judged (ok b) d h =
      elim (Bool-cases (ltb_ℤ (sum_matching (some id) developer_balance db.ledger) (negsuc 99))) [
        | inl e ↦ rw (h.0, e) (Quiet-pure _ (refl, h.1))
        | inr e ↦ rw (h.0, e) (Quiet-pure _ (refl, h.1))
      ]

  -- With the balance guard on and no failure of the driver, a well-formed request of a user is answered with
  -- 402 exactly when the sum of the user's developer account is below minus the minimum charge, and is
  -- else admitted with its estimate; the database is only read.
  pub admit_guarded :
      g.require_balance ≡ true
      → g.billing ≡ true
      → req.model ≢ ""
      → no_messages req.messages ≡ false
      → Quiet (admit g (user id) (some req)) db (λ a d. (a ≡ verdict) × (d ≡ db))
  unfolding admit
  admit_guarded guarded store named said =
      rw (if_neg (string_discrete req.model "") named, said, guarded, store)
        (Quiet-bind
          (Succeeds (λ b d. (b ≡ sum_matching (some id) developer_balance db.ledger) × (d ≡ db)))
          read-Quiet (λ r d h. judged r d h))
