-- ===== src/Store/Tests.antt =====
-- Runs of the store on a database with the platform's user, a developer and the owner of a node.
use idlegrid.Prelude.{
  ℕ, ◌≡◌, ◌≢◌, refl, arith, Bool, true, false, none, some, List, [], ◌∷◌, String, ℤ, pos, negsuc,
  lookup, string_discrete, ℕ_discrete, ◌-ℤ◌, ◌+ℤ◌, ltb_ℤ,
}
use idlegrid.Store.Tables.{
  Db, User, UsageEntry, EntryKey, EntryKey-discrete, Account-discrete, Kind-discrete,
  EntryType-discrete, RefType-discrete, Payout, DeviceCode, provider_earnings, provider_earning,
  request, EntryKey,
}
use idlegrid.Store.Tx.{Runs}
use idlegrid.Store.Tx.Under.{Under}
use idlegrid.Store.Ledger.{total, user_by_email}
use idlegrid.Store.Ledger.Posting.{entry_key, Resolves}
use idlegrid.Store.Settle.{SettleParams, settle_request, owner_in_nodes}
use idlegrid.Store.Settle.Steps.{IsOpen, Settled}
use idlegrid.Store.Settle.Exact.{settle_request-Settled}
use idlegrid.Store.Settle.Conservation.{settle_request-total, minted}
use idlegrid.Store.Enroll.{escrowed, sweep_key, bind_node}
use idlegrid.Store.Enroll.Sweep.{CanBind}
use idlegrid.Store.Enroll.Money.{first_bind_moves, rebind_mints, rebind_loses, NoSweep, HasSweep}
use idlegrid.Store.Payout.{settle_payout, settle_payout-PaidOut, PaidOut}
use idlegrid.Store.Device.{redeem_device_code}
use idlegrid.Store.Device.Login.{redeem_device_code-Redeemed, Redeemed}
use idlegrid.Prelude.{Option, inl}
use idlegrid.Store.Settle.Steps.{FindsOwner, payee}
use idlegrid.Store.Settle.Books.{books, transfer, settle_request-transfer}

abbrev user_of : String → User
user_of email = record {
  email = email;
  role = "developer";
  password_hash = none;
  enrollment_code = none;
}

abbrev usage_of : String → Bool → UsageEntry
usage_of id settled = record {
  event = record {
    request_id = id;
    user_id = some 2;
    node_id = "n";
    model = "llama";
    est_input_tokens = pos 10;
    est_output_tokens = pos 20;
    provider_input = none;
    provider_output = none;
    within_tolerance = true;
    status = "completed";
  };
  gross_micro = pos 0;
  provider_credit_micro = pos 0;
  platform_fee_micro = pos 0;
  settled = settled;
  transferred = false;
}

abbrev payout_of : String → Payout
payout_of status = record {
  user_id = 3;
  amount_micro = pos 500;
  status = status;
  rail = "manual";
  rail_ref = none;
  paid_at = none;
}

abbrev code : DeviceCode
code = record {
  user_code = "ABCDEFGH";
  user_id = some 3;
  expires_at = 100;
  approved_at = some 20;
  consumed_at = none;
}

abbrev demo : Db
demo = record {
  users =
      (1, user_of "platform@idlegrid.system")
      ∷ (2, user_of "dev@x.org")
      ∷ (3, user_of "owner@x.org")
      ∷ [];
  next_user = 4;
  api_keys = [];
  next_key = 1;
  nodes = [];
  usage = ("r", usage_of "r" false) ∷ ("s", usage_of "s" true) ∷ [];
  accounts = [];
  ledger = [];
  prices = [];
  payouts = (1, payout_of "requested") ∷ (2, payout_of "paid") ∷ [];
  next_payout = 3;
  payments = [];
  device_codes = ("h", code) ∷ [];
  tokens = [];
  sessions = [];
}

abbrev prm : SettleParams
prm = record { request_id = "r"; user_id = some 2; node_id = "n" }

platform-Resolves : Resolves none demo.users 1
unfolding user_by_email string_discrete lookup ℕ_discrete
platform-Resolves = (refl, λ w. cc)

has_user_2 : lookup ℕ_discrete 2 demo.users ≢ none
unfolding lookup ℕ_discrete
has_user_2 = λ w. cc

has_user_3 : lookup ℕ_discrete 3 demo.users ≢ none
unfolding lookup ℕ_discrete
has_user_3 = λ w. cc

demo-IsOpen : IsOpen prm (usage_of "r" false) 1 demo
unfolding lookup string_discrete ℕ_discrete owner_in_nodes
demo-IsOpen = record {
  row = refl;
  unsettled = refl;
  platform = platform-Resolves;
  developer = has_user_2;
  owner = tt;
  fresh = λ t a. refl;
}

-- The node belongs to user 3.
abbrev owned : Db
owned = record demo {
  nodes =
      (
        "n",
        record {
          user_id = some 3;
          enrolled_at = some 10;
          last_seen = none;
          error_count = 0;
          bound_with_token = none;
        },
      )
      ∷ [];
}

owned-IsOpen : IsOpen prm (usage_of "r" false) 1 owned
unfolding lookup string_discrete owner_in_nodes
owned-IsOpen = record {
  row = refl;
  unsettled = refl;
  platform = platform-Resolves;
  developer = has_user_2;
  owner = has_user_3;
  fresh = λ t a. refl;
}

-- No statement fails.
settle_request-Settled_example :
    Under ⊥
      (settle_request prm (pos 850) (pos 765) (pos 85))
      owned
      (Settled ⊥ prm (pos 850) (pos 765) (pos 85) (usage_of "r" false) 1 owned)
settle_request-Settled_example =
    settle_request-Settled ⊥ prm (pos 850) (pos 765) (pos 85) (usage_of "r" false) 1 owned
      owned-IsOpen

settle_request-transfer_example :
    Under ⊥ (settle_request prm (pos 765 +ℤ pos 85) (pos 765) (pos 85)) owned (λ res d.
      (found : Option ℕ) × FindsOwner ⊥ "n" owned found
      × (books d ≡ transfer (some 2) "r" (payee found 1) 1 (pos 765) (pos 85) (books owned)))
settle_request-transfer_example =
    settle_request-transfer ⊥ prm (pos 765) (pos 85) (usage_of "r" false) 1 owned (omega arith)
      (omega arith) (inl owned-IsOpen)

settle_request-total_example :
    Runs
      (settle_request prm (pos 765 +ℤ pos 85) (pos 765) (pos 85))
      demo
      (λ _ d. total d.ledger ≡ minted (some 2) (pos 765 +ℤ pos 85) +ℤ total demo.ledger)
settle_request-total_example =
    settle_request-total prm (pos 765) (pos 85) (usage_of "r" false) 1 demo (omega arith)
      (omega arith) demo-IsOpen

abbrev print_id : ℕ → String
print_id n = "1"

requested_row : lookup ℕ_discrete 1 demo.payouts ≡ some (payout_of "requested")
unfolding lookup ℕ_discrete
requested_row = refl

settle_payout-PaidOut_example :
    Runs
      (settle_payout print_id 50 1 "manual" "wire")
      demo
      (λ _ d. PaidOut print_id 50 1 "manual" "wire" (payout_of "requested") demo d)
settle_payout-PaidOut_example =
    settle_payout-PaidOut print_id 50 1 "manual" "wire" (payout_of "requested") demo requested_row
      (λ w. cc) has_user_3

device_row : lookup string_discrete "h" demo.device_codes ≡ some code
unfolding lookup string_discrete
device_row = refl

redeem_device_code-Redeemed_example :
    Under ⊥ (redeem_device_code 50 "h" "t") demo (Redeemed 50 "h" "t" code demo ⊥)
unfolding lookup string_discrete
redeem_device_code-Redeemed_example =
    redeem_device_code-Redeemed ⊥ 50 "h" "t" code demo device_row refl
      (λ user owner. rw (← owner_of_code user owner) has_user_3)
  where
    owner_of_code : (user : ℕ) → some 3 ≡ some user → 3 ≡ user
    owner_of_code user e = cc

abbrev escrow_entry : EntryKey × ℤ
escrow_entry = (entry_key 1 provider_earnings provider_earning request "r", pos 765)

abbrev in_escrow : Db
in_escrow = record demo { ledger = escrow_entry ∷ [] }

abbrev swept : Db
swept = record demo { ledger = (sweep_key 1 "n", negsuc 9) ∷ escrow_entry ∷ [] }

abbrev swept_to_owner : Db
swept_to_owner = record demo {
  ledger = (sweep_key 3 "n", pos 10) ∷ (sweep_key 1 "n", negsuc 9) ∷ escrow_entry ∷ [];
}

bind_by_owner : (l : List (EntryKey × ℤ)) → CanBind 3 1 (record demo { ledger = l })
bind_by_owner l = record { platform = platform-Resolves; known = has_user_3 }

in_escrow_positive : ltb_ℤ (pos 0) (escrowed "n" 1 in_escrow.ledger in_escrow.usage) ≡ true
unfolding escrowed lookup EntryKey-discrete string_discrete ℕ_discrete Account-discrete
    Kind-discrete EntryType-discrete RefType-discrete ◌+ℤ◌
in_escrow_positive = refl

swept_positive : ltb_ℤ (pos 0) (escrowed "n" 1 swept.ledger swept.usage) ≡ true
unfolding escrowed lookup EntryKey-discrete string_discrete ℕ_discrete Account-discrete
    Kind-discrete EntryType-discrete RefType-discrete ◌+ℤ◌
swept_positive = refl

swept_to_owner_positive :
    ltb_ℤ (pos 0) (escrowed "n" 1 swept_to_owner.ledger swept_to_owner.usage) ≡ true
unfolding escrowed lookup EntryKey-discrete string_discrete ℕ_discrete Account-discrete
    Kind-discrete EntryType-discrete RefType-discrete ◌+ℤ◌
swept_to_owner_positive = refl

NoSweep-in_escrow : (user : ℕ) → NoSweep user "n" in_escrow.ledger
unfolding lookup EntryKey-discrete
NoSweep-in_escrow user = ground arith

NoSweep-of_owner : NoSweep 3 "n" swept.ledger
unfolding lookup EntryKey-discrete string_discrete ℕ_discrete Account-discrete Kind-discrete
    EntryType-discrete RefType-discrete
NoSweep-of_owner = refl

sweep_of_platform : HasSweep 1 "n" swept.ledger
unfolding lookup EntryKey-discrete string_discrete ℕ_discrete Account-discrete Kind-discrete
    EntryType-discrete RefType-discrete
sweep_of_platform = λ w. cc

sweeps_of_both : HasSweep 3 "n" swept_to_owner.ledger × HasSweep 1 "n" swept_to_owner.ledger
unfolding lookup EntryKey-discrete string_discrete ℕ_discrete Account-discrete Kind-discrete
    EntryType-discrete RefType-discrete
sweeps_of_both = (λ w. cc, λ w. cc)

abbrev escrow_of : Db → ℤ
escrow_of db = escrowed "n" 1 db.ledger db.usage

first_bind_moves_example : Runs (bind_node 50 3 "n" "t") in_escrow (λ _ d.
    (owner_in_nodes "n" d.nodes ≡ some 3)
    × (d.ledger
        ≡ (sweep_key 3 "n", escrow_of in_escrow)
          ∷ (sweep_key 1 "n", pos 0 -ℤ escrow_of in_escrow)
          ∷ in_escrow.ledger)
    × (total d.ledger ≡ total in_escrow.ledger)
    × (escrow_of d ≡ pos 0))
first_bind_moves_example =
    first_bind_moves 50 3 1 "n" "t" in_escrow (bind_by_owner in_escrow.ledger) in_escrow_positive
      (omega arith) (NoSweep-in_escrow 3) (NoSweep-in_escrow 1)

rebind_mints_example : Runs (bind_node 50 3 "n" "t") swept (λ _ d.
    (owner_in_nodes "n" d.nodes ≡ some 3)
    × (d.ledger ≡ (sweep_key 3 "n", escrow_of swept) ∷ swept.ledger)
    × (total d.ledger ≡ total swept.ledger +ℤ escrow_of swept)
    × (escrowed "n" 1 d.ledger d.usage ≡ pos 0))
rebind_mints_example =
    rebind_mints 50 3 1 "n" "t" swept (bind_by_owner swept.ledger) swept_positive NoSweep-of_owner
      sweep_of_platform

rebind_loses_example :
    Runs
      (bind_node 50 3 "n" "t")
      swept_to_owner
      (λ _ d. (d.ledger ≡ swept_to_owner.ledger) × (escrow_of d ≡ pos 0))
rebind_loses_example =
    rebind_loses 50 3 1 "n" "t" swept_to_owner (bind_by_owner swept_to_owner.ledger)
      swept_to_owner_positive sweeps_of_both.0 sweeps_of_both.1
