-- ===== src/Store/Settle/Steps.antt =====
-- The parts of `SettleRequest` (coordinator/store/postgres.go): what each adds to the ledger.
use idlegrid.Prelude.{
  ℕ, ◌≡◌, ◌≢◌, refl, ap, ◌∙◌, sym, subst, false, ite, Option, none, some, List, [], ◌∷◌, ◌++◌,
  String, ℤ, pos, ◌-ℤ◌, ltb_ℤ, inl, inr, ◌⊎◌, Bool-cases, lookup, ℕ_discrete, string_discrete,
  arith, if◌then◌else◌, lookup-insert_self, lookup-insert_ne, if_pos, if_neg, All,
}
use mathlib.Core.List.{append_assoc}
use idlegrid.Store.Tables.{
  Db, User, NodeBinding, EntryKey, EntryType, RefType, EntryKey-discrete, UsageEntry,
  developer_balance, provider_earnings, platform_revenue, usage_charge, provider_earning,
  platform_fee, request,
}
use idlegrid.Store.Tx.{Runs, Runs-bind, Runs-execute, Runs-pure, Runs-mono}
use idlegrid.Store.Tx.Under.{Under, Under-Runs, Under-recover}
use idlegrid.Store.Ledger.Posting.{Resolves, Posts, IsFresh, entry_key, post_to-Runs}
use idlegrid.Store.Settle.{
  SettleParams, SettleResult, charge_developer, owner_of, node_owner, owner_in_nodes,
  credit_provider, collect_fee, update_usage, transfer_flag, settle_entry, is_some,
}

-- The entries of each part, by the sign of its amount.
abbrev pub charge_entries : Option ℕ → ℤ → String → List (EntryKey × ℤ)
charge_entries none gross id = []
charge_entries (some u) gross id =
    if ltb_ℤ (pos 0) gross
    then (entry_key u developer_balance usage_charge request id, pos 0 -ℤ gross) ∷ []
    else []

abbrev pub credit_entries : ℕ → ℤ → String → List (EntryKey × ℤ)
credit_entries p credit id =
    if ltb_ℤ (pos 0) credit
    then (entry_key p provider_earnings provider_earning request id, credit) ∷ []
    else []

abbrev pub fee_entries : ℕ → ℤ → String → List (EntryKey × ℤ)
fee_entries p fee id =
    if ltb_ℤ (pos 0) fee
    then (entry_key p platform_revenue platform_fee request id, fee) ∷ []
    else []

-- The user of a charge exists, where there is one.
abbrev pub HasUser : Option ℕ → List (ℕ × User) → Type 0
HasUser none users = Unit
HasUser (some u) users = lookup ℕ_discrete u users ≢ none

pub charge_developer-Runs :
    (user : Option ℕ) (gross : ℤ) (id : String) (db : Db)
    → HasUser user db.users
    → IsFresh usage_charge request id db.ledger
    → Runs (charge_developer user gross id) db (λ _ d. Posts (charge_entries user gross id) db d)
unfolding charge_developer
charge_developer-Runs none gross id db known fresh = Runs-pure _ refl
charge_developer-Runs (some u) gross id db known fresh = elim (Bool-cases (ltb_ℤ (pos 0) gross)) [
  | inl e ↦
      rw (e, charge_developer)
        (post_to-Runs (some u) developer_balance usage_charge request id _ db u (refl, known)
          (fresh _))
  | inr e ↦ rw (e, charge_developer) (Runs-pure _ refl)
]

-- The owner of a node, for a settlement that has its id.
abbrev pub assigned : String → List (String × NodeBinding) → Option ℕ
assigned node nodes = ite (string_discrete node "") none (owner_in_nodes node nodes)

-- The owner that a settlement finds: the one that the node is assigned to, or none if a statement may fail (`F`).
abbrev pub FindsOwnerIn : Type 0 → String → List (String × NodeBinding) → Option ℕ → Type 0
FindsOwnerIn F node nodes o = (o ≡ assigned node nodes) ⊎ (F × (o ≡ none))

abbrev pub FindsOwner : Type 0 → String → Db → Option ℕ → Type 0
FindsOwner F node db o = FindsOwnerIn F node db.nodes o

pub owner_of-Under :
    (F : Type 0) (node : String) (db : Db)
    → Under F (owner_of node) db (λ o d. FindsOwner F node db o × (d ≡ db))
unfolding owner_of node_owner
owner_of-Under F node db = elim (string_discrete node "") [
  | yes e ↦
      rw (if_pos _ e)
        (Under-Runs (Runs-pure none (inl (sym (if_pos (string_discrete node "") e _ _)), refl)))
  | no e ↦ rw (if_neg _ e) (
      Under-recover none (λ d. owner_in_nodes node d.nodes)
        (inl (sym (if_neg (string_discrete node "") e _ _)), refl) (λ w. (inr (w, refl), refl)))
]

-- The database with new entries, where the metering row of a request is now `u`, and nothing else
-- changed but accounts.
pub record Progress (es : List (EntryKey × ℤ)) (id : String) (u : UsageEntry) (db d : Db)
    : Type 0 where
  pub frame : d ≡ record db { accounts = d.accounts; ledger = es ++ db.ledger; usage = d.usage }
  pub row : lookup string_discrete id d.usage ≡ some u
  pub others :
      (j : String) → id ≢ j → lookup string_discrete j d.usage ≡ lookup string_discrete j db.usage

pub start :
    (id : String) (u : UsageEntry) (db : Db)
    → lookup string_discrete id db.usage ≡ some u
    → Progress [] id u db db
start id u db h = record { frame = refl; row = h; others = λ j _. refl }

pub post_more :
    (es fs : List (EntryKey × ℤ)) (id : String) (u : UsageEntry) (db d d' : Db)
    → Progress es id u db d
    → Posts fs d d'
    → Progress (fs ++ es) id u db d'
post_more es fs id u db d d' p q =
    let usage : d'.usage ≡ d.usage = ap (λ (x : Db). x.usage) q in
    let ledger : d.ledger ≡ es ++ db.ledger = ap (λ (x : Db). x.ledger) p.frame in
    record {
      frame = ground (arith, append_assoc fs es db.ledger);
      row = ap (lookup string_discrete id) usage ∙ p.row;
      others = λ j ne. ap (lookup string_discrete j) usage ∙ p.others j ne;
    }

pub update_row :
    (es : List (EntryKey × ℤ)) (id : String) (u : UsageEntry) (f : UsageEntry → UsageEntry)
    (db d : Db)
    → Progress es id u db d
    → Progress es id (f u) db (update_usage id f d)
unfolding update_usage
update_row es id u f db d p =
    rw (p.row, update_usage)
      record {
        frame = ground arith;
        row = lookup-insert_self string_discrete id (f u) d.usage;
        others = λ j ne. lookup-insert_ne string_discrete id j (f u) d.usage ne ∙ p.others j ne;
      }

IsFresh-append :
    (t : EntryType) (r : RefType) (id : String) (es l : List (EntryKey × ℤ))
    → All (λ e. e.0.entry_type ≢ t) es
    → IsFresh t r id l
    → IsFresh t r id (es ++ l)
unfolding lookup
IsFresh-append t r id [] l h fresh = fresh
IsFresh-append t r id (e ∷ es) l h fresh = λ a.
    elim (EntryKey-discrete e.0
      (record { account = a; entry_type = t; ref_type = r; ref_id = id })) [
        | yes same ↦ absurd (h.0 (ap (λ (k : EntryKey). k.entry_type) same))
        | no other ↦ rw (if_neg _ other) (IsFresh-append t r id es l h.1 fresh a)
      ]

-- The metering row after the credit: whether the credit went to an owner.
abbrev pub credited : Option ℕ → ℤ → UsageEntry → UsageEntry
credited o credit u = if ltb_ℤ (pos 0) credit then transfer_flag (is_some o) u else u

module _ (id : String) (u : UsageEntry) (db : Db) where
  users_of :
      (es : List (EntryKey × ℤ)) (v : UsageEntry) (d : Db)
      → Progress es id v db d
      → d.users ≡ db.users
  users_of es v d p = ap (λ (x : Db). x.users) p.frame

  IsFresh-of :
      (t : EntryType) (es : List (EntryKey × ℤ)) (v : UsageEntry) (d : Db)
      → Progress es id v db d
      → All (λ e. e.0.entry_type ≢ t) es
      → IsFresh t request id db.ledger
      → IsFresh t request id d.ledger
  IsFresh-of t es v d p h fresh =
      let ledger : d.ledger ≡ es ++ db.ledger = ap (λ (x : Db). x.ledger) p.frame in
      subst (IsFresh t request id) (sym ledger) (IsFresh-append t request id es db.ledger h fresh)

  pub credit_provider-Runs :
      (o : Option ℕ) (q : ℕ) (credit : ℤ) (es : List (EntryKey × ℤ)) (d : Db)
      → Progress es id u db d
      → Resolves o db.users q
      → All (λ e. e.0.entry_type ≢ provider_earning) es
      → IsFresh provider_earning request id db.ledger
      → Runs
          (credit_provider o credit id)
          d
          (λ _ d'. Progress (credit_entries q credit id ++ es) id (credited o credit u) db d')
  unfolding credit_provider
  credit_provider-Runs o q credit es d p known h fresh = elim (Bool-cases (ltb_ℤ (pos 0) credit)) [
    | inl e ↦
        let credit_to : EntryKey × ℤ =
          (entry_key q provider_earnings provider_earning request id, credit) in
        rw (e, credit_provider)
          (Runs-bind (λ _ d'. Posts (credit_to ∷ []) d d')
            (post_to-Runs o provider_earnings provider_earning request id credit d q
              (subst (λ us. Resolves o us q) (sym (users_of es u d p)) known)
              (IsFresh-of provider_earning es u d p h fresh _))
            (λ _ d' posts. Runs-execute _ (
              update_row _ id u (transfer_flag (is_some o)) db d'
                (post_more es (credit_to ∷ []) id u db d d' p posts))))
    | inr e ↦ rw (e, credit_provider) (Runs-pure _ p)
  ]

  pub collect_fee-Runs :
      (v : UsageEntry) (q : ℕ) (fee : ℤ) (es : List (EntryKey × ℤ)) (d : Db)
      → Progress es id v db d
      → Resolves none db.users q
      → All (λ e. e.0.entry_type ≢ platform_fee) es
      → IsFresh platform_fee request id db.ledger
      → Runs (collect_fee fee id) d (λ _ d'. Progress (fee_entries q fee id ++ es) id v db d')
  unfolding collect_fee
  collect_fee-Runs v q fee es d p known h fresh = elim (Bool-cases (ltb_ℤ (pos 0) fee)) [
    | inl e ↦
        let fee_to : EntryKey × ℤ = (entry_key q platform_revenue platform_fee request id, fee) in
        rw (e, collect_fee)
          (Runs-mono (λ _ d'. Posts (fee_to ∷ []) d d')
            (post_to-Runs none platform_revenue platform_fee request id fee d q
              (subst (λ us. Resolves none us q) (sym (users_of es v d p)) known)
              (IsFresh-of platform_fee es v d p h fresh _))
            (λ _ d' posts. post_more es (fee_to ∷ []) id v db d d' p posts))
    | inr e ↦ rw (e, collect_fee) (Runs-pure _ p)
  ]

pub charge_types :
    (t : EntryType) (user : Option ℕ) (gross : ℤ) (id : String)
    → usage_charge ≢ t
    → All (λ (e : EntryKey × ℤ). e.0.entry_type ≢ t) (charge_entries user gross id)
charge_types t none gross id h = tt
charge_types t (some u) gross id h = elim (Bool-cases (ltb_ℤ (pos 0) gross)) [
  | inl e ↦ rw e (h, tt)
  | inr e ↦ rw e tt
]

pub credit_types :
    (q : ℕ) (credit : ℤ) (id : String) (es : List (EntryKey × ℤ))
    → All (λ (e : EntryKey × ℤ). e.0.entry_type ≢ platform_fee) es
    → All (λ (e : EntryKey × ℤ). e.0.entry_type ≢ platform_fee) (credit_entries q credit id ++ es)
credit_types q credit id es h = elim (Bool-cases (ltb_ℤ (pos 0) credit)) [
  | inl e ↦ rw e ((λ w. cc), h)
  | inr e ↦ rw e h
]

-- Who is paid: the owner that was found, else the platform user.
abbrev pub payee : Option ℕ → ℕ → ℕ
payee none p = p
payee (some w) p = w

abbrev pub settle_entries : SettleParams → ℕ → ℕ → ℤ → ℤ → ℤ → List (EntryKey × ℤ)
settle_entries prm q p gross credit fee =
    fee_entries p fee prm.request_id
    ++ (credit_entries q credit prm.request_id ++ charge_entries prm.user_id gross prm.request_id)

-- What a settlement needs: an unsettled metering row, users for its accounts, and no earlier entry
-- of the request.
pub record IsOpen (prm : SettleParams) (u : UsageEntry) (p : ℕ) (db : Db) : Type 0 where
  pub row : lookup string_discrete prm.request_id db.usage ≡ some u
  pub unsettled : u.settled ≡ false
  pub platform : Resolves none db.users p
  pub developer : HasUser prm.user_id db.users
  pub owner : HasUser (owner_in_nodes prm.node_id db.nodes) db.users
  pub fresh : (t : EntryType) → IsFresh t request prm.request_id db.ledger

-- The result and the database of a settlement that pays `payee o p`.
pub record Settled (F : Type 0) (prm : SettleParams) (gross credit fee : ℤ) (u : UsageEntry) (p : ℕ)
    (db : Db) (res : SettleResult) (d : Db) : Type 0 where
  pub result : res ≡ record {
    gross = gross;
    provider_credit = credit;
    platform_fee = fee;
    already_settled = false;
  }
  pub found : Option ℕ
  pub finds : FindsOwner F prm.node_id db found
  pub progress :
      Progress
        (settle_entries prm (payee found p) p gross credit fee)
        prm.request_id
        (settle_entry gross credit fee (credited found credit u))
        db
        d

assigned-HasUser :
    (node : String) (db : Db)
    → HasUser (owner_in_nodes node db.nodes) db.users
    → HasUser (assigned node db.nodes) db.users
assigned-HasUser node db known = elim (string_discrete node "") [
  | yes e ↦ rw (if_pos (string_discrete node "") e none (owner_in_nodes node db.nodes)) tt
  | no e ↦ rw (if_neg (string_discrete node "") e none (owner_in_nodes node db.nodes)) known
]

pub payee-Resolves :
    (F : Type 0) (node : String) (db : Db) (o : Option ℕ) (p : ℕ)
    → FindsOwner F node db o
    → Resolves none db.users p
    → HasUser (owner_in_nodes node db.nodes) db.users
    → Resolves o db.users (payee o p)
payee-Resolves F node db none p h platform known = platform
payee-Resolves F node db (some w) p (inr e) platform known = absurd (cc)
payee-Resolves F node db (some w) p (inl e) platform known =
    (refl, subst (λ o. HasUser o db.users) (sym e) (assigned-HasUser node db known))
