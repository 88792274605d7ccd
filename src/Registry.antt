-- ===== src/Registry.antt =====
-- The table of provider nodes: coordinator/internal/registry/registry.go and scheduler.go.
-- A time is a number of nanoseconds since the zero time.Time, an argument of each call; the map is an
-- association list, whose order stands for the order in which Go iterates. Queue depths and pending tokens are
-- int64 values that a provider's heartbeat may set, with their wrap-around and the rounding of the float64 cost;
-- the counters that only rise by one are numbers.
pub mod Invariant
pub mod Cost
pub mod Dispatch
pub mod Restore
pub mod Liveness
mod Tests
use idlegrid.Prelude.{
  ℕ, ◌+◌, ◌*ℤ◌, ◌+ℤ◌, ◌-ℤ◌, ltb_ℤ, leb_ℤ, wrap64, float64, Bool, true, false, not, ◌&&◌, ◌||◌,
  Option, none, some, List, [], ◌∷◌, String, if◌then◌else◌, ltb, leb, ◌==◌, ℤ, pos, negsuc, ite,
  lookup, insert, erase, string_discrete,
}

pub record Node : Type 0 where
  pub id : String
  pub name : String
  pub chip : String
  pub version : String
  pub memory_gb : ℤ
  pub models : List String
  pub public_key : String
  pub sign_key : String
  pub canary_passed : ℕ
  pub canary_failed : ℕ
  pub last_seen : ℕ
  pub queue_depth : ℤ
  pub pending_tokens : ℤ
  pub total_requests : ℕ
  pub err_cooldown_until : ℕ

abbrev pub Registry : Type 0
Registry = List (String × Node)

abbrev pub new : Registry
new = []

-- 15 s and 5 s.
abbrev pub stale_after : ℕ
stale_after = 15_000_000_000

abbrev pub error_cooldown : ℕ
error_cooldown = 5_000_000_000

-- A set of names, such as `n.Models`.
unfoldable pub contains : String → List String → Bool
contains m [] = false
contains m (x ∷ xs) = ite (string_discrete x m) true (contains m xs)

-- `&Node{ID: id}`.
abbrev pub blank : String → Node
blank id = record {
  id = id;
  name = "";
  chip = "";
  version = "";
  memory_gb = pos 0;
  models = [];
  public_key = "";
  sign_key = "";
  canary_passed = 0;
  canary_failed = 0;
  last_seen = 0;
  queue_depth = pos 0;
  pending_tokens = pos 0;
  total_requests = 0;
  err_cooldown_until = 0;
}

abbrev node_or_blank : String → Option Node → Node
node_or_blank id none = blank id
node_or_blank id (some n) = n

-- A key that is presented replaces the stored one, an empty one does not.
abbrev keep_unless_given : String → String → String
keep_unless_given given old = ite (string_discrete given "") old given

-- What a provider states of itself at registration.
pub record Profile : Type 0 where
  pub name : String
  pub chip : String
  pub version : String
  pub memory_gb : ℤ
  pub models : List String
  pub public_key : String
  pub sign_key : String

pub refresh : ℕ → Profile → Node → Node
refresh now p n = record n {
  name = p.name;
  chip = p.chip;
  version = p.version;
  memory_gb = p.memory_gb;
  models = p.models;
  public_key = keep_unless_given p.public_key n.public_key;
  sign_key = keep_unless_given p.sign_key n.sign_key;
  last_seen = now;
}

pub register : ℕ → String → Profile → Registry → Registry
unfolding refresh
register now id p r =
    insert string_discrete id (refresh now p (node_or_blank id (lookup string_discrete id r))) r

-- Changes the node of a key, if there is one.
pub update : String → (Node → Node) → Registry → Registry
update id f r = elim (lookup string_discrete id r) [
  | none ↦ r
  | some n ↦ insert string_discrete id (f n) r
]

-- The queue depth that the provider reports is adopted only where nothing is pending here.
abbrev is_idle : ℤ → Bool
is_idle z = leb_ℤ z (pos 0) && leb_ℤ (pos 0) z

abbrev adopt_depth : ℤ → ℤ → ℤ
adopt_depth depth reported = if is_idle depth && ltb_ℤ depth reported then reported else depth

pub heartbeat : ℕ → String → ℤ → Registry → Registry
unfolding update
heartbeat now id reported =
    update id λ n. record n { last_seen = now; queue_depth = adopt_depth n.queue_depth reported }

pub unregister : String → Registry → Registry
unregister = erase string_discrete

-- `n.LastSeen.Before(now.Add(-staleAfter))`.
abbrev pub is_stale : ℕ → Node → Bool
is_stale now n = ltb (n.last_seen + stale_after) now

pub stale_ids : ℕ → Registry → List String
stale_ids now [] = []
stale_ids now (e ∷ r) = if is_stale now e.1 then e.0 ∷ stale_ids now r else stale_ids now r

pub erase_all : List String → Registry → Registry
erase_all [] r = r
erase_all (id ∷ ids) r = erase_all ids (erase string_discrete id r)

-- The removed keys, and the table without them.
pub sweep : ℕ → Registry → List String × Registry
unfolding stale_ids erase_all
sweep now r = let stale = stale_ids now r in (stale, erase_all stale r)

pub canary_result : String → Bool → Registry → Registry
unfolding update
canary_result id passed = update id λ n.
    (if passed
      then record n { canary_passed = n.canary_passed + 1 }
      else record n { canary_failed = n.canary_failed + 1 })

-- `set[m] = true` for each model of a node.
pub add_models : List String → List String → List String
unfolding contains
add_models [] set = set
add_models (m ∷ ms) set = add_models ms (if contains m set then set else m ∷ set)

pub online_from : ℕ → Registry → List String → List String
unfolding add_models
online_from now [] set = set
online_from now (e ∷ r) set =
    online_from now r (if is_stale now e.1 then set else add_models e.1.models set)

pub online_models : ℕ → Registry → List String
unfolding online_from
online_models now r = online_from now r []

pub snapshot : Registry → List Node
snapshot [] = []
snapshot (e ∷ r) = e.1 ∷ snapshot r

-- The three tests of the loop in `Reserve` that skip a node.
unfoldable pub eligible : ℕ → String → Node → Bool
unfolding contains
eligible now model n =
    not (is_stale now n) && contains model n.models && not (ltb now n.err_cooldown_until)

-- The float64 cost; each conversion, product and sum is rounded, but doubling is exact.
unfoldable pub cost : Node → ℤ
cost n = float64 (float64 (float64 n.queue_depth *ℤ pos 2000) +ℤ float64 n.pending_tokens *ℤ pos 2)

unfoldable pub better : Option (String × Node) → String × Node → Option (String × Node)
better none e = some e
better (some b) e = if ltb_ℤ (cost e.1) (cost b.1) then some e else some b

-- One round of that loop; the pointer `best` is an entry of the table.
unfoldable pub consider :
    ℕ → String → Option (String × Node) → String × Node → Option (String × Node)
unfolding eligible better
consider now model best e = if eligible now model e.1 then better best e else best

unfoldable pub choose : ℕ → String → Option (String × Node) → Registry → Option (String × Node)
unfolding consider
choose now model best [] = best
choose now model best (e ∷ r) = choose now model (consider now model best e) r

abbrev pub charged : ℕ → Node → Node
charged est_tokens n = record n {
  queue_depth = wrap64 (n.queue_depth +ℤ pos 1);
  pending_tokens = wrap64 (n.pending_tokens +ℤ pos est_tokens);
  total_requests = n.total_requests + 1;
}

-- The copy of the chosen node (`none` is `ErrNoProvider`), and the table with it charged.
unfoldable pub reserve : ℕ → String → ℕ → Registry → Option Node × Registry
unfolding choose
reserve now model est_tokens r = elim (choose now model none r) [
  | none ↦ (none, r)
  | some (k, n) ↦ (some (charged est_tokens n), insert string_discrete k (charged est_tokens n) r)
]

-- After their tests, neither subtraction overflows.
abbrev pub discharged : ℕ → ℕ → Bool → Node → Node
discharged now est_tokens failed n = record n {
  queue_depth = if ltb_ℤ (pos 0) n.queue_depth then n.queue_depth -ℤ pos 1 else n.queue_depth;
  pending_tokens =
      if leb_ℤ (pos est_tokens) n.pending_tokens then n.pending_tokens -ℤ pos est_tokens else pos 0;
  err_cooldown_until = if failed then now + error_cooldown else n.err_cooldown_until;
}

pub release : ℕ → String → ℕ → Bool → Registry → Registry
unfolding update
release now id est_tokens failed = update id (discharged now est_tokens failed)
