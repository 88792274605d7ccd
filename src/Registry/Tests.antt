-- ===== src/Registry/Tests.antt =====
-- Runs of the registry on a table of two nodes (coordinator/internal/registry/registry_test.go has such tables).
use idlegrid.Prelude.{
  ℕ, ◌+◌, ◌≤ℤ◌, ◌*ℤ◌, ◌+ℤ◌, wrap64, float64, arith, ◌≡◌, ◌↔◌, refl, true, false, none, some, [],
  ◌∷◌, String, pos, All, Any, lookup, insert, string_discrete, if◌then◌else◌,
}
use idlegrid.Registry.{
  Registry, Node, Profile, reserve, release, sweep, contains, eligible, cost, charged, choose,
  consider, better, update,
}
use idlegrid.Registry.Dispatch.{reserve-none_iff, reserve_cheapest}
use idlegrid.Registry.Cost.{NoDearer, exact_cost}
use idlegrid.Registry.Invariant.{IsValid, run, run-IsValid, registers, reserves, heartbeats}
use idlegrid.Registry.Restore.{reserve-release}
use idlegrid.Registry.Liveness.{sweep_exact, stale_at}

abbrev profile : Profile
profile = record {
  name = "mini";
  chip = "m4";
  version = "1";
  memory_gb = pos 16;
  models = "llama" ∷ [];
  public_key = "";
  sign_key = "";
}

abbrev node_at : String → ℕ → ℕ → Node
node_at id seen queue = record {
  id = id;
  name = "mini";
  chip = "m4";
  version = "1";
  memory_gb = pos 16;
  models = "llama" ∷ [];
  public_key = "";
  sign_key = "";
  canary_passed = 0;
  canary_failed = 0;
  last_seen = seen;
  queue_depth = pos queue;
  pending_tokens = pos 0;
  total_requests = 0;
  err_cooldown_until = 0;
}

abbrev two_nodes : Registry
two_nodes = ("a", node_at "a" 5 3) ∷ ("b", node_at "b" 6 1) ∷ []

two_nodes-IsValid : IsValid two_nodes
unfolding lookup string_discrete
two_nodes-IsValid = record { distinct = (refl, (refl, tt)); keyed = (refl, (refl, tt)) }

reserve-none_iff_example :
    (reserve 10 "qwen" 512 two_nodes ≡ (none, two_nodes))
    ↔ All (λ e. eligible 10 "qwen" e.1 ≡ false) two_nodes
reserve-none_iff_example = reserve-none_iff 10 "qwen" 512 two_nodes

picked : (reserve 10 "llama" 512 two_nodes).0 ≡ some (charged 512 (node_at "b" 6 1))
unfolding reserve choose consider better eligible contains string_discrete cost ◌*ℤ◌ ◌+ℤ◌ wrap64
    float64
picked = refl

reserve_cheapest_example :
    (b : String × Node) × Any (λ e. e ≡ b) two_nodes
    × (eligible 10 "llama" b.1 ≡ true)
    × (charged 512 (node_at "b" 6 1) ≡ charged 512 b.1)
    × All
        (λ e.
          eligible 10 "llama" e.1 ≡ true
          → (cost b.1 ≤ℤ cost e.1) × NoDearer (exact_cost b.1) (exact_cost e.1))
        two_nodes
    × ((reserve 10 "llama" 512 two_nodes).1
        ≡ insert string_discrete b.0 (charged 512 (node_at "b" 6 1)) two_nodes)
reserve_cheapest_example =
    reserve_cheapest 10 "llama" 512 two_nodes (charged 512 (node_at "b" 6 1)) picked

reserve-release_example :
    (old : Node) × (lookup string_discrete "b" two_nodes ≡ some old)
    × (release 20 "b" 512 false (reserve 10 "llama" 512 two_nodes).1
        ≡ insert string_discrete "b"
            (record old { total_requests = old.total_requests + 1 })
            two_nodes)
reserve-release_example =
    reserve-release 10 20 "llama" 512 two_nodes (charged 512 (node_at "b" 6 1)) two_nodes-IsValid
      (
        (3, 0, refl, refl, omega arith, omega arith),
        ((1, 0, refl, refl, omega arith, omega arith), tt),
      )
      picked

after_failure-IsValid : IsValid (release 10 "b" 512 true two_nodes)
unfolding release update lookup insert string_discrete
after_failure-IsValid = record { distinct = (refl, (refl, tt)); keyed = (refl, (refl, tt)) }

picked_after :
    (reserve 20 "llama" 512 (release 10 "b" 512 true two_nodes)).0
    ≡ some (charged 512 (node_at "a" 5 3))
unfolding release update lookup insert string_discrete reserve choose consider better eligible
    contains cost ◌*ℤ◌ ◌+ℤ◌ wrap64 float64
picked_after = refl

run-IsValid_example : IsValid (
    run
      ((1, registers "a" profile) ∷ (2, reserves "llama" 512) ∷ (3, heartbeats "b" (pos 2)) ∷ [])
      two_nodes)
run-IsValid_example =
    run-IsValid
      ((1, registers "a" profile) ∷ (2, reserves "llama" 512) ∷ (3, heartbeats "b" (pos 2)) ∷ [])
      two_nodes two_nodes-IsValid

sweep_exact_example :
    (contains "a" (sweep 15_000_000_006 two_nodes).0
      ≡ stale_at 15_000_000_006 (lookup string_discrete "a" two_nodes))
    × (lookup string_discrete "a" (sweep 15_000_000_006 two_nodes).1 ≡ (
        if stale_at 15_000_000_006 (lookup string_discrete "a" two_nodes)
        then none
        else lookup string_discrete "a" two_nodes))
sweep_exact_example = sweep_exact 15_000_000_006 "a" two_nodes two_nodes-IsValid
