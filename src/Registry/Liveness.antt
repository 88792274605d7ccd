-- ===== src/Registry/Liveness.antt =====
-- The stale sweep and the list of served models (coordinator/internal/registry/registry.go).
use idlegrid.Prelude.{
  ℕ, ◌≡◌, refl, ◌∙◌, arith, Bool, true, false, not, ◌&&◌, ◌||◌, Option, none, some, String, List,
  [], ◌∷◌, inl, inr, if◌then◌else◌, Any, lookup, erase, string_discrete, lookup-erase, Distinct,
}
use idlegrid.Registry.{
  Registry, Node, contains, is_stale, stale_ids, erase_all, sweep, eligible, reserve, add_models,
  online_from, online_models,
}
use idlegrid.Registry.Dispatch.{reserve_cheapest}
use idlegrid.Registry.Invariant.{IsValid}

lookup-erase_all :
    (k : String) (ids : List String) (r : Registry)
    → lookup string_discrete k (erase_all ids r)
      ≡ (if contains k ids then none else lookup string_discrete k r)
unfolding erase_all contains
lookup-erase_all k [] r = refl
lookup-erase_all k (id ∷ ids) r = ground (
  arith,
  lookup-erase_all k ids (erase string_discrete id r),
  lookup-erase string_discrete id k r,
)

abbrev pub stale_at : ℕ → Option Node → Bool
stale_at now none = false
stale_at now (some n) = is_stale now n

contains-stale_ids :
    (now : ℕ) (k : String) (r : Registry)
    → Distinct string_discrete r
    → contains k (stale_ids now r) ≡ stale_at now (lookup string_discrete k r)
unfolding stale_ids contains lookup
contains-stale_ids now k [] d = refl
contains-stale_ids now k (e ∷ r) d = ground (arith, contains-stale_ids now k r d.1)

-- Over a well-formed table a sweep returns exactly the ids whose heartbeat is older than 15 seconds,
-- and removes exactly those nodes, leaving every other entry as it was.
pub sweep_exact :
    (now : ℕ) (k : String) (r : Registry)
    → IsValid r
    → (contains k (sweep now r).0 ≡ stale_at now (lookup string_discrete k r))
      × (lookup string_discrete k (sweep now r).1 ≡ (
          if stale_at now (lookup string_discrete k r) then none else lookup string_discrete k r))
unfolding sweep
sweep_exact now k r v =
    let listed = contains-stale_ids now k r v.distinct in
    (listed, lookup-erase_all k (stale_ids now r) r ∙ rw listed)

contains-add_models :
    (m : String) (ms set : List String)
    → contains m (add_models ms set) ≡ (contains m ms || contains m set)
unfolding add_models contains
contains-add_models m [] set = refl
contains-add_models m (x ∷ ms) set =
    ground (arith, contains-add_models m ms set, contains-add_models m ms (x ∷ set))

-- A live node of the table has the model.
abbrev pub served : ℕ → String → Registry → Bool
served now m [] = false
served now m (e ∷ r) = (not (is_stale now e.1) && contains m e.1.models) || served now m r

contains-online_from :
    (now : ℕ) (m : String) (r : Registry) (set : List String)
    → contains m (online_from now r set) ≡ (served now m r || contains m set)
unfolding online_from
contains-online_from now m [] set = refl
contains-online_from now m (e ∷ r) set = ground (
  arith,
  contains-online_from now m r set,
  contains-online_from now m r (add_models e.1.models set),
  contains-add_models m e.1.models set,
)

-- A model is listed as online exactly when some node of the table that is not heartbeat-stale has it.
pub contains-online_models :
    (now : ℕ) (m : String) (r : Registry) → contains m (online_models now r) ≡ served now m r
unfolding online_models contains
contains-online_models now m r = ground (arith, contains-online_from now m r [])

served_of_Any :
    (now : ℕ) (m : String) (b : String × Node) (r : Registry)
    → eligible now m b.1 ≡ true
    → Any (λ e. e ≡ b) r
    → served now m r ≡ true
unfolding eligible
served_of_Any now m b [] h i = absurd i
served_of_Any now m b (e ∷ r) h (inl same) = rw same (ground arith)
served_of_Any now m b (e ∷ r) h (inr i) = ground (arith, served_of_Any now m b r h i)

-- Whatever model a reservation succeeds for is among the online models at that time.
pub reserve-online_models :
    (now : ℕ) (m : String) (est : ℕ) (r : Registry) (n : Node)
    → (reserve now m est r).0 ≡ some n
    → contains m (online_models now r) ≡ true
reserve-online_models now m est r n h =
    let (b, entry, fits, _, _, _) = reserve_cheapest now m est r n h in
    contains-online_models now m r ∙ served_of_Any now m b r fits entry
