-- ===== src/Registry/Invariant.antt =====
-- The well-formedness of the node table, kept by every operation of
-- coordinator/internal/registry.
use idlegrid.Prelude.{
  inl, inr, ◌∙◌, ℕ, ◌≡◌, refl, Bool, true, false, none, some, List, [], ◌∷◌, String, ℤ, All, lookup,
  insert, erase, string_discrete, Option-cases, Distinct, insert-Distinct, erase-Distinct,
  All-insert, All-erase, All-lookup, All-Any,
}
use idlegrid.Registry.{
  Registry, Node, Profile, register, update, heartbeat, unregister, erase_all, sweep, canary_result,
  choose, reserve, release, stale_ids, charged,
}
use idlegrid.Registry.Dispatch.{choose_origin}

abbrev HasKey : String × Node → Type 0
HasKey e = e.1.id ≡ e.0

-- No key twice, and each node stands under its own id.
pub record IsValid (r : Registry) : Type 0 where
  pub distinct : Distinct string_discrete r
  pub keyed : All (λ (e : String × Node). e.1.id ≡ e.0) r

pub insert-IsValid :
    (k : String) (n : Node) (r : Registry)
    → n.id ≡ k
    → IsValid r
    → IsValid (insert string_discrete k n r)
insert-IsValid k n r same v = record {
  distinct = insert-Distinct string_discrete k n r v.distinct;
  keyed = All-insert string_discrete HasKey k n r same v.keyed;
}

pub erase-IsValid : (k : String) (r : Registry) → IsValid r → IsValid (erase string_discrete k r)
erase-IsValid k r v = record {
  distinct = erase-Distinct string_discrete k r v.distinct;
  keyed = All-erase string_discrete HasKey k r v.keyed;
}

pub lookup-id :
    (k : String) (n : Node) (r : Registry)
    → IsValid r
    → lookup string_discrete k r ≡ some n
    → n.id ≡ k
lookup-id k n r v e = All-lookup string_discrete HasKey k n r v.keyed e

update-IsValid :
    (k : String) (f : Node → Node) (r : Registry)
    → ((n : Node) → (f n).id ≡ n.id)
    → IsValid r
    → IsValid (update k f r)
unfolding update
update-IsValid k f r same v = elim (Option-cases (lookup string_discrete k r)) [
  | inl e ↦ rw (e, update) v
  | inr (n, e) ↦ rw (e, update) (insert-IsValid k (f n) r (same n ∙ lookup-id k n r v e) v)
]

erase_all-IsValid : (ids : List String) (r : Registry) → IsValid r → IsValid (erase_all ids r)
unfolding erase_all
erase_all-IsValid [] r v = v
erase_all-IsValid (id ∷ ids) r v = erase_all-IsValid ids _ (erase-IsValid id r v)

register-IsValid :
    (now : ℕ) (id : String) (p : Profile) (r : Registry) → IsValid r → IsValid (register now id p r)
unfolding register
register-IsValid now id p r v = elim (Option-cases (lookup string_discrete id r)) [
  | inl e ↦ rw e (insert-IsValid id _ r refl v)
  | inr (n, e) ↦ rw e (insert-IsValid id _ r (lookup-id id n r v e) v)
]

reserve-IsValid :
    (now : ℕ) (model : String) (est : ℕ) (r : Registry)
    → IsValid r
    → IsValid (reserve now model est r).1
unfolding reserve
reserve-IsValid now model est r v = elim (Option-cases (choose now model none r)) [
  | inl e ↦ rw (e, reserve) v
  | inr (b, e) ↦ elim (choose_origin now model b none r e) [
    | inl impossible ↦ absurd (cc)
    | inr (entry, _) ↦
        rw (e, reserve)
          (insert-IsValid b.0 (charged est b.1) r (All-Any HasKey b r v.keyed entry) v)
  ]
]

-- The calls that the hub and the gateway make on the table.
pub data Call : Type 0 where
  registers : String → Profile → Call
  heartbeats : String → ℤ → Call
  unregisters : String → Call
  sweeps : Call
  canaries : String → Bool → Call
  reserves : String → ℕ → Call
  releases : String → ℕ → Bool → Call

pub step : ℕ × Call → Registry → Registry
step (now, registers id p) r = register now id p r
step (now, heartbeats id depth) r = heartbeat now id depth r
step (now, unregisters id) r = unregister id r
step (now, sweeps) r = (sweep now r).1
step (now, canaries id passed) r = canary_result id passed r
step (now, reserves model est) r = (reserve now model est r).1
step (now, releases id est failed) r = release now id est failed r

pub run : List (ℕ × Call) → Registry → Registry
unfolding step
run [] r = r
run (c ∷ cs) r = run cs (step c r)

step-IsValid : (c : ℕ × Call) (r : Registry) → IsValid r → IsValid (step c r)
unfolding step heartbeat unregister sweep canary_result release
step-IsValid (now, registers id p) r v = register-IsValid now id p r v
step-IsValid (now, heartbeats id depth) r v = update-IsValid id _ r (λ n. refl) v
step-IsValid (now, unregisters id) r v = erase-IsValid id r v
step-IsValid (now, sweeps) r v = erase_all-IsValid (stale_ids now r) r v
step-IsValid (now, canaries id true) r v = update-IsValid id _ r (λ n. refl) v
step-IsValid (now, canaries id false) r v = update-IsValid id _ r (λ n. refl) v
step-IsValid (now, reserves model est) r v = reserve-IsValid now model est r v
step-IsValid (now, releases id est failed) r v = update-IsValid id _ r (λ n. refl) v

-- After any sequence of calls, at any times, no key occurs twice in the table and each node stands
-- under its own id.
pub run-IsValid : (cs : List (ℕ × Call)) (r : Registry) → IsValid r → IsValid (run cs r)
unfolding run
run-IsValid [] r v = v
run-IsValid (c ∷ cs) r v = run-IsValid cs (step c r) (step-IsValid c r v)
