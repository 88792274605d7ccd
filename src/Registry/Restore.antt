-- ===== src/Registry/Restore.antt =====
-- `Release` undoes `Reserve`, and a failure keeps a node out for five seconds
-- (coordinator/internal/registry/scheduler.go).
use idlegrid.Prelude.{
  ℕ, ◌+◌, ◌<◌, ◌^◌, pos, +ℤ-pos, -ℤ-pos, wrap64-pos, All, ◌≡◌, ◌≢◌, sym, ◌∙◌, arith, true, false,
  some, String, inl, inr, Option-cases, lookup, insert, string_discrete, lookup-insert_self,
  insert-insert, lookup_of_Any, All-Any, ap,
}
use idlegrid.Registry.{
  Registry, Node, eligible, reserve, release, update, charged, discharged, error_cooldown,
}
use idlegrid.Registry.Dispatch.{reserve_cheapest}
use idlegrid.Registry.Invariant.{IsValid}

abbrev counted : Node → Node
counted n = record n { total_requests = n.total_requests + 1 }

-- The node's counters are not negative, and a request more does not overflow them.
abbrev pub HasRoom : ℕ → Node → Type 0
HasRoom est n =
    (q : ℕ) × (p : ℕ) × (n.queue_depth ≡ pos q)
    × (n.pending_tokens ≡ pos p)
    × (q + 1 < 2 ^ 63)
    × (p + est < 2 ^ 63)

discharged-charged :
    (now est : ℕ) (n : Node) → HasRoom est n → discharged now est false (charged est n) ≡ counted n
discharged-charged now est n (q, p, eq, ep, hq, hp) =
    rw
      (
        eq,
        ep,
        +ℤ-pos q 1,
        +ℤ-pos p est,
        wrap64-pos (q + 1) hq,
        wrap64-pos (p + est) hp,
        -ℤ-pos (q + 1) 1 (omega arith),
        -ℤ-pos (p + est) est (omega arith),
      )
      (ground arith)

update_lem :
    (k : String) (f : Node → Node) (n : Node) (r : Registry)
    → lookup string_discrete k r ≡ some n
    → update k f r ≡ insert string_discrete k (f n) r
unfolding update
update_lem k f n r e = rw (e, update)

restore :
    (later est : ℕ) (k : String) (old : Node) (r : Registry)
    → HasRoom est old
    → update k (discharged later est false) (insert string_discrete k (charged est old) r)
      ≡ insert string_discrete k (counted old) r
restore later est k old r room =
    update_lem k (discharged later est false) (charged est old) _
      (lookup-insert_self string_discrete k (charged est old) r)
    ∙ insert-insert string_discrete k _ (charged est old) r
    ∙ ap (λ (m : Node). insert string_discrete k m r) (discharged-charged later est old room)

-- In a well-formed table, whose counters are not negative and do not overflow by the request, releasing a successful reservation, at any time and without a failure,
-- leaves the table as it was before the reservation except that the chosen node has one more request
-- in its lifetime counter.
pub reserve-release :
    (now later : ℕ) (model : String) (est : ℕ) (r : Registry) (n : Node)
    → IsValid r
    → All (λ (e : String × Node). HasRoom est e.1) r
    → (reserve now model est r).0 ≡ some n
    → (old : Node) × (lookup string_discrete n.id r ≡ some old)
      × (release later n.id est false (reserve now model est r).1
          ≡ insert string_discrete n.id (record old { total_requests = old.total_requests + 1 }) r)
unfolding release
reserve-release now later model est r n v room h =
    let (b, entry, fits, same, _, table) = reserve_cheapest now model est r n h in
    let own : n.id ≡ b.0 =
      ap (λ (m : Node). m.id) same
      ∙ All-Any (λ (e : String × Node). e.1.id ≡ e.0) b r v.keyed entry in
    let f = discharged later est false in
    let t = (reserve now model est r).1 in
    (
      b.1,
      ap (λ (k : String). lookup string_discrete k r) own
          ∙ lookup_of_Any string_discrete b.0 b.1 r v.distinct entry,
      ap (λ (k : String). update k f t) own
          ∙ ap (update b.0 f) (table ∙ ap (λ (m : Node). insert string_discrete b.0 m r) same)
          ∙ restore later est b.0 b.1 r
              (All-Any (λ (e : String × Node). HasRoom est e.1) b r room entry)
          ∙ ap (λ (k : String). insert string_discrete k (counted b.1) r) (sym own),
    )

-- What a failed release leaves under its key.
cooled :
    (now : ℕ) (id : String) (est : ℕ) (r : Registry) (n : Node)
    → lookup string_discrete id (release now id est true r) ≡ some n
    → n.err_cooldown_until ≡ now + error_cooldown
unfolding release update
cooled now id est r n h = elim (Option-cases (lookup string_discrete id r)) [
  | inl e ↦ absurd (ground arith)
  | inr (m, e) ↦ ground (arith, lookup-insert_self string_discrete id (discharged now est true m) r)
]

not_eligible :
    (time : ℕ) (model : String) (n : Node)
    → time < n.err_cooldown_until
    → eligible time model n ≡ false
unfolding eligible
not_eligible time model n h = ground arith

-- After a failed release at a time `now`, if the table is then well-formed, no reservation before
-- `now` plus five seconds returns that node, whatever the model.
pub failed_release_excludes :
    (now time : ℕ) (id model : String) (est est' : ℕ) (r : Registry) (n : Node)
    → IsValid (release now id est true r)
    → time < now + error_cooldown
    → (reserve time model est' (release now id est true r)).0 ≡ some n
    → n.id ≢ id
failed_release_excludes now time id model est est' r n v soon h own =
    let t = release now id est true r in
    let (b, entry, fits, same, _, table) = reserve_cheapest time model est' t n h in
    let key : b.0 ≡ id =
      sym (All-Any (λ (e : String × Node). e.1.id ≡ e.0) b t v.keyed entry)
      ∙ sym (ap (λ (m : Node). m.id) same)
      ∙ own in
    let found =
      ap (λ (k : String). lookup string_discrete k t) (sym key)
      ∙ lookup_of_Any string_discrete b.0 b.1 t v.distinct entry in
    let until = cooled now id est r b.1 found in
    cc (not_eligible time model b.1 (omega arith), fits)
