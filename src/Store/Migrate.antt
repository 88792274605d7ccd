-- ===== src/Store/Migrate.antt =====
-- The runner of migrations, `migrate` of coordinator/store/postgres.go. Tables are any type here, and the SQL of a file a
-- function on them that may fail.
mod Tests
use idlegrid.Prelude.{
  ℕ, ◌==◌, ◌≡◌, refl, sym, ap, ◌∙◌, arith, Bool, true, false, Bool-cases, inl, inr, ◌⊎◌, Option,
  none, some, List, [], ◌∷◌, String, if◌then◌else◌,
}
use idlegrid.Store.Listing.{order_by}

-- A file, with the number that its name starts with, if it does.
pub record Migration (S : Type 0) : Type 0 where
  pub name : String
  pub version : Option ℕ
  pub sql : S → Option S

-- The tables, and the rows of schema_migrations.
pub record Schema (S : Type 0) : Type 0 where
  pub tables : S
  pub versions : List ℕ

unfoldable pub has_version : ℕ → List ℕ → Bool
has_version v [] = false
has_version v (w ∷ vs) = if w == v then true else has_version v vs

has_version_self : (v : ℕ) (vs : List ℕ) → has_version v (v ∷ vs) ≡ true
unfolding has_version
has_version_self v vs = ground arith

-- Whether the loop goes on, and the schema after a round.
abbrev pub Round : Type 0 → Type 0
Round S = Bool × Schema S

-- Whether a statement fails for the first file that is left, and the faults of the others.
abbrev pub head_fault : List Bool → Bool
head_fault [] = false
head_fault (f ∷ fs) = f

abbrev pub later_faults : List Bool → List Bool
later_faults [] = []
later_faults (f ∷ fs) = fs

module _ {S : Type 0} where
  abbrev pub applied : ℕ → Schema S → Option S → Round S
  applied v s none = (false, s)
  applied v s (some t) = (true, record { tables = t; versions = v ∷ s.versions })

  -- One file: an error of its SQL, of the row for it or of the driver (`fault`) ends the run, and its transaction leaves
  -- nothing behind.
  abbrev pub apply_version : Bool → Migration S → Schema S → Option ℕ → Round S
  apply_version fault m s none = (false, s)
  apply_version true m s (some v) = (false, s)
  apply_version false m s (some v) =
      if has_version v s.versions then (true, s) else applied v s (m.sql s.tables)

  unfoldable pub apply_one : Bool → Migration S → Schema S → Round S
  unfolding has_version
  apply_one fault m s = apply_version fault m s m.version

  -- The loop over the sorted names; a fault for each file that a statement fails for, none where the list ends.
  unfoldable pub apply_all : List (Migration S) → List Bool → Schema S → Round S
  unfolding apply_one
  apply_all [] fs s = (true, s)
  apply_all (m ∷ ms) fs s =
      let (goes_on, s') = apply_one (head_fault fs) m s in
      let rest = apply_all ms (later_faults fs) s' in if goes_on then rest else (false, s')

  -- `migrate`: whether the table of versions is there, or made, and the order of `sort.Strings` as arguments.
  unfoldable pub migrate :
      Bool → (String → String → Bool) → List (Migration S) → List Bool → Schema S → Round S
  unfolding apply_all order_by
  migrate false before entries fs s = (false, s)
  migrate true before entries fs s = apply_all (order_by (λ m n. before m.name n.name) entries) fs s

  has-applied :
      (v w : ℕ) (s : Schema S) (o : Option S)
      → has_version v s.versions ≡ true
      → has_version v (applied w s o).1.versions ≡ true
  unfolding has_version
  has-applied v w s none h = h
  has-applied v w s (some t) h = elim (Bool-cases (w == v)) [ inl e ↦ rw e refl | inr e ↦ rw e h ]

  has-apply_version :
      (v : ℕ) (fault : Bool) (m : Migration S) (s : Schema S) (o : Option ℕ)
      → has_version v s.versions ≡ true
      → has_version v (apply_version fault m s o).1.versions ≡ true
  has-apply_version v fault m s none h = h
  has-apply_version v true m s (some w) h = h
  has-apply_version v false m s (some w) h = elim (Bool-cases (has_version w s.versions)) [
    | inl e ↦ rw e h
    | inr e ↦ rw e (has-applied v w s (m.sql s.tables) h)
  ]

  has-apply_all :
      (v : ℕ) (ms : List (Migration S)) (fs : List Bool) (s : Schema S)
      → has_version v s.versions ≡ true
      → has_version v (apply_all ms fs s).1.versions ≡ true
  unfolding apply_all apply_one
  has-apply_all v [] fs s h = h
  has-apply_all v (m ∷ ms) fs s h =
      let k = has-apply_version v (head_fault fs) m s m.version h in
      elim (Bool-cases (apply_version (head_fault fs) m s m.version).0) [
        | inl e ↦ rw e (has-apply_all v ms (later_faults fs) _ k)
        | inr e ↦ rw e k
      ]

  apply_all_stops :
      (m : Migration S) (ms : List (Migration S)) (fs : List Bool) (s : Schema S)
      → apply_one (head_fault fs) m s ≡ (false, s)
      → apply_all (m ∷ ms) fs s ≡ (false, s)
  unfolding apply_all
  apply_all_stops m ms fs s e = rw e refl

  apply_all_goes_on :
      (m : Migration S) (ms : List (Migration S)) (fs : List Bool) (s s' : Schema S)
      → apply_one (head_fault fs) m s ≡ (true, s')
      → apply_all (m ∷ ms) fs s ≡ apply_all ms (later_faults fs) s'
  unfolding apply_all
  apply_all_goes_on m ms fs s s' e = rw e refl

  -- A round changes nothing and ends the run, or goes on as it does without a fault, its version applied.
  abbrev RoundEnd : Schema S → Option ℕ → Round S → Round S → Type 0
  RoundEnd s o q r =
      (r ≡ (false, s))
      ⊎ ((s' : Schema S) × (v : ℕ) × (r ≡ (true, s'))
          × (q ≡ (true, s'))
          × (o ≡ some v)
          × (has_version v s'.versions ≡ true))

  applied_cases :
      (v : ℕ) (s : Schema S) (o : Option S) → RoundEnd s (some v) (applied v s o) (applied v s o)
  applied_cases v s none = inl refl
  applied_cases v s (some t) = inr (_, v, refl, refl, refl, has_version_self v s.versions)

  round_cases :
      (fault : Bool) (m : Migration S) (s : Schema S) (o : Option ℕ)
      → RoundEnd s o (apply_version false m s o) (apply_version fault m s o)
  round_cases fault m s none = inl refl
  round_cases true m s (some v) = inl refl
  round_cases false m s (some v) = elim (Bool-cases (has_version v s.versions)) [
    | inl e ↦ rw e (inr (s, v, refl, refl, refl, e))
    | inr e ↦ rw e (applied_cases v s (m.sql s.tables))
  ]

  apply_one_again :
      (m : Migration S) (s : Schema S) (v : ℕ)
      → m.version ≡ some v
      → has_version v s.versions ≡ true
      → apply_one false m s ≡ (true, s)
  unfolding apply_one
  apply_one_again m s v e h = rw e (rw h refl)

  apply_one_cases :
      (fault : Bool) (m : Migration S) (s : Schema S)
      → RoundEnd s m.version (apply_one false m s) (apply_one fault m s)
  unfolding apply_one
  apply_one_cases fault m s = round_cases fault m s m.version

  -- Two runs over the files in order, the second without a fault, end as the second alone does.
  apply_all_resumes :
      (ms : List (Migration S)) (fs : List Bool) (s : Schema S)
      → apply_all ms [] (apply_all ms fs s).1 ≡ apply_all ms [] s
  unfolding apply_all
  apply_all_resumes [] fs s = refl
  apply_all_resumes (m ∷ ms) fs s = elim (apply_one_cases (head_fault fs) m s) [
    | inl e ↦ rw (apply_all_stops m ms fs s e) refl
    | inr (s', v, e, q, number, h) ↦
        let first = apply_all_goes_on m ms fs s s' e in
        let kept = has-apply_all v ms (later_faults fs) s' h in
        let again = apply_one_again m (apply_all ms (later_faults fs) s').1 v number kept in
        rw first (
          apply_all_goes_on m ms [] _ _ again
          ∙ apply_all_resumes ms (later_faults fs) s'
          ∙ sym (apply_all_goes_on m ms [] s s' q))
  ]

  -- A start of the service that a fault of the database interrupted, at any statement, leaves what the next start completes:
  -- the two together, no fault in the second, end with the tables, the versions and the result of a start that nothing
  -- interrupted.
  pub migrate_resumes :
      (created : Bool) (before : String → String → Bool) (entries : List (Migration S))
      (fs : List Bool) (s : Schema S)
      → migrate true before entries [] (migrate created before entries fs s).1
        ≡ migrate true before entries [] s
  unfolding migrate
  migrate_resumes false before entries fs s = refl
  migrate_resumes true before entries fs s =
      apply_all_resumes (order_by (λ m n. before m.name n.name) entries) fs s
