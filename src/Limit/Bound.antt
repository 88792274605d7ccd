-- ===== src/Limit/Bound.antt =====
-- How many requests a bucket lets through (coordinator/internal/server/ratelimit.go).
use idlegrid.Prelude.{
  ℕ, zero, suc, replicate, ◌+◌, ◌-◌, ◌*◌, ◌≤◌, ◌≡◌, refl, ap, arith, true, false, none, some, List,
  [], ◌∷◌, String, ltb, ◌==◌, if◌then◌else◌, Bool-cases, inl, inr, lookup, string_discrete,
  lookup-insert_self,
}
use idlegrid.Limit.{
  Limiter, Bucket, token, bucket_of, bucket_or_full, refill, put_bucket, allow, capped,
}

-- The requests of one key that are let through, of those that come at these times.
pub count : String → List ℕ → Limiter → ℕ
unfolding allow
count key [] l = 0
count key (t ∷ ts) l = (if (allow t key l).0 then 1 else 0) + count key ts (allow t key l).1

-- The times do not run backwards from a first one to a last one.
abbrev pub Ordered : ℕ → List ℕ → ℕ → Type 0
Ordered now [] end = now ≤ end
Ordered now (t ∷ ts) end = (now ≤ t) × Ordered t ts end

elapsed :
    (rate last now end : ℕ)
    → last ≤ now
    → now ≤ end
    → (now - last) * rate + (end - now) * rate ≡ (end - last) * rate
elapsed rate last now end h k = grind arith

module _ (now : ℕ) (key : String) (l : Limiter) (b : Bucket) where
  found_bucket : lookup string_discrete key l.buckets ≡ some b → bucket_of now key l ≡ b
  found_bucket found = ap (bucket_or_full now l) found

  abbrev Enabled : Type 0
  Enabled = l.rate == 0 ≡ false

  allowed_lem :
      Enabled
      → bucket_of now key l ≡ b
      → ltb (refill now l b) token ≡ false
      → allow now key l ≡ (true, put_bucket key (refill now l b - token) now l)
  unfolding allow
  allowed_lem on e enough = rw (on, e) (rw enough refl)

  denied_lem :
      Enabled
      → bucket_of now key l ≡ b
      → ltb (refill now l b) token ≡ true
      → allow now key l ≡ (false, put_bucket key (refill now l b) now l)
  unfolding allow
  denied_lem on e enough = rw (on, e) (rw enough refl)

step_bound :
    (rate tokens last now end burst : ℕ)
    → last ≤ now
    → now ≤ end
    → capped burst (tokens + (now - last) * rate) + (end - now) * rate
      ≤ tokens + (end - last) * rate
step_bound rate tokens last now end burst h k =
    let e = elapsed rate last now end h k in ground arith

refill_step :
    (now end : ℕ) (l : Limiter) (b : Bucket)
    → b.last ≤ now
    → now ≤ end
    → refill now l b + (end - now) * l.rate ≤ b.tokens + (end - b.last) * l.rate
unfolding refill
refill_step now end l b h k = step_bound l.rate b.tokens b.last now end l.burst h k

Ordered-end : (now : ℕ) (ts : List ℕ) (end : ℕ) → Ordered now ts end → now ≤ end
Ordered-end now [] end h = h
Ordered-end now (t ∷ ts) end h = let k = Ordered-end t ts end h.1 in omega arith

count_step :
    (key : String) (t end : ℕ) (ts : List ℕ) (l : Limiter) (b : Bucket)
    → l.rate == 0 ≡ false
    → bucket_of t key l ≡ b
    → ((n : ℕ) → count key ts (put_bucket key n t l) * token ≤ n + (end - t) * l.rate)
    → count key (t ∷ ts) l * token ≤ refill t l b + (end - t) * l.rate
unfolding count
count_step key t end ts l b on e rest = elim (Bool-cases (ltb (refill t l b) token)) [
  | inl short ↦ let h = rest (refill t l b) in rw (denied_lem t key l b on e short) (omega arith)
  | inr enough ↦
      let h = rest (refill t l b - token) in rw (allowed_lem t key l b on e enough) (ground arith)
]

-- From a bucket with some tokens, the requests let through until `end` need no more tokens than
-- these and the refill of the time that passes.
count_of_bucket :
    (key : String) (end : ℕ) (ts : List ℕ) (l : Limiter) (b : Bucket)
    → l.rate == 0 ≡ false
    → lookup string_discrete key l.buckets ≡ some b
    → Ordered b.last ts end
    → count key ts l * token ≤ b.tokens + (end - b.last) * l.rate
unfolding count put_bucket
count_of_bucket key end [] l b on found ord = omega arith
count_of_bucket key end (t ∷ ts) l b on found ord =
    let step = refill_step t end l b ord.0 (Ordered-end t ts end ord.1) in
    let all = count_step key t end ts l b on (found_bucket t key l b found) (λ n.
      count_of_bucket key end ts (put_bucket key n t l) (record { tokens = n; last = t }) on
        (lookup-insert_self string_discrete key _ l.buckets) ord.1) in
    omega arith

refill-le : (now : ℕ) (l : Limiter) (b : Bucket) → refill now l b ≤ l.burst * token
unfolding refill
refill-le now l b = ground arith

later_start :
    (rate start now end : ℕ) → start ≤ now → now ≤ end → (end - now) * rate ≤ (end - start) * rate
later_start rate start now end h k = let e = elapsed rate start now end h k in omega arith

-- Of the requests of one key that come, in order, between two times, an enabled limiter lets no more
-- through than its burst and the refill of that time, whatever its buckets hold at the start.
pub count-le :
    (key : String) (start end : ℕ) (ts : List ℕ) (l : Limiter)
    → l.rate == 0 ≡ false
    → Ordered start ts end
    → count key ts l * token ≤ l.burst * token + (end - start) * l.rate
unfolding count put_bucket
count-le key start end [] l on ord = omega arith
count-le key start end (t ∷ ts) l on ord =
    let b = bucket_of t key l in
    let cap = refill-le t l b in
    let time = later_start l.rate start t end ord.0 (Ordered-end t ts end ord.1) in
    let all = count_step key t end ts l b on refl (λ n.
      count_of_bucket key end ts (put_bucket key n t l) (record { tokens = n; last = t }) on
        (lookup-insert_self string_discrete key _ l.buckets) ord.1) in
    omega arith

same_time :
    (now : ℕ) (l : Limiter) (b : Bucket)
    → b.last ≡ now
    → b.tokens ≤ l.burst * token
    → refill now l b ≡ b.tokens
unfolding refill
same_time now l b h k = ground arith

count-full :
    (key : String) (now k : ℕ) (l : Limiter) (b : Bucket)
    → l.rate == 0 ≡ false
    → bucket_of now key l ≡ b
    → b.last ≡ now
    → b.tokens ≤ l.burst * token
    → k * token ≤ b.tokens
    → count key (replicate k now) l ≡ k
unfolding count put_bucket
count-full key now zero l b on e same cap enough = refl
count-full key now (suc k) l b on e same cap enough =
    let r = same_time now l b same cap in
    let l' = put_bucket key (refill now l b - token) now l in
    let b' : Bucket = record { tokens = refill now l b - token; last = now } in
    let rest =
      count-full key now k l' b' on
        (found_bucket now key l' b' (lookup-insert_self string_discrete key b' l.buckets)) refl
        (omega arith) (omega arith) in
    rw (allowed_lem now key l b on e (ground arith)) (omega arith)

-- The first requests of a new key, as many as the burst, all pass, even at one instant.
pub count_burst :
    (key : String) (now : ℕ) (l : Limiter)
    → l.rate == 0 ≡ false
    → lookup string_discrete key l.buckets ≡ none
    → count key (replicate l.burst now) l ≡ l.burst
count_burst key now l on absent =
    count-full key now l.burst l (record { tokens = l.burst * token; last = now }) on
      (ap (bucket_or_full now l) absent) refl (omega arith) (omega arith)
