-- ===== src/RateLimit/Isolated.antt =====
-- The checks of one key do not depend on those of the others (rate_limit.py).
use vuoro.Prelude.{
  String, subst, Option, none, some, ◌≡◌, refl, ap, ◌∙◌, sym, false, List, [], ◌∷◌, arith,
  if◌then◌else◌, inl, inr, Bool-cases, filter,
}
use vuoro.Prelude.Eq.{◌==◌, string_keys}
use vuoro.Prelude.Result.{Result, ok, err}
use vuoro.Dict.{get, get-put}
use text.Mathlib.TextEquality.{eq_iff}
use vuoro.RateLimit.{Floats, Bucket, RateLimiter, Exceeded, refilled, bucket, check}

module _ {F : Type 0} (f : Floats F) where
  -- The answers to the checks of `k` among those of all keys, each with the reading of the clock.
  unfoldable pub answers :
      String → RateLimiter F → List (String × F) → List (Result (Exceeded F) (Unit {0}))
  answers k l [] = []
  answers k l ((key, now) ∷ rest) =
      let later = answers k (check f l key now).1 rest in
      if key == k then (check f l key now).0 ∷ later else later

  -- the checks of one key
  abbrev pub of_key : String → List (String × F) → List (String × F)
  of_key k = filter (λ (key, now). key == k)

  -- Two limiters that treat a key alike.
  record Alike (k : String) (l m : RateLimiter F) : Type 0 where
    capacities : l.capacity ≡ m.capacity
    rates : l.refill_per_second ≡ m.refill_per_second
    same_bucket : get l.buckets k ≡ get m.buckets k

  settings :
      (l : RateLimiter F) (key : String) (now : F)
      → ((check f l key now).1.capacity ≡ l.capacity)
        × ((check f l key now).1.refill_per_second ≡ l.refill_per_second)
  unfolding check
  settings l key now = ground arith

  get-check-other :
      (l : RateLimiter F) (key k : String) (now : F)
      → (key == k) ≡ false
      → get (check f l key now).1.buckets k ≡ get l.buckets k
  unfolding check
  get-check-other l key k now h = ground (
    arith,
    get-put l.buckets key (bucket f l key now) k,
    get-put l.buckets key
        (record (bucket f l key now) { tokens = f.sub (bucket f l key now).tokens (f.float 1) }) k,
  )

  refilled-Alike :
      (k : String) (l m : RateLimiter F) (o : Option (Bucket F)) (now : F)
      → Alike k l m
      → refilled f l o now ≡ refilled f m o now
  unfolding refilled
  refilled-Alike k l m none now a = rw (a.capacities) refl
  refilled-Alike k l m (some b) now a = rw (a.capacities, a.rates) refl

  bucket-Alike :
      (k : String) (l m : RateLimiter F) (now : F)
      → Alike k l m
      → bucket f l k now ≡ bucket f m k now
  unfolding bucket
  bucket-Alike k l m now a = rw (a.same_bucket) (refilled-Alike k l m (get m.buckets k) now a)

  -- what a bucket under the key makes of a check
  abbrev answer : String → F → Bucket F → Result (Exceeded F) (Unit {0})
  answer k rate b =
      if f.less b.tokens (f.float 1)
      then err (record { key = k; retry_after_seconds = f.div (f.sub (f.float 1) b.tokens) rate })
      else ok tt

  abbrev left_over : Bucket F → Bucket F
  left_over b =
      if f.less b.tokens (f.float 1) then b else record b { tokens = f.sub b.tokens (f.float 1) }

  check-answer :
      (l : RateLimiter F) (k : String) (now : F)
      → (check f l k now).0 ≡ answer k l.refill_per_second (bucket f l k now)
  unfolding check
  check-answer l k now = ground arith

  get-check :
      (l : RateLimiter F) (k : String) (now : F)
      → get (check f l k now).1.buckets k ≡ some (left_over (bucket f l k now))
  unfolding check
  get-check l k now = ground (
    arith,
    eq_iff k k,
    get-put l.buckets k (bucket f l k now) k,
    get-put l.buckets k
        (record (bucket f l k now) { tokens = f.sub (bucket f l k now).tokens (f.float 1) }) k,
  )

  check-Alike :
      (k : String) (l m : RateLimiter F) (now : F)
      → Alike k l m
      → ((check f l k now).0 ≡ (check f m k now).0)
        × Alike k (check f l k now).1 (check f m k now).1
  check-Alike k l m now a =
      let same = bucket-Alike k l m now a in
      (
        rw (check-answer l k now, check-answer m k now, same, a.rates) refl,
        record {
          capacities = (settings l k now).0 ∙ a.capacities ∙ sym (settings m k now).0;
          rates = (settings l k now).1 ∙ a.rates ∙ sym (settings m k now).1;
          same_bucket = rw (get-check l k now, get-check m k now, same) refl;
        },
      )

  skipped-Alike :
      (key k : String) (l m : RateLimiter F) (now : F)
      → (key == k) ≡ false
      → Alike k l m
      → Alike k (check f l key now).1 m
  skipped-Alike key k l m now h a = record {
    capacities = (settings l key now).0 ∙ a.capacities;
    rates = (settings l key now).1 ∙ a.rates;
    same_bucket = get-check-other l key k now h ∙ a.same_bucket;
  }

  answers-Alike :
      (k : String) (rest : List (String × F)) (l m : RateLimiter F)
      → Alike k l m
      → answers k l rest ≡ answers k m (of_key k rest)
  unfolding answers
  answers-Alike k [] l m a = refl
  answers-Alike k ((key, now) ∷ rest) l m a = elim (Bool-cases (key == k)) [
    | inr other ↦
        rw other
          (answers-Alike k rest (check f l key now).1 m (skipped-Alike key k l m now other a))
    | inl same ↦
        let e = (eq_iff key k).0 same in
        let (now_same, later) = check-Alike key l m now (subst (λ x. Alike x l m) (sym e) a) in
        rw (same, same, now_same)
          (ap (λ x. (check f m key now).0 ∷ x)
            (answers-Alike k rest (check f l key now).1 (check f m key now).1
              (subst (λ x. Alike x (check f l key now).1 (check f m key now).1) e later)))
  ]

  -- The answers to the checks of a key, which are passes and refusals with the time to wait, are what
  -- they would be if no other key were checked in between, whatever the arithmetic of the floats.
  pub answers_isolated :
      (k : String) (l : RateLimiter F) (rest : List (String × F))
      → answers k l rest ≡ answers k l (of_key k rest)
  answers_isolated k l rest =
      answers-Alike k rest l l (record { capacities = refl; rates = refl; same_bucket = refl })
