-- ===== src/Examples/RateLimit.antt =====
-- A limiter of two tokens, one refilled each second, with natural numbers of milliseconds and
-- thousandths for floats (rate_limit.py).
use vuoro.Prelude.{ℕ, String, ◌+◌, ◌-◌, ◌*◌, ◌/◌, ◌≡◌, refl, [], ◌∷◌, List, ltb, leb}
use vuoro.Prelude.Eq.{string_keys}
use vuoro.Prelude.Result.{ok, err}
use vuoro.Dict.{get, put}
use vuoro.RateLimit.{Floats, RateLimiter, check, bucket, refilled}
use vuoro.RateLimit.Isolated.{answers, of_key, answers_isolated}

abbrev thousandths : Floats ℕ
thousandths = record {
  float = λ n. n * 1000;
  add = λ a b. a + b;
  sub = λ a b. a - b;
  mul = λ a b. a * b / 1000;
  div = λ a b. a * 1000 / b;
  less = ltb;
  at_most = leb;
}

abbrev limiter : RateLimiter ℕ
limiter = record {
  capacity = 2000;
  refill_per_second = 1000;
  buckets = ("alice", record { tokens = 1500; last_refill_at = 10000 }) ∷ [];
}

abbrev checks : List (String × ℕ)
checks = ("alice", 10000) ∷ ("bob", 10100) ∷ ("alice", 10200) ∷ ("alice", 11000) ∷ []

second_refused :
    answers thousandths "alice" limiter checks
    ≡ ok tt ∷ err (record { key = "alice"; retry_after_seconds = 300 }) ∷ ok tt ∷ []
unfolding answers check bucket refilled get put
second_refused = refl

answers_isolated_example :
    answers thousandths "alice" limiter checks
    ≡ answers thousandths "alice" limiter (of_key thousandths "alice" checks)
answers_isolated_example = answers_isolated thousandths "alice" limiter checks
