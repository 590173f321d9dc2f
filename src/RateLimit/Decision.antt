-- ===== src/RateLimit/Decision.antt =====
-- Runs of calls decided by `evaluateRateLimit` of functions/src/rateLimiter.ts.
use flash_card.Prelude.{
  ℕ, ◌+◌, ◌-◌, ◌*◌, ◌≤◌, ◌<◌, ◌≡◌, ◌≢◌, refl, ◌↔◌, min, true, false, Option, none, some, List, [],
  ◌∷◌, subst, ok, throw, length, All, arith, if◌then◌else◌,
}
use flash_card.Prelude.Number.{
  Number, safe_natural?, safe_positive?, max_safe_integer, safe_natural?_bounds,
  safe_positive?_bounds,
}
use flash_card.RateLimit.{
  RateLimitState, Window, RateLimitDecision, invalid_maximum, invalid_time, to_state,
  rate_limit_window_ms, decide_window, evaluate_rate_limit, valid_state?,
}

-- A window whose numbers are safe integers.
pub record IsSafe (w : Window) : Type 0 where
  pub started_safe : w.window_started_at ≤ max_safe_integer
  pub calls_safe : w.calls ≤ max_safe_integer

abbrev AllSafe : Option Window → Type 0
AllSafe none = Unit
AllSafe (some w) = IsSafe w

pub valid_state?-to_state : (w : Window) → IsSafe w → valid_state? (some (to_state w)) ≡ some w
unfolding valid_state?
valid_state?-to_state w h = ground arith

-- What `isValidState` lets through is safe.
valid_state?-AllSafe : (s : Option RateLimitState) → AllSafe (valid_state? s)
unfolding valid_state?
valid_state?-AllSafe none = tt
valid_state?-AllSafe (some s) =
    go (safe_natural? s.window_started_at) (safe_natural? s.calls) refl refl
  where
    go :
        (a b : Option ℕ)
        → safe_natural? s.window_started_at ≡ a
        → safe_natural? s.calls ≡ b
        → AllSafe (valid_state? (some s))
    go none b p q = ground arith
    go (some a) none p q = ground arith
    go (some a) (some b) p q =
        ground (arith, safe_natural?_bounds s.window_started_at a, safe_natural?_bounds s.calls b)

decide_window-IsSafe :
    (w : Option Window) (now limit : ℕ)
    → AllSafe w
    → now ≤ max_safe_integer
    → limit ≤ max_safe_integer
    → IsSafe (decide_window w now limit).state
unfolding decide_window
decide_window-IsSafe none now limit s n l = ground arith
decide_window-IsSafe (some w) now limit s n l = ground arith

-- Every decision stores numbers that are safe integers, so it is read back as a valid state: the
-- counter never leaves the range in which the source's arithmetic is exact.
pub evaluate_rate_limit-valid :
    (current : Option RateLimitState) (now maximum : Number) {d : RateLimitDecision}
    → evaluate_rate_limit current now maximum ≡ ok d
    → IsSafe d.state × (valid_state? (some (to_state d.state)) ≡ some d.state)
unfolding evaluate_rate_limit
evaluate_rate_limit-valid current now maximum {d} h =
    go (safe_positive? maximum) (safe_natural? now) refl refl
  where
    finish :
        IsSafe d.state → IsSafe d.state × (valid_state? (some (to_state d.state)) ≡ some d.state)
    finish s = (s, valid_state?-to_state d.state s)

    go :
        (l t : Option ℕ)
        → safe_positive? maximum ≡ l
        → safe_natural? now ≡ t
        → IsSafe d.state × (valid_state? (some (to_state d.state)) ≡ some d.state)
    go none t p q = absurd (ground arith)
    go (some l) none p q = absurd (ground arith)
    go (some l) (some t) p q =
        let e : decide_window (valid_state? current) t l ≡ d = ground arith in
        finish (
          subst (λ x. IsSafe x.state) e
            (decide_window-IsSafe (valid_state? current) t l (valid_state?-AllSafe current)
              (safe_natural?_bounds now t q) (safe_positive?_bounds maximum l p).1))

-- How many of the calls at the given times one budget admits.
pub admitted : ℕ → Option Window → List ℕ → ℕ
admitted limit w [] = 0
admitted limit w (t ∷ ts) =
    let d = decide_window w t limit in
    (if d.allowed then 1 else 0) + admitted limit (some d.state) ts

abbrev pub Within : ℕ → List ℕ → Type 0
Within start ts = All (λ t. (start ≤ t) × (t < start + rate_limit_window_ms)) ts

-- Inside one window exactly the calls that the budget has left are admitted.
pub admitted-eq-min :
    (limit : ℕ) (w : Window) (ts : List ℕ)
    → Within w.window_started_at ts
    → admitted limit (some w) ts ≡ min (length ts) (limit - w.calls)
unfolding admitted decide_window
admitted-eq-min limit w [] h = omega arith
admitted-eq-min limit w (t ∷ ts) h = ground (
  arith,
  admitted-eq-min limit w ts h.1,
  admitted-eq-min limit (record w { calls = w.calls + 1 }) ts h.1,
)

-- The clock does not run backwards.
abbrev pub IsClock : ℕ → List ℕ → Type 0
IsClock from [] = Unit
IsClock from (t ∷ ts) = (from ≤ t) × IsClock t ts

IsClock-Within :
    (from end : ℕ) (ts : List ℕ)
    → end ≤ from + rate_limit_window_ms
    → IsClock from ts
    → All (λ t. t < end) ts
    → Within from ts
IsClock-Within from end [] e c b = tt
IsClock-Within from end (t ∷ ts) e c b = ((c.0, omega arith), go ts t c.0 c.1 b.1)
  where
    go : (us : List ℕ) (u : ℕ) → from ≤ u → IsClock u us → All (λ t. t < end) us → Within from us
    go [] u l k v = tt
    go (x ∷ us) u l k v = ((omega arith, omega arith), go us x (omega arith) k.1 v.1)

module _ (limit end : ℕ) (positive : 0 < limit) where
  admitted-fresh-le :
      (t : ℕ) (ts : List ℕ)
      → end ≤ t + rate_limit_window_ms
      → IsClock t ts
      → All (λ u. u < end) ts
      → admitted limit (some (record { window_started_at = t; calls = 1 })) ts + 1 ≤ limit
  admitted-fresh-le t ts e c b = omega (
    arith,
    admitted-eq-min limit (record { window_started_at = t; calls = 1 }) ts
        (IsClock-Within t end ts e c b),
  )

  admitted-some-le :
      (w : Window) (from : ℕ) (ts : List ℕ)
      → end ≤ from + rate_limit_window_ms
      → IsClock from ts
      → All (λ u. u < end) ts
      → admitted limit (some w) ts ≤ (limit - w.calls) + limit
  unfolding admitted decide_window
  admitted-some-le w from [] e c b = omega arith
  admitted-some-le w from (t ∷ ts) e c b =
      let later : end ≤ t + rate_limit_window_ms = omega arith in
      ground (
        arith,
        admitted-fresh-le t ts later c.1 b.1,
        admitted-some-le w t ts later c.1 b.1,
        admitted-some-le (record w { calls = w.calls + 1 }) t ts later c.1 b.1,
      )

-- Over any run of calls that is no longer than one window, from any stored state and under a
-- clock that does not run backwards, a budget admits at most twice its maximum.
pub admitted-le-double :
    (limit : ℕ) (w : Option Window) (start : ℕ) (ts : List ℕ)
    → 0 < limit
    → IsClock start ts
    → All (λ t. t < start + rate_limit_window_ms) ts
    → admitted limit w ts ≤ 2 * limit
unfolding admitted decide_window
admitted-le-double limit none start [] p c b = omega arith
admitted-le-double limit none start (t ∷ ts) p c b =
    let later : start + rate_limit_window_ms ≤ t + rate_limit_window_ms = omega arith in
    omega (arith, admitted-fresh-le limit (start + rate_limit_window_ms) p t ts later c.1 b.1)
admitted-le-double limit (some w) start ts p c b =
    omega
      (arith, admitted-some-le limit (start + rate_limit_window_ms) p w start ts (omega arith) c b)

-- A refused caller that waits for the given time is admitted, and no earlier call is, as long as
-- the state stays as it was.
pub retry_after-exact :
    (w : Window) (now limit : ℕ)
    → 0 < limit
    → (decide_window (some w) now limit).allowed ≡ false
    → let retry = (decide_window (some w) now limit).retry_after_ms in
      ((decide_window (some w) (now + retry) limit).allowed ≡ true)
      × ((later : ℕ)
          → now ≤ later
          → later < now + retry
          → decide_window (some w) later limit
            ≡ record { allowed = false; state = w; retry_after_ms = now + retry - later })
unfolding decide_window
retry_after-exact w now limit p h = (ground arith, λ later a b. ground arith)

-- The two argument checks, in their order: a maximum that is no positive safe integer is an
-- error whatever the time, then a time that is no safe natural number; all else is decided.
pub evaluate_rate_limit_errors :
    (current : Option RateLimitState) (now maximum : Number)
    → ((evaluate_rate_limit current now maximum ≡ throw invalid_maximum)
        ↔ (safe_positive? maximum ≡ none))
      × ((evaluate_rate_limit current now maximum ≡ throw invalid_time)
          ↔ ((safe_positive? maximum ≢ none) × (safe_natural? now ≡ none)))
unfolding evaluate_rate_limit
evaluate_rate_limit_errors current now maximum = ground arith
