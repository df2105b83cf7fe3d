-- ===== src/Gateway.antt =====
-- The limits of civitas/gateway: the RateLimiter of ratelimit.py and its middleware.
-- `now` is the reading of time.monotonic(), in the ticks of the window. A cutoff before the clock's
-- zero keeps every hit, as a negative one does in the code.
pub mod Budgets
use python_civitas.Base.{
  ℕ, ◌+◌, ◌-◌, Bool, true, false, Option, none, some, List, [], ◌∷◌, ◌++◌, String, ltb, leb,
  string_eq, if◌then◌else◌, filter, length,
}
use python_civitas.Base.Dict.{Dict, lookup, insert}

pub record RateLimiter : Type 0 where
  pub max : ℕ
  pub window : ℕ
  pub hits : Dict String (List ℕ)

pub record Verdict : Type 0 where
  pub allowed : Bool
  pub remaining : ℕ
  pub retry_after : ℕ

abbrev hits_or_none : Option (List ℕ) → List ℕ
hits_or_none none = []
hits_or_none (some ts) = ts

-- t >= now - window, with the subtraction moved over
abbrev pub is_hit : ℕ → ℕ → ℕ → Bool
is_hit window now t = leb now (t + window)

unfoldable pub handle_call : ℕ → String → RateLimiter → Verdict × RateLimiter
unfolding lookup insert
handle_call now client_id r =
    let hits = filter (is_hit r.window now) (hits_or_none (lookup client_id r.hits)) in
    let allowed = ltb (length hits) r.max in
    let kept = if allowed then hits ++ now ∷ [] else hits in
    (
      record { allowed = allowed; remaining = r.max - length kept; retry_after = r.window },
      record r { hits = insert client_id kept r.hits },
    )

-- A response is the next one's or the 429 with its Retry-After.
pub data Response {ℓ} (A : Type ℓ) : Type ℓ where
  passed_on : A → Response A
  too_many : ℕ → Response A

-- The middleware, with the answer of the limiter where the request has a gateway.
unfoldable pub rate_limit {ℓ} : {A : Type ℓ} → Option Verdict → A → Response A
rate_limit none next = passed_on next
rate_limit (some v) next = if v.allowed then passed_on next else too_many v.retry_after
