-- ===== src/Gateway/Budgets.antt =====
-- RateLimiter of civitas/gateway/ratelimit.py against the history of its calls.
use python_civitas.Base.{
  ℕ, ◌+◌, leb, ◌≤◌, ◌<◌, ◌≡◌, refl, ◌↔◌, true, List, [], ◌∷◌, String, arith, ◌==◌, string_eq,
  if◌then◌else◌, filter, length,
}
use python_civitas.Base.Windows.{admit_at, windows_after, allowed_times, IsTimed, allowed_iff}
use python_civitas.Gateway.{RateLimiter, is_hit, handle_call}

handle_call-admit_at :
    (now : ℕ) (k : String) (r : RateLimiter)
    → ((handle_call now k r).0.allowed ≡ (admit_at (is_hit r.window) r.max k now r.hits).0)
      × ((handle_call now k r).1
          ≡ record r { hits = (admit_at (is_hit r.window) r.max k now r.hits).1 })
unfolding handle_call admit_at
handle_call-admit_at now k r = (ground arith, ground arith)

-- The limiter after a history of calls, the newest first.
unfoldable pub after_calls : List (String × ℕ) → RateLimiter → RateLimiter
after_calls [] r = r
after_calls ((k, now) ∷ hs) r = (handle_call now k (after_calls hs r)).1

-- The times at which a client was allowed, the newest first.
unfoldable pub allowed_calls : String → List (String × ℕ) → RateLimiter → List ℕ
unfolding after_calls
allowed_calls k [] r = []
allowed_calls k ((j, now) ∷ hs) r =
    let rest = allowed_calls k hs r in
    if j == k
    then if (handle_call now j (after_calls hs r)).0.allowed then now ∷ rest else rest
    else rest

after_calls-windows :
    (hs : List (String × ℕ)) (r : RateLimiter)
    → r.hits ≡ []
    → after_calls hs r ≡ record r { hits = windows_after (is_hit r.window) r.max hs }
unfolding after_calls windows_after
after_calls-windows [] r new = ground (arith, new)
after_calls-windows ((k, now) ∷ hs) r new =
    ground (arith, handle_call-admit_at now k (after_calls hs r), after_calls-windows hs r new)

allowed_calls-times :
    (k : String) (hs : List (String × ℕ)) (r : RateLimiter)
    → r.hits ≡ []
    → allowed_calls k hs r ≡ allowed_times (is_hit r.window) r.max k hs
unfolding allowed_calls allowed_times
allowed_calls-times k [] r new = refl
allowed_calls-times k ((j, now) ∷ hs) r new = ground (
  arith,
  handle_call-admit_at now j (after_calls hs r),
  after_calls-windows hs r new,
  allowed_calls-times k hs r new,
)

is_hit-narrows :
    (span now later t : ℕ) → now ≤ later → is_hit span later t ≡ true → is_hit span now t ≡ true
is_hit-narrows span now later t h k = ground arith

-- The times that are at most `window` before `now`, or after it.
unfoldable pub at_most_old : ℕ → ℕ → List ℕ → List ℕ
at_most_old window now [] = []
at_most_old window now (t ∷ ts) =
    let rest = at_most_old window now ts in if leb now (t + window) then t ∷ rest else rest

at_most_old-filter :
    (window now : ℕ) (ts : List ℕ) → at_most_old window now ts ≡ filter (is_hit window now) ts
unfolding at_most_old
at_most_old-filter window now [] = refl
at_most_old-filter window now (t ∷ ts) = ground (arith, at_most_old-filter window now ts)

-- A limiter that began without hits answered calls on a clock that never ran backwards. It allows a
-- client's next call exactly if fewer than `max` of the calls that it allowed this client are at most
-- `window` old. The other clients, and the calls that it refused, do not count.
pub call_allowed_iff :
    (hs : List (String × ℕ)) (r : RateLimiter) (k : String) (now : ℕ)
    → r.hits ≡ []
    → IsTimed ((k, now) ∷ hs)
    → ((handle_call now k (after_calls hs r)).0.allowed ≡ true)
      ↔ (length (at_most_old r.window now (allowed_calls k hs r)) < r.max)
call_allowed_iff hs r k now new timed = ground (
  arith,
  at_most_old-filter r.window now (allowed_calls k hs r),
  allowed_iff (is_hit r.window) r.max (is_hit-narrows r.window) k now hs timed,
  handle_call-admit_at now k (after_calls hs r),
  after_calls-windows hs r new,
  allowed_calls-times k hs r new,
)
