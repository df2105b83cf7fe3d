-- ===== src/Base/Windows.antt =====
-- Sliding windows of times under keys, as the limits of civitas/evalloop.py and of
-- civitas/gateway/ratelimit.py keep them.
use Prim.Native.Nat.{ℕ, ◌≤◌, ◌<◌}
use mathlib.Core.Path.{◌≡◌, refl}
use mathlib.Core.Logic.{◌↔◌}
use mathlib.Core.Bool.{Bool, true, false}
use mathlib.Core.Option.{Option, none, some}
use mathlib.Core.List.{List, [], ◌∷◌, ◌++◌}
use native.Mathlib.Omega.{arith}
use Prim.Native.String.{String}
use python_civitas.Base.Tests.{ltb, if◌then◌else◌, ◌==◌, string_eq}
use python_civitas.Base.Lists.{length, filter, All}
use python_civitas.Base.Dict.{Dict, lookup, insert, lookup-insert}

-- d.get(k, [])
abbrev pub times_in : Option (List ℕ) → List ℕ
times_in none = []
times_in (some ts) = ts

abbrev pub times_of : String → Dict String (List ℕ) → List ℕ
times_of k d = times_in (lookup k d)

-- `keep now t`: a time t still counts at time now. `cap` is the number allowed in a window.
module _ (keep : ℕ → ℕ → Bool) (cap : ℕ) where
  abbrev pub kept : String → ℕ → Dict String (List ℕ) → List ℕ
  kept k now d = filter (keep now) (times_of k d)

  -- One request under a key at a time: whether it is allowed, and the windows after it.
  unfoldable pub admit_at : String → ℕ → Dict String (List ℕ) → Bool × Dict String (List ℕ)
  admit_at k now d =
      if ltb (length (kept k now d)) cap
      then (true, insert k (kept k now d ++ now ∷ []) d)
      else (false, insert k (kept k now d) d)

  -- The windows after a history of requests, the newest first.
  unfoldable pub windows_after : List (String × ℕ) → Dict String (List ℕ)
  windows_after [] = []
  windows_after ((k, now) ∷ hs) = (admit_at k now (windows_after hs)).1

  -- The times at which a key was allowed, the newest first.
  unfoldable pub allowed_times : String → List (String × ℕ) → List ℕ
  allowed_times k [] = []
  allowed_times k ((j, now) ∷ hs) =
      let rest = allowed_times k hs in
      if j == k then if (admit_at j now (windows_after hs)).0 then now ∷ rest else rest else rest

-- No request of a history is after a time.
abbrev pub IsBefore : ℕ → List (String × ℕ) → Type 0
IsBefore now hs = All (λ h. h.1 ≤ now) hs

-- The clock never ran backwards over a history.
abbrev pub IsTimed : List (String × ℕ) → Type 0
IsTimed [] = Unit
IsTimed ((k, now) ∷ hs) = IsBefore now hs × IsTimed hs

module _ (keep : ℕ → ℕ → Bool) (cap : ℕ)
    (narrows : (now later t : ℕ) → now ≤ later → keep later t ≡ true → keep now t ≡ true) where
  filter-filter :
      (now later : ℕ) (ts : List ℕ)
      → now ≤ later
      → filter (keep later) (filter (keep now) ts) ≡ filter (keep later) ts
  filter-filter now later [] h = refl
  filter-filter now later (t ∷ ts) h =
      ground (arith, filter-filter now later ts h, narrows now later t h)

  filter-le :
      (now later : ℕ) (ts : List ℕ)
      → now ≤ later
      → length (filter (keep later) ts) ≤ length (filter (keep now) ts)
  filter-le now later [] h = omega arith
  filter-le now later (t ∷ ts) h = ground (arith, filter-le now later ts h, narrows now later t h)

  times_step :
      (k j : String) (now : ℕ) (d : Dict String (List ℕ))
      → times_of k (admit_at keep cap j now d).1 ≡ (
          if j == k
          then (if (admit_at keep cap j now d).0
              then kept keep cap k now d ++ now ∷ []
              else kept keep cap k now d)
          else times_of k d)
  unfolding admit_at
  times_step k j now d = ground (
    arith,
    string_eq.same_iff j k,
    lookup-insert j k (kept keep cap j now d ++ now ∷ []) d,
    lookup-insert j k (kept keep cap j now d) d,
  )

  one_later :
      (later now : ℕ) (ts : List ℕ)
      → length (filter (keep later) (ts ++ now ∷ [])) ≡ length (filter (keep later) (now ∷ ts))
  one_later later now [] = refl
  one_later later now (t ∷ ts) = ground (arith, one_later later now ts)

  -- What the windows hold of a key is what was allowed to it, as far as it still counts.
  pub holds_allowed :
      (k : String) (hs : List (String × ℕ)) (later : ℕ)
      → IsTimed hs
      → IsBefore later hs
      → length (filter (keep later) (times_of k (windows_after keep cap hs)))
        ≡ length (filter (keep later) (allowed_times keep cap k hs))
  unfolding windows_after allowed_times lookup
  holds_allowed k [] later timed before = refl
  holds_allowed k ((j, now) ∷ hs) later timed before =
      let d = windows_after keep cap hs in
      ground (
        arith,
        times_step k j now d,
        one_later later now (kept keep cap k now d),
        filter-filter now later (times_of k d) before.0,
        holds_allowed k hs later timed.1 before.1,
      )

  pub at_most_cap :
      (k : String) (hs : List (String × ℕ)) (later : ℕ)
      → IsTimed hs
      → IsBefore later hs
      → length (filter (keep later) (allowed_times keep cap k hs)) ≤ cap
  unfolding allowed_times admit_at
  at_most_cap k [] later timed before = omega arith
  at_most_cap k ((j, now) ∷ hs) later timed before = ground (
    arith,
    string_eq.same_iff j k,
    holds_allowed k hs now timed.1 timed.0,
    filter-le now later (allowed_times keep cap k hs) before.0,
    at_most_cap k hs later timed.1 before.1,
  )

  pub allowed_iff :
      (k : String) (now : ℕ) (hs : List (String × ℕ))
      → IsTimed ((k, now) ∷ hs)
      → ((admit_at keep cap k now (windows_after keep cap hs)).0 ≡ true)
        ↔ (length (filter (keep now) (allowed_times keep cap k hs)) < cap)
  unfolding admit_at
  allowed_iff k now hs timed = ground (arith, holds_allowed k hs now timed.1 timed.0)
