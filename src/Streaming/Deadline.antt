-- ===== src/Streaming/Deadline.antt =====
-- The waits of StreamSink.drain in streaming.py against its deadline.
use python_civitas.Base.{
  ℕ, ◌+◌, ◌-◌, ◌≤◌, ◌<◌, ◌≡◌, refl, ◌⊎◌, inl, inr, Bool, Option, none, some, min, arith,
}
use python_civitas.Streaming.{Wait, too_late, wait_for, drain_wait, round_timeout}

-- A wait with a bound that ends by the deadline, is not empty, and is within the limit of its round.
pub record EndsInTime (deadline now : ℕ) (limit : Option ℕ) (w : Wait) : Type 0 where
  pub bound : ℕ
  pub is_bounded : w ≡ wait_for (some bound)
  pub in_time : now + bound ≤ deadline
  pub positive : (0 < bound) ⊎ (limit ≡ some 0)
  pub within : (limit ≡ none) ⊎ ((l : ℕ) × (limit ≡ some l) × (bound ≤ l))

ends_cases :
    (deadline now : ℕ) (limit : Option ℕ)
    → now < deadline
    → EndsInTime deadline now limit
        (wait_for (some (elim limit [ none ↦ deadline - now | some l ↦ min l (deadline - now) ])))
ends_cases deadline now none h = record {
  bound = deadline - now;
  is_bounded = refl;
  in_time = omega arith;
  positive = inl (omega arith);
  within = inl refl;
}
ends_cases deadline now (some l) h = record {
  bound = min l (deadline - now);
  is_bounded = refl;
  in_time = omega arith;
  positive = ground arith;
  within = inr (l, refl, omega arith);
}

shorter_lem :
    (deadline now : ℕ) (idle first_timeout : Option ℕ) (first : Bool)
    → now < deadline
    → drain_wait (some deadline) idle first_timeout first now
      ≡ wait_for (
          some (elim (round_timeout first first_timeout idle) [
            | none ↦ deadline - now
            | some l ↦ min l (deadline - now)
          ]))
unfolding drain_wait
shorter_lem deadline now idle first_timeout first h = ground arith

-- With a `max_duration` every round either refuses to wait, exactly when the deadline has come, or waits
-- for a bounded time that ends by the deadline and is no longer than the limit of its round.
pub waits_end_by_deadline :
    (deadline now : ℕ) (idle first_timeout : Option ℕ) (first : Bool)
    → ((deadline ≤ now) × (drain_wait (some deadline) idle first_timeout first now ≡ too_late))
      ⊎ ((now < deadline)
          × EndsInTime deadline now
              (round_timeout first first_timeout idle)
              (drain_wait (some deadline) idle first_timeout first now))
waits_end_by_deadline deadline now idle first_timeout first = go (decide deadline now)
  where
    decide : (d n : ℕ) → (d ≤ n) ⊎ (n < d)
    decide d n = ground arith

    go :
        (deadline ≤ now) ⊎ (now < deadline)
        → ((deadline ≤ now) × (drain_wait (some deadline) idle first_timeout first now ≡ too_late))
          ⊎ ((now < deadline)
              × EndsInTime deadline now
                  (round_timeout first first_timeout idle)
                  (drain_wait (some deadline) idle first_timeout first now))
    go (inl late) = inl (late, unfold drain_wait in ground arith)
    go (inr early) = inr (
      early,
      rw (shorter_lem deadline now idle first_timeout first early)
          (ends_cases deadline now (round_timeout first first_timeout idle) early),
    )
