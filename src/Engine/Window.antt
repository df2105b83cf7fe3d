-- ===== src/Engine/Window.antt =====
-- The intensity window of engine.py against the whole history of crashes.
use python_civitas.Base.{
  ℕ, ◌+◌, ◌≤◌, ◌<◌, ◌≡◌, refl, Bool, true, List, [], ◌∷◌, ◌++◌, arith, ltb, filter, filter-append,
  filter-all, all, All, All-append, All-filter, false, if◌then◌else◌,
}
use python_civitas.Engine.{RestartEngine, prune, record_crash}

-- A crash at `t` counts at time `now` while `now` is before `t + span`.
abbrev pub recent : ℕ → ℕ → ℕ → Bool
recent span now t = ltb now (t + span)

-- The clock does not run backwards: each crash is at or after the ones before it.
abbrev pub IsAscending : List ℕ → Type 0
IsAscending [] = Unit
IsAscending (t ∷ ts) = All (λ u. t ≤ u) ts × IsAscending ts

all-recent :
    (span now t : ℕ) (ts : List ℕ)
    → All (λ u. t ≤ u) ts
    → now < t + span
    → all (recent span now) ts ≡ true
all-recent span now t [] h k = refl
all-recent span now t (u ∷ ts) h k = ground (arith, all-recent span now t ts h.1)

-- Popping from the left while the head is too old is the same as filtering, on an ascending window.
pub prune-eq-filter :
    (span now : ℕ) (ts : List ℕ) → IsAscending ts → prune span now ts ≡ filter (recent span now) ts
unfolding prune
prune-eq-filter span now [] h = refl
prune-eq-filter span now (t ∷ ts) h = ground (
  arith,
  prune-eq-filter span now ts h.1,
  filter-all (recent span now) ts,
  all-recent span now t ts,
)

-- A crash is the clock's reading and the jitter drawn for its backoff. Histories are newest first.
abbrev pub Crash : Type 0
Crash = ℕ × ℕ

-- The engine after a history of crashes.
unfoldable pub record_all : RestartEngine → List Crash → RestartEngine
record_all e [] = e
record_all e ((t, jitter) ∷ hs) = (record_crash (record_all e hs) t jitter).0

-- The times of a history, oldest first.
abbrev pub chronological : List Crash → List ℕ
chronological [] = []
chronological ((t, jitter) ∷ hs) = chronological hs ++ t ∷ []

-- The clock never ran backwards.
abbrev pub IsClock : List Crash → Type 0
IsClock [] = Unit
IsClock ((t, jitter) ∷ hs) = All (λ u. u ≤ t) (chronological hs) × IsClock hs

All-le-append :
    (t : ℕ) (ts : List ℕ) (now : ℕ)
    → All (λ u. t ≤ u) ts
    → t ≤ now
    → All (λ u. t ≤ u) (ts ++ now ∷ [])
All-le-append t ts now h k = All-append (λ u. t ≤ u) ts (now ∷ []) h (k, tt)

append-IsAscending :
    (ts : List ℕ) (now : ℕ) → IsAscending ts → All (λ u. u ≤ now) ts → IsAscending (ts ++ now ∷ [])
append-IsAscending [] now h k = (tt, tt)
append-IsAscending (t ∷ ts) now h k =
    (All-le-append t ts now h.0 k.0, append-IsAscending ts now h.1 k.1)

cons-IsAscending :
    (b : Bool) (t : ℕ) (ts : List ℕ)
    → All (λ u. t ≤ u) ts
    → IsAscending ts
    → IsAscending (if b then t ∷ ts else ts)
cons-IsAscending true t ts h k = (h, k)
cons-IsAscending false t ts h k = k

filter-IsAscending : (p : ℕ → Bool) (ts : List ℕ) → IsAscending ts → IsAscending (filter p ts)
filter-IsAscending p [] h = tt
filter-IsAscending p (t ∷ ts) h =
    cons-IsAscending (p t) t (filter p ts) (All-filter (λ u. t ≤ u) p ts h.0)
      (filter-IsAscending p ts h.1)

chronological-IsAscending : (hs : List Crash) → IsClock hs → IsAscending (chronological hs)
chronological-IsAscending [] h = tt
chronological-IsAscending ((t, jitter) ∷ hs) h =
    append-IsAscending (chronological hs) t (chronological-IsAscending hs h.1) h.0

All-last : (u t : ℕ) (ts : List ℕ) → All (λ v. v ≤ t) (ts ++ u ∷ []) → u ≤ t
All-last u t [] h = h.0
All-last u t (v ∷ ts) h = All-last u t ts h.1

-- What is recent later was recent before.
filter-recent_twice :
    (span now later : ℕ) (ts : List ℕ)
    → now ≤ later
    → filter (recent span later) (filter (recent span now) ts) ≡ filter (recent span later) ts
filter-recent_twice span now later [] h = refl
filter-recent_twice span now later (t ∷ ts) h =
    ground (arith, filter-recent_twice span now later ts)

pub restart_window-record_all :
    (e : RestartEngine) (hs : List Crash) → (record_all e hs).restart_window ≡ e.restart_window
unfolding record_all record_crash
restart_window-record_all e [] = refl
restart_window-record_all e ((t, jitter) ∷ hs) = restart_window-record_all e hs

pub max_restarts-record_all :
    (e : RestartEngine) (hs : List Crash) → (record_all e hs).max_restarts ≡ e.max_restarts
unfolding record_all record_crash
max_restarts-record_all e [] = refl
max_restarts-record_all e ((t, jitter) ∷ hs) = max_restarts-record_all e hs

-- The window at a crash, from the window before it.
window-record_crash :
    (span now : ℕ) (ws ts : List ℕ)
    → IsAscending ws
    → All (λ u. u ≤ now) ws
    → filter (recent span now) ws ≡ filter (recent span now) ts
    → prune span now (ws ++ now ∷ []) ≡ filter (recent span now) (ts ++ now ∷ [])
window-record_crash span now ws ts asc below same = rw (
  prune-eq-filter span now (ws ++ now ∷ []) (append-IsAscending ws now asc below),
  filter-append (recent span now) ws (now ∷ []),
  filter-append (recent span now) ts (now ∷ []),
  same,
)

window-record_all :
    (e : RestartEngine) (t jitter : ℕ) (hs : List Crash)
    → (record_all e ((t, jitter) ∷ hs)).window
      ≡ prune (record_all e hs).restart_window t ((record_all e hs).window ++ t ∷ [])
unfolding record_all record_crash
window-record_all e t jitter hs = refl

first_window :
    (e : RestartEngine) (t jitter : ℕ)
    → e.window ≡ []
    → (record_all e ((t, jitter) ∷ [])).window ≡ filter (recent e.restart_window t) (t ∷ [])
unfolding record_all record_crash prune
first_window e t jitter empty = rw empty (ground arith)

-- After any history on a clock that never ran backwards, from an empty window, the window holds
-- exactly the crashes that are recent at the time of the last one, in order.
pub window_history :
    (e : RestartEngine) (t jitter : ℕ) (hs : List Crash)
    → e.window ≡ []
    → IsClock ((t, jitter) ∷ hs)
    → (record_all e ((t, jitter) ∷ hs)).window
      ≡ filter (recent e.restart_window t) (chronological ((t, jitter) ∷ hs))
window_history e t jitter [] empty clock = first_window e t jitter empty
window_history e t jitter ((u, k) ∷ hs) empty clock =
    rw
      (
        window-record_all e t jitter ((u, k) ∷ hs),
        restart_window-record_all e ((u, k) ∷ hs),
        window_history e u k hs empty clock.1,
      )
      (window-record_crash span t (filter (recent span u) past) past
        (filter-IsAscending (recent span u) past (chronological-IsAscending ((u, k) ∷ hs) clock.1))
        (All-filter (λ v. v ≤ t) (recent span u) past clock.0)
        (filter-recent_twice span u t past (All-last u t (chronological hs) clock.0)))
  where
    span : ℕ
    span = e.restart_window

    past : List ℕ
    past = chronological ((u, k) ∷ hs)
