-- ===== src/Streaming.antt =====
-- StreamSink of civitas/streaming.py. A payload is of any type `P`.
-- The times that `drain` reads are arguments; what a queue read brings is the front of the queue.
pub mod Sequence
pub mod Trace
pub mod Buffer
pub mod Delivery
pub mod Deadline
use python_civitas.Base.{
  ℕ, ◌+◌, ◌-◌, Bool, true, false, not, ◌&&◌, ◌||◌, Option, none, some, List, [], ◌∷◌, ◌++◌, String,
  ltb, leb, ◌==◌, nat_eq, min, string_eq, if◌then◌else◌,
}

-- ("chunk", payload), ("end", {}) and ("error", {"error": reason})
pub data Item {ℓ} (P : Type ℓ) : Type ℓ where
  chunk : P → Item P
  finish : Item P
  error : String → Item P

pub record StreamSink {ℓ} (P : Type ℓ) : Type ℓ where
  pub queue : List (Item P)
  pub maxsize : ℕ
  pub pending : ℕ
  pub closed : Bool
  pub next_seq : ℕ

-- what a step of `drain` does: wait for a frame, yield a payload, return, or raise _StreamClosed
pub data Outcome {ℓ} (P : Type ℓ) : Type ℓ where
  waiting : Outcome P
  yielded : P → Outcome P
  returned : Outcome P
  raised : String → Outcome P

-- seq is not None and seq != self._next_seq
abbrev out_of_order : Option ℕ → ℕ → Bool
out_of_order none next = false
out_of_order (some k) next = not (k == next)

abbrev advance : Option ℕ → ℕ → ℕ
advance none next = next
advance (some k) next = next + 1

-- payload.get("error") or "stream error"
abbrev pub reason_or_default : String → String
reason_or_default reason = if reason == "" then "stream error" else reason

module _ {ℓ} {P : Type ℓ} where
  unfoldable pub open_sink : ℕ → StreamSink P
  open_sink maxsize = record {
    queue = [];
    maxsize = maxsize;
    pending = 0;
    closed = false;
    next_seq = 0;
  }

  -- self._done = True; self._queue.put_nowait(item)
  abbrev close_with : Item P → StreamSink P → StreamSink P
  close_with item s = record s { closed = true; queue = s.queue ++ item ∷ [] }

  unfoldable pub push : P → Option ℕ → StreamSink P → StreamSink P
  push payload seq s =
      if s.closed
      then s
      else if out_of_order seq s.next_seq
      then close_with (error "out_of_order") s
      else if leb s.maxsize s.pending
      then close_with (error "slow_consumer") s
      else record s {
        next_seq = advance seq s.next_seq;
        pending = s.pending + 1;
        queue = s.queue ++ chunk payload ∷ [];
      }

  -- `end` of the source
  unfoldable pub end_stream : Option ℕ → StreamSink P → StreamSink P
  end_stream total s =
      if s.closed
      then s
      else if out_of_order total s.next_seq
      then close_with (error "truncated_stream") s
      else close_with finish s

  unfoldable pub fail : String → StreamSink P → StreamSink P
  fail reason s = if s.closed then s else close_with (error reason) s

  abbrev pub consume : StreamSink P → List (Item P) → Outcome P × StreamSink P
  consume s [] = (waiting, s)
  consume s (chunk payload ∷ rest) =
      (yielded payload, record s { queue = rest; pending = s.pending - 1 })
  consume s (finish ∷ rest) = (returned, record s { queue = rest })
  consume s (error reason ∷ rest) = (raised (reason_or_default reason), record s { queue = rest })

  -- One round of `drain` that reads the queue before its timeout.
  unfoldable pub receive : StreamSink P → Outcome P × StreamSink P
  receive s = consume s s.queue

-- Before it waits a round checks the deadline, and waits no longer than to it.
pub data Wait : Type 0 where
  too_late : Wait
  wait_for : Option ℕ → Wait

abbrev shorter : Option ℕ → ℕ → ℕ
shorter none remaining = remaining
shorter (some wait) remaining = min wait remaining

abbrev pub round_timeout : Bool → Option ℕ → Option ℕ → Option ℕ
round_timeout true (some first) idle = some first
round_timeout true none idle = idle
round_timeout false first idle = idle

unfoldable pub drain_wait : Option ℕ → Option ℕ → Option ℕ → Bool → ℕ → Wait
drain_wait none idle first_timeout first now = wait_for (round_timeout first first_timeout idle)
drain_wait (some deadline) idle first_timeout first now =
    if leb deadline now
    then too_late
    else wait_for (some (shorter (round_timeout first first_timeout idle) (deadline - now)))

-- except TimeoutError
unfoldable pub timeout_reason : Option ℕ → ℕ → String
timeout_reason none now = "stream idle timeout"
timeout_reason (some deadline) now =
    if leb deadline now then "max_stream_duration exceeded" else "stream idle timeout"
