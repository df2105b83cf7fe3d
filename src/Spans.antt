-- ===== src/Spans.antt =====
-- Finished spans: civitas/observability/span_queue.py and the InMemorySpanStore of span_store.py.
-- Times are whole ticks of a second, and costs are kept as whole ticks and never added. An attribute has
-- the type that the code that sets it gives it, so that a name is a text and a cost a number.
pub mod Bounds
use text.Mathlib.Text.{starts_with}
use python_civitas.Base.{
  ℕ, zero, suc, ◌+◌, ◌-◌, ◌*◌, ◌/◌, Bool, true, false, not, ◌&&◌, ◌||◌, ◌↔◌, ◌≡◌, refl, arith, Eq,
  Option, none, some, List, [], ◌∷◌, ◌++◌, map, String, ltb, leb, ◌==◌, nat_eq, string_eq,
  if◌then◌else◌, filter, length, drop, take,
}
use python_civitas.Base.Dict.{Dict, lookup, insert}

pub data Attribute : Type 0 where
  text_value : String → Attribute
  number_value : ℕ → Attribute

pub record SpanData : Type 0 where
  pub name : String
  pub trace_id : String
  pub span_id : String
  pub parent_span_id : Option String
  pub start_time : ℕ
  pub end_time : ℕ
  pub attributes : Dict String Attribute
  pub status : String
  pub error_message : Option String

pub record SpanQueue : Type 0 where
  pub maxsize : ℕ
  -- oldest first
  pub queue : List SpanData

-- asyncio.Queue.full(): a maxsize of 0 is no bound
abbrev is_full : SpanQueue → Bool
is_full q = not (q.maxsize == 0) && leb q.maxsize (length q.queue)

-- Drop the oldest if full.
unfoldable pub put_nowait : SpanData → SpanQueue → SpanQueue
put_nowait span q =
    if is_full q
    then record q { queue = drop 1 q.queue ++ span ∷ [] }
    else record q { queue = q.queue ++ span ∷ [] }

abbrev text_in : Option Attribute → Option String
text_in (some (text_value s)) = some s
text_in _ = none

abbrev number_in : Option Attribute → Option ℕ
number_in (some (number_value n)) = some n
number_in _ = none

pub record Normalized : Type 0 where
  pub agent_name : Option String
  pub llm_model : Option String
  pub llm_tokens_in : Option ℕ
  pub llm_tokens_out : Option ℕ
  pub llm_cost_usd : Option ℕ

abbrev named : Option String → Normalized
named agent = record {
  agent_name = agent;
  llm_model = none;
  llm_tokens_in = none;
  llm_tokens_out = none;
  llm_cost_usd = none;
}

-- Each kind of span has its own keys; the first that matches wins.
unfoldable pub normalize_span : SpanData → Normalized
unfolding lookup
normalize_span span =
    let a = span.attributes in
    if starts_with span.name "civitas.agent."
    then named (text_in (lookup "civitas.agent.name" a))
    else if span.name == "civitas.llm.chat"
    then record {
      agent_name = text_in (lookup "civitas.agent.name" a);
      llm_model = text_in (lookup "civitas.llm.model" a);
      llm_tokens_in = number_in (lookup "civitas.llm.tokens_in" a);
      llm_tokens_out = number_in (lookup "civitas.llm.tokens_out" a);
      llm_cost_usd = number_in (lookup "civitas.llm.cost_usd" a);
    }
    else if starts_with span.name "llm.chat "
    then record {
      agent_name = none;
      llm_model = text_in (lookup "llm.model" a);
      llm_tokens_in = number_in (lookup "llm.tokens_in" a);
      llm_tokens_out = number_in (lookup "llm.tokens_out" a);
      llm_cost_usd = number_in (lookup "llm.cost_usd" a);
    }
    else if starts_with span.name "send " || starts_with span.name "recv "
    then named (text_in (lookup "civitas.sender" a))
    else if starts_with span.name "tool.execute"
    then named (text_in (lookup "civitas.sender" a))
    else if span.name == "supervisor.restart"
    then named (text_in (lookup "civitas.child" a))
    else named none

pub record SpanRecord : Type 0 where
  pub span : SpanData
  pub normal : Normalized

pub record InMemorySpanStore : Type 0 where
  pub maxsize : ℕ
  pub spans : List SpanRecord

abbrev pub record_of : SpanData → SpanRecord
record_of span = record { span = span; normal = normalize_span span }

-- xs[-n:], which for n = 0 is the whole list
unfoldable pub newest {ℓ} : {A : Type ℓ} → ℕ → List A → List A
newest zero xs = xs
newest (suc n) xs = drop (length xs - suc n) xs

unfoldable pub export : List SpanData → InMemorySpanStore → InMemorySpanStore
unfolding newest
export spans s =
    let all = s.spans ++ map record_of spans in
    record s { spans = if ltb s.maxsize (length all) then newest s.maxsize all else all }

unfoldable pub shutdown : InMemorySpanStore → InMemorySpanStore
shutdown s = record s { spans = [] }

-- since <= t <= until
abbrev pub in_range : ℕ → ℕ → SpanRecord → Bool
in_range since until r = leb since r.span.start_time && leb r.span.start_time until

-- The rows of a query by start_time, oldest first and newest first; rows of one time keep their order.
unfoldable pub insert_row : SpanRecord → List SpanRecord → List SpanRecord
insert_row r [] = r ∷ []
insert_row r (c ∷ cs) =
    let rest = insert_row r cs in
    if leb r.span.start_time c.span.start_time then r ∷ c ∷ cs else c ∷ rest

unfoldable pub insert_newer : SpanRecord → List SpanRecord → List SpanRecord
insert_newer r [] = r ∷ []
insert_newer r (c ∷ cs) =
    let rest = insert_newer r cs in
    if leb c.span.start_time r.span.start_time then r ∷ c ∷ cs else c ∷ rest

unfoldable pub sort_rows : List SpanRecord → List SpanRecord
unfolding insert_row
sort_rows [] = []
sort_rows (r ∷ rs) = insert_row r (sort_rows rs)

unfoldable pub sort_newest : List SpanRecord → List SpanRecord
unfolding insert_newer
sort_newest [] = []
sort_newest (r ∷ rs) = insert_newer r (sort_newest rs)

unfoldable pub recent_spans : ℕ → ℕ → ℕ → InMemorySpanStore → List SpanRecord
unfolding sort_newest
recent_spans since until limit s = take limit (sort_newest (filter (in_range since until) s.spans))

unfoldable pub spans_in_trace : String → ℕ → ℕ → InMemorySpanStore → List SpanRecord
unfolding sort_rows
spans_in_trace trace since until s =
    sort_rows (filter (λ r. (r.span.trace_id == trace) && in_range since until r) s.spans)
