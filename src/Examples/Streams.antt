-- ===== src/Examples/Streams.antt =====
-- Streams of civitas/streaming.py at concrete frames.
use python_civitas.Base.{some, List, [], ◌∷◌, String}
use python_civitas.Streaming.Sequence.{Frame}
use python_civitas.Streaming.Trace.{Event, arrives, ends, reads, trace, arrived}
use python_civitas.Streaming.Delivery.{IsFaithful, trace-IsFaithful}

abbrev frames : List (Frame String)
frames = (0, "a") ∷ (1, "b") ∷ []

abbrev history : List (Event String)
history = ends (some 2) ∷ arrives 1 "b" ∷ reads ∷ arrives 0 "a" ∷ []

trace-IsFaithful_example : IsFaithful (arrived history) (trace 1 history)
trace-IsFaithful_example = trace-IsFaithful 1 history
