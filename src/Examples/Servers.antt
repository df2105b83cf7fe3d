-- ===== src/Examples/Servers.antt =====
-- A GenServer of civitas/genserver.py that keeps what it was last told and answers with it.
use python_civitas.Base.{◌≡◌, refl, string_eq, true, none, some, [], ◌∷◌, if◌then◌else◌}
use python_civitas.Base.Dict.{lookup, erase}
use python_civitas.Message.{str, Payload}
use python_civitas.GenServer.{
  Handlers, dict, GenServer, Fresh, is_true, handle, cast, ask, info_message,
}
use python_civitas.GenServer.Dispatch.{
  payload_of, answer_of, addressed, delivered, sent_reaches_handler,
}

abbrev keeper : Handlers
keeper = record {
  handle_call = λ payload from state. (dict state, state);
  handle_cast = λ payload state. (none, payload);
  handle_info = λ payload state. (some "ValueError", state);
}

abbrev server : GenServer
server = record {
  name = "keeper";
  state = [];
  has_tracer = true;
  current_handle_span = none;
  spans = [];
  timers = [];
}

abbrev first_ids : Fresh
first_ids = record { message_id = "m1"; correlation_id = "c1"; span_id = "s1"; now = 1 }

abbrev next_ids : Fresh
next_ids = record { message_id = "m2"; correlation_id = "c2"; span_id = "s2"; now = 2 }

abbrev told : Payload
told = ("text", str "hello") ∷ []

sent_reaches_handler_example :
    ((handle keeper next_ids (cast first_ids none "a" "keeper" told) server).1.state
      ≡ (keeper.handle_cast (erase "__cast__" told) server.state).1)
    × ((handle keeper next_ids (info_message first_ids "keeper" told) server).1.state ≡ (
        if is_true (lookup "__cast__" told)
        then (keeper.handle_cast (erase "__cast__" told) server.state).1
        else (keeper.handle_info told server.state).1))
    × ((handle keeper next_ids
          (delivered "_reply.a" (ask first_ids none "a" "keeper" told))
          server).1.state
        ≡ (keeper.handle_call told "a" server.state).1)
    × (answer_of
          (handle keeper next_ids
            (delivered "_reply.a" (ask first_ids none "a" "keeper" told))
            server).0
        ≡ addressed
            (some first_ids.correlation_id)
            "_reply.a"
            (payload_of (keeper.handle_call told "a" server.state).0))
sent_reaches_handler_example =
    sent_reaches_handler keeper first_ids next_ids none "a" "keeper" "_reply.a" told server refl
