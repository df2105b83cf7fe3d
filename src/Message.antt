-- ===== src/Message.antt =====
-- civitas/messages.py: the envelope, its payload and the reserved message types.
-- Times are whole ticks; a priority is a number that is not negative, of which the code only asks
-- whether it is above 0. The checks that json.dumps makes on a payload hold by the type `Value`.
use python_civitas.Base.{
  ℕ, String, Bool, true, false, not, Option, none, List, [], ◌∷◌, ◌==◌, string_eq, nat_eq,
}
use python_civitas.Base.Dict.{Dict}

-- What json.dumps accepts. The modelled code computes with no number of a payload but its truth.
mutual
  pub data Value : Type 0 where
    null : Value
    bool : Bool → Value
    num : ℕ → Value
    str : String → Value
    arr : Items → Value
    obj : Fields → Value

  pub data Items : Type 0 where
    nil : Items
    cons : Value → Items → Items

  pub data Fields : Type 0 where
    done : Fields
    field : String → Value → Fields → Fields

-- bool(value)
unfoldable pub truthy : Value → Bool
truthy null = false
truthy (bool b) = b
truthy (num n) = not (n == 0)
truthy (str s) = not (s == "")
truthy (arr nil) = false
truthy (arr (cons v vs)) = true
truthy (obj done) = false
truthy (obj (field k v fs)) = true

abbrev pub Payload : Type 0
Payload = Dict String Value

pub record Message : Type 0 where
  pub id : String
  pub type : String
  pub sender : String
  pub recipient : String
  pub correlation_id : Option String
  pub reply_to : Option String
  pub payload : Payload
  pub timestamp : ℕ
  pub trace_id : String
  pub span_id : String
  pub parent_span_id : Option String
  pub attempt : ℕ
  pub priority : ℕ
  pub ttl : Option ℕ
  pub seq : Option ℕ

-- Message() with every default, its random and clock-drawn fields given.
abbrev pub blank : String → ℕ → Message
blank id now = record {
  id = id;
  type = "message";
  sender = "";
  recipient = "";
  correlation_id = none;
  reply_to = none;
  payload = [];
  timestamp = now;
  trace_id = "";
  span_id = "";
  parent_span_id = none;
  attempt = 0;
  priority = 0;
  ttl = none;
  seq = none;
}

abbrev pub system_message_types : List String
system_message_types =
    "_agency.heartbeat" ∷ "_agency.heartbeat_ack" ∷ "_agency.health_probe" ∷ "_agency.health_ack"
    ∷ "_agency.shutdown" ∷ "_agency.restart" ∷ "_agency.register" ∷ "_agency.deregister"
    ∷ "_agency.suspend" ∷ "_agency.resume" ∷ "_agency.force_restart" ∷ "_agency.child_crashed" ∷ []
