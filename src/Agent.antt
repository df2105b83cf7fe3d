-- ===== src/Agent.antt =====
-- The agent of civitas/process.py: its state, its status and the user's hooks.
-- `self.state` is a payload. The store is what the state store holds for this agent, where there is
-- a store. What a method does to the world outside (status changes, calls of hooks, audit events,
-- messages routed) is appended to a log, the newest entry first.
pub mod Suspension
pub mod Dispatch
pub mod Loop
pub mod Flags
pub mod Retries
pub mod Pauses
pub mod Durability
use python_civitas.Base.{
  ℕ, Bool, true, false, Option, none, some, List, ◌∷◌, String, ◌==◌, string_eq,
}
use python_civitas.Message.{Value, Payload, Message}
use python_civitas.Mailbox.{Mailbox}
use python_civitas.Registry.{LocalRegistry, set_suspended}

pub data ProcessStatus : Type 0 where
  initializing running suspended stopping stopped crashed : ProcessStatus

abbrev pub is_suspended_status : ProcessStatus → Bool
is_suspended_status suspended = true
is_suspended_status _ = false

abbrev pub is_running : ProcessStatus → Bool
is_running running = true
is_running _ = false

abbrev pub is_crashed : ProcessStatus → Bool
is_crashed crashed = true
is_crashed _ = false

pub data SuspendCategory : Type 0 where
  hitl_approval governance_pause other : SuspendCategory

pub data ErrorAction : Type 0 where
  retry skip escalate stop : ErrorAction

-- An exception: one of the user's code by its text, or _ForcedRestart with its initiator and reason.
pub data Error : Type 0 where
  raised_by_user : String → Error
  forced_restart : Value → Value → Error

-- What one call of the user's code does: the state it leaves, a call of `suspend` it makes, a status
-- that another task sets meanwhile, and its result or exception.
pub data CallResult : Type 0 where
  returns : Option Message → CallResult
  raises : String → CallResult

pub record Call : Type 0 where
  pub state : Payload
  pub self_suspend : Option (Value × SuspendCategory)
  pub outside_status : Option ProcessStatus
  pub result : CallResult

-- The methods that a subclass overrides, what the state store accepts, and the
-- exception with which the bus refuses a message. `on_error` gives no action when it raises. Each call is
-- one that comes to an end: a method that never returns has no Hooks.
pub record Hooks : Type 0 where
  pub handle : Message → Payload → Call
  pub on_correction : Message → Payload → Call
  pub on_child_terminated : Value → Value → Payload → Call
  pub on_error : String → Message → Payload → Option ErrorAction
  -- the number of attempts that handle and on_error leave in the message
  pub attempt_left : Message → Payload → ℕ
  pub on_suspend : Value → Payload → Payload
  pub on_resume : Value → Payload → Payload
  pub suspend_allowed : Bool
  pub accepts : Payload → Bool
  pub unroutable : Message → Option String

pub data Record : Type 0 where
  status_set : ProcessStatus → Record
  called_handle called_correction : Message → Record
  called_suspend called_resume : Value → Record
  called_child_terminated : Value → Value → Record
  called_stop : Record
  routed : Message → Record
  audited_suspend : Value → SuspendCategory → Value → Record
  audited_resume : Value → Record
  audited_force_restart : Value → Value → Record

-- The fields that the loop and the suspension read; those of spans, metrics, plugins and streams are
-- left out.
pub record Agent : Type 0 where
  pub name : String
  pub status : ProcessStatus
  pub state : Payload
  pub store : Option (Option Payload)
  pub mailbox : Mailbox
  pub suspend_requested : Bool
  pub suspend_reason : Value
  pub suspend_category : SuspendCategory
  pub suspend_initiated_by : Value
  pub registry : Option LocalRegistry
  pub has_bus : Bool
  pub max_retries : ℕ
  pub reached_loop : Bool
  pub log : List Record

-- What _set_status does to the registry, where there is one.
abbrev pub flagged : String → ProcessStatus → Option LocalRegistry → Option LocalRegistry
flagged name new none = none
flagged name new (some r) = some (set_suspended name (is_suspended_status new) r)

unfoldable pub set_status : ProcessStatus → Agent → Agent
set_status new a = record a {
  status = new;
  registry = flagged a.name new a.registry;
  log = status_set new ∷ a.log;
}
