-- ===== src/Scheduler/Retry.antt =====
-- `_retry_settings_for_node`, `_service_backoff_seconds` and `_bounded_int` of
-- backend/app/runtime/scheduler/workflow_scheduler.py. `int_of_text` is Python's `int` on a text: none
-- where it raises.
pub mod Bounds
use relayvia.Prelude.{
  ℕ, ◌+◌, String, Bool, true, false, not, ◌&&◌, Option, none, some, is_some, leb, if◌then◌else◌,
}
use relayvia.Json.{Json, Items, Fields, get_field, empty_object}
use relayvia.Graph.{NodeKind, WorkflowNode}

pub data Integer : Type 0 where
  plus minus : ℕ → Integer

abbrev pub is_object : Option Json → Bool
is_object (some (Json.obj fields)) = true
is_object _ = false

-- `x.get(key) if isinstance(x, dict) else None`
abbrev pub field_in : String → Option Json → Option Json
field_in key none = none
field_in key (some value) = get_field key value

-- `actions.get(action_id) if isinstance(actions, dict) and isinstance(action_id, str) else None`
abbrev pub looked_up : Option Json → Option Json → Option Json
looked_up actions (some (Json.str id)) = field_in id actions
looked_up actions _ = none

abbrev pub is_service_http : NodeKind → Bool
is_service_http NodeKind.service_http = true
is_service_http _ = false

module _ (int_of_text : String → Option Integer) where
  -- `int(value)`
  abbrev pub int_of : Option Json → Option Integer
  int_of (some (Json.bool true)) = some (Integer.plus 1)
  int_of (some (Json.bool false)) = some (Integer.plus 0)
  int_of (some (Json.nat n)) = some (Integer.plus n)
  int_of (some (Json.negative n)) = some (Integer.minus n)
  int_of (some (Json.str s)) = int_of_text s
  int_of _ = none

  -- `max(0, min(x, maximum))`
  abbrev pub clipped : Integer → ℕ → ℕ
  clipped (Integer.plus n) maximum = if leb n maximum then n else maximum
  clipped (Integer.minus n) maximum = 0

  abbrev pub clipped_or : Option Integer → ℕ → ℕ → ℕ
  clipped_or none default maximum = default
  clipped_or (some n) default maximum = clipped n maximum

  unfoldable pub bounded_int : Option Json → ℕ → ℕ → ℕ
  bounded_int value default maximum = clipped_or (int_of value) default maximum

  -- the retry policy of the action that a service node calls
  abbrev pub action_policy : Json → WorkflowNode → Option Json
  action_policy execution_snapshot n = field_in "retry_policy" (
      looked_up (get_field "service_actions" execution_snapshot)
        (get_field "service_action_id" n.config))

  unfoldable pub service_backoff_seconds : Json → WorkflowNode → ℕ → ℕ
  unfolding bounded_int
  service_backoff_seconds execution_snapshot n default =
      if not (is_service_http n.kind)
      then default
      else bounded_int (field_in "backoff_seconds" (action_policy execution_snapshot n)) default
          86400

  -- the attempts and the seconds between them
  unfoldable pub retry_settings_for_node : Json → WorkflowNode → ℕ → ℕ × ℕ
  unfolding bounded_int service_backoff_seconds
  retry_settings_for_node execution_snapshot n default_backoff_seconds =
      let max_retries = field_in "max_retries" (get_field "retry" n.config) in
      let policy = action_policy execution_snapshot n in
      if is_some max_retries
      then (
        bounded_int max_retries 0 10 + 1,
        service_backoff_seconds execution_snapshot n default_backoff_seconds,
      )
      else if is_service_http n.kind && is_object policy
      then (
        bounded_int (field_in "max_retries" policy) 0 10 + 1,
        bounded_int (field_in "backoff_seconds" policy) 5 86400,
      )
      else (1, 0)
