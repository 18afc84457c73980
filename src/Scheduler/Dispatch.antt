-- ===== src/Scheduler/Dispatch.antt =====
-- Where a node executes: `_resolve_tool_config`, `_coding_agent_payload`, `_resolve_agent_task` and
-- `_attach_workspace` of backend/app/runtime/scheduler/workflow_scheduler.py, with `create_workspace` of
-- backend/app/domain/workspaces/service.py. The command, the working directory and the timeout of a
-- payload, which only the Runner reads, are left out.
use relayvia.Prelude.{
  ℕ, String, Bool, true, false, not, ◌&&◌, ◌||◌, Option, none, some, ◌==◌, if◌then◌else◌,
}
use relayvia.Errors.{ErrorCode, ok, err}
use relayvia.Table.{Table, put, keys_where, no_keys}
use relayvia.Json.{Json, Items, Fields, get_field}
use relayvia.Graph.{WorkflowNode, is_tool, is_agent}
use relayvia.Db.{WorkflowRun, NodeRun, Workspace, WorkspaceStatus, Tx, pure, Db}
use relayvia.Scheduler.Retry.{Integer, field_in, looked_up, is_object}
use text.Mathlib.Text.{◌==◌ as str_eq}

-- What `datetime.fromisoformat` returns: a time with a time zone, or one without.
pub data Moment : Type 0 where
  aware : ℕ → Moment
  naive : Moment

-- What the scheduler calls: `resolve` is `ContextResolver.resolve` for a run with the outputs of its
-- node runs, none where it raises `UnresolvedContextReference`; `sanitize_output` is that of
-- runtime/executor/trace.py; the others are Python's: `int`, `not text.strip()`, `str` and
-- `datetime.fromisoformat` (none where they raise). `id_of` reads an identifier that stands in a JSON
-- value, and the two defaults are those of the scheduler's constructor.
pub record Collaborators : Type 0 where
  pub resolve : WorkflowRun → Table NodeRun → Json → Option Json
  pub sanitize_output : Json → Json
  pub int_of_text : String → Option Integer
  pub is_blank : String → Bool
  pub str_of : Json → String
  pub fromisoformat : String → Option Moment
  pub id_of : String → ℕ
  pub default_priority : ℕ
  pub default_backoff_seconds : ℕ

pub data Executor : Type 0 where
  -- an input is not available yet
  later : Executor
  worker : Executor
  runner : String → Option ℕ → Executor

module _ (c : Collaborators) where
  -- `value.get(key) if isinstance(value.get(key), str) else None`
  abbrev pub id_in : Option Json → Option ℕ
  id_in (some (Json.str s)) = some (c.id_of s)
  id_in _ = none

  abbrev pub has_text : Option Json → Bool
  has_text (some (Json.str s)) = not (c.is_blank s)
  has_text _ = false

  abbrev tool_on : Option Json → Executor
  tool_on none = later
  tool_on (some config) =
      if has_text (get_field "command" config)
      then runner "shell" (id_in (get_field "runner_id" config))
      else later

  abbrev codex_on : Option Json → Option Json → Executor
  codex_on agent none = worker
  codex_on agent (some config) =
      if has_text (get_field "task_template" config)
      then runner "codex" (id_in (field_in "runner_id" agent))
      else worker

  abbrev pub is_codex : Option Json → Bool
  is_codex (some (Json.str s)) = str_eq s "codex"
  is_codex _ = false

  unfoldable pub coding_agent : WorkflowRun → Table NodeRun → WorkflowNode → Executor
  coding_agent run rows n =
      let agent =
        looked_up (get_field "agents" run.execution_snapshot) (get_field "agent_id" n.config) in
      if is_object agent && is_codex (field_in "connector_type" agent)
      then codex_on agent (c.resolve run rows n.config)
      else worker

  unfoldable pub executor_for : WorkflowRun → Table NodeRun → WorkflowNode → Executor
  unfolding coding_agent
  executor_for run rows n =
      if is_tool n.kind
      then tool_on (c.resolve run rows n.config)
      else if is_agent n.kind
      then coding_agent run rows n
      else worker

-- `bool(value)`
abbrev pub truthy : Json → Bool
truthy Json.null = false
truthy (Json.bool b) = b
truthy (Json.nat k) = not (k == 0)
truthy (Json.negative k) = not (k == 0)
truthy (Json.str s) = not (str_eq s "")
truthy (Json.arr Items.nil) = false
truthy (Json.obj Fields.end) = false
truthy _ = true

-- `x or none`
abbrev pub if_truthy : Option Json → Option Json
if_truthy none = none
if_truthy (some value) = if truthy value then some value else none

-- The constraints of the table `workspaces`: a new key, one workspace to a node run, a type of the two.
unfoldable pub may_create : ℕ → Workspace → Db → Bool
may_create key w db =
    no_keys (keys_where (λ (v : Workspace). v.node_run_id == w.node_run_id) db.workspaces)
    && (str_eq w.workspace_type "local" || str_eq w.workspace_type "worktree")

unfoldable pub create_workspace : ℕ → Workspace → Tx (Option ℕ)
unfolding may_create
create_workspace key w db =
    if may_create key w db
    then ok (some key, record db { workspaces = put key w db.workspaces })
    else err ErrorCode.integrity_error

abbrev strategy_of : (Json → String) → Option Json → String
strategy_of str_of none = "worktree"
strategy_of str_of (some s) = str_of s

abbrev pub new_workspace : (Json → String) → ℕ → ℕ → Option ℕ → Option Json → Json → Workspace
new_workspace str_of run_id node_run runner_id config repository = record {
  workflow_run_id = run_id;
  node_run_id = node_run;
  runner_id = runner_id;
  repository = str_of repository;
  path = none;
  base_branch = field_in "base_branch" config;
  workspace_type = strategy_of str_of (if_truthy (field_in "strategy" config));
  status = WorkspaceStatus.creating;
}

abbrev attach : (Json → String) → ℕ → ℕ → ℕ → Option ℕ → Option Json → Option Json → Tx (Option ℕ)
attach str_of key run_id node_run runner_id config none = pure none
attach str_of key run_id node_run runner_id config (some repository) =
    create_workspace key (new_workspace str_of run_id node_run runner_id config repository)

-- `key` is that of the new row; the answer is what the payload names.
unfoldable pub attach_workspace :
    Collaborators → ℕ → ℕ → ℕ → Option ℕ → WorkflowNode → Tx (Option ℕ)
unfolding create_workspace
attach_workspace c key run_id node_run runner_id n =
    let config = get_field "workspace" n.config in
    attach c.str_of key run_id node_run runner_id config (if_truthy (field_in "repository" config))
