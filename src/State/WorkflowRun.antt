-- ===== src/State/WorkflowRun.antt =====
-- backend/app/runtime/state_machine/__init__.py: `WorkflowRunStatus`, its table of transitions and `transition_workflow_run`.
use relayvia.Prelude.{ℕ, List, [], ◌∷◌, Bool, ◌==◌, any}
use relayvia.Errors.{ErrorCode, Result, require}

pub data WorkflowRunStatus : Type 0 where
  created running waiting paused completed failed cancelled : WorkflowRunStatus

abbrev index : WorkflowRunStatus → ℕ
index created = 0
index running = 1
index waiting = 2
index paused = 3
index completed = 4
index failed = 5
index cancelled = 6

-- Two members of the enumeration are the same.
abbrev pub is : WorkflowRunStatus → WorkflowRunStatus → Bool
is s t = index s == index t

abbrev pub member : WorkflowRunStatus → List WorkflowRunStatus → Bool
member s = any (is s)

abbrev pub terminal : List WorkflowRunStatus
terminal = completed ∷ failed ∷ cancelled ∷ []

-- WORKFLOW_RUN_TRANSITIONS
abbrev pub transitions : WorkflowRunStatus → List WorkflowRunStatus
transitions created = running ∷ cancelled ∷ []
transitions running = waiting ∷ paused ∷ completed ∷ failed ∷ cancelled ∷ []
transitions waiting = running ∷ paused ∷ failed ∷ cancelled ∷ []
transitions paused = running ∷ cancelled ∷ []
transitions completed = []
transitions failed = []
transitions cancelled = []

unfoldable pub is_workflow_run_terminal : WorkflowRunStatus → Bool
is_workflow_run_terminal status = member status terminal

unfoldable pub transition_workflow_run : WorkflowRunStatus → WorkflowRunStatus → Result (Unit {0})
transition_workflow_run current target =
    require (member target (transitions current)) ErrorCode.invalid_workflow_run_transition
