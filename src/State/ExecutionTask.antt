-- ===== src/State/ExecutionTask.antt =====
-- backend/app/domain/execution/state_machine.py: `ExecutionTaskStatus`, its table of transitions and `transition_execution_task`.
use relayvia.Prelude.{ℕ, List, [], ◌∷◌, Bool, ◌==◌, any}
use relayvia.Errors.{ErrorCode, Result, require}

pub data ExecutionTaskStatus : Type 0 where
  pending claimed running retry_wait completed failed cancelled : ExecutionTaskStatus

abbrev index : ExecutionTaskStatus → ℕ
index pending = 0
index claimed = 1
index running = 2
index retry_wait = 3
index completed = 4
index failed = 5
index cancelled = 6

-- Two members of the enumeration are the same.
abbrev pub is : ExecutionTaskStatus → ExecutionTaskStatus → Bool
is s t = index s == index t

abbrev pub member : ExecutionTaskStatus → List ExecutionTaskStatus → Bool
member s = any (is s)

abbrev pub terminal : List ExecutionTaskStatus
terminal = completed ∷ failed ∷ cancelled ∷ []

-- EXECUTION_TASK_TRANSITIONS
abbrev pub transitions : ExecutionTaskStatus → List ExecutionTaskStatus
transitions pending = claimed ∷ cancelled ∷ []
transitions claimed = running ∷ pending ∷ cancelled ∷ []
transitions running = completed ∷ retry_wait ∷ failed ∷ cancelled ∷ pending ∷ []
transitions retry_wait = pending ∷ failed ∷ cancelled ∷ []
transitions completed = []
transitions failed = []
transitions cancelled = []

unfoldable pub is_execution_task_terminal : ExecutionTaskStatus → Bool
is_execution_task_terminal status = member status terminal

unfoldable pub transition_execution_task :
    ExecutionTaskStatus → ExecutionTaskStatus → Result (Unit {0})
transition_execution_task current target =
    require (member target (transitions current)) ErrorCode.invalid_execution_task_transition
