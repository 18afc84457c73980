-- ===== src/State/NodeRun.antt =====
-- backend/app/runtime/state_machine/__init__.py: `NodeRunStatus`, its table of transitions and `transition_node_run`.
use relayvia.Prelude.{ℕ, List, [], ◌∷◌, Bool, ◌==◌, any}
use relayvia.Errors.{ErrorCode, Result, require}

pub data NodeRunStatus : Type 0 where
  pending queued running waiting retrying completed failed skipped cancelled : NodeRunStatus

abbrev index : NodeRunStatus → ℕ
index pending = 0
index queued = 1
index running = 2
index waiting = 3
index retrying = 4
index completed = 5
index failed = 6
index skipped = 7
index cancelled = 8

-- Two members of the enumeration are the same.
abbrev pub is : NodeRunStatus → NodeRunStatus → Bool
is s t = index s == index t

abbrev pub member : NodeRunStatus → List NodeRunStatus → Bool
member s = any (is s)

abbrev pub terminal : List NodeRunStatus
terminal = completed ∷ failed ∷ skipped ∷ cancelled ∷ []

-- NODE_RUN_TRANSITIONS
abbrev pub transitions : NodeRunStatus → List NodeRunStatus
transitions pending = queued ∷ skipped ∷ cancelled ∷ []
transitions queued = running ∷ cancelled ∷ []
transitions running = completed ∷ failed ∷ waiting ∷ retrying ∷ cancelled ∷ []
transitions waiting = running ∷ completed ∷ failed ∷ cancelled ∷ []
transitions retrying = queued ∷ failed ∷ cancelled ∷ []
transitions completed = []
transitions failed = []
transitions skipped = []
transitions cancelled = []

unfoldable pub is_node_run_terminal : NodeRunStatus → Bool
is_node_run_terminal status = member status terminal

unfoldable pub transition_node_run : NodeRunStatus → NodeRunStatus → Result (Unit {0})
transition_node_run current target =
    require (member target (transitions current)) ErrorCode.invalid_node_run_transition
