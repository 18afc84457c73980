-- ===== src/Runs/Cancel/Moves.antt =====
-- What the writes of a cancellation leave alone.
use relayvia.Prelude.{ℕ, Bool, false, some, ◌≡◌, refl, ◌∙◌, arith, inl, inr, Bool-cases, List}
use relayvia.Errors.{ok}
use relayvia.Table.{get, put}
use relayvia.Table.Final.{Keeps, Avoids, put-Keeps, put-Avoids, same-Keeps, same-Avoids}
use relayvia.State.NodeRun.{NodeRunStatus, is_node_run_terminal, transition_node_run}
use relayvia.State.ExecutionTask.{
  ExecutionTaskStatus, is_execution_task_terminal, transition_execution_task,
}
use relayvia.Db.{ExecutionTask, NodeRun, RunEvent, Db}
use relayvia.Queue.Effects.{move_node, finish_task, move_task, node_cancelled}
use relayvia.Runs.Cancel.{live_task, live_node}

abbrev pub task_final : ExecutionTask → Bool
task_final t = is_execution_task_terminal t.status

abbrev pub node_final : NodeRun → Bool
node_final n = is_node_run_terminal n.status

-- From `a` to `b` finished rows stay as they are, and what is cancelled stays cancelled.
pub record Moves (run : ℕ) (a b : Db) : Type 0 where
  pub runs : b.runs ≡ a.runs
  pub tasks : Keeps task_final a.tasks b.tasks
  pub nodes : Keeps node_final a.node_runs b.node_runs
  pub clear_tasks : (j : ℕ) → Avoids (live_task run) j a.tasks → Avoids (live_task run) j b.tasks
  pub clear_nodes :
      (j : ℕ) → Avoids (live_node run) j a.node_runs → Avoids (live_node run) j b.node_runs

pub no_Moves : (run : ℕ) (a : Db) → Moves run a a
no_Moves run a = record {
  runs = refl;
  tasks = λ j x h f. h;
  nodes = λ j x h f. h;
  clear_tasks = λ j c. c;
  clear_nodes = λ j c. c;
}

pub Moves-Moves : (run : ℕ) (a b c : Db) → Moves run a b → Moves run b c → Moves run a c
Moves-Moves run a b c m n = record {
  runs = n.runs ∙ m.runs;
  tasks = λ j x h f. n.tasks j x (m.tasks j x h f) f;
  nodes = λ j x h f. n.nodes j x (m.nodes j x h f) f;
  clear_tasks = λ j h. n.clear_tasks j (m.clear_tasks j h);
  clear_nodes = λ j h. n.clear_nodes j (m.clear_nodes j h);
}

pub cancelled_node-live :
    (run : ℕ) (n : NodeRun) → n.status ≡ NodeRunStatus.cancelled → live_node run n ≡ false
unfolding live_node is_node_run_terminal
cancelled_node-live run n h = ground arith

pub cancelled_task-live :
    (run : ℕ) (t : ExecutionTask)
    → t.status ≡ ExecutionTaskStatus.cancelled
    → live_task run t ≡ false
unfolding live_task is_execution_task_terminal
cancelled_task-live run t h = ground arith

pub put_node-Moves :
    (run : ℕ) (a : Db) (k : ℕ) (n n' : NodeRun) (events : List RunEvent)
    → get k a.node_runs ≡ some n
    → node_final n ≡ false
    → n'.status ≡ NodeRunStatus.cancelled
    → Moves run a (record a { node_runs = put k n' a.node_runs; events = events })
put_node-Moves run a k n n' events at open_row c = record {
  runs = refl;
  tasks = λ j x h f. h;
  nodes = put-Keeps node_final k n n' a.node_runs at open_row;
  clear_tasks = λ j h. h;
  clear_nodes = λ j. put-Avoids (live_node run) k j n' a.node_runs (cancelled_node-live run n' c);
}

pub same_node-Moves :
    (run : ℕ) (a : Db) (k : ℕ) (n : NodeRun) (events : List RunEvent)
    → get k a.node_runs ≡ some n
    → Moves run a (record a { node_runs = put k n a.node_runs; events = events })
same_node-Moves run a k n events at = record {
  runs = refl;
  tasks = λ j x h f. h;
  nodes = same-Keeps node_final k n a.node_runs at;
  clear_tasks = λ j h. h;
  clear_nodes = λ j. same-Avoids (live_node run) k j n a.node_runs at;
}

pub put_task-Moves :
    (run : ℕ) (a : Db) (k : ℕ) (t t' : ExecutionTask) (events : List RunEvent)
    → get k a.tasks ≡ some t
    → task_final t ≡ false
    → t'.status ≡ ExecutionTaskStatus.cancelled
    → Moves run a (record a { tasks = put k t' a.tasks; events = events })
put_task-Moves run a k t t' events at open_row c = record {
  runs = refl;
  tasks = put-Keeps task_final k t t' a.tasks at open_row;
  nodes = λ j x h f. h;
  clear_tasks = λ j. put-Avoids (live_task run) k j t' a.tasks (cancelled_task-live run t' c);
  clear_nodes = λ j h. h;
}

pub move_node_cancelled :
    (n : NodeRun)
    → node_final n ≡ false
    → move_node NodeRunStatus.cancelled n ≡ ok (record n { status = NodeRunStatus.cancelled })
unfolding move_node transition_node_run is_node_run_terminal
move_node_cancelled n h = ground arith

pub finish_task_cancelled :
    (now : ℕ) (t : ExecutionTask)
    → task_final t ≡ false
    → finish_task ExecutionTaskStatus.cancelled now t
      ≡ ok (record t { status = ExecutionTaskStatus.cancelled; finished_at = some now })
unfolding finish_task move_task transition_execution_task is_execution_task_terminal
finish_task_cancelled now t h = ground arith

-- `_node_cancelled` on the node run of a task that is cancelled
pub node_cancelled-Moves :
    (run now : ℕ) (a : Db) (k : ℕ) (n : NodeRun) (events : List RunEvent)
    → get k a.node_runs ≡ some n
    → (n' : NodeRun) × (node_cancelled now n ≡ ok n')
      × Moves run a (record a { node_runs = put k n' a.node_runs; events = events })
unfolding node_cancelled
node_cancelled-Moves run now a k n events at = elim (Bool-cases (node_final n)) [
  | inl f ↦ (n, rw f refl, same_node-Moves run a k n events at)
  | inr o ↦ (
    record n { status = NodeRunStatus.cancelled; finished_at = some now },
    rw (o, move_node_cancelled n o) refl,
    put_node-Moves run a k n (record n { status = NodeRunStatus.cancelled; finished_at = some now })
        events at o refl,
  )
]
