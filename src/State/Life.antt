-- ===== src/State/Life.antt =====
-- Sequences of transitions of a node run.
use relayvia.Prelude.{◌≡◌, refl, Bool, true, false, List, [], ◌∷◌, arith, inl, inr, Bool-cases}
use relayvia.Errors.{Result, ok, and_then}
use relayvia.State.NodeRun.{NodeRunStatus, member, is, transition_node_run}

-- The transitions to the statuses of `path`, one after another.
unfoldable pub walk : NodeRunStatus → List NodeRunStatus → Result NodeRunStatus
walk s [] = ok s
walk s (t ∷ path) = and_then (transition_node_run s t) (λ _. walk t path)

-- What can be reached without an execution.
abbrev unexecuted : NodeRunStatus → Bool
unexecuted NodeRunStatus.pending = true
unexecuted NodeRunStatus.queued = true
unexecuted NodeRunStatus.skipped = true
unexecuted NodeRunStatus.cancelled = true
unexecuted _ = false

transition-unexecuted :
    (s t : NodeRunStatus)
    → unexecuted s ≡ true
    → transition_node_run s t ≡ ok tt
    → is NodeRunStatus.running t ≡ false
    → unexecuted t ≡ true
unfolding transition_node_run
transition-unexecuted s t u h r = ground arith

walk-unexecuted :
    (path : List NodeRunStatus) (s t : NodeRunStatus)
    → unexecuted s ≡ true
    → walk s path ≡ ok t
    → member NodeRunStatus.running path ≡ false
    → unexecuted t ≡ true
unfolding walk
walk-unexecuted [] s t u h r = ground arith
walk-unexecuted (x ∷ path) s t u h r =
    ground (arith, transition-unexecuted s x, walk-unexecuted path x t)

-- A node run that starts pending and is at some time completed, failed, waiting or retrying has been
-- running before.
pub results_need_running :
    (path : List NodeRunStatus) (t : NodeRunStatus)
    → walk NodeRunStatus.pending path ≡ ok t
    → member t (
        NodeRunStatus.completed ∷ NodeRunStatus.failed ∷ NodeRunStatus.waiting
        ∷ NodeRunStatus.retrying ∷ [])
      ≡ true
    → member NodeRunStatus.running path ≡ true
results_need_running path t h m = elim (Bool-cases (member NodeRunStatus.running path)) [
  | inl e ↦ e
  | inr e ↦ ground (arith, walk-unexecuted path NodeRunStatus.pending t refl h e)
]
