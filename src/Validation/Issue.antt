-- ===== src/Validation/Issue.antt =====
-- `ValidationIssue` and `ValidationResult` of backend/app/runtime/validation/result.py, with the codes of
-- codes.py that the modelled rules use. Messages, fields and details are left out.
use relayvia.Prelude.{ℕ, Bool, true, false, not, Option, List, [], ◌∷◌, any, filter}

pub data ValidationCode : Type 0 where
  graph_empty duplicate_node_id duplicate_edge_id invalid_edge_source : ValidationCode
  invalid_edge_target self_connection duplicate_connection : ValidationCode
  missing_input_node multiple_input_nodes missing_output_node : ValidationCode
  invalid_input_node_edge invalid_output_node_edge unsupported_cycle : ValidationCode
  unreachable_node dead_end_branch invalid_parallel invalid_merge : ValidationCode
  invalid_parallel_merge_structure : ValidationCode

pub data Severity : Type 0 where
  error warning : Severity

pub record ValidationIssue : Type 0 where
  pub code : ValidationCode
  pub severity : Severity
  pub node_id : Option ℕ
  pub edge_id : Option ℕ

abbrev pub issue : ValidationCode → Option ℕ → Option ℕ → ValidationIssue
issue code node_id edge_id = record {
  code = code;
  severity = Severity.error;
  node_id = node_id;
  edge_id = edge_id;
}

-- `if test: issues.append(...)`
abbrev pub when : Bool → ValidationIssue → List ValidationIssue
when true i = i ∷ []
when false i = []

abbrev pub is_error : ValidationIssue → Bool
is_error i = elim i.severity [ Severity.error ↦ true | Severity.warning ↦ false ]

pub record ValidationResult : Type 0 where
  pub valid : Bool
  pub errors : List ValidationIssue
  pub warnings : List ValidationIssue

unfoldable pub from_issues : List ValidationIssue → ValidationResult
from_issues issues = record {
  valid = not (any is_error issues);
  errors = filter is_error issues;
  warnings = filter (λ i. not (is_error i)) issues;
}
