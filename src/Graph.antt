-- ===== src/Graph.antt =====
-- backend/app/domain/workflows/graph.py: a parsed Workflow Graph 1.0. Identifiers are opaque and
-- compared for equality only, so they are numbers here.
pub mod Index
pub mod Reach
pub mod Search
pub mod Cycle
use relayvia.Prelude.{ℕ, String, Bool, true, false, Option, List}
use relayvia.Json.{Json}

-- The pairs of `NodeType` and subtype that the validator of `WorkflowNode` admits.
pub data NodeKind : Type 0 where
  agent service_http tool_shell tool_git tool_test_command : NodeKind
  logic_condition logic_parallel logic_merge logic_router logic_wait : NodeKind
  human_approval human_input data_input data_transform data_output : NodeKind

pub record WorkflowNode : Type 0 where
  pub id : ℕ
  pub kind : NodeKind
  pub config : Json
  pub input_mapping : Json

pub record WorkflowEdge : Type 0 where
  pub id : ℕ
  pub source : ℕ
  pub target : ℕ
  pub source_handle : Option String

pub record WorkflowGraph : Type 0 where
  pub nodes : List WorkflowNode
  pub edges : List WorkflowEdge

abbrev pub is_condition : NodeKind → Bool
is_condition NodeKind.logic_condition = true
is_condition _ = false

abbrev pub is_tool : NodeKind → Bool
is_tool NodeKind.tool_shell = true
is_tool NodeKind.tool_git = true
is_tool NodeKind.tool_test_command = true
is_tool _ = false

abbrev pub is_data_input : NodeKind → Bool
is_data_input NodeKind.data_input = true
is_data_input _ = false

abbrev pub is_data_output : NodeKind → Bool
is_data_output NodeKind.data_output = true
is_data_output _ = false

abbrev pub is_parallel : NodeKind → Bool
is_parallel NodeKind.logic_parallel = true
is_parallel _ = false

abbrev pub is_merge : NodeKind → Bool
is_merge NodeKind.logic_merge = true
is_merge _ = false

abbrev pub is_agent : NodeKind → Bool
is_agent NodeKind.agent = true
is_agent _ = false
