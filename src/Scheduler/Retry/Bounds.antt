-- ===== src/Scheduler/Retry/Bounds.antt =====
-- The bounds of the retry settings.
use relayvia.Prelude.{
  ℕ, ◌≤◌, String, ◌&&◌, Option, is_some, arith, inl, inr, Bool-cases, Option-cases,
}
use relayvia.Json.{Json, get_field}
use relayvia.Graph.{WorkflowNode}
use relayvia.Scheduler.Retry.{
  Integer, field_in, is_object, is_service_http, int_of, clipped, bounded_int, action_policy,
  service_backoff_seconds, retry_settings_for_node,
}

module _ (int_of_text : String → Option Integer) where
  clipped_le : (n : Integer) (maximum : ℕ) → clipped int_of_text n maximum ≤ maximum
  clipped_le (Integer.plus n) maximum = ground arith
  clipped_le (Integer.minus n) maximum = ground arith

  bounded_int_le :
      (value : Option Json) (default maximum : ℕ)
      → default ≤ maximum
      → bounded_int int_of_text value default maximum ≤ maximum
  unfolding bounded_int
  bounded_int_le value default maximum h = elim (Option-cases (int_of int_of_text value)) [
    | inl e ↦ rw e h
    | inr (n, e) ↦ rw e (clipped_le n maximum)
  ]

  service_backoff_seconds_le :
      (snapshot : Json) (n : WorkflowNode) (default : ℕ)
      → default ≤ 86400
      → service_backoff_seconds int_of_text snapshot n default ≤ 86400
  unfolding service_backoff_seconds
  service_backoff_seconds_le snapshot n default h = elim (Bool-cases (is_service_http n.kind)) [
    | inl e ↦ rw e (
        bounded_int_le (field_in "backoff_seconds" (action_policy int_of_text snapshot n)) default
          86400 h)
    | inr e ↦ rw e h
  ]

  -- The first part of the settings is a limit of one to eleven attempts, and the second a backoff of at
  -- most a day, where the default backoff is at most a day.
  pub retry_settings_bounded :
      (snapshot : Json) (n : WorkflowNode) (default : ℕ)
      → default ≤ 86400
      → (1 ≤ (retry_settings_for_node int_of_text snapshot n default).0)
        × ((retry_settings_for_node int_of_text snapshot n default).0 ≤ 11)
        × ((retry_settings_for_node int_of_text snapshot n default).1 ≤ 86400)
  unfolding retry_settings_for_node
  retry_settings_bounded snapshot n default h =
      let limit = field_in "max_retries" (get_field "retry" n.config) in
      let policy = action_policy int_of_text snapshot n in
      let explicit = bounded_int_le limit 0 10 (ground arith) in
      let backoff = service_backoff_seconds_le snapshot n default h in
      let inherited = bounded_int_le (field_in "max_retries" policy) 0 10 (ground arith) in
      let pause = bounded_int_le (field_in "backoff_seconds" policy) 5 86400 (ground arith) in
      elim (Bool-cases (is_some limit)) [
        | inl e ↦ rw e (ground arith, ground arith, backoff)
        | inr e ↦ elim (Bool-cases (is_service_http n.kind && is_object policy)) [
          | inl s ↦ rw (e, s) (ground arith, ground arith, pause)
          | inr s ↦ rw (e, s) (ground arith, ground arith, ground arith)
        ]
      ]
