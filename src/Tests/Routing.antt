-- ===== src/Tests/Routing.antt =====
-- app/services/model_router.py with its default settings.
use ethiogram.Base.{
  eq_string, ℕ, ◌≡◌, String, refl, true, false, not, Option, none, some, contains, nat_eq,
  if◌then◌else◌,
}
use ethiogram.Models.{default_settings}
use ethiogram.ModelRouter.{
  Registry, empty_registry, Preferences, build_failover_chain, custom_chain, execute_with_fallback,
  disable_model, record_failure, is_available, is_disabled,
}
use ethiogram.ModelRouter.Availability.{IsConsistent, Step, Reach, is_available-eq_enabled}
use ethiogram.ModelRouter.Failover.{first_answer, reply, execute_with_fallback-eq_first_answer}

abbrev asks : Preferences
asks = record { business_id = some 10; agent_model_id = none; business_preferred_model_id = none }

-- The second call answers.
abbrev flaky : ℕ → String → Option ℕ
flaky attempt model_id = if nat_eq attempt 1 then some 200 else none

abbrev without_default : Registry
without_default = disable_model "gemini-2.0-flash-001" empty_registry

default_listed :
    contains "gemini-2.0-flash-001" (custom_chain default_settings without_default) ≡ true
unfolding disable_model
default_listed = refl

execute_with_fallback_example :
    (execute_with_fallback flaky default_settings asks false empty_registry).0
    ≡ reply flaky
        (first_answer flaky 0 (build_failover_chain default_settings asks false empty_registry))
execute_with_fallback_example =
    execute_with_fallback-eq_first_answer flaky default_settings asks false empty_registry

empty-IsConsistent : IsConsistent empty_registry
empty-IsConsistent m e = absurd (cc)

abbrev failed_often : Registry
failed_often = record_failure "m" (record_failure "m" (record_failure "m" empty_registry))

failures : Reach empty_registry failed_often
failures =
    Reach.next (Reach.next (Reach.next Reach.here (Step.failure_step "m")) (Step.failure_step "m"))
      (Step.failure_step "m")

is_available-eq_enabled_example : is_available "m" failed_often ≡ not (is_disabled "m" failed_often)
is_available-eq_enabled_example =
    is_available-eq_enabled empty_registry failed_often "m" empty-IsConsistent failures
