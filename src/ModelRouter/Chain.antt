-- ===== src/ModelRouter/Chain.antt =====
-- `resolve`, `_build_failover_chain` and `execute_with_fallback` of app/services/model_router.py.
use ethiogram.Base.{
  ℕ, ◌+◌, String, Bool, true, false, not, ◌&&◌, Option, none, some, List, [], ◌∷◌, lookup, eq_nat,
  eq_string, ◌==◌, add_new, if◌then◌else◌,
}
use ethiogram.Models.{Settings, Error}
use ethiogram.Request.{Result, ok, err}
use ethiogram.ModelRouter.Keys.{Registry, is_available, record_failure, record_success}

-- Truth of an optional text: neither absent nor empty.
abbrev pub truthy : Option String → Option String
truthy none = none
truthy (some s) = if s == "" then none else some s

-- `if m and await self._is_available(m, redis): return m`
abbrev pub if_available : Registry → Option String → String → String
if_available r m rest = elim (truthy m) [
  | none ↦ rest
  | some model_id ↦ if is_available model_id r then model_id else rest
]

-- The models that a request names: the agent's and the business's preferred one.
pub record Preferences : Type 0 where
  pub business_id : Option ℕ
  pub agent_model_id : Option String
  pub business_preferred_model_id : Option String

abbrev pub override_of : Option ℕ → Registry → Option String
override_of none r = none
override_of (some business_id) r = lookup business_id r.business_override

unfoldable pub resolve : Settings → Preferences → Registry → String
resolve s p r = if_available r r.global_override (
    if_available r (override_of p.business_id r) (
      if_available r p.agent_model_id (
        if_available r p.business_preferred_model_id (
          if_available r (some s.default_model_id) (
            if is_available s.fallback_model_id r
            then s.fallback_model_id
            else s.emergency_model_id)))))

-- `(language or "").lower() in ("am", "amh", "amharic")`, as the caller's `language` answers it.
abbrev pub amharic_first : Settings → Bool → Registry → List String → List String
amharic_first s false r chain = chain
amharic_first s true r chain =
    let primary = s.amharic_primary_model_id in
    let secondary = s.amharic_secondary_model_id in
    let chain₁ =
      if not (primary == "") && is_available primary r then add_new primary chain else chain in
    if not (secondary == "") && is_available secondary r then add_new secondary chain₁ else chain₁

abbrev pub add_all : List String → List String → List String
add_all [] chain = chain
add_all (m ∷ ms) chain = add_all ms (add_new m chain)

-- A stored chain is a non-empty text, also for the empty list.
abbrev pub custom_chain : Settings → Registry → List String
custom_chain s r = elim r.failover_chain [
  | some chain ↦ chain
  | none ↦ s.default_model_id ∷ s.fallback_model_id ∷ s.emergency_model_id ∷ []
]

unfoldable pub build_failover_chain : Settings → Preferences → Bool → Registry → List String
unfolding resolve
build_failover_chain s p amharic r =
    add_new s.emergency_model_id
      (add_all (custom_chain s r) (add_new (resolve s p r) (amharic_first s amharic r [])))

-- The call of a provider's SDK: an answer, or an exception. `attempt` counts the calls of a request.
module _ {Answer : Type 0} (call_provider : (attempt : ℕ) (model_id : String) → Option Answer) where
  unfoldable pub try_chain : ℕ → List String → Registry → Result (Answer × String) × Registry
  try_chain attempt [] r = (err Error.all_models_failed, r)
  try_chain attempt (m ∷ ms) r =
      let rest = try_chain (attempt + 1) ms (record_failure m r) in
      elim (call_provider attempt m) [
        | some answer ↦ (ok (answer, m), record_success m r)
        | none ↦ rest
      ]

  unfoldable pub execute_with_fallback :
      Settings → Preferences → Bool → Registry → Result (Answer × String) × Registry
  unfolding try_chain build_failover_chain
  execute_with_fallback s p amharic r = try_chain 0 (build_failover_chain s p amharic r) r
