-- ===== src/ModelRouter/Availability.antt =====
-- Which calls change whether a model is available: app/services/model_router.py over any sequence of
-- admin commands, calls and expiries.
use ethiogram.Base.{
  ℕ, String, ◌≡◌, ◌⊎◌, true, not, some, List, inl, inr, arith, lookup, insert, delete,
  lookup-delete_ne, ◌==◌, eq_string, Bool-cases,
}
use ethiogram.ModelRouter.{
  Health, Registry, is_down, is_disabled, is_available, set_global_override, clear_global_override,
  set_business_override, clear_business_override, disable_model, enable_model, set_failover_chain,
  record_failure, record_success,
}

-- A model that is down has been disabled by an admin.
abbrev pub IsConsistent : Registry → Type 0
IsConsistent r = (m : String) → is_down (lookup m r.health) ≡ true → is_disabled m r ≡ true

is_down-insert :
    (k m : String) (h : Health) (r : Registry)
    → is_down (lookup m (insert k h r.health)) ≡ true
    → ((k == m) ≡ true) × (is_down (some h) ≡ true) ⊎ (is_down (lookup m r.health) ≡ true)
is_down-insert k m h r e = ground arith

record_failure-IsConsistent :
    (k : String) (r : Registry) → IsConsistent r → IsConsistent (record_failure k r)
unfolding record_failure
record_failure-IsConsistent k r c m e = ground (arith, c m)

record_success-IsConsistent :
    (k : String) (r : Registry) → IsConsistent r → IsConsistent (record_success k r)
unfolding record_success
record_success-IsConsistent k r c m e = ground (arith, c m)

disable_model-IsConsistent :
    (k : String) (r : Registry) → IsConsistent r → IsConsistent (disable_model k r)
unfolding disable_model
disable_model-IsConsistent k r c m e = ground (arith, c m)

enable_model-IsConsistent :
    (k : String) (r : Registry) → IsConsistent r → IsConsistent (enable_model k r)
unfolding enable_model
enable_model-IsConsistent k r c m e = elim (Bool-cases (k == m)) [
  | inl same ↦ ground arith
  | inr other ↦ ground (arith, c m, lookup-delete_ne k m r.disabled other)
]

-- The commands of an admin, the outcomes of calls, and the expiry of a failure count.
pub data Step (r : Registry) : Registry → Type 0 where
  override_step : (m : String) → Step r (set_global_override m r)
  clear_step : Step r (clear_global_override r)
  business_step : (b : ℕ) (m : String) → Step r (set_business_override b m r)
  clear_business_step : (b : ℕ) → Step r (clear_business_override b r)
  disable_step : (m : String) → Step r (disable_model m r)
  enable_step : (m : String) → Step r (enable_model m r)
  chain_step : (ms : List String) → Step r (set_failover_chain ms r)
  failure_step : (m : String) → Step r (record_failure m r)
  success_step : (m : String) → Step r (record_success m r)
  expiry_step : (m : String) → Step r (record r { fail_count = delete m r.fail_count })

pub data Reach (r : Registry) : Registry → Type 0 where
  here : Reach r r
  next : {s t : Registry} → Reach r s → Step s t → Reach r t

Step-IsConsistent : {r s : Registry} → Step r s → IsConsistent r → IsConsistent s
unfolding set_global_override clear_global_override set_business_override clear_business_override
    set_failover_chain
Step-IsConsistent (override_step m) c = c
Step-IsConsistent clear_step c = c
Step-IsConsistent (business_step b m) c = c
Step-IsConsistent (clear_business_step b) c = c
Step-IsConsistent {r} (disable_step m) c = disable_model-IsConsistent m r c
Step-IsConsistent {r} (enable_step m) c = enable_model-IsConsistent m r c
Step-IsConsistent (chain_step ms) c = c
Step-IsConsistent {r} (failure_step m) c = record_failure-IsConsistent m r c
Step-IsConsistent {r} (success_step m) c = record_success-IsConsistent m r c
Step-IsConsistent (expiry_step m) c = c

Reach-IsConsistent : {r s : Registry} → IsConsistent r → Reach r s → IsConsistent s
Reach-IsConsistent c here = c
Reach-IsConsistent c (next p st) = Step-IsConsistent st (Reach-IsConsistent c p)

-- From a registry in which only disabled models are down, and after any sequence of admin commands,
-- successes, failures and expiries, a model is available exactly if it is not disabled: however often
-- a model fails, its failures alone never take it out of the choice.
pub is_available-eq_enabled :
    (r s : Registry) (m : String)
    → IsConsistent r
    → Reach r s
    → is_available m s ≡ not (is_disabled m s)
unfolding is_available
is_available-eq_enabled r s m c p = ground (arith, Reach-IsConsistent c p m)
