-- ===== src/ModelRouter/Keys.antt =====
-- The Redis keys of app/services/model_router.py, the admin's controls, and the health of the models.
-- The window of 300 seconds after which a failure count expires is a step of its own.
use ethiogram.Base.{
  ℕ, ◌+◌, String, Bool, true, false, not, ◌&&◌, Option, none, some, List, [], Dict, lookup, insert,
  delete, eq_nat, eq_string, is_some, leb, if◌then◌else◌,
}

pub data Health : Type 0 where
  healthy degraded down : Health

pub record Registry : Type 0 where
  pub global_override : Option String
  pub business_override : Dict ℕ String
  pub disabled : Dict String String
  pub health : Dict String Health
  pub fail_count : Dict String ℕ
  pub failover_chain : Option (List String)

abbrev pub empty_registry : Registry
empty_registry = record {
  global_override = none;
  business_override = [];
  disabled = [];
  health = [];
  fail_count = [];
  failover_chain = none;
}

abbrev pub is_down : Option Health → Bool
is_down (some down) = true
is_down _ = false

abbrev pub is_degraded : Option Health → Bool
is_degraded (some degraded) = true
is_degraded _ = false

-- `_is_available`. The flag that `disable_model` writes is the text "1".
abbrev pub is_disabled : String → Registry → Bool
is_disabled model_id r = is_some (lookup model_id r.disabled)

unfoldable pub is_available : String → Registry → Bool
is_available model_id r = not (is_disabled model_id r) && not (is_down (lookup model_id r.health))

unfoldable pub set_global_override : String → Registry → Registry
set_global_override model_id r = record r { global_override = some model_id }

unfoldable pub clear_global_override : Registry → Registry
clear_global_override r = record r { global_override = none }

unfoldable pub set_business_override : ℕ → String → Registry → Registry
set_business_override business_id model_id r = record r {
  business_override = insert business_id model_id r.business_override;
}

unfoldable pub clear_business_override : ℕ → Registry → Registry
clear_business_override business_id r = record r {
  business_override = delete business_id r.business_override;
}

unfoldable pub disable_model : String → Registry → Registry
disable_model model_id r = record r {
  disabled = insert model_id "1" r.disabled;
  health = insert model_id down r.health;
}

unfoldable pub enable_model : String → Registry → Registry
enable_model model_id r = record r {
  disabled = delete model_id r.disabled;
  health = insert model_id healthy r.health;
  fail_count = delete model_id r.fail_count;
}

unfoldable pub set_failover_chain : List String → Registry → Registry
set_failover_chain chain r = record r { failover_chain = some chain }

abbrev pub or_zero : Option ℕ → ℕ
or_zero none = 0
or_zero (some n) = n

abbrev pub fail_threshold : ℕ
fail_threshold = 3

-- `INCR` on a missing key counts from 0.
unfoldable pub record_failure : String → Registry → Registry
record_failure model_id r =
    let count = or_zero (lookup model_id r.fail_count) + 1 in
    record r {
      fail_count = insert model_id count r.fail_count;
      health = if leb fail_threshold count then insert model_id degraded r.health else r.health;
    }

unfoldable pub record_success : String → Registry → Registry
record_success model_id r = record r {
  fail_count = delete model_id r.fail_count;
  health =
      if is_degraded (lookup model_id r.health) then insert model_id healthy r.health else r.health;
}
