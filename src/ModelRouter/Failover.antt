-- ===== src/ModelRouter/Failover.antt =====
-- The failover chain of app/services/model_router.py: its members, and what a request gets from it.
use ethiogram.Base.{
  ℕ, ◌+◌, String, ◌≡◌, refl, Bool, true, false, not, ◌&&◌, Option, none, some, List, [], ◌∷◌, inl,
  inr, arith, ◌==◌, eq_string, contains, add_new, IsDistinct, add_new-IsDistinct,
  contains-add_new_self, contains-add_new, Bool-cases, Option-cases, if◌then◌else◌,
}
use ethiogram.Models.{Settings, Error}
use ethiogram.Request.{Result, ok, err}
use ethiogram.ModelRouter.{
  if_available, Registry, is_available, record_failure, truthy, Preferences, override_of, resolve,
  amharic_first, add_all, custom_chain, build_failover_chain, try_chain, execute_with_fallback,
}

-- The candidates of a request, the most binding first.
abbrev pub candidates : Settings → Preferences → Registry → List (Option String)
candidates s p r =
    truthy r.global_override
    ∷ truthy (override_of p.business_id r)
    ∷ truthy p.agent_model_id
    ∷ truthy p.business_preferred_model_id
    ∷ truthy (some s.default_model_id)
    ∷ some s.fallback_model_id
    ∷ []

-- The first candidate that is named and available.
abbrev pub first_available : Registry → List (Option String) → Option String
first_available r [] = none
first_available r (none ∷ cs) = first_available r cs
first_available r (some m ∷ cs) = if is_available m r then some m else first_available r cs

abbrev pub or_emergency : Settings → Option String → String
or_emergency s none = s.emergency_model_id
or_emergency s (some m) = m

if_available_step :
    (s : Settings) (r : Registry) (m : Option String) (rest : String) (cs : List (Option String))
    → rest ≡ or_emergency s (first_available r cs)
    → if_available r m rest ≡ or_emergency s (first_available r (truthy m ∷ cs))
if_available_step s r m rest cs h = elim (Option-cases (truthy m)) [
  | inl absent ↦ rw (absent, if_available) h
  | inr (k, named) ↦ elim (Bool-cases (is_available k r)) [
    | inl up ↦ rw (named, if_available) (rw up)
    | inr out ↦ rw (named, if_available) (rw out h)
  ]
]

-- The model that is resolved is the first available one in the order of priority (global override,
-- business override, agent's model, business's preference, default, fallback), and the emergency
-- model where none of them is available.
pub resolve-eq_first_available :
    (s : Settings) (p : Preferences) (r : Registry)
    → resolve s p r ≡ or_emergency s (first_available r (candidates s p r))
unfolding resolve
resolve-eq_first_available s p r = if_available_step s r r.global_override _ _ (
    if_available_step s r (override_of p.business_id r) _ _ (
      if_available_step s r p.agent_model_id _ _ (
        if_available_step s r p.business_preferred_model_id _ _
          (if_available_step s r (some s.default_model_id) _ _ (ground arith)))))

add_all-IsDistinct : (ms chain : List String) → IsDistinct chain → IsDistinct (add_all ms chain)
add_all-IsDistinct [] chain h = h
add_all-IsDistinct (m ∷ ms) chain h =
    add_all-IsDistinct ms (add_new m chain) (add_new-IsDistinct m chain h)

contains-add_all :
    (a : String) (ms chain : List String)
    → contains a chain ≡ true
    → contains a (add_all ms chain) ≡ true
contains-add_all a [] chain h = h
contains-add_all a (m ∷ ms) chain h =
    contains-add_all a ms (add_new m chain) (contains-add_new a m chain h)

contains-add_all_mem :
    (a : String) (ms chain : List String)
    → contains a ms ≡ true
    → contains a (add_all ms chain) ≡ true
contains-add_all_mem a [] chain h = absurd (cc)
contains-add_all_mem a (m ∷ ms) chain h = elim (Bool-cases (m == a)) [
  | inl same ↦
      contains-add_all a ms (add_new m chain)
        (ground (arith, contains-add_new_self m chain, eq_string.equal_iff m a))
  | inr other ↦ contains-add_all_mem a ms (add_new m chain) (rw other at h)
]

add_if-IsDistinct :
    (b : Bool) (m : String) (chain : List String)
    → IsDistinct chain
    → IsDistinct (if b then add_new m chain else chain)
add_if-IsDistinct true m chain h = add_new-IsDistinct m chain h
add_if-IsDistinct false m chain h = h

amharic_first-IsDistinct :
    (s : Settings) (amharic : Bool) (r : Registry) → IsDistinct (amharic_first s amharic r [])
amharic_first-IsDistinct s false r = tt
amharic_first-IsDistinct s true r =
    let primary = s.amharic_primary_model_id in
    let secondary = s.amharic_secondary_model_id in
    add_if-IsDistinct (not (secondary == "") && is_available secondary r) secondary _
      (add_if-IsDistinct (not (primary == "") && is_available primary r) primary [] tt)

-- The chain names no model twice, and it has the resolved model, the emergency model and any model of
-- the stored chain (or of the three defaults), whether or not that model is available.
pub build_failover_chain_lem :
    (s : Settings) (p : Preferences) (amharic : Bool) (r : Registry) (m : String)
    → contains m (custom_chain s r) ≡ true
    → let chain = build_failover_chain s p amharic r in
      IsDistinct chain
      × (contains (resolve s p r) chain ≡ true)
      × (contains s.emergency_model_id chain ≡ true)
      × (contains m chain ≡ true)
unfolding build_failover_chain
build_failover_chain_lem s p amharic r m h =
    let start : List String = amharic_first s amharic r [] in
    let first : String = resolve s p r in
    let more : List String = custom_chain s r in
    let middle : List String = add_all more (add_new first start) in
    (
      add_new-IsDistinct s.emergency_model_id middle (
          add_all-IsDistinct more (add_new first start)
            (add_new-IsDistinct first start (amharic_first-IsDistinct s amharic r))),
      contains-add_new first s.emergency_model_id middle
          (contains-add_all first more (add_new first start) (contains-add_new_self first start)),
      contains-add_new_self s.emergency_model_id middle,
      contains-add_new m s.emergency_model_id middle
          (contains-add_all_mem m more (add_new first start) h),
    )

module _ {Answer : Type 0} (call_provider : (attempt : ℕ) (model_id : String) → Option Answer) where
  -- The first model of a chain that answers, with its answer; `attempt` is the number of its call.
  abbrev pub first_answer : ℕ → List String → Option (Answer × String)
  first_answer attempt [] = none
  first_answer attempt (m ∷ ms) = elim (call_provider attempt m) [
    | some answer ↦ some (answer, m)
    | none ↦ first_answer (attempt + 1) ms
  ]

  abbrev pub reply : Option (Answer × String) → Result (Answer × String)
  reply none = err Error.all_models_failed
  reply (some a) = ok a

  try_chain-eq_first_answer :
      (attempt : ℕ) (ms : List String) (r : Registry)
      → (try_chain call_provider attempt ms r).0 ≡ reply (first_answer attempt ms)
  unfolding try_chain
  try_chain-eq_first_answer attempt [] r = refl
  try_chain-eq_first_answer attempt (m ∷ ms) r = elim (Option-cases (call_provider attempt m)) [
    | inl failed ↦
        rw (failed, try_chain)
          (rw (failed, first_answer)
            (try_chain-eq_first_answer (attempt + 1) ms (record_failure m r)))
    | inr (answer, got) ↦ rw (got, try_chain) (rw (got, first_answer))
  ]

  -- A request gets the answer of the first model of its chain that answers, and the error that all
  -- models failed exactly when none does.
  pub execute_with_fallback-eq_first_answer :
      (s : Settings) (p : Preferences) (amharic : Bool) (r : Registry)
      → (execute_with_fallback call_provider s p amharic r).0
        ≡ reply (first_answer 0 (build_failover_chain s p amharic r))
  unfolding execute_with_fallback
  execute_with_fallback-eq_first_answer s p amharic r =
      try_chain-eq_first_answer 0 (build_failover_chain s p amharic r) r
