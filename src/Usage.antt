-- ===== src/Usage.antt =====
-- internal/model/usage_tracking.go: the accumulators of token usage, and what one call of a model adds to
-- them. The accumulator of a context is held by the caller.
pub mod Registry
pub mod Slots
use kaggen.Base.{
  ℕ, zero, suc, ◌+◌, ◌-◌, ◌*◌, ◌/◌, ◌%◌, ◌≤◌, ◌<◌, ◌≡◌, refl, sym, ap, ◌∙◌, ◌≢◌, ◌↔◌, ◌⊎◌, inl, inr,
  ite, Bool, true, false, ◌&&◌, ◌||◌, not, Option, none, some, List, [], ◌∷◌, ◌++◌, map, arith,
  dec_lt, ℕ_discrete, ltb, leb, ◌==◌, if◌then◌else◌, Bool-cases, Option-cases, found, length, take,
  drop, get_elem?, select, last_n, All, length-append, length-take, length-drop, take-append-drop,
  length-select-le, select-append, select_idem, Text, codes, text_discrete, ◌is◌, starts_with, Key,
  text_key, nat_key, Map, keep_if, get, put, del, Unique, get-put, get-del, put-Unique, del-Unique,
  values_where, del_where, map_values, get-map_values, get-del_where-none, get-del_where-some,
  del_where-Unique, map_values-Unique, values_where-del_where, contains, lower_code, to_lower,
  contains-append, contains_later, contains_earlier, join, decimal, last_n-append, length-last_n,
  last_n-last_n, ends_with, trim_prefix, trim_suffix,
}

-- The usage that a response reports.
pub record Usage : Type 0 where
  pub prompt_tokens : ℕ
  pub completion_tokens : ℕ
  pub total_tokens : ℕ

pub record UsageAccumulator : Type 0 where
  pub input : ℕ
  pub output : ℕ
  pub total : ℕ

abbrev pub nothing : UsageAccumulator
nothing = record { input = 0; output = 0; total = 0 }

unfoldable pub add : Option Usage → UsageAccumulator → UsageAccumulator
add none u = u
add (some r) u = record {
  input = u.input + r.prompt_tokens;
  output = u.output + r.completion_tokens;
  total = u.total + r.total_tokens;
}

abbrev pub Registry : Type 0
Registry = Map Text UsageAccumulator

unfoldable pub register_tracking : Text → Registry → Registry
register_tracking id m = put id nothing m

abbrev pub or_nothing : Option UsageAccumulator → UsageAccumulator
or_nothing none = nothing
or_nothing (some u) = u

-- The usage of an id, which is taken out.
unfoldable pub get_tracked_usage : Text → Registry → Registry × UsageAccumulator
get_tracked_usage id m = (del id m, or_nothing (get id m))

unfoldable pub add_to_tracking : Text → Option Usage → Registry → Registry
add_to_tracking id none m = m
add_to_tracking id (some r) m =
    if id is [] then m else elim (get id m) [ none ↦ m | some u ↦ put id (add (some r) u) m ]

unfoldable pub add_to_all_active_tracking : Option Usage → Registry → Registry
add_to_all_active_tracking none m = m
add_to_all_active_tracking (some r) m = map_values (add (some r)) m

abbrev pub has_active_tracking : Registry → Bool
has_active_tracking [] = false
has_active_tracking (e ∷ m) = true

-- The accumulators that a call can reach: that of its context, and the registry.
pub record Tracking : Type 0 where
  pub context : Option UsageAccumulator
  pub registry : Registry

abbrev pub in_context : Option Usage → Option UsageAccumulator → Option UsageAccumulator
in_context r none = none
in_context r (some u) = some (add r u)

-- The id that a call is tracked under: the context's, or the active one where the context has neither.
abbrev pub tracking_id : Text → Text → Option UsageAccumulator → Text
tracking_id from_context active none = if from_context is [] then active else from_context
tracking_id from_context active (some u) = from_context

unfoldable pub accumulate : Text → Bool → Option Usage → Tracking → Tracking
accumulate id use_global none t = t
accumulate id use_global (some r) t = record {
  context = in_context (some r) t.context;
  registry =
      if not (id is [])
      then add_to_tracking id (some r) t.registry
      else if use_global
      then add_to_all_active_tracking (some r) t.registry
      else t.registry;
}

unfoldable pub accumulate_all : Text → Bool → List (Option Usage) → Tracking → Tracking
accumulate_all id use_global [] t = t
accumulate_all id use_global (r ∷ rs) t =
    accumulate_all id use_global rs (accumulate id use_global r t)

-- A call whose model answers with these responses; whether the registry is in use is read once, before
-- the first response.
unfoldable pub generate_content : Text → Text → List (Option Usage) → Tracking → Tracking
generate_content from_context active responses t =
    let id = tracking_id from_context active t.context in
    let use_global = has_active_tracking t.registry in
    if not (found t.context) && id is [] && not use_global
    then t
    else accumulate_all id use_global responses t
