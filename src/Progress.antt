-- ===== src/Progress.antt =====
-- internal/agent/async.go, the pipeline maps of the in-flight store: completed stages, start times
-- and descriptions, by session and then by pipeline.
pub mod Stages
pub mod Starts
use kaggen.Base.{
  ℕ, zero, suc, ◌+◌, ◌-◌, ◌*◌, ◌/◌, ◌%◌, ◌≤◌, ◌<◌, ◌≡◌, refl, sym, ap, ◌∙◌, ◌≢◌, ◌↔◌, ◌⊎◌, inl, inr,
  ite, Bool, true, false, ◌&&◌, ◌||◌, not, Option, none, some, List, [], ◌∷◌, ◌++◌, map, arith,
  dec_lt, ℕ_discrete, ltb, leb, ◌==◌, if◌then◌else◌, Bool-cases, Option-cases, found, length, take,
  drop, get_elem?, select, last_n, All, length-append, length-take, length-drop, take-append-drop,
  length-select-le, select-append, select_idem, Text, codes, text_discrete, ◌is◌, starts_with, Key,
  text_key, nat_key, Map, keep_if, get, put, del, Unique, get-put, get-del, put-Unique, del-Unique,
  values_where, del_where, map_values, get-map_values, get-del_where-none, get-del_where-some,
  del_where-Unique, map_values-Unique, values_where-del_where,
}
use kaggen.Tasks.{Store, truncate}

-- `m[k]` of a map of maps: a missing inner map reads as the nil map.
abbrev pub inner : {V : Type 0} → Text → Map Text (Map Text V) → Map Text V
inner session m = elim (get session m) [ none ↦ [] | some x ↦ x ]

abbrev pub inner_stages : Text → Map Text (Map ℕ Bool) → Map ℕ Bool
inner_stages name m = elim (get name m) [ none ↦ [] | some x ↦ x ]

unfoldable pub record_pipeline_stage : Text → Text → ℕ → Store → Store
record_pipeline_stage session name stage s =
    let pipelines = inner session s.pipeline_progress in
    let stages = inner_stages name pipelines in
    record s {
      pipeline_progress =
          put session (put name (put stage true stages) pipelines) s.pipeline_progress;
    }

abbrev flag : Option Bool → Bool
flag none = false
flag (some b) = b

-- Reading a nil inner map gives false, as the early returns do.
unfoldable pub is_pipeline_stage_completed : Text → Text → ℕ → Store → Bool
is_pipeline_stage_completed session name stage s =
    flag (get stage (inner_stages name (inner session s.pipeline_progress)))

-- A start that is recorded already is kept, so that a retry does not reset the clock.
abbrev put_new : {V : Type 0} → Text → V → Map Text V → Map Text V
put_new k v m = elim (get k m) [ none ↦ put k v m | some _ ↦ m ]

abbrev pub description_limit : ℕ
description_limit = 120

abbrev pub text_or_empty : Option Text → Text
text_or_empty none = []
text_or_empty (some t) = t

abbrev put_description : Text → Text → Map Text Text → Map Text Text
put_description name description m =
    if text_or_empty (get name m) is []
    then put name (truncate description description_limit) m
    else m

pub record_pipeline_start : Text → Text → Text → ℕ → Store → Store
record_pipeline_start session name description now s = record s {
  pipeline_start_times =
      put session (put_new name now (inner session s.pipeline_start_times)) s.pipeline_start_times;
  pipeline_descriptions =
      put session (put_description name description (inner session s.pipeline_descriptions))
        s.pipeline_descriptions;
}

pub pipeline_description : Text → Text → Store → Text
pipeline_description session name s =
    text_or_empty (get name (inner session s.pipeline_descriptions))

pub pipeline_started_at : Text → Text → Store → Option ℕ
pipeline_started_at session name s = get name (inner session s.pipeline_start_times)

unfoldable pub pipeline_elapsed : Text → Text → ℕ → Store → ℕ
pipeline_elapsed session name now s = elim (get name (inner session s.pipeline_start_times)) [
  | none ↦ 0
  | some start ↦ now - start
]
