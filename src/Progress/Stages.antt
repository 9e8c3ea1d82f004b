-- ===== src/Progress/Stages.antt =====
-- The completed stages, as a set of (session, pipeline, stage).
use kaggen.Base.{
  ℕ, ◌≡◌, Bool, true, ◌&&◌, ◌||◌, arith, ◌==◌, Text, ◌is◌, text_key, nat_key, put, get-put,
}
use kaggen.Tasks.{Store}
use kaggen.Progress.{inner, inner_stages, record_pipeline_stage, is_pipeline_stage_completed}

abbrev pub same_stage : Text → Text → ℕ → Text → Text → ℕ → Bool
same_stage sid name stage sid' name' stage' = (sid is sid') && (name is name') && (stage == stage')

-- Recording a stage completes that stage of that pipeline in that session, and no other; a stage
-- once completed stays so.
pub is_pipeline_stage_completed-record :
    (sid name : Text) (stage : ℕ) (sid' name' : Text) (stage' : ℕ) (s : Store)
    → is_pipeline_stage_completed sid' name' stage' (record_pipeline_stage sid name stage s) ≡ (
        same_stage sid name stage sid' name' stage'
        || is_pipeline_stage_completed sid' name' stage' s)
unfolding is_pipeline_stage_completed record_pipeline_stage
is_pipeline_stage_completed-record sid name stage sid' name' stage' s =
    let pipelines = inner sid s.pipeline_progress in
    let stages = inner_stages name pipelines in
    ground (
      arith,
      get-put sid sid' (put name (put stage true stages) pipelines) s.pipeline_progress,
      get-put name name' (put stage true stages) pipelines,
      get-put stage stage' true stages,
    )
