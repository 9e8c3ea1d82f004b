-- ===== src/Progress/Starts.antt =====
-- The clock and the summary of a pipeline run.
use kaggen.Base.{
  ℕ, ◌+◌, ◌-◌, ◌≤◌, ◌≡◌, inl, inr, ◌&&◌, Option, none, some, [], arith, if◌then◌else◌, Bool-cases,
  Option-cases, length, take, length-append, length-take, Text, codes, ◌is◌, text_key, nat_key, get,
  put, get-put,
}
use kaggen.Tasks.{Store, truncate}
use kaggen.Progress.{
  inner, text_or_empty, description_limit, record_pipeline_start, pipeline_description,
  pipeline_started_at, pipeline_elapsed,
}

abbrev pub or_now : Option ℕ → ℕ → Option ℕ
or_now none now = some now
or_now (some t) now = some t

-- The first start of a pipeline in a session is kept by every later one; the other pipelines and
-- sessions keep theirs.
pub pipeline_started_at-record :
    (sid name description : Text) (now : ℕ) (sid' name' : Text) (s : Store)
    → pipeline_started_at sid' name' (record_pipeline_start sid name description now s) ≡ (
        if (sid is sid') && (name is name')
        then or_now (pipeline_started_at sid name s) now
        else pipeline_started_at sid' name' s)
unfolding pipeline_started_at record_pipeline_start
pipeline_started_at-record sid name description now sid' name' s =
    let starts = inner sid s.pipeline_start_times in
    elim (Option-cases (get name starts)) [
      | inl e ↦ ground (
        arith,
        e,
        get-put sid sid' (put name now starts) s.pipeline_start_times,
        get-put name name' now starts,
      )
      | inr (t, e) ↦ ground (arith, e, get-put sid sid' starts s.pipeline_start_times)
    ]

abbrev elapsed : Option ℕ → ℕ → ℕ
elapsed none now = 0
elapsed (some start) now = now - start

elapsed_of_started :
    (sid name : Text) (now : ℕ) (s : Store)
    → pipeline_elapsed sid name now s ≡ elapsed (pipeline_started_at sid name s) now
unfolding pipeline_elapsed pipeline_started_at
elapsed_of_started sid name now s = ground arith

-- So the time that a run has taken counts from its first start, whatever is started again later.
pub pipeline_elapsed-restart :
    (sid name d d' : Text) (first later now : ℕ) (s : Store)
    → pipeline_started_at sid name s ≡ none
    → pipeline_elapsed sid name now
        (record_pipeline_start sid name d' later (record_pipeline_start sid name d first s))
      ≡ now - first
pipeline_elapsed-restart sid name d d' first later now s h =
    let s' = record_pipeline_start sid name d first s in
    ground (
      arith,
      h,
      elapsed_of_started sid name now (record_pipeline_start sid name d' later s'),
      pipeline_started_at-record sid name d first sid name s,
      pipeline_started_at-record sid name d' later sid name s',
    )

truncate-length : (t : Text) (max : ℕ) → length (truncate t max) ≤ max + 3
unfolding truncate
truncate-length t max = ground (arith, length-append (take max t) (codes "..."), length-take max t)

-- The summary of a run is set once: a description that is not empty stays.
pub pipeline_description-record :
    (sid name description : Text) (now : ℕ) (s : Store)
    → pipeline_description sid name (record_pipeline_start sid name description now s) ≡ (
        if pipeline_description sid name s is []
        then truncate description description_limit
        else pipeline_description sid name s)
unfolding pipeline_description record_pipeline_start
pipeline_description-record sid name description now s =
    let texts = inner sid s.pipeline_descriptions in
    let new = truncate description description_limit in
    elim (Bool-cases (text_or_empty (get name texts) is [])) [
      | inl e ↦ ground (
        arith,
        e,
        get-put sid sid (put name new texts) s.pipeline_descriptions,
        get-put name name new texts,
      )
      | inr e ↦ ground (arith, e, get-put sid sid texts s.pipeline_descriptions)
    ]

-- No summary ever exceeds the limit by more than its mark of truncation.
pub length-pipeline_description :
    (sid name description : Text) (now : ℕ) (s : Store)
    → length (pipeline_description sid name s) ≤ description_limit + 3
    → length (pipeline_description sid name (record_pipeline_start sid name description now s))
      ≤ description_limit + 3
length-pipeline_description sid name description now s h = ground (
  arith,
  pipeline_description-record sid name description now s,
  truncate-length description description_limit,
)
