-- ===== src/Pipeline.antt =====
-- internal/pipeline/pipeline.go: pipelines of agent stages, the table of the agents that they gate,
-- and the search for the agent of a stage. YAML decoding and directory reading are parameters: a
-- file is its decoded pipeline, or a failure.
pub mod Stages
use kaggen.Base.{
  ℕ, zero, suc, ◌+◌, ◌-◌, ◌*◌, ◌/◌, ◌%◌, ◌≤◌, ◌<◌, ◌≡◌, refl, sym, ap, ◌∙◌, ◌≢◌, ◌↔◌, ◌⊎◌, inl, inr,
  ite, Bool, true, false, ◌&&◌, ◌||◌, not, Option, none, some, List, [], ◌∷◌, ◌++◌, map, arith,
  dec_lt, ℕ_discrete, ltb, leb, ◌==◌, if◌then◌else◌, Bool-cases, Option-cases, found, length, take,
  drop, get_elem?, select, last_n, All, length-append, length-take, length-drop, take-append-drop,
  length-select-le, select-append, select_idem, Text, codes, text_discrete, ◌is◌, starts_with, Key,
  text_key, nat_key, Map, keep_if, get, put, del, Unique, get-put, get-del, put-Unique, del-Unique,
  values_where, del_where, map_values, get-map_values, get-del_where-none, get-del_where-some,
  del_where-Unique, map_values-Unique, values_where-del_where,
}

pub record Stage : Type 0 where
  pub agent : Text
  pub description : Text
  pub on_fail : Text
  pub max_retries : ℕ

pub record Pipeline : Type 0 where
  pub name : Text
  pub description : Text
  pub trigger : Text
  pub stages : List Stage

-- A directory entry: its name, and what reading and decoding the file gives.
pub record Entry : Type 0 where
  pub file_name : Text
  pub is_dir : Bool
  pub decoded : Option Pipeline

pub data LoadError : Type 0 where
  unreadable name_required no_stages : LoadError

pub data Loaded {ℓ} (A : Type ℓ) : Type ℓ where
  ok : A → Loaded A
  err : LoadError → Loaded A

infixl 5 ◌>>=◌
abbrev pub ◌>>=◌ {ℓ κ} : {A : Type ℓ} {B : Type κ} → Loaded A → (A → Loaded B) → Loaded B
ok a >>= f = f a
err e >>= f = err e

pub check_pipeline : Pipeline → Loaded Pipeline
check_pipeline p =
    if p.name is [] then err name_required else if length p.stages == 0 then err no_stages else ok p

unfoldable pub load_file : Entry → Loaded Pipeline
unfolding check_pipeline
load_file e = elim e.decoded [ none ↦ err unreadable | some p ↦ check_pipeline p ]

-- `strings.HasSuffix`.
abbrev pub ends_with : Text → Text → Bool
ends_with s suffix = leb (length suffix) (length s) && (drop (length s - length suffix) s is suffix)

abbrev pub is_pipeline_file : Entry → Bool
is_pipeline_file e =
    not e.is_dir && (ends_with e.file_name (codes ".yaml") || ends_with e.file_name (codes ".yml"))

-- A missing directory has no entries. The first file that fails ends the load.
unfoldable pub load_all : List Entry → Loaded (List Pipeline)
load_all [] = ok []
load_all (e ∷ es) =
    let rest = load_all es in
    if is_pipeline_file e then (do p ← load_file e; ps ← rest; ok (p ∷ ps)) else rest

pub record PipelineAgent : Type 0 where
  pub pipeline : Text
  pub stage : ℕ

-- The loop body of `AgentSet`: the first stage of an agent stands.
abbrev pub note_agent : Text → Text → ℕ → Map Text PipelineAgent → Map Text PipelineAgent
note_agent pipeline agent stage m = elim (get agent m) [
  | none ↦ put agent (record { pipeline = pipeline; stage = stage }) m
  | some _ ↦ m
]

-- The inner loop, from the stage with the given 1-based number on.
pub note_stages : Text → ℕ → List Stage → Map Text PipelineAgent → Map Text PipelineAgent
note_stages pipeline i [] m = m
note_stages pipeline i (s ∷ ss) m =
    note_stages pipeline (i + 1) ss (note_agent pipeline s.agent i m)

pub note_pipelines : List Pipeline → Map Text PipelineAgent → Map Text PipelineAgent
unfolding note_stages
note_pipelines [] m = m
note_pipelines (p ∷ ps) m = note_pipelines ps (note_stages p.name 1 p.stages m)

unfoldable pub agent_set : List Pipeline → Map Text PipelineAgent
unfolding note_pipelines
agent_set pipelines = note_pipelines pipelines []

abbrev pub stage_agent : Option Stage → Text
stage_agent none = []
stage_agent (some s) = s.agent

pub find_agent_at_stage : List Pipeline → Text → ℕ → Text
find_agent_at_stage [] name stage = []
find_agent_at_stage (p ∷ ps) name stage =
    if (p.name is name) && leb 1 stage && leb stage (length p.stages)
    then stage_agent (get_elem? p.stages (stage - 1))
    else find_agent_at_stage ps name stage
