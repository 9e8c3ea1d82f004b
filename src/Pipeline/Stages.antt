-- ===== src/Pipeline/Stages.antt =====
-- The table of gated agents against an independent description, and the round trip between it and
-- the search for a stage's agent.
use kaggen.Base.{
  ℕ, suc, ◌+◌, ◌-◌, ◌≤◌, ◌<◌, ◌≡◌, refl, sym, ◌∙◌, ◌≢◌, inl, inr, ite, Option, none, some, List, [],
  ◌∷◌, arith, Bool-cases, Option-cases, length, get_elem?, All, Text, text_discrete, text_key,
  nat_key, Map, get, get-put,
}
use kaggen.Pipeline.{
  ◌>>=◌, Stage, Pipeline, PipelineAgent, note_agent, note_stages, note_pipelines, agent_set, Entry,
  Loaded, check_pipeline, find_agent_at_stage, load_all, load_file, stage_agent, is_pipeline_file,
  ok, err,
}

-- The place of an agent among the stages, counted from `i`.
pub stage_of : Text → ℕ → List Stage → Option ℕ
stage_of a i [] = none
stage_of a i (s ∷ ss) = ite (text_discrete s.agent a) (some i) (stage_of a (i + 1) ss)

-- The first pipeline that has the agent, and its first stage there.
pub first_stage : Text → List Pipeline → Option PipelineAgent
first_stage a [] = none
first_stage a (p ∷ ps) = elim (stage_of a 1 p.stages) [
  | none ↦ first_stage a ps
  | some i ↦ some (record { pipeline = p.name; stage = i })
]

abbrev or_else {ℓ} : {A : Type ℓ} → Option A → Option A → Option A
or_else none y = y
or_else (some x) y = some x

abbrev located : Text → Option ℕ → Option PipelineAgent
located name none = none
located name (some i) = some (record { pipeline = name; stage = i })

get-note_agent :
    (a name agent : Text) (i : ℕ) (m : Map Text PipelineAgent)
    → get a (note_agent name agent i m)
      ≡ or_else
          (get a m)
          (ite (text_discrete agent a) (some (record { pipeline = name; stage = i })) none)
get-note_agent a name agent i m = elim (Option-cases (get agent m)) [
  | inl e ↦ ground (arith, e, get-put agent a (record { pipeline = name; stage = i }) m)
  | inr (pa, e) ↦ ground (arith, e)
]

get-note_stages :
    (a name : Text) (i : ℕ) (ss : List Stage) (m : Map Text PipelineAgent)
    → get a (note_stages name i ss m) ≡ or_else (get a m) (located name (stage_of a i ss))
unfolding note_stages stage_of
get-note_stages a name i [] m = ground arith
get-note_stages a name i (s ∷ ss) m = ground (
  arith,
  get-note_stages a name (i + 1) ss (note_agent name s.agent i m),
  get-note_agent a name s.agent i m,
)

get-note_pipelines :
    (a : Text) (ps : List Pipeline) (m : Map Text PipelineAgent)
    → get a (note_pipelines ps m) ≡ or_else (get a m) (first_stage a ps)
unfolding note_pipelines first_stage
get-note_pipelines a [] m = ground arith
get-note_pipelines a (p ∷ ps) m = ground (
  arith,
  get-note_pipelines a ps (note_stages p.name 1 p.stages m),
  get-note_stages a p.name 1 p.stages m,
)

-- The table holds an agent exactly if a pipeline has it, under the first such pipeline and its first
-- stage there.
pub get-agent_set : (a : Text) (ps : List Pipeline) → get a (agent_set ps) ≡ first_stage a ps
unfolding agent_set get
get-agent_set a ps = get-note_pipelines a ps []

stage_of_bounds :
    (a : Text) (i : ℕ) (ss : List Stage) (j : ℕ)
    → stage_of a i ss ≡ some j
    → (i ≤ j) × (j < i + length ss) × (stage_agent (get_elem? ss (j - i)) ≡ a)
unfolding stage_of
stage_of_bounds a i [] j h = absurd (cc)
stage_of_bounds a i (s ∷ ss) j h = elim (text_discrete s.agent a) [
  | yes p ↦
      let e : i ≡ j = ground arith in
      let z : j - i ≡ 0 = omega arith in (omega arith, omega arith, rw z p)
  | no p ↦
      let (low, high, at) = stage_of_bounds a (i + 1) ss j (ground arith) in
      let d : j - i ≡ suc (j - (i + 1)) = omega arith in (omega arith, omega arith, rw d at)
]

abbrev pub NamesDistinct : List Pipeline → Type 0
NamesDistinct [] = Unit
NamesDistinct (p ∷ ps) = All (λ q. q.name ≢ p.name) ps × NamesDistinct ps

first_stage-name :
    (a name : Text) (ps : List Pipeline) (pa : PipelineAgent)
    → All (λ q. q.name ≢ name) ps
    → first_stage a ps ≡ some pa
    → pa.pipeline ≢ name
unfolding first_stage
first_stage-name a name [] pa h e = cc
first_stage-name a name (p ∷ ps) pa h e = elim (Option-cases (stage_of a 1 p.stages)) [
  | inl miss ↦ first_stage-name a name ps pa h.1 (ground (arith, miss))
  | inr (j, hit) ↦ λ same. h.0 (ground (arith, hit))
]

find-first_stage :
    (a : Text) (ps : List Pipeline) (pa : PipelineAgent)
    → NamesDistinct ps
    → first_stage a ps ≡ some pa
    → (0 < pa.stage) × (find_agent_at_stage ps pa.pipeline pa.stage ≡ a)
unfolding first_stage find_agent_at_stage
find-first_stage a [] pa d e = absurd (cc)
find-first_stage a (p ∷ ps) pa d e = elim (Option-cases (stage_of a 1 p.stages)) [
  | inl miss ↦
      let deeper : first_stage a ps ≡ some pa = ground (arith, miss) in
      let other = first_stage-name a p.name ps pa d.0 deeper in
      let (positive, at) = find-first_stage a ps pa d.1 deeper in
      (positive, ground (arith, other, at))
  | inr (j, hit) ↦
      let (low, high, at) = stage_of_bounds a 1 p.stages j hit in
      let here : pa ≡ record { pipeline = p.name; stage = j } = ground (arith, hit) in
      rw here (low, ground (arith, at, low, high))
]

-- With pipelines of distinct names, the stage that the table gives an agent is positive, and the
-- search for the agent of that stage of that pipeline finds the agent again.
pub find_agent_at_stage-agent_set :
    (a : Text) (ps : List Pipeline) (pa : PipelineAgent)
    → NamesDistinct ps
    → get a (agent_set ps) ≡ some pa
    → (0 < pa.stage) × (find_agent_at_stage ps pa.pipeline pa.stage ≡ a)
find_agent_at_stage-agent_set a ps pa d e =
    find-first_stage a ps pa d (sym (get-agent_set a ps) ∙ e)

abbrev pub IsNamed : Pipeline → Type 0
IsNamed p = (p.name ≢ []) × (0 < length p.stages)

check_pipeline-IsNamed : (p q : Pipeline) → check_pipeline p ≡ ok q → IsNamed q
unfolding check_pipeline
check_pipeline-IsNamed p q e = (ground arith, ground arith)

load_file-IsNamed : (x : Entry) (q : Pipeline) → load_file x ≡ ok q → IsNamed q
unfolding load_file
load_file-IsNamed x q e = elim (Option-cases x.decoded) [
  | inl miss ↦ absurd (ground (arith, miss))
  | inr (p, hit) ↦ check_pipeline-IsNamed p q (ground (arith, hit))
]

abbrev LoadedNamed : Loaded (List Pipeline) → Type 0
LoadedNamed (ok ps) = All IsNamed ps
LoadedNamed (err e) = Unit

load_all-step :
    (x : Entry) (rest : Loaded (List Pipeline)) (r : Loaded Pipeline)
    → load_file x ≡ r
    → LoadedNamed rest
    → LoadedNamed (do p ← load_file x; ps ← rest; ok (p ∷ ps))
load_all-step x (ok ps) (ok p) e h = rw e (load_file-IsNamed x p e, h)
load_all-step x (err f) (ok p) e h = rw e tt
load_all-step x rest (err f) e h = rw e tt

load_all-LoadedNamed : (es : List Entry) → LoadedNamed (load_all es)
unfolding load_all
load_all-LoadedNamed [] = tt
load_all-LoadedNamed (x ∷ es) = elim (Bool-cases (is_pipeline_file x)) [
  | inl e ↦ rw e (load_all-step x (load_all es) (load_file x) refl (load_all-LoadedNamed es))
  | inr e ↦ rw e (load_all-LoadedNamed es)
]

-- Every pipeline that a successful load returns has a name and at least one stage.
pub load_all-IsNamed : (es : List Entry) (ps : List Pipeline) → load_all es ≡ ok ps → All IsNamed ps
load_all-IsNamed es ps e = rw e at (load_all-LoadedNamed es)
