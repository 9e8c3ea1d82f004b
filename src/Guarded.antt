-- ===== src/Guarded.antt =====
-- internal/agent/guarded_graph.go: the store of paused executions and the saver of checkpoints;
-- internal/agent/autorule.go: the rules that approve a tool call by themselves. A decision channel is
-- nil, or holds the decision that was sent and not received yet; its buffer has room for one. A
-- regular expression is its matcher, which the parameter `compile` gives.
pub mod Lineages
use kaggen.Base.{
  ℕ, zero, suc, ◌+◌, ◌-◌, ◌*◌, ◌/◌, ◌%◌, ◌≤◌, ◌<◌, ◌≡◌, refl, sym, ap, ◌∙◌, ◌≢◌, ◌↔◌, ◌⊎◌, inl, inr,
  ite, Bool, true, false, ◌&&◌, ◌||◌, not, Option, none, some, List, [], ◌∷◌, ◌++◌, map, arith,
  dec_lt, ℕ_discrete, ltb, leb, ◌==◌, if◌then◌else◌, Bool-cases, Option-cases, found, length, take,
  drop, get_elem?, select, last_n, All, length-append, length-take, length-drop, take-append-drop,
  length-select-le, select-append, select_idem, Text, codes, text_discrete, ◌is◌, starts_with, Key,
  text_key, nat_key, Map, keep_if, get, put, del, Unique, get-put, get-del, put-Unique, del-Unique,
  values_where, del_where, map_values, get-map_values, get-del_where-none, get-del_where-some,
  del_where-Unique, map_values-Unique, values_where-del_where, contains, lower_code, to_lower,
  contains-append, contains_later, contains_earlier, join, decimal, last_n-append, length-last_n,
  last_n-last_n, ends_with, trim_prefix, trim_suffix, is_refl,
}

-- The decision channel of an execution: nil, or its buffer.
pub data Channel : Type 0 where
  nil : Channel
  buffer : Option Bool → Channel

pub record GuardedExecution : Type 0 where
  pub id : Text
  pub session_id : Text
  pub user_id : Text
  pub skill_name : Text
  pub tool_name : Text
  pub tool_args : Text
  pub checkpoint_id : Text
  pub decision : Channel

abbrev pub Executions : Type 0
Executions = Map Text GuardedExecution

unfoldable pub store_execution : GuardedExecution → Executions → Executions
store_execution e m = put e.id e m

unfoldable pub delete_execution : Text → Executions → Executions
delete_execution id m = del id m

abbrev pub sent : Bool → GuardedExecution → GuardedExecution
sent approved e = record e { decision = buffer (some approved) }

abbrev pub has_room : Channel → Bool
has_room nil = false
has_room (buffer none) = true
has_room (buffer (some b)) = false

-- The executions after the decision, and whether it was sent.
unfoldable pub signal_decision : Text → Bool → Executions → Executions × Bool
signal_decision id approved m = elim (get id m) [
  | none ↦ (m, false)
  | some e ↦ if has_room e.decision then (put id (sent approved e) m, true) else (m, false)
]

-- A rule without a pattern matches every call of its tool.
pub record CompiledAutoRule : Type 0 where
  pub tool : Text
  pub pattern : Option (Text → Bool)

abbrev pub rule_matches : Option (Text → Bool) → Text → Bool
rule_matches none description = true
rule_matches (some m) description = m description

unfoldable pub match_auto_rule : List CompiledAutoRule → Text → Text → Bool
match_auto_rule [] tool description = false
match_auto_rule (r ∷ rs) tool description =
    r.tool is tool && rule_matches r.pattern description || match_auto_rule rs tool description

module _ (compile : Text → Option (Text → Bool)) where
  abbrev pub compile_pattern : Text → Option (Option (Text → Bool))
  compile_pattern [] = some none
  compile_pattern (c ∷ p) = elim (compile (c ∷ p)) [ none ↦ none | some m ↦ some (some m) ]

  -- None at the first pattern that is invalid.
  unfoldable pub compile_auto_rules : List (Text × Text) → Option (List CompiledAutoRule)
  compile_auto_rules [] = some []
  compile_auto_rules ((tool, pattern) ∷ rules) =
      let rest = compile_auto_rules rules in
      elim (compile_pattern pattern) [
        | none ↦ none
        | some p ↦ elim rest [
          | none ↦ none
          | some rs ↦ some (record { tool = tool; pattern = p } ∷ rs)
        ]
      ]

-- A checkpoint, with the contents that the graph library gives it.
pub record Checkpoint : Type 0 where
  pub id : Text
  pub contents : Text

pub record Saver : Type 0 where
  pub checkpoints : Map Text Checkpoint
  pub by_lineage : Map Text (List Text)
  pub lineage_by_cp : Map Text Text
  pub writes : Map Text (List Text)
  pub metadata : Map Text Text
  pub last_checkpoint_id : Text

pub new_saver : Saver
new_saver = record {
  checkpoints = [];
  by_lineage = [];
  lineage_by_cp = [];
  writes = [];
  metadata = [];
  last_checkpoint_id = [];
}

-- What is stored: `fresh` is the id that a checkpoint without one is given.
pub record PutRequest : Type 0 where
  pub checkpoint : Checkpoint
  pub fresh : Text
  pub lineage_id : Text
  pub parent_id : Text
  pub metadata : Option Text

abbrev pub or_fresh : Text → Text → Text
or_fresh [] fresh = fresh
or_fresh (c ∷ id) fresh = c ∷ id

abbrev pub named : Option Text → Text
named none = []
named (some s) = s

-- The lineage of a request, or that of the parent checkpoint.
abbrev pub lineage_of : Text → Text → Map Text Text → Text
lineage_of (c ∷ lineage) parent m = c ∷ lineage
lineage_of [] [] m = []
lineage_of [] (c ∷ parent) m = named (get (c ∷ parent) m)

abbrev pub ids_of : Option (List Text) → List Text
ids_of none = []
ids_of (some ids) = ids

abbrev pub track : Text → Text → Saver → Saver
track [] id s = s
track (c ∷ lineage) id s = record s {
  by_lineage =
      put (c ∷ lineage) (ids_of (get (c ∷ lineage) s.by_lineage) ++ (id ∷ [])) s.by_lineage;
  lineage_by_cp = put id (c ∷ lineage) s.lineage_by_cp;
}

abbrev pub with_metadata : Text → Option Text → Map Text Text → Map Text Text
with_metadata id none m = m
with_metadata id (some data') m = put id data' m

-- The saver, and the id of what was stored.
unfoldable pub put_checkpoint : PutRequest → Saver → Saver × Text
put_checkpoint r s =
    let id = or_fresh r.checkpoint.id r.fresh in
    let tracked = track (lineage_of r.lineage_id r.parent_id s.lineage_by_cp) id s in
    (
      record tracked {
        checkpoints = put id (record r.checkpoint { id = id }) s.checkpoints;
        metadata = with_metadata id r.metadata s.metadata;
        last_checkpoint_id = id;
      },
      id,
    )

abbrev pub set_writes : Text → List Text → Map Text (List Text) → Map Text (List Text)
set_writes id [] m = m
set_writes id (w ∷ ws) m = put id (w ∷ ws) m

unfoldable pub put_full : PutRequest → List Text → Saver → Saver × Text
put_full r pending s =
    let (s', id) = put_checkpoint r s in (record s' { writes = set_writes id pending s.writes }, id)

unfoldable pub put_writes : Text → List Text → Saver → Saver
put_writes [] ws s = s
put_writes (c ∷ id) ws s = record s {
  writes = put (c ∷ id) (ids_of (get (c ∷ id) s.writes) ++ ws) s.writes;
}

abbrev pub last_of : List Text → Option Text
last_of [] = none
last_of (x ∷ []) = some x
last_of (x ∷ y ∷ xs) = last_of (y ∷ xs)

-- By its id, or the latest of a lineage.
unfoldable pub get_checkpoint : Text → Text → Saver → Option Checkpoint
get_checkpoint (c ∷ id) lineage s = get (c ∷ id) s.checkpoints
get_checkpoint [] [] s = none
get_checkpoint [] (c ∷ lineage) s = elim (last_of (ids_of (get (c ∷ lineage) s.by_lineage))) [
  | none ↦ none
  | some id ↦ get id s.checkpoints
]

unfoldable pub delete_all : {V : Type 0} → List Text → Map Text V → Map Text V
delete_all [] m = m
delete_all (id ∷ ids) m = delete_all ids (del id m)

unfoldable pub delete_lineage : Text → Saver → Saver
delete_lineage lineage s =
    let ids = ids_of (get lineage s.by_lineage) in
    record s {
      checkpoints = delete_all ids s.checkpoints;
      writes = delete_all ids s.writes;
      metadata = delete_all ids s.metadata;
      lineage_by_cp = delete_all ids s.lineage_by_cp;
      by_lineage = del lineage s.by_lineage;
    }
