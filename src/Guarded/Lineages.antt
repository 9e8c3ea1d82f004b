-- ===== src/Guarded/Lineages.antt =====
-- internal/agent/guarded_graph.go: that a decision stands, and that a chain of checkpoints stays in the
-- lineage of its first.
use kaggen.Guarded.{
  PutRequest, Saver, signal_decision, Executions, put_checkpoint, has_room, sent, get_checkpoint,
  last_of, lineage_of, Checkpoint, ids_of,
}
use kaggen.Base.{
  ◌≡◌, refl, ◌≢◌, inl, inr, Bool, true, false, none, some, List, [], ◌∷◌, ◌++◌, arith, Bool-cases,
  Option-cases, All, Text, text_key, nat_key, Map, get, put, get-put,
}

-- A decision that was sent is not replaced before it is received: a second one is refused.
pub signal_decision-signal_decision :
    (id : Text) (first second : Bool) (m : Executions)
    → (signal_decision id first m).1 ≡ true
    → signal_decision id second (signal_decision id first m).0
      ≡ ((signal_decision id first m).0, false)
unfolding signal_decision
signal_decision-signal_decision id first second m h = elim (Option-cases (get id m)) [
  | inl miss ↦ absurd (ground (arith, miss, h))
  | inr (e, hit) ↦ elim (Bool-cases (has_room e.decision)) [
    | inl room ↦
        let stored : signal_decision id first m ≡ (put id (sent first e) m, true) =
          ground (arith, hit, room) in
        let again : get id (put id (sent first e) m) ≡ some (sent first e) =
          ground (arith, get-put id id (sent first e) m) in
        rw stored (ground (arith, again))
    | inr full ↦ absurd (ground (arith, hit, full, h))
  ]
]

-- The saver after a checkpoint that names only its parent.
abbrev pub follows : Text → Text → Text → PutRequest
follows parent id contents = record {
  checkpoint = record { id = id; contents = contents };
  fresh = [];
  lineage_id = [];
  parent_id = parent;
  metadata = none;
}

-- A chain of checkpoints, each the parent of the next.
unfoldable pub put_chain : Text → List (Text × Text) → Saver → Saver
put_chain parent [] s = s
put_chain parent ((id, contents) ∷ rest) s =
    put_chain id rest (put_checkpoint (follows parent id contents) s).0

-- The last link of a chain.
abbrev pub last_link : Text × Text → List (Text × Text) → Text × Text
last_link link [] = link
last_link link (next ∷ rest) = last_link next rest

last_of-append : (ids : List Text) (id : Text) → last_of (ids ++ (id ∷ [])) ≡ some id
last_of-append [] id = refl
last_of-append (x ∷ []) id = refl
last_of-append (x ∷ y ∷ ids) id = last_of-append (y ∷ ids) id

-- The checkpoint of this id is the latest of the lineage.
record Latest (lineage id contents : Text) (s : Saver) : Type 0 where
  inherits : get id s.lineage_by_cp ≡ some lineage
  latest : last_of (ids_of (get lineage s.by_lineage)) ≡ some id
  stored : get id s.checkpoints ≡ some (record { id = id; contents = contents })

put_checkpoint-Latest :
    (lineage parent id contents : Text) (s : Saver)
    → lineage ≢ []
    → id ≢ []
    → lineage_of [] parent s.lineage_by_cp ≡ lineage
    → Latest lineage id contents (put_checkpoint (follows parent id contents) s).0
unfolding put_checkpoint
put_checkpoint-Latest [] parent id contents s full some_id from = absurd (full refl)
put_checkpoint-Latest (l ∷ lineage) parent [] contents s full some_id from = absurd (some_id refl)
put_checkpoint-Latest (l ∷ lineage) parent (c ∷ id) contents s full some_id from =
    let cp : Checkpoint = record { id = c ∷ id; contents = contents } in
    let ids = ids_of (get (l ∷ lineage) s.by_lineage) in
    rw from (record {
      inherits = ground (arith, get-put (c ∷ id) (c ∷ id) (l ∷ lineage) s.lineage_by_cp);
      latest = ground (
        arith,
        get-put (l ∷ lineage) (l ∷ lineage) (ids ++ ((c ∷ id) ∷ [])) s.by_lineage,
        last_of-append ids (c ∷ id),
      );
      stored = ground (arith, get-put (c ∷ id) (c ∷ id) cp s.checkpoints);
    })

inherited :
    (lineage parent : Text) (m : Map Text Text)
    → parent ≢ []
    → get parent m ≡ some lineage
    → lineage_of [] parent m ≡ lineage
inherited lineage [] m n h = absurd (n refl)
inherited lineage (c ∷ parent) m n h = ground (arith, h)

put_chain-Latest :
    (lineage parent contents : Text) (links : List (Text × Text)) (s : Saver)
    → lineage ≢ []
    → parent ≢ []
    → All (λ l. l.0 ≢ []) links
    → Latest lineage parent contents s
    → Latest lineage
        (last_link (parent, contents) links).0
        (last_link (parent, contents) links).1
        (put_chain parent links s)
unfolding put_chain
put_chain-Latest lineage parent contents [] s full n h at = at
put_chain-Latest lineage parent contents ((id, next) ∷ links) s full n h at =
    put_chain-Latest lineage id next links (put_checkpoint (follows parent id next) s).0 full h.0
      h.1
      (put_checkpoint-Latest lineage parent id next s full h.0
        (inherited lineage parent s.lineage_by_cp n at.inherits))

-- A checkpoint that names a lineage, and no parent.
abbrev pub starts : Text → Text → Text → PutRequest
starts lineage id contents = record {
  checkpoint = record { id = id; contents = contents };
  fresh = [];
  lineage_id = lineage;
  parent_id = [];
  metadata = none;
}

start-Latest :
    (lineage id contents : Text) (s : Saver)
    → lineage ≢ []
    → id ≢ []
    → Latest lineage id contents (put_checkpoint (starts lineage id contents) s).0
unfolding put_checkpoint
start-Latest [] id contents s full some_id = absurd (full refl)
start-Latest (l ∷ lineage) [] contents s full some_id = absurd (some_id refl)
start-Latest (l ∷ lineage) (c ∷ id) contents s full some_id =
    let cp : Checkpoint = record { id = c ∷ id; contents = contents } in
    let ids = ids_of (get (l ∷ lineage) s.by_lineage) in
    record {
      inherits = ground (arith, get-put (c ∷ id) (c ∷ id) (l ∷ lineage) s.lineage_by_cp);
      latest = ground (
        arith,
        get-put (l ∷ lineage) (l ∷ lineage) (ids ++ ((c ∷ id) ∷ [])) s.by_lineage,
        last_of-append ids (c ∷ id),
      );
      stored = ground (arith, get-put (c ∷ id) (c ∷ id) cp s.checkpoints);
    }

-- After a checkpoint that names a lineage and a chain of checkpoints that each name only the one before,
-- the latest of the lineage is the last of the chain. No id is empty.
pub get_checkpoint-put_chain :
    (lineage id contents : Text) (links : List (Text × Text)) (s : Saver)
    → lineage ≢ []
    → id ≢ []
    → All (λ l. l.0 ≢ []) links
    → get_checkpoint [] lineage
        (put_chain id links (put_checkpoint (starts lineage id contents) s).0)
      ≡ some (record {
        id = (last_link (id, contents) links).0;
        contents = (last_link (id, contents) links).1;
      })
unfolding get_checkpoint
get_checkpoint-put_chain [] id contents links s full some_id h = absurd (full refl)
get_checkpoint-put_chain (l ∷ lineage) id contents links s full some_id h =
    let first = start-Latest (l ∷ lineage) id contents s full some_id in
    let at =
      put_chain-Latest (l ∷ lineage) id contents links
        (put_checkpoint (starts (l ∷ lineage) id contents) s).0 full some_id h first in
    ground (arith, at.latest, at.stored)
