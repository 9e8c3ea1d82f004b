-- ===== src/Vfs/Tree.antt =====
-- The shape of a valid store, and what the walk along a path depends on.
use mathlib.Core.List.{reverse, reverse_aux, reverse-reverse}
use kaggen.Base.{
  ℕ, ◌<◌, ◌≡◌, refl, sym, ap, ◌∙◌, inl, inr, true, none, some, List, [], ◌∷◌, ◌++◌, arith,
  ℕ_discrete, Bool-cases, Option-cases, found, Text, text_key, nat_key, Map, get, put, get-put,
}
use kaggen.Vfs.{MemNode, MemFs, ok, node_at, walk, add_child}

-- A directory entry: the node at `a` has `c` under the name `p`.
pub record Edge (s : MemFs) (a : ℕ) (p : Text) (c : ℕ) : Type 0 where
  pub node : MemNode
  pub there : node_at a s ≡ some node
  pub entry : get p node.children ≡ some c

-- The store is a forest with the root on top: addresses lie below the next one, entries lead to
-- nodes, the root is a directory and nobody's entry, and no node has two entries.
pub record IsValid (s : MemFs) : Type 0 where
  pub bounded : (a : ℕ) (n : MemNode) → node_at a s ≡ some n → a < s.next
  pub closed : (a c : ℕ) (p : Text) → Edge s a p c → found (node_at c s) ≡ true
  pub top : (r : MemNode) × (node_at s.root s ≡ some r) × (r.is_dir ≡ true)
  pub orphan : (a : ℕ) (p : Text) → Edge s a p s.root → ⊥
  pub owner : (a b c : ℕ) (p q : Text) → Edge s a p c → Edge s b q c → (a ≡ b) × (p ≡ q)

-- A node reached from the root, with the names on the way, the last one first.
pub data Reaches (s : MemFs) : ℕ → List Text → Type 0 where
  here : Reaches s s.root []
  down :
      {a c : ℕ} {p : Text} {ps : List Text} → Reaches s a ps → Edge s a p c → Reaches s c (p ∷ ps)

Edge-at : {s : MemFs} {p : Text} {c : ℕ} (a b : ℕ) → a ≡ b → Edge s a p c → Edge s b p c
Edge-at {s} {p} {c} a b e x = record { node = x.node; there = rw (← e) x.there; entry = x.entry }

Edge-to : {s : MemFs} {a : ℕ} {p : Text} (c d : ℕ) → c ≡ d → Edge s a p c → Edge s a p d
Edge-to c d e x = record { node = x.node; there = x.there; entry = x.entry ∙ ap some e }

-- In a valid store a node is reached by one path only.
pub Reaches-unique :
    {s : MemFs} {a b : ℕ} {ps qs : List Text}
    → IsValid s
    → Reaches s a ps
    → Reaches s b qs
    → a ≡ b
    → ps ≡ qs
Reaches-unique v here here e = refl
Reaches-unique v here (down r x) e = absurd (v.orphan _ _ (Edge-to _ _ (sym e) x))
Reaches-unique v (down r x) here e = absurd (v.orphan _ _ (Edge-to _ _ e x))
Reaches-unique v (down r x) (down t y) e =
    let same = v.owner _ _ _ _ _ (Edge-to _ _ e x) y in cc (same.1, Reaches-unique v r t same.0)

-- One step of a successful walk.
pub walk-step :
    (s : MemFs) (cur a : ℕ) (p : Text) (ps : List Text)
    → walk s.nodes cur (p ∷ ps) ≡ ok a
    → (c : ℕ) × (n : MemNode) × (node_at cur s ≡ some n)
      × (n.is_dir ≡ true)
      × (get p n.children ≡ some c)
      × (walk s.nodes c ps ≡ ok a)
unfolding walk
walk-step s cur a p ps h = elim (Option-cases (get cur s.nodes)) [
  | inl e ↦ absurd (ground (arith, e))
  | inr (n, e) ↦ elim (Bool-cases n.is_dir) [
    | inr f ↦ absurd (ground (arith, e, f))
    | inl d ↦ elim (Option-cases (get p n.children)) [
      | inl m ↦ absurd (ground (arith, e, d, m))
      | inr (c, m) ↦ (c, n, e, d, m, ground (arith, e, d, m))
    ]
  ]
]

walk-cons :
    (nodes : Map ℕ MemNode) (cur c : ℕ) (n : MemNode) (p : Text) (ps : List Text)
    → get cur nodes ≡ some n
    → n.is_dir ≡ true
    → get p n.children ≡ some c
    → walk nodes cur (p ∷ ps) ≡ walk nodes c ps
unfolding walk
walk-cons nodes cur c n p ps e d m = ground (arith, e, d, m)

pub walk-Reaches :
    (s : MemFs) (cur a : ℕ) (ds ps : List Text)
    → Reaches s cur ds
    → walk s.nodes cur ps ≡ ok a
    → Reaches s a (reverse_aux ps ds)
unfolding walk
walk-Reaches s cur a ds [] r h = let e : cur ≡ a = ground arith in rw e at r
walk-Reaches s cur a ds (p ∷ ps) r h =
    let (c, n, e, d, m, rest) = walk-step s cur a p ps h in
    walk-Reaches s c a (p ∷ ds) ps (down r (record { node = n; there = e; entry = m })) rest

-- So two paths from the root to one node are the same path.
pub walk_unique :
    (s : MemFs) (a : ℕ) (ps qs : List Text)
    → IsValid s
    → walk s.nodes s.root ps ≡ ok a
    → walk s.nodes s.root qs ≡ ok a
    → ps ≡ qs
walk_unique s a ps qs v h k =
    let same : reverse ps ≡ reverse qs =
      Reaches-unique v (walk-Reaches s s.root a [] ps here h) (walk-Reaches s s.root a [] qs here k)
        refl in
    sym (reverse-reverse ps) ∙ ap reverse same ∙ reverse-reverse qs

-- A walk depends on the kinds and the entries of the nodes only.
pub walk-set_node :
    (a : ℕ) (n m : MemNode) (nodes : Map ℕ MemNode) (cur : ℕ) (ps : List Text)
    → get a nodes ≡ some n
    → m.is_dir ≡ n.is_dir
    → m.children ≡ n.children
    → walk (put a m nodes) cur ps ≡ walk nodes cur ps
unfolding walk
walk-set_node a n m nodes cur [] h d c = refl
walk-set_node a n m nodes cur (p ∷ ps) h d c = elim (ℕ_discrete a cur) [
  | yes e ↦ elim (Option-cases (get p n.children)) [
    | inl x ↦ ground (arith, get-put a cur m nodes, x)
    | inr (b, x) ↦ ground (arith, get-put a cur m nodes, x, walk-set_node a n m nodes b ps h d c)
  ]
  | no e ↦ elim (Option-cases (get cur nodes)) [
    | inl y ↦ ground (arith, get-put a cur m nodes, y)
    | inr (k, y) ↦ elim (Option-cases (get p k.children)) [
      | inl x ↦ ground (arith, get-put a cur m nodes, y, x)
      | inr (b, x) ↦
          ground (arith, get-put a cur m nodes, y, x, walk-set_node a n m nodes b ps h d c)
    ]
  ]
]

-- What is reached stays reached when a new node is entered under a new name.
pub walk-add_child :
    (parent : ℕ) (n : MemNode) (base : Text) (child : MemNode) (s : MemFs) (cur a : ℕ)
    (ps : List Text)
    → node_at parent s ≡ some n
    → get base n.children ≡ none
    → node_at s.next s ≡ none
    → walk s.nodes cur ps ≡ ok a
    → walk (add_child parent n base child s).nodes cur ps ≡ ok a
unfolding walk
walk-add_child parent n base child s cur a [] h new fresh w = w
walk-add_child parent n base child s cur a (p ∷ ps) h new fresh w =
    let (c, k, e, d, m, rest) = walk-step s cur a p ps w in
    let ih = walk-add_child parent n base child s c a ps h new fresh rest in
    let parent' : MemNode = record n { children = put base s.next n.children } in
    ground (
      arith,
      ih,
      get-put parent cur parent' (put s.next child s.nodes),
      get-put s.next cur child s.nodes,
      get-put base p s.next n.children,
    )

pub walk-append :
    (nodes : Map ℕ MemNode) (cur a : ℕ) (ps qs : List Text)
    → walk nodes cur ps ≡ ok a
    → walk nodes cur (ps ++ qs) ≡ walk nodes a qs
unfolding walk
walk-append nodes cur a [] qs h = ground arith
walk-append nodes cur a (p ∷ ps) qs h = elim (Option-cases (get cur nodes)) [
  | inl e ↦ absurd (ground (arith, e))
  | inr (n, e) ↦ elim (Bool-cases n.is_dir) [
    | inr f ↦ absurd (ground (arith, e, f))
    | inl d ↦ elim (Option-cases (get p n.children)) [
      | inl m ↦ absurd (ground (arith, e, d, m))
      | inr (c, m) ↦ ground (arith, e, d, m, walk-append nodes c a ps qs)
    ]
  ]
]
