-- ===== src/Vfs/Validity.antt =====
-- internal/vfs/memfs.go: replacing a node and entering a new one keep the store valid.
pub mod Opening
pub mod Operations
pub mod Moves
use kaggen.Base.{
  ℕ, zero, suc, ◌+◌, ◌-◌, ◌*◌, ◌/◌, ◌%◌, ◌≤◌, ◌<◌, ◌≡◌, refl, sym, ap, ◌∙◌, ◌≢◌, ◌↔◌, ◌⊎◌, inl, inr,
  ite, Bool, true, false, ◌&&◌, ◌||◌, not, Option, none, some, List, [], ◌∷◌, ◌++◌, map, arith,
  dec_lt, ℕ_discrete, ltb, leb, ◌==◌, if◌then◌else◌, Bool-cases, Option-cases, found, length, take,
  drop, get_elem?, select, last_n, All, length-append, length-take, length-drop, take-append-drop,
  length-select-le, select-append, select_idem, Text, codes, text_discrete, ◌is◌, starts_with, Key,
  text_key, nat_key, Map, keep_if, get, put, del, Unique, get-put, get-del, put-Unique, del-Unique,
  values_where, del_where, map_values, get-map_values, get-del_where-none, get-del_where-some,
  del_where-Unique, map_values-Unique, values_where-del_where, contains, lower_code, to_lower,
  contains-append, contains_later, contains_earlier, join, decimal, last_n-append, length-last_n,
  last_n-last_n, ends_with, trim_prefix, trim_suffix, is_refl,
}
use kaggen.Vfs.Tree.{Edge, IsValid}
use kaggen.Vfs.Files.{Place, lookup_parent-Place, fresh_node}
use kaggen.Vfs.{
  MemNode, MemFs, Result, ok, err, new_mem_fs, new_dir, node_at, lookup_parent, set_node, add_child,
  drop_child, write_in, write_file, mkdir_parts, mkdir_all, remove, remove_all, rename,
}

-- The edges of a store whose node at `a` is replaced.
pub set_node-Edge :
    (a : ℕ) (m : MemNode) (s : MemFs) (b : ℕ) (p : Text) (c : ℕ)
    → Edge (set_node a m s) b p c
    → (Edge s b p c × (a ≢ b)) ⊎ ((a ≡ b) × (get p m.children ≡ some c))
set_node-Edge a m s b p c x = elim (ℕ_discrete a b) [
  | yes e ↦
      let same : x.node ≡ m = ground (arith, get-put a b m s.nodes, x.there) in
      inr (e, rw same at x.entry)
  | no e ↦
      let there : node_at b s ≡ some x.node = ground (arith, get-put a b m s.nodes, x.there) in
      inl (record { node = x.node; there = there; entry = x.entry }, e)
]

-- Replacing a node by one of the same kind keeps a store valid if each entry of the new node was an
-- entry of the old one.
pub set_node-IsValid :
    (a : ℕ) (n m : MemNode) (s : MemFs)
    → node_at a s ≡ some n
    → m.is_dir ≡ n.is_dir
    → ((p : Text) (c : ℕ) → get p m.children ≡ some c → get p n.children ≡ some c)
    → IsValid s
    → IsValid (set_node a m s)
set_node-IsValid a n m s at d sub v = record {
  bounded = λ b k e. bounded b k e;
  closed = λ b c p x. present c (v.closed b c p (old b p c x));
  top = top v.top;
  orphan = λ b p x. v.orphan b p (old b p s.root x);
  owner = λ b b' c p q x y. v.owner b b' c p q (old b p c x) (old b' q c y);
}
  where
    old : (b : ℕ) (p : Text) (c : ℕ) → Edge (set_node a m s) b p c → Edge s b p c
    old b p c x = elim (set_node-Edge a m s b p c x) [
      | inl (y, _) ↦ y
      | inr (e, y) ↦ record { node = n; there = rw (← e) at; entry = sub p c y }
    ]

    bounded : (b : ℕ) (k : MemNode) → node_at b (set_node a m s) ≡ some k → b < s.next
    bounded b k e = elim (ℕ_discrete a b) [
      | yes same ↦ rw (← same) (v.bounded a n at)
      | no other ↦ v.bounded b k (ground (arith, get-put a b m s.nodes))
    ]

    present : (c : ℕ) → found (node_at c s) ≡ true → found (node_at c (set_node a m s)) ≡ true
    present c f = ground (arith, get-put a c m s.nodes)

    top :
        (r : MemNode) × (node_at s.root s ≡ some r) × (r.is_dir ≡ true)
        → (r : MemNode) × (node_at s.root (set_node a m s) ≡ some r) × (r.is_dir ≡ true)
    top (r, there, is_dir) = elim (ℕ_discrete a s.root) [
      | yes e ↦ (m, ground (arith, get-put a s.root m s.nodes), ground (arith, at, there))
      | no e ↦ (r, ground (arith, get-put a s.root m s.nodes), is_dir)
    ]

pub drop_child-IsValid :
    (parent : ℕ) (n : MemNode) (base : Text) (s : MemFs)
    → node_at parent s ≡ some n
    → IsValid s
    → IsValid (drop_child parent n base s)
drop_child-IsValid parent n base s at v =
    set_node-IsValid parent n (record n { children = del base n.children }) s at refl
      (λ p c e. ground (arith, get-del base p n.children)) v

-- An edge of a store with a new entry is the new one or an old one.
add_child-Edge :
    (parent : ℕ) (n : MemNode) (base : Text) (child : MemNode) (s : MemFs) (b : ℕ) (p : Text)
    (c : ℕ)
    → node_at parent s ≡ some n
    → child.children ≡ []
    → Edge (add_child parent n base child s) b p c
    → Edge s b p c ⊎ ((parent ≡ b) × (base ≡ p) × (c ≡ s.next))
unfolding get
add_child-Edge parent n base child s b p c at none_yet x =
    let parent' : MemNode = record n { children = put base s.next n.children } in
    elim (ℕ_discrete parent b) [
      | yes e ↦
          let same : x.node ≡ parent' =
            ground (arith, get-put parent b parent' (put s.next child s.nodes), x.there) in
          elim (text_discrete base p) [
            | yes f ↦
                inr (e, f, ground (arith, get-put base p s.next n.children, rw same at x.entry))
            | no f ↦ inl (record {
              node = n;
              there = rw (← e) at;
              entry = ground (arith, get-put base p s.next n.children, rw same at x.entry);
            })
          ]
      | no e ↦ elim (ℕ_discrete s.next b) [
        | yes f ↦
            let same : x.node ≡ child = ground (
              arith,
              get-put parent b parent' (put s.next child s.nodes),
              get-put s.next b child s.nodes,
              x.there,
            ) in
            let entry : get p child.children ≡ some c = rw same at x.entry in
            absurd (ground (arith, entry))
        | no f ↦ inl (record {
          node = x.node;
          there = ground (
            arith,
            get-put parent b parent' (put s.next child s.nodes),
            get-put s.next b child s.nodes,
            x.there,
          );
          entry = x.entry;
        })
      ]
    ]

pub add_child-IsValid :
    (parent : ℕ) (n : MemNode) (base : Text) (child : MemNode) (s : MemFs)
    → node_at parent s ≡ some n
    → child.children ≡ []
    → IsValid s
    → IsValid (add_child parent n base child s)
add_child-IsValid parent n base child s at none_yet v = record {
  bounded = bounded;
  closed = λ b c p x. closed c (edge b p c x);
  top = top v.top;
  orphan = λ b p x. orphan (edge b p s.root x);
  owner = λ b b' c p q x y. owner b b' c p q (edge b p c x) (edge b' q c y);
}
  where
    after : MemFs
    after = add_child parent n base child s

    parent' : MemNode
    parent' = record n { children = put base s.next n.children }

    edge :
        (b : ℕ) (p : Text) (c : ℕ)
        → Edge after b p c
        → Edge s b p c ⊎ ((parent ≡ b) × (base ≡ p) × (c ≡ s.next))
    edge b p c x = add_child-Edge parent n base child s b p c at none_yet x

    low : parent < s.next
    low = v.bounded parent n at

    unused : node_at s.next s ≡ none
    unused = fresh_node s v

    bounded : (b : ℕ) (k : MemNode) → node_at b after ≡ some k → b < s.next + 1
    bounded b k e = elim (Option-cases (node_at b s)) [
      | inr (m, f) ↦ let h = v.bounded b m f in omega arith
      | inl f ↦
          let b_is : (b ≡ parent) ⊎ (b ≡ s.next) = ground (
            arith,
            get-put parent b parent' (put s.next child s.nodes),
            get-put s.next b child s.nodes,
          ) in
          elim b_is [ inl g ↦ omega (arith, low) | inr g ↦ omega arith ]
    ]

    present : (c : ℕ) → found (node_at c s) ≡ true → found (node_at c after) ≡ true
    present c f =
        ground (
          arith,
          get-put parent c parent' (put s.next child s.nodes),
          get-put s.next c child s.nodes,
        )

    closed :
        {b : ℕ} {p : Text} (c : ℕ)
        → Edge s b p c ⊎ ((parent ≡ b) × (base ≡ p) × (c ≡ s.next))
        → found (node_at c after) ≡ true
    closed c (inl x) = present c (v.closed _ c _ x)
    closed c (inr (_, _, e)) = ground (
      arith,
      low,
      get-put parent c parent' (put s.next child s.nodes),
      get-put s.next c child s.nodes,
    )

    top :
        (r : MemNode) × (node_at s.root s ≡ some r) × (r.is_dir ≡ true)
        → (r : MemNode) × (node_at s.root after ≡ some r) × (r.is_dir ≡ true)
    top (r, there, is_dir) =
        let rl = v.bounded s.root r there in
        elim (ℕ_discrete parent s.root) [
          | yes e ↦ (
            parent',
            ground (arith, get-put parent s.root parent' (put s.next child s.nodes)),
            ground (arith, at, there),
          )
          | no e ↦ (
            r,
            ground (
              arith,
              get-put parent s.root parent' (put s.next child s.nodes),
              get-put s.next s.root child s.nodes,
            ),
            is_dir,
          )
        ]

    orphan :
        {b : ℕ} {p : Text} → Edge s b p s.root ⊎ ((parent ≡ b) × (base ≡ p) × (s.root ≡ s.next)) → ⊥
    orphan (inl x) = v.orphan _ _ x
    orphan (inr (_, _, e)) =
        let (r, there, _) = v.top in let h = v.bounded s.root r there in omega arith

    not_next : {b : ℕ} {p : Text} (c : ℕ) → Edge s b p c → c ≢ s.next
    not_next c x e = let f = v.closed _ c _ x in ground (arith, unused, f)

    owner :
        (b b' c : ℕ) (p q : Text)
        → Edge s b p c ⊎ ((parent ≡ b) × (base ≡ p) × (c ≡ s.next))
        → Edge s b' q c ⊎ ((parent ≡ b') × (base ≡ q) × (c ≡ s.next))
        → (b ≡ b') × (p ≡ q)
    owner b b' c p q (inl x) (inl y) = v.owner b b' c p q x y
    owner b b' c p q (inl x) (inr (_, _, e)) = absurd (not_next c x e)
    owner b b' c p q (inr (_, _, e)) (inl y) = absurd (not_next c y e)
    owner b b' c p q (inr (f, g, _)) (inr (f', g', _)) = (sym f ∙ f', sym g ∙ g')
