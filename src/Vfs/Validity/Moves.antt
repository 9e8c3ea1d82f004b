-- ===== src/Vfs/Validity/Moves.antt =====
-- internal/vfs/memfs.go: `Rename` keeps the store valid.
use kaggen.Base.{
  ℕ, ◌<◌, ◌≡◌, refl, sym, ap, ◌∙◌, ◌≢◌, ◌⊎◌, inl, inr, true, some, arith, ℕ_discrete, Option-cases,
  found, Text, text_discrete, text_key, nat_key, get, put, del, get-put, get-del,
}
use kaggen.Vfs.Tree.{Edge, IsValid}
use kaggen.Vfs.Validity.{set_node-Edge, set_node-IsValid, drop_child-IsValid}
use kaggen.Vfs.Validity.Operations.{Keeps}
use kaggen.Vfs.Files.{lookup_parent-Place}
use kaggen.Vfs.{
  MemNode, MemFs, Result, ok, err, node_at, lookup_parent, set_node, drop_child, rename, dangling,
  not_exist,
}

-- Entering a node that nothing leads to.
enter-IsValid :
    (parent : ℕ) (n : MemNode) (base : Text) (a : ℕ) (s : MemFs)
    → node_at parent s ≡ some n
    → found (node_at a s) ≡ true
    → a ≢ s.root
    → ((b : ℕ) (p : Text) → Edge s b p a → ⊥)
    → IsValid s
    → IsValid (set_node parent (record n { children = put base a n.children }) s)
enter-IsValid parent n base a s at there not_root alone v = record {
  bounded = λ b k e. bounded b k e;
  closed = λ b c p x. closed c (edge b p c x);
  top = top v.top;
  orphan = λ b p x. orphan (edge b p s.root x);
  owner = λ b b' c p q x y. owner b b' c p q (edge b p c x) (edge b' q c y);
}
  where
    parent' : MemNode
    parent' = record n { children = put base a n.children }

    edge :
        (b : ℕ) (p : Text) (c : ℕ)
        → Edge (set_node parent parent' s) b p c
        → Edge s b p c ⊎ ((parent ≡ b) × (base ≡ p) × (c ≡ a))
    edge b p c x = elim (set_node-Edge parent parent' s b p c x) [
      | inl (y, _) ↦ inl y
      | inr (e, y) ↦
          let new = get-put base p a n.children in
          elim (text_discrete base p) [
            | yes f ↦ inr (e, f, ground (arith, new, y))
            | no f ↦
                inl (record { node = n; there = rw (← e) at; entry = ground (arith, new, y, f) })
          ]
    ]

    bounded : (b : ℕ) (k : MemNode) → node_at b (set_node parent parent' s) ≡ some k → b < s.next
    bounded b k e = elim (ℕ_discrete parent b) [
      | yes same ↦ rw (← same) (v.bounded parent n at)
      | no other ↦ v.bounded b k (ground (arith, get-put parent b parent' s.nodes))
    ]

    present :
        (c : ℕ) → found (node_at c s) ≡ true → found (node_at c (set_node parent parent' s)) ≡ true
    present c f = ground (arith, get-put parent c parent' s.nodes)

    closed :
        {b : ℕ} {p : Text} (c : ℕ)
        → Edge s b p c ⊎ ((parent ≡ b) × (base ≡ p) × (c ≡ a))
        → found (node_at c (set_node parent parent' s)) ≡ true
    closed c (inl x) = present c (v.closed _ c _ x)
    closed c (inr (_, _, e)) = rw e (present a there)

    top :
        (r : MemNode) × (node_at s.root s ≡ some r) × (r.is_dir ≡ true)
        → (r : MemNode) × (node_at s.root (set_node parent parent' s) ≡ some r) × (r.is_dir ≡ true)
    top (r, root, is_dir) = elim (ℕ_discrete parent s.root) [
      | yes e ↦
          (parent', ground (arith, get-put parent s.root parent' s.nodes), ground (arith, at, root))
      | no e ↦ (r, ground (arith, get-put parent s.root parent' s.nodes), is_dir)
    ]

    orphan : {b : ℕ} {p : Text} → Edge s b p s.root ⊎ ((parent ≡ b) × (base ≡ p) × (s.root ≡ a)) → ⊥
    orphan (inl x) = v.orphan _ _ x
    orphan (inr (_, _, e)) = not_root (sym e)

    owner :
        (b b' c : ℕ) (p q : Text)
        → Edge s b p c ⊎ ((parent ≡ b) × (base ≡ p) × (c ≡ a))
        → Edge s b' q c ⊎ ((parent ≡ b') × (base ≡ q) × (c ≡ a))
        → (b ≡ b') × (p ≡ q)
    owner b b' c p q (inl x) (inl y) = v.owner b b' c p q x y
    owner b b' c p q (inl x) (inr (_, _, e)) = absurd (alone b p (rw e at x))
    owner b b' c p q (inr (_, _, e)) (inl y) = absurd (alone b' q (rw e at y))
    owner b b' c p q (inr (f, g, _)) (inr (f', g', _)) = (sym f ∙ f', sym g ∙ g')

-- Nothing leads to a node whose entry is dropped, whatever its node is put to.
moved-alone :
    (parent : ℕ) (n : MemNode) (base : Text) (a : ℕ) (k k' : MemNode) (s : MemFs)
    → node_at parent s ≡ some n
    → get base n.children ≡ some a
    → node_at a (drop_child parent n base s) ≡ some k
    → k'.children ≡ k.children
    → IsValid s
    → (b : ℕ) (p : Text) → Edge (set_node a k' (drop_child parent n base s)) b p a
    → ⊥
moved-alone parent n base a k k' s at entry there same v b p x =
    let n' : MemNode = record n { children = del base n.children } in
    let s1 = drop_child parent n base s in
    let in_s1 : Edge s1 b p a = elim (set_node-Edge a k' s1 b p a x) [
      | inl (y, _) ↦ y
      | inr (e, y) ↦ record {
        node = k;
        there = rw (← e) there;
        entry = ap (λ m. get p m) (sym same) ∙ y;
      }
    ] in
    let gone = get-del base p n.children in
    elim (set_node-Edge parent n' s b p a in_s1) [
      | inl (y, e) ↦
          e (v.owner parent b a base p (record { node = n; there = at; entry = entry }) y).0
      | inr (e, y) ↦ elim (text_discrete base p) [
        | yes f ↦ ground (arith, gone, y, f)
        | no f ↦
            f
              (v.owner parent b a base p (record { node = n; there = at; entry = entry })
                (record { node = n; there = rw (← e) at; entry = ground (arith, gone, y, f) })).1
      ]
    ]

pub rename-Keeps :
    (old_path new_path : Text) (s : MemFs) → IsValid s → Keeps (rename old_path new_path s)
unfolding rename
rename-Keeps old_path new_path s v = go (lookup_parent old_path s) refl
  where
    finish :
        (old_parent a new_parent : ℕ) (m n : MemNode) (old_base new_base : Text)
        → lookup_parent old_path s ≡ ok (old_parent, m, old_base)
        → get old_base m.children ≡ some a
        → lookup_parent new_path s ≡ ok (new_parent, n, new_base)
        → Keeps (rename old_path new_path s)
    finish old_parent a new_parent m n old_base new_base e f g =
        let at = (lookup_parent-Place old_path s old_parent m old_base e).there in
        let s1 = drop_child old_parent m old_base s in
        let v1 = drop_child-IsValid old_parent m old_base s at v in
        elim (Option-cases (node_at a s1)) [
          | inl h ↦
              let lost : rename old_path new_path s ≡ err dangling = ground (arith, e, f, g, h) in
              rw lost tt
          | inr (k, h) ↦
              let k' : MemNode = record k { name = new_base } in
              let s2 = set_node a k' s1 in
              let v2 = set_node-IsValid a k k' s1 h refl (λ p c x. x) v1 in
              elim (Option-cases (node_at new_parent s2)) [
                | inl i ↦
                    let lost : rename old_path new_path s ≡ err dangling =
                      ground (arith, e, f, g, h, i) in
                    rw lost tt
                | inr (t, i) ↦
                    let t' : MemNode = record t { children = put new_base a t.children } in
                    let done : rename old_path new_path s ≡ ok (set_node new_parent t' s2) =
                      ground (arith, e, f, g, h, i) in
                    let here : Edge s old_parent old_base a = record {
                      node = m;
                      there = at;
                      entry = f;
                    } in
                    let not_root : a ≢ s.root = λ x. v.orphan old_parent old_base (rw x at here) in
                    rw done (
                      enter-IsValid new_parent t new_base a s2 i
                        (ground (arith, get-put a a k' s1.nodes)) not_root
                        (moved-alone old_parent m old_base a k k' s at f h refl v) v2)
              ]
        ]

    inner :
        (old_parent a : ℕ) (m : MemNode) (old_base : Text)
        → lookup_parent old_path s ≡ ok (old_parent, m, old_base)
        → get old_base m.children ≡ some a
        → (r : Result (ℕ × MemNode × Text)) → lookup_parent new_path s ≡ r
        → Keeps (rename old_path new_path s)
    inner old_parent a m old_base e f (err x) g =
        let no_dir : rename old_path new_path s ≡ err x = ground (arith, e, f, g) in rw no_dir tt
    inner old_parent a m old_base e f (ok (new_parent, n, new_base)) g =
        finish old_parent a new_parent m n old_base new_base e f g

    go :
        (r : Result (ℕ × MemNode × Text))
        → lookup_parent old_path s ≡ r
        → Keeps (rename old_path new_path s)
    go (err x) e =
        let no_dir : rename old_path new_path s ≡ err x = ground (arith, e) in rw no_dir tt
    go (ok (old_parent, m, old_base)) e = elim (Option-cases (get old_base m.children)) [
      | inl f ↦
          let none_there : rename old_path new_path s ≡ err not_exist = ground (arith, e, f) in
          rw none_there tt
      | inr (a, f) ↦ inner old_parent a m old_base e f (lookup_parent new_path s) refl
    ]
