-- ===== src/Vfs/Dirs.antt =====
-- internal/vfs/memfs.go: what removals leave.
use mathlib.Core.List.{reverse_aux}
use kaggen.Base.{
  ℕ, ◌+◌, ◌≡◌, refl, sym, ap, ◌∙◌, inl, inr, true, some, List, [], ◌∷◌, arith, ℕ_discrete,
  Option-cases, length, Text, text_key, nat_key, get, del, get-put, get-del,
}
use kaggen.Vfs.Tree.{
  Reaches, here, down, Reaches-unique, IsValid, walk-step, walk-Reaches, walk-append,
}
use kaggen.Vfs.Paths.Clean.{clean-clean}
use kaggen.Vfs.Files.{Place, lookup_parent-Place, lookup_lem}
use kaggen.Vfs.Paths.{clean}
use kaggen.Vfs.{
  MemNode, MemFs, Result, ok, err, not_exist, walk, node_at, lookup, lookup_parent, drop_child,
  remove, parts,
}

length-reverse_aux : (ps qs : List Text) → length (reverse_aux ps qs) ≡ length ps + length qs
length-reverse_aux [] qs = ground arith
length-reverse_aux (p ∷ ps) qs = let h = length-reverse_aux ps (p ∷ qs) in ground arith

-- The way to a directory does not lead through its own entries.
walk-drop_child :
    (parent : ℕ) (n : MemNode) (base : Text) (s : MemFs) (cur : ℕ) (ds qs : List Text)
    → node_at parent s ≡ some n
    → IsValid s
    → Reaches s cur ds
    → walk s.nodes cur qs ≡ ok parent
    → walk (drop_child parent n base s).nodes cur qs ≡ ok parent
unfolding walk
walk-drop_child parent n base s cur ds [] at v r w = w
walk-drop_child parent n base s cur ds (q ∷ qs) at v r w = elim (ℕ_discrete parent cur) [
  | yes e ↦
      let again = walk-Reaches s cur parent ds (q ∷ qs) r w in
      let same = Reaches-unique v again r e in
      let far = length-reverse_aux (q ∷ qs) ds in absurd (ground (arith, same, far))
  | no e ↦
      let (c, k, f, d, m, rest) = walk-step s cur parent q qs w in
      let n' : MemNode = record n { children = del base n.children } in
      let ih =
        walk-drop_child parent n base s c (q ∷ ds) qs at v
          (down r (record { node = k; there = f; entry = m })) rest in
      ground (arith, ih, f, d, m, get-put parent cur n' s.nodes)
]

walk-gone :
    (parent : ℕ) (n : MemNode) (base : Text) (s : MemFs)
    → node_at parent s ≡ some n
    → n.is_dir ≡ true
    → walk (drop_child parent n base s).nodes parent (base ∷ []) ≡ err not_exist
unfolding walk
walk-gone parent n base s at d =
    let n' : MemNode = record n { children = del base n.children } in
    ground (arith, get-put parent parent n' s.nodes, get-del base base n.children)

lookup-drop_child :
    (name : Text) (s : MemFs) (parent : ℕ) (n : MemNode) (base : Text)
    → IsValid s
    → Place name s parent n base
    → lookup name (drop_child parent n base s) ≡ err not_exist
lookup-drop_child name s parent n base v p =
    let after = drop_child parent n base s in
    let reached = walk-drop_child parent n base s s.root [] p.dir p.there v here p.reached in
    lookup_lem name after
    ∙ ap (walk after.nodes s.root) p.path
    ∙ walk-append after.nodes s.root parent p.dir (base ∷ []) reached
    ∙ walk-gone parent n base s p.there p.is_dir

lookup-clean : (name : Text) (s : MemFs) → lookup (clean name) s ≡ lookup name s
unfolding lookup
lookup-clean name s = ap (λ x. walk s.nodes s.root (parts x)) (clean-clean name)

gone :
    (name : Text) (s s' : MemFs) (parent : ℕ) (n : MemNode) (base : Text)
    → IsValid s
    → lookup_parent (clean name) s ≡ ok (parent, n, base)
    → s' ≡ drop_child parent n base s
    → lookup name s' ≡ err not_exist
gone name s s' parent n base v e same =
    let place = lookup_parent-Place (clean name) s parent n base e in
    let there = lookup-drop_child (clean name) s parent n base v place in
    rw same (sym (lookup-clean name (drop_child parent n base s)) ∙ there)

remove-inv :
    (name : Text) (s s' : MemFs) (r : Result (ℕ × MemNode × Text))
    → lookup_parent (clean name) s ≡ r
    → remove name s ≡ ok s'
    → (parent : ℕ) × (n : MemNode) × (base : Text) × (r ≡ ok (parent, n, base))
      × (s' ≡ drop_child parent n base s)
unfolding remove
remove-inv name s s' (err x) e h = absurd (ground (arith, e))
remove-inv name s s' (ok (parent, n, base)) e h = elim (Option-cases (get base n.children)) [
  | inl f ↦ absurd (ground (arith, e, f))
  | inr (a, f) ↦ elim (Option-cases (node_at a s)) [
    | inl g ↦ absurd (ground (arith, e, f, g))
    | inr (c, g) ↦ (parent, n, base, refl, ground (arith, e, f, g))
  ]
]

-- In a valid store, after `Remove` succeeded, the path is not found any more.
pub lookup-remove :
    (name : Text) (s s' : MemFs)
    → IsValid s
    → remove name s ≡ ok s'
    → lookup name s' ≡ err not_exist
lookup-remove name s s' v h =
    let (parent, n, base, e, same) = remove-inv name s s' (lookup_parent (clean name) s) refl h in
    gone name s s' parent n base v e same
