-- ===== src/Vfs/Making.antt =====
-- internal/vfs/memfs.go, `MkdirAll`: what it makes, and what it leaves.
use kaggen.Base.{
  ℕ, ◌≡◌, refl, sym, ap, ◌∙◌, inl, inr, true, none, some, List, [], ◌∷◌, arith, ℕ_discrete,
  Bool-cases, Option-cases, Text, text_key, nat_key, get, put, get-put,
}
use kaggen.Vfs.Tree.{IsValid, walk-add_child, walk-append}
use kaggen.Vfs.Files.{fresh_node, lookup_lem, walk-new_child, walk-old_child, parts-clean}
use kaggen.Vfs.Validity.{add_child-IsValid}
use kaggen.Vfs.Paths.{clean}
use kaggen.Vfs.Paths.Clean.{clean_list}
use kaggen.Vfs.{
  MemNode, MemFs, ok, FileInfo, file_info, node_at, walk, parts, lookup, stat, new_dir, add_child,
  mkdir_parts, mkdir_all,
}

module _ (perm now : ℕ) where
  -- The two ways in which the loop goes on at a name: a new directory, or one that is there.
  data Step (cur : ℕ) (p : Text) (ps : List Text) (s s' : MemFs) : Type 0 where
    made :
        (n : MemNode)
        → node_at cur s ≡ some n
        → get p n.children ≡ none
        → mkdir_parts s.next ps perm now (add_child cur n p (new_dir p perm now) s) ≡ ok s'
        → Step cur p ps s s'
    entered :
        (n child : MemNode) (a : ℕ)
        → node_at cur s ≡ some n
        → get p n.children ≡ some a
        → node_at a s ≡ some child
        → child.is_dir ≡ true
        → mkdir_parts a ps perm now s ≡ ok s'
        → Step cur p ps s s'

  mkdir_parts-Step :
      (cur : ℕ) (p : Text) (ps : List Text) (s s' : MemFs)
      → mkdir_parts cur (p ∷ ps) perm now s ≡ ok s'
      → Step cur p ps s s'
  unfolding mkdir_parts
  mkdir_parts-Step cur p ps s s' h = elim (Option-cases (get cur s.nodes)) [
    | inl e ↦ absurd (ground (arith, e))
    | inr (n, e) ↦ elim (Option-cases (get p n.children)) [
      | inl f ↦ made n e f (ground (arith, e, f))
      | inr (a, f) ↦ elim (Option-cases (get a s.nodes)) [
        | inl g ↦ absurd (ground (arith, e, f, g))
        | inr (child, g) ↦ elim (Bool-cases child.is_dir) [
          | inl d ↦ entered n child a e f g d (ground (arith, e, f, g, d))
          | inr d ↦ absurd (ground (arith, e, f, g, d))
        ]
      ]
    ]
  ]

  -- What was reached is reached still.
  mkdir_parts-walk :
      (cur : ℕ) (ps : List Text) (s s' : MemFs) (from a : ℕ) (qs : List Text)
      → IsValid s
      → mkdir_parts cur ps perm now s ≡ ok s'
      → walk s.nodes from qs ≡ ok a
      → walk s'.nodes from qs ≡ ok a
  unfolding mkdir_parts
  mkdir_parts-walk cur [] s s' from a qs v h w = let same : s ≡ s' = ground arith in rw same at w
  mkdir_parts-walk cur (p ∷ ps) s s' from a qs v h w = elim (mkdir_parts-Step cur p ps s s' h) [
    | made n e f r ↦
        mkdir_parts-walk s.next ps _ s' from a qs (add_child-IsValid cur n p _ s e refl v) r
          (walk-add_child cur n p (new_dir p perm now) s from a qs e f (fresh_node s v) w)
    | entered n child b e f g d r ↦ mkdir_parts-walk b ps s s' from a qs v r w
  ]

  abbrev IsDirAt : ℕ → MemFs → Type 0
  IsDirAt a s = (n : MemNode) × (node_at a s ≡ some n) × (n.is_dir ≡ true)

  add_child-IsDirAt :
      (cur : ℕ) (n : MemNode) (p : Text) (child : MemNode) (s : MemFs) (a : ℕ)
      → node_at cur s ≡ some n
      → node_at s.next s ≡ none
      → IsDirAt a s
      → IsDirAt a (add_child cur n p child s)
  add_child-IsDirAt cur n p child s a e fresh (m, there, d) =
      let n' : MemNode = record n { children = put p s.next n.children } in
      let outer = get-put cur a n' (put s.next child s.nodes) in
      let inner = get-put s.next a child s.nodes in
      elim (ℕ_discrete cur a) [
        | yes q ↦ (n', ground (arith, outer, q), ground (arith, e, there, q, d))
        | no q ↦ (m, ground (arith, outer, inner, q, there, fresh), d)
      ]

  mkdir_parts-IsDirAt :
      (cur : ℕ) (ps : List Text) (s s' : MemFs) (a : ℕ)
      → IsValid s
      → mkdir_parts cur ps perm now s ≡ ok s'
      → IsDirAt a s
      → IsDirAt a s'
  unfolding mkdir_parts
  mkdir_parts-IsDirAt cur [] s s' a v h d = let same : s ≡ s' = ground arith in rw same at d
  mkdir_parts-IsDirAt cur (p ∷ ps) s s' a v h d = elim (mkdir_parts-Step cur p ps s s' h) [
    | made n e f r ↦
        mkdir_parts-IsDirAt s.next ps _ s' a (add_child-IsValid cur n p _ s e refl v) r
          (add_child-IsDirAt cur n p _ s a e (fresh_node s v) d)
    | entered n child b e f g k r ↦ mkdir_parts-IsDirAt b ps s s' a v r d
  ]

  mkdir_parts-made :
      (cur : ℕ) (ps : List Text) (s s' : MemFs)
      → IsValid s
      → IsDirAt cur s
      → mkdir_parts cur ps perm now s ≡ ok s'
      → (a : ℕ) × (walk s'.nodes cur ps ≡ ok a) × IsDirAt a s'
  unfolding mkdir_parts walk
  mkdir_parts-made cur [] s s' v d h = let same : s ≡ s' = ground arith in (cur, refl, rw same at d)
  mkdir_parts-made cur (p ∷ ps) s s' v (k₀, at, dir) h = elim (mkdir_parts-Step cur p ps s s' h) [
    | made n e f r ↦
        let new = new_dir p perm now in
        let s1 = add_child cur n p new s in
        let v1 = add_child-IsValid cur n p new s e refl v in
        let is_dir : n.is_dir ≡ true = ground (arith, at, dir, e) in
        let there : node_at s.next s1 ≡ some new = ground (
          arith,
          v.bounded cur n e,
          get-put cur s.next (record n { children = put p s.next n.children })
              (put s.next new s.nodes),
          get-put s.next s.next new s.nodes,
        ) in
        let (a, w, k) = mkdir_parts-made s.next ps s1 s' v1 (new, there, refl) r in
        let first =
          mkdir_parts-walk s.next ps s1 s' cur s.next (p ∷ []) v1 r
            (walk-new_child cur n p new s is_dir) in
        (a, walk-append s'.nodes cur s.next (p ∷ []) ps first ∙ w, k)
    | entered n child b e f g k r ↦
        let is_dir : n.is_dir ≡ true = ground (arith, at, dir, e) in
        let (a, w, m) = mkdir_parts-made b ps s s' v (child, g, k) r in
        let first =
          mkdir_parts-walk b ps s s' cur b (p ∷ []) v r
            (walk-old_child cur n p b s.nodes e is_dir f) in
        (a, walk-append s'.nodes cur b (p ∷ []) ps first ∙ w, m)
  ]

  mkdir_parts-root :
      (cur : ℕ) (ps : List Text) (s s' : MemFs)
      → mkdir_parts cur ps perm now s ≡ ok s'
      → s'.root ≡ s.root
  unfolding mkdir_parts
  mkdir_parts-root cur [] s s' h = ground arith
  mkdir_parts-root cur (p ∷ ps) s s' h = elim (mkdir_parts-Step cur p ps s s' h) [
    | made n e f r ↦ mkdir_parts-root s.next ps _ s' r
    | entered n child b e f g k r ↦ mkdir_parts-root b ps s s' r
  ]

stat-dir :
    (name : Text) (s : MemFs) (a : ℕ) (n : MemNode)
    → walk s.nodes s.root (clean_list name) ≡ ok a
    → node_at a s ≡ some n
    → stat name s ≡ ok (file_info n)
unfolding stat
stat-dir name s a n w there = rw (lookup_lem name s, w, there) refl

-- In a valid store, after `MkdirAll` succeeded the path names a directory, and every path that was
-- found before still leads to the node that it led to.
pub stat-mkdir_all :
    (name other : Text) (perm now a : ℕ) (s s' : MemFs)
    → IsValid s
    → lookup other s ≡ ok a
    → mkdir_all name perm now s ≡ ok s'
    → (info : FileInfo) × (stat name s' ≡ ok info) × (info.is_dir ≡ true) × (lookup other s' ≡ ok a)
unfolding mkdir_all
stat-mkdir_all name other perm now a s s' v w h =
    let cleaned : parts (clean name) ≡ clean_list name = parts-clean name in
    let h' = rw cleaned at h in
    let (root_node, top, is_dir) = v.top in
    let (b, there, (n, at, dir)) =
      mkdir_parts-made perm now s.root (clean_list name) s s' v v.top h' in
    let root_same : s'.root ≡ s.root = mkdir_parts-root perm now s.root (clean_list name) s s' h' in
    (
      file_info n,
      stat-dir name s' b n (ap (λ r. walk s'.nodes r (clean_list name)) root_same ∙ there) at,
      dir,
      lookup_lem other s'
          ∙ rw root_same (
              mkdir_parts-walk perm now s.root (clean_list name) s s' s.root a (clean_list other) v
                h' (sym (lookup_lem other s) ∙ w)),
    )
