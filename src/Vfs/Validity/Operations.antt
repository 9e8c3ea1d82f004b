-- ===== src/Vfs/Validity/Operations.antt =====
-- internal/vfs/memfs.go: every operation keeps the store valid.
use kaggen.Base.{
  ℕ, ◌<◌, ◌≡◌, refl, ◌≢◌, inl, inr, ◌&&◌, Option, none, some, List, [], ◌∷◌, arith, ℕ_discrete,
  Bool-cases, Option-cases, Text, text_discrete, text_key, nat_key, get, get-put,
}
use kaggen.Vfs.Tree.{Edge, IsValid}
use kaggen.Vfs.Validity.{set_node-IsValid, drop_child-IsValid, add_child-IsValid}
use kaggen.Vfs.Files.{lookup_parent-Place}
use kaggen.Vfs.Paths.{clean}
use kaggen.Vfs.{
  MemNode, MemFs, Result, ok, err, new_mem_fs, new_dir, node_at, lookup_parent, set_node, add_child,
  drop_child, permission, dangling, not_empty, not_exist, write_in, write_file, mkdir_parts,
  mkdir_all, remove, remove_all, has_children, parts, clean,
}

-- What an operation leaves: a valid store, or a refusal.
abbrev pub Keeps : Result MemFs → Type 0
Keeps (ok s) = IsValid s
Keeps (err e) = Unit

-- A new store is valid.
pub new_mem_fs-IsValid : (now : ℕ) → IsValid (new_mem_fs now)
unfolding new_mem_fs get
new_mem_fs-IsValid now = record {
  bounded = λ a n e. below a n e;
  closed = λ a c p x. absurd (none_yet a c p x);
  top = (new_dir [] 493 now, ground (arith, get-put {K = ℕ} 0 0 (new_dir [] 493 now) []), refl);
  orphan = λ a p x. none_yet a 0 p x;
  owner = λ a b c p q x y. absurd (none_yet a c p x);
}
  where
    below : (a : ℕ) (n : MemNode) → node_at a (new_mem_fs now) ≡ some n → a < 1
    below a n e =
        let new = get-put 0 a (new_dir [] 493 now) [] in
        elim (ℕ_discrete a 0) [ yes z ↦ omega arith | no z ↦ absurd (ground (arith, new, z)) ]

    none_yet : (a c : ℕ) (p : Text) → Edge (new_mem_fs now) a p c → ⊥
    none_yet a c p x =
        let there = x.there in
        let new = get-put 0 a (new_dir [] 493 now) [] in
        elim (ℕ_discrete a 0) [
          | yes z ↦
              let same : x.node ≡ new_dir [] 493 now = ground (arith, there, new, z) in
              let e : get p [] ≡ some c = rw same at x.entry in absurd (ground (arith, e))
          | no z ↦ absurd (ground (arith, there, new, z))
        ]

pub write_in-Keeps :
    (parent : ℕ) (n : MemNode) (base : Text) (data' : List ℕ) (perm now : ℕ) (s : MemFs)
    → node_at parent s ≡ some n
    → IsValid s
    → Keeps (write_in parent n base data' perm now s)
unfolding write_in
write_in-Keeps parent n base data' perm now s at v = elim (Option-cases (get base n.children)) [
  | inl e ↦ rw (write_in, e) (add_child-IsValid parent n base _ s at refl v)
  | inr (a, f) ↦ elim (Option-cases (node_at a s)) [
    | inl e ↦ rw (write_in, f, e) tt
    | inr (old, e) ↦ elim (Bool-cases old.is_dir) [
      | inl d ↦ rw (write_in, f, e, d) tt
      | inr d ↦
          let new : MemNode = record old { contents = data'; mod_time = now; mode = perm } in
          let done : write_in parent n base data' perm now s ≡ ok (set_node a new s) =
            ground (arith, f, e, d) in
          rw done (set_node-IsValid a old new s e refl (λ p c x. x) v)
    ]
  ]
]

pub mkdir_parts-Keeps :
    (cur : ℕ) (ps : List Text) (perm now : ℕ) (s : MemFs)
    → IsValid s
    → Keeps (mkdir_parts cur ps perm now s)
unfolding mkdir_parts
mkdir_parts-Keeps cur [] perm now s v = v
mkdir_parts-Keeps cur (p ∷ ps) perm now s v = elim (Option-cases (get cur s.nodes)) [
  | inl e ↦ rw (mkdir_parts, e) tt
  | inr (n, e) ↦ elim (Option-cases (get p n.children)) [
    | inl f ↦
        rw (mkdir_parts, e, f)
          (mkdir_parts-Keeps s.next ps perm now (add_child cur n p (new_dir p perm now) s)
            (add_child-IsValid cur n p (new_dir p perm now) s e refl v))
    | inr (a, f) ↦ elim (Option-cases (get a s.nodes)) [
      | inl g ↦ rw (mkdir_parts, e, f, g) tt
      | inr (child, g) ↦ elim (Bool-cases child.is_dir) [
        | inl d ↦ rw (mkdir_parts, e, f, g, d) (mkdir_parts-Keeps a ps perm now s v)
        | inr d ↦ rw (mkdir_parts, e, f, g, d) tt
      ]
    ]
  ]
]

pub write_file-Keeps :
    (name : Text) (data' : List ℕ) (perm now : ℕ) (s : MemFs)
    → IsValid s
    → Keeps (write_file name data' perm now s)
unfolding write_file
write_file-Keeps name data' perm now s v = go (lookup_parent name s) refl
  where
    go :
        (r : Result (ℕ × MemNode × Text))
        → lookup_parent name s ≡ r
        → Keeps (write_file name data' perm now s)
    go (err x) e = rw (write_file, e) tt
    go (ok (parent, n, base)) e =
        rw (write_file, e)
          (write_in-Keeps parent n base data' perm now s
            (lookup_parent-Place name s parent n base e).there v)

pub mkdir_all-Keeps :
    (name : Text) (perm now : ℕ) (s : MemFs) → IsValid s → Keeps (mkdir_all name perm now s)
unfolding mkdir_all
mkdir_all-Keeps name perm now s v = mkdir_parts-Keeps s.root (parts (clean name)) perm now s v

pub remove-Keeps : (name : Text) (s : MemFs) → IsValid s → Keeps (remove name s)
unfolding remove
remove-Keeps name s v = elim (text_discrete (clean name) []) [
  | yes e ↦ let no_root : remove name s ≡ err permission = ground (arith, e) in rw no_root tt
  | no e ↦ go e (lookup_parent (clean name) s) refl
]
  where
    child :
        (parent a : ℕ) (n : MemNode) (base : Text)
        → clean name ≢ []
        → lookup_parent (clean name) s ≡ ok (parent, n, base)
        → get base n.children ≡ some a
        → (o : Option MemNode) → node_at a s ≡ o
        → Keeps (remove name s)
    child parent a n base e f g none h =
        let gone : remove name s ≡ err dangling = ground (arith, e, f, g, h) in rw gone tt
    child parent a n base e f g (some c) h = elim (Bool-cases (c.is_dir && has_children c)) [
      | inl d ↦
          let full : remove name s ≡ err not_empty = ground (arith, e, f, g, h, d) in rw full tt
      | inr d ↦
          let done : remove name s ≡ ok (drop_child parent n base s) =
            ground (arith, e, f, g, h, d) in
          rw done (
            drop_child-IsValid parent n base s
              (lookup_parent-Place (clean name) s parent n base f).there v)
    ]

    go :
        clean name ≢ []
        → (r : Result (ℕ × MemNode × Text)) → lookup_parent (clean name) s ≡ r
        → Keeps (remove name s)
    go e (err x) f = let no_dir : remove name s ≡ err x = ground (arith, e, f) in rw no_dir tt
    go e (ok (parent, n, base)) f = elim (Option-cases (get base n.children)) [
      | inl g ↦
          let none_there : remove name s ≡ err not_exist = ground (arith, e, f, g) in
          rw none_there tt
      | inr (a, g) ↦ child parent a n base e f g (node_at a s) refl
    ]

pub remove_all-Keeps : (name : Text) (s : MemFs) → IsValid s → Keeps (remove_all name s)
unfolding remove_all
remove_all-Keeps name s v = elim (text_discrete (clean name) []) [
  | yes e ↦ let no_root : remove_all name s ≡ err permission = ground (arith, e) in rw no_root tt
  | no e ↦ go e (lookup_parent (clean name) s) refl
]
  where
    go :
        clean name ≢ []
        → (r : Result (ℕ × MemNode × Text)) → lookup_parent (clean name) s ≡ r
        → Keeps (remove_all name s)
    go e (err x) f = let same : remove_all name s ≡ ok s = ground (arith, e, f) in rw same v
    go e (ok (parent, n, base)) f = elim (Option-cases (get base n.children)) [
      | inl g ↦ let same : remove_all name s ≡ ok s = ground (arith, e, f, g) in rw same v
      | inr (a, g) ↦
          let done : remove_all name s ≡ ok (drop_child parent n base s) =
            ground (arith, e, f, g) in
          rw done (
            drop_child-IsValid parent n base s
              (lookup_parent-Place (clean name) s parent n base f).there v)
    ]
