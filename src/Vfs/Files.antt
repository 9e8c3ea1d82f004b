-- ===== src/Vfs/Files.antt =====
-- internal/vfs/memfs.go: what a path names, and what is read there.
use kaggen.Base.{
  ℕ, ◌<◌, ◌≡◌, refl, sym, ap, ◌∙◌, inl, inr, true, false, Option, none, some, List, [], ◌∷◌, ◌++◌,
  arith, if◌then◌else◌, Option-cases, All, Text, text_discrete, text_key, nat_key, Map, get, put,
  get-put,
}
use kaggen.Vfs.Paths.{join_slash, clean, split, without_last, last_part}
use kaggen.Vfs.Paths.Clean.{
  IsPlain, clean_list, clean-IsPlain, split_slash-join_slash, join_slash-nonempty,
  without_last-append, without_last-All, clean-join_slash, split-join_slash, clean_lem,
  IsPlain-whole,
}
use kaggen.Vfs.Tree.{IsValid}
use kaggen.Vfs.{
  MemNode, MemFs, Result, ok, err, ◌>>=◌, or_fault, invalid, dangling, not_a_directory, node_at,
  walk, parts, lookup, lookup_parent, read_file, add_child,
}

parts-join_slash : (ps : List Text) → All IsPlain ps → parts (join_slash ps) ≡ ps
unfolding text_discrete join_slash
parts-join_slash [] a = refl
parts-join_slash (p ∷ ps) a =
    let full = join_slash-nonempty p ps a.0.nonempty in
    elim (text_discrete (join_slash (p ∷ ps)) []) [
      | yes e ↦ absurd (full e)
      | no e ↦ ground (arith, e, split_slash-join_slash p ps (IsPlain-whole (p ∷ ps) a))
    ]

pub parts-clean : (name : Text) → parts (clean name) ≡ clean_list name
parts-clean name =
    ap parts (clean_lem name) ∙ parts-join_slash (clean_list name) (clean-IsPlain name)

-- `lookup` walks along the names of the cleaned path.
pub lookup_lem : (name : Text) (s : MemFs) → lookup name s ≡ walk s.nodes s.root (clean_list name)
unfolding lookup
lookup_lem name s = ap (walk s.nodes s.root) (parts-clean name)

lookup-join_slash :
    (ps : List Text) (s : MemFs)
    → All IsPlain ps
    → lookup (join_slash ps) s ≡ walk s.nodes s.root ps
unfolding lookup
lookup-join_slash ps s a =
    ap (λ x. walk s.nodes s.root (parts x)) (clean-join_slash ps a)
    ∙ ap (walk s.nodes s.root) (parts-join_slash ps a)

-- A place for a file: the directory at `parent`, reached by the path less its last name.
pub record Place (name : Text) (s : MemFs) (parent : ℕ) (n : MemNode) (base : Text) : Type 0 where
  pub dir : List Text
  pub path : clean_list name ≡ dir ++ (base ∷ [])
  pub reached : walk s.nodes s.root dir ≡ ok parent
  pub there : node_at parent s ≡ some n
  pub is_dir : n.is_dir ≡ true

-- The part of `lookup_parent` behind the test for the empty path.
abbrev find_parent : Text → Text → MemFs → Result (ℕ × MemNode × Text)
find_parent dir base s = do
  parent ← lookup dir s
  n ← or_fault (node_at parent s) dangling
  if n.is_dir then ok (parent, n, base) else err not_a_directory

find_parent-ok :
    (dir base : Text) (s : MemFs) (parent : ℕ) (n : MemNode) (b : Text)
    → find_parent dir base s ≡ ok (parent, n, b)
    → (lookup dir s ≡ ok parent) × (node_at parent s ≡ some n) × (n.is_dir ≡ true) × (base ≡ b)
find_parent-ok dir base s parent n b h = ground arith

lookup_parent-parts :
    (name : Text) (s : MemFs) (p : Text) (ps : List Text)
    → clean_list name ≡ p ∷ ps
    → lookup_parent name s ≡ find_parent (join_slash (without_last (p ∷ ps))) (last_part (p ∷ ps)) s
unfolding lookup_parent
lookup_parent-parts name s p ps e =
    let plain : All IsPlain (p ∷ ps) = rw e at (clean-IsPlain name) in
    let cleaned : clean name ≡ join_slash (p ∷ ps) = clean_lem name ∙ ap join_slash e in
    let full = join_slash-nonempty p ps plain.0.nonempty in
    let divided = ap split cleaned ∙ split-join_slash p ps plain in
    rw divided (elim (text_discrete (clean name) []) [
      | yes z ↦ absurd (full (sym cleaned ∙ z))
      | no z ↦ ground (arith, z)
    ])

lookup_parent-empty :
    (name : Text) (s : MemFs) → clean_list name ≡ [] → lookup_parent name s ≡ err invalid
unfolding lookup_parent join_slash text_discrete
lookup_parent-empty name s e = rw (clean_lem name, e) refl

pub lookup_parent-Place :
    (name : Text) (s : MemFs) (parent : ℕ) (n : MemNode) (base : Text)
    → lookup_parent name s ≡ ok (parent, n, base)
    → Place name s parent n base
lookup_parent-Place name s parent n base h = go (clean_list name) refl
  where
    go : (qs : List Text) → clean_list name ≡ qs → Place name s parent n base
    go [] e = absurd (ground (arith, lookup_parent-empty name s e))
    go (p ∷ ps) e =
        let plain : All IsPlain (p ∷ ps) = rw e at (clean-IsPlain name) in
        let init = without_last (p ∷ ps) in
        let (at, there, is_dir, same) =
          find_parent-ok (join_slash init) (last_part (p ∷ ps)) s parent n base
            (sym (lookup_parent-parts name s p ps e) ∙ h) in
        record {
          dir = init;
          path = e ∙ sym (without_last-append p ps) ∙ ap (λ x. init ++ (x ∷ [])) same;
          reached = sym (lookup-join_slash init s (without_last-All IsPlain (p ∷ ps) plain)) ∙ at;
          there = there;
          is_dir = is_dir;
        }

pub read_file-node :
    (name : Text) (s : MemFs) (a : ℕ) (n : MemNode)
    → walk s.nodes s.root (clean_list name) ≡ ok a
    → node_at a s ≡ some n
    → n.is_dir ≡ false
    → read_file name s ≡ ok n.contents
unfolding read_file
read_file-node name s a n w there file = rw (lookup_lem name s, w, there, file) refl

pub read_file-inv :
    (name : Text) (s : MemFs) (d : List ℕ)
    → read_file name s ≡ ok d
    → (a : ℕ) × (n : MemNode) × (walk s.nodes s.root (clean_list name) ≡ ok a)
      × (node_at a s ≡ some n)
      × (n.is_dir ≡ false)
      × (n.contents ≡ d)
unfolding read_file
read_file-inv name s d h = go (lookup name s) refl
  where
    node :
        (a : ℕ)
        → lookup name s ≡ ok a
        → (o : Option MemNode) → node_at a s ≡ o
        → (a : ℕ) × (n : MemNode) × (walk s.nodes s.root (clean_list name) ≡ ok a)
          × (node_at a s ≡ some n)
          × (n.is_dir ≡ false)
          × (n.contents ≡ d)
    node a e none f = absurd (ground (arith, e, f))
    node a e (some n) f =
        (a, n, sym (lookup_lem name s) ∙ e, f, ground (arith, e, f), ground (arith, e, f))

    go :
        (r : Result ℕ)
        → lookup name s ≡ r
        → (a : ℕ) × (n : MemNode) × (walk s.nodes s.root (clean_list name) ≡ ok a)
          × (node_at a s ≡ some n)
          × (n.is_dir ≡ false)
          × (n.contents ≡ d)
    go (err x) e = absurd (ground (arith, e))
    go (ok a) e = node a e (node_at a s) refl

pub fresh_node : (s : MemFs) → IsValid s → node_at s.next s ≡ none
fresh_node s v = elim (Option-cases (node_at s.next s)) [
  | inl e ↦ e
  | inr (n, e) ↦ let low : s.next < s.next = v.bounded s.next n e in absurd (omega arith)
]

-- The node that a new entry leads to.
pub walk-new_child :
    (parent : ℕ) (n : MemNode) (base : Text) (child : MemNode) (s : MemFs)
    → n.is_dir ≡ true
    → walk (add_child parent n base child s).nodes parent (base ∷ []) ≡ ok s.next
unfolding walk
walk-new_child parent n base child s d =
    let parent' : MemNode = record n { children = put base s.next n.children } in
    ground (
      arith,
      get-put parent parent parent' (put s.next child s.nodes),
      get-put base base s.next n.children,
    )

pub walk-old_child :
    (parent : ℕ) (n : MemNode) (base : Text) (a : ℕ) (nodes : Map ℕ MemNode)
    → get parent nodes ≡ some n
    → n.is_dir ≡ true
    → get base n.children ≡ some a
    → walk nodes parent (base ∷ []) ≡ ok a
unfolding walk
walk-old_child parent n base a nodes h d e = ground arith
