-- ===== src/Vfs/Writing.antt =====
-- internal/vfs/memfs.go, `WriteFile`: what is read after it.
use kaggen.Base.{
  ℕ, ◌<◌, ◌≡◌, refl, ap, ◌∙◌, ◌≢◌, inl, inr, false, none, some, List, [], ◌∷◌, arith, Option-cases,
  Text, text_key, nat_key, get, put, get-put,
}
use kaggen.Vfs.Paths.Clean.{clean_list}
use kaggen.Vfs.Tree.{IsValid, walk_unique, walk-set_node, walk-add_child, walk-append}
use kaggen.Vfs.{
  MemNode, MemFs, Result, ok, err, node_at, walk, lookup_parent, read_file, new_file, set_node,
  add_child, write_in, write_file,
}
use kaggen.Vfs.Files.{
  Place, lookup_parent-Place, read_file-node, read_file-inv, fresh_node, walk-new_child,
  walk-old_child,
}

module _ (name : Text) (perm now : ℕ) (data' : List ℕ) (s : MemFs) (v : IsValid s) where
  -- The two ways in which a write succeeds.
  pub data Written (s' : MemFs) : Type 0 where
    created :
        (parent : ℕ) (n : MemNode) (base : Text)
        → Place name s parent n base
        → get base n.children ≡ none
        → s' ≡ add_child parent n base (new_file base data' perm now) s
        → Written s'
    replaced :
        (parent : ℕ) (n : MemNode) (base : Text) (a : ℕ) (old : MemNode)
        → Place name s parent n base
        → get base n.children ≡ some a
        → node_at a s ≡ some old
        → old.is_dir ≡ false
        → s' ≡ set_node a (record old { contents = data'; mod_time = now; mode = perm }) s
        → Written s'

  write_in-Written :
      (parent : ℕ) (n : MemNode) (base : Text) (s' : MemFs)
      → Place name s parent n base
      → write_in parent n base data' perm now s ≡ ok s'
      → Written s'
  unfolding write_in
  write_in-Written parent n base s' p h = elim (Option-cases (get base n.children)) [
    | inl e ↦ created parent n base p e (ground (arith, e))
    | inr (a, e) ↦ elim (Option-cases (node_at a s)) [
      | inl f ↦ absurd (ground (arith, e, f))
      | inr (old, f) ↦
          replaced parent n base a old p e f (ground (arith, e, f)) (ground (arith, e, f))
    ]
  ]

  pub write_file-Written : (s' : MemFs) → write_file name data' perm now s ≡ ok s' → Written s'
  unfolding write_file
  write_file-Written s' h = go (lookup_parent name s) refl
    where
      go : (r : Result (ℕ × MemNode × Text)) → lookup_parent name s ≡ r → Written s'
      go (err x) e = absurd (ground (arith, e))
      go (ok (parent, n, base)) e =
          write_in-Written parent n base s' (lookup_parent-Place name s parent n base e) (rw e at h)

  read-Written : (s' : MemFs) → Written s' → read_file name s' ≡ ok data'
  read-Written s' (created parent n base p e same) =
      let file = new_file base data' perm now in
      let after = add_child parent n base file s in
      let fresh = fresh_node s v in
      let reached =
        walk-add_child parent n base file s s.root parent p.dir p.there e fresh p.reached in
      let found_it : walk after.nodes s.root (clean_list name) ≡ ok s.next =
        ap (walk after.nodes s.root) p.path
        ∙ walk-append after.nodes s.root parent p.dir (base ∷ []) reached
        ∙ walk-new_child parent n base file s p.is_dir in
      let low : parent < s.next = v.bounded parent n p.there in
      let parent' : MemNode = record n { children = put base s.next n.children } in
      let there : node_at s.next after ≡ some file = ground (
        arith,
        get-put parent s.next parent' (put s.next file s.nodes),
        get-put s.next s.next file s.nodes,
      ) in
      rw same (read_file-node name after s.next file found_it there refl)
  read-Written s' (replaced parent n base a old p e at file same) =
      let new : MemNode = record old { contents = data'; mod_time = now; mode = perm } in
      let after = set_node a new s in
      let found_it : walk after.nodes s.root (clean_list name) ≡ ok a =
        walk-set_node a old new s.nodes s.root (clean_list name) at refl refl
        ∙ ap (walk s.nodes s.root) p.path
        ∙ walk-append s.nodes s.root parent p.dir (base ∷ []) p.reached
        ∙ walk-old_child parent n base a s.nodes p.there p.is_dir e in
      rw same
        (read_file-node name after a new found_it (ground (arith, get-put a a new s.nodes)) file)

  -- What is written is what is read: after a successful write, reading the same path succeeds and
  -- gives the data.
  pub read_file-write_file :
      (s' : MemFs) → write_file name data' perm now s ≡ ok s' → read_file name s' ≡ ok data'
  read_file-write_file s' h = read-Written s' (write_file-Written s' h)

  others-Written :
      (other : Text) (d : List ℕ) (s' : MemFs)
      → clean_list other ≢ clean_list name
      → read_file other s ≡ ok d
      → Written s'
      → read_file other s' ≡ ok d
  others-Written other d s' differs h (created parent n base p e same) =
      let file = new_file base data' perm now in
      let after = add_child parent n base file s in
      let fresh = fresh_node s v in
      let (a, m, w, there, plain, gives) = read_file-inv other s d h in
      let still =
        walk-add_child parent n base file s s.root a (clean_list other) p.there e fresh w in
      let low : a < s.next = v.bounded a m there in
      let parent' : MemNode = record n { children = put base s.next n.children } in
      let not_parent : parent ≢ a = λ x. cc (x, p.is_dir, plain, p.there, there) in
      let there' : node_at a after ≡ some m = ground (
        arith,
        not_parent,
        get-put parent a parent' (put s.next file s.nodes),
        get-put s.next a file s.nodes,
      ) in
      rw same (read_file-node other after a m still there' plain ∙ ap ok gives)
  others-Written other d s' differs h (replaced parent n base b old p e at file same) =
      let new : MemNode = record old { contents = data'; mod_time = now; mode = perm } in
      let after = set_node b new s in
      let (a, m, w, there, plain, gives) = read_file-inv other s d h in
      let still = walk-set_node b old new s.nodes s.root (clean_list other) at refl refl ∙ w in
      let found_it : walk s.nodes s.root (clean_list name) ≡ ok b =
        ap (walk s.nodes s.root) p.path
        ∙ walk-append s.nodes s.root parent p.dir (base ∷ []) p.reached
        ∙ walk-old_child parent n base b s.nodes p.there p.is_dir e in
      let not_same : b ≢ a = λ x.
        differs (walk_unique s a (clean_list other) (clean_list name) v w (found_it ∙ ap ok x)) in
      let there' : node_at a after ≡ some m = ground (arith, not_same, get-put b a new s.nodes) in
      rw same (read_file-node other after a m still there' plain ∙ ap ok gives)

  -- A write to one path changes what no other path reads.
  pub read_file_other-write_file :
      (other : Text) (d : List ℕ) (s' : MemFs)
      → clean_list other ≢ clean_list name
      → read_file other s ≡ ok d
      → write_file name data' perm now s ≡ ok s'
      → read_file other s' ≡ ok d
  read_file_other-write_file other d s' differs h w =
      others-Written other d s' differs h (write_file-Written s' w)
