-- ===== src/Vfs/Validity/Opening.antt =====
-- internal/vfs/memfs.go, `OpenFile` and the handles' flushes: they keep the invariant.
use kaggen.Vfs.{
  Result, MemFs, ok, MemNode, err, node_at, lookup_parent, add_child, new_file, not_exist, dangling,
  set_node, is_a_directory,
}
use kaggen.Vfs.Handles.{OpenFlag, close, open_file, sync, Handle, open_node, flushed}
use kaggen.Vfs.Tree.{IsValid}
use kaggen.Vfs.Validity.{set_node-IsValid, add_child-IsValid, lookup_parent-Place}
use kaggen.Vfs.Files.{lookup_parent-Place}
use kaggen.Base.{
  ℕ, ◌≡◌, refl, inl, inr, false, ◌&&◌, not, [], arith, if◌then◌else◌, Bool-cases, Option-cases,
  Text, text_key, nat_key, get,
}

-- What opening leaves: a valid store and a handle, or a refusal.
abbrev pub Opens : Result (MemFs × Handle) → Type 0
Opens (ok (s, f)) = IsValid s
Opens (err e) = Unit

open_node-Opens : (a : ℕ) (flag : OpenFlag) (s : MemFs) → IsValid s → Opens (open_node a flag s)
open_node-Opens a flag s v = elim (Option-cases (node_at a s)) [
  | inl e ↦ let gone : open_node a flag s ≡ err dangling = ground (arith, e) in rw gone tt
  | inr (n, e) ↦ elim (Bool-cases n.is_dir) [
    | inl d ↦ let dir : open_node a flag s ≡ err is_a_directory = ground (arith, e, d) in rw dir tt
    | inr d ↦
        let new : MemNode = record n { contents = if flag.trunc then [] else n.contents } in
        let f : Handle = record {
          node = a;
          buf = if not flag.append && not flag.trunc then n.contents else [];
          flag = flag;
          closed = false;
        } in
        let opens : open_node a flag s ≡ ok (set_node a new s, f) = ground (arith, e, d) in
        rw opens (set_node-IsValid a n new s e refl (λ p c x. x) v)
  ]
]

pub open_file-Opens :
    (name : Text) (flag : OpenFlag) (perm now : ℕ) (s : MemFs)
    → IsValid s
    → Opens (open_file name flag perm now s)
unfolding open_file
open_file-Opens name flag perm now s v = go (lookup_parent name s) refl
  where
    go :
        (r : Result (ℕ × MemNode × Text))
        → lookup_parent name s ≡ r
        → Opens (open_file name flag perm now s)
    go (err x) e = rw (open_file, e) tt
    go (ok (parent, n, base)) e = elim (Option-cases (get base n.children)) [
      | inl miss ↦ elim (Bool-cases flag.create) [
        | inl c ↦
            let made = add_child parent n base (new_file base [] perm now) s in
            let opens : open_file name flag perm now s ≡ open_node s.next flag made =
              ground (arith, e, miss, c) in
            rw opens (
              open_node-Opens s.next flag made (
                add_child-IsValid parent n base (new_file base [] perm now) s
                  (lookup_parent-Place name s parent n base e).there refl v))
        | inr c ↦
            let none_there : open_file name flag perm now s ≡ err not_exist =
              ground (arith, e, miss, c) in
            rw none_there tt
      ]
      | inr (a, hit) ↦
          let opens : open_file name flag perm now s ≡ open_node a flag s =
            ground (arith, e, hit) in
          rw opens (open_node-Opens a flag s v)
    ]

pub sync-IsValid : (f : Handle) (now : ℕ) (s : MemFs) → IsValid s → IsValid (sync f now s)
unfolding sync
sync-IsValid f now s v = elim (Option-cases (node_at f.node s)) [
  | inl e ↦ let same : sync f now s ≡ s = ground (arith, e) in rw same v
  | inr (n, e) ↦
      let done : sync f now s ≡ set_node f.node (flushed f n now) s = ground (arith, e) in
      rw done (set_node-IsValid f.node n (flushed f n now) s e refl (λ p c x. x) v)
]

pub close-IsValid : (f : Handle) (now : ℕ) (s : MemFs) → IsValid s → IsValid (close f now s).0
unfolding close
close-IsValid f now s v = elim (Bool-cases f.closed) [
  | inl e ↦ let same : (close f now s).0 ≡ s = ground (arith, e) in rw same v
  | inr e ↦
      let done : (close f now s).0 ≡ sync f now s = ground (arith, e) in
      rw done (sync-IsValid f now s v)
]
