-- ===== src/Vfs.antt =====
-- internal/vfs/memfs.go: the in-memory file system. Nodes stand in a store under their addresses and
-- directories hold addresses, as the Go maps hold pointers, so an open handle and the tree share a
-- node. An operation takes the clock where the code reads it, and returns the new store. A file has
-- an empty map of children, as a nil map reads; only directories have data-free nodes with children.
pub mod Paths
pub mod Handles
pub mod Tree
pub mod Files
pub mod Writing
pub mod Dirs
pub mod Validity
pub mod Runs
pub mod Making
use Prim.Native.Nat.{bit_or}
use kaggen.Base.{
  ℕ, zero, suc, ◌+◌, ◌-◌, ◌*◌, ◌/◌, ◌%◌, ◌≤◌, ◌<◌, ◌≡◌, refl, sym, ap, ◌∙◌, ◌≢◌, ◌↔◌, ◌⊎◌, inl, inr,
  ite, Bool, true, false, ◌&&◌, ◌||◌, not, Option, none, some, List, [], ◌∷◌, ◌++◌, map, arith,
  dec_lt, ℕ_discrete, ltb, leb, ◌==◌, if◌then◌else◌, Bool-cases, Option-cases, found, length, take,
  drop, get_elem?, select, last_n, All, length-append, length-take, length-drop, take-append-drop,
  length-select-le, select-append, select_idem, Text, codes, text_discrete, ◌is◌, starts_with, Key,
  text_key, nat_key, Map, keep_if, get, put, del, Unique, get-put, get-del, put-Unique, del-Unique,
  values_where, del_where, map_values, get-map_values, get-del_where-none, get-del_where-some,
  del_where-Unique, map_values-Unique, values_where-del_where, contains, lower_code, to_lower,
}
use Paths.{clean, split, split_slash}

pub record MemNode : Type 0 where
  pub name : Text
  pub is_dir : Bool
  pub contents : List ℕ
  pub children : Map Text ℕ
  pub mod_time : ℕ
  pub mode : ℕ

-- `next` is the address that the next allocated node gets.
pub record MemFs : Type 0 where
  pub root : ℕ
  pub nodes : Map ℕ MemNode
  pub next : ℕ

-- `dangling` is an address with no node: a fault of the model, which a valid store never meets.
pub data Fault : Type 0 where
  not_exist invalid not_a_directory is_a_directory not_empty permission dangling : Fault

pub data Result {ℓ} (A : Type ℓ) : Type ℓ where
  ok : A → Result A
  err : Fault → Result A

infixl 5 ◌>>=◌
abbrev pub ◌>>=◌ {ℓ κ} : {A : Type ℓ} {B : Type κ} → Result A → (A → Result B) → Result B
ok a >>= f = f a
err e >>= f = err e

abbrev pub or_fault {ℓ} : {A : Type ℓ} → Option A → Fault → Result A
or_fault none e = err e
or_fault (some a) e = ok a

-- `fs.ModeDir`.
abbrev pub mode_dir : ℕ
mode_dir = 2147483648

abbrev pub new_dir : Text → ℕ → ℕ → MemNode
new_dir name mode now = record {
  name = name;
  is_dir = true;
  contents = [];
  children = [];
  mod_time = now;
  mode = bit_or mode mode_dir;
}

abbrev pub new_file : Text → List ℕ → ℕ → ℕ → MemNode
new_file name contents mode now = record {
  name = name;
  is_dir = false;
  contents = contents;
  children = [];
  mod_time = now;
  mode = mode;
}

-- 0755 | ModeDir.
unfoldable pub new_mem_fs : ℕ → MemFs
new_mem_fs now = record { root = 0; nodes = put 0 (new_dir [] 493 now) []; next = 1 }

pub record FileInfo : Type 0 where
  pub name : Text
  pub size : ℕ
  pub mode : ℕ
  pub mod_time : ℕ
  pub is_dir : Bool

abbrev pub file_info : MemNode → FileInfo
file_info n = record {
  name = n.name;
  size = length n.contents;
  mode = n.mode;
  mod_time = n.mod_time;
  is_dir = n.is_dir;
}

abbrev pub node_at : ℕ → MemFs → Option MemNode
node_at a s = get a s.nodes

-- The loop of `lookup`, from the node `cur` on.
pub walk : Map ℕ MemNode → ℕ → List Text → Result ℕ
walk nodes cur [] = ok cur
walk nodes cur (p ∷ ps) = elim (get cur nodes) [
  | none ↦ err dangling
  | some n ↦
      if n.is_dir
      then (elim (get p n.children) [ none ↦ err not_exist | some child ↦ walk nodes child ps ])
      else err not_exist
]

-- The elements of a cleaned path; the empty path has none.
abbrev pub parts : Text → List Text
parts name = if name is [] then [] else split_slash name

unfoldable pub lookup : Text → MemFs → Result ℕ
unfolding walk
lookup name s = walk s.nodes s.root (parts (clean name))

-- The address of the parent, its node, and the base name.
unfoldable pub lookup_parent : Text → MemFs → Result (ℕ × MemNode × Text)
unfolding lookup
lookup_parent name s = if clean name is [] then err invalid else do
  parent ← lookup (split (clean name)).0 s
  n ← or_fault (node_at parent s) dangling
  if n.is_dir then ok (parent, n, (split (clean name)).1) else err not_a_directory

pub stat : Text → MemFs → Result FileInfo
stat name s = do a ← lookup name s; n ← or_fault (node_at a s) dangling; ok (file_info n)

unfoldable pub read_file : Text → MemFs → Result (List ℕ)
read_file name s = do
  a ← lookup name s
  n ← or_fault (node_at a s) dangling
  if n.is_dir then err is_a_directory else ok n.contents

-- The lexicographic order of byte strings.
abbrev pub text_lt : Text → Text → Bool
text_lt [] [] = false
text_lt [] (c ∷ t) = true
text_lt (d ∷ s) [] = false
text_lt (d ∷ s) (c ∷ t) = ltb d c || ((d == c) && text_lt s t)

abbrev insert_info : FileInfo → List FileInfo → List FileInfo
insert_info i [] = i ∷ []
insert_info i (j ∷ js) = if text_lt j.name i.name then j ∷ insert_info i js else i ∷ j ∷ js

abbrev pub sort_infos : List FileInfo → List FileInfo
sort_infos [] = []
sort_infos (i ∷ infos) = insert_info i (sort_infos infos)

pub child_infos : Map ℕ MemNode → Map Text ℕ → List FileInfo
child_infos nodes [] = []
child_infos nodes ((p, a) ∷ m) = elim (get a nodes) [
  | none ↦ child_infos nodes m
  | some n ↦ file_info n ∷ child_infos nodes m
]

-- The names in a directory are distinct, so any sort gives this order.
unfoldable pub read_dir : Text → MemFs → Result (List FileInfo)
unfolding child_infos
read_dir name s = do
  a ← lookup name s
  n ← or_fault (node_at a s) dangling
  if n.is_dir then ok (sort_infos (child_infos s.nodes n.children)) else err not_a_directory

abbrev pub set_node : ℕ → MemNode → MemFs → MemFs
set_node a n s = record s { nodes = put a n s.nodes }

-- A new node at the next address, entered under a name in the directory `n` at `parent`.
abbrev pub add_child : ℕ → MemNode → Text → MemNode → MemFs → MemFs
add_child parent n base child s = record {
  root = s.root;
  nodes =
      put parent (record n { children = put base s.next n.children }) (put s.next child s.nodes);
  next = s.next + 1;
}

-- `WriteFile` once the parent is found.
pub write_in : ℕ → MemNode → Text → List ℕ → ℕ → ℕ → MemFs → Result MemFs
write_in parent n base data' perm now s = elim (get base n.children) [
  | none ↦ ok (add_child parent n base (new_file base data' perm now) s)
  | some a ↦ do
    old ← or_fault (node_at a s) dangling
    if old.is_dir
        then err is_a_directory
        else ok (set_node a (record old { contents = data'; mod_time = now; mode = perm }) s)
]

unfoldable pub write_file : Text → List ℕ → ℕ → ℕ → MemFs → Result MemFs
unfolding write_in
write_file name data' perm now s = do
  (parent, n, base) ← lookup_parent name s
  write_in parent n base data' perm now s

-- The loop of `MkdirAll`, from the directory `cur` on.
pub mkdir_parts : ℕ → List Text → ℕ → ℕ → MemFs → Result MemFs
mkdir_parts cur [] perm now s = ok s
mkdir_parts cur (p ∷ ps) perm now s = elim (get cur s.nodes) [
  | none ↦ err dangling
  | some n ↦ elim (get p n.children) [
    | none ↦ mkdir_parts s.next ps perm now (add_child cur n p (new_dir p perm now) s)
    | some a ↦ elim (get a s.nodes) [
      | none ↦ err dangling
      | some child ↦
          let rest = mkdir_parts a ps perm now s in
          if child.is_dir then rest else err not_a_directory
    ]
  ]
]

unfoldable pub mkdir_all : Text → ℕ → ℕ → MemFs → Result MemFs
unfolding mkdir_parts
mkdir_all name perm now s = mkdir_parts s.root (parts (clean name)) perm now s

abbrev pub drop_child : ℕ → MemNode → Text → MemFs → MemFs
drop_child parent n base s = set_node parent (record n { children = del base n.children }) s

abbrev pub has_children : MemNode → Bool
has_children n = ltb 0 (length n.children)

unfoldable pub remove : Text → MemFs → Result MemFs
remove name s = if clean name is [] then err permission else do
  (parent, n, base) ← lookup_parent (clean name) s
  a ← or_fault (get base n.children) not_exist
  child ← or_fault (node_at a s) dangling
  if child.is_dir && has_children child then err not_empty else ok (drop_child parent n base s)

pub remove_all : Text → MemFs → Result MemFs
remove_all name s =
    if clean name is [] then err permission else (elim (lookup_parent (clean name) s) [
      | err e ↦ ok s
      | ok (parent, n, base) ↦ elim (get base n.children) [
        | none ↦ ok s
        | some a ↦ ok (drop_child parent n base s)
      ]
    ])

-- `newParent` is found before anything changes; its map is read after the old entry is deleted, which
-- matters where both parents are one node.
pub rename : Text → Text → MemFs → Result MemFs
rename old_path new_path s = do
  (old_parent, m, old_base) ← lookup_parent old_path s
  a ← or_fault (get old_base m.children) not_exist
  (new_parent, _, new_base) ← lookup_parent new_path s
  let s' = drop_child old_parent m old_base s
  node ← or_fault (node_at a s') dangling
  let s'' = set_node a (record node { name = new_base }) s'
  target ← or_fault (node_at new_parent s'') dangling
  ok (set_node new_parent (record target { children = put new_base a target.children }) s'')
