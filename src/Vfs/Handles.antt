-- ===== src/Vfs/Handles.antt =====
-- internal/vfs/memfs.go, `OpenFile` and `memWritableFile`: handles that buffer what is written and
-- flush it into the shared node.
use kaggen.Base.{
  ℕ, ◌≡◌, refl, sym, ap, ◌∙◌, Bool, true, false, ◌&&◌, not, Option, none, some, List, [], ◌++◌,
  arith, if◌then◌else◌, Text, text_key, nat_key, get, get-put,
}
use kaggen.Vfs.{
  MemNode, MemFs, not_exist, is_a_directory, dangling, Result, ok, err, ◌>>=◌, or_fault, new_file,
  node_at, lookup_parent, set_node, add_child,
}

-- The bits of the flag that the code tests.
pub record OpenFlag : Type 0 where
  pub create : Bool
  pub append : Bool
  pub trunc : Bool

pub record Handle : Type 0 where
  pub node : ℕ
  pub buf : List ℕ
  pub flag : OpenFlag
  pub closed : Bool

abbrev pub open_node : ℕ → OpenFlag → MemFs → Result (MemFs × Handle)
open_node a flag s = do
  n ← or_fault (node_at a s) dangling
  if n.is_dir
      then err is_a_directory
      else (let kept : List ℕ = if flag.trunc then [] else n.contents in
          ok (
            set_node a (record n { contents = kept }) s,
            record {
              node = a;
              buf = if not flag.append && not flag.trunc then n.contents else [];
              flag = flag;
              closed = false;
            },
          ))

unfoldable pub open_file : Text → OpenFlag → ℕ → ℕ → MemFs → Result (MemFs × Handle)
open_file name flag perm now s = do
  (parent, n, base) ← lookup_parent name s
  elim (get base n.children) [
    | some a ↦ open_node a flag s
    | none ↦
        if flag.create
        then open_node s.next flag (add_child parent n base (new_file base [] perm now) s)
        else err not_exist
  ]

-- `Write`: the bytes go to the buffer. A closed handle refuses them.
unfoldable pub write : List ℕ → Handle → Option Handle
write p f = if f.closed then none else some (record f { buf = f.buf ++ p })

abbrev pub flushed : Handle → MemNode → ℕ → MemNode
flushed f n now = record n {
  contents = if f.flag.append then n.contents ++ f.buf else f.buf;
  mod_time = now;
}

-- `Sync`: the buffer is kept.
unfoldable pub sync : Handle → ℕ → MemFs → MemFs
sync f now s = elim (node_at f.node s) [ none ↦ s | some n ↦ set_node f.node (flushed f n now) s ]

unfoldable pub close : Handle → ℕ → MemFs → MemFs × Handle
unfolding sync
close f now s = if f.closed then (s, f) else (sync f now s, record f { closed = true })

abbrev pub contents_at : ℕ → MemFs → Option (List ℕ)
contents_at a s = elim (node_at a s) [ none ↦ none | some n ↦ some n.contents ]

-- What `open_node` returns for a file.
open_node-file :
    (a : ℕ) (n : MemNode) (flag : OpenFlag) (s s' : MemFs) (f : Handle)
    → node_at a s ≡ some n
    → open_node a flag s ≡ ok (s', f)
    → (node_at a s' ≡ some (record n { contents = if flag.trunc then [] else n.contents }))
      × (f.node ≡ a)
      × (f.flag ≡ flag)
      × (f.closed ≡ false)
      × (f.buf ≡ (if not flag.append && not flag.trunc then n.contents else []))
open_node-file a n flag s s' f at opened =
    let kept : List ℕ = if flag.trunc then [] else n.contents in
    ground (arith, get-put a a (record n { contents = kept }) s.nodes)

contents-sync :
    (f : Handle) (n : MemNode) (now : ℕ) (s : MemFs)
    → node_at f.node s ≡ some n
    → node_at f.node (sync f now s) ≡ some (flushed f n now)
unfolding sync
contents-sync f n now s at = ground (arith, get-put f.node f.node (flushed f n now) s.nodes)

contents-close :
    (g : Handle) (n : MemNode) (now : ℕ) (s : MemFs)
    → g.closed ≡ false
    → node_at g.node s ≡ some n
    → contents_at g.node (close g now s).0 ≡ some (flushed g n now).contents
unfolding close
contents-close g n now s shut at = ground (arith, shut, contents-sync g n now s at)

flushed_cases :
    (append trunc : Bool) (old p : List ℕ)
    → (if append
        then (if trunc then [] else old) ++ ((if not append && not trunc then old else []) ++ p)
        else (if not append && not trunc then old else []) ++ p)
      ≡ (if trunc then p else old ++ p)
flushed_cases true true old p = refl
flushed_cases true false old p = refl
flushed_cases false true old p = refl
flushed_cases false false old p = refl

-- Opening a file that is there, writing once and closing, for each mode: truncated, the file holds
-- what was written; appending, the old contents and what was written; with neither flag also the old
-- contents and what was written, since the buffer starts with the old contents and a write adds to it.
pub close-write :
    (a : ℕ) (n : MemNode) (flag : OpenFlag) (p : List ℕ) (now : ℕ) (s s' : MemFs) (f g : Handle)
    → node_at a s ≡ some n
    → open_node a flag s ≡ ok (s', f)
    → write p f ≡ some g
    → contents_at a (close g now s').0 ≡ some (if flag.trunc then p else n.contents ++ p)
unfolding write
close-write a n flag p now s s' f g at opened wrote =
    let (at', node, same, fresh, buf) = open_node-file a n flag s s' f at opened in
    let n' : MemNode = record n { contents = if flag.trunc then [] else n.contents } in
    let g_is : g ≡ record f { buf = f.buf ++ p } = ground (arith, fresh) in
    let at_g : node_at g.node s' ≡ some n' = rw (g_is, node) at' in
    let shut : g.closed ≡ false = rw g_is fresh in
    let here : g.node ≡ a = rw g_is node in
    let file = contents-close g n' now s' shut at_g in
    ap (λ x. contents_at x (close g now s').0) (sym here)
    ∙ file
    ∙ ap some (rw (g_is, same, buf) (flushed_cases flag.append flag.trunc n.contents p))

-- A file that is opened to append, not truncated, written once, synced and closed ends with what was
-- written, twice.
pub sync-close_twice :
    (a : ℕ) (n : MemNode) (flag : OpenFlag) (p : List ℕ) (now later : ℕ) (s s' : MemFs)
    (f g : Handle)
    → node_at a s ≡ some n
    → flag.append ≡ true
    → flag.trunc ≡ false
    → open_node a flag s ≡ ok (s', f)
    → write p f ≡ some g
    → contents_at a (close g later (sync g now s')).0 ≡ some ((n.contents ++ p) ++ p)
unfolding write
sync-close_twice a n flag p now later s s' f g at appends keeps opened wrote =
    let (at', node, same, fresh, buf) = open_node-file a n flag s s' f at opened in
    let n' : MemNode = record n { contents = if flag.trunc then [] else n.contents } in
    let g_is : g ≡ record f { buf = f.buf ++ p } = ground (arith, fresh) in
    let at_g : node_at g.node s' ≡ some n' = rw (g_is, node) at' in
    let once = contents-sync g n' now s' at_g in
    let shut : g.closed ≡ false = rw g_is fresh in
    let here : g.node ≡ a = rw g_is node in
    let file = contents-close g (flushed g n' now) later (sync g now s') shut once in
    ap (λ x. contents_at x (close g later (sync g now s')).0) (sym here)
    ∙ file
    ∙ ap some (rw (g_is, same, buf, appends, keeps))
