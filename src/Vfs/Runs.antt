-- ===== src/Vfs/Runs.antt =====
-- internal/vfs/memfs.go: sequences of operations on a store that started empty. An operation that
-- fails leaves the store as it was: the code tests before it changes anything.
use kaggen.Base.{ℕ, ◌≡◌, ◌≢◌, List, [], ◌∷◌, Text, text_key, nat_key}
use kaggen.Vfs.Tree.{IsValid}
use kaggen.Vfs.Writing.{read_file-write_file, read_file_other-write_file}
use kaggen.Vfs.Paths.Clean.{clean_list}
use kaggen.Vfs.Validity.Operations.{
  Keeps, new_mem_fs-IsValid, write_file-Keeps, mkdir_all-Keeps, remove-Keeps, remove_all-Keeps,
}
use kaggen.Vfs.Validity.Moves.{rename-Keeps}
use kaggen.Vfs.Handles.{Handle, OpenFlag, open_file, sync, close}
use kaggen.Vfs.Validity.Opening.{Opens, open_file-Opens, sync-IsValid, close-IsValid}
use kaggen.Vfs.{
  MemFs, Result, ok, err, new_mem_fs, read_file, write_file, mkdir_all, remove, remove_all, rename,
}

-- A call that changes the tree, with the clock where the code reads it. A handle may have any buffer:
-- writing to it changes nothing but that.
pub data Op : Type 0 where
  write_op : Text → List ℕ → ℕ → ℕ → Op
  mkdir_op : Text → ℕ → ℕ → Op
  remove_op : Text → Op
  remove_all_op : Text → Op
  rename_op : Text → Text → Op
  open_op : Text → OpenFlag → ℕ → ℕ → Op
  sync_op close_op : Handle → ℕ → Op

abbrev opened : Result (MemFs × Handle) → Result MemFs
opened (ok (s, f)) = ok s
opened (err e) = err e

unfoldable pub apply : Op → MemFs → Result MemFs
apply (write_op name data' perm now) s = write_file name data' perm now s
apply (mkdir_op name perm now) s = mkdir_all name perm now s
apply (remove_op name) s = remove name s
apply (remove_all_op name) s = remove_all name s
apply (rename_op old_path new_path) s = rename old_path new_path s
apply (open_op name flag perm now) s = opened (open_file name flag perm now s)
apply (sync_op f now) s = ok (sync f now s)
apply (close_op f now) s = ok (close f now s).0

abbrev pub settle : Result MemFs → MemFs → MemFs
settle (ok s') s = s'
settle (err e) s = s

unfoldable pub run : List Op → MemFs → MemFs
run [] s = s
run (op ∷ ops) s = run ops (settle (apply op s) s)

opened-Keeps : (r : Result (MemFs × Handle)) → Opens r → Keeps (opened r)
opened-Keeps (ok (s, f)) h = h
opened-Keeps (err e) h = tt

apply-Keeps : (op : Op) (s : MemFs) → IsValid s → Keeps (apply op s)
unfolding apply
apply-Keeps (write_op name data' perm now) s v = write_file-Keeps name data' perm now s v
apply-Keeps (mkdir_op name perm now) s v = mkdir_all-Keeps name perm now s v
apply-Keeps (remove_op name) s v = remove-Keeps name s v
apply-Keeps (remove_all_op name) s v = remove_all-Keeps name s v
apply-Keeps (rename_op old_path new_path) s v = rename-Keeps old_path new_path s v
apply-Keeps (open_op name flag perm now) s v =
    opened-Keeps (open_file name flag perm now s) (open_file-Opens name flag perm now s v)
apply-Keeps (sync_op f now) s v = sync-IsValid f now s v
apply-Keeps (close_op f now) s v = close-IsValid f now s v

settle-IsValid : (r : Result MemFs) (s : MemFs) → Keeps r → IsValid s → IsValid (settle r s)
settle-IsValid (ok s') s k v = k
settle-IsValid (err e) s k v = v

run-IsValid : (ops : List Op) (s : MemFs) → IsValid s → IsValid (run ops s)
unfolding run
run-IsValid [] s v = v
run-IsValid (op ∷ ops) s v =
    run-IsValid ops (settle (apply op s) s) (settle-IsValid (apply op s) s (apply-Keeps op s v) v)

-- Any sequence of writes, directory creations, removals, renames, openings of files and flushes and
-- closings of handles, failed ones included, leads from
-- a new store to a valid one: each address lies below the next, each entry leads to a node, the root
-- is a directory that no entry leads to, and no node has two entries.
pub run-new_mem_fs-IsValid : (start : ℕ) (ops : List Op) → IsValid (run ops (new_mem_fs start))
run-new_mem_fs-IsValid start ops = run-IsValid ops (new_mem_fs start) (new_mem_fs-IsValid start)

-- Whatever writes, directory creations, removals, renames, openings, flushes and closings of handles came
-- before on a store that started empty, after a successful write of a whole file reading the same path succeeds and gives the data written.
pub run-read_file-write_file :
    (start : ℕ) (ops : List Op) (name : Text) (perm now : ℕ) (data' : List ℕ) (s' : MemFs)
    → write_file name data' perm now (run ops (new_mem_fs start)) ≡ ok s'
    → read_file name s' ≡ ok data'
run-read_file-write_file start ops name perm now data' s' h =
    read_file-write_file name perm now data' (run ops (new_mem_fs start))
      (run-new_mem_fs-IsValid start ops) s' h

-- Whatever operations came before on a store that started empty, a successful write leaves what any
-- other path reads: if a file was read under a path whose cleaned form differs, it is read still.
pub run-read_file_other-write_file :
    (start : ℕ) (ops : List Op) (name other : Text) (perm now : ℕ) (data' d : List ℕ) (s' : MemFs)
    → clean_list other ≢ clean_list name
    → read_file other (run ops (new_mem_fs start)) ≡ ok d
    → write_file name data' perm now (run ops (new_mem_fs start)) ≡ ok s'
    → read_file other s' ≡ ok d
run-read_file_other-write_file start ops name other perm now data' d s' differs h w =
    read_file_other-write_file name perm now data' (run ops (new_mem_fs start))
      (run-new_mem_fs-IsValid start ops) other d s' differs h w
