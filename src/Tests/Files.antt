-- ===== src/Tests/Files.antt =====
-- internal/vfs/memfs.go at concrete values: a store with one file.
use kaggen.Base.{
  ◌≡◌, refl, true, false, List, [], ◌∷◌, All, Text, codes, text_discrete, text_key, nat_key, get,
  put,
}
use kaggen.Vfs.Paths.{clean, split, split_slash, clean_parts, join_slash}
use kaggen.Vfs.Paths.Clean.{IsPlain, clean-IsPlain}
use kaggen.Vfs.{
  MemNode, MemFs, ok, new_mem_fs, new_dir, new_file, read_file, write_file, lookup_parent,
}
use kaggen.Vfs.Tree.{IsValid}
use kaggen.Vfs.Runs.{
  Op, write_op, mkdir_op, remove_op, rename_op, run, run-new_mem_fs-IsValid,
  run-read_file-write_file,
}
use kaggen.Vfs.Handles.{OpenFlag, Handle}

abbrev pub note : Text
note = 110 ∷ []

abbrev pub memo : Text
memo = 109 ∷ []

abbrev written : MemNode
written = new_file note (1 ∷ 2 ∷ []) 420 5

abbrev root_node : MemNode
root_node = record (new_dir [] 493 0) { children = (note, 1) ∷ [] }

-- What writing the file into a new store gives.
abbrev one_file : MemFs
one_file = record { root = 0; nodes = (0, root_node) ∷ (1, written) ∷ []; next = 2 }

abbrev writes_it : List Op
writes_it = write_op note (1 ∷ 2 ∷ []) 420 5 ∷ []

clean-IsPlain_example : All IsPlain (clean_parts [] (split_slash (codes "../a/./b//../c")))
clean-IsPlain_example = clean-IsPlain (codes "../a/./b//../c")

run-new_mem_fs-IsValid_example :
    IsValid (run (mkdir_op note 493 1 ∷ rename_op note memo ∷ remove_op memo ∷ []) (new_mem_fs 0))
run-new_mem_fs-IsValid_example =
    run-new_mem_fs-IsValid 0 (mkdir_op note 493 1 ∷ rename_op note memo ∷ remove_op memo ∷ [])

run-read_file-write_file_example : read_file note one_file ≡ ok (1 ∷ 2 ∷ [])
unfolding run new_mem_fs put lookup_parent text_discrete get clean split_slash clean_parts
    join_slash write_file split
run-read_file-write_file_example =
    run-read_file-write_file 0 [] note 420 5 (1 ∷ 2 ∷ []) one_file refl

abbrev one_dir : MemFs
one_dir = record {
  root = 0;
  nodes =
      (0, record root_node { children = (note, 1) ∷ (memo, 2) ∷ [] })
      ∷ (1, written)
      ∷ (2, new_dir memo 493 7)
      ∷ [];
  next = 3;
}

abbrev two_files : MemFs
two_files = record {
  root = 0;
  nodes =
      (0, record root_node { children = (note, 1) ∷ (memo, 2) ∷ [] })
      ∷ (1, written)
      ∷ (2, new_file memo [] 420 6)
      ∷ [];
  next = 3;
}

abbrev appending : OpenFlag
appending = record { create = false; append = true; trunc = false }

abbrev opened : Handle
opened = record { node = 1; buf = []; flag = appending; closed = false }

abbrev buffered : Handle
buffered = record opened { buf = 3 ∷ [] }
