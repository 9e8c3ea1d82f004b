-- ===== src/Scoped.antt =====
-- internal/vfs/scoped.go: the file system that is confined to a root directory. A path is the list of its
-- elements, so that the root of the machine is the empty list; cleaning is that of Vfs/Paths. The
-- operating system is a parameter: `eval_symlinks` resolves a path, none where it does not exist. What an
-- operation asks of the system is returned as a call.
pub mod Confinement
use kaggen.Base.{
  ℕ, zero, suc, ◌+◌, ◌-◌, ◌*◌, ◌/◌, ◌%◌, ◌≤◌, ◌<◌, ◌≡◌, refl, sym, ap, ◌∙◌, ◌≢◌, ◌↔◌, ◌⊎◌, inl, inr,
  ite, Bool, true, false, ◌&&◌, ◌||◌, not, Option, none, some, List, [], ◌∷◌, ◌++◌, map, arith,
  dec_lt, ℕ_discrete, ltb, leb, ◌==◌, if◌then◌else◌, Bool-cases, Option-cases, found, length, take,
  drop, get_elem?, select, last_n, All, length-append, length-take, length-drop, take-append-drop,
  length-select-le, select-append, select_idem, Text, codes, text_discrete, ◌is◌, starts_with, Key,
  text_key, nat_key, Map, keep_if, get, put, del, Unique, get-put, get-del, put-Unique, del-Unique,
  values_where, del_where, map_values, get-map_values, get-del_where-none, get-del_where-some,
  del_where-Unique, map_values-Unique, values_where-del_where, contains, lower_code, to_lower,
  contains-append, contains_later, contains_earlier, join, decimal, last_n-append, length-last_n,
  last_n-last_n, ends_with, trim_prefix, trim_suffix,
}
use kaggen.Vfs.Paths.{clean_parts, split_slash}

abbrev pub Elements : Type 0
Elements = List Text

abbrev pub same_path : Elements → Elements → Bool
same_path [] [] = true
same_path [] (q ∷ qs) = false
same_path (p ∷ ps) [] = false
same_path (p ∷ ps) (q ∷ qs) = p is q && same_path ps qs

-- Whether the second path starts with the elements of the first.
abbrev pub is_prefix : Elements → Elements → Bool
is_prefix [] q = true
is_prefix (p ∷ ps) [] = false
is_prefix (p ∷ ps) (q ∷ qs) = p is q && is_prefix ps qs

-- The code compares with the root and a slash: nothing starts with the two slashes that the root of the
-- machine gives.
abbrev pub is_below : Elements → Elements → Bool
is_below [] p = false
is_below (r ∷ root) p = is_prefix (r ∷ root) p

unfoldable pub is_under_root : Elements → Elements → Bool
is_under_root root p = same_path p root || is_below root p

pub data Resolved : Type 0 where
  resolved : Elements → Resolved
  denied : Resolved

-- `filepath.Clean("/" + name)`, by its elements.
unfoldable pub cleaned : Text → Elements
cleaned name = clean_parts [] (split_slash name)

-- What `filepath.Dir` gives, again and again, until it gives the root of the machine.
abbrev pub ancestors : Elements → List Elements
ancestors [] = []
ancestors (p ∷ ps) = map (λ q. p ∷ q) (ancestors ps) ++ ([] ∷ [])

pub data Op : Type 0 where
  open_read stat read_dir read_file write_file mkdir_all remove remove_all open_file : Op

-- What an operation asks of the system.
pub data Call : Type 0 where
  called : Op → Elements → Call
  renamed : Elements → Elements → Call
  refused : Call

abbrev pub removes : Op → Bool
removes op = elim op [ remove ↦ true | remove_all ↦ true | _ ↦ false ]

-- The removals spare the root.
unfoldable pub perform_resolved : Elements → Op → Resolved → Call
perform_resolved root op denied = refused
perform_resolved root op (resolved real) =
    if removes op && same_path real root then refused else called op real

unfoldable pub rename_resolved : Resolved → Resolved → Call
rename_resolved denied q = refused
rename_resolved (resolved p) denied = refused
rename_resolved (resolved p) (resolved q) = renamed p q

module _ (eval_symlinks : Elements → Option Elements) where
  -- The walk up to the first ancestor that resolves.
  unfoldable pub walk_up : Elements → Elements → List Elements → Resolved
  walk_up root full [] = resolved full
  walk_up root full (parent ∷ parents) =
      let rest = walk_up root full parents in
      elim (eval_symlinks parent) [
        | none ↦ rest
        | some real ↦ if is_under_root root real then resolved full else denied
      ]

  unfoldable pub resolve : Elements → Text → Resolved
  resolve root name =
      let full = root ++ cleaned name in
      elim (eval_symlinks full) [
        | none ↦ walk_up root full (ancestors full)
        | some real ↦ if is_under_root root real then resolved real else denied
      ]

  -- Every operation but the renaming.
  unfoldable pub perform : Elements → Op → Text → Call
  perform root op name = perform_resolved root op (resolve root name)

  unfoldable pub rename : Elements → Text → Text → Call
  rename root old_path new_path = rename_resolved (resolve root old_path) (resolve root new_path)
