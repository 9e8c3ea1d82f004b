-- ===== src/Vfs/Paths.antt =====
-- internal/vfs/memfs.go, `clean` and `split`: paths as byte sequences, with the lexical rules of
-- Go's `path.Clean`, `path.Split`, `strings.Split` and `strings.TrimSuffix` that they call.
pub mod Clean
use mathlib.Core.List.{reverse}
use kaggen.Base.{
  ℕ, zero, suc, ◌+◌, ◌-◌, ◌*◌, ◌/◌, ◌%◌, ◌≤◌, ◌<◌, ◌≡◌, refl, sym, ap, ◌∙◌, ◌≢◌, ◌↔◌, ◌⊎◌, inl, inr,
  ite, Bool, true, false, ◌&&◌, ◌||◌, not, Option, none, some, List, [], ◌∷◌, ◌++◌, map, arith,
  dec_lt, ℕ_discrete, ltb, leb, ◌==◌, if◌then◌else◌, Bool-cases, Option-cases, found, length, take,
  drop, get_elem?, select, last_n, All, length-append, length-take, length-drop, take-append-drop,
  length-select-le, select-append, select_idem, Text, codes, text_discrete, ◌is◌, starts_with, Key,
  text_key, nat_key, Map, keep_if, get, put, del, Unique, get-put, get-del, put-Unique, del-Unique,
  values_where, del_where, map_values, get-map_values, get-del_where-none, get-del_where-some,
  del_where-Unique, map_values-Unique, values_where-del_where, contains, lower_code, to_lower,
}

abbrev pub slash : ℕ
slash = b'/'

abbrev pub onto_head : ℕ → List Text → List Text
onto_head c [] = (c ∷ []) ∷ []
onto_head c (p ∷ ps) = (c ∷ p) ∷ ps

-- `strings.Split(s, "/")`.
unfoldable pub split_slash : Text → List Text
split_slash [] = [] ∷ []
split_slash (c ∷ s) = let rest = split_slash s in if c == slash then [] ∷ rest else onto_head c rest

-- `strings.Join(parts, "/")`.
unfoldable pub join_slash : List Text → Text
join_slash [] = []
join_slash (p ∷ []) = p
join_slash (p ∷ q ∷ ps) = p ++ (slash ∷ join_slash (q ∷ ps))

abbrev pub dot : Text
dot = codes "."

abbrev pub dot_dot : Text
dot_dot = codes ".."

abbrev pub without_last : List Text → List Text
without_last [] = []
without_last (p ∷ []) = []
without_last (p ∷ q ∷ ps) = p ∷ without_last (q ∷ ps)

-- One element of a rooted path: `done` are the elements before it, the last one first.
abbrev pub clean_step : List Text → Text → List Text
clean_step done p =
    if (p is []) || (p is dot)
    then done
    else if p is dot_dot
    then (elim done [ [] ↦ [] | q ∷ qs ↦ qs ])
    else p ∷ done

unfoldable pub clean_parts : List Text → List Text → List Text
clean_parts done [] = reverse done
clean_parts done (p ∷ ps) = clean_parts (clean_step done p) ps

-- `path.Clean("/" + name)` without its leading slash.
unfoldable pub clean : Text → Text
unfolding split_slash join_slash clean_parts
clean name = join_slash (clean_parts [] (split_slash name))

abbrev pub last_part : List Text → Text
last_part [] = []
last_part (p ∷ []) = p
last_part (p ∷ q ∷ ps) = last_part (q ∷ ps)

-- The parent path and the base name: what stands before and after the last slash.
unfoldable pub split : Text → Text × Text
unfolding split_slash join_slash
split name = (join_slash (without_last (split_slash name)), last_part (split_slash name))
