-- ===== src/Security.antt =====
-- internal/security/sandbox.go: the checks of shell commands and of paths. The regular expressions are a
-- parameter: `compile` gives the matcher of a pattern, or none for an invalid one. `strings.TrimSpace` is
-- written for ASCII.
pub mod Traversal
use kaggen.Base.{
  ℕ, zero, suc, ◌+◌, ◌-◌, ◌*◌, ◌/◌, ◌%◌, ◌≤◌, ◌<◌, ◌≡◌, refl, sym, ap, ◌∙◌, ◌≢◌, ◌↔◌, ◌⊎◌, inl, inr,
  ite, Bool, true, false, ◌&&◌, ◌||◌, not, Option, none, some, List, [], ◌∷◌, ◌++◌, map, arith,
  dec_lt, ℕ_discrete, ltb, leb, ◌==◌, if◌then◌else◌, Bool-cases, Option-cases, found, length, take,
  drop, get_elem?, select, last_n, All, length-append, length-take, length-drop, take-append-drop,
  length-select-le, select-append, select_idem, Text, codes, text_discrete, ◌is◌, starts_with, Key,
  text_key, nat_key, Map, keep_if, get, put, del, Unique, get-put, get-del, put-Unique, del-Unique,
  values_where, del_where, map_values, get-map_values, get-del_where-none, get-del_where-some,
  del_where-Unique, map_values-Unique, values_where-del_where, contains, lower_code, to_lower,
  contains-append, contains_later, contains_earlier, join, decimal, last_n-append, length-last_n,
  last_n-last_n, ends_with, trim_prefix, trim_suffix,
}

abbrev pub Matcher : Type 0
Matcher = Text → Bool

-- A compiled pattern, with its text.
pub record Pattern : Type 0 where
  pub source : Text
  pub matches : Matcher

pub record CommandSandbox : Type 0 where
  pub blocked_patterns : List Pattern
  pub enabled : Bool

pub record PathValidator : Type 0 where
  pub blocked_paths : List Pattern
  pub restrict_workspace : Bool

pub data Validation : Type 0 where
  allowed : Validation
  blocked : Text → Validation
  traversal : Validation

abbrev pub is_allowed : Validation → Bool
is_allowed v = elim v [ allowed ↦ true | _ ↦ false ]

abbrev pub or_default : List Text → List Text → List Text
or_default [] default = default
or_default (p ∷ ps) default = p ∷ ps

module _ (compile : Text → Option Matcher) where
  -- None at the first pattern that is invalid.
  unfoldable pub compile_all : List Text → Option (List Pattern)
  compile_all [] = some []
  compile_all (p ∷ ps) =
      let rest = compile_all ps in
      elim (compile p) [
        | none ↦ none
        | some m ↦ elim rest [
          | none ↦ none
          | some ms ↦ some (record { source = p; matches = m } ∷ ms)
        ]
      ]

  pub new_command_sandbox : List Text → List Text → Bool → Option CommandSandbox
  new_command_sandbox default patterns enabled = elim (compile_all (or_default patterns default)) [
    | none ↦ none
    | some ms ↦ some (record { blocked_patterns = ms; enabled = enabled })
  ]

  pub new_path_validator : List Text → List Text → Bool → Option PathValidator
  new_path_validator default patterns restricted =
      elim (compile_all (or_default patterns default)) [
        | none ↦ none
        | some ms ↦ some (record { blocked_paths = ms; restrict_workspace = restricted })
      ]

abbrev pub is_space : ℕ → Bool
is_space c = c == 32 || leb 9 c && leb c 13

abbrev trim_left : Text → Text
trim_left [] = []
trim_left (c ∷ s) = if is_space c then trim_left s else c ∷ s

abbrev pub turned : Text → Text → Text
turned acc [] = acc
turned acc (c ∷ s) = turned (c ∷ acc) s

-- `strings.TrimSpace`.
abbrev pub trim_space : Text → Text
trim_space s = turned [] (trim_left (turned [] (trim_left s)))

-- The first pattern that matches.
unfoldable pub first_match : List Pattern → Text → Option Text
first_match [] s = none
first_match (p ∷ ps) s = if p.matches s then some p.source else first_match ps s

abbrev pub verdict_of : Option Text → Validation
verdict_of none = allowed
verdict_of (some source) = blocked source

unfoldable pub validate : Text → CommandSandbox → Validation
validate command s =
    if not s.enabled
    then allowed
    else verdict_of (first_match s.blocked_patterns (trim_space command))

abbrev pub normalized : Text → Text
normalized path =
    if not (starts_with path (codes "/")) && not (starts_with path (codes "~"))
    then b'/' ∷ path
    else path

-- Backslashes become slashes.
abbrev pub to_slashes : Text → Text
to_slashes [] = []
to_slashes (c ∷ s) = (if c == b'\\' then b'/' else c) ∷ to_slashes s

abbrev pub has_traversal : Text → Bool
has_traversal path =
    contains (to_slashes path) (codes "../") || contains (to_slashes path) (codes "/..")

abbrev pub is_home : Text → Bool
is_home path = not (starts_with path (codes "/")) && starts_with path (codes "~/")

unfoldable pub validate_path : Text → Text → PathValidator → Validation
validate_path workspace path v = elim (first_match v.blocked_paths (normalized path)) [
  | some source ↦ blocked source
  | none ↦
      if v.restrict_workspace && not (workspace is []) && not (is_home path) && has_traversal path
      then traversal
      else allowed
]
