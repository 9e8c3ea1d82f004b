-- ===== src/Security/Traversal.antt =====
-- internal/security/sandbox.go, `ValidatePath`: the path elements of what it allows.
use kaggen.Base.{
  ℕ, ◌≡◌, refl, ◌≢◌, ◌⊎◌, inl, inr, true, false, List, [], ◌∷◌, ◌++◌, arith, ℕ_discrete,
  Option-cases, All, Text, codes, starts_with, text_key, nat_key, contains,
}
use kaggen.Security.{
  first_match, validate_path, PathValidator, is_home, to_slashes, allowed, has_traversal,
  normalized,
}
use kaggen.Vfs.Paths.{split_slash, onto_head, slash, dot_dot}

abbrev first_part : List Text → Text
first_part [] = []
first_part (p ∷ ps) = p

abbrev later_parts : List Text → List Text
later_parts [] = []
later_parts (p ∷ ps) = ps

first_part-onto_head : (c : ℕ) (ps : List Text) → first_part (onto_head c ps) ≡ c ∷ first_part ps
first_part-onto_head c [] = refl
first_part-onto_head c (p ∷ ps) = refl

later_parts-onto_head : (c : ℕ) (ps : List Text) → later_parts (onto_head c ps) ≡ later_parts ps
later_parts-onto_head c [] = refl
later_parts-onto_head c (p ∷ ps) = refl

abbrev slash_after : Text → Text
slash_after [] = slash ∷ []
slash_after (d ∷ p) = d ∷ slash_after p

-- The first element is the whole text, or a slash follows it.
first_part-split_slash :
    (p s : Text) → first_part (split_slash s) ≡ p → (s ≡ p) ⊎ (starts_with s (slash_after p) ≡ true)
unfolding split_slash
first_part-split_slash [] [] e = inl refl
first_part-split_slash (d ∷ p) [] e = absurd (cc)
first_part-split_slash [] (c ∷ s) e = elim (ℕ_discrete c slash) [
  | yes same ↦ inr (ground (arith, same))
  | no other ↦ absurd (ground (arith, e, other, first_part-onto_head c (split_slash s)))
]
first_part-split_slash (d ∷ p) (c ∷ s) e = elim (ℕ_discrete c slash) [
  | yes same ↦ absurd (ground (arith, e, same))
  | no other ↦
      let whole : c ∷ first_part (split_slash s) ≡ d ∷ p =
        ground (arith, e, other, first_part-onto_head c (split_slash s)) in
      let heads : c ≡ d = cc in
      let tails : first_part (split_slash s) ≡ p = cc in
      elim (first_part-split_slash p s tails) [
        | inl all ↦ inl (cc)
        | inr more ↦ inr (ground (arith, heads, more))
      ]
]

contains-cons :
    (c : ℕ) (s p : Text)
    → contains (c ∷ s) p ≡ false
    → (starts_with (c ∷ s) p ≡ false) × (contains s p ≡ false)
unfolding contains
contains-cons c s p e = (ground (arith, e), ground (arith, e))

abbrev up_slash : Text
up_slash = codes "../"

abbrev slash_up : Text
slash_up = codes "/.."

starts_with-shorter : (s p q : Text) → starts_with s (p ++ q) ≡ true → starts_with s p ≡ true
starts_with-shorter s [] q e = refl
starts_with-shorter [] (d ∷ p) q e = absurd (cc)
starts_with-shorter (c ∷ s) (d ∷ p) q e = ground (arith, e, starts_with-shorter s p q)

first_part-starts : (s : Text) → first_part (split_slash s) ≡ dot_dot → starts_with s dot_dot ≡ true
first_part-starts s e = elim (first_part-split_slash dot_dot s e) [
  | inl same ↦ rw same refl
  | inr more ↦ starts_with-shorter s dot_dot (slash ∷ []) more
]

-- The elements of a path that does not go up.
abbrev pub Plain : List Text → Type 0
Plain ps = All (λ p. p ≢ dot_dot) ps

parts-Plain : (ps : List Text) → first_part ps ≢ dot_dot → Plain (later_parts ps) → Plain ps
parts-Plain [] h k = tt
parts-Plain (p ∷ ps) h k = (h, k)

split_slash-cons :
    (c : ℕ) (s : Text)
    → (c ≡ slash) × (split_slash (c ∷ s) ≡ [] ∷ split_slash s)
      ⊎ (split_slash (c ∷ s) ≡ onto_head c (split_slash s))
unfolding split_slash
split_slash-cons c s = elim (ℕ_discrete c slash) [
  | yes same ↦ inl (same, ground (arith, same))
  | no other ↦ inr (ground (arith, other))
]

-- No element after the first goes up.
later_parts-Plain : (s : Text) → contains s slash_up ≡ false → Plain (later_parts (split_slash s))
unfolding split_slash
later_parts-Plain [] h = tt
later_parts-Plain (c ∷ s) h =
    let (here, deeper) = contains-cons c s slash_up h in
    let ih = later_parts-Plain s deeper in
    elim (split_slash-cons c s) [
      | inl (same, cut) ↦
          let first : first_part (split_slash s) ≢ dot_dot =
            λ e. ground (arith, same, here, first_part-starts s e) in
          rw cut (parts-Plain (split_slash s) first ih)
      | inr kept ↦ rw (kept, later_parts-onto_head c (split_slash s)) ih
    ]

contains-start : (s p : Text) → contains s p ≡ false → starts_with s p ≡ false
unfolding contains
contains-start [] p h = h
contains-start (c ∷ s) p h = ground (arith, h)

split_slash-Plain :
    (s : Text)
    → contains s up_slash ≡ false
    → contains s slash_up ≡ false
    → s ≢ dot_dot
    → Plain (split_slash s)
split_slash-Plain s up down other =
    let first : first_part (split_slash s) ≢ dot_dot = λ e.
      elim (first_part-split_slash dot_dot s e) [
        | inl whole ↦ other whole
        | inr more ↦ ground (arith, more, contains-start s up_slash up)
      ] in
    parts-Plain (split_slash s) first (later_parts-Plain s down)

-- With the workspace restriction, no path element of an allowed path is "..", unless the whole path is
-- ".." or the path starts with "~/". Backslashes count as slashes.
pub validate_path-Plain :
    (workspace path : Text) (v : PathValidator)
    → v.restrict_workspace ≡ true
    → workspace ≢ []
    → is_home path ≡ false
    → to_slashes path ≢ dot_dot
    → validate_path workspace path v ≡ allowed
    → Plain (split_slash (to_slashes path))
unfolding validate_path
validate_path-Plain workspace path v restricted given home other ok =
    let clean : has_traversal path ≡ false =
      elim (Option-cases (first_match v.blocked_paths (normalized path))) [
        | inl miss ↦ ground (arith, miss, restricted, given, home, ok)
        | inr (source, hit) ↦ absurd (ground (arith, hit, ok))
      ] in
    split_slash-Plain (to_slashes path) (ground (arith, clean)) (ground (arith, clean)) other
