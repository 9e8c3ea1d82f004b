-- ===== src/Scoped/Confinement.antt =====
-- internal/vfs/scoped.go: which paths the operations reach.
use kaggen.Base.{
  ◌≡◌, refl, sym, ap, ◌∙◌, ◌≢◌, ◌⊎◌, inl, inr, true, ◌&&◌, Option, none, some, List, [], ◌∷◌, ◌++◌,
  arith, Bool-cases, Option-cases, Text, text_discrete, text_key, nat_key, is_refl,
}
use kaggen.Scoped.{
  Elements, Call, Resolved, is_prefix, is_under_root, perform, perform_resolved, rename,
  rename_resolved, resolve, walk_up, Op, called, cleaned, resolved, denied, removes, same_path,
  renamed, refused, ancestors, is_below,
}

same_path_sound : (p q : Elements) → same_path p q ≡ true → p ≡ q
same_path_sound [] [] h = refl
same_path_sound [] (y ∷ q) h = absurd (cc)
same_path_sound (x ∷ p) [] h = absurd (cc)
same_path_sound (x ∷ p) (y ∷ q) h = elim (text_discrete x y) [
  | yes e ↦ let rest = same_path_sound p q (ground (arith, e, h)) in cc
  | no n ↦ absurd (ground (arith, n, h))
]

same_path_refl : (p : Elements) → same_path p p ≡ true
same_path_refl [] = refl
same_path_refl (x ∷ p) = ground (arith, is_refl x, same_path_refl p)

is_prefix_sound : (r p : Elements) → is_prefix r p ≡ true → (q : Elements) × (p ≡ r ++ q)
is_prefix_sound [] p h = (p, refl)
is_prefix_sound (x ∷ r) [] h = absurd (cc)
is_prefix_sound (x ∷ r) (y ∷ p) h = elim (text_discrete x y) [
  | yes e ↦ let (q, rest) = is_prefix_sound r p (ground (arith, e, h)) in (q, cc)
  | no n ↦ absurd (ground (arith, n, h))
]

append-nil : (r : Elements) → r ++ [] ≡ r
append-nil [] = refl
append-nil (x ∷ r) = ap (◌∷◌ x) (append-nil r)

-- The path is the root directory or continues it.
abbrev pub IsBelow : Elements → Elements → Type 0
IsBelow root p = (q : Elements) × (p ≡ root ++ q)

is_below_sound : (root p : Elements) → is_below root p ≡ true → IsBelow root p
is_below_sound [] p h = absurd (cc)
is_below_sound (r ∷ root) p h = is_prefix_sound (r ∷ root) p h

is_under_root_sound : (root p : Elements) → is_under_root root p ≡ true → IsBelow root p
unfolding is_under_root
is_under_root_sound root p h = elim (Bool-cases (same_path p root)) [
  | inl e ↦ ([], same_path_sound p root e ∙ sym (append-nil root))
  | inr e ↦ is_below_sound root p (ground (arith, e, h))
]

module _ (eval_symlinks : Elements → Option Elements) where
  -- The first of some paths that resolves, if one does, resolves below the root.
  abbrev pub FirstIsBelow : Elements → List Elements → Type 0
  FirstIsBelow root [] = Unit
  FirstIsBelow root (p ∷ ps) =
      ((real : Elements) → eval_symlinks p ≡ some real → IsBelow root real)
      × (eval_symlinks p ≡ none → FirstIsBelow root ps)

  -- What may be asked of the system for a path of the root directory: a path below the root. It is what
  -- the path resolves to; or the path does not resolve, and its nearest ancestor that does resolves
  -- below the root.
  abbrev pub IsVetted : Elements → Elements → Elements → Type 0
  IsVetted root full p =
      IsBelow root p
      × ((eval_symlinks full ≡ some p)
          ⊎ ((eval_symlinks full ≡ none) × (p ≡ full) × FirstIsBelow root (ancestors full)))

  abbrev pub Vetted : Elements → Elements → Resolved → Type 0
  Vetted root full denied = Unit
  Vetted root full (resolved p) = IsVetted root full p

  walk_up-FirstIsBelow :
      (root full : Elements) (parents : List Elements)
      → (walk_up eval_symlinks root full parents ≡ denied)
        ⊎ ((walk_up eval_symlinks root full parents ≡ resolved full) × FirstIsBelow root parents)
  unfolding walk_up
  walk_up-FirstIsBelow root full [] = inr (refl, tt)
  walk_up-FirstIsBelow root full (parent ∷ parents) = elim (Option-cases (eval_symlinks parent)) [
    | inl miss ↦ elim (walk_up-FirstIsBelow root full parents) [
      | inl out ↦ inl (ground (arith, miss, out))
      | inr (kept, first) ↦ inr (ground (arith, miss, kept), ((λ real e. absurd (cc)), λ e. first))
    ]
    | inr (real, hit) ↦ elim (Bool-cases (is_under_root root real)) [
      | inl under ↦ inr (
        ground (arith, hit, under),
        (
          (λ other e.
              (let same : real ≡ other = cc in rw (← same) (is_under_root_sound root real under))),
          λ e. absurd (cc),
        ),
      )
      | inr outside ↦ inl (ground (arith, hit, outside))
    ]
  ]

  resolve-Vetted :
      (root : Elements) (name : Text)
      → Vetted root (root ++ cleaned name) (resolve eval_symlinks root name)
  unfolding resolve
  resolve-Vetted root name =
      let full = root ++ cleaned name in
      elim (Option-cases (eval_symlinks full)) [
        | inl miss ↦
            let walks : resolve eval_symlinks root name
                ≡ walk_up eval_symlinks root full (ancestors full) =
              ground (arith, miss) in
            elim (walk_up-FirstIsBelow root full (ancestors full)) [
              | inl out ↦ rw (walks, out) tt
              | inr (kept, first) ↦ rw (walks, kept) ((cleaned name, refl), inr (miss, refl, first))
            ]
        | inr (real, hit) ↦ elim (Bool-cases (is_under_root root real)) [
          | inl under ↦
              let ends : resolve eval_symlinks root name ≡ resolved real =
                ground (arith, hit, under) in
              rw ends (is_under_root_sound root real under, inl hit)
          | inr outside ↦
              let ends : resolve eval_symlinks root name ≡ denied = ground (arith, hit, outside) in
              rw ends tt
        ]
      ]

  -- What a call may ask for; what is removed is not the root itself.
  abbrev pub Stays : Elements → Text → Text → Call → Type 0
  Stays root name other refused = Unit
  Stays root name other (called op p) =
      IsVetted root (root ++ cleaned name) p × (removes op ≡ true → p ≢ root)
  Stays root name other (renamed p q) =
      IsVetted root (root ++ cleaned name) p × IsVetted root (root ++ cleaned other) q

  perform_resolved-Stays :
      (root : Elements) (op : Op) (name other : Text) (r : Resolved)
      → Vetted root (root ++ cleaned name) r
      → Stays root name other (perform_resolved root op r)
  unfolding perform_resolved
  perform_resolved-Stays root op name other denied h = tt
  perform_resolved-Stays root op name other (resolved p) h =
      elim (Bool-cases (removes op && same_path p root)) [
        | inl spared ↦ rw spared tt
        | inr given ↦
            rw given
              (h, λ removing same. ground (arith, given, removing, same, same_path_refl root))
      ]

  rename_resolved-Stays :
      (root : Elements) (name other : Text) (r q : Resolved)
      → Vetted root (root ++ cleaned name) r
      → Vetted root (root ++ cleaned other) q
      → Stays root name other (rename_resolved r q)
  unfolding rename_resolved
  rename_resolved-Stays root name other denied q h k = tt
  rename_resolved-Stays root name other (resolved p) denied h k = tt
  rename_resolved-Stays root name other (resolved p) (resolved p') h k = (h, k)

  -- Whatever an operation or a renaming asks of the system, it names paths whose elements continue those
  -- of the root directory, and no removal names the root itself. Each of the paths is what the given name
  -- resolves to under the root; or the name does not resolve, the path is the name itself under the root,
  -- and its nearest ancestor that resolves, resolves to the root or below. Where links that do not resolve
  -- lead is not said.
  pub perform-Stays :
      (root : Elements) (op : Op) (name other : Text)
      → Stays root name other (perform eval_symlinks root op name)
        × Stays root name other (rename eval_symlinks root name other)
  unfolding perform rename
  perform-Stays root op name other = (
    perform_resolved-Stays root op name other (resolve eval_symlinks root name)
        (resolve-Vetted root name),
    rename_resolved-Stays root name other (resolve eval_symlinks root name)
        (resolve eval_symlinks root other) (resolve-Vetted root name) (resolve-Vetted root other),
  )
