-- ===== src/Vfs/Paths/Clean.antt =====
-- A cleaned path holds plain names only, and splitting undoes joining.
use mathlib.Core.List.{reverse, reverse-cons, append_assoc, append-nil}
use kaggen.Base.{
  ℕ, ◌≡◌, refl, sym, ap, ◌∙◌, ◌≢◌, List, [], ◌∷◌, ◌++◌, arith, ℕ_discrete, All, Text, text_discrete,
  text_key, nat_key,
}
use kaggen.Vfs.Paths.{
  slash, split_slash, join_slash, dot, dot_dot, clean_step, clean_parts, clean, onto_head, split,
  without_last, last_part,
}

-- No slash inside.
abbrev pub HasNoSlash : Text → Type 0
HasNoSlash = All (λ c. c ≢ slash)

-- A name that stays in its directory: not empty, not a dot or a double dot, and in one piece.
pub record IsPlain (p : Text) : Type 0 where
  pub nonempty : p ≢ []
  pub not_dot : p ≢ dot
  pub not_dot_dot : p ≢ dot_dot
  pub whole : HasNoSlash p

onto_head-All :
    (c : ℕ) (ps : List Text) → c ≢ slash → All HasNoSlash ps → All HasNoSlash (onto_head c ps)
onto_head-All c [] h a = ((h, tt), tt)
onto_head-All c (p ∷ ps) h a = ((h, a.0), a.1)

split_slash-All : (s : Text) → All HasNoSlash (split_slash s)
unfolding split_slash
split_slash-All [] = (tt, tt)
split_slash-All (c ∷ s) = elim (ℕ_discrete c slash) [
  | yes e ↦ ground (arith, split_slash-All s)
  | no e ↦ ground (arith, onto_head-All c (split_slash s) e (split_slash-All s))
]

clean_step-All :
    (done : List Text) (p : Text)
    → HasNoSlash p
    → All IsPlain done
    → All IsPlain (clean_step done p)
clean_step-All [] p n a = ground arith
clean_step-All (q ∷ qs) p n a = ground arith

All-append : (P : Text → Type 0) (xs ys : List Text) → All P xs → All P ys → All P (xs ++ ys)
All-append P [] ys a b = b
All-append P (x ∷ xs) ys a b = (a.0, All-append P xs ys a.1 b)

All-reverse : (P : Text → Type 0) (xs : List Text) → All P xs → All P (reverse xs)
All-reverse P [] a = tt
All-reverse P (x ∷ xs) a =
    rw (reverse-cons x xs) (All-append P (reverse xs) (x ∷ []) (All-reverse P xs a.1) (a.0, tt))

pub clean_parts-All :
    (done ps : List Text) → All HasNoSlash ps → All IsPlain done → All IsPlain (clean_parts done ps)
unfolding clean_parts
clean_parts-All done [] n a = All-reverse IsPlain done a
clean_parts-All done (p ∷ ps) n a =
    clean_parts-All (clean_step done p) ps n.1 (clean_step-All done p n.0 a)

-- The elements of any cleaned path are plain names: no path, however many double dots it has, leads
-- out of the root.
pub clean-IsPlain : (name : Text) → All IsPlain (clean_parts [] (split_slash name))
clean-IsPlain name = clean_parts-All [] (split_slash name) (split_slash-All name) tt

pub split_slash-one : (p : Text) → HasNoSlash p → split_slash p ≡ p ∷ []
unfolding split_slash
split_slash-one [] n = refl
split_slash-one (c ∷ p) n = ground (arith, split_slash-one p n.1, n.0)

split_slash-append :
    (p s : Text) → HasNoSlash p → split_slash (p ++ (slash ∷ s)) ≡ p ∷ split_slash s
unfolding split_slash
split_slash-append [] s n = refl
split_slash-append (c ∷ p) s n = ground (arith, split_slash-append p s n.1, n.0)

-- Splitting undoes joining.
pub split_slash-join_slash :
    (p : Text) (ps : List Text)
    → All HasNoSlash (p ∷ ps)
    → split_slash (join_slash (p ∷ ps)) ≡ p ∷ ps
unfolding join_slash
split_slash-join_slash p [] n = split_slash-one p n.0
split_slash-join_slash p (q ∷ ps) n =
    split_slash-append p (join_slash (q ∷ ps)) n.0 ∙ ap (◌∷◌ p) (split_slash-join_slash q ps n.1)

pub clean_parts-plain :
    (done ps : List Text) → All IsPlain ps → clean_parts done ps ≡ reverse done ++ ps
unfolding clean_parts
clean_parts-plain done [] a = sym (append-nil (reverse done))
clean_parts-plain done (p ∷ ps) a =
    let kept : clean_step done p ≡ p ∷ done =
      ground (arith, a.0.nonempty, a.0.not_dot, a.0.not_dot_dot) in
    rw kept (
      clean_parts-plain (p ∷ done) ps a.1
      ∙ ap (λ x. x ++ ps) (reverse-cons p done)
      ∙ append_assoc (reverse done) (p ∷ []) ps)

pub IsPlain-whole : (ps : List Text) → All IsPlain ps → All HasNoSlash ps
IsPlain-whole [] a = tt
IsPlain-whole (p ∷ ps) a = (a.0.whole, IsPlain-whole ps a.1)

pub clean_parts-join :
    (ps : List Text) → All IsPlain ps → clean_parts [] (split_slash (join_slash ps)) ≡ ps
unfolding clean_parts split_slash join_slash text_discrete
clean_parts-join [] a = refl
clean_parts-join (p ∷ ps) a =
    rw (split_slash-join_slash p ps (IsPlain-whole (p ∷ ps) a)) (clean_parts-plain [] (p ∷ ps) a)

-- Cleaning a cleaned path changes nothing.
pub clean-clean : (name : Text) → clean (clean name) ≡ clean name
unfolding clean
clean-clean name = ap join_slash (clean_parts-join _ (clean-IsPlain name))

-- The names of a cleaned path.
abbrev pub clean_list : Text → List Text
clean_list name = clean_parts [] (split_slash name)

pub join_slash-nonempty : (p : Text) (ps : List Text) → p ≢ [] → join_slash (p ∷ ps) ≢ []
unfolding join_slash
join_slash-nonempty p [] h = h
join_slash-nonempty [] (q ∷ ps) h = absurd (h refl)
join_slash-nonempty (c ∷ p) (q ∷ ps) h = λ e. cc

pub without_last-append :
    (p : Text) (ps : List Text) → without_last (p ∷ ps) ++ (last_part (p ∷ ps) ∷ []) ≡ p ∷ ps
without_last-append p [] = refl
without_last-append p (q ∷ ps) = ap (◌∷◌ p) (without_last-append q ps)

pub without_last-All : (P : Text → Type 0) (ps : List Text) → All P ps → All P (without_last ps)
without_last-All P [] a = tt
without_last-All P (p ∷ []) a = tt
without_last-All P (p ∷ q ∷ ps) a = (a.0, without_last-All P (q ∷ ps) a.1)

-- Cleaning a path of plain names gives the path.
pub clean-join_slash : (ps : List Text) → All IsPlain ps → clean (join_slash ps) ≡ join_slash ps
unfolding clean
clean-join_slash ps a = ap join_slash (clean_parts-join ps a)

-- The parent and the base of a path of plain names.
pub split-join_slash :
    (p : Text) (ps : List Text)
    → All IsPlain (p ∷ ps)
    → split (join_slash (p ∷ ps)) ≡ (join_slash (without_last (p ∷ ps)), last_part (p ∷ ps))
unfolding split
split-join_slash p ps a = rw (split_slash-join_slash p ps (IsPlain-whole (p ∷ ps) a))

pub clean_lem : (name : Text) → clean name ≡ join_slash (clean_list name)
unfolding clean
clean_lem name = refl
