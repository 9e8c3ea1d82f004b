-- ===== src/Assertions/Sequences.antt =====
-- internal/eval/assert/tool_called.go, `ToolSequence`: the greedy scan against the definition of a
-- subsequence.
use kaggen.Assertions.Tools.{advance, evaluate_sequence, call_name}
use kaggen.Assertions.{Context}
use kaggen.Base.{
  ℕ, zero, suc, ◌≤◌, ◌≡◌, refl, inl, inr, Bool, true, false, ◌&&◌, ◌||◌, none, some, List, [], ◌∷◌,
  map, arith, ◌==◌, Option-cases, length, drop, get_elem?, Text, ◌is◌, text_key, nat_key,
}

-- Whether some of the names, in order, are the wanted ones.
unfoldable pub is_subsequence : List Text → List Text → Bool
is_subsequence [] names = true
is_subsequence (w ∷ ws) [] = false
is_subsequence (w ∷ ws) (n ∷ names) =
    n is w && is_subsequence ws names || is_subsequence (w ∷ ws) names

is_subsequence-later :
    (ws : List Text) (n : Text) (names : List Text)
    → is_subsequence ws names ≡ true
    → is_subsequence ws (n ∷ names) ≡ true
unfolding is_subsequence
is_subsequence-later [] n names h = refl
is_subsequence-later (w ∷ ws) n names h = ground (arith, h)

is_subsequence-tail :
    (w : Text) (ws names : List Text)
    → is_subsequence (w ∷ ws) names ≡ true
    → is_subsequence ws names ≡ true
unfolding is_subsequence
is_subsequence-tail w ws [] h = absurd (cc)
is_subsequence-tail w ws (n ∷ names) h =
    is_subsequence-later ws n names (ground (arith, h, is_subsequence-tail w ws names))

get_elem?-none :
    (ws : List Text) (i : ℕ)
    → i ≤ length ws
    → get_elem? ws i ≡ none
    → (drop i ws ≡ []) × (i ≡ length ws)
get_elem?-none [] zero h e = (refl, refl)
get_elem?-none [] (suc i) h e = absurd (omega arith)
get_elem?-none (w ∷ ws) zero h e = absurd (cc)
get_elem?-none (w ∷ ws) (suc i) h e =
    let (rest, same) = get_elem?-none ws i (omega arith) e in (rest, omega arith)

get_elem?-some :
    (ws : List Text) (i : ℕ) (w : Text)
    → get_elem? ws i ≡ some w
    → (drop i ws ≡ w ∷ drop (suc i) ws) × (suc i ≤ length ws)
get_elem?-some [] i w e = absurd (cc)
get_elem?-some (v ∷ ws) zero w e = (ground (arith, e), omega arith)
get_elem?-some (v ∷ ws) (suc i) w e =
    let (rest, short) = get_elem?-some ws i w e in (rest, omega arith)

advance-is_subsequence :
    (ws : List Text) (i : ℕ) (names : List Text)
    → i ≤ length ws
    → (advance ws i names == length ws) ≡ is_subsequence (drop i ws) names
unfolding advance is_subsequence
advance-is_subsequence ws i [] h = elim (Option-cases (get_elem? ws i)) [
  | inl miss ↦ ground (arith, get_elem?-none ws i h miss)
  | inr (w, hit) ↦ ground (arith, get_elem?-some ws i w hit)
]
advance-is_subsequence ws i (n ∷ names) h = elim (Option-cases (get_elem? ws i)) [
  | inl miss ↦ ground (arith, miss, get_elem?-none ws i h miss, advance-is_subsequence ws i names h)
  | inr (w, hit) ↦
      let (here, short) = get_elem?-some ws i w hit in
      let stays = advance-is_subsequence ws i names h in
      let moves = advance-is_subsequence ws (suc i) names short in
      ground (arith, hit, here, stays, moves, is_subsequence-tail w (drop (suc i) ws) names)
]

-- A sequence passes exactly if it is a subsequence of the names of the calls.
pub evaluate_sequence-is_subsequence :
    (ws : List Text) (ctx : Context)
    → (evaluate_sequence ws ctx).passed ≡ is_subsequence ws (map call_name ctx.tool_calls)
unfolding evaluate_sequence
evaluate_sequence-is_subsequence ws ctx =
    ground (arith, advance-is_subsequence ws 0 (map call_name ctx.tool_calls))
