-- ===== src/Assertions/Results.antt =====
-- internal/eval/assert: what the configuration of an assertion determines, and when a count can be met.
use kaggen.Assertions.{
  Assertion, Factory, Matcher, Config, from_config, new_regex, registry, with_text, type_name,
  new_contains, new_not_contains, new_llm_rubric, new_asked_clarification, has_text, has_no_text,
  has_match, new_tool_called, ToolCalled, new_tool_sequence, Context, new_skill_selected,
}
use kaggen.Assertions.Tools.{evaluate_tool}
use kaggen.Base.{
  ◌≡◌, refl, inl, inr, false, Option, none, some, List, [], ◌∷◌, arith, Option-cases, All, Text,
  codes, text_discrete, text_key, nat_key, Map, get,
}

-- What a factory makes is of the type of its name.
abbrev Makes : Text → Factory → Type 0
Makes name new = (c : Config) (a : Assertion) → new c ≡ some a → type_name a ≡ name

AllMake : Map Text Factory → Type 0
AllMake m = All (λ e. Makes e.0 e.1) m

get-AllMake :
    (name : Text) (new : Factory) (m : Map Text Factory)
    → AllMake m
    → get name m ≡ some new
    → Makes name new
unfolding get AllMake
get-AllMake name new [] h e = absurd (cc)
get-AllMake name new ((other, f) ∷ m) h e = elim (text_discrete other name) [
  | yes same ↦ λ c a made. ground (arith, e, same, h.0 c a)
  | no apart ↦ get-AllMake name new m h.1 (ground (arith, e, apart))
]

with_text-same : (s : Text) (a b : Assertion) → with_text s a ≡ some b → b ≡ a
with_text-same [] a b e = absurd (cc)
with_text-same (c ∷ s) a b e = ground (arith, e)

given-some :
    {A B : Type 0} (xs : List A) (o : Option B) (b : B)
    → (elim xs [ [] ↦ none | _ ∷ _ ↦ o ]) ≡ some b
    → o ≡ some b
given-some [] o b e = absurd (cc)
given-some (x ∷ xs) o b e = e

made-type :
    (a b : Assertion) (name : Text) → type_name a ≡ name → some a ≡ some b → type_name b ≡ name
made-type a b name t e = let same : b ≡ a = ground (arith, e) in rw same t

module _ (compile : Text → Option Matcher) where
  new_regex-Makes : Makes (codes "regex") (new_regex compile)
  unfolding new_regex type_name
  new_regex-Makes c a e =
      let o = given-some c.value _ a e in
      elim (Option-cases (compile c.value)) [
        | inl miss ↦ absurd (ground (arith, miss, o))
        | inr (m, hit) ↦ made-type (has_match c.value m) a _ refl (ground (arith, hit, o))
      ]

  registry-AllMake : AllMake (registry compile)
  unfolding registry AllMake type_name new_contains new_not_contains new_llm_rubric
      new_asked_clarification new_tool_called new_tool_sequence new_skill_selected
  registry-AllMake = (
    (λ c a e. rw (with_text-same c.value (has_text c.value) a e) refl),
    (
      (λ c a e. rw (with_text-same c.value (has_no_text c.value) a e) refl),
      (
        new_regex-Makes,
        (
          (λ c a e. made-type _ a _ refl (given-some c.tool _ a e)),
          (
            (λ c a e. made-type _ a _ refl (given-some c.sequence _ a e)),
            (
              (λ c a e. rw (with_text-same c.rubric _ a e) refl),
              (
                (λ c a e. made-type _ a _ refl (given-some c.skill _ a e)),
                ((λ c a e. made-type _ a _ refl e), tt),
              ),
            ),
          ),
        ),
      ),
    ),
  )

  -- An assertion is of the type that its configuration names.
  pub type_name-from_config :
      (c : Config) (a : Assertion) → from_config compile c ≡ some a → type_name a ≡ c.kind
  unfolding from_config
  type_name-from_config c a e = elim (Option-cases (get c.kind (registry compile))) [
    | inl miss ↦ absurd (ground (arith, miss, e))
    | inr (new, hit) ↦
        get-AllMake c.kind new (registry compile) registry-AllMake hit c a (ground (arith, hit, e))
  ]

-- An assertion with the upper bound 0 and no other count passes on no run: no call is too few for it,
-- and one is too many.
pub evaluate_tool-max_zero :
    (compile : Text → Option Matcher) (a : ToolCalled) (ctx : Context)
    → a.count ≡ none
    → a.min_count ≡ none
    → a.max_count ≡ some 0
    → (evaluate_tool compile a ctx).passed ≡ false
unfolding evaluate_tool
evaluate_tool-max_zero compile a ctx c low high = ground (arith, c, low, high)
