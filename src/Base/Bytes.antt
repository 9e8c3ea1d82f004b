-- ===== src/Base/Bytes.antt =====
-- Go strings as byte sequences, and their decidable equality.
use Prim.Native.Char.{code}
use Prim.Native.Nat.{ℕ, zero, suc, ◌+◌, ◌/◌, ◌%◌}
use Prim.Native.String.{String}
use mathlib.Core.Path.{◌≡◌, refl}
use mathlib.Core.Bool.{Bool, true, false, ◌&&◌, ◌||◌}
use mathlib.Core.List.{List, [], ◌∷◌, ◌++◌}
use native.Mathlib.Decide.{ℕ_discrete}
use native.Mathlib.Omega.{arith}
use kaggen.Base.Tests.{◌==◌, leb, ltb, if◌then◌else◌}

abbrev pub Text : Type 0
Text = List ℕ

-- The bytes of an ASCII literal.
abbrev pub codes : String → Text
codes String.[] = []
codes (String.◌∷◌ c s) = code c ∷ codes s

cons_heads : (x y : ℕ) (xs ys : Text) → x ∷ xs ≡ y ∷ ys → x ≡ y
cons_heads x y xs ys e = cc

cons_tails : (x y : ℕ) (xs ys : Text) → x ∷ xs ≡ y ∷ ys → xs ≡ ys
cons_tails x y xs ys e = cc

unfoldable pub text_discrete : Discrete Text
unfolding ℕ_discrete cons_heads cons_tails
text_discrete [] [] = yes refl
text_discrete [] (y ∷ ys) = no (λ e. cc)
text_discrete (x ∷ xs) [] = no (λ e. cc)
text_discrete (x ∷ xs) (y ∷ ys) = elim (ℕ_discrete x y) [
  | yes p ↦ elim (text_discrete xs ys) [
    | yes q ↦ yes (cc)
    | no q ↦ no (λ e. q (cons_tails x y xs ys e))
  ]
  | no p ↦ no (λ e. p (cons_heads x y xs ys e))
]

-- `a == b` on strings.
infix 50 ◌is◌
abbrev pub ◌is◌ : Text → Text → Bool
a is b = elim (text_discrete a b) [ yes _ ↦ true | no _ ↦ false ]

pub is_refl : (s : Text) → (s is s) ≡ true
is_refl s = elim (text_discrete s s) [
  | yes same ↦ ground (arith, same)
  | no other ↦ absurd (other refl)
]

-- `strings.HasPrefix(s, p)`.
abbrev pub starts_with : Text → Text → Bool
starts_with s [] = true
starts_with [] (c ∷ p) = false
starts_with (d ∷ s) (c ∷ p) = d == c && starts_with s p

-- `strings.Contains(s, p)`.
unfoldable pub contains : Text → Text → Bool
contains [] p = starts_with [] p
contains (c ∷ s) p = starts_with (c ∷ s) p || contains s p

-- `strings.ToLower`, on ASCII.
abbrev pub lower_code : ℕ → ℕ
lower_code c = if leb b'A' c && leb c b'Z' then c + 32 else c

abbrev pub to_lower : Text → Text
to_lower [] = []
to_lower (c ∷ s) = lower_code c ∷ to_lower s

-- `strings.Join(xs, sep)`.
abbrev pub join : Text → List Text → Text
join sep [] = []
join sep (x ∷ []) = x
join sep (x ∷ y ∷ xs) = x ++ sep ++ join sep (y ∷ xs)

-- The last digits of a number, as many as the fuel.
abbrev digits : ℕ → ℕ → Text
digits zero n = []
digits (suc f) n =
    let rest = digits f (n / 10) in if ltb n 10 then (48 + n) ∷ [] else rest ++ ((48 + n % 10) ∷ [])

-- `%d`; a number has fewer digits than it counts, and one more for 0.
abbrev pub decimal : ℕ → Text
decimal n = digits (suc n) n

starts_with-append : (p s : Text) → starts_with (p ++ s) p ≡ true
starts_with-append [] s = refl
starts_with-append (c ∷ p) s = ground (arith, starts_with-append p s)

contains-starts_with : (s p : Text) → starts_with s p ≡ true → contains s p ≡ true
unfolding contains
contains-starts_with [] p h = h
contains-starts_with (c ∷ s) p h = ground (arith, h)

-- A text contains whatever stands in it.
pub contains-append : (a p b : Text) → contains (a ++ p ++ b) p ≡ true
unfolding contains
contains-append [] p b = contains-starts_with (p ++ b) p (starts_with-append p b)
contains-append (c ∷ a) p b = ground (arith, contains-append a p b)

pub contains_later : (a s p : Text) → contains s p ≡ true → contains (a ++ s) p ≡ true
unfolding contains
contains_later [] s p h = h
contains_later (c ∷ a) s p h = ground (arith, contains_later a s p h)

starts_with_earlier : (s b p : Text) → starts_with s p ≡ true → starts_with (s ++ b) p ≡ true
starts_with_earlier s b [] h = refl
starts_with_earlier [] b (c ∷ p) h = absurd (cc)
starts_with_earlier (d ∷ s) b (c ∷ p) h = ground (arith, starts_with_earlier s b p)

pub contains_earlier : (s b p : Text) → contains s p ≡ true → contains (s ++ b) p ≡ true
unfolding contains
contains_earlier [] b p h = contains-starts_with b p (starts_with_earlier [] b p h)
contains_earlier (c ∷ s) b p h =
    ground (arith, contains_earlier s b p, starts_with_earlier (c ∷ s) b p)

abbrev last_first : Text → Text → Text
last_first acc [] = acc
last_first acc (c ∷ s) = last_first (c ∷ acc) s

-- `strings.HasSuffix(s, p)`.
abbrev pub ends_with : Text → Text → Bool
ends_with s p = starts_with (last_first [] s) (last_first [] p)

abbrev drop_codes : Text → Text → Text
drop_codes s [] = s
drop_codes [] (c ∷ p) = []
drop_codes (d ∷ s) (c ∷ p) = drop_codes s p

-- `strings.TrimPrefix(s, p)`.
abbrev pub trim_prefix : Text → Text → Text
trim_prefix s p = if starts_with s p then drop_codes s p else s

-- `strings.TrimSuffix(s, p)`.
abbrev pub trim_suffix : Text → Text → Text
trim_suffix s p = if ends_with s p then last_first [] (drop_codes (last_first [] s) p) else s
