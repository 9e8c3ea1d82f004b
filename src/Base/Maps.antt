-- ===== src/Base/Maps.antt =====
-- Go maps as association lists, over keys with a decidable equality.
use Prim.Native.Nat.{ℕ}
use mathlib.Core.Path.{◌≡◌, refl}
use mathlib.Core.Bool.{Bool, not}
use mathlib.Core.Logic.{ite}
use mathlib.Core.List.{List, [], ◌∷◌}
use mathlib.Core.Option
use mathlib.Core.Option.{Option, none, some}
use native.Mathlib.Decide.{ℕ_discrete}
use native.Mathlib.Omega.{arith}
use kaggen.Base.Tests.{if◌then◌else◌}
use kaggen.Base.Bytes.{Text, text_discrete}

pub record Key {ℓ} (K : Type ℓ) : Type ℓ where
  pub dec : Discrete K

instance abbrev pub text_key : Key Text
text_key = record { dec = text_discrete }

instance abbrev pub nat_key : Key ℕ
nat_key = record { dec = ℕ_discrete }

abbrev pub Map {ℓ} : Type ℓ → Type ℓ → Type ℓ
Map K V = List (K × V)

abbrev pub keep_if {ℓ} : {V : Type ℓ} → Bool → Option V → Option V
keep_if b o = if b then o else none

module _ {ℓ} {K V : Type ℓ} ⦃e : Key K⦄ where
  -- `v, ok := m[k]`.
  unfoldable pub get : K → Map K V → Option V
  get k [] = none
  get k ((j, v) ∷ m) = ite (e.dec j k) (some v) (get k m)

  -- `m[k] = v`.
  unfoldable pub put : K → V → Map K V → Map K V
  put k v [] = (k, v) ∷ []
  put k v ((j, w) ∷ m) = ite (e.dec j k) ((k, v) ∷ m) ((j, w) ∷ put k v m)

  -- `delete(m, k)`.
  unfoldable pub del : K → Map K V → Map K V
  del k [] = []
  del k ((j, w) ∷ m) = ite (e.dec j k) (del k m) ((j, w) ∷ del k m)

  -- No key twice, as in a Go map.
  abbrev pub Unique : Map K V → Type ℓ
  Unique [] = Unit
  Unique ((k, v) ∷ m) = (get k m ≡ none) × Unique m

  pub get-put :
      (k j : K) (v : V) (m : Map K V) → get j (put k v m) ≡ ite (e.dec k j) (some v) (get j m)
  unfolding get put
  get-put k j v [] = refl
  get-put k j v ((i, w) ∷ m) = ground (arith, get-put k j v m)

  pub get-del : (k j : K) (m : Map K V) → get j (del k m) ≡ ite (e.dec k j) none (get j m)
  unfolding get del
  get-del k j [] = ground arith
  get-del k j ((i, w) ∷ m) = ground (arith, get-del k j m)

  pub put-Unique : (k : K) (v : V) (m : Map K V) → Unique m → Unique (put k v m)
  unfolding get put
  put-Unique k v [] u = (refl, tt)
  put-Unique k v ((i, w) ∷ m) u = ground (arith, get-put k i v m, put-Unique k v m u.1)

  pub del-Unique : (k : K) (m : Map K V) → Unique m → Unique (del k m)
  unfolding del
  del-Unique k [] u = tt
  del-Unique k ((i, w) ∷ m) u = ground (arith, get-del k i m, del-Unique k m u.1)

  -- The values of a map that pass a test, as a loop over the map collects them.
  abbrev pub values_where : (V → Bool) → Map K V → List V
  values_where p [] = []
  values_where p ((k, v) ∷ m) = if p v then v ∷ values_where p m else values_where p m

  -- A loop that deletes the entries whose value passes the test.
  unfoldable pub del_where : (V → Bool) → Map K V → Map K V
  del_where p [] = []
  del_where p ((k, v) ∷ m) = if p v then del_where p m else (k, v) ∷ del_where p m

  -- A loop that updates every value in place.
  unfoldable pub map_values : (V → V) → Map K V → Map K V
  map_values f [] = []
  map_values f ((k, v) ∷ m) = (k, f v) ∷ map_values f m

  pub get-map_values :
      (k : K) (f : V → V) (m : Map K V) → get k (map_values f m) ≡ Option.map f (get k m)
  unfolding get map_values
  get-map_values k f [] = refl
  get-map_values k f ((j, v) ∷ m) = ground (arith, get-map_values k f m)

  pub get-del_where-none :
      (k : K) (p : V → Bool) (m : Map K V) → get k m ≡ none → get k (del_where p m) ≡ none
  unfolding get del_where
  get-del_where-none k p [] h = refl
  get-del_where-none k p ((j, v) ∷ m) h = ground (arith, get-del_where-none k p m)

  -- What a deleting loop leaves under a key.
  pub get-del_where-some :
      (k : K) (p : V → Bool) (m : Map K V) (v : V)
      → Unique m
      → get k m ≡ some v
      → get k (del_where p m) ≡ keep_if (not (p v)) (some v)
  unfolding get del_where
  get-del_where-some k p [] v u h = cc
  get-del_where-some k p ((j, w) ∷ m) v u h =
      ground (arith, get-del_where-some k p m v u.1, get-del_where-none j p m u.0)

  pub del_where-Unique : (p : V → Bool) (m : Map K V) → Unique m → Unique (del_where p m)
  unfolding del_where
  del_where-Unique p [] u = tt
  del_where-Unique p ((j, w) ∷ m) u =
      ground (arith, del_where-Unique p m u.1, get-del_where-none j p m u.0)

  pub map_values-Unique : (f : V → V) (m : Map K V) → Unique m → Unique (map_values f m)
  unfolding map_values
  map_values-Unique f [] u = tt
  map_values-Unique f ((j, w) ∷ m) u =
      ground (arith, map_values-Unique f m u.1, get-map_values j f m)

  -- The collected values of what a deleting loop leaves.
  pub values_where-del_where : (p : V → Bool) (m : Map K V) → values_where p (del_where p m) ≡ []
  unfolding del_where
  values_where-del_where p [] = refl
  values_where-del_where p ((j, w) ∷ m) = ground (arith, values_where-del_where p m)
