-- ===== src/Usage/Slots.antt =====
-- internal/model/ratelimit.go: the semaphore that bounds the concurrent calls of a model, as a step
-- relation on the calls: each waits for a slot, calls the model, streams its answer and ends.
use kaggen.Base.{
  ℕ, zero, suc, ◌+◌, ◌-◌, ◌≤◌, ◌<◌, ◌≡◌, refl, some, List, [], ◌∷◌, ◌++◌, arith, get_elem?,
  text_key, nat_key,
}

pub data CallPhase : Type 0 where
  queued calling streaming ended : CallPhase

-- The slots taken, and the calls made so far.
pub record Semaphore : Type 0 where
  pub taken : ℕ
  pub calls : List CallPhase

abbrev pub set_call : ℕ → CallPhase → List CallPhase → List CallPhase
set_call i p [] = []
set_call zero p (q ∷ qs) = p ∷ qs
set_call (suc i) p (q ∷ qs) = q ∷ set_call i p qs

-- One step, with at most `max` slots.
pub data Step (max : ℕ) : Semaphore → Semaphore → Type 0 where
  arrives : (s : Semaphore) → Step max s (record s { calls = s.calls ++ (queued ∷ []) })
  acquires :
      (s : Semaphore) (i : ℕ)
      → get_elem? s.calls i ≡ some queued
      → s.taken < max
      → Step max s (record { taken = suc s.taken; calls = set_call i calling s.calls })
  cancelled :
      (s : Semaphore) (i : ℕ)
      → get_elem? s.calls i ≡ some queued
      → Step max s (record s { calls = set_call i ended s.calls })
  fails :
      (s : Semaphore) (i : ℕ)
      → get_elem? s.calls i ≡ some calling
      → Step max s (record { taken = s.taken - 1; calls = set_call i ended s.calls })
  answers :
      (s : Semaphore) (i : ℕ)
      → get_elem? s.calls i ≡ some calling
      → Step max s (record s { calls = set_call i streaming s.calls })
  closes :
      (s : Semaphore) (i : ℕ)
      → get_elem? s.calls i ≡ some streaming
      → Step max s (record { taken = s.taken - 1; calls = set_call i ended s.calls })

pub data Reaches (max : ℕ) : Semaphore → Semaphore → Type 0 where
  here : (s : Semaphore) → Reaches max s s
  after : (s t u : Semaphore) → Reaches max s t → Step max t u → Reaches max s u

unfoldable pub new_semaphore : Semaphore
new_semaphore = record { taken = 0; calls = [] }

abbrev pub holds : CallPhase → ℕ
holds p = elim p [ calling ↦ 1 | streaming ↦ 1 | _ ↦ 0 ]

-- The calls that hold a slot.
abbrev pub holders : List CallPhase → ℕ
holders [] = 0
holders (p ∷ ps) = holds p + holders ps

abbrev Bounded : ℕ → Semaphore → Type 0
Bounded max s = (s.taken ≡ holders s.calls) × (s.taken ≤ max)

holders-append : (ps qs : List CallPhase) → holders (ps ++ qs) ≡ holders ps + holders qs
holders-append [] qs = omega arith
holders-append (p ∷ ps) qs = omega (arith, holders-append ps qs)

holders-set_call :
    (i : ℕ) (p q : CallPhase) (ps : List CallPhase)
    → get_elem? ps i ≡ some q
    → holders (set_call i p ps) + holds q ≡ holders ps + holds p
holders-set_call i p q [] e = absurd (cc)
holders-set_call zero p q (r ∷ ps) e = let same : r ≡ q = ground (arith, e) in rw same (omega arith)
holders-set_call (suc i) p q (r ∷ ps) e = omega (arith, holders-set_call i p q ps e)

step-Bounded : (max : ℕ) (s t : Semaphore) → Step max s t → Bounded max s → Bounded max t
step-Bounded max s _ (arrives _) b = (omega (arith, b.0, holders-append s.calls (queued ∷ [])), b.1)
step-Bounded max s _ (acquires _ i e short) b =
    (omega (arith, b.0, holders-set_call i calling queued s.calls e), omega arith)
step-Bounded max s _ (cancelled _ i e) b =
    (omega (arith, b.0, holders-set_call i ended queued s.calls e), b.1)
step-Bounded max s _ (fails _ i e) b =
    (omega (arith, b.0, holders-set_call i ended calling s.calls e), omega (arith, b.1))
step-Bounded max s _ (answers _ i e) b =
    (omega (arith, b.0, holders-set_call i streaming calling s.calls e), b.1)
step-Bounded max s _ (closes _ i e) b =
    (omega (arith, b.0, holders-set_call i ended streaming s.calls e), omega (arith, b.1))

Reaches-Bounded : (max : ℕ) (s t : Semaphore) → Reaches max s t → Bounded max s → Bounded max t
Reaches-Bounded max s _ (here _) b = b
Reaches-Bounded max s u (after _ t _ before step) b =
    step-Bounded max t u step (Reaches-Bounded max s t before b)

-- In every state that is reached, the slots taken are those of the calls that wait for the model or
-- stream its answer, and there are at most `max`.
pub Reaches-holders :
    (max : ℕ) (s : Semaphore)
    → Reaches max new_semaphore s
    → (s.taken ≡ holders s.calls) × (holders s.calls ≤ max)
unfolding new_semaphore
Reaches-holders max s r =
    let b = Reaches-Bounded max new_semaphore s r (refl, omega arith) in
    (b.0, omega (arith, b.0, b.1))
