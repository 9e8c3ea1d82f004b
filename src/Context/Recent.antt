-- ===== src/Context/Recent.antt =====
-- internal/agent/context_manager.go: what every level keeps.
use kaggen.Base.{
  ℕ, zero, suc, ◌-◌, ◌≤◌, ◌≡◌, refl, ◌∙◌, inl, inr, Bool, true, false, ◌||◌, not, Option, List, [],
  ◌∷◌, ◌++◌, arith, ltb, leb, Bool-cases, length, take, drop, last_n, All, length-append,
  select-append, Text, text_key, nat_key, last_n-append, length-last_n, last_n-last_n,
}
use kaggen.Context.Emergency.{
  check_and_prune, emergency_prune, prune, emergency_message, create_emergency_summary,
  check_and_prune-cases,
}
use kaggen.Context.{
  Message, is_system, non_system, system_message, consolidate_messages, truncate_tool_outputs,
  ContextManager, consolidation_marker, truncate_output, estimate_messages_tokens, percent,
}

abbrev pub recent : List Message → List Message
recent ms = last_n 4 (non_system ms)

abbrev spoken : Message → Bool
spoken m = not (is_system m)

-- A list of no system messages.
abbrev Spoken : List Message → Type 0
Spoken ms = All (λ m. is_system m ≡ false) ms

non_system-Spoken : (ms : List Message) → Spoken (non_system ms)
non_system-Spoken [] = tt
non_system-Spoken (m ∷ ms) = ground (arith, non_system-Spoken ms)

Spoken-non_system : (ms : List Message) → Spoken ms → non_system ms ≡ ms
Spoken-non_system [] h = refl
Spoken-non_system (m ∷ ms) h = ground (arith, h.0, Spoken-non_system ms h.1)

Spoken-system_message : (ms : List Message) → Spoken ms → system_message ms ≡ []
Spoken-system_message [] h = refl
Spoken-system_message (m ∷ ms) h = ground (arith, h.0, Spoken-system_message ms h.1)

drop-Spoken : (n : ℕ) (ms : List Message) → Spoken ms → Spoken (drop n ms)
drop-Spoken zero ms h = h
drop-Spoken (suc n) [] h = tt
drop-Spoken (suc n) (m ∷ ms) h = drop-Spoken n ms h.1

take-Spoken : (n : ℕ) (ms : List Message) → Spoken ms → Spoken (take n ms)
take-Spoken zero ms h = tt
take-Spoken (suc n) [] h = tt
take-Spoken (suc n) (m ∷ ms) h = (h.0, take-Spoken n ms h.1)

append-Spoken : (ms ns : List Message) → Spoken ms → Spoken ns → Spoken (ms ++ ns)
append-Spoken [] ns h k = k
append-Spoken (m ∷ ms) ns h k = (h.0, append-Spoken ms ns h.1 k)

non_system-system_message : (ms : List Message) → non_system (system_message ms) ≡ []
non_system-system_message [] = refl
non_system-system_message (m ∷ ms) = ground (arith, non_system-system_message ms)

system_message-append :
    (ms ns : List Message)
    → Spoken ns
    → system_message (system_message ms ++ ns) ≡ system_message ms
system_message-append [] ns h = Spoken-system_message ns h
system_message-append (m ∷ ms) ns h = ground (arith, system_message-append ms ns h)

non_system-append : (ms ns : List Message) → Spoken ns → non_system (system_message ms ++ ns) ≡ ns
non_system-append ms ns h =
    rw (select-append spoken (system_message ms) ns, non_system-system_message ms)
      (Spoken-non_system ns h)

-- Another list has the same system message and the same last messages.
abbrev Keeps : List Message → List Message → Type 0
Keeps ms ns = (system_message ns ≡ system_message ms) × (recent ns ≡ recent ms)

-- A list that starts with the system message of another and ends with its last messages.
ends-Keeps :
    (ms ns : List Message)
    → 4 ≤ length ns
    → last_n 4 ns ≡ recent ms
    → Spoken ns
    → Keeps ms (system_message ms ++ ns)
ends-Keeps ms ns h e s = (system_message-append ms ns s, rw (non_system-append ms ns s) e)

end-Spoken : (k : ℕ) (ms : List Message) → Spoken (last_n k (non_system ms))
end-Spoken k ms = drop-Spoken (length (non_system ms) - k) (non_system ms) (non_system-Spoken ms)

-- A message before the last ones.
last_n-cons :
    (k : ℕ) (m : Message) (ms : List Message)
    → 4 ≤ k
    → 4 ≤ length (non_system ms)
    → last_n 4 (m ∷ last_n k (non_system ms)) ≡ recent ms
last_n-cons k m ms h four =
    let end = last_n k (non_system ms) in
    let long : 4 ≤ length end = omega (arith, length-last_n k (non_system ms)) in
    last_n-append 4 (m ∷ []) end long ∙ last_n-last_n 4 k (non_system ms) h

emergency_prune-Keeps :
    (decode : Text → Option (List (Text × Option Text))) (cm : ContextManager) (ms : List Message)
    → 4 ≤ length (non_system ms)
    → Keeps ms (emergency_prune decode cm ms)
unfolding emergency_prune emergency_message
emergency_prune-Keeps decode cm ms four =
    let m = emergency_message cm.original_task (create_emergency_summary decode ms) in
    let long : 4 ≤ length (m ∷ last_n 4 (non_system ms)) =
      omega (arith, length-last_n 4 (non_system ms)) in
    ends-Keeps ms (m ∷ last_n 4 (non_system ms)) long (last_n-cons 4 m ms (omega arith) four)
      (refl, end-Spoken 4 ms)

-- At least four messages that are not the system's are left of four.
consolidate_messages-Keeps :
    (cm : ContextManager) (ms : List Message)
    → 4 ≤ length (non_system ms)
    → Keeps ms (consolidate_messages cm ms) × (4 ≤ length (non_system (consolidate_messages cm ms)))
unfolding consolidate_messages consolidation_marker
consolidate_messages-Keeps cm ms four =
    elim (Bool-cases (leb (length ms) 4 || leb (length (non_system ms)) 10)) [
      | inl few ↦ rw few ((refl, refl), four)
      | inr many ↦
          let rest = non_system ms in
          let m = consolidation_marker cm.original_task (length rest - 2 - 8) in
          let long : 4 ≤ length (m ∷ last_n 8 rest) = omega (arith, length-last_n 8 rest) in
          let ns = take 2 rest ++ (m ∷ last_n 8 rest) in
          let longer : 4 ≤ length ns =
            omega (arith, long, length-append (take 2 rest) (m ∷ last_n 8 rest)) in
          let e =
            last_n-append 4 (take 2 rest) (m ∷ last_n 8 rest) long
            ∙ last_n-cons 8 m ms (omega arith) four in
          let s =
            append-Spoken (take 2 rest) (m ∷ last_n 8 rest)
              (take-Spoken 2 rest (non_system-Spoken ms)) (refl, end-Spoken 8 ms) in
          rw many (ends-Keeps ms ns longer e s, rw (non_system-append ms ns s) longer)
    ]

length-non_system-truncate :
    (cm : ContextManager) (ms : List Message)
    → length (non_system (truncate_tool_outputs cm ms)) ≡ length (non_system ms)
unfolding truncate_tool_outputs truncate_output
length-non_system-truncate cm [] = refl
length-non_system-truncate cm (m ∷ ms) = ground (arith, length-non_system-truncate cm ms)

prune-Keeps :
    (decode : Text → Option (List (Text × Option Text))) (cm : ContextManager) (n : ℕ)
    (ms : List Message)
    → 4 ≤ length (non_system ms)
    → Keeps (truncate_tool_outputs cm ms) (prune decode cm n ms)
unfolding prune
prune-Keeps decode cm n ms four =
    let short = truncate_tool_outputs cm ms in
    let merged = consolidate_messages cm short in
    let four_short : 4 ≤ length (non_system short) =
      omega (arith, length-non_system-truncate cm ms) in
    let (kept, long) = consolidate_messages-Keeps cm short four_short in
    elim (Bool-cases (ltb n (percent 75 cm.limit))) [
      | inl e ↦ rw e (refl, refl)
      | inr e ↦ elim (Bool-cases (ltb n (percent 90 cm.limit))) [
        | inl e' ↦ rw (e, e') kept
        | inr e' ↦
            let again = emergency_prune-Keeps decode cm merged long in
            rw (e, e') (again.0 ∙ kept.0, again.1 ∙ kept.1)
      ]
    ]

-- When messages are cut and there are at least four that are not the system's, the first system
-- message and the last four others stay, with their tool outputs truncated.
pub check_and_prune-recent :
    (decode : Text → Option (List (Text × Option Text))) (cm : ContextManager) (ms : List Message)
    → (check_and_prune decode cm ms).2 ≡ true
    → 4 ≤ length (non_system ms)
    → (system_message (check_and_prune decode cm ms).1
        ≡ system_message (truncate_tool_outputs cm ms))
      × (recent (check_and_prune decode cm ms).1 ≡ recent (truncate_tool_outputs cm ms))
check_and_prune-recent decode cm ms pruned four = elim (check_and_prune-cases decode cm ms) [
  | inl (_, off) ↦ absurd (ground (arith, off, pruned))
  | inr (cut, _, _) ↦ rw cut (prune-Keeps decode cm (estimate_messages_tokens ms) ms four)
]
