-- ===== src/Usage/Registry.antt =====
-- internal/model/usage_tracking.go: what is read back under a tracking id.
use kaggen.Usage.{
  Usage, UsageAccumulator, accumulate_all, get_tracked_usage, accumulate, generate_content,
  add_to_tracking, register_tracking, Registry, add, Tracking, nothing, has_active_tracking,
  tracking_id,
}
use kaggen.Base.{
  ℕ, ◌+◌, ◌≡◌, refl, ◌≢◌, Bool, Option, none, some, List, [], ◌∷◌, arith, Text, text_key, nat_key,
  get, put, get-put, get-del,
}

-- The sum of what responses report.
abbrev pub sum_of : (Usage → ℕ) → List (Option Usage) → ℕ
sum_of f [] = 0
sum_of f (none ∷ rs) = sum_of f rs
sum_of f (some r ∷ rs) = f r + sum_of f rs

abbrev pub plus : UsageAccumulator → List (Option Usage) → UsageAccumulator
plus u rs = record {
  input = u.input + sum_of (λ r. r.prompt_tokens) rs;
  output = u.output + sum_of (λ r. r.completion_tokens) rs;
  total = u.total + sum_of (λ r. r.total_tokens) rs;
}

accumulate_all-get :
    (id : Text) (g : Bool) (rs : List (Option Usage)) (t : Tracking) (u : UsageAccumulator)
    → id ≢ []
    → get id t.registry ≡ some u
    → get id (accumulate_all id g rs t).registry ≡ some (plus u rs)
unfolding accumulate_all accumulate add_to_tracking add
accumulate_all-get id g [] t u n h = ground (arith, h)
accumulate_all-get id g (none ∷ rs) t u n h = accumulate_all-get id g rs t u n h
accumulate_all-get id g (some r ∷ rs) t u n h =
    let next = accumulate id g (some r) t in
    let more = add (some r) u in
    let kept : get id next.registry ≡ some more =
      ground (arith, h, n, get-put id id more t.registry) in
    let ih = accumulate_all-get id g rs next more n kept in ground (arith, ih)

tracking_id-given :
    (id active : Text) (c : Option UsageAccumulator) → id ≢ [] → tracking_id id active c ≡ id
tracking_id-given id active none n = ground (arith, n)
tracking_id-given id active (some u) n = refl

generate_content-get :
    (id active : Text) (rs : List (Option Usage)) (t : Tracking) (u : UsageAccumulator)
    → id ≢ []
    → get id t.registry ≡ some u
    → get id (generate_content id active rs t).registry ≡ some (plus u rs)
unfolding generate_content
generate_content-get id active rs t u n h =
    let given = tracking_id-given id active t.context n in
    let g = has_active_tracking t.registry in
    let called : generate_content id active rs t ≡ accumulate_all id g rs t =
      ground (arith, given, n) in
    rw called (accumulate_all-get id g rs t u n h)

-- What is read under an id that was registered and then used by a call is the sum of the call's
-- responses, and the id is gone afterwards.
pub get_tracked_usage-generate_content :
    (id active : Text) (rs : List (Option Usage)) (m : Registry) (c : Option UsageAccumulator)
    → id ≢ []
    → ((get_tracked_usage id
          (generate_content id active rs
            (record { context = c; registry = register_tracking id m })).registry).1
        ≡ plus nothing rs)
      × (get id
            (get_tracked_usage id
              (generate_content id active rs
                (record { context = c; registry = register_tracking id m })).registry).0
          ≡ none)
unfolding get_tracked_usage register_tracking
get_tracked_usage-generate_content id active rs m c n =
    let t : Tracking = record { context = c; registry = put id nothing m } in
    let fresh : get id (put id nothing m) ≡ some nothing =
      ground (arith, get-put id id nothing m) in
    let sum = generate_content-get id active rs t nothing n fresh in
    (ground (arith, sum), ground (arith, get-del id id (generate_content id active rs t).registry))
