-- ===== src/WorldModel/Sessions.antt =====
-- internal/agent/async.go, the world models of the in-flight store, one for each session.
use kaggen.Base.{
  ℕ, ◌≡◌, inl, inr, Option, none, some, arith, if◌then◌else◌, Option-cases, Text, ◌is◌, text_key,
  nat_key, Map, get, put, del, get-put, get-del,
}
use kaggen.WorldModel.{WorldModel, new_world_model}

-- The map after the call, and the model that is returned.
pub get_or_create_world_model : Text → ℕ → Map Text WorldModel → Map Text WorldModel × WorldModel
get_or_create_world_model session_id now m = elim (get session_id m) [
  | some w ↦ (m, w)
  | none ↦ (put session_id (new_world_model session_id now) m, new_world_model session_id now)
]

pub get_world_model : Text → Map Text WorldModel → Option WorldModel
get_world_model session_id m = get session_id m

pub cleanup_world_model : Text → Map Text WorldModel → Map Text WorldModel
cleanup_world_model session_id m = del session_id m

-- A session has one world model from its creation to its cleanup: what is created is found, a second
-- call returns the same model and changes nothing, and after the cleanup this session has none and
-- every other session has what it had.
pub get_or_create_world_model_lem :
    (session_id other : Text) (now later : ℕ) (m n : Map Text WorldModel) (w : WorldModel)
    → get_or_create_world_model session_id now m ≡ (n, w)
    → (get_world_model session_id n ≡ some w)
      × (get_or_create_world_model session_id later n ≡ (n, w))
      × (get_world_model other (cleanup_world_model session_id n)
          ≡ (if session_id is other then none else get_world_model other m))
unfolding get_or_create_world_model get_world_model cleanup_world_model
get_or_create_world_model_lem session_id other now later m n w h =
    elim (Option-cases (get session_id m)) [
      | inl e ↦
          let fresh = new_world_model session_id now in
          let made : n ≡ put session_id fresh m = ground (arith, e) in
          let new : w ≡ fresh = ground (arith, e) in
          let there : get session_id n ≡ some w =
            ground (arith, made, new, get-put session_id session_id fresh m) in
          (
            there,
            ground (arith, there),
            ground (arith, made, get-del session_id other n, get-put session_id other fresh m),
          )
      | inr (v, e) ↦
          let same : n ≡ m = ground (arith, e) in
          let there : get session_id n ≡ some w = ground (arith, e) in
          (there, ground (arith, there), ground (arith, same, get-del session_id other n))
    ]
