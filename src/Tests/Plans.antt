-- ===== src/Tests/Plans.antt =====
-- internal/backlog at concrete values: a plan with two steps.
use mathlib.Core.Option
use kaggen.Base.{
  ◌/◌, ◌≡◌, refl, false, ◌&&◌, not, some, List, [], ◌∷◌, ◌++◌, arith, if◌then◌else◌, Text, codes,
  text_discrete, ◌is◌, text_key, nat_key,
}
use kaggen.Tasks.Approval.{truncate}
use kaggen.Dispatch.Run.{preview_limit}
use kaggen.Backlog.{Item, Filter, find_row}
use kaggen.Backlog.Links.{complete_linked, find_row-complete_linked, others_finished}

abbrev plan : Text
plan = 112 ∷ []

abbrev one : Text
one = 49 ∷ []

abbrev two : Text
two = 50 ∷ []

abbrev item : Text → Text → Text → Item
item id parent status = record {
  id = id;
  title = id;
  description = [];
  priority = codes "normal";
  status = status;
  source = codes "user";
  parent_id = parent;
  deliberation_id = [];
  context = [];
  created_at = 3;
  updated_at = 3;
  child_count = 0;
  done_count = 0;
}

abbrev rows : List Item
rows =
    item plan [] (codes "pending")
    ∷ item one plan (codes "failed")
    ∷ item two plan (codes "pending")
    ∷ []

abbrev steps : Filter
steps = record {
  status = [];
  priority = [];
  source = [];
  parent_id = plan;
  top_level = false;
  limit = 1;
}

find_row-complete_linked_example : find_row plan (complete_linked two one 9 rows) ≡ (
    if two is plan
    then some (record (item two plan (codes "pending")) {
      status = codes "completed";
      description =
          (item two plan (codes "pending")).description
          ++ (10 ∷ 10 ∷ codes "Result: ")
          ++ truncate one preview_limit;
      updated_at = 9 / 1000000000;
    })
    else if (plan is plan) && not (plan is []) && others_finished plan two rows
    then Option.map {A = Item}
        (λ p. record p { status = codes "completed"; updated_at = 9 / 1000000000 })
        (find_row plan rows)
    else find_row plan rows)
unfolding find_row text_discrete
find_row-complete_linked_example =
    find_row-complete_linked two one plan 9 rows (item two plan (codes "pending"))
      (λ e. ground (arith, e)) refl (λ e. ground (arith, e))
