-- ===== src/Backlog/Links.antt =====
-- internal/agent/async.go, what the end of a task does with the backlog item that it is linked to, and
-- internal/backlog/store.go, `CheckParentCompletion`, that decides on the parent plan.
use mathlib.Core.Option
use kaggen.Base.{
  ℕ, ◌/◌, ◌≡◌, refl, sym, ap, ◌∙◌, ◌≢◌, inl, inr, Bool, true, false, ◌&&◌, ◌||◌, not, Option, none,
  some, List, [], ◌∷◌, ◌++◌, arith, ◌==◌, if◌then◌else◌, Bool-cases, Option-cases, length, select,
  length-select-le, Text, codes, text_discrete, ◌is◌, text_key, nat_key,
}
use kaggen.Tasks.Approval.{truncate}
use kaggen.Dispatch.Run.{preview_limit}
use kaggen.Backlog.{
  Item, Update, find_row, is_done, children_of, populate_child_counts, get_item,
  check_parent_completion, updated, change_rows, update, completed_item, complete,
}

abbrev pub status_update : Text → Update
status_update status = record {
  title = none;
  description = none;
  priority = none;
  status = some status;
  parent_id = none;
  deliberation_id = none;
}

abbrev pub or_kept : Option (List Item) → List Item → List Item
or_kept none rows = rows
or_kept (some new) rows = new

-- `failBacklogItem`: an error of the update is dropped. Without a link the id is empty.
unfoldable pub fail_linked : Text → ℕ → List Item → List Item
fail_linked id now rows =
    if id is [] then rows else or_kept (update id (status_update (codes "failed")) now rows) rows

-- The parent plan is completed with its last child.
pub settle_parent : Text → ℕ → List Item → List Item
settle_parent id now rows = elim (get_item id rows) [
  | none ↦ rows
  | some item ↦
      if not (item.parent_id is []) && check_parent_completion item.parent_id rows
      then or_kept (update item.parent_id (status_update (codes "completed")) now rows) rows
      else rows
]

-- The item of a task that completed.
pub complete_linked : Text → Text → ℕ → List Item → List Item
unfolding settle_parent
complete_linked id result now rows =
    if id is [] then rows else (elim (complete id (truncate result preview_limit) now rows) [
      | none ↦ rows
      | some new ↦ settle_parent id now new
    ])

abbrev pub all_done : List Item → Bool
all_done [] = true
all_done (r ∷ rows) = is_done r && all_done rows

length-done : (rows : List Item) → (length rows == length (select is_done rows)) ≡ all_done rows
length-done [] = refl
length-done (r ∷ rows) = ground (arith, length-done rows, length-select-le is_done rows)

-- A plan counts as complete exactly if its id is not empty, it has a child, and every child has
-- completed or failed.
pub check_parent_completion_lem :
    (parent : Text) (rows : List Item)
    → check_parent_completion parent rows ≡ (
        not (parent is [])
        && (not (length (children_of parent rows) == 0) && all_done (children_of parent rows)))
unfolding check_parent_completion
check_parent_completion_lem parent rows = ground (arith, length-done (children_of parent rows))

pub find_row-change_rows :
    (k id : Text) (f : Item → Item) (rows : List Item)
    → ((r : Item) → (f r).id ≡ r.id)
    → find_row k (change_rows id f rows)
      ≡ (if id is k then Option.map f (find_row k rows) else find_row k rows)
unfolding find_row change_rows
find_row-change_rows k id f [] keeps = ground arith
find_row-change_rows k id f (r ∷ rows) keeps =
    ground (arith, keeps r, find_row-change_rows k id f rows keeps)

find_row-update :
    (k id : Text) (u : Update) (now : ℕ) (rows : List Item)
    → find_row k (or_kept (update id u now rows) rows)
      ≡ (if id is k then Option.map (updated u now) (find_row k rows) else find_row k rows)
unfolding update
find_row-update k id u now rows =
    let changed = find_row-change_rows k id (updated u now) rows (λ r. refl) in
    elim (Option-cases (find_row id rows)) [
      | inl e ↦ ground (arith, e, changed)
      | inr (r, e) ↦ ground (arith, e, changed)
    ]

check_parent_completion-nonempty :
    (parent : Text) (rows : List Item)
    → (not (parent is []) && check_parent_completion parent rows)
      ≡ check_parent_completion parent rows
unfolding check_parent_completion
check_parent_completion-nonempty parent rows = ground arith

complete_linked-found :
    (id result : Text) (now : ℕ) (rows : List Item) (r : Item)
    → id ≢ []
    → find_row id rows ≡ some r
    → complete_linked id result now rows ≡ (
        if check_parent_completion r.parent_id
          (change_rows id (completed_item (truncate result preview_limit) now) rows)
        then or_kept
            (update r.parent_id
              (status_update (codes "completed"))
              now
              (change_rows id (completed_item (truncate result preview_limit) now) rows))
            (change_rows id (completed_item (truncate result preview_limit) now) rows)
        else change_rows id (completed_item (truncate result preview_limit) now) rows)
unfolding complete_linked settle_parent complete get_item populate_child_counts
complete_linked-found id result now rows r full at =
    let done = completed_item (truncate result preview_limit) now in
    let new = change_rows id done rows in
    let there : find_row id new ≡ some (done r) =
      ground (arith, at, find_row-change_rows id id done rows (λ x. refl)) in
    ground (arith, full, at, there, check_parent_completion-nonempty r.parent_id new)

find_row-linked :
    (id result k : Text) (now : ℕ) (rows : List Item) (r : Item)
    → id ≢ []
    → find_row id rows ≡ some r
    → r.parent_id ≢ id
    → find_row k (complete_linked id result now rows) ≡ (
        if id is k
        then some (completed_item (truncate result preview_limit) now r)
        else if (r.parent_id is k)
            && check_parent_completion r.parent_id
                (change_rows id (completed_item (truncate result preview_limit) now) rows)
        then Option.map (updated (status_update (codes "completed")) now) (find_row k rows)
        else find_row k rows)
find_row-linked id result k now rows r full at other =
    let done = completed_item (truncate result preview_limit) now in
    let new = change_rows id done rows in
    let here = find_row-change_rows k id done rows (λ x. refl) in
    let after = find_row-update k r.parent_id (status_update (codes "completed")) now new in
    let whole = ap (find_row k) (complete_linked-found id result now rows r full at) in
    elim (Bool-cases (check_parent_completion r.parent_id new)) [
      | inl e ↦
          let settled : find_row k (complete_linked id result now rows)
              ≡ find_row k
                  (or_kept (update r.parent_id (status_update (codes "completed")) now new) new) =
            ground (arith, whole, e) in
          elim (text_discrete id k) [
            | yes p ↦
                let mine : find_row k rows ≡ some r = rw p at at in
                let apart : r.parent_id ≢ k = λ q. other (q ∙ sym p) in
                ground (arith, settled, after, here, mine, apart, p)
            | no p ↦ ground (arith, settled, after, here, p, e)
          ]
      | inr e ↦
          let settled : find_row k (complete_linked id result now rows) ≡ find_row k new =
            ground (arith, whole, e) in
          elim (text_discrete id k) [
            | yes p ↦
                let mine : find_row k rows ≡ some r = rw p at at in
                ground (arith, settled, here, mine, p)
            | no p ↦ ground (arith, settled, here, p, e)
          ]
    ]

abbrev pub is_finished : Item → Bool
is_finished r = (r.status is codes "completed") || (r.status is codes "failed")

-- Whether each of a parent's rows but those of one id has completed or failed.
abbrev pub others_finished : Text → Text → List Item → Bool
others_finished parent id [] = true
others_finished parent id (r ∷ rows) =
    (not (r.parent_id is parent) || (r.id is id) || is_finished r) && others_finished parent id rows

all_done-change_rows :
    (parent id summary : Text) (now : ℕ) (rows : List Item)
    → all_done (children_of parent (change_rows id (completed_item summary now) rows))
      ≡ others_finished parent id rows
unfolding change_rows
all_done-change_rows parent id summary now [] = refl
all_done-change_rows parent id summary now (r ∷ rows) =
    ground (arith, all_done-change_rows parent id summary now rows)

children_of-change_rows :
    (id summary : Text) (now : ℕ) (rows : List Item) (r : Item)
    → find_row id rows ≡ some r
    → (length (children_of r.parent_id (change_rows id (completed_item summary now) rows)) == 0)
      ≡ false
unfolding change_rows find_row
children_of-change_rows id summary now [] r at = absurd (cc)
children_of-change_rows id summary now (q ∷ rows) r at = elim (text_discrete q.id id) [
  | yes same ↦
      let here : q ≡ r = ground (arith, same, at) in ground (arith, same, ap Item.parent_id here)
  | no apart ↦
      ground
        (arith, apart, children_of-change_rows id summary now rows r (ground (arith, apart, at)))
]

-- A plan with a child that has just completed counts as complete exactly if the others have ended.
check_parent_completion-change_rows :
    (id summary : Text) (now : ℕ) (rows : List Item) (r : Item)
    → find_row id rows ≡ some r
    → check_parent_completion r.parent_id (change_rows id (completed_item summary now) rows)
      ≡ (not (r.parent_id is []) && others_finished r.parent_id id rows)
check_parent_completion-change_rows id summary now rows r at =
    let new = change_rows id (completed_item summary now) rows in
    ground (
      arith,
      check_parent_completion_lem r.parent_id new,
      children_of-change_rows id summary now rows r at,
      all_done-change_rows r.parent_id id summary now rows,
    )

-- What completing a linked item, which is there under an id that is not empty and is not its own
-- parent, leaves in the row of any item: the item itself has the status "completed" and its result
-- after its description, cut to 200 bytes and an ellipsis if it is longer. Its parent plan, if it has one, gets the status "completed"
-- exactly if every other child of it has completed or failed. Of both rows only the time of the update
-- changes besides, and every other row stays.
pub find_row-complete_linked :
    (id result k : Text) (now : ℕ) (rows : List Item) (r : Item)
    → id ≢ []
    → find_row id rows ≡ some r
    → r.parent_id ≢ id
    → find_row k (complete_linked id result now rows) ≡ (
        if id is k
        then some (record r {
          status = codes "completed";
          description =
              r.description ++ (10 ∷ 10 ∷ codes "Result: ") ++ truncate result preview_limit;
          updated_at = now / 1000000000;
        })
        else if (r.parent_id is k) && not (r.parent_id is []) && others_finished r.parent_id id rows
        then Option.map {A = Item}
            (λ p. record p { status = codes "completed"; updated_at = now / 1000000000 })
            (find_row k rows)
        else find_row k rows)
find_row-complete_linked id result k now rows r full at other =
    let parent =
      check_parent_completion-change_rows id (truncate result preview_limit) now rows r at in
    let row = find_row-linked id result k now rows r full at other in ground (arith, row, parent)
