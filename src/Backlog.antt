-- ===== src/Backlog.antt =====
-- internal/backlog: model.go and store.go, the persistent work queue. The table is a list of rows in the
-- order of insertion; an SQL statement is translated to what it says, and a fault of the database is
-- left out. A time is stored in seconds. The encoded context of an item is a text.
pub mod Links
use kaggen.Base.{
  ℕ, zero, suc, ◌+◌, ◌-◌, ◌*◌, ◌/◌, ◌%◌, ◌≤◌, ◌<◌, ◌≡◌, refl, sym, ap, ◌∙◌, ◌≢◌, ◌↔◌, ◌⊎◌, inl, inr,
  ite, Bool, true, false, ◌&&◌, ◌||◌, not, Option, none, some, List, [], ◌∷◌, ◌++◌, map, arith,
  dec_lt, ℕ_discrete, ltb, leb, ◌==◌, if◌then◌else◌, Bool-cases, Option-cases, found, length, take,
  drop, get_elem?, select, last_n, All, length-append, length-take, length-drop, take-append-drop,
  length-select-le, select-append, select_idem, Text, codes, text_discrete, ◌is◌, starts_with, Key,
  text_key, nat_key, Map, keep_if, get, put, del, Unique, get-put, get-del, put-Unique, del-Unique,
  values_where, del_where, map_values, get-map_values, get-del_where-none, get-del_where-some,
  del_where-Unique, map_values-Unique, values_where-del_where, contains, lower_code, to_lower,
  contains-append, contains_later, contains_earlier, join, decimal, last_n-append, length-last_n,
  last_n-last_n, ends_with, trim_prefix, trim_suffix, is_refl,
}

pub record Item : Type 0 where
  pub id : Text
  pub title : Text
  pub description : Text
  pub priority : Text
  pub status : Text
  pub source : Text
  pub parent_id : Text
  pub deliberation_id : Text
  pub context : Text
  pub created_at : ℕ
  pub updated_at : ℕ
  pub child_count : ℕ
  pub done_count : ℕ

-- A limit that is not positive is 0.
pub record Filter : Type 0 where
  pub status : Text
  pub priority : Text
  pub source : Text
  pub parent_id : Text
  pub top_level : Bool
  pub limit : ℕ

pub record Update : Type 0 where
  pub title : Option Text
  pub description : Option Text
  pub priority : Option Text
  pub status : Option Text
  pub parent_id : Option Text
  pub deliberation_id : Option Text

abbrev pub or_default : Text → Text → Text
or_default text default = if text is [] then default else text

-- A time in nanoseconds, as the format of the table keeps it.
abbrev pub stamp : ℕ → ℕ
stamp now = now / 1000000000

unfoldable pub find_row : Text → List Item → Option Item
find_row id [] = none
find_row id (r ∷ rows) = if r.id is id then some r else find_row id rows

-- `new_id` is the generated id. The insertion fails where the id is taken.
unfoldable pub add : Text → Item → ℕ → List Item → Option (List Item)
unfolding find_row
add new_id item now rows =
    let row : Item = record item {
      id = or_default item.id new_id;
      priority = or_default item.priority (codes "normal");
      status = or_default item.status (codes "pending");
      source = or_default item.source (codes "user");
      created_at = stamp now;
      updated_at = stamp now;
    } in
    if found (find_row row.id rows) then none else some (rows ++ (row ∷ []))

abbrev pub is_done : Item → Bool
is_done r = (r.status is codes "completed") || (r.status is codes "failed")

abbrev pub children_of : Text → List Item → List Item
children_of parent rows = select (λ r. r.parent_id is parent) rows

abbrev pub done_children : Text → List Item → List Item
done_children parent rows = select is_done (children_of parent rows)

pub populate_child_counts : List Item → Item → Item
populate_child_counts rows item = record item {
  child_count = length (children_of item.id rows);
  done_count = length (done_children item.id rows);
}

pub get_item : Text → List Item → Option Item
unfolding find_row
get_item id rows = elim (find_row id rows) [
  | none ↦ none
  | some r ↦ some (populate_child_counts rows r)
]

pub check_parent_completion : Text → List Item → Bool
check_parent_completion parent rows =
    if parent is []
    then false
    else ltb 0 (length (children_of parent rows))
      && (length (children_of parent rows) == length (done_children parent rows))

-- `WHERE`, with the conditions that the filter sets.
abbrev pub wanted : Text → Text → Bool
wanted asked value = (asked is []) || (value is asked)

pub matches : Filter → Item → Bool
matches f r =
    wanted f.status r.status
    && wanted f.priority r.priority
    && wanted f.source r.source
    && wanted f.parent_id r.parent_id
    && (not f.top_level || (r.parent_id is []))

abbrev pub limit_of : Filter → ℕ
limit_of f = if f.limit == 0 then 50 else f.limit

-- `order` is what the database's `ORDER BY`, by the rank of the priority and the time of creation,
-- makes of rows. The rows of the query, before the counts are filled in.
unfoldable pub list_rows : (List Item → List Item) → Filter → List Item → List Item
unfolding matches
list_rows order f rows = take (limit_of f) (order (select (matches f) rows))

unfoldable pub list_items : (List Item → List Item) → Filter → List Item → List Item
list_items order f rows = map (populate_child_counts rows) (list_rows order f rows)

unfoldable pub get_with_children :
    (List Item → List Item) → Text → List Item → Option (Item × List Item)
get_with_children order id rows = elim (get_item id rows) [
  | none ↦ none
  | some parent ↦ some (
    parent,
    list_items order
        (record {
          status = [];
          priority = [];
          source = [];
          parent_id = id;
          top_level = false;
          limit = 200;
        })
        rows,
  )
]

abbrev pub given : Option Text → Text → Text
given none old = old
given (some new) old = new

abbrev pub updated : Update → ℕ → Item → Item
updated u now r = record r {
  title = given u.title r.title;
  description = given u.description r.description;
  priority = given u.priority r.priority;
  status = given u.status r.status;
  parent_id = given u.parent_id r.parent_id;
  deliberation_id = given u.deliberation_id r.deliberation_id;
  updated_at = stamp now;
}

-- `UPDATE … WHERE id = ?`.
pub change_rows : Text → (Item → Item) → List Item → List Item
change_rows id change [] = []
change_rows id change (r ∷ rows) = (if r.id is id then change r else r) ∷ change_rows id change rows

-- `none` where no row was affected: the item is not found.
pub update : Text → Update → ℕ → List Item → Option (List Item)
unfolding change_rows
update id u now rows =
    if found (find_row id rows) then some (change_rows id (updated u now) rows) else none

abbrev pub completed_item : Text → ℕ → Item → Item
completed_item summary now r = record r {
  status = codes "completed";
  description = r.description ++ (10 ∷ 10 ∷ codes "Result: ") ++ summary;
  updated_at = stamp now;
}

unfoldable pub complete : Text → Text → ℕ → List Item → Option (List Item)
unfolding change_rows
complete id summary now rows =
    if found (find_row id rows)
    then some (change_rows id (completed_item summary now) rows)
    else none

unfoldable pub delete : Text → List Item → List Item
delete id rows = select (λ r. not (r.id is id)) rows
