-- ===== src/Server/DataQueryOption.antt =====
-- server/src/DataQueryOption.cc: the clauses that every query option has, and how a condition grows.
use hatohol.Base.{
  ◌≡◌, sym, ◌∙◌, Bool, true, false, not, ◌&&◌, List, [], ◌∷◌, ◌++◌, append-nil, append_assoc, arith,
  if◌then◌else◌, Bytes, codes,
}

pub data AddConditionType : Type 0 where
  add_type_and : AddConditionType
  add_type_or : AddConditionType

abbrev pub empty : Bytes → Bool
empty [] = true
empty (c ∷ s) = false

abbrev pub operator_text : AddConditionType → Bytes
operator_text add_type_and = codes " AND "
operator_text add_type_or = codes " OR "

-- `useParenthesis` is false in every call that is modelled; it stands last, as in the source.
unfoldable pub add_condition : Bytes → Bytes → AddConditionType → Bool → Bytes
add_condition curr_condition added_condition type use_parenthesis =
    if empty added_condition
    then curr_condition
    else if empty curr_condition
    then added_condition
    else if use_parenthesis
    then curr_condition ++ (operator_text type ++ (b'(' ∷ (added_condition ++ b')' ∷ [])))
    else curr_condition ++ (operator_text type ++ added_condition)

pub data SortDirection : Type 0 where
  sort_dont_care : SortDirection
  sort_ascending : SortDirection
  sort_descending : SortDirection

pub record SortOrder : Type 0 where
  pub column_name : Bytes
  pub direction : SortDirection

-- `first` is `it == sortOrderVect.begin()`.
order_by_loop : Bool → Bytes → List SortOrder → Bytes
order_by_loop first order_by [] = order_by
order_by_loop first order_by (it ∷ rest) =
    let skipped = order_by_loop false order_by rest in
    let comma = if first then order_by else order_by ++ codes ", " in
    let ascending = order_by_loop false (comma ++ (it.column_name ++ codes " ASC")) rest in
    let descending = order_by_loop false (comma ++ (it.column_name ++ codes " DESC")) rest in
    if empty it.column_name then skipped else elim it.direction [
      | sort_dont_care ↦ skipped
      | sort_ascending ↦ ascending
      | sort_descending ↦ descending
    ]

unfoldable pub get_order_by : List SortOrder → Bytes
unfolding order_by_loop
get_order_by sort_order_vect = order_by_loop true [] sort_order_vect

group_by_loop : Bool → Bytes → List Bytes → Bytes
group_by_loop first group_by [] = group_by
group_by_loop first group_by (column_name ∷ rest) =
    let skipped = group_by_loop false group_by rest in
    let comma = if first then group_by else group_by ++ codes ", " in
    let added = group_by_loop false (comma ++ column_name) rest in
    if empty column_name then skipped else added

unfoldable pub get_group_by : List Bytes → Bytes
unfolding group_by_loop
get_group_by group_by_vect = group_by_loop true [] group_by_vect

-- The terms of the clause.
abbrev pub order_terms : List SortOrder → List Bytes
order_terms [] = []
order_terms (it ∷ rest) = if empty it.column_name then order_terms rest else elim it.direction [
  | sort_dont_care ↦ order_terms rest
  | sort_ascending ↦ (it.column_name ++ codes " ASC") ∷ order_terms rest
  | sort_descending ↦ (it.column_name ++ codes " DESC") ∷ order_terms rest
]

-- Each text behind a comma.
pub listed : List Bytes → Bytes
listed [] = []
listed (t ∷ ts) = codes ", " ++ (t ++ listed ts)

pub append_four : (a b w l : Bytes) → ((a ++ b) ++ w) ++ l ≡ a ++ (b ++ (w ++ l))
append_four a b w l = append_assoc (a ++ b) w l ∙ append_assoc a b (w ++ l)

order_by_loop-listed :
    (order_by : Bytes) (v : List SortOrder)
    → order_by_loop false order_by v ≡ order_by ++ listed (order_terms v)
unfolding order_by_loop listed
order_by_loop-listed order_by [] = sym (append-nil order_by)
order_by_loop-listed order_by (it ∷ rest) =
    let asc = it.column_name ++ codes " ASC" in
    let desc = it.column_name ++ codes " DESC" in
    let skip = order_by_loop-listed order_by rest in
    let l = listed (order_terms rest) in
    let up =
      order_by_loop-listed ((order_by ++ codes ", ") ++ asc) rest
      ∙ append_four order_by (codes ", ") asc l in
    let down =
      order_by_loop-listed ((order_by ++ codes ", ") ++ desc) rest
      ∙ append_four order_by (codes ", ") desc l in
    ground (arith, skip, up, down)

-- The texts with a comma between each two.
pub comma_joined : List Bytes → Bytes
comma_joined [] = []
comma_joined (t ∷ ts) = t ++ listed ts

abbrev pub gives_term : SortOrder → Bool
gives_term it =
    not (empty it.column_name) && elim it.direction [ sort_dont_care ↦ false | _ ↦ true ]

-- The ORDER BY clause has the term of each order with a column and a direction, in their order and
-- with a comma between each two, if the first order has both; if it has not, a comma stands in front
-- of the first term too.
pub get_order_by_lem :
    (it : SortOrder) (rest : List SortOrder)
    → get_order_by (it ∷ rest) ≡ (
        if gives_term it then comma_joined (order_terms (it ∷ rest)) else listed (order_terms rest))
unfolding get_order_by order_by_loop comma_joined
get_order_by_lem it rest =
    let asc = it.column_name ++ codes " ASC" in
    let desc = it.column_name ++ codes " DESC" in
    ground (
      arith,
      order_by_loop-listed [] rest,
      order_by_loop-listed asc rest,
      order_by_loop-listed desc rest,
    )
