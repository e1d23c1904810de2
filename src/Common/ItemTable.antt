-- ===== src/Common/ItemTable.antt =====
-- server/common/ItemTable.cc without the index: tables for which `defineIndex` was not called. A
-- `none` is a thrown exception or a failed assertion.
pub mod Rows
pub mod Joins
use hatohol.Base.{
  ℕ, Bool, true, false, not, ◌||◌, Option, none, some, List, [], ◌∷◌, ◌++◌, leb, if◌then◌else◌,
  length, get_elem?,
}
use hatohol.Common.ItemData.{Doubles, ItemData, ne}
use hatohol.Common.ItemGroup.{ItemGroup, type_eq}
use hatohol.Common.ItemGroup

abbrev pub bind : {A B : Type 0} → Option A → (A → Option B) → Option B
bind none f = none
bind (some a) f = f a

module _ {D : Type 0} where
  unfoldable pub get_number_of_columns : List (ItemGroup D) → ℕ
  get_number_of_columns [] = 0
  get_number_of_columns (g ∷ gs) = length g.item_vector

  -- The last group of the list, and `none` for an empty list.
  abbrev pub back : List (ItemGroup D) → Option (ItemGroup D)
  back [] = none
  back (g ∷ gs) = elim (back gs) [ none ↦ some g | some h ↦ some h ]

  -- The assertions of `add`: both types are there and equal.
  unfoldable pub types_match : Option (ItemGroup D) → ItemGroup D → Bool
  unfolding type_eq
  types_match none g = true
  types_match (some tail) g = elim tail.group_type [
    | none ↦ false
    | some t ↦ elim g.group_type [ none ↦ false | some u ↦ type_eq t u ]
  ]

  -- `add(ItemGroup *)`.
  unfoldable pub add : ItemGroup D → List (ItemGroup D) → Option (List (ItemGroup D))
  unfolding ItemGroup.freeze types_match
  add g gs = elim (ItemGroup.freeze g) [
    | none ↦ none
    | some f ↦ if types_match (back gs) f then some (gs ++ f ∷ []) else none
  ]

  -- `add(const ItemGroup *)`.
  unfoldable pub add_const : ItemGroup D → List (ItemGroup D) → Option (List (ItemGroup D))
  unfolding types_match
  add_const g gs = if not g.freezed then none else elim g.group_type [
    | none ↦ none
    | some t ↦ if types_match (back gs) g then some (gs ++ g ∷ []) else none
  ]

  -- `newGroup->add` of each item of a row.
  unfoldable pub add_items : List (ItemData D) → ItemGroup D → Option (ItemGroup D)
  unfolding ItemGroup.add
  add_items [] g = some g
  add_items (d ∷ ds) g = bind (ItemGroup.add d g) (add_items ds)

  unfoldable pub join_foreach_core :
      List (ItemGroup D) → ItemGroup D → ItemGroup D → Option (List (ItemGroup D))
  unfolding ItemGroup.init add_items add
  join_foreach_core table l r =
      bind (add_items l.item_vector ItemGroup.init)
        (λ g. bind (add_items r.item_vector g) (λ h. add h table))

  -- The loop over the right table, and the one over the left; `visit` is the callback.
  abbrev pub foreach_rtable :
      (List (ItemGroup D) → ItemGroup D → ItemGroup D → Option (List (ItemGroup D)))
      → ItemGroup D
      → List (ItemGroup D)
      → List (ItemGroup D)
      → Option (List (ItemGroup D))
  foreach_rtable visit l [] table = some table
  foreach_rtable visit l (r ∷ rs) table = bind (visit table l r) (foreach_rtable visit l rs)

  abbrev pub foreach_ltable :
      (List (ItemGroup D) → ItemGroup D → ItemGroup D → Option (List (ItemGroup D)))
      → List (ItemGroup D)
      → List (ItemGroup D)
      → List (ItemGroup D)
      → Option (List (ItemGroup D))
  foreach_ltable visit [] rs table = some table
  foreach_ltable visit (l ∷ ls) rs table =
      bind (foreach_rtable visit l rs table) (foreach_ltable visit ls rs)

  unfoldable pub cross_join : List (ItemGroup D) → List (ItemGroup D) → Option (List (ItemGroup D))
  unfolding join_foreach_core
  cross_join [] rs = some []
  cross_join (l ∷ ls) [] = some []
  cross_join (l ∷ ls) (r ∷ rs) = foreach_ltable join_foreach_core (l ∷ ls) (r ∷ rs) []

  module _ (ops : Doubles D) where
    unfoldable pub inner_join_foreach_rtable :
        ℕ → ℕ → List (ItemGroup D) → ItemGroup D → ItemGroup D → Option (List (ItemGroup D))
    unfolding ne join_foreach_core
    inner_join_foreach_rtable il ir table l r = bind (get_elem? l.item_vector il) (λ left.
        bind (get_elem? r.item_vector ir) (λ right.
          bind (ne ops left.data_of right.data_of)
            (λ differ. if differ then some table else join_foreach_core table l r)))

    unfoldable pub inner_join :
        List (ItemGroup D) → List (ItemGroup D) → ℕ → ℕ → Option (List (ItemGroup D))
    unfolding inner_join_foreach_rtable get_number_of_columns
    inner_join [] rs il ir = some []
    inner_join (l ∷ ls) [] il ir = some []
    inner_join (l ∷ ls) (r ∷ rs) il ir =
        if leb (get_number_of_columns (l ∷ ls)) il || leb (get_number_of_columns (r ∷ rs)) ir
        then some []
        else foreach_ltable (inner_join_foreach_rtable il ir) (l ∷ ls) (r ∷ rs) []
