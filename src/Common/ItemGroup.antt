-- ===== src/Common/ItemGroup.antt =====
-- server/common/ItemGroup.cc and ItemGroupType.cc: a row of items, and the types of its columns.
-- `none` is a thrown exception.
pub mod Laws
use hatohol.Base.{
  ℕ, ◌+◌, Bool, true, false, not, Option, none, some, List, [], ◌∷◌, ◌++◌, ltb, ◌==◌, if◌then◌else◌,
  length, get_elem?,
}
use hatohol.Common.ItemData.{ItemDataType, type_number, ItemData, get_item_type}

-- `get_type` throws `out_of_range`.
abbrev pub get_type : List ItemDataType → ℕ → Option ItemDataType
get_type types index = get_elem? types index

-- The loop of `operator<`, for vectors of one length.
some_less : List ItemDataType → List ItemDataType → Bool
some_less [] us = false
some_less (t ∷ ts) [] = false
some_less (t ∷ ts) (u ∷ us) = if ltb (type_number t) (type_number u) then true else some_less ts us

unfoldable pub type_lt : List ItemDataType → List ItemDataType → Bool
unfolding some_less
type_lt a b = if not (length a == length b) then ltb (length a) (length b) else some_less a b

-- The loop of `operator==`.
all_equal : List ItemDataType → List ItemDataType → Bool
all_equal [] us = true
all_equal (t ∷ ts) [] = true
all_equal (t ∷ ts) (u ∷ us) =
    if not (type_number t == type_number u) then false else all_equal ts us

unfoldable pub type_eq : List ItemDataType → List ItemDataType → Bool
unfolding all_equal
type_eq a b = if not (length a == length b) then false else all_equal a b

pub record ItemGroup (D : Type 0) : Type 0 where
  pub freezed : Bool
  pub group_type : Option (List ItemDataType)
  pub item_map : List (ℕ × ItemData D)
  pub item_vector : List (ItemData D)

module _ {D : Type 0} where
  abbrev pub types_of : List (ItemData D) → List ItemDataType
  types_of [] = []
  types_of (d ∷ ds) = get_item_type d.data_of ∷ types_of ds

  unfoldable pub init : ItemGroup D
  init = record { freezed = false; group_type = none; item_map = []; item_vector = [] }

  -- A `multimap` keeps equal keys in the order of their insertion.
  insert_item : ItemData D → ItemGroup D → ItemGroup D
  insert_item d g = record g {
    item_map = g.item_map ++ (d.item_id, d) ∷ [];
    item_vector = g.item_vector ++ d ∷ [];
  }

  unfoldable pub add : ItemData D → ItemGroup D → Option (ItemGroup D)
  unfolding insert_item
  add d g = if g.freezed then none else elim g.group_type [
    | none ↦ some (insert_item d g)
    | some types ↦
        let index = length g.item_vector in
        elim (get_type types index) [
          | none ↦ none
          | some expected ↦
              if not (type_number expected == type_number (get_item_type d.data_of))
              then none
              else some (record (insert_item d g) {
                freezed = if index + 1 == length types then true else g.freezed;
              })
        ]
  ]

  -- The items under one key.
  unfoldable pub get_items : ℕ → List (ℕ × ItemData D) → List (ItemData D)
  get_items id [] = []
  get_items id ((key, d) ∷ m) = let rest = get_items id m in if key == id then d ∷ rest else rest

  -- It is an assertion that an unfrozen group has no type.
  unfoldable pub freeze : ItemGroup D → Option (ItemGroup D)
  freeze g = if g.freezed then some g else elim g.group_type [
    | none ↦ some (record g { freezed = true; group_type = some (types_of g.item_vector) })
    | some types ↦ none
  ]
