-- ===== src/Common/ItemGroup/Laws.antt =====
-- The states of a group, and the two operators of its type.
use hatohol.Base.{
  ℕ, zero, suc, ◌<◌, ◌≡◌, refl, ap, ◌↔◌, ◌⊎◌, inl, inr, Bool, true, false, Option, none, some, List,
  [], ◌∷◌, ◌++◌, arith, ◌==◌, if◌then◌else◌, Bool-cases, length, get_elem?,
}
use hatohol.Common.ItemData.{
  ItemDataType, item_type_bool, item_type_int, item_type_uint64, item_type_double, item_type_string,
  type_number, ItemData,
}
use hatohol.Common.ItemGroup.{
  ItemGroup, some_less, type_lt, all_equal, type_eq, types_of, insert_item, add, get_items, freeze,
}

abbrev pub keyed_of : {D : Type 0} → List (ItemData D) → List (ℕ × ItemData D)
keyed_of [] = []
keyed_of (d ∷ ds) = (d.item_id, d) ∷ keyed_of ds

abbrev pub StateIs : {D : Type 0} → Bool → Option (List ItemDataType) → List (ItemData D) → Type 0
StateIs false types v = types ≡ none
StateIs true types v = types ≡ some (types_of v)

-- A group has a type when it is frozen, the type of its items, and only then; and the map holds the
-- items of the vector under their identifiers.
abbrev pub IsGroup : {D : Type 0} → ItemGroup D → Type 0
IsGroup g = StateIs g.freezed g.group_type g.item_vector × (g.item_map ≡ keyed_of g.item_vector)

abbrev pub of_id : {D : Type 0} → ℕ → List (ItemData D) → List (ItemData D)
of_id id [] = []
of_id id (d ∷ ds) = if d.item_id == id then d ∷ of_id id ds else of_id id ds

keyed_of-append :
    {D : Type 0} (v w : List (ItemData D)) → keyed_of (v ++ w) ≡ keyed_of v ++ keyed_of w
keyed_of-append [] w = refl
keyed_of-append (d ∷ v) w = ap (◌∷◌ (d.item_id, d)) (keyed_of-append v w)

get_items-keyed_of :
    {D : Type 0} (id : ℕ) (v : List (ItemData D)) → get_items id (keyed_of v) ≡ of_id id v
unfolding get_items
get_items-keyed_of id [] = refl
get_items-keyed_of id (d ∷ v) = ground (arith, get_items-keyed_of id v)

type_number_inj : (t u : ItemDataType) → type_number t ≡ type_number u → t ≡ u
type_number_inj item_type_bool u h = ground arith
type_number_inj item_type_int u h = ground arith
type_number_inj item_type_uint64 u h = ground arith
type_number_inj item_type_double u h = ground arith
type_number_inj item_type_string u h = ground arith

all_equal_of : (a b : List ItemDataType) → length a ≡ length b → all_equal a b ≡ true → a ≡ b
unfolding all_equal
all_equal_of [] [] l h = refl
all_equal_of [] (u ∷ us) l h = ground arith
all_equal_of (t ∷ ts) [] l h = ground arith
all_equal_of (t ∷ ts) (u ∷ us) l h = ground (arith, type_number_inj t u, all_equal_of ts us)

all_equal_refl : (a : List ItemDataType) → all_equal a a ≡ true
unfolding all_equal
all_equal_refl [] = refl
all_equal_refl (t ∷ ts) = ground (arith, all_equal_refl ts)

-- `operator==` of the types of two groups is their equality.
pub type_eq_iff : (a b : List ItemDataType) → (type_eq a b ≡ true) ↔ (a ≡ b)
unfolding type_eq
type_eq_iff a b = ground (arith, all_equal_of a b, all_equal_refl a)

some_less-at :
    (i : ℕ) (a b : List ItemDataType) (t u : ItemDataType)
    → get_elem? a i ≡ some t
    → get_elem? b i ≡ some u
    → type_number t < type_number u
    → some_less a b ≡ true
unfolding some_less
some_less-at i [] b t u ha hb h = ground arith
some_less-at i (x ∷ a) [] t u ha hb h = ground arith
some_less-at zero (x ∷ a) (y ∷ b) t u ha hb h = ground arith
some_less-at (suc i) (x ∷ a) (y ∷ b) t u ha hb h = ground (arith, some_less-at i a b t u ha hb h)

-- Two types of one length that differ in opposite senses at two columns are each less than the
-- other: `operator<` is no strict order.
pub type_lt_both :
    (a b : List ItemDataType) (i j : ℕ) (t u v w : ItemDataType)
    → length a ≡ length b
    → get_elem? a i ≡ some t
    → get_elem? b i ≡ some u
    → type_number t < type_number u
    → get_elem? a j ≡ some v
    → get_elem? b j ≡ some w
    → type_number w < type_number v
    → (type_lt a b ≡ true) × (type_lt b a ≡ true)
unfolding type_lt
type_lt_both a b i j t u v w len at au less bv bw more =
    ground (arith, some_less-at i a b t u at au less, some_less-at j b a w v bw bv more)

module _ {D : Type 0} where
  StateIs-unfrozen :
      (b : Bool) (t : Option (List ItemDataType)) (v : List (ItemData D))
      → b ≡ false
      → StateIs b t v ↔ (t ≡ none)
  StateIs-unfrozen b t v e = rw e (λ x. x, λ x. x)

  pub add-IsGroup :
      (g : ItemGroup D) (d : ItemData D)
      → IsGroup g
      → g.freezed ≡ false
      → (h : ItemGroup D) × (add d g ≡ some h)
        × IsGroup h
        × (h.freezed ≡ false)
        × (h.item_vector ≡ g.item_vector ++ d ∷ [])
  unfolding add
  add-IsGroup g d (state, keyed) e =
      let untyped = (StateIs-unfrozen g.freezed g.group_type g.item_vector e).0 state in
      (
        insert_item d g,
        ground (arith, e, untyped),
        unfold insert_item in
            (
              (StateIs-unfrozen g.freezed g.group_type (g.item_vector ++ d ∷ []) e).1 untyped,
              rw (keyed, keyed_of-append g.item_vector (d ∷ [])) refl,
            ),
        unfold insert_item in e,
        unfold insert_item in refl,
      )

  pub freeze-IsGroup :
      (g : ItemGroup D)
      → IsGroup g
      → (f : ItemGroup D) × (freeze g ≡ some f)
        × IsGroup f
        × (f.freezed ≡ true)
        × (f.item_vector ≡ g.item_vector)
  unfolding freeze
  freeze-IsGroup g (state, keyed) = elim (Bool-cases g.freezed) [
    | inl e ↦ (g, rw e refl, (state, keyed), e, refl)
    | inr e ↦
        let untyped = (StateIs-unfrozen g.freezed g.group_type g.item_vector e).0 state in
        (
          record g { freezed = true; group_type = some (types_of g.item_vector) },
          rw (e, untyped) refl,
          (refl, keyed),
          refl,
          refl,
        )
  ]

  -- Adding to a group either throws, exactly when the group is frozen, or puts the item last and
  -- keeps what holds of every group; freezing never fails, keeps the items, and gives the group
  -- the type of its items; and the items found under a key are those of the vector with that
  -- identifier, in the vector's order. The group is one that `add` and `freeze` built from an empty one.
  pub operations-IsGroup :
      (g : ItemGroup D) (d : ItemData D) (id : ℕ)
      → IsGroup g
      → (((g.freezed ≡ true) × (add d g ≡ none))
          ⊎ ((h : ItemGroup D) × (add d g ≡ some h)
              × IsGroup h
              × (g.freezed ≡ false)
              × (h.item_vector ≡ g.item_vector ++ d ∷ [])))
        × ((f : ItemGroup D) × (freeze g ≡ some f)
            × IsGroup f
            × (f.freezed ≡ true)
            × (f.item_vector ≡ g.item_vector))
        × (get_items id g.item_map ≡ of_id id g.item_vector)
  operations-IsGroup g d id inv = (
    elim (Bool-cases g.freezed) [
      | inl e ↦ inl (e, unfold add in rw e refl)
      | inr e ↦ let (h, a, b, c, v) = add-IsGroup g d inv e in inr (h, a, b, e, v)
    ],
    freeze-IsGroup g inv,
    rw inv.1 (get_items-keyed_of id g.item_vector),
  )
