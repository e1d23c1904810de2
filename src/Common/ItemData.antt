-- ===== src/Common/ItemData.antt =====
-- server/common/ItemData.h and ItemData.cc: typed values and their comparisons. `none` is a thrown
-- `ItemDataException`. A `double` and its tests are the machine's and come as a parameter.
use hatohol.Base.{
  ℕ, ◌≡◌, refl, Bool, true, false, not, ◌||◌, ◌&&◌, Option, none, some, [], ◌∷◌, arith, ltb, leb,
  ◌==◌, if◌then◌else◌, Bytes,
}
use hatohol.Base.Int.{ℤ, pos, negsuc, pos_part, ltb_ℤ, leb_ℤ, eqb_ℤ}

pub record Doubles (D : Type 0) : Type 0 where
  pub double_gt : D → D → Bool
  pub double_lt : D → D → Bool
  pub double_eq : D → D → Bool

pub data ItemDataType : Type 0 where
  item_type_bool : ItemDataType
  item_type_int : ItemDataType
  item_type_uint64 : ItemDataType
  item_type_double : ItemDataType
  item_type_string : ItemDataType

-- The enumerator's value.
abbrev pub type_number : ItemDataType → ℕ
type_number item_type_bool = 0
type_number item_type_int = 1
type_number item_type_uint64 = 2
type_number item_type_double = 3
type_number item_type_string = 4

-- `m_data` of the five instances of `ItemGeneric`.
pub data Native (D : Type 0) : Type 0 where
  bool : Bool → Native D
  int : ℤ → Native D
  uint64 : ℕ → Native D
  double : D → Native D
  string : Bytes → Native D

pub record ItemData (D : Type 0) : Type 0 where
  pub item_id : ℕ
  pub data_of : Native D
  pub null : Bool

-- `operator<` and `operator==` of `std::string`.
string_lt : Bytes → Bytes → Bool
string_lt [] [] = false
string_lt [] (d ∷ t) = true
string_lt (c ∷ s) [] = false
string_lt (c ∷ s) (d ∷ t) = ltb c d || c == d && string_lt s t

string_eq : Bytes → Bytes → Bool
string_eq [] [] = true
string_eq [] (d ∷ t) = false
string_eq (c ∷ s) [] = false
string_eq (c ∷ s) (d ∷ t) = c == d && string_eq s t

bool_eq : Bool → Bool → Bool
bool_eq true b = b
bool_eq false b = not b

is_negative : ℤ → Bool
is_negative i = ltb_ℤ i (pos 0)

module _ {D : Type 0} where
  unfoldable pub get_item_type : Native D → ItemDataType
  get_item_type (bool b) = item_type_bool
  get_item_type (int i) = item_type_int
  get_item_type (uint64 n) = item_type_uint64
  get_item_type (double x) = item_type_double
  get_item_type (string s) = item_type_string

  module _ (ops : Doubles D) where
    unfoldable pub gt : Native D → Native D → Option Bool
    unfolding string_lt is_negative
    gt (bool a) v = elim v [ bool b ↦ some (a && not b) | _ ↦ none ]
    gt (int a) v = elim v [ int b ↦ some (ltb_ℤ b a) | _ ↦ none ]
    gt (uint64 a) v = elim v [
      | uint64 b ↦ some (ltb b a)
      | int b ↦ some (if is_negative b then true else ltb (pos_part b) a)
      | _ ↦ none
    ]
    gt (double a) v = elim v [ double b ↦ some (ops.double_gt a b) | _ ↦ none ]
    gt (string a) v = elim v [ string b ↦ some (string_lt b a) | _ ↦ none ]

    unfoldable pub lt : Native D → Native D → Option Bool
    unfolding string_lt is_negative
    lt (bool a) v = elim v [ bool b ↦ some (not a && b) | _ ↦ none ]
    lt (int a) v = elim v [
      | int b ↦ some (ltb_ℤ a b)
      | uint64 b ↦ some (if is_negative a then true else ltb (pos_part a) b)
      | _ ↦ none
    ]
    lt (uint64 a) v = elim v [
      | uint64 b ↦ some (ltb a b)
      | int b ↦ some (if is_negative b then true else ltb a (pos_part b))
      | _ ↦ none
    ]
    lt (double a) v = elim v [ double b ↦ some (ops.double_lt a b) | _ ↦ none ]
    lt (string a) v = elim v [ string b ↦ some (string_lt a b) | _ ↦ none ]

    unfoldable pub eq : Native D → Native D → Option Bool
    unfolding string_eq bool_eq is_negative
    eq (bool a) v = elim v [ bool b ↦ some (bool_eq a b) | _ ↦ none ]
    eq (int a) v = elim v [ int b ↦ some (eqb_ℤ a b) | _ ↦ none ]
    eq (uint64 a) v = elim v [
      | uint64 b ↦ some (a == b)
      | int b ↦ some (if is_negative b then false else a == pos_part b)
      | _ ↦ none
    ]
    eq (double a) v = elim v [ double b ↦ some (ops.double_eq a b) | _ ↦ none ]
    eq (string a) v = elim v [ string b ↦ some (string_eq a b) | _ ↦ none ]

    unfoldable pub ne : Native D → Native D → Option Bool
    unfolding eq
    ne a b = elim (eq a b) [ none ↦ none | some r ↦ some (not r) ]

  unfoldable pub ge : Native D → Native D → Option Bool
  unfolding is_negative
  ge (int a) v = elim v [ int b ↦ some (leb_ℤ b a) | _ ↦ none ]
  ge (uint64 a) v = elim v [
    | uint64 b ↦ some (leb b a)
    | int b ↦ some (if is_negative b then true else leb (pos_part b) a)
    | _ ↦ none
  ]
  ge (bool a) v = none
  ge (double a) v = none
  ge (string a) v = none

  unfoldable pub le : Native D → Native D → Option Bool
  unfolding is_negative
  le (int a) v = elim v [ int b ↦ some (leb_ℤ a b) | _ ↦ none ]
  le (uint64 a) v = elim v [
    | uint64 b ↦ some (leb a b)
    | int b ↦ some (if is_negative b then false else leb a (pos_part b))
    | _ ↦ none
  ]
  le (bool a) v = none
  le (double a) v = none
  le (string a) v = none

-- Items of one type are always comparable by `operator==`.
pub eq-type :
    {D : Type 0} (ops : Doubles D) (a b : Native D)
    → get_item_type a ≡ get_item_type b
    → (same : Bool) × (eq ops a b ≡ some same)
unfolding eq get_item_type
eq-type ops (bool a) (bool b) h = (bool_eq a b, refl)
eq-type ops (int a) (int b) h = (eqb_ℤ a b, refl)
eq-type ops (uint64 a) (uint64 b) h = (a == b, refl)
eq-type ops (double a) (double b) h = (ops.double_eq a b, refl)
eq-type ops (string a) (string b) h = (string_eq a b, refl)
eq-type ops (bool a) (int b) h = ground arith
eq-type ops (bool a) (uint64 b) h = ground arith
eq-type ops (bool a) (double b) h = ground arith
eq-type ops (bool a) (string b) h = ground arith
eq-type ops (int a) (bool b) h = ground arith
eq-type ops (int a) (uint64 b) h = ground arith
eq-type ops (int a) (double b) h = ground arith
eq-type ops (int a) (string b) h = ground arith
eq-type ops (uint64 a) (bool b) h = ground arith
eq-type ops (uint64 a) (int b) h = ground arith
eq-type ops (uint64 a) (double b) h = ground arith
eq-type ops (uint64 a) (string b) h = ground arith
eq-type ops (double a) (bool b) h = ground arith
eq-type ops (double a) (int b) h = ground arith
eq-type ops (double a) (uint64 b) h = ground arith
eq-type ops (double a) (string b) h = ground arith
eq-type ops (string a) (bool b) h = ground arith
eq-type ops (string a) (int b) h = ground arith
eq-type ops (string a) (uint64 b) h = ground arith
eq-type ops (string a) (double b) h = ground arith

-- The integer that an item of one of the two integer types stands for.
abbrev pub as_integer : {D : Type 0} → Native D → Option ℤ
as_integer (int i) = some i
as_integer (uint64 n) = some (pos n)
as_integer (bool b) = none
as_integer (double x) = none
as_integer (string s) = none

-- A test either throws or gives this truth value.
abbrev pub Says : Bool → Option Bool → Type 0
Says b none = Unit
Says b (some r) = r ≡ b

module _ {D : Type 0} (ops : Doubles D) where
  -- With an `uint64_t` on the left and one of the two integer types on the right, none of the five
  -- tests throws, and each is that of the integers, except that `operator<` also holds whenever
  -- the right side is negative.
  pub comparisons-uint64 :
      (n : ℕ) (v : Native D) (z : ℤ)
      → as_integer v ≡ some z
      → (gt ops (uint64 n) v ≡ some (ltb_ℤ z (pos n)))
        × (ge (uint64 n) v ≡ some (leb_ℤ z (pos n)))
        × (le (uint64 n) v ≡ some (leb_ℤ (pos n) z))
        × (eq ops (uint64 n) v ≡ some (eqb_ℤ (pos n) z))
        × (lt ops (uint64 n) v ≡ some (ltb_ℤ (pos n) z || ltb_ℤ z (pos 0)))
  unfolding gt ge le eq lt is_negative
  comparisons-uint64 n (uint64 m) z h = ground arith
  comparisons-uint64 n (int (pos m)) z h = ground arith
  comparisons-uint64 n (int (negsuc m)) z h = ground arith
  comparisons-uint64 n (bool b) z h = ground arith
  comparisons-uint64 n (double b) z h = ground arith
  comparisons-uint64 n (string b) z h = ground arith

  -- With an `int` on the left and one of the two integer types on the right, `operator<` does not
  -- throw and is that of the integers; the other four throw or are those of the integers.
  comparisons-int :
      (i : ℤ) (v : Native D) (z : ℤ)
      → as_integer v ≡ some z
      → (lt ops (int i) v ≡ some (ltb_ℤ i z))
        × Says (ltb_ℤ z i) (gt ops (int i) v)
        × Says (leb_ℤ z i) (ge (int i) v)
        × Says (leb_ℤ i z) (le (int i) v)
        × Says (eqb_ℤ i z) (eq ops (int i) v)
  unfolding gt ge le eq lt is_negative
  comparisons-int i (int m) z h = ground arith
  comparisons-int (pos i) (uint64 m) z h = ground arith
  comparisons-int (negsuc i) (uint64 m) z h = ground arith
  comparisons-int i (bool b) z h = ground arith
  comparisons-int i (double b) z h = ground arith
  comparisons-int i (string b) z h = ground arith
