-- ===== src/Common/Tests.antt =====
-- The theorems on server/common at concrete inputs.
use hatohol.Base.{
  ℕ, ◌≡◌, refl, true, false, ◌||◌, some, List, [], ◌∷◌, ◌++◌, arith, ltb, ◌==◌, Bytes, codes,
}
use hatohol.Base.Int.{pos, negsuc, leb_ℤ, ltb_ℤ, eqb_ℤ}
use hatohol.Common.ItemData.{
  Doubles, ItemDataType, item_type_uint64, item_type_string, ItemData, int, uint64, string, gt, ge,
  le, lt, eq, get_item_type, comparisons-uint64,
}
use hatohol.Common.ItemGroup.{ItemGroup, type_lt}
use hatohol.Common.ItemGroup.Laws.{type_lt_both}
use hatohol.Common.ItemTable.{inner_join}
use hatohol.Common.ItemTable.Rows.{IsTable, rows}
use hatohol.Common.ItemTable.Joins.{joined, columns_equal, inner_join-joined}

-- Numbers in the place of the machine's doubles.
abbrev doubles : Doubles ℕ
doubles = record { double_gt = λ a b. ltb b a; double_lt = ltb; double_eq = λ a b. a == b }

comparisons-uint64_example :
    (gt doubles (uint64 5) (int (negsuc 2)) ≡ some (ltb_ℤ (negsuc 2) (pos 5)))
    × (ge {D = ℕ} (uint64 5) (int (negsuc 2)) ≡ some (leb_ℤ (negsuc 2) (pos 5)))
    × (le {D = ℕ} (uint64 5) (int (negsuc 2)) ≡ some (leb_ℤ (pos 5) (negsuc 2)))
    × (eq doubles (uint64 5) (int (negsuc 2)) ≡ some (eqb_ℤ (pos 5) (negsuc 2)))
    × (lt doubles (uint64 5) (int (negsuc 2))
        ≡ some (ltb_ℤ (pos 5) (negsuc 2) || ltb_ℤ (negsuc 2) (pos 0)))
comparisons-uint64_example = comparisons-uint64 doubles 5 (int (negsuc 2)) (negsuc 2) refl

abbrev id_name : List ItemDataType
id_name = item_type_uint64 ∷ item_type_string ∷ []

abbrev name_id : List ItemDataType
name_id = item_type_string ∷ item_type_uint64 ∷ []

type_lt_both_example : (type_lt id_name name_id ≡ true) × (type_lt name_id id_name ≡ true)
type_lt_both_example =
    type_lt_both id_name name_id 0 1 item_type_uint64 item_type_string item_type_string
      item_type_uint64 refl refl refl (omega arith) refl refl (omega arith)

abbrev host_id : ItemData ℕ
host_id = record { item_id = 1; data_of = uint64 7; null = false }

-- A row of identifiers and names.
abbrev row : ℕ → Bytes → ItemGroup ℕ
row n s =
    let i : ItemData ℕ = record { item_id = 1; data_of = uint64 n; null = false } in
    let t : ItemData ℕ = record { item_id = 2; data_of = string s; null = false } in
    record {
      freezed = true;
      group_type = some id_name;
      item_map = (1, i) ∷ (2, t) ∷ [];
      item_vector = i ∷ t ∷ [];
    }

abbrev hosts : List (ItemGroup ℕ)
hosts = row 7 (codes "web") ∷ row 8 (codes "db") ∷ []

hosts-IsTable : IsTable id_name hosts
unfolding get_item_type
hosts-IsTable = (((refl, refl), refl, refl), (((refl, refl), refl, refl), tt))

inner_join-joined_example :
    (t : List (ItemGroup ℕ)) × (inner_join doubles hosts hosts 0 0 ≡ some t)
    × IsTable (id_name ++ id_name) t
    × (rows t ≡ joined (columns_equal doubles 0 0) (rows hosts) (rows hosts))
inner_join-joined_example =
    inner_join-joined doubles id_name id_name 0 0 item_type_uint64 hosts hosts refl refl
      hosts-IsTable hosts-IsTable
