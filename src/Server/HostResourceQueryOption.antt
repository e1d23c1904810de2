-- ===== src/Server/HostResourceQueryOption.antt =====
-- server/src/HostResourceQueryOption.cc: the clauses of a query for what belongs to hosts. The state, the
-- names of the columns and the clauses that join the table of hostgroups stand here.
use hatohol.Base.{
  Bool, true, false, not, ◌||◌, Option, none, some, List, [], ◌∷◌, ◌++◌, if◌then◌else◌, Bytes,
  codes, c_str, eq_bytes,
}
use hatohol.Base.Int.{ℤ, negsuc, eqb_ℤ}
use hatohol.Mlpl.StringUtils.Chars.{vsprintf}
pub mod Conditions
pub mod Filters
pub mod Reading
pub mod Parts
pub mod Servers
pub mod Allowed
pub mod Visible
pub mod Dropped
pub mod Joined

-- The names that the profiles of the tables hold at the indices of the synapse, `none` for
-- `INVALID_COLUMN_IDX`. The columns of which the code asserts that they exist do.
pub record Synapse : Type 0 where
  pub table_name : Bytes
  pub server_id_column : Bytes
  pub host_table_name : Bytes
  pub host_id_column : Bytes
  pub need_to_join_hostgroup : Bool
  pub hostgroup_map_table_name : Bytes
  pub hostgroup_map_server_id_column : Bytes
  pub hostgroup_map_host_id_column : Bytes
  pub hostgroup_map_group_id_column : Bytes
  pub global_host_id_column : Option Bytes
  pub hostgroup_map_global_host_id_column : Option Bytes

-- A set is the list of its elements, and a map that of its pairs, in their order.
abbrev pub ServerIdSet : Type 0
ServerIdSet = List ℤ

abbrev pub IdSetMap : Type 0
IdSetMap = List (ℤ × List Bytes)

abbrev pub all_servers : ℤ
all_servers = negsuc 0

abbrev pub all_local_hosts : Bytes
all_local_hosts = codes "*"

abbrev pub all_host_groups : Bytes
all_host_groups = codes "*"

-- The fields of `Impl`, the flag of DataQueryOption that names columns in full, and what the query
-- context answers: whether the user has OPPRVLG_GET_ALL_SERVER, the valid servers, and the servers
-- and hostgroups that the user is allowed to see.
pub record QueryOption : Type 0 where
  pub synapse : Synapse
  pub target_server_id : ℤ
  pub target_host_id : Bytes
  pub target_hostgroup_id : Bytes
  pub exclude_defunct_servers : Bool
  pub selected_server_id_set : ServerIdSet
  pub excluded_server_id_set : ServerIdSet
  pub selected_server_hostgroup_set_map : IdSetMap
  pub excluded_server_hostgroup_set_map : IdSetMap
  pub selected_server_host_set_map : IdSetMap
  pub excluded_server_host_set_map : IdSetMap
  pub table_name_always : Bool
  pub get_all_server : Bool
  pub valid_server_id_set : ServerIdSet
  pub allowed_servers_and_hostgroups : IdSetMap

-- `empty()`, and `find` for a key of a map and for an element of a set.
abbrev pub is_empty {ℓ} : {A : Type ℓ} → List A → Bool
is_empty [] = true
is_empty (x ∷ xs) = false

abbrev pub has_key : ℤ → IdSetMap → Bool
has_key k [] = false
has_key k (e ∷ m) = eqb_ℤ k e.0 || has_key k m

abbrev pub find : ℤ → IdSetMap → Option (List Bytes)
find k [] = none
find k (e ∷ m) = if eqb_ℤ k e.0 then some e.1 else find k m

abbrev pub has_id : Bytes → List Bytes → Bool
has_id g [] = false
has_id g (h ∷ gs) = eq_bytes h g || has_id g gs

unfoldable pub enumeration_loop : IdSetMap → Bool
enumeration_loop [] = false
enumeration_loop (it ∷ rest) =
    let next = enumeration_loop rest in
    if eqb_ℤ it.0 all_servers
    then next
    else if not (has_id all_host_groups it.1)
    then true
    else next

unfoldable pub is_hostgroup_enumeration_in_condition : QueryOption → Bool
unfolding enumeration_loop
is_hostgroup_enumeration_in_condition q =
    if q.get_all_server then false else enumeration_loop q.allowed_servers_and_hostgroups

unfoldable pub is_hostgroup_used : QueryOption → Bool
unfolding is_hostgroup_enumeration_in_condition
is_hostgroup_used q =
    if not q.synapse.need_to_join_hostgroup
    then false
    else if is_hostgroup_enumeration_in_condition q
    then true
    else not (eq_bytes q.target_hostgroup_id all_host_groups)
      || not (is_empty q.selected_server_hostgroup_set_map)
      || not (is_empty q.excluded_server_hostgroup_set_map)

abbrev get_full_column_name : Bytes → Bytes → Bytes
get_full_column_name name column = name ++ (b'.' ∷ column)

unfoldable get_column_name_common : QueryOption → Bytes → Bytes → Bytes
unfolding is_hostgroup_used
get_column_name_common q name column =
    if q.table_name_always || is_hostgroup_used q then get_full_column_name name column else column

unfoldable pub get_server_id_column_name : QueryOption → Bytes
unfolding get_column_name_common
get_server_id_column_name q =
    get_column_name_common q q.synapse.table_name q.synapse.server_id_column

unfoldable pub get_hostgroup_id_column_name : QueryOption → Bytes
unfolding get_column_name_common
get_hostgroup_id_column_name q =
    get_column_name_common q q.synapse.hostgroup_map_table_name
      q.synapse.hostgroup_map_group_id_column

unfoldable pub get_host_id_column_name : QueryOption → Bytes
unfolding get_column_name_common
get_host_id_column_name q =
    get_column_name_common q q.synapse.host_table_name q.synapse.host_id_column

-- The condition of a join: a column of the table, and one of the table of hostgroups.
abbrev join_pair : Bytes → Bytes → Bytes → Bytes
join_pair column table other = c_str column ++ (b'=' ∷ (c_str table ++ (b'.' ∷ c_str other)))

unfoldable get_join_clause_with_global_host_id : Synapse → Bytes → Bytes → Bytes
get_join_clause_with_global_host_id s global group_global =
    let full = get_full_column_name s.table_name global in
    let group_full = get_full_column_name s.hostgroup_map_table_name group_global in
    vsprintf (
      codes "INNER JOIN "
      ++ (c_str s.hostgroup_map_table_name
          ++ (codes " ON " ++ (c_str full ++ (b'=' ∷ c_str group_full)))))

-- The clause by the servers' and the hosts' identifiers.
abbrev join_by_ids : QueryOption → Bytes
join_by_ids q =
    let s = q.synapse in
    let map_name = s.hostgroup_map_table_name in
    let servers =
      join_pair (get_server_id_column_name q) map_name s.hostgroup_map_server_id_column in
    let hosts = join_pair (get_host_id_column_name q) map_name s.hostgroup_map_host_id_column in
    vsprintf (
      codes "INNER JOIN "
      ++ (c_str map_name
          ++ (codes " ON ((" ++ (servers ++ (codes ") AND (" ++ (hosts ++ codes "))"))))))

unfoldable pub get_join_clause : QueryOption → Bytes
unfolding is_hostgroup_used get_join_clause_with_global_host_id get_server_id_column_name
    get_host_id_column_name
get_join_clause q =
    let s = q.synapse in
    if not (is_hostgroup_used q) then [] else elim s.global_host_id_column [
      | none ↦ join_by_ids q
      | some global ↦ elim s.hostgroup_map_global_host_id_column [
        | none ↦ join_by_ids q
        | some group_global ↦ get_join_clause_with_global_host_id s global group_global
      ]
    ]

abbrev get_from_clause_for_one_table : QueryOption → Bytes
get_from_clause_for_one_table q = q.synapse.table_name

unfoldable get_from_clause_with_hostgroup : QueryOption → Bytes
unfolding get_join_clause
get_from_clause_with_hostgroup q =
    vsprintf (c_str q.synapse.table_name ++ (b' ' ∷ c_str (get_join_clause q)))

unfoldable pub get_from_clause : QueryOption → Bytes
unfolding is_hostgroup_used get_from_clause_with_hostgroup
get_from_clause q =
    if is_hostgroup_used q
    then get_from_clause_with_hostgroup q
    else get_from_clause_for_one_table q
