-- ===== src/Server/HostResourceQueryOption/Conditions.antt =====
-- The conditions of server/src/HostResourceQueryOption.cc.
use hatohol.Base.{
  ℕ, ◌+◌, ◌-◌, Bool, true, false, not, ◌||◌, ◌&&◌, Option, none, some, List, [], ◌∷◌, ◌++◌, ◌==◌,
  if◌then◌else◌, length, Bytes, codes, c_str, eq_bytes,
}
use hatohol.Base.Int.{ℤ, eqb_ℤ}
use hatohol.Mlpl.StringUtils.Chars.{vsprintf}
use hatohol.Server.DbTermCodec.{enc}
use hatohol.Server.DataQueryOption.{
  AddConditionType, add_type_and, add_type_or, add_condition, empty,
}
use package.hatohol.Server.HostResourceQueryOption.{
  ServerIdSet, IdSetMap, all_servers, all_local_hosts, all_host_groups, QueryOption, is_empty,
  has_key, find, get_server_id_column_name, get_hostgroup_id_column_name, get_host_id_column_name,
}

abbrev pub always_false_condition : Bytes
always_false_condition = codes "0"

-- `sprintf("%s=%s", ...)`, with `op` for what stands between the two, and `sprintf("(%s)", ...)`.
abbrev pub compare_text : Bytes → Bytes → Bytes → Bytes
compare_text column op term = c_str column ++ (op ++ c_str term)

unfoldable pub sprintf_compare : Bytes → Bytes → Bytes → Bytes
sprintf_compare column op term = vsprintf (compare_text column op term)

unfoldable pub in_parentheses : Bytes → Bytes
in_parentheses condition = vsprintf (b'(' ∷ (c_str condition ++ b')' ∷ []))

unfoldable pub is_allowed_server : QueryOption → ℤ → Bool
is_allowed_server q target_server_id =
    if q.get_all_server
    then true
    else has_key all_servers q.allowed_servers_and_hostgroups
      || has_key target_server_id q.allowed_servers_and_hostgroups

-- `sprintf("(%s AND %s)", ...)`.
unfoldable pub in_parentheses_and : Bytes → Bytes → Bytes
in_parentheses_and condition other =
    vsprintf (b'(' ∷ (c_str condition ++ (codes " AND " ++ (c_str other ++ b')' ∷ []))))

-- `sprintf("(%s=%s AND %s=%s)", ...)`, with `mark` in front.
unfoldable pub sprintf_pair : Bytes → Bytes → Bytes → Bytes → Bytes → Bytes
sprintf_pair mark server_column server_term column term = vsprintf (
    mark
    ++ (b'('
        ∷ (compare_text server_column (codes "=") server_term
            ++ (codes " AND " ++ (compare_text column (codes "=") term ++ b')' ∷ [])))))

-- `none` is the access through the end of the map.
unfoldable pub is_allowed_hostgroup : QueryOption → ℤ → Bytes → Option Bool
is_allowed_hostgroup q target_server_id target_hostgroup_id =
    if q.get_all_server
    then some true
    else if has_key all_servers q.allowed_servers_and_hostgroups
    then some true
    else elim (find target_server_id q.allowed_servers_and_hostgroups) [
      | some hostgroup_set ↦ some false
      | none ↦ none
    ]

-- `dec` is what the C library writes for `%d`.
module _ (dec : ℤ → Bytes) where
  -- `enc` of an integer.
  unfoldable pub enc_int : ℤ → Bytes
  enc_int val = vsprintf (dec val)

  unfoldable pub make_condition_target_ids : QueryOption → Bytes
  unfolding enc_int add_condition sprintf_compare in_parentheses
  make_condition_target_ids q =
      let server =
        (if not (eqb_ℤ q.target_server_id all_servers)
          then sprintf_compare (get_server_id_column_name q) (codes "=")
              (enc_int q.target_server_id)
          else []) in
      let host =
        (if not (eq_bytes q.target_host_id all_local_hosts)
          then sprintf_compare (get_host_id_column_name q) (codes "=") (enc q.target_host_id)
          else []) in
      let hostgroup =
        (if not (eq_bytes q.target_hostgroup_id all_host_groups)
          then sprintf_compare (get_hostgroup_id_column_name q) (codes "=")
              (enc q.target_hostgroup_id)
          else []) in
      let with_server = add_condition [] server add_type_and false in
      let with_host = add_condition with_server host add_type_and false in
      let condition = add_condition with_host hostgroup add_type_and false in
      if empty condition then condition else in_parentheses condition

-- The loop of `makeConditionHostgroup`; `none` is its return of the empty text.
unfoldable pub hostgroup_loop : Bytes → ℕ → List Bytes → Option Bytes
hostgroup_loop host_grps comma_cnt [] = some host_grps
hostgroup_loop host_grps comma_cnt (hostgroup_id ∷ rest) =
    let more =
      hostgroup_loop ((host_grps ++ c_str (enc hostgroup_id)) ++ codes ",") (comma_cnt - 1) rest in
    let last = hostgroup_loop (host_grps ++ c_str (enc hostgroup_id)) (comma_cnt - 1) rest in
    if eq_bytes hostgroup_id all_host_groups
    then none
    else if not (comma_cnt == 0)
    then more
    else last

unfoldable pub make_condition_hostgroup : List Bytes → Bytes → Bytes
unfolding hostgroup_loop
make_condition_hostgroup hostgroup_id_set hostgroup_id_column_name =
    elim (hostgroup_loop [] (length hostgroup_id_set - 1) hostgroup_id_set) [
      | none ↦ []
      | some host_grps ↦
          vsprintf
            (c_str hostgroup_id_column_name ++ (codes " IN (" ++ (c_str host_grps ++ codes ")")))
    ]

module _ (dec : ℤ → Bytes) where
  -- The loop of `makeConditionServer` over a set of servers.
  unfoldable pub server_loop : Bool → Bytes → ServerIdSet → Bytes
  server_loop first condition [] = condition ++ codes ")"
  server_loop first condition (server_id ∷ rest) =
      let comma = if first then condition else condition ++ codes "," in
      server_loop false (comma ++ c_str (enc_int dec server_id)) rest

  unfoldable pub make_condition_servers : ServerIdSet → Bytes → Bytes
  unfolding server_loop
  make_condition_servers server_id_set server_id_column_name =
      if is_empty server_id_set
      then always_false_condition
      else server_loop true (vsprintf (c_str server_id_column_name ++ codes " IN (")) server_id_set

  unfoldable pub make_condition_server : ℤ → List Bytes → Bytes → Bytes → Bytes → Bytes
  unfolding sprintf_compare enc_int make_condition_hostgroup in_parentheses_and
  make_condition_server server_id hostgroup_id_set server_id_column_name hostgroup_id_column_name
        hostgroup_id =
      let condition = sprintf_compare server_id_column_name (codes "=") (enc_int dec server_id) in
      let condition_hostgroup =
        (if eq_bytes hostgroup_id all_host_groups
          then make_condition_hostgroup hostgroup_id_set hostgroup_id_column_name
          else sprintf_compare hostgroup_id_column_name (codes "=") (enc (c_str hostgroup_id))) in
      if not (empty condition_hostgroup)
      then in_parentheses_and condition condition_hostgroup
      else condition

  -- The loop of `makeConditionAllowedHosts`, with the number of servers; `none` is its return of the
  -- empty text.
  unfoldable pub allowed_loop : QueryOption → Bytes → ℕ → IdSetMap → Option (Bytes × ℕ)
  allowed_loop q condition num_servers [] = some (condition, num_servers)
  allowed_loop q condition num_servers (it ∷ rest) =
      let condition_server =
        (make_condition_server it.0 it.1 (get_server_id_column_name q)
          (get_hostgroup_id_column_name q) q.target_hostgroup_id) in
      let omitted = allowed_loop q condition num_servers rest in
      let added =
        (allowed_loop q (add_condition condition condition_server add_type_or false)
          (num_servers + 1) rest) in
      if not (eqb_ℤ q.target_server_id all_servers) && not (eqb_ℤ q.target_server_id it.0)
      then omitted
      else if eqb_ℤ it.0 all_servers
      then none
      else added

  unfoldable pub make_condition_allowed_hosts : QueryOption → Bytes
  unfolding allowed_loop is_allowed_server in_parentheses
  make_condition_allowed_hosts q =
      if is_empty q.allowed_servers_and_hostgroups
      then always_false_condition
      else if not (eqb_ℤ q.target_server_id all_servers)
          && not (is_allowed_server q q.target_server_id)
      then always_false_condition
      else elim (allowed_loop q [] 0 q.allowed_servers_and_hostgroups) [
        | none ↦ []
        | some r ↦ if r.1 == 1 then r.0 else in_parentheses r.0
      ]

  -- The loop of the filters by servers.
  unfoldable pub filter_servers :
      QueryOption → Bytes → AddConditionType → Bytes → ServerIdSet → Bytes
  filter_servers q op type condition [] = condition
  filter_servers q op type condition (server_id ∷ rest) =
      let filter = sprintf_compare (get_server_id_column_name q) op (enc_int dec server_id) in
      let skipped = filter_servers q op type condition rest in
      let added = filter_servers q op type (add_condition condition filter type false) rest in
      if not (is_allowed_server q server_id) then skipped else added

  -- The inner loops of the filters by hostgroups, where `none` is an access through the end of a
  -- map, and by hosts.
  unfoldable pub filter_hostgroup_set :
      QueryOption → Bytes → AddConditionType → Bytes → ℤ → List Bytes → Option Bytes
  filter_hostgroup_set q mark type condition server_id [] = some condition
  filter_hostgroup_set q mark type condition server_id (hostgroup_id ∷ rest) =
      let filter =
        (sprintf_pair mark (get_server_id_column_name q) (enc_int dec server_id)
          (get_hostgroup_id_column_name q) (enc hostgroup_id)) in
      let skipped = filter_hostgroup_set q mark type condition server_id rest in
      let added =
        (filter_hostgroup_set q mark type (add_condition condition filter type false) server_id
          rest) in
      elim (is_allowed_hostgroup q server_id hostgroup_id) [
        | none ↦ none
        | some allowed ↦ if not allowed then skipped else added
      ]

  unfoldable pub filter_host_set :
      QueryOption → Bytes → AddConditionType → Bytes → ℤ → List Bytes → Bytes
  filter_host_set q mark type condition server_id [] = condition
  filter_host_set q mark type condition server_id (host_id ∷ rest) =
      let filter =
        (sprintf_pair mark (get_server_id_column_name q) (enc_int dec server_id)
          (get_host_id_column_name q) (enc host_id)) in
      filter_host_set q mark type (add_condition condition filter type false) server_id rest

  unfoldable pub filter_hostgroups :
      QueryOption → Bytes → AddConditionType → Bytes → IdSetMap → Option Bytes
  filter_hostgroups q mark type condition [] = some condition
  filter_hostgroups q mark type condition (pair ∷ rest) =
      let skipped = filter_hostgroups q mark type condition rest in
      if not (is_allowed_server q pair.0)
      then skipped
      else elim (filter_hostgroup_set q mark type condition pair.0 pair.1) [
        | none ↦ none
        | some grown ↦ filter_hostgroups q mark type grown rest
      ]

  unfoldable pub filter_hosts : QueryOption → Bytes → AddConditionType → Bytes → IdSetMap → Bytes
  filter_hosts q mark type condition [] = condition
  filter_hosts q mark type condition (pair ∷ rest) =
      let skipped = filter_hosts q mark type condition rest in
      let added =
        (filter_hosts q mark type (filter_host_set q mark type condition pair.0 pair.1) rest) in
      if not (is_allowed_server q pair.0) then skipped else added
