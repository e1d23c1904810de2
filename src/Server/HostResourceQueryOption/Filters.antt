-- ===== src/Server/HostResourceQueryOption/Filters.antt =====
-- The filters of server/src/HostResourceQueryOption.cc by selected and excluded servers, hostgroups and
-- hosts, and the whole condition.
use hatohol.Base.{
  ℕ, ◌+◌, ◌≡◌, ◌≢◌, refl, inl, inr, Bool, true, false, not, ◌&&◌, Option, none, some, List, [], ◌∷◌,
  arith, ltb, if◌then◌else◌, Bool-cases, Option-cases, length, Bytes, codes, eq_bytes,
}
use hatohol.Base.Int.{ℤ}
use hatohol.Server.DbTermCodec.{enc}
use hatohol.Server.DataQueryOption.{
  AddConditionType, add_type_and, add_type_or, add_condition, empty,
}
use package.hatohol.Server.HostResourceQueryOption.{
  IdSetMap, QueryOption, is_empty, has_key, find, get_server_id_column_name,
  get_hostgroup_id_column_name,
}
use package.hatohol.Server.HostResourceQueryOption.Conditions.{
  always_false_condition, in_parentheses, is_allowed_server, is_allowed_hostgroup,
  make_condition_target_ids, make_condition_servers, make_condition_allowed_hosts, filter_servers,
  filter_hostgroup_set, filter_hostgroups, filter_hosts, enc_int, sprintf_pair,
}

returns {ℓ} : {A : Type ℓ} (o : Option A) → (o ≢ none) → (a : A) × (o ≡ some a)
returns o h = elim (Option-cases o) [ inl n ↦ absurd (h n) | inr r ↦ r ]

find-none : (k : ℤ) (m : IdSetMap) → find k m ≡ none → has_key k m ≡ false
find-none k [] h = refl
find-none k (e ∷ m) h = ground (arith, find-none k m)

module _ (dec : ℤ → Bytes) where
  unfoldable pub make_condition_selected_servers : QueryOption → Bytes
  unfolding filter_servers in_parentheses
  make_condition_selected_servers q =
      let condition = filter_servers dec q (codes "=") add_type_or [] q.selected_server_id_set in
      if is_empty q.selected_server_id_set
      then []
      else if ltb 1 (length q.selected_server_id_set)
      then in_parentheses condition
      else condition

  unfoldable pub make_condition_excluded_servers : QueryOption → Bytes
  unfolding filter_servers in_parentheses
  make_condition_excluded_servers q =
      let condition = filter_servers dec q (codes "<>") add_type_and [] q.excluded_server_id_set in
      if is_empty q.excluded_server_id_set
      then []
      else if ltb 1 (length q.excluded_server_id_set)
      then in_parentheses condition
      else condition

  unfoldable pub make_condition_selected_hostgroups : QueryOption → Option Bytes
  unfolding filter_hostgroups in_parentheses
  make_condition_selected_hostgroups q =
      let m = q.selected_server_hostgroup_set_map in
      if is_empty m then some [] else elim (filter_hostgroups dec q [] add_type_or [] m) [
        | none ↦ none
        | some condition ↦ some (if ltb 1 (length m) then in_parentheses condition else condition)
      ]

  unfoldable pub make_condition_excluded_hostgroups : QueryOption → Option Bytes
  unfolding filter_hostgroups in_parentheses
  make_condition_excluded_hostgroups q =
      let m = q.excluded_server_hostgroup_set_map in
      if is_empty m
      then some []
      else elim (filter_hostgroups dec q (codes "NOT ") add_type_and [] m) [
        | none ↦ none
        | some condition ↦ some (if ltb 1 (length m) then in_parentheses condition else condition)
      ]

  unfoldable pub make_condition_selected_hosts : QueryOption → Bytes
  unfolding filter_hosts in_parentheses
  make_condition_selected_hosts q =
      let m = q.selected_server_host_set_map in
      let condition = filter_hosts dec q [] add_type_or [] m in
      if is_empty m then [] else if ltb 1 (length m) then in_parentheses condition else condition

  unfoldable pub make_condition_excluded_hosts : QueryOption → Bytes
  unfolding filter_hosts in_parentheses
  make_condition_excluded_hosts q =
      let m = q.excluded_server_host_set_map in
      let condition = filter_hosts dec q (codes "NOT ") add_type_and [] m in
      if is_empty m then [] else if ltb 1 (length m) then in_parentheses condition else condition

  -- One more filter, and the number of those that are not empty.
  abbrev add_filter : AddConditionType → Bytes × ℕ → Bytes → Bytes × ℕ
  add_filter type acc next_condition = (
    add_condition acc.0 next_condition type false,
    (if empty next_condition then acc.1 else acc.1 + 1),
  )

  unfoldable pub make_condition_hosts_filter : QueryOption → Option Bytes
  unfolding make_condition_selected_servers make_condition_excluded_servers
      make_condition_selected_hostgroups make_condition_excluded_hostgroups
      make_condition_selected_hosts make_condition_excluded_hosts in_parentheses
  make_condition_hosts_filter q =
      let a1 = add_filter add_type_or ([], 0) (make_condition_selected_servers q) in
      let a2 = add_filter add_type_and a1 (make_condition_excluded_servers q) in
      elim (make_condition_selected_hostgroups q) [
        | none ↦ none
        | some selected ↦ elim (make_condition_excluded_hostgroups q) [
          | none ↦ none
          | some excluded ↦
              let a3 = add_filter add_type_or a2 selected in
              let a4 = add_filter add_type_and a3 excluded in
              let a5 = add_filter add_type_or a4 (make_condition_selected_hosts q) in
              let a6 = add_filter add_type_and a5 (make_condition_excluded_hosts q) in
              some (if ltb 1 a6.1 then in_parentheses a6.0 else a6.0)
        ]
      ]

  -- `none` is an access through the end of a map.
  unfoldable pub get_condition : QueryOption → Option Bytes
  unfolding make_condition_servers make_condition_allowed_hosts make_condition_hosts_filter
  get_condition q =
      let valid_servers_condition =
        (make_condition_servers dec q.valid_server_id_set (get_server_id_column_name q)) in
      let allowed_hosts_condition = make_condition_allowed_hosts dec q in
      let valid =
        (if q.exclude_defunct_servers
          then add_condition [] valid_servers_condition add_type_and false
          else []) in
      let allowed =
        (if q.get_all_server
          then valid
          else add_condition valid allowed_hosts_condition add_type_and false) in
      let targets = add_condition allowed (make_condition_target_ids dec q) add_type_and false in
      if not q.get_all_server && eq_bytes always_false_condition allowed_hosts_condition
      then some allowed_hosts_condition
      else elim (make_condition_hosts_filter q) [
        | none ↦ none
        | some filter ↦ some (add_condition targets filter add_type_and false)
      ]

  -- A user that is allowed to see a server is never sent through the end of the map.
  is_allowed_hostgroup-returns :
      (q : QueryOption) (server_id : ℤ) (g : Bytes)
      → is_allowed_server q server_id ≡ true
      → (b : Bool) × (is_allowed_hostgroup q server_id g ≡ some b)
  unfolding is_allowed_server is_allowed_hostgroup
  is_allowed_hostgroup-returns q server_id g h =
      returns (is_allowed_hostgroup q server_id g)
        (λ n. ground (arith, h, n, find-none server_id q.allowed_servers_and_hostgroups))

  filter_hostgroup_set-returns :
      (q : QueryOption) (mark : Bytes) (type : AddConditionType) (condition : Bytes) (server_id : ℤ)
      (ids : List Bytes)
      → is_allowed_server q server_id ≡ true
      → (s : Bytes) × (filter_hostgroup_set dec q mark type condition server_id ids ≡ some s)
  unfolding filter_hostgroup_set
  filter_hostgroup_set-returns q mark type condition server_id [] h = (condition, refl)
  filter_hostgroup_set-returns q mark type condition server_id (g ∷ ids) h =
      let (b, e) = is_allowed_hostgroup-returns q server_id g h in
      let skipped = filter_hostgroup_set-returns q mark type condition server_id ids h in
      let filter =
        (sprintf_pair mark (get_server_id_column_name q) (enc_int dec server_id)
          (get_hostgroup_id_column_name q) (enc g)) in
      let added =
        (filter_hostgroup_set-returns q mark type (add_condition condition filter type false)
          server_id ids h) in
      returns (filter_hostgroup_set dec q mark type condition server_id (g ∷ ids))
        (λ n. ground (arith, n, e, skipped.1, added.1))

  pub filter_hostgroups-returns :
      (q : QueryOption) (mark : Bytes) (type : AddConditionType) (condition : Bytes) (m : IdSetMap)
      → (s : Bytes) × (filter_hostgroups dec q mark type condition m ≡ some s)
  unfolding filter_hostgroups
  filter_hostgroups-returns q mark type condition [] = (condition, refl)
  filter_hostgroups-returns q mark type condition (pair ∷ rest) =
      elim (Bool-cases (is_allowed_server q pair.0)) [
        | inl e ↦
            let (s, k) = filter_hostgroup_set-returns q mark type condition pair.0 pair.1 e in
            rw (e, k) (filter_hostgroups-returns q mark type s rest)
        | inr e ↦ rw e (filter_hostgroups-returns q mark type condition rest)
      ]

  selected_hostgroups-returns :
      (q : QueryOption) → (s : Bytes) × (make_condition_selected_hostgroups q ≡ some s)
  unfolding make_condition_selected_hostgroups
  selected_hostgroups-returns q =
      let (s, e) =
        (filter_hostgroups-returns q [] add_type_or [] q.selected_server_hostgroup_set_map) in
      returns (make_condition_selected_hostgroups q) (λ n. ground (arith, n, e))

  excluded_hostgroups-returns :
      (q : QueryOption) → (s : Bytes) × (make_condition_excluded_hostgroups q ≡ some s)
  unfolding make_condition_excluded_hostgroups
  excluded_hostgroups-returns q =
      let (s, e) =
        (filter_hostgroups-returns q (codes "NOT ") add_type_and []
          q.excluded_server_hostgroup_set_map) in
      returns (make_condition_excluded_hostgroups q) (λ n. ground (arith, n, e))

  make_condition_hosts_filter-returns :
      (q : QueryOption) → (s : Bytes) × (make_condition_hosts_filter q ≡ some s)
  unfolding make_condition_hosts_filter
  make_condition_hosts_filter-returns q =
      let (s, e) = selected_hostgroups-returns q in
      let (t, f) = excluded_hostgroups-returns q in
      returns (make_condition_hosts_filter q) (λ n. ground (arith, n, e, f))

  -- No filter reads through the end of a map: the condition is always a text.
  pub get_condition-returns : (q : QueryOption) → (s : Bytes) × (get_condition q ≡ some s)
  unfolding get_condition
  get_condition-returns q =
      let (s, e) = make_condition_hosts_filter-returns q in
      returns (get_condition q) (λ n. ground (arith, n, e))
