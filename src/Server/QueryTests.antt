-- ===== src/Server/QueryTests.antt =====
-- The theorems on the query options at concrete inputs.
use hatohol.Base.{
  ℕ, Option, ◌+◌, ◌%◌, ◌<◌, ◌≡◌, refl, inl, inr, Bool, true, false, none, some, List, [], ◌∷◌,
  arith, ltb, if◌then◌else◌, length, Bytes, codes, eq_bytes,
}
use hatohol.Base.Int.{ℤ, pos, negsuc}
use hatohol.Server.OperationPrivilege.{set_user_id, OperationPrivilege}
use hatohol.Server.DataQueryContext.{
  Call, user_id_call, map_call, valid_call, run, answers, run-answers,
}
use hatohol.Server.DataQueryContext as context
use hatohol.Server.DataQueryOption.{
  SortOrder, sort_ascending, sort_dont_care, get_order_by, comma_joined, order_terms, listed,
  gives_term, get_order_by_lem,
}
use hatohol.Server.HostResourceQueryOption.{
  Synapse, QueryOption, IdSetMap, all_servers, all_local_hosts, all_host_groups,
  get_server_id_column_name, get_hostgroup_id_column_name, get_host_id_column_name,
  is_hostgroup_used,
}
use hatohol.Server.HostResourceQueryOption.Conditions.{make_condition_allowed_hosts}
use hatohol.Server.HostResourceQueryOption.Filters.{
  get_condition, get_condition-returns, make_condition_selected_hostgroups,
  make_condition_excluded_hostgroups,
}
use hatohol.Server.HostResourceQueryOption.Reading.{IsWord, Means}
use hatohol.Server.HostResourceQueryOption.Parts.{IsDecimal}
use hatohol.Server.HostResourceQueryOption.Visible.{is_visible, get_condition-Means}
use hatohol.Server.HostResourceQueryOption.Dropped.{
  make_condition_allowed_hosts-empty, hostgroups_filter-dropped,
}
use hatohol.Server.HostResourceQueryOption.Joined.{is_hostgroup_used-Means}

-- Numbers by their last digit, and a row of server 2.
abbrev last_digit : ℤ → Bytes
last_digit (pos n) = (48 + n % 10) ∷ []
last_digit (negsuc n) = b'-' ∷ (48 + (n + 1) % 10) ∷ []

last_digit-IsDecimal : IsDecimal last_digit
last_digit-IsDecimal (pos n) = (ground arith, ground arith)
last_digit-IsDecimal (negsuc n) = (ground arith, ground arith)

abbrev row : Bytes → Bytes → Bool
row column term = eq_bytes term (codes "2")

abbrev events : Synapse
events = record {
  table_name = codes "events";
  server_id_column = codes "server_id";
  host_table_name = codes "events";
  host_id_column = codes "host_id";
  need_to_join_hostgroup = true;
  hostgroup_map_table_name = codes "hostgroup_member";
  hostgroup_map_server_id_column = codes "server_id";
  hostgroup_map_host_id_column = codes "host_id";
  hostgroup_map_group_id_column = codes "host_group_id";
  global_host_id_column = none;
  hostgroup_map_global_host_id_column = none;
}

abbrev query : ℤ → IdSetMap → IdSetMap → QueryOption
query target allowed selected = record {
  synapse = events;
  target_server_id = target;
  target_host_id = all_local_hosts;
  target_hostgroup_id = all_host_groups;
  exclude_defunct_servers = true;
  selected_server_id_set = [];
  excluded_server_id_set = [];
  selected_server_hostgroup_set_map = selected;
  excluded_server_hostgroup_set_map = [];
  selected_server_host_set_map = [];
  excluded_server_host_set_map = [];
  table_name_always = false;
  get_all_server = false;
  valid_server_id_set = pos 1 ∷ pos 2 ∷ [];
  allowed_servers_and_hostgroups = allowed;
}

-- Server 1 with one hostgroup, and server 2 with all of them; the target is server 2.
abbrev allowed : IdSetMap
allowed = (pos 1, codes "7" ∷ []) ∷ (pos 2, codes "*" ∷ []) ∷ []

abbrev q : QueryOption
q = query (pos 2) allowed []

server-IsWord : IsWord (get_server_id_column_name q)
unfolding get_server_id_column_name
server-IsWord = ground arith

host-IsWord : IsWord (get_host_id_column_name q)
unfolding get_host_id_column_name
host-IsWord = ground arith

group-IsWord : IsWord (get_hostgroup_id_column_name q)
unfolding get_hostgroup_id_column_name
group-IsWord = ground arith

get_condition-Means_example :
    (s : Bytes) × (get_condition last_digit q ≡ some s)
    × (length s < 0x3ff → Means row s (is_visible row last_digit q))
get_condition-Means_example =
    get_condition-Means row last_digit last_digit-IsDecimal q server-IsWord host-IsWord group-IsWord
      (refl, refl, refl, refl, refl, refl)
      (inr (inl refl, (λ e. ground (arith, e), (λ e. ground (arith, e), tt))))

get_condition-returns_example : (s : Bytes) × (get_condition last_digit q ≡ some s)
get_condition-returns_example = get_condition-returns last_digit q

make_condition_allowed_hosts-empty_example :
    make_condition_allowed_hosts last_digit (query (pos 2) ((all_servers, codes "*" ∷ []) ∷ []) [])
    ≡ codes "()"
make_condition_allowed_hosts-empty_example =
    make_condition_allowed_hosts-empty last_digit
      (query (pos 2) ((all_servers, codes "*" ∷ []) ∷ []) []) refl refl refl refl

abbrev no_hostgroups : IdSetMap
no_hostgroups = []

hostgroups_filter-dropped_example :
    (make_condition_selected_hostgroups last_digit (query all_servers allowed allowed)
      ≡ some (if ltb 1 (length allowed) then codes "()" else []))
    × (make_condition_excluded_hostgroups last_digit (query all_servers allowed allowed)
        ≡ some (if ltb 1 (length no_hostgroups) then codes "()" else []))
hostgroups_filter-dropped_example =
    hostgroups_filter-dropped last_digit (query all_servers allowed allowed) refl refl

abbrev all_groups : QueryOption
all_groups = query (pos 2) ((pos 2, codes "*" ∷ []) ∷ []) []

not_used : is_hostgroup_used all_groups ≡ false
unfolding is_hostgroup_used
not_used = refl

-- The same server and host, in hostgroup 7.
abbrev other_row : Bytes → Bytes → Bool
other_row column term =
    if eq_bytes column (codes "host_group_id") then eq_bytes term (codes "7") else row column term

differs :
    (row (get_hostgroup_id_column_name all_groups) (codes "7") ≡ false)
    × (other_row (get_hostgroup_id_column_name all_groups) (codes "7") ≡ true)
unfolding get_hostgroup_id_column_name
differs = (refl, refl)

same_server :
    (t : Bytes)
    → row (get_server_id_column_name all_groups) t
      ≡ other_row (get_server_id_column_name all_groups) t
unfolding get_server_id_column_name
same_server t = refl

same_host :
    (t : Bytes)
    → row (get_host_id_column_name all_groups) t ≡ other_row (get_host_id_column_name all_groups) t
unfolding get_host_id_column_name
same_host t = refl

all_groups-IsWord :
    IsWord (get_server_id_column_name all_groups)
    × IsWord (get_host_id_column_name all_groups)
    × IsWord (get_hostgroup_id_column_name all_groups)
unfolding get_server_id_column_name get_host_id_column_name get_hostgroup_id_column_name
all_groups-IsWord = (ground arith, ground arith, ground arith)

is_hostgroup_used-Means_example :
    (s : Bytes) × (get_condition last_digit all_groups ≡ some s)
    × (length s < 0x3ff → (b : Bool) × Means row s b × Means other_row s b)
is_hostgroup_used-Means_example =
    is_hostgroup_used-Means row other_row last_digit last_digit-IsDecimal all_groups
      all_groups-IsWord.0 all_groups-IsWord.1 all_groups-IsWord.2
      (refl, refl, refl, refl, refl, refl) (inr (inl refl, (λ e. ground (arith, e), tt))) refl
      not_used same_server same_host

abbrev unsorted : SortOrder
unsorted = record { column_name = codes "x"; direction = sort_dont_care }

abbrev by_time : List SortOrder
by_time = record { column_name = codes "time"; direction = sort_ascending } ∷ []

get_order_by_lem_example : get_order_by (unsorted ∷ by_time) ≡ (
    if gives_term unsorted
    then comma_joined (order_terms (unsorted ∷ by_time))
    else listed (order_terms by_time))
get_order_by_lem_example = get_order_by_lem unsorted by_time

abbrev user_flags : ℤ → Option ℕ
user_flags id = some 3

abbrev user_map : ℤ → IdSetMap
user_map id = (id, codes "*" ∷ []) ∷ []

abbrev privilege_servers : OperationPrivilege → List ℤ
privilege_servers p = p.user_id ∷ []

abbrev questions : List Call
questions = map_call ∷ user_id_call (pos 4) ∷ map_call ∷ valid_call (pos 4) ∷ []

run-answers_example :
    run user_flags user_map privilege_servers
      (context.init user_flags user_map privilege_servers (pos 2))
      questions
    ≡ answers user_flags user_map privilege_servers (set_user_id user_flags (pos 2)) questions
run-answers_example = run-answers user_flags user_map privilege_servers (pos 2) questions
