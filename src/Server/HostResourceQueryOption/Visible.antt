-- ===== src/Server/HostResourceQueryOption/Visible.antt =====
-- Which rows the condition of a query shows: those of valid servers that the user is allowed to see and
-- the caller asks for.
use hatohol.Base.{
  ℕ, ◌<◌, ◌≡◌, ◌≢◌, refl, subst, ◌⊎◌, inl, inr, Bool, true, false, not, ◌||◌, ◌&&◌, some, [], ◌∷◌,
  ◌++◌, arith, ◌==◌, if◌then◌else◌, Bool-cases, length, Bytes, codes, eq_bytes, All,
}
use hatohol.Base.Int.{ℤ}
use hatohol.Mlpl.StringUtils.Split.{join}
use hatohol.Server.DataQueryOption.{add_type_and, add_condition}
use package.hatohol.Server.HostResourceQueryOption.{
  QueryOption, is_empty, get_server_id_column_name, get_hostgroup_id_column_name,
  get_host_id_column_name,
}
use package.hatohol.Server.HostResourceQueryOption.Conditions.{
  always_false_condition, make_condition_target_ids, make_condition_servers,
}
use package.hatohol.Server.HostResourceQueryOption.Reading.{
  IsWord, any, Level, factor, Reads, is, group, both, either, one, never, among, single, Means,
  Restricts, Denotes, said, add_condition-and-Denotes, and-true, restricts,
}
use package.hatohol.Server.HostResourceQueryOption.Parts.{IsDecimal}
use package.hatohol.Server.HostResourceQueryOption.Conditions.{make_condition_allowed_hosts}
use package.hatohol.Server.HostResourceQueryOption.Filters.{
  make_condition_hosts_filter, make_condition_selected_servers, make_condition_excluded_servers,
  make_condition_selected_hostgroups, make_condition_excluded_hostgroups,
  make_condition_selected_hosts, make_condition_excluded_hosts, get_condition,
}
use package.hatohol.Server.HostResourceQueryOption.Servers.{
  is_target, make_condition_servers-Denotes, make_condition_target_ids-Denotes,
}
use package.hatohol.Server.HostResourceQueryOption.Allowed.{
  is_permitted, IsDistinct, make_condition_allowed_hosts-Denotes,
}

add_nothing : (s : Bytes) → add_condition s [] add_type_and false ≡ s
unfolding add_condition
add_nothing s = refl

not_always_false :
    (w : Bytes) (c : ℕ) (s : Bytes)
    → (b'0' == c) ≡ false
    → eq_bytes always_false_condition (w ++ (c ∷ s)) ≡ false
not_always_false [] c s h = ground (arith, h)
not_always_false (x ∷ []) c s h = ground arith
not_always_false (x ∷ y ∷ w) c s h = ground arith

-- The condition that is always false says so.
always_false_lem :
    {row : Bytes → Bytes → Bool}
    → {l : Level} → {s : Bytes} → {b : Bool} → Reads row l s b
    → eq_bytes always_false_condition s ≡ true
    → b ≡ false
always_false_lem never h = refl
always_false_lem (is column term w t) h =
    absurd (ground (arith, h, not_always_false column b'=' term))
always_false_lem (among column terms w t n) h = absurd (
    ground
      (arith, h, not_always_false column b' ' (codes "IN (" ++ (join b',' terms ++ codes ")"))))
always_false_lem (group r) h = absurd (ground (arith, h))
always_false_lem (one r) h = always_false_lem r h
always_false_lem (both {s = s} {t = t} r q) h =
    absurd (ground (arith, h, not_always_false s b' ' (codes "AND " ++ t)))
always_false_lem (single r) h = always_false_lem r h
always_false_lem (either {s = s} {t = t} r q) h =
    absurd (ground (arith, h, not_always_false s b' ' (codes "OR " ++ t)))

-- The rows that a query shows.
abbrev pub is_visible : (Bytes → Bytes → Bool) → (ℤ → Bytes) → QueryOption → Bool
is_visible row dec q =
    ((not q.exclude_defunct_servers
        || any (λ n. row (get_server_id_column_name q) (dec n)) q.valid_server_id_set)
      && (q.get_all_server || is_permitted row dec q))
    && is_target row dec q

-- The caller selects and excludes nothing.
abbrev pub HasNoFilters : QueryOption → Type 0
HasNoFilters q =
    (is_empty q.selected_server_id_set ≡ true)
    × (is_empty q.excluded_server_id_set ≡ true)
    × (is_empty q.selected_server_hostgroup_set_map ≡ true)
    × (is_empty q.excluded_server_hostgroup_set_map ≡ true)
    × (is_empty q.selected_server_host_set_map ≡ true)
    × (is_empty q.excluded_server_host_set_map ≡ true)

module _ (dec : ℤ → Bytes) (q : QueryOption) where
  filters_of_servers :
      HasNoFilters q
      → (make_condition_selected_servers dec q ≡ []) × (make_condition_excluded_servers dec q ≡ [])
  unfolding make_condition_selected_servers make_condition_excluded_servers
  filters_of_servers (a, b, c, d, e, f) = (ground (arith, a), ground (arith, b))

  filters_of_hostgroups :
      HasNoFilters q
      → (make_condition_selected_hostgroups dec q ≡ some [])
        × (make_condition_excluded_hostgroups dec q ≡ some [])
  unfolding make_condition_selected_hostgroups make_condition_excluded_hostgroups
  filters_of_hostgroups (a, b, c, d, e, f) = (ground (arith, c), ground (arith, d))

  filters_of_hosts :
      HasNoFilters q
      → (make_condition_selected_hosts dec q ≡ []) × (make_condition_excluded_hosts dec q ≡ [])
  unfolding make_condition_selected_hosts make_condition_excluded_hosts
  filters_of_hosts (a, b, c, d, e, f) = (ground (arith, e), ground (arith, f))

  no_filters : HasNoFilters q → make_condition_hosts_filter dec q ≡ some []
  unfolding make_condition_hosts_filter add_condition
  no_filters h =
      let (a, b) = filters_of_servers h in
      let (c, d) = filters_of_hostgroups h in
      let (e, f) = filters_of_hosts h in ground (arith, a, b, c, d, e, f)

  abbrev valid_text : Bytes
  valid_text =
      if q.exclude_defunct_servers
      then add_condition []
          (make_condition_servers dec q.valid_server_id_set (get_server_id_column_name q))
          add_type_and false
      else []

  abbrev allowed_text : Bytes
  allowed_text =
      if q.get_all_server
      then valid_text
      else add_condition valid_text (make_condition_allowed_hosts dec q) add_type_and false

  get_condition-shown :
      HasNoFilters q
      → (not q.get_all_server
          && eq_bytes always_false_condition (make_condition_allowed_hosts dec q))
        ≡ false
      → get_condition dec q
        ≡ some (add_condition allowed_text (make_condition_target_ids dec q) add_type_and false)
  unfolding get_condition
  get_condition-shown h e =
      let n = no_filters h in
      let u =
        add_nothing
          (add_condition allowed_text (make_condition_target_ids dec q) add_type_and false) in
      ground (arith, e, n, u)

  get_condition-never :
      q.get_all_server ≡ false
      → eq_bytes always_false_condition (make_condition_allowed_hosts dec q) ≡ true
      → get_condition dec q ≡ some (make_condition_allowed_hosts dec q)
  unfolding get_condition
  get_condition-never e k = ground (arith, e, k)

module _ {row : Bytes → Bytes → Bool} where
  checked-Denotes :
      (c : Bool) (s : Bytes) (a : Bool)
      → Denotes (Restricts row) s a
      → Denotes (Means row) (if c then add_condition [] s add_type_and false else []) (not c || a)
  checked-Denotes true s a d =
      add_condition-and-Denotes [] s true a (refl, λ short. inl (refl, refl)) d
  checked-Denotes false s a d = (refl, λ short. inl (refl, refl))

  limited-Denotes :
      (g : Bool) (s t : Bytes) (a b : Bool)
      → Denotes (Means row) s a
      → (g ≡ false → Denotes (Restricts row) t b)
      → Denotes (Means row) (if g then s else add_condition s t add_type_and false) (a && (g || b))
  limited-Denotes true s t a b d e = (d.0, λ short. subst (Means row s) (and-true refl) (d.1 short))
  limited-Denotes false s t a b d e = add_condition-and-Denotes s t a b d (e refl)

module _ (row : Bytes → Bytes → Bool) (dec : ℤ → Bytes) (decimal : IsDecimal dec) (q : QueryOption)
    (server_word : IsWord (get_server_id_column_name q))
    (host_word : IsWord (get_host_id_column_name q))
    (group_word : IsWord (get_hostgroup_id_column_name q)) where
  valid-Denotes : Denotes (Means row) (valid_text dec q) (
      not q.exclude_defunct_servers
      || any (λ n. row (get_server_id_column_name q) (dec n)) q.valid_server_id_set)
  valid-Denotes = checked-Denotes q.exclude_defunct_servers _ _ (
      restricts (
        make_condition_servers-Denotes {row = row} dec decimal q.valid_server_id_set
          (get_server_id_column_name q) server_word))

  -- What a query that shows rows says.
  shown-Means :
      HasNoFilters q
      → (not q.get_all_server
          && eq_bytes always_false_condition (make_condition_allowed_hosts dec q))
        ≡ false
      → Denotes (Means row) (allowed_text dec q) (
          (not q.exclude_defunct_servers
            || any (λ n. row (get_server_id_column_name q) (dec n)) q.valid_server_id_set)
          && (q.get_all_server || is_permitted row dec q))
      → (s : Bytes) × (get_condition dec q ≡ some s)
        × (length s < 0x3ff → Means row s (is_visible row dec q))
  shown-Means n e d = (
    add_condition (allowed_text dec q) (make_condition_target_ids dec q) add_type_and false,
    get_condition-shown dec q n e,
    (add_condition-and-Denotes _ _ _ _ d
        (make_condition_target_ids-Denotes dec decimal q server_word host_word group_word)).1,
  )

  never_shown :
      (t : Bytes)
      → q.get_all_server ≡ false
      → eq_bytes always_false_condition t ≡ true
      → Denotes (Restricts row) t (is_permitted row dec q)
      → length t < 0x3ff
      → Means row t (is_visible row dec q)
  never_shown [] g k d short = absurd (ground (arith, k))
  never_shown (c ∷ t) g k d short =
      let r = said (d.1 short) in
      let no : is_permitted row dec q ≡ false = always_false_lem r k in
      let none_visible : is_permitted row dec q ≡ is_visible row dec q =
        rw (no, g) (ground arith) in
      inr (one (subst (Reads row factor (c ∷ t)) none_visible r))

  -- The condition of a query that selects and excludes nothing by itself shows exactly the rows
  -- of valid servers (of all servers, if defunct ones are not left out) that the user is allowed
  -- to see and that belong to the targets; it is read by SQL's precedence. The user is allowed
  -- to see what has the server and a hostgroup of an entry, or, with a hostgroup as the target,
  -- the server of an entry and that hostgroup. For a user without the privilege for all servers,
  -- no entry is without hostgroups, and it is not the case that one server is the target and all
  -- of them are allowed. The columns' names and the numbers are words, and the condition is
  -- shorter than 0x3ff.
  pub get_condition-Means :
      HasNoFilters q
      → (q.get_all_server ≡ true)
        ⊎ (IsDistinct q × All (λ e. e.1 ≢ []) q.allowed_servers_and_hostgroups)
      → (s : Bytes) × (get_condition dec q ≡ some s)
        × (length s < 0x3ff → Means row s (is_visible row dec q))
  get_condition-Means n h =
      let t = make_condition_allowed_hosts dec q in
      elim (Bool-cases (not q.get_all_server && eq_bytes always_false_condition t)) [
        | inl e ↦
            let g : q.get_all_server ≡ false = ground (arith, e) in
            let k : eq_bytes always_false_condition t ≡ true = ground (arith, e) in
            (t, get_condition-never dec q g k, never_shown t g k (limits g h))
        | inr e ↦ shown-Means n e (
            limited-Denotes q.get_all_server (valid_text dec q) t _ (is_permitted row dec q)
              valid-Denotes (λ g. limits g h))
      ]
    where
      limits :
          q.get_all_server ≡ false
          → (q.get_all_server ≡ true)
            ⊎ (IsDistinct q × All (λ e. e.1 ≢ []) q.allowed_servers_and_hostgroups)
          → Denotes (Restricts row) (make_condition_allowed_hosts dec q) (is_permitted row dec q)
      limits g (inl k) = absurd (ground (arith, g, k))
      limits g (inr (d, a)) =
          make_condition_allowed_hosts-Denotes dec decimal q server_word group_word g d a
