-- ===== src/Server/HostResourceQueryOption/Joined.antt =====
-- When the table of hostgroups is joined.
use hatohol.Base.{
  ◌<◌, ◌≡◌, ◌≢◌, refl, sym, ap, subst, ◌∙◌, ◌⊎◌, inl, inr, Bool, true, false, ◌||◌, none, some, [],
  ◌∷◌, arith, Bool-cases, length, Bytes, eq_bytes, All,
}
use hatohol.Base.Int.{ℤ}
use hatohol.Server.DbTermCodec.{enc}
use package.hatohol.Server.HostResourceQueryOption.{
  ServerIdSet, IdSetMap, all_servers, all_host_groups, QueryOption, has_key, has_id,
  get_server_id_column_name, get_hostgroup_id_column_name, get_host_id_column_name,
}
use package.hatohol.Server.HostResourceQueryOption.Reading.{IsWord, any, Means}
use package.hatohol.Server.HostResourceQueryOption.{
  enumeration_loop, is_hostgroup_enumeration_in_condition, is_hostgroup_used,
}
use package.hatohol.Server.HostResourceQueryOption.Allowed.{is_permitted, read, IsDistinct}
use package.hatohol.Server.HostResourceQueryOption.Visible.{
  HasNoFilters, is_visible, get_condition-Means,
}
use package.hatohol.Server.HostResourceQueryOption.Filters.{get_condition}
use package.hatohol.Server.HostResourceQueryOption.Parts.{IsDecimal}

module _ (row other : Bytes → Bytes → Bool) (dec : ℤ → Bytes) (q : QueryOption) where
  read-same :
      (m : IdSetMap)
      → ((t : Bytes) → row (get_server_id_column_name q) t ≡ other (get_server_id_column_name q) t)
      → eq_bytes q.target_hostgroup_id all_host_groups ≡ true
      → enumeration_loop m ≡ false
      → has_key all_servers m ≡ false
      → read row dec q m ≡ read other dec q m
  unfolding enumeration_loop
  read-same [] s g e k = refl
  read-same (x ∷ m) s g e k =
      let all : has_id all_host_groups x.1 ≡ true = ground (arith, e, k) in
      let rest = read-same m s g (ground (arith, e, k, all)) (ground (arith, k)) in
      rw (g, all, s (dec x.0), rest) refl

  permitted-same :
      ((t : Bytes) → row (get_server_id_column_name q) t ≡ other (get_server_id_column_name q) t)
      → eq_bytes q.target_hostgroup_id all_host_groups ≡ true
      → enumeration_loop q.allowed_servers_and_hostgroups ≡ false
      → is_permitted row dec q ≡ is_permitted other dec q
  permitted-same s g e =
      let m = q.allowed_servers_and_hostgroups in
      elim (Bool-cases (has_key all_servers m)) [
        | inl k ↦ rw k refl
        | inr k ↦ rw (k, read-same m s g e k) refl
      ]

  valid-same :
      (ns : ServerIdSet)
      → ((t : Bytes) → row (get_server_id_column_name q) t ≡ other (get_server_id_column_name q) t)
      → any (λ n. row (get_server_id_column_name q) (dec n)) ns
        ≡ any (λ n. other (get_server_id_column_name q) (dec n)) ns
  valid-same [] s = refl
  valid-same (n ∷ ns) s = rw (s (dec n), valid-same ns s) refl

  all-same :
      ((t : Bytes) → row (get_server_id_column_name q) t ≡ other (get_server_id_column_name q) t)
      → eq_bytes q.target_hostgroup_id all_host_groups ≡ true
      → is_hostgroup_enumeration_in_condition q ≡ false
      → (q.get_all_server || is_permitted row dec q)
        ≡ (q.get_all_server || is_permitted other dec q)
  unfolding is_hostgroup_enumeration_in_condition
  all-same s g e = elim (Bool-cases q.get_all_server) [
    | inl k ↦ ground (arith, k)
    | inr k ↦ ap (λ b. q.get_all_server || b) (permitted-same s g (ground (arith, e, k)))
  ]

  unused :
      q.synapse.need_to_join_hostgroup ≡ true
      → is_hostgroup_used q ≡ false
      → (eq_bytes q.target_hostgroup_id all_host_groups ≡ true)
        × (is_hostgroup_enumeration_in_condition q ≡ false)
  unfolding is_hostgroup_used
  unused j u = (ground (arith, j, u), ground (arith, j, u))

  is_visible-same :
      q.synapse.need_to_join_hostgroup ≡ true
      → is_hostgroup_used q ≡ false
      → ((t : Bytes) → row (get_server_id_column_name q) t ≡ other (get_server_id_column_name q) t)
      → ((t : Bytes) → row (get_host_id_column_name q) t ≡ other (get_host_id_column_name q) t)
      → is_visible row dec q ≡ is_visible other dec q
  is_visible-same j u s t =
      let (g, e) = unused j u in
      let hosts = t (enc q.target_host_id) in
      let server = s (dec q.target_server_id) in
      let valid = valid-same q.valid_server_id_set s in
      let allowed = all-same s g e in ground (arith, g, hosts, server, valid, allowed)

same_text : (s t : Bytes) → some s ≡ some t → s ≡ t
same_text s t e = ap (λ o. elim o [ none ↦ s | some u ↦ u ]) e

-- The condition of a query that does not join the table of hostgroups, although it can, does not
-- depend on a row's hostgroup: it says the same of two rows with the same server and the same host.
-- The query selects and excludes nothing by itself. For a user without the privilege for all servers,
-- no entry is without hostgroups, and it is not the case that one server is the target and all of
-- them are allowed. The columns' names and the numbers are words, and the condition is shorter than
-- 0x3ff.
pub is_hostgroup_used-Means :
    (row other : Bytes → Bytes → Bool) (dec : ℤ → Bytes) (decimal : IsDecimal dec) (q : QueryOption)
    → IsWord (get_server_id_column_name q)
    → IsWord (get_host_id_column_name q)
    → IsWord (get_hostgroup_id_column_name q)
    → HasNoFilters q
    → (q.get_all_server ≡ true)
      ⊎ (IsDistinct q × All (λ e. e.1 ≢ []) q.allowed_servers_and_hostgroups)
    → q.synapse.need_to_join_hostgroup ≡ true
    → is_hostgroup_used q ≡ false
    → ((t : Bytes) → row (get_server_id_column_name q) t ≡ other (get_server_id_column_name q) t)
    → ((t : Bytes) → row (get_host_id_column_name q) t ≡ other (get_host_id_column_name q) t)
    → (s : Bytes) × (get_condition dec q ≡ some s)
      × (length s < 0x3ff → (b : Bool) × Means row s b × Means other s b)
is_hostgroup_used-Means row other dec decimal q sw hw gw n h j u server host =
    let (s, e, m) = get_condition-Means row dec decimal q sw hw gw n h in
    let (t, f, k) = get_condition-Means other dec decimal q sw hw gw n h in
    let text : t ≡ s = same_text t s (sym f ∙ e) in
    let shown = is_visible-same row other dec q j u server host in
    (
      s,
      e,
      λ short. (
        is_visible row dec q,
        m short,
        subst (Means other s) (sym shown)
            (subst (λ x. length x < 0x3ff → Means other x (is_visible other dec q)) text k short),
      ),
    )
