-- ===== src/Server/HostResourceQueryOption/Dropped.antt =====
-- Conditions that come out empty: of a user that is allowed all servers, and of selected hostgroups.
use hatohol.Base.{
  ℕ, ◌≡◌, ◌≢◌, refl, ◌∙◌, inl, inr, true, false, some, List, [], ◌∷◌, arith, ltb, if◌then◌else◌,
  Option-cases, length, Bytes, codes,
}
use hatohol.Base.Int.{ℤ, eqb_ℤ}
use hatohol.Mlpl.StringUtils.Chars.{vsprintf}
use hatohol.Server.DataQueryOption.{AddConditionType, add_type_and, add_type_or}
use package.hatohol.Server.HostResourceQueryOption.{
  IdSetMap, all_servers, QueryOption, is_empty, has_key,
}
use package.hatohol.Server.HostResourceQueryOption.Conditions.{in_parentheses}
use package.hatohol.Server.HostResourceQueryOption.Reading.{any}
use package.hatohol.Server.HostResourceQueryOption.Conditions.{
  allowed_loop, make_condition_allowed_hosts, is_allowed_server,
}
use package.hatohol.Server.HostResourceQueryOption.Filters.{
  filter_hostgroups-returns, make_condition_selected_hostgroups, make_condition_excluded_hostgroups,
}
use package.hatohol.Server.HostResourceQueryOption.Conditions.{
  is_allowed_hostgroup, filter_hostgroup_set, filter_hostgroups,
}
use package.hatohol.Server.HostResourceQueryOption.Allowed.{
  concerns, allowed_loop-omitted, not_concerned,
}

module _ (dec : ℤ → Bytes) (q : QueryOption) where
  none_read :
      (s : Bytes) (n : ℕ) (m : IdSetMap)
      → any (concerns q) m ≡ false
      → allowed_loop dec q s n m ≡ some (s, n)
  none_read s n [] h = unfold allowed_loop in refl
  none_read s n (e ∷ m) h =
      allowed_loop-omitted dec q s n e m (ground (arith, h)) ∙ none_read s n m (ground (arith, h))

  -- A user that is allowed to see all servers by the entry for them, and asks for one server that
  -- has no entry of its own, gets the condition `()`, which is none of SQL. The user has not the
  -- privilege for all servers.
  pub make_condition_allowed_hosts-empty :
      q.get_all_server ≡ false
      → has_key all_servers q.allowed_servers_and_hostgroups ≡ true
      → has_key q.target_server_id q.allowed_servers_and_hostgroups ≡ false
      → eqb_ℤ q.target_server_id all_servers ≡ false
      → make_condition_allowed_hosts dec q ≡ codes "()"
  unfolding make_condition_allowed_hosts is_allowed_server in_parentheses vsprintf
  make_condition_allowed_hosts-empty g a t n =
      let m = q.allowed_servers_and_hostgroups in
      let e : is_empty m ≡ false = not_empty m a in
      let r = none_read [] 0 m (not_concerned q m n ∙ t) in rw (e, n, g, a, r) refl
    where
      not_empty : (m : IdSetMap) → has_key all_servers m ≡ true → is_empty m ≡ false
      not_empty [] h = ground (arith, h)
      not_empty (x ∷ m) h = refl

  not_allowed :
      (server_id : ℤ) (g : Bytes)
      → q.get_all_server ≡ false
      → has_key all_servers q.allowed_servers_and_hostgroups ≡ false
      → is_allowed_hostgroup q server_id g ≢ some true
  unfolding is_allowed_hostgroup
  not_allowed server_id g h k e = ground (arith, h, k, e)

  hostgroup_set-dropped :
      (mark : Bytes) (type : AddConditionType) (s t : Bytes) (server_id : ℤ) (gs : List Bytes)
      → q.get_all_server ≡ false
      → has_key all_servers q.allowed_servers_and_hostgroups ≡ false
      → filter_hostgroup_set dec q mark type s server_id gs ≡ some t
      → t ≡ s
  unfolding filter_hostgroup_set
  hostgroup_set-dropped mark type s t server_id [] h k e = ground (arith, e)
  hostgroup_set-dropped mark type s t server_id (g ∷ gs) h k e =
      ground (
        arith,
        e,
        not_allowed server_id g h k,
        hostgroup_set-dropped mark type s t server_id gs h k,
      )

  hostgroups-dropped :
      (mark : Bytes) (type : AddConditionType) (s t : Bytes) (m : IdSetMap)
      → q.get_all_server ≡ false
      → has_key all_servers q.allowed_servers_and_hostgroups ≡ false
      → filter_hostgroups dec q mark type s m ≡ some t
      → t ≡ s
  unfolding filter_hostgroups
  hostgroups-dropped mark type s t [] h k e = ground (arith, e)
  hostgroups-dropped mark type s t (p ∷ m) h k e =
      elim (Option-cases (filter_hostgroup_set dec q mark type s p.0 p.1)) [
        | inl n ↦ ground (arith, e, n, hostgroups-dropped mark type s t m h k)
        | inr (u, n) ↦
            let a = hostgroup_set-dropped mark type s u p.0 p.1 h k n in
            ground (arith, e, n, a, hostgroups-dropped mark type s t m h k)
      ]

  -- For a user that has neither the privilege for all servers nor an entry for them, every selected
  -- and every excluded hostgroup is dropped, also those that the user is allowed to see: what is left
  -- is no condition, or `()` when the map has several servers.
  pub hostgroups_filter-dropped :
      q.get_all_server ≡ false
      → has_key all_servers q.allowed_servers_and_hostgroups ≡ false
      → (make_condition_selected_hostgroups dec q
          ≡ some (if ltb 1 (length q.selected_server_hostgroup_set_map) then codes "()" else []))
        × (make_condition_excluded_hostgroups dec q
            ≡ some (if ltb 1 (length q.excluded_server_hostgroup_set_map) then codes "()" else []))
  unfolding make_condition_selected_hostgroups make_condition_excluded_hostgroups in_parentheses
      vsprintf
  hostgroups_filter-dropped h k =
      let m = q.selected_server_hostgroup_set_map in
      let x = q.excluded_server_hostgroup_set_map in
      let (s, e) = filter_hostgroups-returns dec q [] add_type_or [] m in
      let (t, f) = filter_hostgroups-returns dec q (codes "NOT ") add_type_and [] x in
      let se = hostgroups-dropped [] add_type_or [] s m h k e in
      let te = hostgroups-dropped (codes "NOT ") add_type_and [] t x h k f in
      (rw (e, se) (dropped m), rw (f, te) (dropped x))
    where
      dropped :
          (m : IdSetMap)
          → (if is_empty m
              then some []
              else some (if ltb 1 (length m) then in_parentheses [] else []))
            ≡ some (if ltb 1 (length m) then codes "()" else [])
      dropped [] = refl
      dropped (x ∷ m) = refl
