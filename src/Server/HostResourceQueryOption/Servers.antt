-- ===== src/Server/HostResourceQueryOption/Servers.antt =====
-- What the conditions on servers, and on the targets of the caller, say of a row.
use hatohol.Base.{
  ◌≡◌, ◌≢◌, refl, subst, ◌∙◌, inl, inr, Bool, true, false, not, ◌||◌, ◌&&◌, List, [], ◌∷◌, ◌++◌,
  map, append_assoc, arith, if◌then◌else◌, Bool-cases, length-append, Bytes, codes, contains,
  eq_bytes, All,
}
use hatohol.Base.Int.{ℤ, eqb_ℤ}
use hatohol.Mlpl.StringUtils.Chars.{vsprintf, vsprintf_short, c_str-without_nul}
use hatohol.Mlpl.StringUtils.Split.{join, contains-append}
use hatohol.Server.DbTermCodec.{enc, enc-c_str}
use hatohol.Server.DataQueryOption.{empty, append_four}
use package.hatohol.Server.HostResourceQueryOption.{
  ServerIdSet, all_servers, all_local_hosts, all_host_groups, QueryOption, has_id,
  get_server_id_column_name, get_hostgroup_id_column_name, get_host_id_column_name,
}
use package.hatohol.Server.HostResourceQueryOption.Conditions.{
  sprintf_compare, in_parentheses, enc_int, make_condition_target_ids, make_condition_hostgroup,
  server_loop, make_condition_servers, make_condition_server,
}
use package.hatohol.Server.HostResourceQueryOption.Reading.{
  IsWord, IsTerm, any, factor, Reads, never, among, single, Means, Restricts, Denotes,
  contains-word, said_by_empty, said, sprintf_compare-Denotes, in_parentheses-Denotes,
  add_condition-and-Denotes, in_parentheses_and-Denotes, restricts,
}
use package.hatohol.Server.HostResourceQueryOption.Parts.{
  IsDecimal, enc-IsPlainTerm, enc_int_lem, enc_int-IsPlainTerm, make_condition_hostgroup-Denotes,
}

module _ (dec : ℤ → Bytes) (decimal : IsDecimal dec) where
  server_loop-join :
      (condition t : Bytes) (ns : ServerIdSet)
      → server_loop dec false (condition ++ t) ns
        ≡ condition ++ (join b',' (t ∷ map dec ns) ++ codes ")")
  unfolding server_loop join
  server_loop-join condition t [] = append_assoc condition t (codes ")")
  server_loop-join condition t (n ∷ ns) =
      let c = c_str-without_nul (dec n) (contains-word (dec n) (decimal n).0) in
      let ih = server_loop-join ((condition ++ t) ++ codes ",") (dec n) ns in
      rw (enc_int_lem dec n decimal, c)
        (ih
          ∙ append_four condition t (codes ",") (join b',' (map dec (n ∷ ns)) ++ codes ")")
          ∙ rw (append_assoc t (b',' ∷ join b',' (map dec (n ∷ ns))) (codes ")")) refl)

  contains-join-dec : (ns : ServerIdSet) → contains (join b',' (map dec ns)) 0 ≡ false
  unfolding join
  contains-join-dec [] = refl
  contains-join-dec (n ∷ []) = contains-word (dec n) (decimal n).0
  contains-join-dec (n ∷ m ∷ ns) =
      rw
        (
          contains-append (dec n) (b',' ∷ join b',' (map dec (m ∷ ns))) 0,
          contains-word (dec n) (decimal n).0,
        )
        (contains-join-dec (m ∷ ns))

  words-IsTerm : (ns : ServerIdSet) → All IsTerm (map dec ns)
  words-IsTerm [] = tt
  words-IsTerm (n ∷ ns) = (inl (decimal n).0, words-IsTerm ns)

  any-map-dec : (p : Bytes → Bool) (ns : ServerIdSet) → any p (map dec ns) ≡ any (λ n. p (dec n)) ns
  any-map-dec p [] = refl
  any-map-dec p (n ∷ ns) = ground (arith, any-map-dec p ns)

-- What the caller asks for.
abbrev pub is_target : (Bytes → Bytes → Bool) → (ℤ → Bytes) → QueryOption → Bool
is_target row dec q =
    ((eqb_ℤ q.target_server_id all_servers
        || row (get_server_id_column_name q) (dec q.target_server_id))
      && (eq_bytes q.target_host_id all_local_hosts
          || row (get_host_id_column_name q) (enc q.target_host_id)))
    && (eq_bytes q.target_hostgroup_id all_host_groups
        || row (get_hostgroup_id_column_name q) (enc q.target_hostgroup_id))

module _ {row : Bytes → Bytes → Bool} (dec : ℤ → Bytes) (decimal : IsDecimal dec) where
  pub make_condition_servers-Denotes :
      (ns : ServerIdSet) (column : Bytes)
      → IsWord column
      → Denotes
          (Reads row factor)
          (make_condition_servers dec ns column)
          (any (λ n. row column (dec n)) ns)
  unfolding make_condition_servers server_loop
  make_condition_servers-Denotes [] column w = (refl, λ short. never)
  make_condition_servers-Denotes (n ∷ ns) column w =
      let words = map dec (n ∷ ns) in
      let in_list = join b',' words ++ codes ")" in
      let start = column ++ codes " IN (" in
      let clean = contains-word column w in
      let pre = vsprintf_short start (rw (contains-append column (codes " IN (") 0, clean) refl) in
      let c = c_str-without_nul (dec n) (contains-word (dec n) (decimal n).0) in
      let b = any (row column) words in
      let list_clean : contains in_list 0 ≡ false =
        rw (contains-append (join b',' words) (codes ")") 0, contains-join-dec dec decimal (n ∷ ns))
          refl in
      rw
        (
          c_str-without_nul column clean,
          enc_int_lem dec n decimal,
          c,
          server_loop-join dec decimal (vsprintf start) (dec n) ns,
          ← any-map-dec dec decimal (row column) (n ∷ ns),
        )
        (
          rw (contains-append (vsprintf start) in_list 0, pre.0) list_clean,
          λ short.
              let l = length-append (vsprintf start) in_list in
              rw (pre.1 (omega (arith, l, short)), append_assoc column (codes " IN (") in_list)
                (among column words w (words-IsTerm dec decimal (n ∷ ns)) (λ e. ground (arith, e))),
        )

  server-Denotes :
      (column : Bytes) (n : ℤ)
      → IsWord column
      → Denotes
          (Reads row factor)
          (sprintf_compare column (codes "=") (enc_int dec n))
          (row column (dec n))
  server-Denotes column n w =
      subst
        (λ t.
          Denotes (Reads row factor) (sprintf_compare column (codes "=") (enc_int dec n))
            (row column t))
        (enc_int_lem dec n decimal)
        (sprintf_compare-Denotes column (enc_int dec n) w (enc_int-IsPlainTerm dec n decimal))

  pub make_condition_server-Denotes :
      (n : ℤ) (gs : List Bytes) (server_column column target : Bytes)
      → IsWord server_column
      → IsWord column
      → gs ≢ []
      → Denotes (Reads row factor) (make_condition_server dec n gs server_column column target) (
          row server_column (dec n)
          && (if eq_bytes target all_host_groups
              then has_id all_host_groups gs || any (λ g. row column (enc g)) gs
              else row column (enc target)))
  unfolding make_condition_server
  make_condition_server-Denotes n gs server_column column target w v k =
      let server = server-Denotes server_column n w in
      let a = row server_column (dec n) in
      let s = sprintf_compare server_column (codes "=") (enc_int dec n) in
      elim (Bool-cases (eq_bytes target all_host_groups)) [
        | inl e ↦ rw e (
            in_parentheses_and-Denotes s (make_condition_hostgroup gs column) a
              (has_id all_host_groups gs || any (λ g. row column (enc g)) gs) server
              (make_condition_hostgroup-Denotes gs column v k))
        | inr e ↦
            rw (e, enc-c_str target)
              (in_parentheses_and-Denotes s (sprintf_compare column (codes "=") (enc target)) a
                (row column (enc target)) server
                (restricts
                  (sprintf_compare-Denotes column (enc target) v (enc-IsPlainTerm target))))
      ]

  -- The condition of one target, or none.
  target-Denotes :
      (chosen : Bool) (s : Bytes) (b : Bool)
      → Denotes (Reads row factor) s b
      → Denotes (Restricts row) (if not chosen then s else []) (chosen || b)
  target-Denotes true s b d = (refl, λ short. inl (refl, refl))
  target-Denotes false s b d = restricts d

  closed-Denotes :
      (s : Bytes) (b : Bool)
      → Denotes (Means row) s b
      → Denotes (Restricts row) (if empty s then s else in_parentheses s) b
  closed-Denotes [] b d = (refl, λ short. inl (refl, said_by_empty refl (d.1 (omega arith))))
  closed-Denotes (c ∷ s) b d =
      restricts (in_parentheses-Denotes (c ∷ s) b (d.0, λ short. single (said (d.1 short))))

  pub make_condition_target_ids-Denotes :
      (q : QueryOption)
      → IsWord (get_server_id_column_name q)
      → IsWord (get_host_id_column_name q)
      → IsWord (get_hostgroup_id_column_name q)
      → Denotes (Restricts row) (make_condition_target_ids dec q) (is_target row dec q)
  unfolding make_condition_target_ids
  make_condition_target_ids-Denotes q w v u =
      let server =
        (target-Denotes (eqb_ℤ q.target_server_id all_servers) _ _
          (server-Denotes (get_server_id_column_name q) q.target_server_id w)) in
      let host =
        (target-Denotes (eq_bytes q.target_host_id all_local_hosts) _ _ (
          sprintf_compare-Denotes (get_host_id_column_name q) (enc q.target_host_id) v
            (enc-IsPlainTerm q.target_host_id))) in
      let hostgroup =
        (target-Denotes (eq_bytes q.target_hostgroup_id all_host_groups) _ _ (
          sprintf_compare-Denotes (get_hostgroup_id_column_name q) (enc q.target_hostgroup_id) u
            (enc-IsPlainTerm q.target_hostgroup_id))) in
      let start = add_condition-and-Denotes [] _ true _ (refl, λ short. inl (refl, refl)) server in
      let two = add_condition-and-Denotes _ _ _ _ start host in
      closed-Denotes _ _ (add_condition-and-Denotes _ _ _ _ two hostgroup)
