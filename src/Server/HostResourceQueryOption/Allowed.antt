-- ===== src/Server/HostResourceQueryOption/Allowed.antt =====
-- What the condition for the hosts that the user is allowed to see says of a row.
use hatohol.Base.{
  ℕ, suc, ◌+◌, ◌≤◌, ◌<◌, ◌≡◌, ◌≢◌, refl, sym, subst, ◌∙◌, ◌⊎◌, inl, inr, Bool, true, false, not,
  ◌||◌, ◌&&◌, none, some, List, [], ◌∷◌, arith, ◌==◌, if◌then◌else◌, Bool-cases, Bytes, eq_bytes,
  All,
}
use hatohol.Base.Int.{ℤ, eqb_ℤ}
use hatohol.Server.DbTermCodec.{enc}
use hatohol.Server.DataQueryOption.{add_type_or, add_condition}
use package.hatohol.Server.HostResourceQueryOption.{
  IdSetMap, all_servers, all_host_groups, QueryOption, is_empty, has_key, has_id,
  get_server_id_column_name, get_hostgroup_id_column_name,
}
use package.hatohol.Server.HostResourceQueryOption.Conditions.{
  always_false_condition, in_parentheses, make_condition_server,
}
use package.hatohol.Server.HostResourceQueryOption.Reading.{
  IsWord, any, factor, disjunction, Reads, one, or-false, never, single, Restricts, Denotes,
  in_parentheses-Denotes, add_condition-or-Denotes, restricts,
}
use package.hatohol.Server.HostResourceQueryOption.Parts.{IsDecimal}
use package.hatohol.Server.HostResourceQueryOption.Conditions.{
  allowed_loop, make_condition_allowed_hosts, is_allowed_server,
}
use package.hatohol.Server.HostResourceQueryOption.Servers.{make_condition_server-Denotes}

-- Alternatives as `makeConditionAllowedHosts` collects them, with their number.
data Listed (row : Bytes → Bytes → Bool) : Bytes → ℕ → Bool → Type 0 where
  empty_list : Listed row [] 0 false
  first : {s : Bytes} → {b : Bool} → Denotes (Reads row factor) s b → Listed row s 1 b
  more :
      {s : Bytes}
      → {b : Bool} (n : ℕ) → Denotes (Reads row disjunction) s b
      → Listed row s (suc (suc n)) b

add_first : (t : Bytes) → add_condition [] t add_type_or false ≡ t
unfolding add_condition
add_first [] = refl
add_first (c ∷ t) = refl

module _ {row : Bytes → Bytes → Bool} where
  add-Listed :
      (s t : Bytes) (n : ℕ) (a b : Bool)
      → Listed row s n a
      → Denotes (Reads row factor) t b
      → Listed row (add_condition s t add_type_or false) (n + 1) (a || b)
  add-Listed s t n a b empty_list d = subst (λ u. Listed row u 1 b) (sym (add_first t)) (first d)
  add-Listed s t n a b (first c) d =
      more 0 (add_condition-or-Denotes s t a b (c.0, λ short. inr (single (one (c.1 short)))) d)
  add-Listed s t n a b (more k c) d =
      let m : suc (suc (k + 1)) ≡ suc (suc k) + 1 = omega arith in
      subst (λ n. Listed row (add_condition s t add_type_or false) n (a || b)) m
        (more (k + 1) (add_condition-or-Denotes s t a b (c.0, λ short. inr (c.1 short)) d))

  close-Listed :
      (s : Bytes) (n : ℕ) (b : Bool)
      → Listed row s n b
      → 0 < n
      → Denotes (Reads row factor) (if n == 1 then s else in_parentheses s) b
  close-Listed s n b empty_list h = absurd (omega (arith, h))
  close-Listed s n b (first c) h = c
  close-Listed s n b (more k c) h =
      let e : (suc (suc k) == 1) ≡ false = ground arith in rw e (in_parentheses-Denotes s b c)

-- The entries that the loop reads, and what the user is allowed to see by one of them: with a
-- hostgroup as the target, that group alone.
abbrev pub concerns : QueryOption → ℤ × List Bytes → Bool
concerns q e = eqb_ℤ q.target_server_id all_servers || eqb_ℤ q.target_server_id e.0

abbrev pub is_allowed : (Bytes → Bytes → Bool) → (ℤ → Bytes) → QueryOption → ℤ × List Bytes → Bool
is_allowed row dec q e =
    row (get_server_id_column_name q) (dec e.0)
    && (if eq_bytes q.target_hostgroup_id all_host_groups
        then has_id all_host_groups e.1
          || any (λ g. row (get_hostgroup_id_column_name q) (enc g)) e.1
        else row (get_hostgroup_id_column_name q) (enc q.target_hostgroup_id))

abbrev pub is_permitted : (Bytes → Bytes → Bool) → (ℤ → Bytes) → QueryOption → Bool
is_permitted row dec q =
    has_key all_servers q.allowed_servers_and_hostgroups
    || any (λ e. concerns q e && is_allowed row dec q e) q.allowed_servers_and_hostgroups

module _ (dec : ℤ → Bytes) (q : QueryOption) where
  abbrev server_text : ℤ × List Bytes → Bytes
  server_text e =
      make_condition_server dec e.0 e.1 (get_server_id_column_name q)
        (get_hostgroup_id_column_name q) q.target_hostgroup_id

  pub allowed_loop-omitted :
      (s : Bytes) (n : ℕ) (e : ℤ × List Bytes) (m : IdSetMap)
      → concerns q e ≡ false
      → allowed_loop dec q s n (e ∷ m) ≡ allowed_loop dec q s n m
  unfolding allowed_loop
  allowed_loop-omitted s n e m h = ground (arith, h)

  allowed_loop-added :
      (s : Bytes) (n : ℕ) (e : ℤ × List Bytes) (m : IdSetMap)
      → concerns q e ≡ true
      → eqb_ℤ all_servers e.0 ≡ false
      → allowed_loop dec q s n (e ∷ m)
        ≡ allowed_loop dec q (add_condition s (server_text e) add_type_or false) (n + 1) m
  unfolding allowed_loop
  allowed_loop-added s n e m h k = ground (arith, h, k)

  -- All servers are allowed, and none is the target.
  allowed_loop-all :
      (s : Bytes) (n : ℕ) (m : IdSetMap)
      → eqb_ℤ q.target_server_id all_servers ≡ true
      → has_key all_servers m ≡ true
      → allowed_loop dec q s n m ≡ none
  unfolding allowed_loop
  allowed_loop-all s n [] h k = ground (arith, k)
  allowed_loop-all s n (e ∷ m) h k =
      ground (
        arith,
        h,
        k,
        allowed_loop-all (add_condition s (server_text e) add_type_or false) (n + 1) m,
      )

module _ (row : Bytes → Bytes → Bool) (dec : ℤ → Bytes) (q : QueryOption) where
  abbrev pub read : IdSetMap → Bool
  read = any (λ e. concerns q e && is_allowed row dec q e)

  not_read : (m : IdSetMap) → any (concerns q) m ≡ false → read m ≡ false
  not_read [] h = refl
  not_read (e ∷ m) h = ground (arith, h, not_read m)

  -- How the loop ends: with alternatives for the entries that it read, and at least one if it read any.
  abbrev Ends : Bytes → ℕ → Bool → IdSetMap → Type 0
  Ends s n b m =
      (t : Bytes) × (k : ℕ) × (allowed_loop dec q s n m ≡ some (t, k))
      × Listed row t k (b || read m)
      × (n ≤ k)
      × (any (concerns q) m ≡ true → n < k)

module _ {row : Bytes → Bytes → Bool} (dec : ℤ → Bytes) (decimal : IsDecimal dec) (q : QueryOption)
    (server_word : IsWord (get_server_id_column_name q))
    (group_word : IsWord (get_hostgroup_id_column_name q)) where
  allowed_loop-Ends :
      (s : Bytes) (n : ℕ) (b : Bool) (m : IdSetMap)
      → Listed row s n b
      → has_key all_servers m ≡ false
      → All (λ e. e.1 ≢ []) m
      → Ends row dec q s n b m
  allowed_loop-Ends s n b [] l h g = (
    s,
    n,
    unfold allowed_loop in refl,
    subst (Listed row s n) (or-false refl) l,
    omega arith,
    λ e. ground (arith, e),
  )
  allowed_loop-Ends s n b (e ∷ m) l h (g, gs) = elim (Bool-cases (concerns q e)) [
    | inl c ↦
        let d =
          (make_condition_server-Denotes {row = row} dec decimal e.0 e.1
            (get_server_id_column_name q) (get_hostgroup_id_column_name q) q.target_hostgroup_id
            server_word group_word g) in
        let (t, k, x, y, z, w) =
          (allowed_loop-Ends (add_condition s (server_text dec q e) add_type_or false) (n + 1)
            (b || is_allowed row dec q e) m
            (add-Listed s (server_text dec q e) n b (is_allowed row dec q e) l d)
            (ground (arith, h)) gs) in
        (
          t,
          k,
          allowed_loop-added dec q s n e m c (ground (arith, h)) ∙ x,
          subst (Listed row t k) (ground (arith, c)) y,
          omega (arith, z),
          λ a. omega (arith, z),
        )
    | inr c ↦
        let (t, k, x, y, z, w) = allowed_loop-Ends s n b m l (ground (arith, h)) gs in
        (
          t,
          k,
          allowed_loop-omitted dec q s n e m c ∙ x,
          subst (Listed row t k) (ground (arith, c)) y,
          z,
          λ a. w (ground (arith, a, c)),
        )
  ]

module _ (q : QueryOption) where
  pub not_concerned :
      (m : IdSetMap)
      → eqb_ℤ q.target_server_id all_servers ≡ false
      → any (concerns q) m ≡ has_key q.target_server_id m
  not_concerned [] h = refl
  not_concerned (e ∷ m) h = ground (arith, h, not_concerned m h)

  concerned :
      (m : IdSetMap)
      → eqb_ℤ q.target_server_id all_servers ≡ true
      → any (concerns q) m ≡ not (is_empty m)
  concerned [] h = refl
  concerned (e ∷ m) h = ground (arith, h)

  has_key-empty : (k : ℤ) (m : IdSetMap) → is_empty m ≡ true → has_key k m ≡ false
  has_key-empty k [] h = refl
  has_key-empty k (e ∷ m) h = ground (arith, h)

  -- Either no server is the target, or the user is not allowed to see all of them.
  abbrev pub IsDistinct : Type 0
  IsDistinct =
      (has_key all_servers q.allowed_servers_and_hostgroups ≡ false)
      ⊎ (eqb_ℤ q.target_server_id all_servers ≡ true)

  module _ (dec : ℤ → Bytes) (limited : q.get_all_server ≡ false) (distinct : IsDistinct) where
    none_concerned :
        any (concerns q) q.allowed_servers_and_hostgroups ≡ false
        → (make_condition_allowed_hosts dec q ≡ always_false_condition)
          × (has_key all_servers q.allowed_servers_and_hostgroups ≡ false)
    unfolding make_condition_allowed_hosts is_allowed_server
    none_concerned n =
        let m = q.allowed_servers_and_hostgroups in
        elim (Bool-cases (eqb_ℤ q.target_server_id all_servers)) [
          | inl a ↦
              let e : is_empty m ≡ true = ground (arith, n, concerned m a) in
              (ground (arith, e), has_key-empty all_servers m e)
          | inr a ↦
              let k : has_key all_servers m ≡ false = ground (arith, distinct, a) in
              (ground (arith, k, a, limited, n, not_concerned m a), k)
        ]

    some_concerned :
        any (concerns q) q.allowed_servers_and_hostgroups ≡ true
        → make_condition_allowed_hosts dec q
          ≡ elim (allowed_loop dec q [] 0 q.allowed_servers_and_hostgroups) [
            | none ↦ []
            | some r ↦ if r.1 == 1 then r.0 else in_parentheses r.0
          ]
    unfolding make_condition_allowed_hosts is_allowed_server
    some_concerned n =
        let m = q.allowed_servers_and_hostgroups in
        elim (Bool-cases (eqb_ℤ q.target_server_id all_servers)) [
          | inl a ↦ let e : is_empty m ≡ false = ground (arith, n, concerned m a) in rw (e, a) refl
          | inr a ↦
              let k : has_key q.target_server_id m ≡ true = ground (arith, n, not_concerned m a) in
              let e : is_empty m ≡ false = (elim (Bool-cases (is_empty m)) [
                | inl b ↦ absurd (ground (arith, k, has_key-empty q.target_server_id m b))
                | inr b ↦ b
              ]) in
              let o : (has_key all_servers m || has_key q.target_server_id m) ≡ true =
                ground (arith, k) in
              rw (e, a, limited, o) refl
        ]

module _ {row : Bytes → Bytes → Bool} (dec : ℤ → Bytes) (decimal : IsDecimal dec) (q : QueryOption)
    (server_word : IsWord (get_server_id_column_name q))
    (group_word : IsWord (get_hostgroup_id_column_name q)) where
  pub make_condition_allowed_hosts-Denotes :
      q.get_all_server ≡ false
      → IsDistinct q
      → All (λ e. e.1 ≢ []) q.allowed_servers_and_hostgroups
      → Denotes (Restricts row) (make_condition_allowed_hosts dec q) (is_permitted row dec q)
  make_condition_allowed_hosts-Denotes limited distinct g =
      let m = q.allowed_servers_and_hostgroups in
      elim (Bool-cases (any (concerns q) m)) [
        | inl c ↦ elim (Bool-cases (has_key all_servers m)) [
          | inl k ↦
              let n = allowed_loop-all dec q [] 0 m (ground (arith, distinct, k)) k in
              rw (some_concerned q dec limited distinct c, n, k) (refl, λ short. inl (refl, refl))
          | inr k ↦
              let (t, i, x, y, z, w) =
                allowed_loop-Ends {row = row} dec decimal q server_word group_word [] 0 false m
                  empty_list k g in
              rw (some_concerned q dec limited distinct c, x, k)
                (restricts (close-Listed t i (read row dec q m) y (w c)))
        ]
        | inr c ↦
            let (e, k) = none_concerned q dec limited distinct c in
            rw (e, k, not_read row dec q m c) (refl, λ short. inr never)
      ]
