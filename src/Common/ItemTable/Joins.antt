-- ===== src/Common/ItemTable/Joins.antt =====
-- The joins against their definition on rows.
use hatohol.Base.{
  ℕ, zero, suc, ◌<◌, ◌≡◌, refl, sym, ap, ◌∙◌, inl, inr, Bool, true, false, Option, none, some, List,
  [], ◌∷◌, ◌++◌, append-nil, append_assoc, arith, leb, if◌then◌else◌, Bool-cases, length, get_elem?,
}
use hatohol.Common.ItemData.{Doubles, ItemDataType, ItemData, get_item_type, ne, eq, eq-type}
use hatohol.Common.ItemGroup.{ItemGroup, types_of}
use hatohol.Common.ItemTable.{
  get_number_of_columns, bind, join_foreach_core, foreach_rtable, foreach_ltable, cross_join,
  inner_join_foreach_rtable, inner_join,
}
use hatohol.Common.ItemTable.Rows.{IsRow, IsTable, rows, join_foreach_core-IsTable}

-- Each row on the left with each row on the right that `keep` accepts, in the order of the loops.
joined_right :
    {D : Type 0}
    → (List (ItemData D) → List (ItemData D) → Bool)
    → List (ItemData D)
    → List (List (ItemData D))
    → List (List (ItemData D))
joined_right keep l [] = []
joined_right keep l (r ∷ rs) =
    let rest = joined_right keep l rs in if keep l r then (l ++ r) ∷ rest else rest

pub joined :
    {D : Type 0}
    → (List (ItemData D) → List (ItemData D) → Bool)
    → List (List (ItemData D))
    → List (List (ItemData D))
    → List (List (ItemData D))
unfolding joined_right
joined keep [] rs = []
joined keep (l ∷ ls) rs = joined_right keep l rs ++ joined keep ls rs

-- What a callback does with a pair of rows.
Visits :
    {D : Type 0} (ts us : List ItemDataType)
    → (List (ItemData D) → List (ItemData D) → Bool)
    → (List (ItemGroup D) → ItemGroup D → ItemGroup D → Option (List (ItemGroup D)))
    → Type 0
unfolding joined_right
Visits {D = D} ts us keep visit =
    (table : List (ItemGroup D)) (l r : ItemGroup D)
    → IsTable (ts ++ us) table
    → IsRow ts l
    → IsRow us r
    → (t : List (ItemGroup D)) × (visit table l r ≡ some t)
      × IsTable (ts ++ us) t
      × (rows t ≡ rows table ++ joined_right keep l.item_vector (r.item_vector ∷ []))

module _ {D : Type 0} (ts us : List ItemDataType)
    (keep : List (ItemData D) → List (ItemData D) → Bool)
    (visit : List (ItemGroup D) → ItemGroup D → ItemGroup D → Option (List (ItemGroup D)))
    (visits : Visits ts us keep visit) where
  joined_right-cons :
      (l r : List (ItemData D)) (rs : List (List (ItemData D)))
      → joined_right keep l (r ∷ []) ++ joined_right keep l rs ≡ joined_right keep l (r ∷ rs)
  unfolding joined_right
  joined_right-cons l r rs = elim (Bool-cases (keep l r)) [ inl e ↦ rw e refl | inr e ↦ rw e refl ]

  foreach_rtable-joined :
      (l : ItemGroup D) (rs table : List (ItemGroup D))
      → IsTable (ts ++ us) table
      → IsRow ts l
      → IsTable us rs
      → (t : List (ItemGroup D)) × (foreach_rtable visit l rs table ≡ some t)
        × IsTable (ts ++ us) t
        × (rows t ≡ rows table ++ joined_right keep l.item_vector (rows rs))
  unfolding joined_right Visits
  foreach_rtable-joined l [] table h hl hr = (table, refl, h, sym (append-nil (rows table)))
  foreach_rtable-joined l (r ∷ rs) table h hl (hr, hrs) =
      let (t, e, ht, et) = visits table l r h hl hr in
      let (v, f, hv, ev) = foreach_rtable-joined l rs t ht hl hrs in
      (
        v,
        rw e f,
        hv,
        ev
            ∙ rw
                (
                  et,
                  append_assoc (rows table) (joined_right keep l.item_vector (r.item_vector ∷ []))
                      (joined_right keep l.item_vector (rows rs)),
                )
                (ap (◌++◌ (rows table)) (joined_right-cons l.item_vector r.item_vector (rows rs))),
      )

  foreach_ltable-joined :
      (ls rs table : List (ItemGroup D))
      → IsTable (ts ++ us) table
      → IsTable ts ls
      → IsTable us rs
      → (t : List (ItemGroup D)) × (foreach_ltable visit ls rs table ≡ some t)
        × IsTable (ts ++ us) t
        × (rows t ≡ rows table ++ joined keep (rows ls) (rows rs))
  unfolding joined
  foreach_ltable-joined [] rs table h hl hr = (table, refl, h, sym (append-nil (rows table)))
  foreach_ltable-joined (l ∷ ls) rs table h (hl, hls) hr =
      let (t, e, ht, et) = foreach_rtable-joined l rs table h hl hr in
      let (v, f, hv, ev) = foreach_ltable-joined ls rs t ht hls hr in
      (
        v,
        rw e f,
        hv,
        ev
            ∙ rw
                (
                  et,
                  append_assoc (rows table) (joined_right keep l.item_vector (rows rs))
                      (joined keep (rows ls) (rows rs)),
                )
                refl,
      )

joined-empty :
    {D : Type 0} (keep : List (ItemData D) → List (ItemData D) → Bool)
    (ls : List (List (ItemData D)))
    → joined keep ls [] ≡ []
unfolding joined joined_right
joined-empty keep [] = refl
joined-empty keep (l ∷ ls) = joined-empty keep ls

Visits-cross :
    (D : Type 0) (ts us : List ItemDataType) → Visits {D = D} ts us (λ _ _. true) join_foreach_core
unfolding Visits joined_right
Visits-cross D ts us = join_foreach_core-IsTable ts us

-- The cross join of two tables, whose rows have the types `ts` and `us`, never throws, and is a
-- table with rows of the types `ts ++ us`: each row on the left in front of each row on the right,
-- the left ones in the outer order. A table without rows gives one.
pub cross_join-joined :
    {D : Type 0} (ts us : List ItemDataType) (ls rs : List (ItemGroup D))
    → IsTable ts ls
    → IsTable us rs
    → (t : List (ItemGroup D)) × (cross_join ls rs ≡ some t)
      × IsTable (ts ++ us) t
      × (rows t ≡ joined (λ _ _. true) (rows ls) (rows rs))
unfolding cross_join
cross_join-joined ts us [] rs hl hr = ([], refl, tt, unfold joined in refl)
cross_join-joined ts us (l ∷ ls) [] hl hr =
    ([], refl, tt, sym (joined-empty (λ _ _. true) (rows (l ∷ ls))))
cross_join-joined ts us (l ∷ ls) (r ∷ rs) hl hr =
    foreach_ltable-joined ts us (λ _ _. true) join_foreach_core (Visits-cross _ ts us) (l ∷ ls)
      (r ∷ rs) [] tt hl hr

get_elem?-types_of :
    {D : Type 0} (v : List (ItemData D)) (i : ℕ) (k : ItemDataType)
    → get_elem? (types_of v) i ≡ some k
    → (d : ItemData D) × (get_elem? v i ≡ some d) × (get_item_type d.data_of ≡ k)
get_elem?-types_of [] i k h = ground arith
get_elem?-types_of (d ∷ v) zero k h = (d, refl, ground arith)
get_elem?-types_of (d ∷ v) (suc i) k h = get_elem?-types_of v i k h

get_elem?-inside :
    (ts : List ItemDataType) (i : ℕ) (k : ItemDataType) → get_elem? ts i ≡ some k → i < length ts
get_elem?-inside [] i k h = ground arith
get_elem?-inside (t ∷ ts) zero k h = omega arith
get_elem?-inside (t ∷ ts) (suc i) k h = omega (arith, get_elem?-inside ts i k h)

length-types_of : {D : Type 0} (v : List (ItemData D)) → length (types_of v) ≡ length v
length-types_of [] = refl
length-types_of (d ∷ v) = ap suc (length-types_of v)

within :
    {D : Type 0} (ts : List ItemDataType) (i : ℕ) (k : ItemDataType) (g : ItemGroup D)
    → get_elem? ts i ≡ some k
    → IsRow ts g
    → leb (length g.item_vector) i ≡ false
within ts i k g h (q, f, t) =
    let inside = get_elem?-inside ts i k h in
    let len : length ts ≡ length g.item_vector =
      sym (ap length t) ∙ length-types_of g.item_vector in
    ground arith

module _ {D : Type 0} (ops : Doubles D) where
  -- `operator==` of the two columns of the join.
  pub columns_equal : ℕ → ℕ → List (ItemData D) → List (ItemData D) → Bool
  columns_equal il ir l r =
      elim (bind (get_elem? l il) (λ a. bind (get_elem? r ir) (λ b. eq ops a.data_of b.data_of))) [
        | none ↦ false
        | some same ↦ same
      ]

  Visits-inner :
      (ts us : List ItemDataType) (il ir : ℕ) (k : ItemDataType)
      → get_elem? ts il ≡ some k
      → get_elem? us ir ≡ some k
      → Visits ts us (columns_equal il ir) (inner_join_foreach_rtable ops il ir)
  unfolding Visits inner_join_foreach_rtable joined_right columns_equal
  Visits-inner ts us il ir k hl hr table l r ht rl rr =
      let (a, ea, ka) = get_elem?-types_of l.item_vector il k (rw rl.2 hl) in
      let (b, eb, kb) = get_elem?-types_of r.item_vector ir k (rw rr.2 hr) in
      let (same, e) = eq-type ops a.data_of b.data_of (ka ∙ sym kb) in
      elim (Bool-cases same) [
        | inl s ↦
            let (t, j, it, rt) = join_foreach_core-IsTable ts us table l r ht rl rr in
            (t, rw (ea, eb, ne, e, s) j, it, rw (columns_equal, ea, eb, e, s) rt)
        | inr s ↦ (
          table,
          rw (ea, eb, ne, e, s) refl,
          ht,
          rw (columns_equal, ea, eb, e, s) (sym (append-nil (rows table))),
        )
      ]

  -- The inner join of two tables with rows of the types `ts` and `us`, by columns that both have and
  -- that are of one type, never throws, and is a table with rows of the types `ts ++ us`: the pairs
  -- of the cross join, in its order, whose two columns are equal by `operator==`.
  pub inner_join-joined :
      (ts us : List ItemDataType) (il ir : ℕ) (k : ItemDataType) (ls rs : List (ItemGroup D))
      → get_elem? ts il ≡ some k
      → get_elem? us ir ≡ some k
      → IsTable ts ls
      → IsTable us rs
      → (t : List (ItemGroup D)) × (inner_join ops ls rs il ir ≡ some t)
        × IsTable (ts ++ us) t
        × (rows t ≡ joined (columns_equal il ir) (rows ls) (rows rs))
  unfolding inner_join get_number_of_columns
  inner_join-joined ts us il ir k [] rs hl hr il_ts ir_us = ([], refl, tt, unfold joined in refl)
  inner_join-joined ts us il ir k (l ∷ ls) [] hl hr il_ts ir_us =
      ([], refl, tt, sym (joined-empty (columns_equal il ir) (rows (l ∷ ls))))
  inner_join-joined ts us il ir k (l ∷ ls) (r ∷ rs) hl hr tl tr =
      let (row_l, _) = tl in
      let (row_r, _) = tr in
      let a : leb (length l.item_vector) il ≡ false = within ts il k l hl row_l in
      let b : leb (length r.item_vector) ir ≡ false = within us ir k r hr row_r in
      let (t, e, it, rt) =
        foreach_ltable-joined ts us (columns_equal il ir) (inner_join_foreach_rtable ops il ir)
          (Visits-inner ts us il ir k hl hr) (l ∷ ls) (r ∷ rs) [] tt tl tr in
      (t, rw (a, b) e, it, rt)
