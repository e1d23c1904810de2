-- ===== src/Common/ItemTable/Rows.antt =====
-- Rows of one type: what a table holds, and what `add` does to it.
use hatohol.Base.{
  ◌≡◌, refl, sym, ap, subst, ◌∙◌, ◌⊎◌, inl, inr, true, false, none, some, List, [], ◌∷◌, ◌++◌,
  append-nil, append_assoc, All, All-append,
}
use hatohol.Common.ItemData.{ItemDataType, ItemData, get_item_type}
use hatohol.Common.ItemGroup
use hatohol.Common.ItemGroup.{ItemGroup, types_of, type_eq}
use hatohol.Common.ItemGroup.Laws.{IsGroup, StateIs, add-IsGroup, freeze-IsGroup, type_eq_iff}
use hatohol.Common.ItemTable.{back, types_match, add, add_items, join_foreach_core}

-- A frozen group with columns of the types `ts`.
abbrev pub IsRow : {D : Type 0} → List ItemDataType → ItemGroup D → Type 0
IsRow ts g = IsGroup g × (g.freezed ≡ true) × (types_of g.item_vector ≡ ts)

abbrev pub IsTable : {D : Type 0} → List ItemDataType → List (ItemGroup D) → Type 0
IsTable ts gs = All (IsRow ts) gs

abbrev pub rows : {D : Type 0} → List (ItemGroup D) → List (List (ItemData D))
rows [] = []
rows (g ∷ gs) = g.item_vector ∷ rows gs

module _ {D : Type 0} where
  pub rows-append : (gs hs : List (ItemGroup D)) → rows (gs ++ hs) ≡ rows gs ++ rows hs
  rows-append [] hs = refl
  rows-append (g ∷ gs) hs = ap (◌∷◌ g.item_vector) (rows-append gs hs)

  pub types_of-append : (v w : List (ItemData D)) → types_of (v ++ w) ≡ types_of v ++ types_of w
  types_of-append [] w = refl
  types_of-append (d ∷ v) w = ap (λ ts. get_item_type d.data_of ∷ ts) (types_of-append v w)

  row_type : (ts : List ItemDataType) (g : ItemGroup D) → IsRow ts g → g.group_type ≡ some ts
  row_type ts g ((state, keyed), e, t) =
      subst (λ b. StateIs b g.group_type g.item_vector) e state ∙ ap some t

  back-IsRow :
      (ts : List ItemDataType) (gs : List (ItemGroup D))
      → IsTable ts gs
      → (back gs ≡ none) ⊎ ((g : ItemGroup D) × (back gs ≡ some g) × IsRow ts g)
  back-IsRow ts [] h = inl refl
  back-IsRow ts (g ∷ gs) (r, h) = elim (back-IsRow ts gs h) [
    | inl e ↦ inr (g, rw e refl, r)
    | inr (k, e, q) ↦ inr (k, rw e refl, q)
  ]

  types_match-IsRow :
      (ts : List ItemDataType) (gs : List (ItemGroup D)) (g : ItemGroup D)
      → IsTable ts gs
      → IsRow ts g
      → types_match (back gs) g ≡ true
  unfolding types_match
  types_match-IsRow ts gs g h r = elim (back-IsRow ts gs h) [
    | inl e ↦ rw e refl
    | inr (k, e, q) ↦
        rw (e, types_match, row_type ts k q, row_type ts g r) ((type_eq_iff ts ts).1 refl)
  ]

  -- A row of the table's type goes to the end.
  add-IsTable :
      (ts : List ItemDataType) (gs : List (ItemGroup D)) (g : ItemGroup D)
      → IsTable ts gs
      → IsGroup g
      → types_of g.item_vector ≡ ts
      → (hs : List (ItemGroup D)) × (add g gs ≡ some hs)
        × IsTable ts hs
        × (rows hs ≡ rows gs ++ g.item_vector ∷ [])
  unfolding add
  add-IsTable ts gs g h r t =
      let (f, e, fr, fz, same) = freeze-IsGroup g r in
      let row : IsRow ts f = (fr, fz, ap types_of same ∙ t) in
      (
        gs ++ f ∷ [],
        rw (add, e, types_match-IsRow ts gs f h row) refl,
        All-append (IsRow ts) gs (f ∷ []) h (row, tt),
        rows-append gs (f ∷ []) ∙ ap (λ v. rows gs ++ v ∷ []) same,
      )

  add_items-IsGroup :
      (ds : List (ItemData D)) (g : ItemGroup D)
      → IsGroup g
      → g.freezed ≡ false
      → (h : ItemGroup D) × (add_items ds g ≡ some h)
        × IsGroup h
        × (h.freezed ≡ false)
        × (h.item_vector ≡ g.item_vector ++ ds)
  unfolding add_items
  add_items-IsGroup [] g r e = (g, refl, r, e, sym (append-nil g.item_vector))
  add_items-IsGroup (d ∷ ds) g r e =
      let (h, a, hr, unfrozen, hv) = add-IsGroup g d r e in
      let (k, b, kr, ke, kv) = add_items-IsGroup ds h hr unfrozen in
      (k, rw (a, b) refl, kr, ke, kv ∙ rw (hv, append_assoc g.item_vector (d ∷ []) ds) refl)

  pub join_foreach_core-IsTable :
      (ts us : List ItemDataType) (table : List (ItemGroup D)) (l r : ItemGroup D)
      → IsTable (ts ++ us) table
      → IsRow ts l
      → IsRow us r
      → (joined : List (ItemGroup D)) × (join_foreach_core table l r ≡ some joined)
        × IsTable (ts ++ us) joined
        × (rows joined ≡ rows table ++ (l.item_vector ++ r.item_vector) ∷ [])
  unfolding join_foreach_core ItemGroup.init
  join_foreach_core-IsTable ts us table l r h (lr, le, lt) (rr, re, rt) =
      let (g, a, gr, ge, gv) = add_items-IsGroup l.item_vector ItemGroup.init (refl, refl) refl in
      let (k, b, kr, ke, kv) = add_items-IsGroup r.item_vector g gr ge in
      let all : k.item_vector ≡ l.item_vector ++ r.item_vector = kv ∙ rw gv refl in
      let types : types_of k.item_vector ≡ ts ++ us =
        ap types_of all ∙ types_of-append l.item_vector r.item_vector ∙ rw (lt, rt) refl in
      let (hs, e, ht, hr) = add-IsTable (ts ++ us) table k h kr types in
      (hs, rw (a, b, e) refl, ht, hr ∙ rw all refl)
