-- ===== src/Mlpl/StringUtils/Split.antt =====
-- `StringUtils::split` and `StringUtils::getAt`. A `const char *` into the text is the rest of the
-- text from there on, so `ptr + 1` is the tail and `string(head, len)` is `take len head`.
use hatohol.Base.{
  ℕ, ◌+◌, ◌≡◌, refl, sym, ap, ◌∙◌, ◌≢◌, inl, inr, Bool, true, false, not, ◌||◌, Option, none, List,
  [], ◌∷◌, ◌++◌, append-nil, append_assoc, arith, ltb, ◌==◌, if◌then◌else◌, Bool-cases, length,
  length-append, get_elem?, take, take-length-append, Bytes, c_str, contains, All,
}

-- The loop of `splitTemplate`: `strings` are the pieces pushed back so far.
split_loop : Bool → ℕ → List Bytes → ℕ → Bytes → Bytes → List Bytes
split_loop do_merge separator strings len head [] =
    if ltb 0 len || not do_merge then strings ++ take len head ∷ [] else strings
split_loop do_merge separator strings len head (c ∷ ptr) =
    let longer = split_loop do_merge separator strings (len + 1) head ptr in
    let pushed = split_loop do_merge separator (strings ++ take len head ∷ []) 0 ptr ptr in
    let skipped = split_loop do_merge separator strings len ptr ptr in
    if not (c == separator) then longer else if ltb 0 len || not do_merge then pushed else skipped

unfoldable pub split : Bytes → ℕ → Bool → List Bytes
unfolding split_loop
split target separator do_merge =
    let text = c_str target in split_loop do_merge separator [] 0 text text

-- `none` is the `out_of_range` that is thrown.
unfoldable pub get_at : List Bytes → ℕ → Option Bytes
get_at string_list index =
    if not (ltb index (length string_list)) then none else get_elem? string_list index

-- The piece `w`, if it is kept.
abbrev kept : Bool → Bytes → List Bytes
kept do_merge [] = if do_merge then [] else [] ∷ []
kept do_merge (c ∷ w) = (c ∷ w) ∷ []

-- The pieces of `s` behind a piece that has begun with `w`.
pub pieces : Bool → ℕ → Bytes → Bytes → List Bytes
pieces do_merge separator w [] = kept do_merge w
pieces do_merge separator w (c ∷ s) =
    let cut = kept do_merge w ++ pieces do_merge separator [] s in
    let grown = pieces do_merge separator (w ++ c ∷ []) s in if c == separator then cut else grown

split_loop-pieces :
    (m : Bool) (sep : ℕ) (out : List Bytes) (w s : Bytes)
    → split_loop m sep out (length w) (w ++ s) s ≡ out ++ pieces m sep w s
unfolding split_loop pieces
split_loop-pieces m sep out [] [] = ground (arith, append-nil out)
split_loop-pieces m sep out (x ∷ w) [] = ground (arith, take-length-append (x ∷ w) [])
split_loop-pieces m sep out [] (c ∷ s) = ground (
  arith,
  split_loop-pieces m sep out (c ∷ []) s,
  split_loop-pieces m sep (out ++ [] ∷ []) [] s,
  split_loop-pieces m sep out [] s,
  append_assoc out ([] ∷ []) (pieces m sep [] s),
)
split_loop-pieces m sep out (x ∷ w) (c ∷ s) =
    let grown = split_loop-pieces m sep out (x ∷ (w ++ c ∷ [])) s in
    ground (
      arith,
      grown,
      length-append w (c ∷ []),
      append_assoc w (c ∷ []) s,
      take-length-append (x ∷ w) (c ∷ s),
      split_loop-pieces m sep (out ++ (x ∷ w) ∷ []) [] s,
      append_assoc out ((x ∷ w) ∷ []) (pieces m sep [] s),
    )

-- The code computes the plain recursion.
split-pieces : (s : Bytes) (sep : ℕ) (m : Bool) → split s sep m ≡ pieces m sep [] (c_str s)
unfolding split
split-pieces s sep m = split_loop-pieces m sep [] [] (c_str s)

-- The pieces with the separator between them.
unfoldable pub join : ℕ → List Bytes → Bytes
join sep [] = []
join sep (w ∷ []) = w
join sep (w ∷ v ∷ ws) = w ++ (sep ∷ join sep (v ∷ ws))

pub drop_empty : List Bytes → List Bytes
drop_empty [] = []
drop_empty ([] ∷ ws) = drop_empty ws
drop_empty ((c ∷ w) ∷ ws) = (c ∷ w) ∷ drop_empty ws

pieces-ne-nil :
    (sep : ℕ) (w s : Bytes) → (v : Bytes) × (vs : List Bytes) × (pieces false sep w s ≡ v ∷ vs)
unfolding pieces
pieces-ne-nil sep [] [] = ([], [], refl)
pieces-ne-nil sep (x ∷ w) [] = (x ∷ w, [], refl)
pieces-ne-nil sep w (c ∷ s) = elim (Bool-cases (c == sep)) [
  | inl e ↦ (w, pieces false sep [] s, rw (e, pieces) (kept_all w))
  | inr e ↦ rw (e, pieces) (pieces-ne-nil sep (w ++ c ∷ []) s)
]
  where
    kept_all : (w : Bytes) {vs : List Bytes} → kept false w ++ vs ≡ w ∷ vs
    kept_all [] = refl
    kept_all (x ∷ w) = refl

join-kept :
    (sep : ℕ) (w : Bytes) (vs : List Bytes) (v : Bytes) (us : List Bytes)
    → vs ≡ v ∷ us
    → join sep (kept false w ++ vs) ≡ w ++ (sep ∷ join sep vs)
unfolding join
join-kept sep [] vs v us e = ground arith
join-kept sep (x ∷ w) vs v us e = ground arith

join-pieces : (sep : ℕ) (w s : Bytes) → join sep (pieces false sep w s) ≡ w ++ s
unfolding pieces
join-pieces sep [] [] = unfold join in refl
join-pieces sep (x ∷ w) [] = unfold join in sym (append-nil (x ∷ w))
join-pieces sep w (c ∷ s) =
    let (v, us, e) = pieces-ne-nil sep [] s in
    ground (
      arith,
      join-kept sep w (pieces false sep [] s) v us e,
      join-pieces sep [] s,
      join-pieces sep (w ++ c ∷ []) s,
      append_assoc w (c ∷ []) s,
    )

-- Splitting without merging loses nothing: the pieces, joined by the separator, are the text up
-- to its first NUL.
join-split : (s : Bytes) (sep : ℕ) → join sep (split s sep false) ≡ c_str s
join-split s sep = rw split-pieces (join-pieces sep [] (c_str s))

pub contains-append : (w s : Bytes) (c : ℕ) → contains (w ++ s) c ≡ (contains w c || contains s c)
contains-append [] s c = refl
contains-append (x ∷ w) s c = ground (arith, contains-append w s c)

-- Texts that a piece can be: no separator in them, and no NUL.
abbrev pub IsPiece : ℕ → Bytes → Type 0
IsPiece sep w = (contains w sep ≡ false) × (contains w 0 ≡ false)

c_str-append : (w s : Bytes) → contains w 0 ≡ false → c_str (w ++ s) ≡ w ++ c_str s
c_str-append [] s h = refl
c_str-append (x ∷ w) s h = ground (arith, c_str-append w s)

c_str-join :
    (sep : ℕ) (ws : List Bytes) → sep ≢ 0 → All (IsPiece sep) ws → c_str (join sep ws) ≡ join sep ws
unfolding join
c_str-join sep [] n h = refl
c_str-join sep (w ∷ []) n h = ground (arith, c_str-append w [] h.0.1, append-nil w)
c_str-join sep (w ∷ v ∷ ws) n h =
    ground (arith, c_str-append w (sep ∷ join sep (v ∷ ws)) h.0.1, c_str-join sep (v ∷ ws) n h.1)

kept_all : (w : Bytes) → kept false w ≡ w ∷ []
kept_all [] = refl
kept_all (x ∷ w) = refl

pieces_to_end :
    (sep : ℕ) (u w : Bytes) → contains w sep ≡ false → pieces false sep u w ≡ (u ++ w) ∷ []
unfolding pieces
pieces_to_end sep u [] h = rw append-nil (kept_all u)
pieces_to_end sep u (c ∷ w) h =
    ground (arith, pieces_to_end sep (u ++ c ∷ []) w, append_assoc u (c ∷ []) w)

pieces_to_separator :
    (sep : ℕ) (u w s : Bytes)
    → contains w sep ≡ false
    → pieces false sep u (w ++ (sep ∷ s)) ≡ (u ++ w) ∷ pieces false sep [] s
unfolding pieces
pieces_to_separator sep u [] s h = ground (arith, append-nil u, kept_all u)
pieces_to_separator sep u (c ∷ w) s h =
    ground (arith, pieces_to_separator sep (u ++ c ∷ []) w s, append_assoc u (c ∷ []) w)

pieces-join :
    (sep : ℕ) (w : Bytes) (ws : List Bytes)
    → All (IsPiece sep) (w ∷ ws)
    → pieces false sep [] (join sep (w ∷ ws)) ≡ w ∷ ws
unfolding join
pieces-join sep w [] h = pieces_to_end sep [] w h.0.0
pieces-join sep w (v ∷ ws) h =
    ground (arith, pieces_to_separator sep [] w (join sep (v ∷ ws)) h.0.0, pieces-join sep v ws h.1)

-- Joined texts that hold neither the separator nor a NUL come back from an unmerged split; the
-- separator is not NUL, and there is at least one text.
pub split-join :
    (sep : ℕ) (w : Bytes) (ws : List Bytes)
    → sep ≢ 0
    → All (IsPiece sep) (w ∷ ws)
    → split (join sep (w ∷ ws)) sep false ≡ w ∷ ws
split-join sep w ws n h = rw (split-pieces, c_str-join sep (w ∷ ws) n h) (pieces-join sep w ws h)

drop_empty-kept :
    (w : Bytes) (vs us : List Bytes)
    → drop_empty vs ≡ us
    → drop_empty (kept false w ++ vs) ≡ kept true w ++ us
unfolding drop_empty
drop_empty-kept [] vs us e = e
drop_empty-kept (x ∷ w) vs us e = ground arith

pieces_merge : (sep : ℕ) (w s : Bytes) → pieces true sep w s ≡ drop_empty (pieces false sep w s)
unfolding pieces
pieces_merge sep [] [] = unfold drop_empty in refl
pieces_merge sep (x ∷ w) [] = unfold drop_empty in refl
pieces_merge sep w (c ∷ s) = ground (
  arith,
  drop_empty-kept w (pieces false sep [] s) (pieces true sep [] s),
  pieces_merge sep [] s,
  pieces_merge sep (w ++ c ∷ []) s,
)

-- Merging separators drops the empty pieces and nothing else.
split_merge : (s : Bytes) (sep : ℕ) → split s sep true ≡ drop_empty (split s sep false)
split_merge s sep =
    split-pieces s sep true
    ∙ pieces_merge sep [] (c_str s)
    ∙ ap drop_empty (sym (split-pieces s sep false))
