-- ===== src/Server/HostResourceQueryOption/Reading.antt =====
-- What a condition says of a row: a grammar of the conditions that the query options write, with the
-- precedence of SQL, and how the writers of their parts are read.
use hatohol.Base.{
  ℕ, ◌<◌, ◌≡◌, ◌≢◌, refl, sym, subst, ◌⊎◌, inl, inr, Bool, true, false, not, ◌||◌, ◌&&◌, List, [],
  ◌∷◌, ◌++◌, append_assoc, arith, if◌then◌else◌, length, length-append, Bytes, codes, contains, All,
}
use hatohol.Mlpl.StringUtils.Chars.{vsprintf, vsprintf_short, c_str-without_nul}
use hatohol.Mlpl.StringUtils.Split.{join, contains-append}
use hatohol.Server.DbTermCodec.{enc}
use hatohol.Server.DataQueryOption.{add_type_and, add_type_or, add_condition, empty}
use package.hatohol.Server.HostResourceQueryOption.Conditions.{
  always_false_condition, sprintf_compare, in_parentheses, in_parentheses_and,
}

-- No char of the grammar's own, and no NUL: columns and numbers are such words.
abbrev pub IsWord : Bytes → Type 0
IsWord = All (λ c. contains (0 ∷ codes " '(),<=>") c ≡ false)

abbrev pub IsTerm : Bytes → Type 0
IsTerm t = IsWord t ⊎ ((v : Bytes) × (t ≡ enc v))

abbrev pub any {ℓ} : {A : Type ℓ} → (A → Bool) → List A → Bool
any p [] = false
any p (x ∷ xs) = p x || any p xs

pub data Level : Type 0 where
  factor : Level
  conjunction : Level
  disjunction : Level

-- `row column term` is whether the row's value in that column is that of the term.
pub data Reads (row : Bytes → Bytes → Bool) : Level → Bytes → Bool → Type 0 where
  never : Reads row factor always_false_condition false
  is :
      (column term : Bytes)
      → IsWord column
      → IsTerm term
      → Reads row factor (column ++ (codes "=" ++ term)) (row column term)
  among :
      (column : Bytes) (terms : List Bytes)
      → IsWord column
      → All IsTerm terms
      → terms ≢ []
      → Reads row factor
          (column ++ (codes " IN (" ++ (join b',' terms ++ codes ")")))
          (any (row column) terms)
  group :
      {s : Bytes}
      → {b : Bool} → Reads row disjunction s b
      → Reads row factor (b'(' ∷ (s ++ b')' ∷ [])) b
  one : {s : Bytes} → {b : Bool} → Reads row factor s b → Reads row conjunction s b
  both :
      {s t : Bytes}
      → {a b : Bool} → Reads row conjunction s a
      → Reads row factor t b
      → Reads row conjunction (s ++ (codes " AND " ++ t)) (a && b)
  single : {s : Bytes} → {b : Bool} → Reads row conjunction s b → Reads row disjunction s b
  either :
      {s t : Bytes}
      → {a b : Bool} → Reads row disjunction s a
      → Reads row conjunction t b
      → Reads row disjunction (s ++ (codes " OR " ++ t)) (a || b)

pub contains-word : (w : Bytes) → IsWord w → contains w 0 ≡ false
contains-word [] h = refl
contains-word (c ∷ w) h = ground (arith, contains-word w h.1)

module _ (row : Bytes → Bytes → Bool) where
  -- A condition: an empty one does not restrict the rows.
  abbrev pub Means : Bytes → Bool → Type 0
  Means s b = ((s ≡ []) × (b ≡ true)) ⊎ Reads row conjunction s b

  -- Alternatives: none of them is no row.
  abbrev pub Offers : Bytes → Bool → Type 0
  Offers s b = ((s ≡ []) × (b ≡ false)) ⊎ Reads row disjunction s b

  -- A part of a condition.
  abbrev pub Restricts : Bytes → Bool → Type 0
  Restricts s b = ((s ≡ []) × (b ≡ true)) ⊎ Reads row factor s b

-- A text as a C string, which is read so unless `sprintf` could have cut it.
abbrev pub Denotes : (Bytes → Bool → Type 0) → Bytes → Bool → Type 0
Denotes P s b = (contains s 0 ≡ false) × (length s < 0x3ff → P s b)

empty-append : (w : Bytes) (c : ℕ) (s : Bytes) → empty (w ++ (c ∷ s)) ≡ false
empty-append [] c s = refl
empty-append (x ∷ w) c s = refl

Reads-empty :
    {row : Bytes → Bytes → Bool}
    → {l : Level} → {s : Bytes} → {b : Bool} → Reads row l s b
    → empty s ≡ false
Reads-empty never = refl
Reads-empty (is column term w t) = empty-append column b'=' term
Reads-empty (among column terms w t n) =
    empty-append column b' ' (codes "IN (" ++ (join b',' terms ++ codes ")"))
Reads-empty (group r) = refl
Reads-empty (one r) = Reads-empty r
Reads-empty (both {s} {t} r q) = empty-append s b' ' (codes "AND " ++ t)
Reads-empty (single r) = Reads-empty r
Reads-empty (either {s} {t} r q) = empty-append s b' ' (codes "OR " ++ t)

-- `sprintf` writes what its parts denote, when no part has a NUL.
pub vsprintf-Denotes :
    (P : Bytes → Bool → Type 0) (out : Bytes) (b : Bool)
    → contains out 0 ≡ false
    → (length out < 0x3ff → P out b)
    → Denotes P (vsprintf out) b
vsprintf-Denotes P out b n h =
    let (clean, whole) = vsprintf_short out n in
    (clean, λ short. subst (λ s. P s b) (sym (whole short)) (h (rw (← whole short) short)))

-- A term, and what the library's `%s` writes of it.
pub record IsPlainTerm (t : Bytes) : Type 0 where
  pub term : IsTerm t
  pub clean : contains t 0 ≡ false

-- What an empty text says, and what is said by one that is not.
pub and-true : {a b : Bool} → b ≡ true → a ≡ (a && b)
and-true e = ground (arith, e)

pub or-false : {a b : Bool} → b ≡ false → a ≡ (a || b)
or-false e = ground (arith, e)

or-true : {a b : Bool} → a ≡ false → b ≡ (a || b)
or-true e = ground (arith, e)

true-and : {a b : Bool} → a ≡ true → b ≡ (a && b)
true-and e = ground (arith, e)

module _ {row : Bytes → Bytes → Bool} {l : Level} {e : Bool} where
  pub said_by_empty :
      {s : Bytes} → {b : Bool} → empty s ≡ true → ((s ≡ []) × (b ≡ e)) ⊎ Reads row l s b → b ≡ e
  said_by_empty n (inl h) = h.1
  said_by_empty n (inr r) = absurd (ground (arith, n, Reads-empty r))

  pub said :
      {c : ℕ}
      → {s : Bytes} → {b : Bool} → ((c ∷ s ≡ []) × (b ≡ e)) ⊎ Reads row l (c ∷ s) b
      → Reads row l (c ∷ s) b
  said (inl h) = absurd (ground (arith, h.0))
  said (inr r) = r

module _ {row : Bytes → Bytes → Bool} where
  pub sprintf_compare-Denotes :
      (column term : Bytes)
      → IsWord column
      → IsPlainTerm term
      → Denotes (Reads row factor) (sprintf_compare column (codes "=") term) (row column term)
  unfolding sprintf_compare
  sprintf_compare-Denotes column term w t =
      let n = contains-word column w in
      rw (c_str-without_nul column n, c_str-without_nul term t.clean)
        (vsprintf-Denotes (Reads row factor) (column ++ (codes "=" ++ term)) (row column term)
          (rw (contains-append column (codes "=" ++ term) 0, n) t.clean)
          (λ short. is column term w t.term))

  pub in_parentheses-Denotes :
      (s : Bytes) (b : Bool)
      → Denotes (Reads row disjunction) s b
      → Denotes (Reads row factor) (in_parentheses s) b
  unfolding in_parentheses
  in_parentheses-Denotes s b (n, r) = rw (c_str-without_nul s n) (
      vsprintf-Denotes (Reads row factor) (b'(' ∷ (s ++ b')' ∷ [])) b
        (ground (arith, contains-append s (b')' ∷ []) 0, n))
        (λ short. group (r (omega (arith, length-append s (b')' ∷ []), short)))))

  pub add_condition-and-Denotes :
      (s t : Bytes) (a b : Bool)
      → Denotes (Means row) s a
      → Denotes (Restricts row) t b
      → Denotes (Means row) (add_condition s t add_type_and false) (a && b)
  unfolding add_condition
  add_condition-and-Denotes s [] a b d e = (
    d.0,
    λ short. subst (Means row s) (and-true (said_by_empty refl (e.1 (omega arith)))) (d.1 short),
  )
  add_condition-and-Denotes [] (c ∷ t) a b d e = (
    e.0,
    λ short. inr (
        subst (Reads row conjunction (c ∷ t)) (true-and (said_by_empty refl (d.1 (omega arith))))
          (one (said (e.1 short)))),
  )
  add_condition-and-Denotes (x ∷ s) (c ∷ t) a b d e =
      let grown = (x ∷ s) ++ (codes " AND " ++ (c ∷ t)) in
      (
        rw (contains-append (x ∷ s) (codes " AND " ++ (c ∷ t)) 0, d.0) e.0,
        λ short.
            let n = length-append (x ∷ s) (codes " AND " ++ (c ∷ t)) in
            inr
              (both (said (d.1 (omega (arith, n, short)))) (said (e.1 (omega (arith, n, short))))),
      )

  pub add_condition-or-Denotes :
      (s t : Bytes) (a b : Bool)
      → Denotes (Offers row) s a
      → Denotes (Reads row factor) t b
      → Denotes (Reads row disjunction) (add_condition s t add_type_or false) (a || b)
  unfolding add_condition
  add_condition-or-Denotes s [] a b d e = absurd (ground (arith, Reads-empty (e.1 (omega arith))))
  add_condition-or-Denotes [] (c ∷ t) a b d e = (
    e.0,
    λ short.
        subst (Reads row disjunction (c ∷ t)) (or-true (said_by_empty refl (d.1 (omega arith))))
          (single (one (e.1 short))),
  )
  add_condition-or-Denotes (x ∷ s) (c ∷ t) a b d e = (
    rw (contains-append (x ∷ s) (codes " OR " ++ (c ∷ t)) 0, d.0) e.0,
    λ short.
        let n = length-append (x ∷ s) (codes " OR " ++ (c ∷ t)) in
        either (said (d.1 (omega (arith, n, short)))) (one (e.1 (omega (arith, n, short)))),
  )

  pub in_parentheses_and-Denotes :
      (s t : Bytes) (a b : Bool)
      → Denotes (Reads row factor) s a
      → Denotes (Restricts row) t b
      → Denotes (Reads row factor) (if not (empty t) then in_parentheses_and s t else s) (a && b)
  unfolding in_parentheses_and
  in_parentheses_and-Denotes s [] a b d e = (
    d.0,
    λ short.
        subst (Reads row factor s) (and-true (said_by_empty refl (e.1 (omega arith)))) (d.1 short),
  )
  in_parentheses_and-Denotes s (c ∷ t) a b d e =
      let inner = s ++ (codes " AND " ++ (c ∷ t)) in
      let n = length-append s (codes " AND " ++ (c ∷ t)) in
      let m = length-append inner (b')' ∷ []) in
      let clean : contains inner 0 ≡ false =
        rw (contains-append s (codes " AND " ++ (c ∷ t)) 0, d.0) e.0 in
      rw
        (
          c_str-without_nul s d.0,
          c_str-without_nul (c ∷ t) e.0,
          ← append_assoc s (codes " AND " ++ (c ∷ t)) (b')' ∷ []),
        )
        (vsprintf-Denotes (Reads row factor) (b'(' ∷ (inner ++ b')' ∷ [])) (a && b)
          (rw (contains-append inner (b')' ∷ []) 0, clean) refl)
          (λ short. group (
            single (
              both (one (d.1 (omega (arith, n, m, short))))
                (said (e.1 (omega (arith, n, m, short))))))))

  -- A factor restricts.
  pub restricts :
      {s : Bytes} → {b : Bool} → Denotes (Reads row factor) s b → Denotes (Restricts row) s b
  restricts d = (d.0, λ short. inr (d.1 short))
