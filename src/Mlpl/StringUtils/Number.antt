-- ===== src/Mlpl/StringUtils/Number.antt =====
-- `StringUtils::isNumber`.
use hatohol.Base.{
  ℕ, ◌+◌, ◌≤◌, ◌≡◌, refl, ◌↔◌, inl, inr, Bool, true, false, ◌||◌, Option, none, some, [], ◌∷◌, ◌++◌,
  append-nil, arith, ltb, leb, ◌==◌, if◌then◌else◌, Bool-cases, Bytes, c_str, All,
}

-- The loop of `isNumber`: `none` is `false`, and `some f` is `true` with `*isFloat = f`.
is_number_loop : ℕ → Bytes → Option Bool
is_number_loop count_dot [] = some (count_dot == 1)
is_number_loop count_dot (c ∷ p) =
    let dotted = is_number_loop (count_dot + 1) p in
    let next = is_number_loop count_dot p in
    if c == b'.'
    then (if leb 2 (count_dot + 1) then none else dotted)
    else if ltb c b'0' || ltb b'9' c
    then none
    else next

-- The position behind a sign.
pub skip_sign : Bytes → Bytes
skip_sign [] = []
skip_sign (c ∷ p) = if c == b'+' || c == b'-' then p else c ∷ p

unfoldable pub is_number : Bytes → Option Bool
unfolding is_number_loop skip_sign
is_number str = is_number_loop 0 (skip_sign (c_str str))

-- Decimal digits only.
abbrev pub IsDigits : Bytes → Type 0
IsDigits = All (λ c. (b'0' ≤ c) × (c ≤ b'9'))

-- The texts that `isNumber` takes behind the sign, by whether they have a point.
abbrev pub IsNumeral : Bool → Bytes → Type 0
IsNumeral false s = IsDigits s
IsNumeral true s = (ds es : Bytes) × IsDigits ds × IsDigits es × (s ≡ ds ++ (b'.' ∷ es))

is_number_loop-no_dot :
    (s : Bytes) (f : Bool) → is_number_loop 1 s ≡ some f → (f ≡ true) × IsDigits s
unfolding is_number_loop
is_number_loop-no_dot [] f e = ground arith
is_number_loop-no_dot (c ∷ s) f e = ground (arith, is_number_loop-no_dot s f)

is_number_loop_sound : (s : Bytes) (f : Bool) → is_number_loop 0 s ≡ some f → IsNumeral f s
unfolding is_number_loop
is_number_loop_sound [] false e = tt
is_number_loop_sound [] true e = ground arith
is_number_loop_sound (c ∷ s) false e =
    ground (arith, is_number_loop_sound s false, is_number_loop-no_dot s false)
is_number_loop_sound (c ∷ s) true e = elim (Bool-cases (c == b'.')) [
  | inl dot ↦ ([], s, tt, ground (arith, is_number_loop-no_dot s true), ground arith)
  | inr digit ↦
      let (ds, es, hd, he, split) = is_number_loop_sound s true (ground arith) in
      (c ∷ ds, es, ground arith, he, ground arith)
]

is_number_loop-digits :
    (n : ℕ) (ds s : Bytes) → IsDigits ds → is_number_loop n (ds ++ s) ≡ is_number_loop n s
unfolding is_number_loop
is_number_loop-digits n [] s h = refl
is_number_loop-digits n (c ∷ ds) s h = ground (arith, is_number_loop-digits n ds s h.1)

is_number_loop_complete : (f : Bool) (s : Bytes) → IsNumeral f s → is_number_loop 0 s ≡ some f
unfolding is_number_loop
is_number_loop_complete false s h = ground (arith, is_number_loop-digits 0 s [] h, append-nil s)
is_number_loop_complete true s (ds, es, hd, he, split) = ground (
  arith,
  is_number_loop-digits 0 ds (b'.' ∷ es) hd,
  is_number_loop-digits 1 es [] he,
  append-nil es,
)

-- `isNumber` accepts a text, with or without the float flag, exactly when the part behind an
-- optional sign is digits, or digits with one point among them. An empty part counts as digits.
pub is_number_iff :
    (str : Bytes) (f : Bool) → (is_number str ≡ some f) ↔ IsNumeral f (skip_sign (c_str str))
unfolding is_number
is_number_iff str f = (
  is_number_loop_sound (skip_sign (c_str str)) f,
  is_number_loop_complete f (skip_sign (c_str str)),
)
