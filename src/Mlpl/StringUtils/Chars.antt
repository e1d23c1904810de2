-- ===== src/Mlpl/StringUtils/Chars.antt =====
-- `StringUtils::eraseChars`, `replace`, `toLower` and `vsprintf`.
use hatohol.Base.{
  ℕ, zero, suc, ◌+◌, ◌-◌, ◌%◌, ◌≤◌, ◌<◌, ◌≡◌, ◌≢◌, refl, sym, ap, ◌∙◌, ◌↔◌, inl, inr, Bool, true,
  false, not, ◌||◌, ◌&&◌, Option, none, some, [], ◌∷◌, ◌++◌, append-nil, append_assoc, arith, ltb,
  leb, ◌==◌, ==_iff, if◌then◌else◌, Bool-cases, length, take, Bytes, c_str, contains, All,
}

-- A `bool [0x100]` indexed by an unsigned char.
abbrev CharArray : Type 0
CharArray = ℕ → Bool

abbrev num_array_chars : ℕ
num_array_chars = 0x100

-- The value of a char as an unsigned char.
abbrev char_code : ℕ → ℕ
char_code c = c % 0x100

-- The first loop of both functions; `none` is its early return.
mark_chars : CharArray → Bytes → Option CharArray
mark_chars array [] = some array
mark_chars array (c ∷ cs) =
    let idx = char_code c in
    let rest = mark_chars (λ i. if i == idx then true else array i) cs in
    if not (ltb idx num_array_chars) then none else rest

erase_loop : CharArray → Bytes → Bytes → Bytes
erase_loop array erased_string [] = erased_string
erase_loop array erased_string (c ∷ cs) =
    let idx = char_code c in
    let next =
      erase_loop array (if array idx then erased_string else erased_string ++ idx ∷ []) cs in
    if not (ltb idx num_array_chars) then [] else next

unfoldable pub erase_chars : Bytes → Bytes → Bytes
unfolding mark_chars erase_loop
erase_chars source erased = elim (mark_chars (λ _. false) erased) [
  | none ↦ []
  | some array ↦ erase_loop array [] source
]

replace_loop : CharArray → Bytes → Bytes → Bytes → Bytes
replace_loop array new_word replaced_string [] = replaced_string
replace_loop array new_word replaced_string (c ∷ cs) =
    let idx = char_code c in
    let next =
      replace_loop array new_word
        (if array idx then replaced_string ++ new_word else replaced_string ++ idx ∷ []) cs in
    if not (ltb idx num_array_chars) then [] else next

unfoldable pub replace : Bytes → Bytes → Bytes → Bytes
unfolding mark_chars replace_loop
replace source target_chars new_word = elim (mark_chars (λ _. false) target_chars) [
  | none ↦ []
  | some array ↦ replace_loop array new_word [] source
]

-- `tolower` of the C locale on one char.
unfoldable pub to_lower_char : ℕ → ℕ
to_lower_char c = if leb b'A' c && leb c b'Z' then c + 32 else c

unfoldable pub to_lower : Bytes → Bytes
unfolding to_lower_char
to_lower [] = []
to_lower (c ∷ cs) = to_lower_char c ∷ to_lower cs

-- SPRINTF_BUF_ON_STACK_LENGTH, with `out` for the complete output of the format. `vsnprintf` with
-- room for n bytes writes the first n - 1 of them and returns the length of `out`.
abbrev pub sprintf_buf_on_stack_length : ℕ
sprintf_buf_on_stack_length = 0x400

unfoldable pub vsprintf : Bytes → Bytes
vsprintf out =
    let out_len = length out in
    if leb out_len sprintf_buf_on_stack_length
    then c_str (take (sprintf_buf_on_stack_length - 1) out)
    else c_str (take (out_len + 1 - 1) out)

mark_chars_total :
    (array : CharArray) (cs : Bytes) → (a : CharArray) × (mark_chars array cs ≡ some a)
unfolding mark_chars
mark_chars_total array [] = (array, refl)
mark_chars_total array (c ∷ cs) =
    let (a, e) = mark_chars_total (λ i. if i == c % 0x100 then true else array i) cs in
    (a, ground (arith, e))

-- Every char is a byte.
abbrev pub IsBytes : Bytes → Type 0
IsBytes = All (λ c. c < 0x100)

mark_chars-contains :
    (array a : CharArray) (cs : Bytes) (i : ℕ)
    → IsBytes cs
    → mark_chars array cs ≡ some a
    → a i ≡ (contains cs i || array i)
unfolding mark_chars
mark_chars-contains array a [] i h e = ground arith
mark_chars-contains array a (c ∷ cs) i h e =
    ground (arith, mark_chars-contains (λ i. if i == c % 0x100 then true else array i) a cs i h.1)

-- Every char of `s` that stands in `t` gives way to `w`.
pub substitute : Bytes → Bytes → Bytes → Bytes
substitute [] t w = []
substitute (c ∷ s) t w = (if contains t c then w else c ∷ []) ++ substitute s t w

replace_loop-substitute :
    (array : CharArray) (t w out s : Bytes)
    → IsBytes s
    → ((i : ℕ) → array i ≡ contains t i)
    → replace_loop array w out s ≡ out ++ substitute s t w
unfolding replace_loop substitute
replace_loop-substitute array t w out [] h e = sym (append-nil out)
replace_loop-substitute array t w out (c ∷ s) h e = ground (
  arith,
  e c,
  replace_loop-substitute array t w (out ++ w) s h.1 e,
  replace_loop-substitute array t w (out ++ c ∷ []) s h.1 e,
  append_assoc out w (substitute s t w),
  append_assoc out (c ∷ []) (substitute s t w),
)

-- On strings of bytes `replace` puts the new word for every char that is among the targets, and
-- keeps every other char in its place.
replace_lem :
    (source target_chars new_word : Bytes)
    → IsBytes source
    → IsBytes target_chars
    → replace source target_chars new_word ≡ substitute source target_chars new_word
unfolding replace
replace_lem s t w hs ht =
    let (a, e) = mark_chars_total (λ _. false) t in
    rw (e, replace)
      (replace_loop-substitute a t w [] s hs
        (λ i. ground (arith, mark_chars-contains (λ _. false) a t i ht e)))

erase_loop-replace_loop :
    (array : CharArray) (out s : Bytes) → erase_loop array out s ≡ replace_loop array [] out s
unfolding erase_loop replace_loop
erase_loop-replace_loop array out [] = refl
erase_loop-replace_loop array out (c ∷ s) = ground (
  arith,
  append-nil out,
  erase_loop-replace_loop array out s,
  erase_loop-replace_loop array (out ++ (c % 0x100) ∷ []) s,
)

-- Erasing chars is replacing them by the empty word, for any two strings.
erase_chars-replace : (source erased : Bytes) → erase_chars source erased ≡ replace source erased []
unfolding erase_chars replace
erase_chars-replace s t =
    let (a, e) = mark_chars_total (λ _. false) t in
    ground (arith, e, erase_loop-replace_loop a [] s)

pub c_str-without_nul : (s : Bytes) → contains s 0 ≡ false → c_str s ≡ s
c_str-without_nul [] h = refl
c_str-without_nul (c ∷ s) h = ground (arith, c_str-without_nul s)

length-take-le : (n : ℕ) (s : Bytes) → length (take n s) ≤ n
length-take-le zero s = omega arith
length-take-le (suc n) [] = omega arith
length-take-le (suc n) (c ∷ s) = omega (arith, length-take-le n s)

take-all : (n : ℕ) (s : Bytes) → length s ≤ n → take n s ≡ s
take-all zero [] h = refl
take-all zero (c ∷ s) h = absurd (omega arith)
take-all (suc n) [] h = refl
take-all (suc n) (c ∷ s) h = ap (◌∷◌ c) (take-all n s (omega arith))

length-c_str-le : (s : Bytes) → length (c_str s) ≤ length s
length-c_str-le [] = omega arith
length-c_str-le (c ∷ s) = ground (arith, length-c_str-le s)

-- An output without NUL is returned whole exactly when its length is not that of the buffer on
-- the stack: an output of just that length loses its last char. It is taken that `vsnprintf` does
-- not fail, as it does when the length is no `int`.
pub vsprintf_whole_iff :
    (out : Bytes)
    → contains out 0 ≡ false
    → (vsprintf out ≡ out) ↔ (length out ≢ sprintf_buf_on_stack_length)
unfolding vsprintf
vsprintf_whole_iff out h = (short, whole)
  where
    short : vsprintf out ≡ out → length out ≢ sprintf_buf_on_stack_length
    short e full =
        ground
          (arith, ap length e, full, length-c_str-le (take 0x3ff out), length-take-le 0x3ff out)

    whole : length out ≢ sprintf_buf_on_stack_length → vsprintf out ≡ out
    whole n = elim (Bool-cases (leb (length out) 0x400)) [
      | inl small ↦ rw small (rw (take-all 0x3ff out (ground arith)) (c_str-without_nul out h))
      | inr large ↦
          rw large (rw (take-all (length out + 1 - 1) out (omega arith)) (c_str-without_nul out h))
    ]

pub contains-c_str : (s : Bytes) → contains (c_str s) 0 ≡ false
contains-c_str [] = refl
contains-c_str (c ∷ s) = ground (arith, contains-c_str s)

contains-take : (n : ℕ) (s : Bytes) → contains s 0 ≡ false → contains (take n s) 0 ≡ false
contains-take zero s h = refl
contains-take (suc n) [] h = refl
contains-take (suc n) (c ∷ s) h = ground (arith, contains-take n s)

length-take : (n : ℕ) (s : Bytes) → n ≤ length s → length (take n s) ≡ n
length-take zero s h = refl
length-take (suc n) [] h = absurd (omega arith)
length-take (suc n) (c ∷ s) h = ap suc (length-take n s (omega arith))

true-ne-false : true ≢ false
true-ne-false e = ground arith

-- What comes out shorter than the buffer's last place was not cut.
pub vsprintf_short :
    (out : Bytes)
    → contains out 0 ≡ false
    → (contains (vsprintf out) 0 ≡ false) × (length (vsprintf out) < 0x3ff → vsprintf out ≡ out)
unfolding vsprintf
vsprintf_short out h = (
  elim (Bool-cases (leb (length out) 0x400)) [
    | inl e ↦ rw e (contains-c_str (take 0x3ff out))
    | inr e ↦ rw e (contains-c_str (take (length out + 1 - 1) out))
  ],
  whole,
)
  where
    cut : length out ≡ 0x400 → vsprintf out ≡ take 0x3ff out
    cut n = rw (n) (c_str-without_nul (take 0x3ff out) (contains-take 0x3ff out h))

    whole : length (vsprintf out) < 0x3ff → vsprintf out ≡ out
    whole short = elim (Bool-cases (length out == 0x400)) [
      | inl full ↦
          let n : length out ≡ 0x400 = (==_iff (length out) 0x400).0 full in
          absurd (omega (arith, ap length (cut n), length-take 0x3ff out (omega (arith, n)), short))
      | inr n ↦
          (vsprintf_whole_iff out h).1
            (λ e. true-ne-false (sym ((==_iff (length out) 0x400).1 e) ∙ n))
    ]
