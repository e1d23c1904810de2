-- ===== src/Server/DbTermCodec.antt =====
-- server/src/DBTermCodec.cc: how a string becomes a term of an SQL statement. The numbers' encodings
-- are a call of `sprintf` alone.
use hatohol.Base.{
  All, ◌≢◌, ℕ, ◌+◌, ◌-◌, ◌≡◌, refl, ◌∙◌, inl, inr, Bool, true, false, Option, none, some, List, [],
  ◌∷◌, ◌++◌, append_assoc, arith, ◌==◌, if◌then◌else◌, Bool-cases, length, length-append, take,
  take-length-append, Bytes, c_str, c_str_idem, contains,
}
use hatohol.Mlpl.StringUtils.Chars.{contains-c_str}
use hatohol.Mlpl.StringUtils.Split.{contains-append}
use hatohol.Mlpl.ParsableString.Parser.{next}

-- The first loop: the positions of the quotation marks, each as the rest of the text from there.
quot_positions : Bytes → List Bytes
quot_positions [] = []
quot_positions (c ∷ ch) = if c == b'\'' then (c ∷ ch) ∷ quot_positions ch else quot_positions ch

-- The second loop, and the `append` of what stands behind the last mark.
append_loop : Bytes → Bytes → List Bytes → Bytes
append_loop str head [] = str ++ head
append_loop str head (tail ∷ quots) =
    let len = length head - length tail + 1 in
    append_loop ((str ++ take len head) ++ b'\'' ∷ []) (next tail) quots

unfoldable pub enc : Bytes → Bytes
unfolding quot_positions append_loop
enc val = let text = c_str val in append_loop (b'\'' ∷ []) text (quot_positions text) ++ b'\'' ∷ []

-- Every quotation mark twice.
pub doubled : Bytes → Bytes
doubled [] = []
doubled (c ∷ s) = if c == b'\'' then c ∷ c ∷ doubled s else c ∷ doubled s

cut_at :
    (w : Bytes) (c : ℕ) (s : Bytes)
    → take (length (w ++ (c ∷ s)) - length (c ∷ s) + 1) (w ++ (c ∷ s)) ≡ w ++ c ∷ []
cut_at w c s =
    let n : length (w ++ (c ∷ s)) - length (c ∷ s) + 1 ≡ length (w ++ c ∷ []) =
      omega (arith, length-append w (c ∷ s), length-append w (c ∷ [])) in
    rw (n, ← append_assoc w (c ∷ []) s) (take-length-append (w ++ c ∷ []) s)

append_loop-doubled :
    (str w s : Bytes) → append_loop str (w ++ s) (quot_positions s) ≡ str ++ (w ++ doubled s)
unfolding append_loop quot_positions doubled
append_loop-doubled str w [] = refl
append_loop-doubled str w (c ∷ s) = ground (
  arith,
  cut_at w c s,
  append_loop-doubled ((str ++ (w ++ c ∷ [])) ++ b'\'' ∷ []) [] s,
  append_loop-doubled str (w ++ c ∷ []) s,
  append_assoc w (c ∷ []) s,
  append_assoc w (c ∷ []) (doubled s),
  append_assoc w (c ∷ []) (c ∷ doubled s),
  append_assoc str (w ++ c ∷ []) (b'\'' ∷ doubled s),
  append_assoc (str ++ (w ++ c ∷ [])) (b'\'' ∷ []) (doubled s),
)

enc-doubled : (val : Bytes) → enc val ≡ b'\'' ∷ (doubled (c_str val) ++ b'\'' ∷ [])
unfolding enc
enc-doubled val = rw (append_loop-doubled (b'\'' ∷ []) [] (c_str val)) refl

contains-doubled : (s : Bytes) → contains s 0 ≡ false → contains (doubled s) 0 ≡ false
unfolding doubled
contains-doubled [] h = refl
contains-doubled (c ∷ s) h = ground (arith, contains-doubled s)

pub enc-without_nul : (val : Bytes) → contains (enc val) 0 ≡ false
enc-without_nul val =
    rw
      (
        enc-doubled val,
        contains,
        contains-append (doubled (c_str val)) (b'\'' ∷ []) 0,
        contains-doubled (c_str val) (contains-c_str val),
      )
      refl

pub enc-c_str : (val : Bytes) → enc (c_str val) ≡ enc val
unfolding enc
enc-c_str val = rw (c_str_idem val) refl

-- How a database reads on behind the opening mark of a string: the value and the statement's rest.
-- In standard SQL two marks stand for one, and a single one ends the string.
prepend : ℕ → Option (Bytes × Bytes) → Option (Bytes × Bytes)
prepend c none = none
prepend c (some (w, rest)) = some (c ∷ w, rest)

prepend-some : {c : ℕ} → {w rest : Bytes} → prepend c (some (w, rest)) ≡ some (c ∷ w, rest)
unfolding prepend
prepend-some = refl

unfoldable pub read_body : Bytes → Option (Bytes × Bytes)
unfolding prepend
read_body [] = none
read_body (c ∷ []) = if c == b'\'' then some ([], []) else none
read_body (c ∷ d ∷ r) =
    let mark = prepend c (read_body r) in
    let other = prepend c (read_body (d ∷ r)) in
    if c == b'\'' then (if d == b'\'' then mark else some ([], d ∷ r)) else other

-- MySQL's default also takes a char behind a backslash as it stands.
unfoldable pub read_mysql_body : Bytes → Option (Bytes × Bytes)
unfolding prepend
read_mysql_body [] = none
read_mysql_body (c ∷ []) = if c == b'\'' then some ([], []) else none
read_mysql_body (c ∷ d ∷ r) =
    let mark = prepend c (read_mysql_body r) in
    let escaped = prepend d (read_mysql_body r) in
    let other = prepend c (read_mysql_body (d ∷ r)) in
    if c == b'\\'
    then escaped
    else if c == b'\''
    then (if d == b'\'' then mark else some ([], d ∷ r))
    else other

abbrev opened : (Bytes → Option (Bytes × Bytes)) → Bytes → Option (Bytes × Bytes)
opened read [] = none
opened read (c ∷ r) = if c == b'\'' then read r else none

abbrev pub read_literal : Bytes → Option (Bytes × Bytes)
read_literal = opened read_body

abbrev pub read_mysql_literal : Bytes → Option (Bytes × Bytes)
read_mysql_literal = opened read_mysql_body

abbrev pub starts_with_mark : Bytes → Bool
starts_with_mark [] = false
starts_with_mark (c ∷ r) = c == b'\''

read_body-end :
    (rest : Bytes) → starts_with_mark rest ≡ false → read_body (b'\'' ∷ rest) ≡ some ([], rest)
unfolding read_body
read_body-end [] h = refl
read_body-end (c ∷ r) h = ground arith

read_body-other :
    (c : ℕ) (s rest : Bytes) (d : ℕ) (r : Bytes)
    → (c == b'\'') ≡ false
    → s ≡ d ∷ r
    → read_body (c ∷ s) ≡ prepend c (read_body s)
unfolding read_body
read_body-other c s rest d r h e = ground arith

read_body-mark :
    (c : ℕ) (s : Bytes) → (c == b'\'') ≡ true → read_body (c ∷ c ∷ s) ≡ prepend c (read_body s)
unfolding read_body
read_body-mark c s e = rw e refl

-- What is left to read is never empty.
doubled-behind : (s rest : Bytes) → (d : ℕ) × (r : Bytes) × (doubled s ++ b'\'' ∷ rest ≡ d ∷ r)
unfolding doubled
doubled-behind [] rest = (b'\'', rest, refl)
doubled-behind (c ∷ s) rest = elim (Bool-cases (c == b'\'')) [
  | inl e ↦ (c, c ∷ (doubled s ++ b'\'' ∷ rest), rw (e, doubled))
  | inr e ↦ (c, doubled s ++ b'\'' ∷ rest, rw (e, doubled))
]

read_body-doubled :
    (s rest : Bytes)
    → starts_with_mark rest ≡ false
    → read_body (doubled s ++ (b'\'' ∷ rest)) ≡ some (s, rest)
unfolding doubled
read_body-doubled [] rest h = read_body-end rest h
read_body-doubled (c ∷ s) rest h =
    let (d, r, e) = doubled-behind s rest in
    let ih = read_body-doubled s rest h in
    elim (Bool-cases (c == b'\'')) [
      | inl mark ↦
          rw (mark, doubled)
            (read_body-mark c (doubled s ++ (b'\'' ∷ rest)) mark ∙ rw ih prepend-some)
      | inr other ↦
          rw (other, doubled)
            (read_body-other c (doubled s ++ (b'\'' ∷ rest)) rest d r other e ∙ rw ih prepend-some)
    ]

-- In standard SQL the encoded term is one string literal, whatever the value: it reads back as
-- the value up to its first NUL, and what follows it in the statement stays outside. What follows
-- does not begin with a quotation mark.
pub read_literal-enc :
    (val rest : Bytes)
    → starts_with_mark rest ≡ false
    → read_literal (enc val ++ rest) ≡ some (c_str val, rest)
read_literal-enc val rest h =
    rw (enc-doubled val, append_assoc (doubled (c_str val)) (b'\'' ∷ []) rest)
      (read_body-doubled (c_str val) rest h)

abbrev pub IsPlain : Bytes → Type 0
IsPlain = All (λ c. ((c == b'\'') ≡ false) × ((c == b'\\') ≡ false) × (c ≢ 0))

c_str-plain : (w s : Bytes) → IsPlain w → c_str (w ++ s) ≡ w ++ c_str s
c_str-plain [] s h = refl
c_str-plain (c ∷ w) s (h, hs) = ground (arith, c_str-plain w s hs)

doubled-plain : (w s : Bytes) → IsPlain w → doubled (w ++ s) ≡ w ++ doubled s
unfolding doubled
doubled-plain [] s h = refl
doubled-plain (c ∷ w) s (h, hs) = ground (arith, doubled-plain w s hs)

read_mysql_body-other :
    (c : ℕ) (s : Bytes) (d : ℕ) (r : Bytes)
    → (c == b'\'') ≡ false
    → (c == b'\\') ≡ false
    → s ≡ d ∷ r
    → read_mysql_body (c ∷ s) ≡ prepend c (read_mysql_body s)
unfolding read_mysql_body
read_mysql_body-other c s d r h k e = ground arith

-- Behind an escaped mark, which the encoding has doubled, its twin ends the literal.
read_mysql_body-escape :
    (d : ℕ) (r : Bytes)
    → (d == b'\'') ≡ false
    → read_mysql_body (b'\\' ∷ b'\'' ∷ b'\'' ∷ d ∷ r) ≡ some (b'\'' ∷ [], d ∷ r)
unfolding read_mysql_body prepend
read_mysql_body-escape d r h = ground arith

read_mysql_body-plain :
    (w : Bytes) (d : ℕ) (r : Bytes)
    → IsPlain w
    → (d == b'\'') ≡ false
    → read_mysql_body (w ++ (b'\\' ∷ b'\'' ∷ b'\'' ∷ d ∷ r)) ≡ some (w ++ b'\'' ∷ [], d ∷ r)
read_mysql_body-plain [] d r h m = read_mysql_body-escape d r m
read_mysql_body-plain (c ∷ []) d r h m =
    read_mysql_body-other c (b'\\' ∷ b'\'' ∷ b'\'' ∷ d ∷ r) b'\\' (b'\'' ∷ b'\'' ∷ d ∷ r) h.0.0
      h.0.1 refl
    ∙ rw (read_mysql_body-escape d r m) prepend-some
read_mysql_body-plain (c ∷ x ∷ w) d r (h, hs) m =
    read_mysql_body-other c ((x ∷ w) ++ (b'\\' ∷ b'\'' ∷ b'\'' ∷ d ∷ r)) x
      (w ++ (b'\\' ∷ b'\'' ∷ b'\'' ∷ d ∷ r)) h.0 h.1 refl
    ∙ rw (read_mysql_body-plain (x ∷ w) d r hs m) prepend-some

-- For MySQL's default reading of backslashes the encoded term is not always one literal: a value
-- with a backslash and a quotation mark behind a plain text is read as that text and the mark, and
-- what follows in the value, with its marks doubled, stands outside as part of the statement. It
-- begins with a char that is neither a quotation mark nor NUL.
pub read_mysql_literal-enc :
    (w : Bytes) (d : ℕ) (r : Bytes)
    → IsPlain w
    → (d == b'\'') ≡ false
    → d ≢ 0
    → read_mysql_literal (enc (w ++ (b'\\' ∷ b'\'' ∷ d ∷ r)))
      ≡ some (w ++ b'\'' ∷ [], d ∷ (doubled (c_str r) ++ b'\'' ∷ []))
read_mysql_literal-enc w d r h m n =
    let c : c_str (w ++ (b'\\' ∷ b'\'' ∷ d ∷ r)) ≡ w ++ (b'\\' ∷ b'\'' ∷ d ∷ c_str r) =
      c_str-plain w (b'\\' ∷ b'\'' ∷ d ∷ r) h ∙ ground arith in
    let e : doubled (b'\\' ∷ b'\'' ∷ d ∷ c_str r) ≡ b'\\' ∷ b'\'' ∷ b'\'' ∷ d ∷ doubled (c_str r) =
      unfold doubled in ground arith in
    rw
      (
        enc-doubled (w ++ (b'\\' ∷ b'\'' ∷ d ∷ r)),
        c,
        doubled-plain w (b'\\' ∷ b'\'' ∷ d ∷ c_str r) h,
        e,
        append_assoc w (b'\\' ∷ b'\'' ∷ b'\'' ∷ d ∷ doubled (c_str r)) (b'\'' ∷ []),
      )
      (read_mysql_body-plain w d (doubled (c_str r) ++ b'\'' ∷ []) h m)
