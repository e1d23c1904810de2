-- ===== src/Mlpl/ParsableString/Reads.antt =====
-- `readWord(separators)` from the outside: what it returns and where it leaves the position.
use hatohol.Base.{
  ℕ, ◌≡◌, ◌≢◌, refl, ap, subst, ◌⊎◌, inl, inr, true, false, Option, none, some, [], ◌∷◌, ◌++◌,
  append_assoc, arith, Bool-cases, Bytes, contains, All, All-append,
}
use hatohol.Mlpl.ParsableString.Checker.{make_array, IsAscii, make_array-contains, is_separator_in}
use hatohol.Mlpl.ParsableString.Parser.{ParsableString, plain_ops, read_word_of}
use hatohol.Mlpl.ParsableString.Words.{Separates, scan, position_of, read_word-scan, IsText}

-- No char of the text is a separator, and every char is one.
abbrev pub NoneOf : Bytes → Bytes → Type 0
NoneOf separators = All (λ c. contains separators c ≡ false)

abbrev pub AllOf : Bytes → Bytes → Type 0
AllOf separators = All (λ c. contains separators c ≡ true)

-- From `text` the word `word` is read, and the position is then `position`.
pub record Reads (separators text word : Bytes) (position : Option Bytes) : Type 0 where
  pub skipped : Bytes
  pub rest : Bytes
  pub splits : text ≡ skipped ++ (word ++ rest)
  pub skips : AllOf separators skipped
  pub whole : NoneOf separators word
  pub ends :
      ((rest ≡ []) × (position ≡ none))
      ⊎ ((c : ℕ) × (tail : Bytes) × (rest ≡ c ∷ tail)
          × (contains separators c ≡ true)
          × (word ≢ [])
          × (position ≡ some tail))

abbrev scan_plain : Bytes → Bytes → Bytes → Unit {0} × Bytes × Option (ℕ × Bytes)
scan_plain separators = scan (make_array separators) (λ c a. a) tt

scan-Reads :
    (separators w r : Bytes)
    → IsAscii separators
    → NoneOf separators w
    → Reads separators
        (w ++ r)
        (scan_plain separators w r).1
        (position_of (scan_plain separators w r).2)
unfolding scan
scan-Reads seps w [] a h = record {
  skipped = [];
  rest = [];
  splits = refl;
  skips = tt;
  whole = h;
  ends = inl (refl, refl);
}
scan-Reads seps [] (c ∷ r) a h = elim (Bool-cases (make_array seps c)) [
  | inl e ↦
      let later = scan-Reads seps [] r a tt in
      rw (e, scan)
        (record {
          skipped = c ∷ later.skipped;
          rest = later.rest;
          splits = ap (◌∷◌ c) later.splits;
          skips = (ground (arith, make_array-contains seps c a), later.skips);
          whole = later.whole;
          ends = later.ends;
        })
  | inr e ↦
      rw (e, scan) (scan-Reads seps (c ∷ []) r a (ground (arith, make_array-contains seps c a), tt))
]
scan-Reads seps (x ∷ w) (c ∷ r) a h = elim (Bool-cases (make_array seps c)) [
  | inl e ↦
      rw (e, scan)
        (record {
          skipped = [];
          rest = c ∷ r;
          splits = refl;
          skips = tt;
          whole = h;
          ends = inr (c, r, refl, ground (arith, make_array-contains seps c a), (λ z. cc z), refl);
        })
  | inr e ↦
      let grown : NoneOf seps (x ∷ (w ++ c ∷ [])) =
        All-append (λ c. contains seps c ≡ false) (x ∷ w) (c ∷ []) h
          (ground (arith, make_array-contains seps c a), tt) in
      subst
        (λ t.
          Reads seps t (scan_plain seps (x ∷ w) (c ∷ r)).1
            (position_of (scan_plain seps (x ∷ w) (c ∷ r)).2))
        (append_assoc (x ∷ w) (c ∷ []) r)
        (rw (e, scan) (scan-Reads seps (x ∷ (w ++ c ∷ [])) r a grown))
]

Separates-plain :
    (separators : Bytes)
    → Separates plain_ops
        (λ (a : Unit {0}). make_array separators)
        (make_array separators)
        (λ c a. a)
unfolding plain_ops is_separator_in
Separates-plain separators = record {
  asks = λ c a h. ground arith;
  passes = λ c a h. refl;
  finds = λ a. refl;
  finishes = λ n a. refl;
}

-- `readWord` skips the separators that stand first and returns the chars up to the next one; then
-- the position is behind that separator, or there is none left when the text ends first. The text
-- at the position is of bytes without NUL, and the separators are ASCII.
pub read_word_of-Reads :
    (separators : Bytes) (p : ParsableString) (text : Bytes)
    → IsAscii separators
    → p.parsing_position ≡ some text
    → IsText text
    → Reads separators text
        (read_word_of separators false p).1
        (read_word_of separators false p).0.parsing_position
unfolding read_word_of plain_ops
read_word_of-Reads seps p text a at h =
    rw
      (read_word-scan plain_ops (λ (a : Unit {0}). make_array seps) (make_array seps) (λ c a. a)
        (Separates-plain seps) p tt text at (ground arith) h)
      (scan-Reads seps [] text a tt)
