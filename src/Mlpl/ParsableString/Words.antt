-- ===== src/Mlpl/ParsableString/Words.antt =====
-- What `readWord` reads, for any checker whose answers depend on the char alone.
use hatohol.Base.{
  ℕ, suc, ◌<◌, ◌≡◌, ◌≢◌, refl, inl, inr, Bool, true, false, Option, none, some, [], ◌∷◌, ◌++◌,
  append_assoc, arith, ◌==◌, if◌then◌else◌, Bool-cases, length, length-append, take-length-append,
  Bytes, c_str, All, All-append,
}
use hatohol.Mlpl.ParsableString.Checker.{CheckerOps}
use hatohol.Mlpl.ParsableString.Parser.{
  ParsableString, read_word_action, read_word_finish, parse_loop, parse_end, generic_parse,
  read_word,
}

-- The chars of a C string.
abbrev pub IsText : Bytes → Type 0
IsText = All (λ c. (c ≢ 0) × (c < 0x100))

pub c_str-text : (w : Bytes) → IsText w → c_str w ≡ w
c_str-text [] h = refl
c_str-text (c ∷ w) h = ground (arith, c_str-text w h.1)

pub IsText-c_str : (w : Bytes) → All (λ c. c < 0x100) w → IsText (c_str w)
IsText-c_str [] h = tt
IsText-c_str (c ∷ w) h = ground (arith, IsText-c_str w h.1)

-- A checker in the states `state a`: it separates at the chars of `sep`, it changes by `passed c`
-- at a separator that is passed, and the other notifications do nothing.
pub record Separates {A S : Type 0} (ops : CheckerOps S) (state : A → S) (sep : ℕ → Bool)
    (passed : ℕ → A → A) : Type 0 where
  pub asks : (c : ℕ) (a : A) → c < 0x100 → ops.is_separator c (state a) ≡ (sep c, state a)
  pub passes :
      (c : ℕ) (a : A)
      → sep c ≡ true
      → ops.notify_passed_on_separator c (state a) ≡ state (passed c a)
  pub finds : (a : A) → ops.notify_found (state a) ≡ state a
  pub finishes : (n : ℕ) (a : A) → ops.notify_finish n (state a) ≡ state a

module _ {A : Type 0} (sep : ℕ → Bool) (passed : ℕ → A → A) where
  -- The checker, the word and, if a separator ended it, that separator and the text behind it;
  -- `w` is what has been read of the word.
  unfoldable pub scan : A → Bytes → Bytes → A × Bytes × Option (ℕ × Bytes)
  scan a w [] = (a, w, none)
  scan a [] (c ∷ r) =
      let skipped = scan (passed c a) [] r in
      let begun = scan a (c ∷ []) r in if sep c then skipped else begun
  scan a (x ∷ w) (c ∷ r) =
      let grown = scan a ((x ∷ w) ++ c ∷ []) r in if sep c then (a, x ∷ w, some (c, r)) else grown

  pub scan-IsText : (a : A) (w r : Bytes) → IsText w → IsText r → IsText (scan a w r).1
  unfolding scan
  scan-IsText a w [] h g = h
  scan-IsText a [] (c ∷ r) h g = elim (Bool-cases (sep c)) [
    | inl e ↦ rw (e, scan) (scan-IsText (passed c a) [] r tt g.1)
    | inr e ↦ rw (e, scan) (scan-IsText a (c ∷ []) r (g.0, tt) g.1)
  ]
  scan-IsText a (x ∷ w) (c ∷ r) h g = elim (Bool-cases (sep c)) [
    | inl e ↦ rw (e, scan) h
    | inr e ↦
        rw (e, scan)
          (scan-IsText a ((x ∷ w) ++ c ∷ []) r (All-append _ (x ∷ w) (c ∷ []) h (g.0, tt)) g.1)
  ]

  -- The checker when a read begins: the separator that ended the last word is passed first.
  abbrev pub resumed : ℕ → A → A
  resumed pending a = if pending == 0 then a else passed pending a

-- Where a scan leaves the parser.
abbrev pub position_of : Option (ℕ × Bytes) → Option Bytes
position_of none = none
position_of (some (c, r)) = some r

abbrev pub pending_of : ℕ → Option (ℕ × Bytes) → ℕ
pending_of n none = n
pending_of n (some (c, r)) = c

abbrev pub landed : ParsableString → Bytes → Option (ℕ × Bytes) → ParsableString
landed p w o = record p {
  word = w;
  parsing_position = position_of o;
  pending_notify_separator = pending_of p.pending_notify_separator o;
}

-- The parser when a scan begins.
abbrev pub reset : ParsableString → ParsableString
reset p = record p { keep_parsing_position = false; word = []; pending_notify_separator = 0 }

module _ {A S : Type 0} (ops : CheckerOps S) (state : A → S) (sep : ℕ → Bool) (passed : ℕ → A → A)
    (k : Separates ops state sep passed) where
  parse_loop-scan :
      (p : ParsableString) (a : A) (w r : Bytes)
      → p.keep_parsing_position ≡ false
      → p.word ≡ []
      → IsText r
      → parse_loop ops read_word_action read_word_finish p (state a) (length w) (w ++ r) r ≡ (
        landed p (scan sep passed a w r).1 (scan sep passed a w r).2,
        state (scan sep passed a w r).0,
      )
  unfolding parse_loop parse_end scan read_word_action read_word_finish
  parse_loop-scan p a [] [] keep blank h = ground (arith, k.finishes 0 a)
  parse_loop-scan p a (x ∷ w) [] keep blank h =
      ground (arith, k.finds a, k.finishes (suc (length w)) a, take-length-append (x ∷ w) [])
  parse_loop-scan p a [] (c ∷ r) keep blank h = ground (
    arith,
    k.asks c a h.0.1,
    k.passes c a,
    parse_loop-scan p (passed c a) [] r keep blank h.1,
    parse_loop-scan p a (c ∷ []) r keep blank h.1,
  )
  parse_loop-scan p a (x ∷ w) (c ∷ r) keep blank h = ground (
    arith,
    k.asks c a h.0.1,
    k.finds a,
    take-length-append (x ∷ w) (c ∷ r),
    length-append w (c ∷ []),
    append_assoc w (c ∷ []) r,
    parse_loop-scan p a (x ∷ (w ++ c ∷ [])) r keep blank h.1,
  )

  -- `readWord`, when it moves the position, is one scan from there.
  pub read_word-scan :
      (p : ParsableString) (a : A) (r : Bytes)
      → p.parsing_position ≡ some r
      → (if p.pending_notify_separator == 0
          then state a
          else ops.notify_passed_on_separator p.pending_notify_separator (state a))
        ≡ state (resumed sep passed p.pending_notify_separator a)
      → IsText r
      → let a' = resumed sep passed p.pending_notify_separator a in
        read_word ops false p (state a) ≡ (
          landed (reset p) (scan sep passed a' [] r).1 (scan sep passed a' [] r).2,
          state (scan sep passed a' [] r).0,
          (scan sep passed a' [] r).1,
        )
  unfolding read_word generic_parse
  read_word-scan p a r at pend h =
      let a' = resumed sep passed p.pending_notify_separator a in
      ground (
        arith,
        at,
        pend,
        parse_loop-scan (reset p) a [] r refl refl h,
        parse_loop-scan (reset p) (passed p.pending_notify_separator a) [] r refl refl h,
        c_str-text (scan sep passed a' [] r).1 (scan-IsText sep passed a' [] r tt h),
      )
