-- ===== src/Mlpl/StringUtils/Affix.antt =====
-- `StringUtils::hasPrefix` and `hasSuffix`.
use hatohol.Base.{
  ℕ, zero, suc, ◌-◌, ◌≤◌, ◌≡◌, refl, sym, ap, ◌∙◌, ◌↔◌, inl, inr, Bool, true, false, ◌||◌, ◌&&◌, [],
  ◌∷◌, ◌++◌, arith, ltb, ◌==◌, if◌then◌else◌, ltb→lt, Bool-cases, length, length-append, take, drop,
  drop-length-append, take-append-drop, Bytes, contains,
}
use hatohol.Mlpl.StringUtils.Chars.{to_lower_char}

-- `strncmp(a, b, n) == 0`, and the same up to the case of letters.
strncmp_eq : (ℕ → ℕ) → ℕ → Bytes → Bytes → Bool
strncmp_eq fold zero a b = true
strncmp_eq fold (suc n) [] [] = true
strncmp_eq fold (suc n) [] (d ∷ b) = d == 0
strncmp_eq fold (suc n) (c ∷ a) [] = c == 0
strncmp_eq fold (suc n) (c ∷ a) (d ∷ b) = fold c == fold d && (c == 0 || strncmp_eq fold n a b)

abbrev same_case : ℕ → ℕ
same_case c = c

unfoldable pub has_prefix : Bytes → Bytes → Bool → Bool
unfolding strncmp_eq to_lower_char
has_prefix str prefix case_sensitive =
    if ltb (length str) (length prefix)
    then false
    else if case_sensitive
    then strncmp_eq same_case (length prefix) str prefix
    else strncmp_eq to_lower_char (length prefix) str prefix

-- `strcmp(a, b) == 0`, and `strcasecmp`.
strcmp_eq : (ℕ → ℕ) → Bytes → Bytes → Bool
strcmp_eq fold [] [] = true
strcmp_eq fold [] (d ∷ b) = d == 0
strcmp_eq fold (c ∷ a) [] = c == 0
strcmp_eq fold (c ∷ a) (d ∷ b) = fold c == fold d && (c == 0 || strcmp_eq fold a b)

unfoldable pub has_suffix : Bytes → Bytes → Bool → Bool
unfolding strcmp_eq to_lower_char
has_suffix str suffix case_sensitive =
    let str1 = drop (length str - length suffix) str in
    if ltb (length str) (length suffix)
    then false
    else if case_sensitive
    then strcmp_eq same_case str1 suffix
    else strcmp_eq to_lower_char str1 suffix

strncmp_eq-prefix :
    (s p : Bytes)
    → length p ≤ length s
    → contains p 0 ≡ false
    → (strncmp_eq same_case (length p) s p ≡ true) ↔ ((rest : Bytes) × (s ≡ p ++ rest))
unfolding strncmp_eq
strncmp_eq-prefix s [] l h = (λ e. (s, refl), λ e. refl)
strncmp_eq-prefix [] (d ∷ p) l h = absurd (omega arith)
strncmp_eq-prefix (c ∷ s) (d ∷ p) l h =
    let rec = strncmp_eq-prefix s p (omega arith) (ground arith) in
    (
      λ e. let (rest, split) = rec.0 (ground arith) in (rest, ground arith),
      λ (rest, split). ground (arith, rec.1 (rest, ground arith)),
    )

-- With regard to case, a string has a prefix without NUL exactly when it is that prefix and a rest.
has_prefix_iff :
    (str prefix : Bytes)
    → contains prefix 0 ≡ false
    → (has_prefix str prefix true ≡ true) ↔ ((rest : Bytes) × (str ≡ prefix ++ rest))
unfolding has_prefix
has_prefix_iff s p h = elim (Bool-cases (ltb (length s) (length p))) [
  | inl short ↦ (
    λ e. (ground arith),
    λ (rest, e). absurd (omega (arith, ltb→lt _ _ short, ap length e, length-append p rest)),
  )
  | inr long ↦ rw long (strncmp_eq-prefix s p (ground arith) h)
]

strcmp_eq-eq :
    (a b : Bytes)
    → length a ≡ length b
    → contains b 0 ≡ false
    → (strcmp_eq same_case a b ≡ true) ↔ (a ≡ b)
unfolding strcmp_eq
strcmp_eq-eq [] [] l h = (λ e. refl, λ e. refl)
strcmp_eq-eq [] (d ∷ b) l h = absurd (omega arith)
strcmp_eq-eq (c ∷ a) [] l h = absurd (omega arith)
strcmp_eq-eq (c ∷ a) (d ∷ b) l h =
    let rec = strcmp_eq-eq a b (omega arith) (ground arith) in
    (λ e. ground (arith, rec.0), λ e. ground (arith, rec.1))

length-drop : (n : ℕ) (s : Bytes) → length (drop n s) ≡ length s - n
length-drop zero s = omega arith
length-drop (suc n) [] = omega arith
length-drop (suc n) (c ∷ s) = omega (arith, length-drop n s)

drop-suffix :
    (s t : Bytes)
    → length t ≤ length s
    → (drop (length s - length t) s ≡ t) ↔ ((rest : Bytes) × (s ≡ rest ++ t))
drop-suffix s t l = (
  λ e. (
    take (length s - length t) s,
    sym (take-append-drop (length s - length t) s) ∙ ap (◌++◌ (take (length s - length t) s)) e,
  ),
  λ (rest, e).
      let n : length s - length t ≡ length rest =
        omega (arith, ap length e, length-append rest t) in
      rw n (rw e (drop-length-append rest t)),
)

-- With regard to case, a string has a suffix without NUL exactly when it is a start and that suffix.
has_suffix_iff :
    (str suffix : Bytes)
    → contains suffix 0 ≡ false
    → (has_suffix str suffix true ≡ true) ↔ ((start : Bytes) × (str ≡ start ++ suffix))
unfolding has_suffix
has_suffix_iff s t h = elim (Bool-cases (ltb (length s) (length t))) [
  | inl short ↦ (
    λ e. (ground arith),
    λ (start, e). absurd (omega (arith, ltb→lt _ _ short, ap length e, length-append start t)),
  )
  | inr long ↦
      let fits : length t ≤ length s = ground arith in
      let same =
        strcmp_eq-eq (drop (length s - length t) s) t
          (omega (arith, length-drop (length s - length t) s)) h in
      let cut = drop-suffix s t fits in rw long (λ e. cut.0 (same.0 e), λ r. same.1 (cut.1 r))
]
