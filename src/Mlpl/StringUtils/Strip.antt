-- ===== src/Mlpl/StringUtils/Strip.antt =====
-- `StringUtils::stripBothEndsSpaces`.
use hatohol.Base.{
  ℕ, zero, suc, ◌+◌, ◌-◌, ◌<◌, ◌≡◌, refl, sym, ap, ◌∙◌, inl, inr, Bool, false, not, [], ◌∷◌, ◌++◌,
  append-nil, append_assoc, arith, ◌==◌, if◌then◌else◌, Bool-cases, length, length-append, take,
  drop, replicate, take-length-append, drop-length-append, Bytes,
}

-- `*(str.c_str() + i)`: behind the last char stands a NUL.
char_at : Bytes → ℕ → ℕ
char_at [] i = 0
char_at (c ∷ s) zero = c
char_at (c ∷ s) (suc i) = char_at s i

-- The first loop: from `start_position` on, where `ptr` is the rest of the text.
leading_loop : Bytes → ℕ → ℕ
leading_loop [] start_position = start_position
leading_loop (c ∷ ptr) start_position =
    let next = leading_loop ptr (start_position + 1) in
    if not (c == b' ') then start_position else next

-- The second loop, backwards from the index `ptr`.
trailing_loop : Bytes → ℕ → ℕ → ℕ
trailing_loop str zero ptr = zero
trailing_loop str (suc body_length) ptr =
    let next = trailing_loop str body_length (ptr - 1) in
    if not (char_at str ptr == b' ') then suc body_length else next

unfoldable pub strip_both_ends_spaces : Bytes → Bytes
unfolding leading_loop trailing_loop char_at
strip_both_ends_spaces str =
    let size = length str in
    let start_position = leading_loop str 0 in
    let body_length = trailing_loop str (size - start_position) (size - 1) in
    if size == 0
    then []
    else if start_position == size
    then []
    else take body_length (drop start_position str)

unfoldable pub starts_with_space : Bytes → Bool
starts_with_space [] = false
starts_with_space (c ∷ s) = c == b' '

unfoldable pub ends_with_space : Bytes → Bool
ends_with_space [] = false
ends_with_space (c ∷ []) = c == b' '
ends_with_space (c ∷ d ∷ s) = ends_with_space (d ∷ s)

abbrev pub spaces : ℕ → Bytes
spaces n = replicate n b' '

leading :
    (s : Bytes)
    → (k : ℕ) × (r : Bytes) × (s ≡ spaces k ++ r)
      × (starts_with_space r ≡ false)
      × ((p : ℕ) → leading_loop s p ≡ p + k)
unfolding leading_loop starts_with_space
leading [] = (0, [], refl, refl, λ p. omega arith)
leading (c ∷ s) = elim (Bool-cases (c == b' ')) [
  | inl space ↦
      let (k, r, split, first, count) = leading s in
      (suc k, r, ground arith, first, λ p. ground (arith, count (p + 1)))
  | inr other ↦ (0, c ∷ s, refl, other, λ p. ground arith)
]

char_at-append : (s t : Bytes) (c : ℕ) → char_at (s ++ (c ∷ t)) (length s) ≡ c
unfolding char_at
char_at-append [] t c = refl
char_at-append (x ∷ s) t c = char_at-append s t c

ends_with_space-snoc : (s : Bytes) (c : ℕ) → ends_with_space (s ++ c ∷ []) ≡ (c == b' ')
unfolding ends_with_space
ends_with_space-snoc [] c = refl
ends_with_space-snoc (x ∷ []) c = refl
ends_with_space-snoc (x ∷ y ∷ s) c = ends_with_space-snoc (y ∷ s) c

spaces-snoc : (n : ℕ) → spaces n ++ b' ' ∷ [] ≡ spaces (suc n)
spaces-snoc zero = refl
spaces-snoc (suc n) = ap (◌∷◌ b' ') (spaces-snoc n)

snoc :
    (n : ℕ) (s : Bytes)
    → length s ≡ suc n
    → (init : Bytes) × (c : ℕ) × (s ≡ init ++ c ∷ []) × (length init ≡ n)
snoc n [] h = absurd (omega arith)
snoc zero (x ∷ []) h = ([], x, refl, refl)
snoc zero (x ∷ y ∷ s) h = absurd (omega arith)
snoc (suc n) (x ∷ s) h =
    let (init, c, split, l) = snoc n s (omega arith) in (x ∷ init, c, ap (◌∷◌ x) split, omega arith)

trailing :
    (n : ℕ) (pre body rest : Bytes)
    → length body ≡ n
    → (b : Bytes) × (j : ℕ) × (trailing_loop (pre ++ (body ++ rest)) n (length pre + n - 1)
        ≡ length b)
      × (body ≡ b ++ spaces j)
      × (ends_with_space b ≡ false)
unfolding trailing_loop ends_with_space
trailing zero pre [] rest l = ([], 0, refl, refl, refl)
trailing zero pre (c ∷ body) rest l = absurd (omega arith)
trailing (suc n) pre body rest l =
    let (init, c, split, l') = snoc n body l in
    let here : char_at (pre ++ (body ++ rest)) (length pre + suc n - 1) ≡ c =
      rw (split, append_assoc init (c ∷ []) rest, ← append_assoc pre init (c ∷ rest))
        (let e : length pre + suc n - 1 ≡ length (pre ++ init) =
            omega (arith, length-append pre init) in
          rw e (char_at-append (pre ++ init) rest c)) in
    elim (Bool-cases (c == b' ')) [
      | inl space ↦
          let (b, j, count, cut, last) = trailing n pre init (c ∷ rest) l' in
          let moved : body ++ rest ≡ init ++ (c ∷ rest) =
            ap (λ x. x ++ rest) split ∙ append_assoc init (c ∷ []) rest in
          let back : length pre + suc n - 1 - 1 ≡ length pre + n - 1 = omega arith in
          let count' : trailing_loop (pre ++ (body ++ rest)) n (length pre + suc n - 1 - 1)
              ≡ length b =
            rw (moved, back) count in
          (
            b,
            suc j,
            ground (arith, here, count'),
            ground (arith, split, cut, append_assoc b (spaces j) (c ∷ []), spaces-snoc j),
            last,
          )
      | inr other ↦ (
        body,
        0,
        ground (arith, here),
        sym (append-nil body),
        rw split (ends_with_space-snoc init c ∙ other),
      )
    ]

-- `t` is `s` without the spaces at its two ends.
pub record IsStripped (s t : Bytes) : Type 0 where
  pub before : ℕ
  pub after : ℕ
  pub splits : s ≡ spaces before ++ (t ++ spaces after)
  pub first : starts_with_space t ≡ false
  pub last : ends_with_space t ≡ false

length-spaces : (n : ℕ) → length (spaces n) ≡ n
length-spaces zero = refl
length-spaces (suc n) = ap suc (length-spaces n)

starts_with_space-append :
    (b t : Bytes) → starts_with_space (b ++ t) ≡ false → starts_with_space b ≡ false
unfolding starts_with_space
starts_with_space-append [] t h = refl
starts_with_space-append (c ∷ b) t h = h

-- The body that the two loops leave, where something is left.
strip-eq :
    (s r b : Bytes) (k j : ℕ)
    → s ≡ spaces k ++ r
    → r ≡ b ++ spaces j
    → leading_loop s 0 ≡ k
    → 0 < length r
    → trailing_loop (spaces k ++ (r ++ [])) (length r) (length (spaces k) + length r - 1) ≡ length b
    → strip_both_ends_spaces s ≡ b
unfolding strip_both_ends_spaces
strip-eq s r b k j split cut lead pos trail =
    let size : length s ≡ k + length r =
      omega (arith, ap length split, length-append (spaces k) r, length-spaces k) in
    let body : length s - k ≡ length r = omega arith in
    let end : length s - 1 ≡ length (spaces k) + length r - 1 = omega (arith, length-spaces k) in
    let whole : s ≡ spaces k ++ (r ++ []) = split ∙ ap (◌++◌ (spaces k)) (sym (append-nil r)) in
    let tail : drop k s ≡ b ++ spaces j =
      ap (drop k) split
      ∙ ap (λ n. drop n (spaces k ++ r)) (sym (length-spaces k))
      ∙ drop-length-append (spaces k) r
      ∙ cut in
    let taken : take (length b) (drop k s) ≡ b =
      ap (take (length b)) tail ∙ take-length-append b (spaces j) in
    let count : trailing_loop s (length s - k) (length s - 1) ≡ length b =
      ap (λ t. trailing_loop t (length s - k) (length s - 1)) whole
      ∙ ap (λ n. trailing_loop (spaces k ++ (r ++ [])) n (length s - 1)) body
      ∙ ap (λ n. trailing_loop (spaces k ++ (r ++ [])) (length r) n) end
      ∙ trail in
    ground (arith, lead, count, taken)

strip_blank :
    (s : Bytes) (k : ℕ) → s ≡ spaces k → leading_loop s 0 ≡ k → strip_both_ends_spaces s ≡ []
unfolding strip_both_ends_spaces
strip_blank s k split lead = ground (arith, lead, ap length split, length-spaces k)

strip_rest :
    (s : Bytes) (k : ℕ) (r : Bytes)
    → s ≡ spaces k ++ r
    → starts_with_space r ≡ false
    → leading_loop s 0 ≡ k
    → IsStripped s (strip_both_ends_spaces s)
unfolding starts_with_space ends_with_space
strip_rest s k [] split first lead =
    let e = strip_blank s k (split ∙ append-nil (spaces k)) lead in
    record { before = k; after = 0; splits = rw e split; first = rw e refl; last = rw e refl }
strip_rest s k (x ∷ r) split first lead =
    let (b, j, trail, cut, end) = trailing (suc (length r)) (spaces k) (x ∷ r) [] refl in
    let e = strip-eq s (x ∷ r) b k j split cut lead (omega arith) trail in
    record {
      before = k;
      after = j;
      splits = rw e (split ∙ ap (◌++◌ (spaces k)) cut);
      first = rw e (starts_with_space-append b (spaces j) (ap starts_with_space (sym cut) ∙ first));
      last = rw e end;
    }

-- `stripBothEndsSpaces` takes off all the spaces at the two ends, and nothing else.
pub strip-IsStripped : (str : Bytes) → IsStripped str (strip_both_ends_spaces str)
strip-IsStripped s =
    let (k, r, split, first, count) = leading s in
    strip_rest s k r split first (count 0 ∙ omega arith)
