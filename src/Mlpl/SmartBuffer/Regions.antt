-- ===== src/Mlpl/SmartBuffer/Regions.antt =====
-- Reads of a block in which something has just been written.
use hatohol.Base.{
  ℕ, zero, suc, ◌+◌, ◌≤◌, ◌≡◌, refl, ap, subst, some, [], ◌∷◌, ◌++◌, append_assoc, arith, length,
  length-append, take, drop, Bytes,
}
use package.hatohol.Mlpl.SmartBuffer.Block.{read_at, length-take_le, length-written}
use package.hatohol.Mlpl.SmartBuffer.Numbers.{read_at-inside}

abbrev pub written : Bytes → ℕ → Bytes → Bytes
written block i src = take i block ++ (src ++ drop (i + length src) block)

take-take_append :
    (n j : ℕ) (xs ys : Bytes) → n ≤ j → j ≤ length xs → take n (take j xs ++ ys) ≡ take n xs
take-take_append zero j xs ys h k = refl
take-take_append (suc n) zero xs ys h k = ground arith
take-take_append (suc n) (suc j) [] ys h k = ground arith
take-take_append (suc n) (suc j) (x ∷ xs) ys h k =
    ap (◌∷◌ x) (take-take_append n j xs ys (omega arith) (omega arith))

take-drop_before :
    (n i j : ℕ) (xs ys : Bytes)
    → i + n ≤ j
    → j ≤ length xs
    → take n (drop i (take j xs ++ ys)) ≡ take n (drop i xs)
take-drop_before n zero j xs ys h k = take-take_append n j xs ys (omega arith) k
take-drop_before n (suc i) zero xs ys h k = ground arith
take-drop_before n (suc i) (suc j) [] ys h k = ground arith
take-drop_before n (suc i) (suc j) (x ∷ xs) ys h k =
    take-drop_before n i j xs ys (omega arith) (omega arith)

-- A write behind what is read does not show.
pub read_at-before :
    (block : Bytes) (i n j : ℕ) (src : Bytes)
    → i + n ≤ j
    → j + length src ≤ length block
    → read_at (take j block ++ (src ++ drop (j + length src) block)) i n ≡ read_at block i n
unfolding read_at
read_at-before block i n j src before inside =
    rw
      (
        length-written block j src inside,
        take-drop_before n i j block (src ++ drop (j + length src) block) before (omega arith),
      )
      refl

-- What a write put there is read.
pub read_at-written :
    (block : Bytes) (j : ℕ) (src more : Bytes)
    → j + length (src ++ more) ≤ length block
    → read_at
        (take j block ++ ((src ++ more) ++ drop (j + length (src ++ more)) block))
        j
        (length src)
      ≡ some src
read_at-written block j src more inside =
    let at = length-take_le j block (omega arith) in
    rw (append_assoc src more (drop (j + length (src ++ more)) block)) (
      subst
        (λ i.
          read_at (take j block ++ (src ++ (more ++ drop (j + length (src ++ more)) block))) i
            (length src)
          ≡ some src)
        at (read_at-inside (take j block) src (more ++ drop (j + length (src ++ more)) block)))

pub read_at-size :
    (block : Bytes) (i : ℕ) (src more : Bytes)
    → length src ≡ 4
    → length (src ++ more) ≡ 8
    → i + 8 ≤ length block
    → read_at (written block i (src ++ more)) i 4 ≡ some src
read_at-size block i src more h k inside =
    subst (λ n. read_at (written block i (src ++ more)) i n ≡ some src) h
      (read_at-written block i src more (omega arith))

pub read_at-offset :
    (block : Bytes) (i : ℕ) (src more : Bytes)
    → length src ≡ 4
    → length more ≡ 4
    → i + 8 ≤ length block
    → read_at (written block i (src ++ more)) (i + 4) 4 ≡ some more
read_at-offset block i src more h k inside =
    let rest = drop (i + length (src ++ more)) block in
    let front : length (take i block ++ src) ≡ i + 4 =
      omega (arith, length-append (take i block) src, length-take_le i block (omega arith)) in
    let r = read_at-inside (take i block ++ src) more rest in
    rw (append_assoc src more rest, ← append_assoc (take i block) src (more ++ rest), ← front)
      (subst
        (λ n.
          read_at ((take i block ++ src) ++ (more ++ rest)) (length (take i block ++ src)) n
          ≡ some more)
        k r)
