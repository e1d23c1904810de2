-- ===== src/Mlpl/SmartBuffer/Block.antt =====
-- A block of bytes, and the integers that lie in it: little-endian, as on the machines the server
-- runs on. A read or a write beyond the block is undefined in C++, here it is `none`.
use hatohol.Base.{
  ℕ, zero, suc, ◌+◌, ◌-◌, ◌*◌, ◌/◌, ◌%◌, ◌≤◌, ◌≡◌, refl, sym, ap, ◌∙◌, Option, none, some, [], ◌∷◌,
  ◌++◌, append_assoc, arith, leb, if◌then◌else◌, length, length-append, take, drop,
  take-length-append, Bytes,
}

abbrev pub size_mod : ℕ
size_mod = 18446744073709551616

unfoldable pub write_at : Bytes → ℕ → Bytes → Option Bytes
write_at block i src =
    if leb (i + length src) (length block)
    then some (take i block ++ (src ++ drop (i + length src) block))
    else none

unfoldable pub read_at : Bytes → ℕ → ℕ → Option Bytes
read_at block i n = if leb (i + n) (length block) then some (take n (drop i block)) else none

unfoldable pub to_bytes : ℕ → ℕ → Bytes
to_bytes zero val = []
to_bytes (suc n) val = val % 256 ∷ to_bytes n (val / 256)

unfoldable pub of_bytes : Bytes → ℕ
of_bytes [] = 0
of_bytes (x ∷ xs) = x + 256 * of_bytes xs

pub length-to_bytes : (n val : ℕ) → length (to_bytes n val) ≡ n
unfolding to_bytes
length-to_bytes zero val = refl
length-to_bytes (suc n) val = ap suc (length-to_bytes n (val / 256))

pub of_bytes-to_bytes4 : (val : ℕ) → of_bytes (to_bytes 4 val) ≡ val % 4294967296
unfolding to_bytes of_bytes
of_bytes-to_bytes4 val = omega arith

pub length-take_le : (n : ℕ) (xs : Bytes) → n ≤ length xs → length (take n xs) ≡ n
length-take_le zero xs h = refl
length-take_le (suc n) [] h = omega arith
length-take_le (suc n) (x ∷ xs) h = ap suc (length-take_le n xs (omega arith))

pub length-drop : (n : ℕ) (xs : Bytes) → length (drop n xs) ≡ length xs - n
length-drop zero xs = omega arith
length-drop (suc n) [] = omega arith
length-drop (suc n) (x ∷ xs) = omega (arith, length-drop n xs)

pub write_at-inside :
    (block : Bytes) (i : ℕ) (src : Bytes)
    → i + length src ≤ length block
    → write_at block i src ≡ some (take i block ++ (src ++ drop (i + length src) block))
unfolding write_at
write_at-inside block i src h = ground arith

pub length-written :
    (block : Bytes) (i : ℕ) (src : Bytes)
    → i + length src ≤ length block
    → length (take i block ++ (src ++ drop (i + length src) block)) ≡ length block
length-written block i src h = omega (
  arith,
  length-append (take i block) (src ++ drop (i + length src) block),
  length-append src (drop (i + length src) block),
  length-take_le i block (omega arith),
  length-drop (i + length src) block,
)

-- What a write leaves in front of its end.
pub take-written :
    (block : Bytes) (i : ℕ) (src : Bytes)
    → i + length src ≤ length block
    → take (i + length src) (take i block ++ (src ++ drop (i + length src) block))
      ≡ take i block ++ src
take-written block i src h =
    let front : length (take i block ++ src) ≡ i + length src =
      omega (arith, length-append (take i block) src, length-take_le i block (omega arith)) in
    ap (λ n. take n (take i block ++ (src ++ drop (i + length src) block))) (sym front)
    ∙ rw (← append_assoc (take i block) src (drop (i + length src) block))
        (take-length-append (take i block ++ src) (drop (i + length src) block))
