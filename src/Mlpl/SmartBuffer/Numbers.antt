-- ===== src/Mlpl/SmartBuffer/Numbers.antt =====
-- Numbers that are read back from a buffer.
use hatohol.Base.{
  ℕ, zero, suc, ◌+◌, ◌*◌, ◌/◌, ◌%◌, ◌^◌, ◌<◌, ◌≡◌, refl, sym, subst, ◌∙◌, Option, some, List, [],
  ◌∷◌, ◌++◌, map, append_assoc, arith, length, length-append, drop, take-length-append,
  drop-length-append, take-append-drop, Bytes, All,
}
use package.hatohol.Mlpl.SmartBuffer.Block.{size_mod, read_at, to_bytes, of_bytes, length-to_bytes}
use package.hatohol.Mlpl.SmartBuffer.Operations.{
  SmartBuffer, Outcome, ok, fail, alloc_failed, then_ok, init, get_value, get_value_and_inc_index,
  reset_index,
}
use package.hatohol.Mlpl.SmartBuffer.Appends.{Reallocates, Appended}
use package.hatohol.Mlpl.SmartBuffer.Sequence.{
  Write, number, payloads, write_all, write_all-Appended,
}

of_bytes-to_bytes : (n val : ℕ) → val < 256 ^ n → of_bytes (to_bytes n val) ≡ val
unfolding of_bytes to_bytes
of_bytes-to_bytes zero val h = omega arith
of_bytes-to_bytes (suc n) val h = omega (arith, of_bytes-to_bytes n (val / 256) (omega arith))

-- Sizes in bytes, with values that the sizes take.
abbrev pub Fit : List (ℕ × ℕ) → Type 0
Fit ns = All (λ (n, val). val < 256 ^ n) ns

abbrev pub numbers : List (ℕ × ℕ) → List Write
numbers [] = []
numbers ((n, val) ∷ ns) = number n val ∷ numbers ns

abbrev pub read_all : SmartBuffer → List (ℕ × ℕ) → Outcome (SmartBuffer × List ℕ)
read_all b [] = ok (b, [])
read_all b ((n, val) ∷ ns) =
    then_ok (get_value_and_inc_index b n)
      (λ (c, v). then_ok (read_all c ns) (λ (d, vs). ok (d, v ∷ vs)))

pub read_at-inside :
    (front src rest : Bytes)
    → read_at (front ++ (src ++ rest)) (length front) (length src) ≡ some src
unfolding read_at
read_at-inside front src rest = ground (
  arith,
  length-append front (src ++ rest),
  length-append src rest,
  drop-length-append front (src ++ rest),
  take-length-append src rest,
)

pub get_value-number :
    (b : SmartBuffer) (front rest : Bytes) (n val : ℕ)
    → val < 256 ^ n
    → b.buf ≡ front ++ (to_bytes n val ++ rest)
    → b.index ≡ length front
    → b.index + n < size_mod
    → get_value_and_inc_index b n ≡ ok (record b { index = b.index + n }, val)
unfolding get_value_and_inc_index get_value
get_value-number b front rest n val small e at fits =
    let r : read_at b.buf b.index n ≡ some (to_bytes n val) =
      rw (e, at)
        (subst
          (λ m.
            read_at (front ++ (to_bytes n val ++ rest)) (length front) m ≡ some (to_bytes n val))
          (length-to_bytes n val) (read_at-inside front (to_bytes n val) rest)) in
    let w : (b.index + n) % size_mod ≡ b.index + n = omega arith in
    rw (get_value, r, w, of_bytes-to_bytes n val small) refl

abbrev pub values : List (ℕ × ℕ) → List ℕ
values ns = map (λ (n, val). val) ns

read_all-numbers :
    (b : SmartBuffer) (ns : List (ℕ × ℕ)) (front rest : Bytes)
    → Fit ns
    → b.buf ≡ front ++ (payloads (numbers ns) ++ rest)
    → b.index ≡ length front
    → b.index + length (payloads (numbers ns)) < size_mod
    → read_all b ns ≡ ok (record b { index = b.index + length (payloads (numbers ns)) }, values ns)
read_all-numbers b [] front rest fit e at fits =
    let same : b.index + 0 ≡ b.index = omega arith in rw same refl
read_all-numbers b ((n, val) ∷ ns) front rest (small, fit) e at fits =
    let len = length-append (to_bytes n val) (payloads (numbers ns)) in
    let size = length-to_bytes n val in
    let behind = append_assoc (to_bytes n val) (payloads (numbers ns)) rest in
    let first =
      get_value-number b front (payloads (numbers ns) ++ rest) n val small (rw (← behind) e) at
        (omega arith) in
    let others =
      read_all-numbers (record b { index = b.index + n }) ns (front ++ to_bytes n val) rest fit
        (e ∙ rw (behind, append_assoc front (to_bytes n val) (payloads (numbers ns) ++ rest)) refl)
        (omega (arith, length-append front (to_bytes n val))) (omega arith) in
    let sum : b.index + n + length (payloads (numbers ns))
        ≡ b.index + length (to_bytes n val ++ payloads (numbers ns)) =
      omega arith in
    rw (first, others, sum) refl

abbrev pub ReadsBack : List (ℕ × ℕ) → Outcome SmartBuffer → Type 0
ReadsBack ns (ok c) = read_all (reset_index c) ns ≡ ok (c, values ns)
ReadsBack ns (fail e) = e ≡ alloc_failed

-- Numbers of 1, 2, 4, 8 or any other size in bytes, each written by the extending write of its
-- size to a new buffer, are read back in their order after `resetIndex`, and the reading ends
-- where the writing did: unless `realloc` fails. Each number fits its size, all of them stay
-- below half of what `size_t` counts, and `realloc` keeps the old bytes.
pub read_all-write_all :
    (realloc : Bytes → ℕ → Option Bytes)
    → Reallocates realloc
    → (ns : List (ℕ × ℕ)) → Fit ns
    → 2 * length (payloads (numbers ns)) < size_mod
    → ReadsBack ns (write_all realloc init (numbers ns))
unfolding init reset_index
read_all-write_all realloc re ns fit fits = go (write_all realloc init (numbers ns)) (
    write_all-Appended realloc re init (numbers ns) refl (omega arith) (omega arith) (omega arith)
      (omega arith))
  where
    go : (out : Outcome SmartBuffer) → Appended init (payloads (numbers ns)) out → ReadsBack ns out
    go (fail e) a = a
    go (ok c) (h, at, inside, small, mark, all) =
        let buf : c.buf ≡ payloads (numbers ns) ++ drop c.index c.buf =
          sym (take-append-drop c.index c.buf) ∙ rw all refl in
        rw
          (
            read_all-numbers (reset_index c) ns [] (drop c.index c.buf) fit buf refl (omega arith),
            ← at,
          )
          refl
