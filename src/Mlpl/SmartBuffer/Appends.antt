-- ===== src/Mlpl/SmartBuffer/Appends.antt =====
-- Writing behind what was written, with the block extended where it is too short.
use hatohol.Base.{
  ℕ, ◌+◌, ◌*◌, ◌%◌, ◌≤◌, ◌<◌, ◌≡◌, refl, ◌∙◌, inl, inr, false, Option, some, ◌++◌, arith, ltb,
  Bool-cases, Option-cases, length, take, drop, Bytes,
}
use package.hatohol.Mlpl.SmartBuffer.Block.{
  size_mod, write_at, to_bytes, write_at-inside, length-written, take-written, length-to_bytes,
}
use package.hatohol.Mlpl.SmartBuffer.Operations.{
  SmartBuffer, Outcome, ok, fail, alloc_failed, then_ok, alloc, ensure_remaining_size, add,
  add_template, add_ex, add_ex_template, store_at, inc_index, set_watermark_if_needed,
}

-- `realloc` as its manual page has it: no block, or one of the size asked for that begins with the
-- old block's bytes, as many as both have.
unfoldable pub Reallocates : (Bytes → ℕ → Option Bytes) → Type 0
Reallocates realloc =
    (block : Bytes) (n : ℕ) (moved : Bytes)
    → realloc block n ≡ some moved
    → (length moved ≡ n) × ((k : ℕ) → k ≤ length block → k ≤ n → take k moved ≡ take k block)

-- `src` stands behind the first `b.index` bytes of `b`, and the buffer is one block of its size.
abbrev pub Holds : SmartBuffer → Bytes → SmartBuffer → Type 0
Holds b src c =
    (length c.buf ≡ c.size)
    × (c.index ≡ b.index + length src)
    × (c.index ≤ c.size)
    × (c.size < size_mod)
    × (c.index ≤ c.watermark)
    × (take c.index c.buf ≡ take b.index b.buf ++ src)

abbrev pub Appended : SmartBuffer → Bytes → Outcome SmartBuffer → Type 0
Appended b src (ok c) = Holds b src c
Appended b src (fail e) = e ≡ alloc_failed

pub store_at-inside :
    (b : SmartBuffer) (i : ℕ) (src : Bytes)
    → i + length src ≤ length b.buf
    → store_at b i src
      ≡ ok (record b { buf = take i b.buf ++ (src ++ drop (i + length src) b.buf) })
unfolding store_at
store_at-inside b i src fits = rw (store_at, write_at-inside b.buf i src fits) refl

pub wrap_small : (n : ℕ) → n < size_mod → n % size_mod ≡ n
wrap_small n h = omega arith

pub inc_index-Holds :
    (b : SmartBuffer) (src block : Bytes)
    → length block ≡ b.size
    → take (b.index + length src) block ≡ take b.index b.buf ++ src
    → b.index + length src ≤ b.size
    → b.size < size_mod
    → Holds b src (inc_index (record b { buf = block }) (length src))
unfolding inc_index set_watermark_if_needed
inc_index-Holds b src block h t fits small =
    let w = wrap_small (b.index + length src) (omega arith) in
    elim (Bool-cases (ltb b.watermark (b.index + length src))) [
      | inl e ↦ rw (w, e) (h, refl, fits, small, omega arith, t)
      | inr e ↦ rw (w, e) (h, refl, fits, small, ground arith, t)
    ]

-- A block that is long enough takes the bytes.
pub add-Appended :
    (b : SmartBuffer) (src : Bytes)
    → length b.buf ≡ b.size
    → b.index + length src ≤ b.size
    → b.size < size_mod
    → Appended b src (add b src)
unfolding add
add-Appended b src h fits small = rw (store_at-inside b b.index src (omega arith)) (
    inc_index-Holds b src (take b.index b.buf ++ (src ++ drop (b.index + length src) b.buf))
      (length-written b.buf b.index src (omega arith) ∙ h)
      (take-written b.buf b.index src (omega arith)) fits small)

abbrev pub Grown : SmartBuffer → ℕ → Outcome SmartBuffer → Type 0
Grown b room (ok c) =
    (length c.buf ≡ c.size)
    × (c.index ≡ b.index)
    × (c.index + room ≤ c.size)
    × (c.size < size_mod)
    × (take c.index c.buf ≡ take b.index b.buf)
Grown b room (fail e) = e ≡ alloc_failed

Appended-from :
    (b c : SmartBuffer) (src : Bytes) (out : Outcome SmartBuffer)
    → c.index ≡ b.index
    → take c.index c.buf ≡ take b.index b.buf
    → Appended c src out
    → Appended b src out
Appended-from b c src (fail e) i t a = a
Appended-from b c src (ok d) i t (h, at, inside, small, mark, all) =
    (h, omega arith, inside, small, mark, rw (← t) all)

append-Grown :
    (b : SmartBuffer) (room : ℕ) (src : Bytes) (grown : Outcome SmartBuffer)
    → length src ≤ room
    → Grown b room grown
    → Appended b src (then_ok grown (λ c. add c src))
append-Grown b room src (fail e) fits g = g
append-Grown b room src (ok c) fits (h, i, f, small, t) =
    Appended-from b c src (add c src) i t (add-Appended c src h (omega arith) small)

-- A number is written as its bytes are.
pub add_template-add : (b : SmartBuffer) (n val : ℕ) → add_template b n val ≡ add b (to_bytes n val)
unfolding add_template add store_at inc_index
add_template-add b n val = elim (Option-cases (write_at b.buf b.index (to_bytes n val))) [
  | inl e ↦ rw (store_at, e) refl
  | inr (block, e) ↦ rw (store_at, e, length-to_bytes n val) refl
]

template-Grown :
    (b : SmartBuffer) (n val : ℕ) (grown : Outcome SmartBuffer)
    → Grown b n grown
    → Appended b (to_bytes n val) (then_ok grown (λ c. add_template c n val))
template-Grown b n val (fail e) g = g
template-Grown b n val (ok c) g =
    rw (add_template-add c n val)
      (append-Grown b n (to_bytes n val) (ok c) (omega (arith, length-to_bytes n val)) g)

module _ (realloc : Bytes → ℕ → Option Bytes) (re : Reallocates realloc) where
  alloc-Grown :
      (b : SmartBuffer) (size room : ℕ)
      → length b.buf ≡ b.size
      → b.index ≤ b.size
      → b.index + room ≤ size
      → size < size_mod
      → Grown b room (alloc realloc b size false)
  unfolding alloc Reallocates
  alloc-Grown b size room h inside fits small = elim (Option-cases (realloc b.buf size)) [
    | inl e ↦ rw (alloc, e) refl
    | inr (block, e) ↦
        let (len, kept) = re b.buf size block e in
        rw (alloc, e) (len, refl, fits, small, kept b.index (omega arith) (omega arith))
  ]

  -- The room asked for, or more, is there.
  pub ensure_remaining_size-Grown :
      (b : SmartBuffer) (room : ℕ)
      → length b.buf ≡ b.size
      → b.index ≤ b.size
      → b.size < size_mod
      → b.index + room < size_mod
      → Grown b room (ensure_remaining_size realloc b room)
  unfolding ensure_remaining_size
  ensure_remaining_size-Grown b room h inside small fits =
      let w = wrap_small (b.index + room) fits in
      elim (Bool-cases (ltb b.size (b.index + room))) [
        | inl e ↦ rw (w, e) (alloc-Grown b (b.index + room) room h inside (omega arith) fits)
        | inr e ↦ rw (w, e) (h, refl, ground arith, small, refl)
      ]

  -- One more piece of data.
  pub add_ex-Appended :
      (b : SmartBuffer) (src : Bytes)
      → length b.buf ≡ b.size
      → b.index ≤ b.size
      → b.size < size_mod
      → 2 * (b.index + length src) < size_mod
      → Appended b src (add_ex realloc b src)
  unfolding add_ex
  add_ex-Appended b src h inside small fits =
      let w = wrap_small (b.index + length src) (omega arith) in
      rw w (
        append-Grown b (b.index + length src) src
          (ensure_remaining_size realloc b (b.index + length src)) (omega arith)
          (ensure_remaining_size-Grown b (b.index + length src) h inside small (omega arith)))

  pub add_ex_template-Appended :
      (b : SmartBuffer) (n val : ℕ)
      → length b.buf ≡ b.size
      → b.index ≤ b.size
      → b.size < size_mod
      → 2 * (b.index + n) < size_mod
      → Appended b (to_bytes n val) (add_ex_template realloc b n val)
  unfolding add_ex_template
  add_ex_template-Appended b n val h inside small fits =
      template-Grown b n val (ensure_remaining_size realloc b n)
        (ensure_remaining_size-Grown b n h inside small (omega arith))
